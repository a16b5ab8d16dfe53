-- ===== src/Router/Tree/Search.antt =====
-- `matchSegments` against the patterns of the trie.
use simdhttp.Common.{
  ◌≡◌, inl, inr, sym, ap, ◌∙◌, subst, Option, none, some, List, [], ◌∷◌, ◌++◌, Bytes,
}
use simdhttp.Router.Escapes.{Decodes}
use simdhttp.Router.Tree.Paths.{
  IsPath, last, more, HasNo, cut_slash_last, cut_slash_more, cut_slash-cases, Decodes-unique,
}
use simdhttp.Router.Tree.{cut_slash}

-- What is behind the first segment.
pub data Rest : Option Bytes → List Bytes → Type 0 where
  at_last : Rest none []
  behind : {tail : Bytes} {ps : List Bytes} → IsPath tail ps → Rest (some tail) ps

pub data Split (p : Bytes) (tail : Option Bytes) : List Bytes → Type 0 where
  split : {ps : List Bytes} → Rest tail ps → Split p tail (p ∷ ps)

-- A path starts with the segment that the cut finds.
pub IsPath-Split :
    {rest : Bytes} {ps : List Bytes} (seg : Bytes) (tail : Option Bytes)
    → cut_slash rest ≡ (seg, tail)
    → IsPath rest ps
    → (p : Bytes) × Decodes seg p × Split p tail ps
IsPath-Split seg tail e (last {seg = s} {p = p} h d) =
    let same : ◌≡◌ {A = Bytes × Option Bytes} (s, none) (seg, tail) =
      sym (cut_slash_last s h) ∙ e in
    (
      p,
      subst (λ x. Decodes x p) (ap (λ q. q.0) same) d,
      subst (λ t. Split p t (p ∷ [])) (ap (λ q. q.1) same) (split at_last),
    )
IsPath-Split seg tail e (more {rest = r} {seg = s} {tail = t} {p = p} {ps = ps} joined h d k) =
    let same : ◌≡◌ {A = Bytes × Option Bytes} (s, some t) (seg, tail) =
      sym (cut_slash_more s t h) ∙ ap cut_slash (sym joined) ∙ e in
    (
      p,
      subst (λ x. Decodes x p) (ap (λ q. q.0) same) d,
      subst (λ x. Split p x (p ∷ ps)) (ap (λ q. q.1) same) (split (behind k)),
    )

pub Split-first :
    {rest : Bytes} {ps : List Bytes} (seg p : Bytes) (tail : Option Bytes)
    → cut_slash rest ≡ (seg, tail)
    → Decodes seg p
    → IsPath rest ps
    → Split p tail ps
Split-first {ps = ps} seg p tail e d k =
    let (p', d', s) = IsPath-Split seg tail e k in
    subst (λ x. Split x tail ps) (Decodes-unique seg p' p d' d) s

last-IsPath :
    (rest seg p : Bytes) (tail : Option Bytes) (ps : List Bytes)
    → ◌≡◌ {A = Bytes × Option Bytes} (seg, tail) (rest, none)
    → HasNo b'/' rest
    → Decodes seg p
    → Rest tail ps
    → IsPath rest (p ∷ ps)
last-IsPath rest seg p tail ps same h d at_last =
    last h (subst (λ x. Decodes x p) (ap (λ q. q.0) same) d)
last-IsPath rest seg p tail ps same h d (behind {tail = t} k) =
    let bad : some t ≡ none = ap (λ q. q.1) same in cc

more-IsPath :
    (rest seg p : Bytes) (tail : Option Bytes) (ps : List Bytes) (s t : Bytes)
    → ◌≡◌ {A = Bytes × Option Bytes} (seg, tail) (s, some t)
    → rest ≡ s ++ (b'/' ∷ t)
    → HasNo b'/' s
    → Decodes seg p
    → Rest tail ps
    → IsPath rest (p ∷ ps)
more-IsPath rest seg p tail ps s t same joined h d at_last =
    let bad : ◌≡◌ {A = Option Bytes} none (some t) = ap (λ q. q.1) same in cc
more-IsPath rest seg p tail ps s t same joined h d (behind {tail = t'} {ps = ps'} k) =
    let tails : some t' ≡ some t = ap (λ q. q.1) same in
    let is : t' ≡ t = cc in
    more joined h (subst (λ x. Decodes x p) (ap (λ q. q.0) same) d) (subst (λ x. IsPath x ps') is k)

pub Rest-IsPath :
    (rest seg p : Bytes) (tail : Option Bytes) (ps : List Bytes)
    → cut_slash rest ≡ (seg, tail)
    → Decodes seg p
    → Rest tail ps
    → IsPath rest (p ∷ ps)
Rest-IsPath rest seg p tail ps e d r = elim (cut_slash-cases rest) [
  | inl h ↦
      let same : ◌≡◌ {A = Bytes × Option Bytes} (seg, tail) (rest, none) =
        sym e ∙ cut_slash_last rest h in
      last-IsPath rest seg p tail ps same h d r
  | inr (s, t, joined, h) ↦
      let same : ◌≡◌ {A = Bytes × Option Bytes} (seg, tail) (s, some t) =
        sym e ∙ ap cut_slash joined ∙ cut_slash_more s t h in
      more-IsPath rest seg p tail ps s t same joined h d r
]
