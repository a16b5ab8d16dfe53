-- ===== src/Router/Tree/Matching.antt =====
-- What `matchSegments` finds, on the whole trie.
use simdhttp.Common.{
  ℕ, zero, suc, ◌<◌, ◌≡◌, ◌⊎◌, inl, inr, refl, sym, ap, ◌∙◌, Option, none, some, List, [], ◌∷◌,
  arith, Bytes, length, length-append, take,
}
use simdhttp.Router.Tree.Branches.{Again, Below, step_into-Outcome}
use simdhttp.Router.Tree.Kinds.{literal_Outcome, try_single-Outcome, try_multi-Outcome}
use simdhttp.Router.Tree.Leaves.{captures, Prefers, Candidate, First, first}
use simdhttp.Router.Tree.Outcomes.{Outcome, or_else-Outcome, HasRoom, HasRoom-Kept, Kept-refl}
use simdhttp.Router.Tree.Paths.{
  IsPath, IsPath-nonempty, decode_fast_iff, cut_slash_last, cut_slash_more, cut_slash-cases,
}
use simdhttp.Router.Tree.Search.{IsPath-Split}
use simdhttp.Router.Tree.{
  Node, node, Found, find_edge, cut_slash, decode_fast, step_into, try_single, match_decoded,
  match_loop, match_segments, max_inline_params,
}
use simdhttp.Router.{SegKind, seg_lit, seg_single, seg_multi, Segment}

abbrev AnyFirst : Option ℕ → Node → List Segment → List Bytes → Node → Type 0
AnyFirst want n ss ps c =
    First want n seg_lit ss ps c
    ⊎ (First want n seg_single ss ps c ⊎ First want n seg_multi ss ps c)

any_of_kind :
    (want : Option ℕ) (n c : Node) (k : SegKind) (t : Bytes) (ss : List Segment) (ps : List Bytes)
    → Candidate want n (record { kind = k; text = t } ∷ ss) ps c
    → AnyFirst want n (record { kind = k; text = t } ∷ ss) ps c
any_of_kind want n c seg_lit t ss ps k = inl (first t k)
any_of_kind want n c seg_single t ss ps k = inr (inl (first t k))
any_of_kind want n c seg_multi t ss ps k = inr (inr (first t k))

no_empty_path : {rest : Bytes} (ps : List Bytes) → IsPath rest ps → ps ≡ [] → ⊥
no_empty_path [] k e = IsPath-nonempty k
no_empty_path (p ∷ ps) k e = cc

Candidate-AnyFirst :
    (want : Option ℕ) (n c : Node) (rest : Bytes) (ss : List Segment) (ps : List Bytes)
    → IsPath rest ps
    → Candidate want n ss ps c
    → AnyFirst want n ss ps c
Candidate-AnyFirst want n c rest [] [] path k = absurd (IsPath-nonempty path)
Candidate-AnyFirst want n c rest [] (p ∷ ps) path k = absurd k.matches
Candidate-AnyFirst want n c rest (s ∷ ss) ps path k = any_of_kind want n c s.kind s.text ss ps k

First-Candidate :
    (want : Option ℕ) (n c : Node) (kind : SegKind) (ss : List Segment) (ps : List Bytes)
    → First want n kind ss ps c
    → Candidate want n ss ps c
First-Candidate want n c kind _ ps (first t k) = k

AnyFirst-Candidate :
    (want : Option ℕ) (n c : Node) (ss : List Segment) (ps : List Bytes)
    → AnyFirst want n ss ps c
    → Candidate want n ss ps c
AnyFirst-Candidate want n c ss ps (inl f) = First-Candidate want n c seg_lit ss ps f
AnyFirst-Candidate want n c ss ps (inr (inl f)) = First-Candidate want n c seg_single ss ps f
AnyFirst-Candidate want n c ss ps (inr (inr f)) = First-Candidate want n c seg_multi ss ps f

joined_Outcome :
    (want : Option ℕ) (n : Node) (rest : Bytes) (vals : List Bytes) (nv : ℕ) (r : Found)
    → Outcome (IsPath rest) (AnyFirst want n) vals nv r
    → Outcome (IsPath rest) (Candidate want n) vals nv r
joined_Outcome want n rest vals nv (vals', none) (kept, missing) =
    (kept, λ ss ps c path k. missing ss ps c path (Candidate-AnyFirst want n c rest ss ps path k))
joined_Outcome want n rest vals nv (vals', some (c, nv')) (ss, ps, path, is, bound, best) = (
  ss,
  ps,
  path,
  AnyFirst-Candidate want n c ss ps is,
  bound,
  λ ss' c' k. best ss' c' (Candidate-AnyFirst want n c' rest ss' ps path k),
)

single_over_multi :
    (want : Option ℕ) (n : Node) (ss ss' : List Segment) (ps : List Bytes) (c c' : Node)
    → First want n seg_single ss ps c
    → First want n seg_multi ss' ps c'
    → Prefers ss ss'
single_over_multi want n _ _ ps c c' (first t k) (first t' k') = tt

literal_over :
    (want : Option ℕ) (n : Node) (ss ss' : List Segment) (ps : List Bytes) (c c' : Node)
    → First want n seg_lit ss ps c
    → (First want n seg_single ss' ps c' ⊎ First want n seg_multi ss' ps c')
    → Prefers ss ss'
literal_over want n _ _ ps c c' (first t k) (inl (first t' k')) = tt
literal_over want n _ _ ps c c' (first t k) (inr (first t' k')) = tt

-- One round, in which the calls on the rest of the path are right.
match_decoded-Outcome :
    (want : Option ℕ) (again : Again) (n : Node) (rest seg : Bytes) (tail o : Option Bytes)
    (vals : List Bytes) (nv : ℕ)
    → cut_slash rest ≡ (seg, tail)
    → decode_fast seg ≡ o
    → Below want again tail
    → HasRoom vals nv
    → Outcome
        (IsPath rest)
        (Candidate want n)
        vals
        nv
        (match_decoded again want n rest tail o vals nv)
match_decoded-Outcome want again n rest seg tail none vals nv cut e ih room = (
  Kept-refl nv vals,
  λ ss ps c path k.
      let (p, d, s) = IsPath-Split seg tail cut path in
      let read = (decode_fast_iff seg p).1 d in cc (e, read),
)
match_decoded-Outcome want again (node st si mu hs ms) rest seg tail (some p) vals nv cut e ih
      room =
    let d = (decode_fast_iff seg p).0 e in
    let n = node st si mu hs ms in
    joined_Outcome want n rest vals nv _ (
      or_else-Outcome (IsPath rest) (First want n seg_lit)
        (λ ss ps c. First want n seg_single ss ps c ⊎ First want n seg_multi ss ps c) vals nv
        (step_into again want (find_edge p st) tail vals nv) _
        (literal_Outcome want st si mu hs ms rest seg p tail cut d vals nv _
          (step_into-Outcome want again (find_edge p st) tail vals nv ih room))
        (λ vals1 kept1.
          let room1 = HasRoom-Kept nv vals vals1 room kept1 in
          or_else-Outcome (IsPath rest) (First want n seg_single) (First want n seg_multi) vals1 nv
            (try_single again want si tail p vals1 nv) _
            (try_single-Outcome want st si mu hs ms rest seg p tail cut d again si vals1 nv refl ih
              room1)
            (λ vals2 kept2.
              try_multi-Outcome want st si mu hs ms rest seg p tail cut d mu vals2 nv refl
                (HasRoom-Kept nv vals1 vals2 room1 kept2))
            (single_over_multi want n))
        (literal_over want n))

pub tail_shorter : (rest seg t : Bytes) → cut_slash rest ≡ (seg, some t) → length t < length rest
tail_shorter rest seg t e = elim (cut_slash-cases rest) [
  | inl h ↦
      let both : ◌≡◌ {A = Bytes × Option Bytes} (rest, none) (seg, some t) =
        sym (cut_slash_last rest h) ∙ e in
      let bad : ◌≡◌ {A = Option Bytes} none (some t) = ap (λ q. q.1) both in cc
  | inr (s, t', joined, h) ↦
      let both : ◌≡◌ {A = Bytes × Option Bytes} (s, some t') (seg, some t) =
        sym (cut_slash_more s t' h) ∙ ap cut_slash (sym joined) ∙ e in
      let tails : some t' ≡ some t = ap (λ q. q.1) both in
      let is : t' ≡ t = cc in
      omega (arith, ap length joined, ap length is, length-append s (b'/' ∷ t'))
]

loop-Outcome :
    (want : Option ℕ) (fuel : ℕ) (n : Node) (rest : Bytes) (vals : List Bytes) (nv : ℕ)
    → length rest < fuel
    → HasRoom vals nv
    → Outcome (IsPath rest) (Candidate want n) vals nv (match_loop fuel want n rest vals nv)
unfolding match_loop
loop-Outcome want zero n rest vals nv enough room = absurd (omega arith)
loop-Outcome want (suc fuel) n rest vals nv enough room =
    match_decoded-Outcome want (λ c t vs k. match_loop fuel want c t vs k) n rest (cut_slash rest).0
      (cut_slash rest).1 (decode_fast (cut_slash rest).0) vals nv refl refl
      (λ c t vs k e room'.
        loop-Outcome want fuel c t vs k
          (omega
            (arith, tail_shorter rest (cut_slash rest).0 t (ap (λ x. ((cut_slash rest).0, x)) e)))
          room')
      room

-- What a search that starts with an empty array answers.
pub data Answers (n : Node) (rest : Bytes) (want : Option ℕ) : Found → Type 0 where
  missed :
      {vals : List Bytes}
      → length vals ≡ max_inline_params
      → ((ss : List Segment) (ps : List Bytes) (c : Node)
          → IsPath rest ps
          → Candidate want n ss ps c
          → ⊥)
      → Answers n rest want (vals, none)
  matched :
      {vals : List Bytes} {nv : ℕ} {c : Node} (ss : List Segment) (ps : List Bytes)
      → IsPath rest ps
      → Candidate want n ss ps c
      → take nv vals ≡ take max_inline_params (captures ss ps)
      → ((ss' : List Segment) (c' : Node) → Candidate want n ss' ps c' → Prefers ss ss')
      → Answers n rest want (vals, some (c, nv))

Outcome-Answers :
    (n : Node) (rest : Bytes) (want : Option ℕ) (vals : List Bytes) (r : Found)
    → length vals ≡ max_inline_params
    → Outcome (IsPath rest) (Candidate want n) vals 0 r
    → Answers n rest want r
Outcome-Answers n rest want vals (vals', none) room (kept, missing) =
    missed (kept.same_length ∙ room) missing
Outcome-Answers n rest want vals (vals', some (c, nv')) room (ss, ps, path, is, bound, best) =
    matched ss ps path is bound.is_bound best

-- `matchSegments` finds nothing exactly when no pattern of the trie whose node serves the method
-- matches the path. What it finds otherwise is the node of a pattern that matches, with the values
-- that its wildcards take, the first eight of them, whatever the array held and whichever branches
-- were tried in vain; and where any other such pattern parts from it, the one found has the literal
-- or the other one the wildcard.
pub match_segments-Answers :
    (n : Node) (rest : Bytes) (want : Option ℕ) (vals : List Bytes)
    → length vals ≡ max_inline_params
    → Answers n rest want (match_segments n rest want vals 0)
unfolding match_segments
match_segments-Answers n rest want vals room =
    Outcome-Answers n rest want vals (match_segments n rest want vals 0) room (
      loop-Outcome want (suc (length rest)) n rest vals 0 (omega arith)
        (record { is_array = room; within = omega arith }))
