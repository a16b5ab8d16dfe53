-- ===== src/Router/Tree/Paths.antt =====
-- The decoded segments of a path, and what the cut at a slash and `decodeSegmentFast` find of them.
use simdhttp.Common.{
  ℕ, suc, ◌+◌, ◌*◌, ◌≡◌, ◌⊎◌, ◌↔◌, inl, inr, refl, sym, ap, ◌∙◌, subst, true, false, none, some,
  List, [], ◌∷◌, ◌++◌, arith, ◌==◌, ==_iff, Bytes, length, take, drop, index_byte, All, Bool-cases,
  Option-cases,
}
use simdhttp.Common.Digits.{hexadecimal_digit}
use simdhttp.Router.Escapes.{
  Decoded, decoded, decode_segment, decode_segment_iff, Decodes, at_end, plain, escape,
}
use simdhttp.Router.Tree.{cut_slash, cut_at, decode_fast, decoded_bytes}

abbrev pub HasNo : ℕ → Bytes → Type 0
HasNo c = All (λ b. (b == c) ≡ false)

-- `ps` are the segments of `rest`, decoded.
pub data IsPath : Bytes → List Bytes → Type 0 where
  last : {seg p : Bytes} → HasNo b'/' seg → Decodes seg p → IsPath seg (p ∷ [])
  more :
      {rest seg tail p : Bytes} {ps : List Bytes}
      → rest ≡ seg ++ (b'/' ∷ tail)
      → HasNo b'/' seg
      → Decodes seg p
      → IsPath tail ps
      → IsPath rest (p ∷ ps)

pub IsPath-nonempty : {rest : Bytes} → IsPath rest [] → ⊥
IsPath-nonempty k = elim k [ ]

abbrev pub join : List Bytes → Bytes
join [] = []
join (p ∷ []) = p
join (p ∷ q ∷ ps) = p ++ (b'/' ∷ join (q ∷ ps))

pub index_byte-HasNo : (c : ℕ) (seg : Bytes) → HasNo c seg → index_byte seg c ≡ none
unfolding index_byte
index_byte-HasNo c [] h = refl
index_byte-HasNo c (x ∷ xs) (hx, h) = rw (hx, index_byte-HasNo c xs h) refl

pub HasNo-index_byte : (c : ℕ) (seg : Bytes) → index_byte seg c ≡ none → HasNo c seg
unfolding index_byte
HasNo-index_byte c [] h = tt
HasNo-index_byte c (x ∷ xs) h = elim (Bool-cases (x == c)) [
  | inl e ↦ cc (rw e at h)
  | inr e ↦ elim (Option-cases (index_byte xs c)) [
    | inl rest ↦ (e, HasNo-index_byte c xs rest)
    | inr (i, rest) ↦ cc (rw (e, rest) at h)
  ]
]

pub index_byte_at :
    (c : ℕ) (seg tail : Bytes) → HasNo c seg → index_byte (seg ++ (c ∷ tail)) c ≡ some (length seg)
unfolding index_byte
index_byte_at c [] tail h = let e : (c == c) ≡ true = (==_iff c c).1 refl in rw e refl
index_byte_at c (x ∷ xs) tail (hx, h) = rw (hx, index_byte_at c xs tail h) refl

pub take_front : (seg tail : Bytes) → take (length seg) (seg ++ tail) ≡ seg
take_front [] tail = refl
take_front (x ∷ xs) tail = ap (◌∷◌ x) (take_front xs tail)

pub drop_front : (c : ℕ) (seg tail : Bytes) → drop (suc (length seg)) (seg ++ (c ∷ tail)) ≡ tail
drop_front c [] tail = refl
drop_front c (x ∷ xs) tail = drop_front c xs tail

pub cut_slash_last : (seg : Bytes) → HasNo b'/' seg → cut_slash seg ≡ (seg, none)
cut_slash_last seg h = ap (cut_at seg) (index_byte-HasNo b'/' seg h)

pub cut_slash_more :
    (seg tail : Bytes) → HasNo b'/' seg → cut_slash (seg ++ (b'/' ∷ tail)) ≡ (seg, some tail)
cut_slash_more seg tail h =
    ap (cut_at (seg ++ (b'/' ∷ tail))) (index_byte_at b'/' seg tail h) ∙ λ i.
    (take_front seg (b'/' ∷ tail) i, some (drop_front b'/' seg tail i))

pub split_index :
    (c : ℕ) (xs : Bytes) (i : ℕ)
    → index_byte xs c ≡ some i
    → (seg : Bytes) × (tail : Bytes) × (xs ≡ seg ++ (c ∷ tail)) × HasNo c seg
unfolding index_byte
split_index c [] i h = cc
split_index c (x ∷ xs) i h = elim (Bool-cases (x == c)) [
  | inl e ↦ ([], xs, ap (λ (y : ℕ). y ∷ xs) ((==_iff x c).0 e), tt)
  | inr e ↦ elim (Option-cases (index_byte xs c)) [
    | inl rest ↦ cc (rw (e, rest) at h)
    | inr (j, rest) ↦
        let (seg, tail, joined, clean) = split_index c xs j rest in
        (x ∷ seg, tail, ap (◌∷◌ x) joined, (e, clean))
  ]
]

-- A path has one segment, or a segment, a slash and a path.
pub cut_slash-cases :
    (rest : Bytes)
    → HasNo b'/' rest
      ⊎ ((seg : Bytes) × (tail : Bytes) × (rest ≡ seg ++ (b'/' ∷ tail)) × HasNo b'/' seg)
cut_slash-cases rest = elim (Option-cases (index_byte rest b'/')) [
  | inl e ↦ inl (HasNo-index_byte b'/' rest e)
  | inr (i, e) ↦ inr (split_index b'/' rest i e)
]

plain_Decodes : (seg : Bytes) → HasNo b'%' seg → Decodes seg seg
plain_Decodes [] h = at_end
plain_Decodes (c ∷ cs) (hc, h) = plain hc (plain_Decodes cs h)

decoded_of_some : (r : Decoded) (p : Bytes) → decoded_bytes r ≡ some p → r ≡ decoded p
decoded_of_some (decoded out) p h = ap decoded (cc)
decoded_of_some Decoded.invalid_escape p h = cc
decoded_of_some Decoded.out_of_range p h = cc

pub Decodes-unique : (seg p p' : Bytes) → Decodes seg p → Decodes seg p' → p ≡ p'
Decodes-unique seg p p' d d' =
    let same : decoded p ≡ decoded p' =
      sym (((decode_segment_iff seg).0 p).1 d) ∙ ((decode_segment_iff seg).0 p').1 d' in
    cc

-- The shortcut for a segment without an escape changes nothing.
pub decode_fast_iff : (seg p : Bytes) → (decode_fast seg ≡ some p) ↔ Decodes seg p
unfolding decode_fast
decode_fast_iff seg p = elim (Option-cases (index_byte seg b'%')) [
  | inl e ↦
      let d = plain_Decodes seg (HasNo-index_byte b'%' seg e) in
      (
        (λ h. let same : seg ≡ p = cc (rw e at h) in subst (Decodes seg) same d),
        (λ d'. rw e (ap some (Decodes-unique seg seg p d d'))),
      )
  | inr (i, e) ↦ (
    (λ h. ((decode_segment_iff seg).0 p).0 (decoded_of_some (decode_segment seg) p (rw e at h))),
    (λ d. rw e (ap decoded_bytes (((decode_segment_iff seg).0 p).1 d))),
  )
]

append_Decodes :
    {seg p tail out : Bytes} → Decodes seg p → Decodes tail out → Decodes (seg ++ tail) (p ++ out)
append_Decodes at_end k = k
append_Decodes (plain h d) k = plain h (append_Decodes d k)
append_Decodes (escape hd he d) k = escape hd he (append_Decodes d k)

-- The whole of a path decodes to its segments between slashes.
pub IsPath-Decodes : {rest : Bytes} {ps : List Bytes} → IsPath rest ps → Decodes rest (join ps)
IsPath-Decodes (last h d) = d
IsPath-Decodes (more {ps = []} e h d k) = elim (IsPath-nonempty k) [ ]
IsPath-Decodes (more {seg = seg} {tail = tail} {p = p} {ps = q ∷ ps} e h d k) =
    subst (λ r. Decodes r (p ++ (b'/' ∷ join (q ∷ ps)))) (sym e)
      (append_Decodes d (plain refl (IsPath-Decodes k)))

-- One byte, or one escape, more at the front of the first segment.
lead_plain :
    {rest : Bytes} {ps : List Bytes} (c : ℕ)
    → (c == b'%') ≡ false
    → (c == b'/') ≡ false
    → IsPath rest ps
    → (qs : List Bytes) × IsPath (c ∷ rest) qs × (join qs ≡ c ∷ join ps)
lead_plain c h n (last {seg} {p} hs d) = ((c ∷ p) ∷ [], last (n, hs) (plain h d), refl)
lead_plain c h n (more {ps = []} e hs d k) = elim (IsPath-nonempty k) [ ]
lead_plain c h n (more {seg = seg} {tail = tail} {p = p} {ps = q ∷ ps} e hs d k) =
    ((c ∷ p) ∷ q ∷ ps, more (ap (◌∷◌ c) e) (n, hs) (plain h d) k, refl)

hex_not_slash : (c v : ℕ) → hexadecimal_digit c ≡ some v → (c == b'/') ≡ false
hex_not_slash c v h = ground arith

lead_escape :
    {rest : Bytes} {ps : List Bytes} (a b x y : ℕ)
    → hexadecimal_digit a ≡ some x
    → hexadecimal_digit b ≡ some y
    → IsPath rest ps
    → (qs : List Bytes) × IsPath (b'%' ∷ a ∷ b ∷ rest) qs × (join qs ≡ (16 * x + y) ∷ join ps)
lead_escape a b x y ha hb (last {seg} {p} hs d) = (
  (_ ∷ p) ∷ [],
  last (refl, (hex_not_slash a x ha, (hex_not_slash b y hb, hs))) (escape ha hb d),
  refl,
)
lead_escape a b x y ha hb (more {ps = []} e hs d k) = elim (IsPath-nonempty k) [ ]
lead_escape a b x y ha hb (more {seg = seg} {tail = tail} {p = p} {ps = q ∷ ps} e hs d k) = (
  (_ ∷ p) ∷ q ∷ ps,
  more (ap (λ r. b'%' ∷ a ∷ b ∷ r) e) (refl, (hex_not_slash a x ha, (hex_not_slash b y hb, hs)))
      (escape ha hb d) k,
  refl,
)

lead_slash :
    {rest : Bytes} {ps : List Bytes}
    → IsPath rest ps
    → (qs : List Bytes) × IsPath (b'/' ∷ rest) qs × (join qs ≡ b'/' ∷ join ps)
lead_slash {ps = []} k = elim (IsPath-nonempty k) [ ]
lead_slash {ps = q ∷ ps} k = ([] ∷ q ∷ ps, more refl tt at_end k, refl)

-- What decodes as a whole is a path, and decodes segment by segment.
pub Decodes-IsPath :
    {rest out : Bytes} → Decodes rest out → (ps : List Bytes) × IsPath rest ps × (join ps ≡ out)
Decodes-IsPath at_end = ([] ∷ [], last tt at_end, refl)
Decodes-IsPath (plain {c} {cs} {out} h d) =
    let (ps, k, joined) = Decodes-IsPath d in
    elim (Bool-cases (c == b'/')) [
      | inl e ↦
          let (qs, k', same) = lead_slash k in
          let is : c ≡ b'/' = (==_iff c b'/').0 e in
          (qs, subst (λ (x : ℕ). IsPath (x ∷ cs) qs) (sym is) k', same ∙ λ i. sym is i ∷ joined i)
      | inr e ↦ let (qs, k', same) = lead_plain c h e k in (qs, k', same ∙ ap (◌∷◌ c) joined)
    ]
Decodes-IsPath (escape {d = a} {e = b} {a = x} {b = y} ha hb d) =
    let (ps, k, joined) = Decodes-IsPath d in
    let (qs, k', same) = lead_escape a b x y ha hb k in
    (qs, k', same ∙ ap (◌∷◌ (16 * x + y)) joined)
