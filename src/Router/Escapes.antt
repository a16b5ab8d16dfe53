-- ===== src/Router/Escapes.antt =====
-- `decodeSegment` of router.go: a first pass that checks and counts the escapes, and a second that
-- resolves them.
use simdhttp.Common.{
  ℕ, zero, suc, ◌+◌, ◌*◌, ◌-◌, ◌≡◌, ◌≢◌, ◌↔◌, inl, inr, refl, sym, ap, ◌∙◌, true, false, ◌&&◌,
  Option, none, some, [], ◌∷◌, arith, ◌==◌, if◌then◌else◌, Bytes, within, Bool-cases, Option-cases,
  &&-true, ==_iff, subst, ◌⊎◌,
}
use simdhttp.Common.Digits.{hexadecimal_digit}
use simdhttp.Http1.Chars.{is_hex}

-- `unhex`, in bytes.
unfoldable pub unhex : ℕ → ℕ
unhex c =
    if within b'0' b'9' c
    then c - b'0'
    else if within b'a' b'f' c
    then c - b'a' + 10
    else c - b'A' + 10

abbrev pub one_more : Option ℕ → Option ℕ
one_more none = none
one_more (some n) = some (suc n)

-- The first loop; `none` is the error.
unfoldable pub count_escapes : Bytes → Option ℕ
count_escapes [] = some 0
count_escapes (c ∷ []) = if c == b'%' then none else some 0
count_escapes (c ∷ d ∷ []) = let rest = count_escapes (d ∷ []) in if c == b'%' then none else rest
count_escapes (c ∷ d ∷ e ∷ cs) =
    let behind = count_escapes cs in
    let rest = count_escapes (d ∷ e ∷ cs) in
    if c == b'%' then (if is_hex d && is_hex e then one_more behind else none) else rest

-- What a pass answers. `out_of_range` is the panic of an index past the end.
pub data Decoded : Type 0 where
  decoded : Bytes → Decoded
  invalid_escape out_of_range : Decoded

abbrev pub append_byte : ℕ → Decoded → Decoded
append_byte b (decoded out) = decoded (b ∷ out)
append_byte b invalid_escape = invalid_escape
append_byte b out_of_range = out_of_range

-- The second loop.
unfoldable pub resolve : Bytes → Decoded
resolve [] = decoded []
resolve (c ∷ []) = if c == b'%' then out_of_range else decoded (c ∷ [])
resolve (c ∷ d ∷ []) =
    let rest = resolve (d ∷ []) in if c == b'%' then out_of_range else append_byte c rest
resolve (c ∷ d ∷ e ∷ cs) =
    let behind = resolve cs in
    let rest = resolve (d ∷ e ∷ cs) in
    if c == b'%' then append_byte (16 * unhex d + unhex e) behind else append_byte c rest

abbrev pub decode_counted : Bytes → Option ℕ → Decoded
decode_counted seg none = invalid_escape
decode_counted seg (some zero) = decoded seg
decode_counted seg (some (suc n)) = resolve seg

unfoldable pub decode_segment : Bytes → Decoded
decode_segment seg = decode_counted seg (count_escapes seg)

-- What percent-decoding is.
pub data Decodes : Bytes → Bytes → Type 0 where
  at_end : Decodes [] []
  plain :
      {c : ℕ} {cs out : Bytes} → (c == b'%') ≡ false → Decodes cs out → Decodes (c ∷ cs) (c ∷ out)
  escape :
      {d e a b : ℕ} {cs out : Bytes}
      → hexadecimal_digit d ≡ some a
      → hexadecimal_digit e ≡ some b
      → Decodes cs out
      → Decodes (b'%' ∷ d ∷ e ∷ cs) ((16 * a + b) ∷ out)

-- The digits that `ishex` takes, with their values, are those of the table.
pub digit-unhex : (c v : ℕ) → hexadecimal_digit c ≡ some v → (is_hex c ≡ true) × (unhex c ≡ v)
unfolding is_hex unhex
digit-unhex c v h = (ground arith, ground arith)

pub is_hex-digit : (c : ℕ) → is_hex c ≡ true → hexadecimal_digit c ≡ some (unhex c)
unfolding is_hex unhex
is_hex-digit c h = ground arith

count_escapes_plain :
    (c : ℕ) (cs : Bytes) → (c == b'%') ≡ false → count_escapes (c ∷ cs) ≡ count_escapes cs
unfolding count_escapes
count_escapes_plain c [] h = rw h refl
count_escapes_plain c (d ∷ []) h = rw h refl
count_escapes_plain c (d ∷ e ∷ cs) h = rw h refl

resolve_plain :
    (c : ℕ) (cs : Bytes) → (c == b'%') ≡ false → resolve (c ∷ cs) ≡ append_byte c (resolve cs)
unfolding resolve
resolve_plain c [] h = rw h refl
resolve_plain c (d ∷ []) h = rw h refl
resolve_plain c (d ∷ e ∷ cs) h = rw h refl

-- Both passes, on a string that decodes: the second ends, and with no escape nothing changes.
record Resolves (seg out : Bytes) : Type 0 where
  count : ℕ
  counted : count_escapes seg ≡ some count
  resolved : resolve seg ≡ decoded out
  unchanged : count ≡ 0 → out ≡ seg

Decodes-Resolves : {seg out : Bytes} → Decodes seg out → Resolves seg out
unfolding count_escapes resolve
Decodes-Resolves at_end = record {
  count = 0;
  counted = refl;
  resolved = refl;
  unchanged = λ e. refl;
}
Decodes-Resolves (plain {c} {cs} {out} h d) =
    let r = Decodes-Resolves d in
    record {
      count = r.count;
      counted = count_escapes_plain c cs h ∙ r.counted;
      resolved = resolve_plain c cs h ∙ ap (append_byte c) r.resolved;
      unchanged = λ e. ap (◌∷◌ c) (r.unchanged e);
    }
Decodes-Resolves (escape {d} {e} {a} {b} {cs} {out} hd he k) =
    let r = Decodes-Resolves k in
    let (dh, da) = digit-unhex d a hd in
    let (eh, eb) = digit-unhex e b he in
    record {
      count = suc r.count;
      counted = rw (dh, eh) (ap one_more r.counted);
      resolved = rw (da, eb) (ap (append_byte (16 * a + b)) r.resolved);
      unchanged = λ z. absurd (omega arith);
    }

one_more-some : (o : Option ℕ) (n : ℕ) → one_more o ≡ some n → (m : ℕ) × (o ≡ some m)
one_more-some none n h = cc
one_more-some (some m) n h = (m, refl)

-- What the first pass lets through decodes.
counted-Decodes :
    (seg : Bytes) (n : ℕ) → count_escapes seg ≡ some n → (out : Bytes) × Decodes seg out
unfolding count_escapes
counted-Decodes [] n h = ([], at_end)
counted-Decodes (c ∷ []) n h = elim (Bool-cases (c == b'%')) [
  | inl e ↦ cc (rw e at h)
  | inr e ↦ (c ∷ [], plain e at_end)
]
counted-Decodes (c ∷ d ∷ []) n h = elim (Bool-cases (c == b'%')) [
  | inl e ↦ cc (rw e at h)
  | inr e ↦ let (out, k) = counted-Decodes (d ∷ []) n (rw e at h) in (c ∷ out, plain e k)
]
counted-Decodes (c ∷ d ∷ x ∷ cs) n h = elim (Bool-cases (c == b'%')) [
  | inl e ↦ elim (Bool-cases (is_hex d && is_hex x)) [
    | inl both ↦
        let (m, counted) = one_more-some (count_escapes cs) n (rw (e, both) at h) in
        let (out, k) = counted-Decodes cs m counted in
        let (hd, hx) = &&-true _ _ both in
        subst (λ y. (out : Bytes) × Decodes (y ∷ d ∷ x ∷ cs) out) (sym ((==_iff c b'%').0 e))
          (_, escape (is_hex-digit d hd) (is_hex-digit x hx) k)
    | inr other ↦ cc (rw (e, other) at h)
  ]
  | inr e ↦ let (out, k) = counted-Decodes (d ∷ x ∷ cs) n (rw e at h) in (c ∷ out, plain e k)
]

decode_counted_lem :
    (seg out : Bytes) (n : ℕ)
    → resolve seg ≡ decoded out
    → (n ≡ 0 → out ≡ seg)
    → decode_counted seg (some n) ≡ decoded out
decode_counted_lem seg out zero r same = ap decoded (sym (same refl))
decode_counted_lem seg out (suc n) r same = r

Decodes-decode_segment : (seg out : Bytes) → Decodes seg out → decode_segment seg ≡ decoded out
unfolding decode_segment
Decodes-decode_segment seg out d =
    let r = Decodes-Resolves d in
    ap (decode_counted seg) r.counted ∙ decode_counted_lem seg out r.count r.resolved r.unchanged

decode_segment-cases :
    (seg : Bytes) → (decode_segment seg ≡ invalid_escape) ⊎ ((out : Bytes) × Decodes seg out)
decode_segment-cases seg = elim (Option-cases (count_escapes seg)) [
  | inl e ↦ inl (unfold decode_segment in rw e refl)
  | inr (n, e) ↦ inr (counted-Decodes seg n e)
]

decoded-injective : (a b : Bytes) → decoded a ≡ decoded b → a ≡ b
decoded-injective a b h = cc

-- `decodeSegment` returns `out` exactly when `out` is the percent-decoding of the segment, a plus
-- sign kept; it is an error exactly when there is none; and no index of the second pass is out of
-- range.
pub decode_segment_iff :
    (seg : Bytes)
    → ((out : Bytes) → (decode_segment seg ≡ decoded out) ↔ Decodes seg out)
      × ((decode_segment seg ≡ invalid_escape) ↔ ((out : Bytes) → ¬ Decodes seg out))
      × (decode_segment seg ≢ out_of_range)
decode_segment_iff seg = elim (decode_segment-cases seg) [
  | inl e ↦ (
    (λ out. ((λ h. cc), λ d. cc (Decodes-decode_segment seg out d))),
    ((λ h out d. cc (Decodes-decode_segment seg out d)), λ h. e),
    λ h. cc,
  )
  | inr (out, d) ↦
      let is = Decodes-decode_segment seg out d in
      (
        (λ out'. (
          (λ h. subst (Decodes seg) (decoded-injective out out' (sym is ∙ h)) d),
          Decodes-decode_segment seg out',
        )),
        ((λ h. cc), λ h. absurd (h out d)),
        λ h. cc,
      )
]
