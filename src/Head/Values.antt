-- ===== src/Head/Values.antt =====
-- What the control-byte scan of the root package's parser lets through.
use simdhttp.Common.{
  ℕ, ◌≡◌, inl, inr, refl, sym, ◌∙◌, true, false, [], ◌∷◌, arith, leb, ◌==◌, if◌then◌else◌, Bytes,
  length, Option-cases, Bool-cases,
}
use simdhttp.Head.{passes_hit, passes_scan, ctl_scan_limit}
use simdhttp.Http1.Chars.{valid_field_value}
use simdhttp.Http1.Parser.Values.{is_hit, clean_value-valid}
use simdhttp.Http1.Parser.{clean_value}
use simdhttp.Http1.Simd.{Simd, first_where}

-- What comes before the first tab of a long value; a short value is looked at whole.
abbrev pub before_tab : Bytes → Bytes
before_tab [] = []
before_tab (c ∷ cs) = let rest = before_tab cs in if c == b'\t' then [] else c ∷ rest

abbrev pub scanned : Bytes → Bytes
scanned val = if leb ctl_scan_limit (length val) then before_tab val else val

hit_value :
    (c : ℕ) (cs : Bytes)
    → is_hit c ≡ true
    → passes_hit (c ∷ cs) (first_where is_hit (c ∷ cs)) ≡ valid_field_value (before_tab (c ∷ cs))
unfolding valid_field_value
hit_value c cs h = rw h (ground arith)

no_hit_value :
    (c : ℕ) (cs : Bytes)
    → is_hit c ≡ false
    → valid_field_value (before_tab cs) ≡ valid_field_value (before_tab (c ∷ cs))
unfolding valid_field_value
no_hit_value c cs h = ground arith

passes_hit-cons :
    (c : ℕ) (cs : Bytes)
    → is_hit c ≡ false
    → passes_hit (c ∷ cs) (first_where is_hit (c ∷ cs)) ≡ passes_hit cs (first_where is_hit cs)
passes_hit-cons c cs h = elim (Option-cases (first_where is_hit cs)) [
  | inl e ↦ rw (h, e) refl
  | inr (i, e) ↦ rw (h, e) refl
]

passes_first_hit :
    (val : Bytes) → passes_hit val (first_where is_hit val) ≡ valid_field_value (before_tab val)
passes_first_hit [] = unfold valid_field_value in refl
passes_first_hit (c ∷ cs) = elim (Bool-cases (is_hit c)) [
  | inl h ↦ hit_value c cs h
  | inr h ↦ passes_hit-cons c cs h ∙ passes_first_hit cs ∙ no_hit_value c cs h
]

-- A value of 64 bytes or more is accepted exactly when no control byte comes before its first tab,
-- whatever comes behind that tab; a shorter one, exactly when it has no control byte but tabs.
pub passes_scan-scanned :
    (k : Simd) (val : Bytes) → passes_scan k val ≡ valid_field_value (scanned val)
unfolding passes_scan
passes_scan-scanned k val = elim (Bool-cases (leb ctl_scan_limit (length val))) [
  | inl long ↦ rw (long, k.index_any_or_less_law val (0x7f ∷ []) 0x20) (passes_first_hit val)
  | inr short ↦ rw short refl
]

before_tab-valid :
    (val : Bytes) → valid_field_value val ≡ true → valid_field_value (before_tab val) ≡ true
unfolding valid_field_value
before_tab-valid [] h = refl
before_tab-valid (c ∷ cs) h = ground (arith, before_tab-valid cs)

-- The parser of http1 accepts no value that this one refuses.
pub clean_value-passes_scan :
    (k : Simd) (val : Bytes) → clean_value k val ≡ true → passes_scan k val ≡ true
clean_value-passes_scan k val h =
    let valid = sym (clean_value-valid k val) ∙ h in
    passes_scan-scanned k val ∙ elim (Bool-cases (leb ctl_scan_limit (length val))) [
      | inl long ↦ rw long (before_tab-valid val valid)
      | inr short ↦ rw short valid
    ]
