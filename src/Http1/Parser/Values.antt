-- ===== src/Http1/Parser/Values.antt =====
-- The control-byte scan of a long value against the scan of a short one.
use simdhttp.Common.{
  ℕ, zero, suc, ◌<◌, ◌≡◌, refl, ◌∙◌, Bool, true, false, Option, none, some, [], ◌∷◌, arith, leb,
  Bytes, length, drop, Option-cases, Bool-cases, inl, inr,
}
use simdhttp.Http1.Chars.{valid_field_value}
use simdhttp.Http1.Parser.{scan_next, scan_tabs, clean_value}
use simdhttp.Http1.Simd.{Simd, first_where, any_or_less}

abbrev pub is_hit : ℕ → Bool
is_hit = any_or_less (0x7f ∷ []) 0x20

abbrev shift : Option ℕ → Option ℕ
shift none = none
shift (some i) = some (suc i)

pub first_where_cons :
    (c : ℕ) (cs : Bytes)
    → is_hit c ≡ false
    → first_where is_hit (c ∷ cs) ≡ shift (first_where is_hit cs)
first_where_cons c cs h = elim (Option-cases (first_where is_hit cs)) [
  | inl e ↦ rw (h, e) refl
  | inr (i, e) ↦ rw (h, e) refl
]

scan_next-shift :
    (again : Bytes → Bool) (c : ℕ) (cs : Bytes) (o : Option ℕ)
    → scan_next again (c ∷ cs) (shift o) ≡ scan_next again cs o
scan_next-shift again c cs none = refl
scan_next-shift again c cs (some i) = refl

pub valid_field_value_cons :
    (c : ℕ) (cs : Bytes) → is_hit c ≡ false → valid_field_value (c ∷ cs) ≡ valid_field_value cs
unfolding valid_field_value
valid_field_value_cons c cs h = ground arith

hit_at_head :
    (again : Bytes → Bool) (c : ℕ) (cs : Bytes)
    → is_hit c ≡ true
    → again cs ≡ valid_field_value cs
    → scan_next again (c ∷ cs) (first_where is_hit (c ∷ cs)) ≡ valid_field_value (c ∷ cs)
unfolding valid_field_value
hit_at_head again c cs h e = rw h (ground arith)

-- One round of the scan, when the next one agrees with the scan of the short values.
scan_next-valid :
    (again : Bytes → Bool) (rest : Bytes)
    → ((i : ℕ)
        → i < length rest
        → again (drop (suc i) rest) ≡ valid_field_value (drop (suc i) rest))
    → scan_next again rest (first_where is_hit rest) ≡ valid_field_value rest
scan_next-valid again [] ih = unfold valid_field_value in refl
scan_next-valid again (c ∷ cs) ih = elim (Bool-cases (is_hit c)) [
  | inl e ↦ hit_at_head again c cs e (ih 0 (omega arith))
  | inr e ↦
      rw (first_where_cons c cs e, valid_field_value_cons c cs e)
        (scan_next-shift again c cs (first_where is_hit cs)
          ∙ scan_next-valid again cs λ i h. ih (suc i) (omega arith))
]

length-drop-suc : (i : ℕ) (xs : Bytes) → i < length xs → length (drop (suc i) xs) < length xs
length-drop-suc i [] h = absurd (omega arith)
length-drop-suc zero (x ∷ xs) h = omega arith
length-drop-suc (suc i) (x ∷ xs) h = omega (arith, length-drop-suc i xs (omega arith))

scan_tabs-valid :
    (k : Simd) (fuel : ℕ) (rest : Bytes)
    → length rest < fuel
    → scan_tabs k fuel rest ≡ valid_field_value rest
unfolding scan_tabs
scan_tabs-valid k zero rest h = absurd (omega arith)
scan_tabs-valid k (suc fuel) rest h = rw (k.index_any_or_less_law rest (0x7f ∷ []) 0x20) (
    scan_next-valid (scan_tabs k fuel) rest λ i less.
      scan_tabs-valid k fuel (drop (suc i) rest) (omega (arith, length-drop-suc i rest less)))

-- The kernel's scan of a long value and the inline loop over a short one give one verdict, on every
-- value: no control byte but tabs, however many tabs come before it. The loop always ends.
pub clean_value-valid : (k : Simd) (val : Bytes) → clean_value k val ≡ valid_field_value val
unfolding clean_value
clean_value-valid k val = elim (Bool-cases (leb 64 (length val))) [
  | inl e ↦ rw e (scan_tabs-valid k (suc (length val)) val (omega arith))
  | inr e ↦ rw e refl
]
