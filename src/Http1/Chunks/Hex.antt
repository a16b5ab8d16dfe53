-- ===== src/Http1/Chunks/Hex.antt =====
-- `parseHexInt64` against the value of a hexadecimal numeral.
use simdhttp.Common.{
  ℕ, ◌+◌, ◌-◌, ◌*◌, ◌/◌, ltb, false, ◌≤◌, ◌≡◌, ◌≢◌, ◌↔◌, refl, sym, ◌∙◌, some, [], ◌∷◌, arith,
  Bytes, Option-cases, inl, inr,
}
use simdhttp.Common.Digits.{hexadecimal_digit}
use simdhttp.Common.Int64.{max_int64, IsNonneg, add64, mul64}
use simdhttp.Common.Numerals.{AreDigits, value, scan, GuardIsExact, scan_iff}
use simdhttp.Http1.Chunks.{hex_digit, hex_loop, parse_hex_int64}

-- The switch on a byte agrees with the table of digits.
hex_digit-hexadecimal_digit : (c : ℕ) → hex_digit c ≡ hexadecimal_digit c
hex_digit-hexadecimal_digit c = ground arith

digit_small : (c d : ℕ) → hex_digit c ≡ some d → d ≤ 15
digit_small c d e = ground arith

small_guard : (n d : ℕ) → d ≤ 15 → (ltb ((max_int64 - d) / 16) n ≡ false) ↔ (n * 16 + d ≤ max_int64)
small_guard n d small = (λ h. ground arith, λ h. ground arith)

guard_exact : GuardIsExact 16 hexadecimal_digit
guard_exact n d c e =
    let read : hex_digit c ≡ some d = hex_digit-hexadecimal_digit c ∙ e in
    small_guard n d (digit_small c d read)

hex_loop-scan : (cs : Bytes) (n : ℕ) → hex_loop n cs ≡ scan 16 hexadecimal_digit n cs
unfolding hex_loop scan
hex_loop-scan [] n = refl
hex_loop-scan (c ∷ cs) n = elim (Option-cases (hexadecimal_digit c)) [
  | inl stop ↦ rw (hex_digit-hexadecimal_digit c, stop, hex_loop, scan)
  | inr (d, is) ↦
      rw (hex_digit-hexadecimal_digit c, is, hex_loop, scan)
        (rw (hex_loop-scan cs (add64 (mul64 n 16) d)))
]

-- One hexadecimal digit at least, leading zeros allowed, of a value that fits an int64.
pub record IsHexSize (v : Bytes) (n : ℕ) : Type 0 where
  pub digits : AreDigits 16 hexadecimal_digit v
  pub not_empty : v ≢ []
  pub is_value : n ≡ value 16 hexadecimal_digit v
  pub fits : IsNonneg n

-- `parseHexInt64` accepts `v` with the size `n` exactly when `v` is one or more hexadecimal digits
-- whose value is `n` and fits an int64.
pub parse_hex_int64_iff : (v : Bytes) (n : ℕ) → (parse_hex_int64 v ≡ some n) ↔ IsHexSize v n
unfolding parse_hex_int64
parse_hex_int64_iff [] n = (λ e. cc, λ h. absurd (h.not_empty refl))
parse_hex_int64_iff (c ∷ cs) n =
    let reads = scan_iff 16 hexadecimal_digit (omega arith) guard_exact (c ∷ cs) n in
    let same = hex_loop-scan (c ∷ cs) 0 in
    (
      (λ e.
          let (digits, is_value, fits) = reads.0 (sym same ∙ e) in
          record { digits = digits; not_empty = (λ p. cc); is_value = is_value; fits = fits }),
      (λ h. same ∙ reads.1 (h.digits, h.is_value, h.fits)),
    )
