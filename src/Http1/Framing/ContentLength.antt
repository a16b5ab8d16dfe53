-- ===== src/Http1/Framing/ContentLength.antt =====
-- `parseContentLength` against the value of a decimal numeral.
use simdhttp.Common.{
  ℕ, ◌-◌, ◌≤◌, ◌≡◌, ◌↔◌, refl, sym, ◌∙◌, Option, none, some, [], ◌∷◌, arith, if◌then◌else◌, within,
  Bytes, length,
}
use simdhttp.Common.Int64.{IsNonneg, add64, mul64}
use simdhttp.Common.Numerals.{AreDigits, value, scan, GuardIsExact, scan_iff}
use simdhttp.Http1.Framing.{content_length_loop, parse_content_length}

abbrev pub decimal_digit : ℕ → Option ℕ
decimal_digit c = if within b'0' b'9' c then some (c - b'0') else none

guard_exact : GuardIsExact 10 decimal_digit
guard_exact n d c e = (λ h. ground arith, λ h. ground arith)

content_length_loop-scan :
    (cs : Bytes) (n : ℕ) → content_length_loop n cs ≡ scan 10 decimal_digit n cs
unfolding content_length_loop scan
content_length_loop-scan [] n = refl
content_length_loop-scan (c ∷ cs) n =
    ground (arith, content_length_loop-scan cs (add64 (mul64 n 10) (c - b'0')))

-- A plain decimal numeral of 1 to 19 digits, no sign and no space, that fits an int64.
pub record IsContentLength (v : Bytes) (n : ℕ) : Type 0 where
  pub digits : AreDigits 10 decimal_digit v
  pub not_empty : 1 ≤ length v
  pub not_long : length v ≤ 19
  pub is_value : n ≡ value 10 decimal_digit v
  pub fits : IsNonneg n

-- `parseContentLength` accepts `v` with the number `n` exactly when `v` is a decimal numeral of 1
-- to 19 digits whose value is `n` and fits an int64.
pub parse_content_length_iff :
    (v : Bytes) (n : ℕ) → (parse_content_length v ≡ some n) ↔ IsContentLength v n
unfolding parse_content_length
parse_content_length_iff v n =
    let reads = scan_iff 10 decimal_digit (omega arith) guard_exact v n in
    let same = content_length_loop-scan v 0 in
    (
      (λ e.
          let (digits, is_value, fits) = reads.0 (sym same ∙ ground arith) in
          record {
            digits = digits;
            not_empty = ground arith;
            not_long = ground arith;
            is_value = is_value;
            fits = fits;
          }),
      (λ h. ground (arith, same, reads.1 (h.digits, h.is_value, h.fits), h.not_empty, h.not_long)),
    )
