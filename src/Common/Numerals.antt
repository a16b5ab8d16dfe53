-- ===== src/Common/Numerals.antt =====
-- The value of a digit string in a base, and the loop that reads it and refuses a value beyond
-- int64. The decimal and the hexadecimal reader of http1 are instances of this loop.
use Prim.Native.Nat.{ℕ, suc, ◌+◌, ◌-◌, ◌*◌, ◌/◌, ◌^◌, ◌≤◌}
use mathlib.Core.Path.{◌≡◌, sym, ◌∙◌, ap}
use mathlib.Core.Logic.{◌↔◌, inl, inr}
use mathlib.Core.Bool.{true, false}
use mathlib.Core.Option.{Option, none, some}
use mathlib.Core.List.{[], ◌∷◌}
use native.Mathlib.Omega.{arith}
use native.Mathlib.Nat.{pow-suc, one-le-pow, pow-zero}
use simdhttp.Common.Int64.{max_int64, IsNonneg, add64, mul64, add64-eq-add, mul64-eq-mul}
use simdhttp.Common.Lists.{Bytes, length}
use simdhttp.Common.Tests.{ltb, if◌then◌else◌, Option-cases, Bool-cases}

le_mul_pos : (x p : ℕ) → 1 ≤ p → x ≤ x * p
le_mul_pos x p h = grind arith

module _ (base : ℕ) (digit : ℕ → Option ℕ) where
  -- Every byte is a digit.
  abbrev pub AreDigits : Bytes → Type 0
  AreDigits [] = Unit
  AreDigits (c ∷ cs) = ((d : ℕ) × (digit c ≡ some d)) × AreDigits cs

  abbrev pub digit_value : Option ℕ → ℕ
  digit_value none = 0
  digit_value (some d) = d

  -- The first digit weighs most.
  abbrev pub value : Bytes → ℕ
  value [] = 0
  value (c ∷ cs) = digit_value (digit c) * base ^ length cs + value cs

  unfoldable pub scan : ℕ → Bytes → Option ℕ
  scan n [] = some n
  scan n (c ∷ cs) = elim (digit c) [
    | none ↦ none
    | some d ↦ if ltb ((max_int64 - d) / base) n then none else scan (add64 (mul64 n base) d) cs
  ]

  -- The test before each step, in exact arithmetic.
  abbrev pub GuardIsExact : Type 0
  GuardIsExact =
      (n d c : ℕ)
      → digit c ≡ some d
      → (ltb ((max_int64 - d) / base) n ≡ false) ↔ (n * base + d ≤ max_int64)

  module _ (pos : 1 ≤ base) (exact : GuardIsExact) where
    pow-pos : (k : ℕ) → 1 ≤ base ^ k
    pow-pos k = one-le-pow k base pos

    step64 : (n d : ℕ) → n * base + d ≤ max_int64 → add64 (mul64 n base) d ≡ n * base + d
    step64 n d h = rw (mul64-eq-mul n base (omega arith), add64-eq-add (n * base) d h)

    -- The invariant of the loop: `n` is the value of what was read.
    weigh : (n d k v : ℕ) → (n * base + d) * base ^ k + v ≡ n * base ^ suc k + (d * base ^ k + v)
    weigh n d k v = omega (arith, ap (λ (p : ℕ). n * p) (pow-suc base k))

    scan_step :
        (n d c : ℕ) (cs : Bytes)
        → digit c ≡ some d
        → n * base + d ≤ max_int64
        → scan n (c ∷ cs) ≡ scan (n * base + d) cs
    unfolding scan
    scan_step n d c cs e h = rw (e, scan) (rw ((exact n d c e).1 h, step64 n d h))

    scan_stops :
        (n d c : ℕ) (cs : Bytes)
        → digit c ≡ some d
        → ltb ((max_int64 - d) / base) n ≡ true
        → scan n (c ∷ cs) ≡ none
    unfolding scan
    scan_stops n d c cs e h = rw (e, scan) (rw h)

    scan_no_digit : (n c : ℕ) (cs : Bytes) → digit c ≡ none → scan n (c ∷ cs) ≡ none
    unfolding scan
    scan_no_digit n c cs e = rw (e, scan)

    pub scan_sound :
        (cs : Bytes) (n v : ℕ)
        → IsNonneg n
        → scan n cs ≡ some v
        → AreDigits cs × (v ≡ n * base ^ length cs + value cs) × IsNonneg v
    scan_sound [] n v h e = unfold scan in (tt, rw (pow-zero base) (ground arith), ground arith)
    scan_sound (c ∷ cs) n v h e = elim (Option-cases (digit c)) [
      | inl stop ↦ cc (scan_no_digit n c cs stop)
      | inr (d, is) ↦ elim (Bool-cases (ltb ((max_int64 - d) / base) n)) [
        | inl over ↦ cc (scan_stops n d c cs is over)
        | inr under ↦
            let fits = (exact n d c is).0 under in
            let (digits, eq, small) =
              scan_sound cs (n * base + d) v fits (sym (scan_step n d c cs is fits) ∙ e) in
            (((d, is), digits), rw is (eq ∙ weigh n d (length cs) (value cs)), small)
      ]
    ]

    pub scan_complete :
        (cs : Bytes) (n : ℕ)
        → AreDigits cs
        → IsNonneg (n * base ^ length cs + value cs)
        → scan n cs ≡ some (n * base ^ length cs + value cs)
    scan_complete [] n ds h = unfold scan in rw (pow-zero base) (ground arith)
    scan_complete (c ∷ cs) n ((d, is), ds) h =
        let w = weigh n d (length cs) (value cs) in
        let h' : IsNonneg ((n * base + d) * base ^ length cs + value cs) = rw w (rw is at h) in
        let fits : n * base + d ≤ max_int64 =
          omega (arith, le_mul_pos (n * base + d) (base ^ length cs) (pow-pos (length cs)), h') in
        rw is (scan_step n d c cs is fits ∙ scan_complete cs (n * base + d) ds h' ∙ ap some w)

    -- The loop from 0 reads exactly the digit strings whose value is an int64, leading zeros or not.
    pub scan_iff :
        (cs : Bytes) (v : ℕ) → (scan 0 cs ≡ some v) ↔ (AreDigits cs × (v ≡ value cs) × IsNonneg v)
    scan_iff cs v = (
      (λ e.
          let (digits, eq, small) = scan_sound cs 0 v (omega arith) e in
          (digits, omega arith, small)),
      (λ (digits, eq, small). scan_complete cs 0 digits (omega arith) ∙ ap some (omega arith)),
    )
