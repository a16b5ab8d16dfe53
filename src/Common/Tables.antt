-- ===== src/Common/Tables.antt =====
-- A statement about all bytes is a table of 256 entries, checked by evaluation.
use Prim.Native.Nat.{ℕ, zero, suc, ◌+◌, ◌≤◌, ◌<◌}
use mathlib.Core.Path.{◌≡◌, refl, subst}
use mathlib.Core.Bool.{Bool, true, false}
use mathlib.Core.List.{[], ◌∷◌}
use mathlib.Core.Logic.{inl, inr}
use native.Mathlib.Omega.{arith}
use simdhttp.Common.Lists.{Bytes, all}
use simdhttp.Common.Tests.{◌==◌, ==_iff, Bool-cases, &&-true}

unfoldable pub range : ℕ → ℕ → Bytes
range first zero = []
range first (suc count) = first ∷ range (suc first) count

pub all-range :
    (first count : ℕ) (test : ℕ → Bool)
    → all test (range first count) ≡ true
    → (c : ℕ) → first ≤ c
    → c < first + count
    → test c ≡ true
unfolding range
all-range first zero test h c low high = absurd (omega arith)
all-range first (suc count) test h c low high = elim (Bool-cases (first == c)) [
  | inl here ↦ subst (λ x. test x ≡ true) ((==_iff first c).0 here) (&&-true _ _ h).0
  | inr later ↦ all-range (suc first) count test (&&-true _ _ h).1 c (ground arith) (omega arith)
]

-- `p → q` and agreement, as tests for such a table.
abbrev pub iff_test : Bool → Bool → Bool
iff_test true b = b
iff_test false true = false
iff_test false false = true

pub iff_test_sound : (a b : Bool) → iff_test a b ≡ true → a ≡ b
iff_test_sound true true h = refl
iff_test_sound true false h = cc
iff_test_sound false true h = cc
iff_test_sound false false h = refl
