-- ===== src/Common/Int64.antt =====
-- Go's int64 as its bit pattern, a number below 2 ^ 64 in two's complement.
use Prim.Native.Nat.{ℕ, ◌+◌, ◌-◌, ◌*◌, ◌%◌, ◌≤◌, ◌<◌}
use mathlib.Core.Path.{◌≡◌}
use mathlib.Core.Bool.{Bool, false}
use native.Mathlib.Omega.{arith}
use simdhttp.Common.Tests.{ltb}

-- 1<<63-1
abbrev pub max_int64 : ℕ
max_int64 = 0x7fff_ffff_ffff_ffff

-- A value that is not negative.
abbrev pub IsNonneg : ℕ → Type 0
IsNonneg a = a ≤ max_int64

unfoldable pub add64 : ℕ → ℕ → ℕ
add64 a b = (a + b) % 0x1_0000_0000_0000_0000

unfoldable pub sub64 : ℕ → ℕ → ℕ
sub64 a b = (a + 0x1_0000_0000_0000_0000 - b) % 0x1_0000_0000_0000_0000

unfoldable pub mul64 : ℕ → ℕ → ℕ
mul64 a b = a * b % 0x1_0000_0000_0000_0000

-- The signed order: with the top bit flipped, it is the order of the patterns.
unfoldable pub lt64 : ℕ → ℕ → Bool
lt64 a b =
    ltb ((a + 0x8000_0000_0000_0000) % 0x1_0000_0000_0000_0000)
      ((b + 0x8000_0000_0000_0000) % 0x1_0000_0000_0000_0000)

pub lt64-ltb : (a b : ℕ) → IsNonneg a → IsNonneg b → lt64 a b ≡ ltb a b
unfolding lt64
lt64-ltb a b ha hb = ground arith

-- A sum that passes the largest int64 is negative, so it is below every value that is not.
pub lt64_wrapped :
    (a b m : ℕ)
    → IsNonneg a
    → IsNonneg b
    → IsNonneg m
    → max_int64 < a + b
    → lt64 m (add64 a b) ≡ false
unfolding lt64 add64
lt64_wrapped a b m ha hb hm h = ground arith

pub lt64-add64 : (a b m : ℕ) → IsNonneg m → IsNonneg (a + b) → lt64 m (add64 a b) ≡ ltb m (a + b)
unfolding lt64 add64
lt64-add64 a b m hm h = ground arith

pub add64-eq-add : (a b : ℕ) → IsNonneg (a + b) → add64 a b ≡ a + b
unfolding add64
add64-eq-add a b h = omega arith

pub sub64-eq-sub : (a b : ℕ) → IsNonneg a → b ≤ a → sub64 a b ≡ a - b
unfolding sub64
sub64-eq-sub a b h k = omega arith

pub mul64-eq-mul : (a b : ℕ) → IsNonneg (a * b) → mul64 a b ≡ a * b
unfolding mul64
mul64-eq-mul a b h = omega arith
