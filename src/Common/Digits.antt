-- ===== src/Common/Digits.antt =====
-- The hexadecimal digits and their values, as a table.
use Prim.Native.Nat.{ℕ, suc}
use mathlib.Core.Option.{Option, none, some}
use mathlib.Core.List.{[], ◌∷◌}
use simdhttp.Common.Lists.{Bytes, codes}
use simdhttp.Common.Tests.{◌==◌, if◌then◌else◌}

-- The first place of a byte in a string, counted from `i`.
abbrev pub place_from : ℕ → ℕ → Bytes → Option ℕ
place_from i c [] = none
place_from i c (x ∷ xs) = let rest = place_from (suc i) c xs in if c == x then some i else rest

abbrev pub or_place : Option ℕ → Option ℕ → Option ℕ
or_place none o = o
or_place (some d) o = some d

-- The value of a digit is its place among the sixteen digits, in either case.
abbrev pub hexadecimal_digit : ℕ → Option ℕ
hexadecimal_digit c =
    or_place (place_from 0 c (codes "0123456789abcdef")) (place_from 0 c (codes "0123456789ABCDEF"))
