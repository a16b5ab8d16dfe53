-- ===== src/Http1/Simd.antt =====
-- The kernels of github.com/sebishogun/simd that the parsers call. The module is not part of this
-- repository, so its functions are parameters, with what docs/lld/http1-head-parser.md and the
-- calls rely on: the first index, the first byte of a set or below a bound, and all indices up to
-- the length of the destination. `none` stands for -1.
use simdhttp.Common.{
  ℕ, suc, ◌+◌, ◌≡◌, Bool, ◌||◌, Option, none, some, List, [], ◌∷◌, ltb, ◌==◌, if◌then◌else◌, Bytes,
  index_byte, take,
}
use simdhttp.Http1.Chars.{member}

abbrev pub first_where : (ℕ → Bool) → Bytes → Option ℕ
first_where p [] = none
first_where p (b ∷ bs) =
    if p b then some 0 else elim (first_where p bs) [ none ↦ none | some i ↦ some (suc i) ]

-- The indices of `c`, counted from `i`.
abbrev pub positions : ℕ → Bytes → ℕ → List ℕ
positions i [] c = []
positions i (b ∷ bs) c = let rest = positions (i + 1) bs c in if b == c then i ∷ rest else rest

abbrev pub any_or_less : Bytes → ℕ → ℕ → Bool
any_or_less set lo b = ltb b lo || member b set

pub record Simd : Type 0 where
  pub index_byte_of : Bytes → ℕ → Option ℕ
  pub index_any_or_less : Bytes → Bytes → ℕ → Option ℕ
  pub index_all : ℕ → Bytes → ℕ → List ℕ
  pub index_byte_law : (b : Bytes) (c : ℕ) → index_byte_of b c ≡ index_byte b c
  pub index_any_or_less_law :
      (b set : Bytes) (lo : ℕ) → index_any_or_less b set lo ≡ first_where (any_or_less set lo) b
  pub index_all_law : (n : ℕ) (b : Bytes) (c : ℕ) → index_all n b c ≡ take n (positions 0 b c)
