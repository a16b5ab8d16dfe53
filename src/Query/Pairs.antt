-- ===== src/Query/Pairs.antt =====
-- `queryLookup` against the list of the pairs of a query.
use simdhttp.Common.{
  ℕ, zero, suc, ◌<◌, ◌≡◌, inl, inr, refl, ap, ◌∙◌, Option, none, some, List, [], ◌∷◌, arith,
  if◌then◌else◌, Bytes, length, take, drop, Bool-cases, Option-cases, subst,
}
use simdhttp.Common.{Bool, ◌==◌, ◌||◌}
use simdhttp.Http1.Simd.{first_where}
use simdhttp.Query.{is_separator, pair_value, or_rest, lookup_loop, query_lookup}

abbrev onto_first : ℕ → List Bytes → List Bytes
onto_first c [] = (c ∷ []) ∷ []
onto_first c (p ∷ ps) = (c ∷ p) ∷ ps

abbrev cuts : ℕ → Bool
cuts c = c == b'&' || c == b';'

-- A query is cut at each `&` and each `;`.
abbrev pub pairs_of : Bytes → List Bytes
pairs_of [] = [] ∷ []
pairs_of (c ∷ cs) = let rest = pairs_of cs in if cuts c then [] ∷ rest else onto_first c rest

-- The first pair with the name whose value decodes.
abbrev pub first_value : List Bytes → Bytes → Option Bytes
first_value [] name = none
first_value (p ∷ ps) name = or_rest (pair_value p name) (first_value ps name)

no_separator : (raw : Bytes) → first_where is_separator raw ≡ none → pairs_of raw ≡ raw ∷ []
no_separator [] h = refl
no_separator (c ∷ cs) h = elim (Bool-cases (is_separator c)) [
  | inl sep ↦ cc (rw sep at h)
  | inr other ↦ elim (Option-cases (first_where is_separator cs)) [
    | inl e ↦ rw (other, no_separator cs e) refl
    | inr (i, e) ↦ cc (rw (other, e) at h)
  ]
]

at_separator :
    (raw : Bytes) (i : ℕ)
    → first_where is_separator raw ≡ some i
    → (pairs_of raw ≡ take i raw ∷ pairs_of (drop (suc i) raw))
      × (length (drop (suc i) raw) < length raw)
at_separator [] i h = cc
at_separator (c ∷ cs) i h = elim (Bool-cases (is_separator c)) [
  | inl sep ↦
      let is : 0 ≡ i = cc (rw sep at h) in
      subst
        (λ (j : ℕ).
          (pairs_of (c ∷ cs) ≡ take j (c ∷ cs) ∷ pairs_of (drop (suc j) (c ∷ cs)))
          × (length (drop (suc j) (c ∷ cs)) < length (c ∷ cs)))
        is (rw sep refl, omega arith)
  | inr other ↦ elim (Option-cases (first_where is_separator cs)) [
    | inl e ↦ cc (rw (other, e) at h)
    | inr (j, e) ↦
        let is : suc j ≡ i = cc (rw (other, e) at h) in
        let (cut, less) = at_separator cs j e in
        subst
          (λ (n : ℕ).
            (pairs_of (c ∷ cs) ≡ take n (c ∷ cs) ∷ pairs_of (drop (suc n) (c ∷ cs)))
            × (length (drop (suc n) (c ∷ cs)) < length (c ∷ cs)))
          is (rw (other, cut) refl, omega (arith, less))
  ]
]

or_rest-none : (o : Option Bytes) → or_rest o none ≡ o
or_rest-none none = refl
or_rest-none (some v) = refl

empty_pair : (name : Bytes) → pair_value [] name ≡ none
unfolding pair_value
empty_pair name = refl

lookup_pairs :
    (fuel : ℕ) (raw name : Bytes)
    → length raw < fuel
    → lookup_loop fuel raw name ≡ first_value (pairs_of raw) name
unfolding lookup_loop
lookup_pairs zero raw name enough = absurd (omega arith)
lookup_pairs (suc fuel) [] name enough = rw (empty_pair name) refl
lookup_pairs (suc fuel) (c ∷ cs) name enough =
    elim (Option-cases (first_where is_separator (c ∷ cs))) [
      | inl e ↦
          rw (e, no_separator (c ∷ cs) e)
            (ap (or_rest (pair_value (c ∷ cs) name))
              (lookup_pairs fuel [] name (omega arith) ∙ rw (empty_pair name) refl))
      | inr (i, e) ↦
          let (cut, less) = at_separator (c ∷ cs) i e in
          rw (e, cut)
            (ap (or_rest (pair_value (take i (c ∷ cs)) name))
              (lookup_pairs fuel (drop (suc i) (c ∷ cs)) name (omega arith)))
    ]

-- The scan of the raw query, pair by pair, ends, and it answers the value of the first pair, of all
-- those that the query is cut into, whose key is the name and whose value decodes.
pub query_lookup-first_value :
    (raw name : Bytes) → query_lookup raw name ≡ first_value (pairs_of raw) name
unfolding query_lookup
query_lookup-first_value raw name = lookup_pairs (suc (length raw)) raw name (omega arith)
