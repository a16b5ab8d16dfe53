-- ===== src/Router/Methods/Common.antt =====
-- The compare chain of `commonMethodID` against the table of names.
use simdhttp.Common.{
  ℕ, zero, suc, ◌+◌, ◌<◌, ◌≡◌, ◌↔◌, inl, inr, refl, ap, ◌∙◌, subst, some, List, [], ◌∷◌, arith,
  ◌==◌, Bytes, length, get_elem?, equal, All, Bool-cases,
}
use simdhttp.Router.Segments.{equal_sound}
use simdhttp.Router.Methods.{
  named, three_letters, four_letters, five_letters, six_letters, seven_letters, common_method_id,
  common_method_names,
}

named-All :
    (P : Bytes → ℕ → Type 0) (cases : List (Bytes × ℕ)) (m : Bytes) (id : ℕ)
    → All (λ c. P c.0 c.1) cases
    → named cases m ≡ some id
    → P m id
named-All P [] m id h e = cc
named-All P ((name, k) ∷ cases) m id (hp, h) e = elim (Bool-cases (equal name m)) [
  | inl is ↦
      let same : k ≡ id = cc (rw is at e) in
      subst (λ x. P x id) (equal_sound name m is) (subst (P name) same hp)
  | inr other ↦ named-All P cases m id h (rw other at e)
]

abbrev IsCommon : Bytes → ℕ → Type 0
IsCommon m id = get_elem? common_method_names id ≡ some m

common_method_id-IsCommon : (m : Bytes) (id : ℕ) → common_method_id m ≡ some id → IsCommon m id
unfolding common_method_id
common_method_id-IsCommon m id e = elim (Bool-cases (length m == 3)) [
  | inl h ↦ named-All IsCommon three_letters m id (refl, (refl, tt)) (rw h at e)
  | inr h3 ↦ elim (Bool-cases (length m == 4)) [
    | inl h ↦ named-All IsCommon four_letters m id (refl, (refl, tt)) (rw (h3, h) at e)
    | inr h4 ↦ elim (Bool-cases (length m == 5)) [
      | inl h ↦ named-All IsCommon five_letters m id (refl, (refl, tt)) (rw (h3, h4, h) at e)
      | inr h5 ↦ elim (Bool-cases (length m == 6)) [
        | inl h ↦ named-All IsCommon six_letters m id (refl, tt) (rw (h3, h4, h5, h) at e)
        | inr h6 ↦ elim (Bool-cases (length m == 7)) [
          | inl h ↦
              named-All IsCommon seven_letters m id (refl, (refl, tt)) (rw (h3, h4, h5, h6, h) at e)
          | inr h7 ↦ cc (rw (h3, h4, h5, h6, h7) at e)
        ]
      ]
    ]
  ]
]

abbrev NumberedFrom : ℕ → List Bytes → Type 0
NumberedFrom i [] = Unit
NumberedFrom i (name ∷ names) = (common_method_id name ≡ some i) × NumberedFrom (suc i) names

numbered_at :
    (i j : ℕ) (names : List Bytes) (m : Bytes)
    → NumberedFrom i names
    → get_elem? names j ≡ some m
    → common_method_id m ≡ some (i + j)
numbered_at i j [] m h e = cc
numbered_at i zero (name ∷ names) m (h, hs) e =
    let same : name ≡ m = cc in
    let up : i ≡ i + 0 = omega arith in
    subst (λ x. common_method_id x ≡ some (i + 0)) same (h ∙ ap some up)
numbered_at i (suc j) (name ∷ names) m (h, hs) e =
    let up : suc i + j ≡ i + suc j = omega arith in numbered_at (suc i) j names m hs e ∙ ap some up

common_numbered : NumberedFrom 0 common_method_names
unfolding common_method_id equal
common_numbered = (refl, (refl, (refl, (refl, (refl, (refl, (refl, (refl, (refl, tt)))))))))

-- The compare chain of `commonMethodID` and the table `commonMethodNames` are inverse.
pub common_method_id_iff :
    (m : Bytes) (id : ℕ)
    → (common_method_id m ≡ some id) ↔ (get_elem? common_method_names id ≡ some m)
common_method_id_iff m id = (
  common_method_id-IsCommon m id,
  λ h.
      let up : 0 + id ≡ id = omega arith in
      numbered_at 0 id common_method_names m common_numbered h ∙ ap some up,
)

pub below_nine :
    (id : ℕ) (names : List Bytes) (m : Bytes) → get_elem? names id ≡ some m → id < length names
below_nine id [] m e = cc
below_nine zero (x ∷ xs) m e = omega arith
below_nine (suc id) (x ∷ xs) m e = omega (arith, below_nine id xs m e)
