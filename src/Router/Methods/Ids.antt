-- ===== src/Router/Methods/Ids.antt =====
-- The numbers that `assignMethodIDs` gives.
use simdhttp.Common.{Among, here, there}
use simdhttp.Common.{
  ℕ, ◌<◌, ◌≤◌, ◌≡◌, inl, inr, refl, sym, ap, ◌∙◌, subst, Option, none, some, List, [], ◌∷◌, arith,
  Bytes, get_elem?, equal, Bool-cases, Option-cases,
}
use simdhttp.Router.Segments.{equal_sound, equal_refl}
use simdhttp.Router.Methods.{
  num_common_methods, named, common_method_id, common_method_names, MethodTable, add_method,
  assign_loop, assign_method_ids, method_id,
}
use simdhttp.Router.Methods.Common.{common_method_id_iff, below_nine}

-- The other methods have numbers of their own, from nine up.
pub record IsNumbered (t : MethodTable) : Type 0 where
  pub bounds :
      (m : Bytes) (id : ℕ)
      → named t.ids m ≡ some id
      → (num_common_methods ≤ id) × (id < t.num_methods)
  pub injective :
      (m m' : Bytes) (id : ℕ) → named t.ids m ≡ some id → named t.ids m' ≡ some id → m ≡ m'
  pub at_least : num_common_methods ≤ t.num_methods

add_method-IsNumbered :
    (m : Bytes) (t : MethodTable) (common known : Option ℕ)
    → IsNumbered t
    → IsNumbered (add_method m t common known)
add_method-IsNumbered m t (some id) known h = h
add_method-IsNumbered m t none (some id) h = h
add_method-IsNumbered m t none none h = record {
  bounds = λ x id e. elim (Bool-cases (equal m x)) [
    | inl is ↦ let same : t.num_methods ≡ id = cc (rw is at e) in omega (arith, h.at_least)
    | inr other ↦ let b = h.bounds x id (rw other at e) in (b.0, omega arith)
  ];
  injective = λ x y id e e'. elim (Bool-cases (equal m x)) [
    | inl is ↦ elim (Bool-cases (equal m y)) [
      | inl is' ↦ sym (equal_sound m x is) ∙ equal_sound m y is'
      | inr other' ↦
          let same : t.num_methods ≡ id = cc (rw is at e) in
          let b = h.bounds y id (rw other' at e') in absurd (omega arith)
    ]
    | inr other ↦ elim (Bool-cases (equal m y)) [
      | inl is' ↦
          let same : t.num_methods ≡ id = cc (rw is' at e') in
          let b = h.bounds x id (rw other at e) in absurd (omega arith)
      | inr other' ↦ h.injective x y id (rw other at e) (rw other' at e')
    ]
  ];
  at_least = omega (arith, h.at_least);
}

assign_loop-IsNumbered :
    (ms : List Bytes) (t : MethodTable) → IsNumbered t → IsNumbered (assign_loop ms t)
unfolding assign_loop
assign_loop-IsNumbered [] t h = h
assign_loop-IsNumbered (m ∷ ms) t h =
    assign_loop-IsNumbered ms (add_method m t (common_method_id m) (named t.ids m))
      (add_method-IsNumbered m t (common_method_id m) (named t.ids m) h)

pub assign_method_ids-IsNumbered : (ms : List Bytes) → IsNumbered (assign_method_ids ms)
unfolding assign_method_ids
assign_method_ids-IsNumbered ms =
    assign_loop-IsNumbered ms (record { ids = []; num_methods = 9 })
      (record { bounds = λ m id e. cc; injective = λ m m' id e e'. cc; at_least = omega arith })

-- What is numbered stays numbered, as it is.
keeps_add :
    (x : Bytes) (t : MethodTable) (m : Bytes) (id : ℕ) (common known : Option ℕ)
    → named t.ids x ≡ known
    → named t.ids m ≡ some id
    → named (add_method x t common known).ids m ≡ some id
keeps_add x t m id (some k) known e h = h
keeps_add x t m id none (some k) e h = h
keeps_add x t m id none none e h = elim (Bool-cases (equal x m)) [
  | inl is ↦ let bad = subst (λ y. named t.ids y ≡ none) (equal_sound x m is) e in cc
  | inr other ↦ rw other h
]

keeps_number :
    (ms : List Bytes) (t : MethodTable) (m : Bytes) (id : ℕ)
    → named t.ids m ≡ some id
    → named (assign_loop ms t).ids m ≡ some id
unfolding assign_loop
keeps_number [] t m id e = e
keeps_number (x ∷ ms) t m id e =
    keeps_number ms (add_method x t (common_method_id x) (named t.ids x)) m id
      (keeps_add x t m id (common_method_id x) (named t.ids x) refl e)

adds :
    (m : Bytes) (t : MethodTable) (known : Option ℕ)
    → named t.ids m ≡ known
    → (id : ℕ) × (named (add_method m t none known).ids m ≡ some id)
adds m t (some id) e = (id, e)
adds m t none e = (t.num_methods, rw (equal_refl m) refl)

assigned :
    (m : Bytes) (ms : List Bytes) (t : MethodTable)
    → Among m ms
    → common_method_id m ≡ none
    → (id : ℕ) × (named (assign_loop ms t).ids m ≡ some id)
unfolding assign_loop
assigned m _ t (here {ms = ms}) e =
    let (id, h) = adds m t (named t.ids m) refl in
    let first : named (add_method m t (common_method_id m) (named t.ids m)).ids m ≡ some id =
      ap (λ c. named (add_method m t c (named t.ids m)).ids m) e ∙ h in
    (id, keeps_number ms (add_method m t (common_method_id m) (named t.ids m)) m id first)
assigned m _ t (there {x = x} {ms = ms} k) e =
    assigned m ms (add_method x t (common_method_id x) (named t.ids x)) k e

method_id-bounds :
    (t : MethodTable) (m : Bytes) (id : ℕ)
    → IsNumbered t
    → method_id t m ≡ some id
    → id < t.num_methods
unfolding method_id
method_id-bounds t m id h e = elim (Option-cases (common_method_id m)) [
  | inr (k, common) ↦
      let same : k ≡ id = cc (rw common at e) in
      omega (
        arith,
        h.at_least,
        below_nine k common_method_names m ((common_method_id_iff m k).0 common),
      )
  | inl uncommon ↦ (h.bounds m id (rw uncommon at e)).1
]

method_id-injective :
    (t : MethodTable) (m m' : Bytes) (id : ℕ)
    → IsNumbered t
    → method_id t m ≡ some id
    → method_id t m' ≡ some id
    → m ≡ m'
unfolding method_id
method_id-injective t m m' id h e e' = elim (Option-cases (common_method_id m)) [
  | inr (k, common) ↦ elim (Option-cases (common_method_id m')) [
    | inr (k', common') ↦
        let same : k ≡ id = cc (rw common at e) in
        let same' : k' ≡ id = cc (rw common' at e') in
        let at : get_elem? common_method_names id ≡ some m =
          subst (λ x. get_elem? common_method_names x ≡ some m) same
            ((common_method_id_iff m k).0 common) in
        let at' : get_elem? common_method_names id ≡ some m' =
          subst (λ x. get_elem? common_method_names x ≡ some m') same'
            ((common_method_id_iff m' k').0 common') in
        cc
    | inl uncommon' ↦
        let same : k ≡ id = cc (rw common at e) in
        let b = h.bounds m' id (rw uncommon' at e') in
        absurd
          (omega (arith, below_nine k common_method_names m ((common_method_id_iff m k).0 common)))
  ]
  | inl uncommon ↦ elim (Option-cases (common_method_id m')) [
    | inr (k', common') ↦
        let same : k' ≡ id = cc (rw common' at e') in
        let b = h.bounds m id (rw uncommon at e) in
        absurd (
          omega
            (arith, below_nine k' common_method_names m' ((common_method_id_iff m' k').0 common')))
    | inl uncommon' ↦ h.injective m m' id (rw uncommon at e) (rw uncommon' at e')
  ]
]

has_id :
    (ms : List Bytes) (m : Bytes)
    → Among m ms
    → (id : ℕ) × (method_id (assign_method_ids ms) m ≡ some id)
unfolding method_id assign_method_ids
has_id ms m k = elim (Option-cases (common_method_id m)) [
  | inr (id, common) ↦ (id, rw common refl)
  | inl uncommon ↦
      let (id, e) = assigned m ms (record { ids = []; num_methods = 9 }) k uncommon in
      (id, rw uncommon e)
]

-- What a method table owes the rest of the router.
pub record IsMethodTable (ms : List Bytes) (t : MethodTable) : Type 0 where
  pub known : (m : Bytes) → Among m ms → (id : ℕ) × (method_id t m ≡ some id)
  pub in_range : (m : Bytes) (id : ℕ) → method_id t m ≡ some id → id < t.num_methods
  pub distinct :
      (m m' : Bytes) (id : ℕ) → method_id t m ≡ some id → method_id t m' ≡ some id → m ≡ m'

-- Every method of the table has an ID, every ID is below `numMethods`, the length of a node's
-- handlers, and no two methods, of the table or not, share one.
pub assign_method_ids-IsMethodTable : (ms : List Bytes) → IsMethodTable ms (assign_method_ids ms)
assign_method_ids-IsMethodTable ms =
    let n = assign_method_ids-IsNumbered ms in
    record {
      known = λ m k. has_id ms m k;
      in_range = λ m id e. method_id-bounds (assign_method_ids ms) m id n e;
      distinct = λ m m' id e e'. method_id-injective (assign_method_ids ms) m m' id n e e';
    }
