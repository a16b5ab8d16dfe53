-- ===== src/Router/Tree/Outcomes.antt =====
-- What a search of the trie answers, and how the answers of its branches combine.
use simdhttp.Common.{
  ℕ, zero, suc, ◌+◌, ◌<◌, ◌≤◌, ◌≡◌, ◌⊎◌, inl, inr, refl, sym, ap, ◌∙◌, none, some, List, [], ◌∷◌,
  ◌++◌, append-nil, append_assoc, arith, ltb, Bytes, length, take, length-append, Bool-cases,
}
use simdhttp.Router.Tree.Leaves.{captures, Prefers}
use simdhttp.Router.Tree.{Node, Found, or_else, bind_value, set_value, max_inline_params}
use simdhttp.Router.{Segment}

-- The values below `nv` are as they were.
pub record Kept (nv : ℕ) (vals vals' : List Bytes) : Type 0 where
  pub same_length : length vals' ≡ length vals
  pub same_front : take nv vals' ≡ take nv vals

-- `cs` are bound behind the values below `nv`, as far as there is room.
pub record Bound (nv : ℕ) (vals cs : List Bytes) (nv' : ℕ) (vals' : List Bytes) : Type 0 where
  pub keeps_length : length vals' ≡ length vals
  pub in_room : nv' ≤ max_inline_params
  pub is_bound : take nv' vals' ≡ take max_inline_params (take nv vals ++ cs)

-- Nothing is found where nothing is; or what is found is a candidate, its values are bound, and no
-- other candidate goes before it.
abbrev pub Outcome :
    (List Bytes → Type 0)
    → (List Segment → List Bytes → Node → Type 0)
    → List Bytes
    → ℕ
    → Found
    → Type 0
Outcome P C vals nv (vals', none) =
    Kept nv vals vals' × ((ss : List Segment) (ps : List Bytes) (c : Node) → P ps → C ss ps c → ⊥)
Outcome P C vals nv (vals', some (c, nv')) =
    (ss : List Segment) × (ps : List Bytes) × P ps
    × C ss ps c
    × Bound nv vals (captures ss ps) nv' vals'
    × ((ss' : List Segment) (c' : Node) → C ss' ps c' → Prefers ss ss')

pub Kept-refl : (nv : ℕ) (vals : List Bytes) → Kept nv vals vals
Kept-refl nv vals = record { same_length = refl; same_front = refl }

pub Kept-trans : (nv : ℕ) (u v w : List Bytes) → Kept nv u v → Kept nv v w → Kept nv u w
Kept-trans nv u v w h k = record {
  same_length = k.same_length ∙ h.same_length;
  same_front = k.same_front ∙ h.same_front;
}

Kept-Bound :
    (nv : ℕ) (vals vals1 cs : List Bytes) (nv' : ℕ) (vals' : List Bytes)
    → Kept nv vals vals1
    → Bound nv vals1 cs nv' vals'
    → Bound nv vals cs nv' vals'
Kept-Bound nv vals vals1 cs nv' vals' h k = record {
  keeps_length = k.keeps_length ∙ h.same_length;
  in_room = k.in_room;
  is_bound = k.is_bound ∙ ap (λ (xs : List Bytes). take max_inline_params (xs ++ cs)) h.same_front;
}

second_Outcome :
    (P : List Bytes → Type 0) (C D : List Segment → List Bytes → Node → Type 0)
    (vals vals1 : List Bytes) (nv : ℕ) (r : Found)
    → Kept nv vals vals1
    → ((ss : List Segment) (ps : List Bytes) (c : Node) → P ps → C ss ps c → ⊥)
    → Outcome P D vals1 nv r
    → Outcome P (λ ss ps c. C ss ps c ⊎ D ss ps c) vals nv r
second_Outcome P C D vals vals1 nv (vals2, none) kept missing (kept', missing') = (
  Kept-trans nv vals vals1 vals2 kept kept',
  λ ss ps c path k. elim k [ inl a ↦ missing ss ps c path a | inr b ↦ missing' ss ps c path b ],
)
second_Outcome P C D vals vals1 nv (vals2, some (c, nv')) kept missing
      (ss, ps, path, is, bound, best) =
    (
      ss,
      ps,
      path,
      inr is,
      Kept-Bound nv vals vals1 (captures ss ps) nv' vals2 kept bound,
      λ ss' c' k. elim k [ inl a ↦ absurd (missing ss' ps c' path a) | inr b ↦ best ss' c' b ],
    )

-- A branch, and the next one where it finds nothing.
pub or_else-Outcome :
    (P : List Bytes → Type 0) (C D : List Segment → List Bytes → Node → Type 0) (vals : List Bytes)
    (nv : ℕ) (r : Found) (next : List Bytes → Found)
    → Outcome P C vals nv r
    → ((vals1 : List Bytes) → Kept nv vals vals1 → Outcome P D vals1 nv (next vals1))
    → ((ss ss' : List Segment) (ps : List Bytes) (c c' : Node)
        → C ss ps c
        → D ss' ps c'
        → Prefers ss ss')
    → Outcome P (λ ss ps c. C ss ps c ⊎ D ss ps c) vals nv (or_else r next)
or_else-Outcome P C D vals nv (vals1, some (c, nv')) next (ss, ps, path, is, bound, best) second
      over =
    (
      ss,
      ps,
      path,
      inl is,
      bound,
      λ ss' c' k. elim k [ inl a ↦ best ss' c' a | inr b ↦ over ss ss' ps c c' is b ],
    )
or_else-Outcome P C D vals nv (vals1, none) next (kept, missing) second over =
    second_Outcome P C D vals vals1 nv (next vals1) kept missing (second vals1 kept)

take_twice : (n : ℕ) (xs ys : List Bytes) → take n (take n xs ++ ys) ≡ take n (xs ++ ys)
take_twice zero xs ys = refl
take_twice (suc n) [] ys = refl
take_twice (suc n) (x ∷ xs) ys = ap (◌∷◌ x) (take_twice n xs ys)

take_less : (n m : ℕ) (xs ys : List Bytes) → n ≤ m → take m xs ≡ take m ys → take n xs ≡ take n ys
take_less zero m xs ys h e = refl
take_less (suc n) zero xs ys h e = absurd (omega arith)
take_less (suc n) (suc m) [] [] h e = refl
take_less (suc n) (suc m) [] (y ∷ ys) h e = cc
take_less (suc n) (suc m) (x ∷ xs) [] h e = cc
take_less (suc n) (suc m) (x ∷ xs) (y ∷ ys) h e =
    let here : x ≡ y = cc in
    let rest : take m xs ≡ take m ys = cc in λ i. here i ∷ take_less n m xs ys (omega arith) rest i

length-set_value : (i : ℕ) (v : Bytes) (xs : List Bytes) → length (set_value i v xs) ≡ length xs
length-set_value i v [] = refl
length-set_value zero v (x ∷ xs) = refl
length-set_value (suc i) v (x ∷ xs) = ap suc (length-set_value i v xs)

take-set_value :
    (i : ℕ) (v : Bytes) (xs : List Bytes)
    → i < length xs
    → take (suc i) (set_value i v xs) ≡ take i xs ++ (v ∷ [])
take-set_value i v [] h = absurd (omega arith)
take-set_value zero v (x ∷ xs) h = refl
take-set_value (suc i) v (x ∷ xs) h = ap (◌∷◌ x) (take-set_value i v xs (omega arith))

front-set_value : (i : ℕ) (v : Bytes) (xs : List Bytes) → take i (set_value i v xs) ≡ take i xs
front-set_value i v [] = refl
front-set_value zero v (x ∷ xs) = refl
front-set_value (suc i) v (x ∷ xs) = ap (◌∷◌ x) (front-set_value i v xs)

length-take_le : (n : ℕ) (xs : List Bytes) → n ≤ length xs → length (take n xs) ≡ n
length-take_le zero xs h = refl
length-take_le (suc n) [] h = absurd (omega arith)
length-take_le (suc n) (x ∷ xs) h = ap suc (length-take_le n xs (omega arith))

take_all : (n : ℕ) (xs : List Bytes) → length xs ≤ n → take n xs ≡ xs
take_all zero [] h = refl
take_all zero (x ∷ xs) h = absurd (omega arith)
take_all (suc n) [] h = refl
take_all (suc n) (x ∷ xs) h = ap (◌∷◌ x) (take_all n xs (omega arith))

take_full : (n : ℕ) (xs ys : List Bytes) → length xs ≡ n → take n (xs ++ ys) ≡ xs
take_full zero [] ys h = refl
take_full zero (x ∷ xs) ys h = cc
take_full (suc n) [] ys h = cc
take_full (suc n) (x ∷ xs) ys h = ap (◌∷◌ x) (take_full n xs ys (omega arith))

-- An array of the right length, and a number of values in it.
pub record HasRoom (vals : List Bytes) (nv : ℕ) : Type 0 where
  pub is_array : length vals ≡ max_inline_params
  pub within : nv ≤ max_inline_params

-- One more value, if there is room; those below `nv` stay.
pub bind_value_lem :
    (v : Bytes) (vals : List Bytes) (nv : ℕ)
    → HasRoom vals nv
    → let b = bind_value v vals nv in Bound nv vals (v ∷ []) b.1 b.0 × Kept nv vals b.0 × (nv ≤ b.1)
bind_value_lem v vals nv h = elim (Bool-cases (ltb nv 8)) [
  | inl room ↦
      let small : nv < 8 = ground arith in
      let up : nv + 1 ≡ suc nv = omega arith in
      rw room (
        record {
          keeps_length = length-set_value nv v vals;
          in_room = omega arith;
          is_bound =
              ap (λ (k : ℕ). take k (set_value nv v vals)) up
              ∙ take-set_value nv v vals (omega (arith, h.is_array))
              ∙ sym (
                  take_all 8 (take nv vals ++ (v ∷ [])) (
                    omega (
                      arith,
                      length-append (take nv vals) (v ∷ []),
                      length-take_le nv vals (omega (arith, h.is_array)),
                    )));
        },
        record { same_length = length-set_value nv v vals; same_front = front-set_value nv v vals },
        omega arith,
      )
  | inr full ↦
      let is : nv ≡ 8 = ground (arith, h.within) in
      rw full (
        record {
          keeps_length = refl;
          in_room = h.within;
          is_bound = sym (
              take_full 8 (take nv vals) (v ∷ [])
                (length-take_le nv vals (omega (arith, h.is_array)) ∙ is));
        },
        Kept-refl nv vals,
        omega arith,
      )
]

-- Values bound behind one that was just bound.
pub Bound-cons :
    (nv nv1 nv' : ℕ) (vals vals1 vals' : List Bytes) (v : Bytes) (cs : List Bytes)
    → Bound nv vals (v ∷ []) nv1 vals1
    → Bound nv1 vals1 cs nv' vals'
    → Bound nv vals (v ∷ cs) nv' vals'
Bound-cons nv nv1 nv' vals vals1 vals' v cs h k = record {
  keeps_length = k.keeps_length ∙ h.keeps_length;
  in_room = k.in_room;
  is_bound =
      k.is_bound
      ∙ ap (λ (xs : List Bytes). take 8 (xs ++ cs)) h.is_bound
      ∙ take_twice 8 (take nv vals ++ (v ∷ [])) cs
      ∙ ap (take 8) (append_assoc (take nv vals) (v ∷ []) cs);
}

-- A search that failed behind a value that was just bound.
pub Kept-behind :
    (nv nv1 : ℕ) (vals vals1 vals' : List Bytes)
    → Kept nv vals vals1
    → nv ≤ nv1
    → Kept nv1 vals1 vals'
    → Kept nv vals vals'
Kept-behind nv nv1 vals vals1 vals' h le k = record {
  same_length = k.same_length ∙ h.same_length;
  same_front = take_less nv nv1 vals' vals1 le k.same_front ∙ h.same_front;
}

pub Bound-nil : (nv : ℕ) (vals : List Bytes) → HasRoom vals nv → Bound nv vals [] nv vals
Bound-nil nv vals h = record {
  keeps_length = refl;
  in_room = h.within;
  is_bound = sym (
      ap (take 8) (append-nil (take nv vals))
      ∙ take_all 8 (take nv vals)
          (omega (arith, h.within, length-take_le nv vals (omega (arith, h.is_array, h.within)))));
}

pub HasRoom-Kept :
    (nv : ℕ) (vals vals' : List Bytes) → HasRoom vals nv → Kept nv vals vals' → HasRoom vals' nv
HasRoom-Kept nv vals vals' h k = record { is_array = k.same_length ∙ h.is_array; within = h.within }

pub HasRoom-Bound :
    (nv nv' : ℕ) (vals cs vals' : List Bytes)
    → HasRoom vals nv
    → Bound nv vals cs nv' vals'
    → HasRoom vals' nv'
HasRoom-Bound nv nv' vals cs vals' h k = record {
  is_array = k.keeps_length ∙ h.is_array;
  within = k.in_room;
}
