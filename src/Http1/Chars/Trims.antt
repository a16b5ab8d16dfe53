-- ===== src/Http1/Chars/Trims.antt =====
-- The two loops that strip blanks from a field value.
use simdhttp.Common.{
  ℕ, ◌≡◌, refl, ap, Bool, true, false, [], ◌∷◌, ◌++◌, arith, Bytes, all, if◌then◌else◌, Bool-cases,
  inl, inr, ◌∙◌,
}
use simdhttp.Http1.Chars.{is_blank, trim_left, trim_right, trim}

abbrev pub head_is_blank : Bytes → Bool
head_is_blank [] = false
head_is_blank (c ∷ cs) = is_blank c

abbrev pub last_is_blank : Bytes → Bool
last_is_blank [] = false
last_is_blank (c ∷ []) = is_blank c
last_is_blank (c ∷ x ∷ xs) = last_is_blank (x ∷ xs)

-- `w` is `v` less the blanks at both ends.
pub record IsTrimOf (v w : Bytes) : Type 0 where
  pub front : Bytes
  pub back : Bytes
  pub joined : v ≡ front ++ (w ++ back)
  pub front_blank : all is_blank front ≡ true
  pub back_blank : all is_blank back ≡ true
  pub head_kept : head_is_blank w ≡ false
  pub last_kept : last_is_blank w ≡ false

abbrev Left : Bytes → Bytes → Type 0
Left v w =
    (front : Bytes) × (v ≡ front ++ w) × (all is_blank front ≡ true) × (head_is_blank w ≡ false)

trim_left-Left : (v : Bytes) → Left v (trim_left v)
unfolding trim_left
trim_left-Left [] = ([], refl, refl, refl)
trim_left-Left (c ∷ cs) = elim (Bool-cases (is_blank c)) [
  | inl e ↦
      let (front, joined, blank, kept) = trim_left-Left cs in
      rw e (c ∷ front, ap (◌∷◌ c) joined, rw e blank, kept)
  | inr e ↦ rw e ([], refl, refl, e)
]

abbrev Right : Bytes → Bytes → Type 0
Right v w =
    (back : Bytes) × (v ≡ w ++ back) × (all is_blank back ≡ true) × (last_is_blank w ≡ false)

trim_right_cons :
    (c : ℕ) (cs : Bytes)
    → trim_right (c ∷ cs) ≡ elim (trim_right cs) as (λ _. Bytes) [
      | [] ↦ (if is_blank c then [] else c ∷ [])
      | x ∷ xs ↦ c ∷ x ∷ xs
    ]
unfolding trim_right
trim_right_cons c cs = refl

Right-cons :
    (c : ℕ) (cs w : Bytes)
    → Right cs w
    → Right
        (c ∷ cs)
        (elim w as (λ _. Bytes) [ [] ↦ (if is_blank c then [] else c ∷ []) | x ∷ xs ↦ c ∷ x ∷ xs ])
Right-cons c cs [] (back, joined, blank, kept) = elim (Bool-cases (is_blank c)) [
  | inl e ↦ rw e (c ∷ back, ap (◌∷◌ c) joined, rw e blank, refl)
  | inr e ↦ rw e (back, ap (◌∷◌ c) joined, blank, e)
]
Right-cons c cs (x ∷ xs) (back, joined, blank, kept) = (back, ap (◌∷◌ c) joined, blank, kept)

trim_right-Right : (v : Bytes) → Right v (trim_right v)
trim_right-Right [] = unfold trim_right in ([], refl, refl, refl)
trim_right-Right (c ∷ cs) =
    rw trim_right_cons (Right-cons c cs (trim_right cs) (trim_right-Right cs))

-- A prefix keeps its head, so stripping the end leaves the start stripped.
head_is_blank-append :
    (w back : Bytes) → head_is_blank (w ++ back) ≡ false → head_is_blank w ≡ false
head_is_blank-append [] back h = refl
head_is_blank-append (c ∷ cs) back h = h

-- The two loops take away the blanks at both ends, and nothing else.
pub trim-IsTrimOf : (v : Bytes) → IsTrimOf v (trim v)
unfolding trim
trim-IsTrimOf v =
    let (front, left, front_blank, kept) = trim_left-Left v in
    let (back, right, back_blank, last) = trim_right-Right (trim_left v) in
    record {
      front = front;
      back = back;
      joined = left ∙ ap (◌++◌ front) right;
      front_blank = front_blank;
      back_blank = back_blank;
      head_kept = head_is_blank-append (trim v) back (rw right at kept);
      last_kept = last;
    }

-- Blanks at the end of a string that does not end in a blank are what `trim_right` strips.
trim_right_blank : (back : Bytes) → all is_blank back ≡ true → trim_right back ≡ []
unfolding trim_right
trim_right_blank [] h = refl
trim_right_blank (c ∷ cs) h = rw (trim_right_blank cs (ground arith)) (ground arith)

pub trim_right-append :
    (w back : Bytes)
    → last_is_blank w ≡ false
    → all is_blank back ≡ true
    → trim_right (w ++ back) ≡ w
trim_right-append [] back kept blank = trim_right_blank back blank
trim_right-append (c ∷ []) back kept blank =
    rw (trim_right_cons, trim_right_blank back blank) (ground arith)
trim_right-append (c ∷ d ∷ w) back kept blank =
    rw (trim_right_cons, trim_right-append (d ∷ w) back kept blank) refl
