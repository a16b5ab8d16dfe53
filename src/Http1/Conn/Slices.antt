-- ===== src/Http1/Conn/Slices.antt =====
-- `ReadSlice` against the first line feed of the stream.
use simdhttp.Common.{
  ℕ, zero, suc, ◌≡◌, refl, sym, ap, ◌∙◌, true, false, Option, none, some, [], ◌∷◌, ◌++◌, arith,
  ◌==◌, if◌then◌else◌, Bytes, length, Bool-cases, inl, inr,
}
use simdhttp.Http1.Conn.{SliceEnd, found, full, ended, scan_slice, slice_cons}

abbrev pub prepend : Bytes → Option Bytes → Option Bytes
prepend front none = none
prepend front (some l) = some (front ++ l)

-- The stream up to its first line feed, without it; `none` if there is none.
unfoldable pub first_line : Bytes → Option Bytes
first_line [] = none
first_line (b ∷ bs) = if b == b'\n' then some [] else prepend (b ∷ []) (first_line bs)

-- What each ending says of the fragment.
abbrev pub EndsAs : ℕ → Bytes → Bytes → Bytes → SliceEnd → Type 0
EndsAs n bytes frag rest found =
    (l : Bytes) × (frag ≡ l ++ (b'\n' ∷ [])) × (first_line bytes ≡ some l)
EndsAs n bytes frag rest full =
    (length frag ≡ n) × (first_line bytes ≡ prepend frag (first_line rest))
EndsAs n bytes frag rest ended = (rest ≡ []) × (first_line bytes ≡ none)

abbrev pub IsSlice : ℕ → Bytes → Bytes × SliceEnd × Bytes → Type 0
IsSlice n bytes (frag, end, rest) = (bytes ≡ frag ++ rest) × EndsAs n bytes frag rest end

prepend-prepend :
    (b : ℕ) (front : Bytes) (o : Option Bytes)
    → prepend (b ∷ []) (prepend front o) ≡ prepend (b ∷ front) o
prepend-prepend b front none = refl
prepend-prepend b front (some l) = refl

first_line_cons :
    (b : ℕ) (bs : Bytes)
    → (b == b'\n') ≡ false
    → first_line (b ∷ bs) ≡ prepend (b ∷ []) (first_line bs)
unfolding first_line
first_line_cons b bs h = rw h

IsSlice-cons :
    (n b : ℕ) (bs : Bytes) (s : Bytes × SliceEnd × Bytes)
    → (b == b'\n') ≡ false
    → IsSlice n bs s
    → IsSlice (suc n) (b ∷ bs) (slice_cons b s)
IsSlice-cons n b bs (frag, found, rest) h (joined, (l, is_line, first)) =
    (ap (◌∷◌ b) joined, (b ∷ l, ap (◌∷◌ b) is_line, first_line_cons b bs h ∙ rw first))
IsSlice-cons n b bs (frag, full, rest) h (joined, (long, first)) = (
  ap (◌∷◌ b) joined,
  (ap suc long, first_line_cons b bs h ∙ rw first (prepend-prepend b frag (first_line rest))),
)
IsSlice-cons n b bs (frag, ended, rest) h (joined, (no_rest, first)) =
    (ap (◌∷◌ b) joined, (no_rest, first_line_cons b bs h ∙ rw first))

pub prepend-nil : (o : Option Bytes) → prepend [] o ≡ o
prepend-nil none = refl
prepend-nil (some l) = refl

first_line_lf : (b : ℕ) (bs : Bytes) → (b == b'\n') ≡ true → first_line (b ∷ bs) ≡ some []
unfolding first_line
first_line_lf b bs h = rw h

pub scan_slice-IsSlice : (n : ℕ) (bytes : Bytes) → IsSlice n bytes (scan_slice n bytes)
unfolding scan_slice
scan_slice-IsSlice n [] = unfold first_line in (refl, (refl, refl))
scan_slice-IsSlice zero (b ∷ bs) = (refl, (refl, sym (prepend-nil (first_line (b ∷ bs)))))
scan_slice-IsSlice (suc n) (b ∷ bs) = elim (Bool-cases (b == b'\n')) [
  | inl e ↦ rw e (refl, ([], ground arith, first_line_lf b bs e))
  | inr e ↦ rw e (IsSlice-cons n b bs (scan_slice n bs) e (scan_slice-IsSlice n bs))
]
