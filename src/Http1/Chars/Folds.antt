-- ===== src/Http1/Chars/Folds.antt =====
-- `bytes.EqualFold` against an ASCII name, and `ValidTransferEncoding`.
use simdhttp.Common.{
  ℕ, ◌<◌, ◌≡◌, ◌↔◌, ◌⊎◌, inl, inr, refl, sym, ap, ◌∙◌, Bool, true, false, ◌&&◌, [], ◌∷◌, ◌++◌,
  arith, Bytes, All, ltb, codes, Bool-cases,
}
use simdhttp.Http1.Chars.{folds_ascii, equal_fold, valid_transfer_encoding}

-- Two byte strings of the same length, equal up to the case of ASCII letters.
abbrev pub ascii_fold : Bytes → Bytes → Bool
ascii_fold [] [] = true
ascii_fold (s ∷ ss) (t ∷ ts) = folds_ascii s t && ascii_fold ss ts
ascii_fold _ _ = false

-- A name in which no other rune than an ASCII letter can fold to a letter.
abbrev pub IsPlainLetter : ℕ → Type 0
IsPlainLetter t = (t < 0x80) × (folds_ascii b's' t ≡ false) × (folds_ascii b'k' t ≡ false)

module _ (ss ts : Bytes) where
  fold_step_ascii :
      (s t : ℕ) → s < 0x80 → equal_fold (s ∷ ss) (t ∷ ts) ≡ (folds_ascii s t && equal_fold ss ts)
  unfolding equal_fold
  fold_step_ascii s t h = ground arith

  fold_step_plain :
      (s t : ℕ)
      → IsPlainLetter t
      → equal_fold (s ∷ ss) (t ∷ ts) ≡ (folds_ascii s t && equal_fold ss ts)
  unfolding equal_fold
  fold_step_plain s t h = ground arith

-- On an ASCII first argument, such as a field name, `EqualFold` ignores the case of ASCII letters
-- and nothing else.
pub equal_fold_of_ascii : (s t : Bytes) → All (λ c. c < 0x80) s → equal_fold s t ≡ ascii_fold s t
equal_fold_of_ascii [] [] h = unfold equal_fold in refl
equal_fold_of_ascii [] (t ∷ ts) h = unfold equal_fold in refl
equal_fold_of_ascii (s ∷ ss) [] h = unfold equal_fold in refl
equal_fold_of_ascii (s ∷ ss) (t ∷ ts) (hs, h) =
    fold_step_ascii ss ts s t hs ∙ ap (◌&&◌ (folds_ascii s t)) (equal_fold_of_ascii ss ts h)

pub equal_fold_of_plain : (s t : Bytes) → All IsPlainLetter t → equal_fold s t ≡ ascii_fold s t
equal_fold_of_plain [] [] h = unfold equal_fold in refl
equal_fold_of_plain [] (t ∷ ts) h = unfold equal_fold in refl
equal_fold_of_plain (s ∷ ss) [] h = unfold equal_fold in refl
equal_fold_of_plain (s ∷ ss) (t ∷ ts) (ht, h) =
    fold_step_plain ss ts s t ht ∙ ap (◌&&◌ (folds_ascii s t)) (equal_fold_of_plain ss ts h)

abbrev IsAscii : ℕ → Type 0
IsAscii c = c < 0x80

-- `s` starts with a spelling of `a`, and what is left folds to `b`.
abbrev Splits : Bytes → Bytes → Bytes → Type 0
Splits s a b =
    (front : Bytes) × (rest : Bytes) × (s ≡ front ++ rest)
    × (ascii_fold front a ≡ true)
    × (equal_fold rest b ≡ true)

equal_fold-Splits :
    (s a b : Bytes) → All IsPlainLetter a → equal_fold s (a ++ b) ≡ true → Splits s a b
equal_fold-Splits s [] b h e = ([], s, refl, refl, e)
equal_fold-Splits [] (t ∷ a) b h e = unfold equal_fold in cc
equal_fold-Splits (c ∷ s) (t ∷ a) b (ht, h) e =
    let both = rw (fold_step_plain s (a ++ b) c t ht) at e in
    let (front, rest, joined, spelled, left) = equal_fold-Splits s a b h (ground arith) in
    (c ∷ front, rest, ap (◌∷◌ c) joined, ground arith, left)

Splits-equal_fold :
    (front rest a b : Bytes)
    → All IsPlainLetter a
    → ascii_fold front a ≡ true
    → equal_fold rest b ≡ true
    → equal_fold (front ++ rest) (a ++ b) ≡ true
Splits-equal_fold [] rest [] b h e k = k
Splits-equal_fold [] rest (t ∷ a) b h e k = cc
Splits-equal_fold (c ∷ front) rest [] b h e k = cc
Splits-equal_fold (c ∷ front) rest (t ∷ a) b (ht, h) e k =
    rw (fold_step_plain (front ++ rest) (a ++ b) c t ht)
      (ground (arith, Splits-equal_fold front rest a b h (ground arith) k))

ascii_fold-append :
    (front rest a b : Bytes)
    → ascii_fold front a ≡ true
    → ascii_fold rest b ≡ true
    → ascii_fold (front ++ rest) (a ++ b) ≡ true
ascii_fold-append [] rest [] b e k = k
ascii_fold-append [] rest (t ∷ a) b e k = cc
ascii_fold-append (c ∷ front) rest [] b e k = cc
ascii_fold-append (c ∷ front) rest (t ∷ a) b e k =
    ground (arith, ascii_fold-append front rest a b (ground arith) k)

ascii_fold-IsAscii : (s t : Bytes) → All IsAscii t → ascii_fold s t ≡ true → All IsAscii s
ascii_fold-IsAscii [] t h e = tt
ascii_fold-IsAscii (c ∷ s) [] h e = cc
ascii_fold-IsAscii (c ∷ s) (t ∷ ts) (ht, h) e =
    (ground arith, ascii_fold-IsAscii s ts h (ground arith))

-- The KELVIN SIGN in place of the letter k.
abbrev pub KelvinSpelling : Bytes → Type 0
KelvinSpelling v =
    (front : Bytes) × (back : Bytes) × (v ≡ front ++ (0xe2 ∷ 0x84 ∷ 0xaa ∷ back))
    × (ascii_fold front (codes "chun") ≡ true)
    × (ascii_fold back (codes "ed") ≡ true)

abbrev AsciiOrKelvin : Bytes → Bytes → Type 0
AsciiOrKelvin s b =
    ((c : ℕ) × (ss : Bytes) × (s ≡ c ∷ ss) × (folds_ascii c b'k' ≡ true) × (equal_fold ss b ≡ true))
    ⊎ ((ss : Bytes) × (s ≡ 0xe2 ∷ 0x84 ∷ 0xaa ∷ ss) × (equal_fold ss b ≡ true))

equal_fold_k : (s b : Bytes) → equal_fold s (b'k' ∷ b) ≡ true → AsciiOrKelvin s b
unfolding equal_fold
equal_fold_k [] b e = cc
equal_fold_k (x ∷ []) b e = elim (Bool-cases (ltb x 0x80)) [
  | inl h ↦ inl (x, [], refl, ground arith, ground arith)
  | inr h ↦ absurd (ground arith)
]
equal_fold_k (x ∷ y ∷ []) b e = elim (Bool-cases (ltb x 0x80)) [
  | inl h ↦ inl (x, y ∷ [], refl, ground arith, ground arith)
  | inr h ↦ absurd (ground arith)
]
equal_fold_k (x ∷ y ∷ z ∷ s) b e = elim (Bool-cases (ltb x 0x80)) [
  | inl h ↦ inl (x, y ∷ z ∷ s, refl, ground arith, ground arith)
  | inr h ↦ inr (s, ground arith, ground arith)
]

equal_fold_kelvin :
    (s b : Bytes) → equal_fold s b ≡ true → equal_fold (0xe2 ∷ 0x84 ∷ 0xaa ∷ s) (b'k' ∷ b) ≡ true
unfolding equal_fold
equal_fold_kelvin s b e = e

equal_fold-chunked :
    (v : Bytes)
    → equal_fold v (codes "chunked") ≡ true
    → (ascii_fold v (codes "chunked") ≡ true) ⊎ KelvinSpelling v
equal_fold-chunked v e =
    let (front, rest, joined, spelled, left) =
      equal_fold-Splits v (codes "chun") (codes "ked") (ground arith) e in
    elim (equal_fold_k rest (codes "ed") left) [
      | inl (c, ss, start, letter, folds) ↦
          let ends : ascii_fold ss (codes "ed") ≡ true =
            sym (equal_fold_of_plain ss (codes "ed") (ground arith)) ∙ folds in
          inl (
            rw (joined, start)
              (ascii_fold-append front (c ∷ ss) (codes "chun") (codes "ked") spelled
                (ground arith)))
      | inr (ss, start, folds) ↦ inr (
        front,
        ss,
        rw start at joined,
        spelled,
        sym (equal_fold_of_plain ss (codes "ed") (ground arith)) ∙ folds,
      )
    ]

chunked-equal_fold :
    (v : Bytes)
    → (ascii_fold v (codes "chunked") ≡ true) ⊎ KelvinSpelling v
    → equal_fold v (codes "chunked") ≡ true
chunked-equal_fold v (inl e) =
    equal_fold_of_ascii v (codes "chunked") (ascii_fold-IsAscii v _ (omega arith) e) ∙ e
chunked-equal_fold v (inr (front, back, joined, spelled, ends)) = rw joined (
    Splits-equal_fold front _ (codes "chun") (codes "ked") (ground arith) spelled (
      equal_fold_kelvin back (codes "ed")
        (equal_fold_of_plain back (codes "ed") (ground arith) ∙ ends)))

-- `ValidTransferEncoding` accepts the ASCII spellings of "chunked", and besides them exactly those
-- with the KELVIN SIGN (U+212A) for the letter k, to which `bytes.EqualFold` folds it.
pub valid_transfer_encoding_iff :
    (v : Bytes)
    → (valid_transfer_encoding v ≡ true)
      ↔ ((ascii_fold v (codes "chunked") ≡ true) ⊎ KelvinSpelling v)
unfolding valid_transfer_encoding
valid_transfer_encoding_iff v = (equal_fold-chunked v, chunked-equal_fold v)
