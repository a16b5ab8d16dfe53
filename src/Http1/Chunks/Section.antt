-- ===== src/Http1/Chunks/Section.antt =====
-- `readTrailers` and `expectCRLF` on well-formed input.
use simdhttp.Common.{
  ℕ, zero, suc, ◌+◌, ◌<◌, ◌≤◌, ◌≡◌, refl, ap, ◌∙◌, true, false, Option, none, some, List, [], ◌∷◌,
  ◌++◌, append-nil, append_assoc, arith, ◌==◌, Bytes, length, length-append, take, drop, index_byte,
  All, all, &&-true,
}
use mathlib.Core.Path.{ap₂}
use native.Mathlib.Nat.{zero-add}
use simdhttp.Http1.Chars.{trim, valid_token, valid_token_byte, valid_field_value, token_char}
use simdhttp.Http1.Chunks.{
  canonical_key, max_trailer_name_len, trailer_field, trailer_line, trailer_loop, read_trailers,
  expect_crlf, Fields,
}
use simdhttp.Http1.Conn.{read_two}
use simdhttp.Http1.Errors.{Error, ok}
use simdhttp.Http1.Lines.Spec.{advance, advance-advance}
use simdhttp.Http1.Lines.Verdict.{HasNoLf, HasNoLf-append, crlf, read_line-crlf}
use simdhttp.Http1.Reader.{BodyReader, Limits}

-- The CRLF behind chunk data is taken, and nothing else.
pub expect_crlf_lem :
    (b : BodyReader) (rest : Bytes)
    → b.conn.bytes ≡ crlf rest
    → expect_crlf b ≡ (advance 2 rest b, none)
unfolding expect_crlf read_two
expect_crlf_lem b rest stream = rw stream refl

-- A trailer line: a token, a colon, and a value between blanks.
pub record IsTrailer (lim : Limits) (line : Bytes) (field : Bytes × Bytes) : Type 0 where
  pub name : Bytes
  pub text : Bytes
  pub joined : line ≡ name ++ (b':' ∷ text)
  pub is_name : valid_token name ≡ true
  pub text_clean : HasNoLf text
  pub is_value : valid_field_value (trim text) ≡ true
  pub value_short : length (trim text) ≤ lim.max_trailer_value_len
  pub short : length line ≤ lim.max_trailer_value_len + max_trailer_name_len
  pub is_field : field ≡ (canonical_key true name, trim text)

-- A trailer section: lines, each with its CRLF, and an empty line.
abbrev pub section_bytes : List Bytes → Bytes → Bytes
section_bytes [] rest = crlf rest
section_bytes (line ∷ lines) rest = line ++ crlf (section_bytes lines rest)

abbrev pub AreTrailers : Limits → List Bytes → Fields → Type 0
AreTrailers lim [] [] = Unit
AreTrailers lim (line ∷ lines) (f ∷ fs) = IsTrailer lim line f × AreTrailers lim lines fs
AreTrailers lim _ _ = ⊥

abbrev pub section_length : List Bytes → ℕ
section_length [] = 2
section_length (line ∷ lines) = length line + 2 + section_length lines

-- A token holds neither a colon nor a line feed.
abbrev IsNamePart : ℕ → Type 0
IsNamePart c = ((c == b':') ≡ false) × ((c == b'\n') ≡ false)

token_byte-IsNamePart : (c : ℕ) → valid_token_byte c ≡ true → IsNamePart c
unfolding token_char
token_byte-IsNamePart c h = (ground arith, ground arith)

all-IsNamePart : (cs : Bytes) → all valid_token_byte cs ≡ true → All IsNamePart cs
all-IsNamePart [] h = tt
all-IsNamePart (c ∷ cs) h =
    let (this, others) = &&-true (valid_token_byte c) (all valid_token_byte cs) h in
    (token_byte-IsNamePart c this, all-IsNamePart cs others)

name-HasNoLf : (cs : Bytes) → All IsNamePart cs → HasNoLf cs
name-HasNoLf [] h = tt
name-HasNoLf (c ∷ cs) (hc, h) = (hc.1, name-HasNoLf cs h)

index_byte-name :
    (cs text : Bytes) → All IsNamePart cs → index_byte (cs ++ (b':' ∷ text)) b':' ≡ some (length cs)
unfolding index_byte
index_byte-name [] text h = refl
index_byte-name (c ∷ cs) text (hc, h) = rw (hc.0, index_byte-name cs text h) refl

take-length : (xs ys : Bytes) → take (length xs) (xs ++ ys) ≡ xs
take-length [] [] = refl
take-length [] (y ∷ ys) = refl
take-length (x ∷ xs) ys = ap (◌∷◌ x) (take-length xs ys)

drop-length : (xs : Bytes) (y : ℕ) (ys : Bytes) → drop (suc (length xs)) (xs ++ (y ∷ ys)) ≡ ys
drop-length [] y [] = refl
drop-length [] y (z ∷ ys) = refl
drop-length (x ∷ xs) y ys = drop-length xs y ys

field_at :
    (lim : Limits) (name text : Bytes)
    → valid_token name ≡ true
    → valid_field_value (trim text) ≡ true
    → length (trim text) ≤ lim.max_trailer_value_len
    → trailer_field lim (name ++ (b':' ∷ text)) ≡ ok (canonical_key true name, trim text)
unfolding trailer_field
field_at lim [] text token value short = unfold valid_token in cc
field_at lim (c ∷ cs) text token value short =
    let parts = all-IsNamePart (c ∷ cs) (unfold valid_token in token) in
    rw (index_byte-name (c ∷ cs) text parts) (
      rw (take-length (c ∷ cs) (b':' ∷ text), drop-length (c ∷ cs) b':' text, token, value)
        (ground arith))

trailer_field_lem :
    (lim : Limits) (line : Bytes) (f : Bytes × Bytes)
    → IsTrailer lim line f
    → trailer_field lim line ≡ ok f
trailer_field_lem lim line f h =
    rw (h.joined, h.is_field) (field_at lim h.name h.text h.is_name h.is_value h.value_short)

name_of_token : (cs : Bytes) → valid_token cs ≡ true → All IsNamePart cs
unfolding valid_token
name_of_token [] h = tt
name_of_token (c ∷ cs) h = all-IsNamePart (c ∷ cs) h

trailer-HasNoLf :
    (lim : Limits) (line : Bytes) (f : Bytes × Bytes) → IsTrailer lim line f → HasNoLf line
trailer-HasNoLf lim line f h = rw h.joined (
    HasNoLf-append h.name (b':' ∷ h.text) (name-HasNoLf h.name (name_of_token h.name h.is_name))
      (refl, h.text_clean))

append_colon-cons : (name text : Bytes) → (c : ℕ) × (cs : Bytes) × (name ++ (b':' ∷ text) ≡ c ∷ cs)
append_colon-cons [] text = (b':', text, refl)
append_colon-cons (c ∷ cs) text = (c, cs ++ (b':' ∷ text), refl)

-- A line that is not empty, below the count limit, goes to `trailer_field`.
trailer_line_field :
    (again : Fields → BodyReader → BodyReader × Option Error) (count : ℕ) (h : Fields)
    (b : BodyReader) (line name text : Bytes) (f : Bytes × Bytes)
    → line ≡ name ++ (b':' ∷ text)
    → count < b.lim.max_trailer_count
    → trailer_field b.lim line ≡ ok f
    → trailer_line again count h (b, ok (line, true)) ≡ again (h ++ (f ∷ [])) b
unfolding trailer_line
trailer_line_field again count h b line name text f joined below field =
    let (c, cs, start) = append_colon-cons name text in
    let is : line ≡ c ∷ cs = joined ∙ start in rw is (rw (rw is at field) (ground arith))

trailer_step :
    (fuel count : ℕ) (h : Fields) (b : BodyReader) (line rest : Bytes) (f : Bytes × Bytes)
    → 0 < b.conn.buf_size
    → IsTrailer b.lim line f
    → count < b.lim.max_trailer_count
    → b.conn.bytes ≡ line ++ crlf rest
    → trailer_loop (suc fuel) count h b
      ≡ trailer_loop fuel (count + 1) (h ++ (f ∷ [])) (advance (length line + 2) rest b)
unfolding trailer_loop
trailer_step fuel count h b line rest f pos is below stream =
    rw
      (read_line-crlf (b.lim.max_trailer_value_len + max_trailer_name_len) b line rest pos
        (trailer-HasNoLf b.lim line f is) is.short stream)
      (trailer_line_field (trailer_loop fuel (count + 1)) count h (advance (length line + 2) rest b)
        line is.name is.text f is.joined below (trailer_field_lem b.lim line f is))

trailer_end :
    (fuel count : ℕ) (h : Fields) (b : BodyReader) (rest : Bytes)
    → 0 < b.conn.buf_size
    → b.conn.bytes ≡ crlf rest
    → trailer_loop (suc fuel) count h b ≡ (record (advance 2 rest b) { trailers = h }, none)
unfolding trailer_loop trailer_line
trailer_end fuel count h b rest pos stream =
    rw
      (read_line-crlf (b.lim.max_trailer_value_len + max_trailer_name_len) b [] rest pos tt
        (omega arith) stream)
      (rw zero-add refl)

trailer_loop_lem :
    (fuel count : ℕ) (lines : List Bytes) (h fs : Fields) (b : BodyReader) (rest : Bytes)
    → 0 < b.conn.buf_size
    → AreTrailers b.lim lines fs
    → count + length lines ≤ b.lim.max_trailer_count
    → length lines < fuel
    → b.conn.bytes ≡ section_bytes lines rest
    → trailer_loop fuel count h b
      ≡ (record (advance (section_length lines) rest b) { trailers = h ++ fs }, none)
trailer_loop_lem zero count lines h fs b rest pos is below enough stream = absurd (omega arith)
trailer_loop_lem (suc fuel) count [] h [] b rest pos is below enough stream =
    rw append-nil (trailer_end fuel count h b rest pos stream)
trailer_loop_lem (suc fuel) count (line ∷ lines) h (f ∷ fs) b rest pos (is, more) below enough
      stream =
    trailer_step fuel count h b line (section_bytes lines rest) f pos is (omega arith) stream
    ∙ trailer_loop_lem fuel (count + 1) lines (h ++ (f ∷ [])) fs
        (advance (length line + 2) (section_bytes lines rest) b) rest pos more (omega arith)
        (omega arith) refl
    ∙ ap₂ (λ b' h'. (record b' { trailers = h' }, none))
        (advance-advance (length line + 2) (section_length lines) (section_bytes lines rest) rest b)
        (append_assoc h (f ∷ []) fs)
trailer_loop_lem (suc fuel) count [] h (f ∷ fs) b rest pos is below enough stream = absurd is
trailer_loop_lem (suc fuel) count (line ∷ lines) h [] b rest pos is below enough stream = absurd is

length-section :
    (lines : List Bytes) (rest : Bytes) → length lines ≤ length (section_bytes lines rest)
length-section [] rest = omega arith
length-section (line ∷ lines) rest = rw length-append (omega (arith, length-section lines rest))

-- A well-formed trailer section of at most `MaxTrailerCount` lines is taken whole, with its empty
-- line, and its fields are kept.
pub read_trailers_lem :
    (b : BodyReader) (lines : List Bytes) (fs : Fields) (rest : Bytes)
    → 0 < b.conn.buf_size
    → AreTrailers b.lim lines fs
    → length lines ≤ b.lim.max_trailer_count
    → b.conn.bytes ≡ section_bytes lines rest
    → read_trailers b ≡ (record (advance (section_length lines) rest b) { trailers = fs }, none)
unfolding read_trailers
read_trailers_lem b lines fs rest pos is below stream =
    trailer_loop_lem (suc (length b.conn.bytes)) 0 lines [] fs b rest pos is (omega arith)
      (rw stream (omega (arith, length-section lines rest))) stream
