-- ===== src/Http1/Chunks/Header.antt =====
-- `readChunkHeader` on a well-formed chunk-size line.
use simdhttp.Common.{
  ℕ, ◌+◌, ◌-◌, ◌<◌, ◌≤◌, ◌≡◌, refl, ap, ◌∙◌, true, false, none, some, [], ◌∷◌, ◌++◌, append-nil,
  arith, ◌==◌, Bytes, length, length-append, take, all, index_byte,
}
use simdhttp.Common.Digits.{hexadecimal_digit}
use simdhttp.Common.Numerals.{AreDigits}
use simdhttp.Http1.Chars.Trims.{last_is_blank, trim_right-append}
use simdhttp.Http1.Chars.{is_blank, trim_right}
use simdhttp.Http1.Chunks.Hex.{IsHexSize, parse_hex_int64_iff}
use simdhttp.Http1.Chunks.{admit_size, size_of_line, chunk_size, read_chunk_header}
use simdhttp.Http1.Lines.Spec.{advance}
use simdhttp.Http1.Lines.Verdict.{HasNoLf, HasNoLf-append, crlf, read_line-crlf}
use simdhttp.Http1.Reader.{BodyReader, Limits}

-- A chunk extension: nothing, or a semicolon and a text within its limit.
pub data IsExtension (lim : Limits) : Bytes → Type 0 where
  absent : IsExtension lim []
  present :
      {e : Bytes}
      → HasNoLf e
      → last_is_blank (b';' ∷ e) ≡ false
      → length e ≤ lim.max_chunk_extension_len
      → IsExtension lim (b';' ∷ e)

-- A line that declares `n` bytes: a size, an extension, blanks.
pub record IsSizeLine (lim : Limits) (line : Bytes) (n : ℕ) : Type 0 where
  pub digits : Bytes
  pub extension : Bytes
  pub blanks : Bytes
  pub joined : line ≡ (digits ++ extension) ++ blanks
  pub is_size : IsHexSize digits n
  pub is_extension : IsExtension lim extension
  pub all_blank : all is_blank blanks ≡ true
  pub short : length line ≤ lim.max_chunk_size_line

abbrev IsDigits : Bytes → Type 0
IsDigits = AreDigits 16 hexadecimal_digit

digit-plain :
    (c d : ℕ)
    → hexadecimal_digit c ≡ some d
    → ((c == b';') ≡ false) × ((c == b'\n') ≡ false) × (is_blank c ≡ false)
digit-plain c d e = ground arith

digits-HasNoLf : (ds : Bytes) → IsDigits ds → HasNoLf ds
digits-HasNoLf [] h = tt
digits-HasNoLf (c ∷ cs) ((d, e), h) = ((digit-plain c d e).1, digits-HasNoLf cs h)

digits-last : (ds : Bytes) → IsDigits ds → last_is_blank ds ≡ false
digits-last [] h = refl
digits-last (c ∷ []) ((d, e), h) = (digit-plain c d e).2
digits-last (c ∷ x ∷ xs) (_, h) = digits-last (x ∷ xs) h

digits-index : (ds : Bytes) → IsDigits ds → index_byte ds b';' ≡ none
unfolding index_byte
digits-index [] h = refl
digits-index (c ∷ cs) ((d, e), h) = rw ((digit-plain c d e).0, digits-index cs h) refl

digits-index_at :
    (ds e : Bytes) → IsDigits ds → index_byte (ds ++ (b';' ∷ e)) b';' ≡ some (length ds)
unfolding index_byte
digits-index_at [] e h = refl
digits-index_at (c ∷ cs) e ((d, is), h) = rw ((digit-plain c d is).0, digits-index_at cs e h) refl

take-length : (xs ys : Bytes) → take (length xs) (xs ++ ys) ≡ xs
take-length [] [] = refl
take-length [] (y ∷ ys) = refl
take-length (x ∷ xs) ys = ap (◌∷◌ x) (take-length xs ys)

last_is_blank-append :
    (a : Bytes) (c : ℕ) (b : Bytes) → last_is_blank (a ++ (c ∷ b)) ≡ last_is_blank (c ∷ b)
last_is_blank-append [] c b = refl
last_is_blank-append (x ∷ []) c b = refl
last_is_blank-append (x ∷ y ∷ a) c b = last_is_blank-append (y ∷ a) c b

blanks-HasNoLf : (bs : Bytes) → all is_blank bs ≡ true → HasNoLf bs
blanks-HasNoLf [] h = tt
blanks-HasNoLf (c ∷ cs) h = (ground arith, blanks-HasNoLf cs (ground arith))

extended_last :
    {lim : Limits} (ds : Bytes) {e : Bytes}
    → IsDigits ds
    → IsExtension lim e
    → last_is_blank (ds ++ e) ≡ false
extended_last ds h absent = rw append-nil (digits-last ds h)
extended_last ds h (present {e} clean last short) = last_is_blank-append ds b';' e ∙ last

extension-HasNoLf : {lim : Limits} {e : Bytes} → IsExtension lim e → HasNoLf e
extension-HasNoLf absent = tt
extension-HasNoLf (present clean last short) = (refl, clean)

-- The size of a line without its blanks.
size_of_line_lem :
    (b : BodyReader) (ds : Bytes) {e : Bytes} (n : ℕ)
    → IsHexSize ds n
    → IsExtension b.lim e
    → size_of_line b (ds ++ e) (index_byte (ds ++ e) b';') ≡ admit_size b (some n)
size_of_line_lem b ds n h absent =
    rw (append-nil, digits-index ds h.digits, (parse_hex_int64_iff ds n).1 h) refl
size_of_line_lem b ds n h (present {e} clean last short) =
    let long : length (ds ++ (b';' ∷ e)) - length ds - 1 ≡ length e =
      rw length-append (omega arith) in
    rw (digits-index_at ds e h.digits, take-length ds (b';' ∷ e), (parse_hex_int64_iff ds n).1 h)
      (ground arith)

-- A well-formed chunk-size line is taken with its CRLF, and the size it declares goes through the
-- budget check. Extensions and blanks at the end do not change the size.
pub read_chunk_header_lem :
    (b : BodyReader) (line rest : Bytes) (n : ℕ)
    → 0 < b.conn.buf_size
    → IsSizeLine b.lim line n
    → b.conn.bytes ≡ line ++ crlf rest
    → read_chunk_header b ≡ (advance (length line + 2) rest b, admit_size b (some n))
unfolding read_chunk_header chunk_size
read_chunk_header_lem b line rest n pos h stream =
    let clean : HasNoLf line = rw h.joined (
      HasNoLf-append _ h.blanks
        (HasNoLf-append h.digits h.extension (digits-HasNoLf h.digits h.is_size.digits)
          (extension-HasNoLf h.is_extension))
        (blanks-HasNoLf h.blanks h.all_blank)) in
    let trimmed : trim_right line ≡ h.digits ++ h.extension = rw h.joined (
      trim_right-append (h.digits ++ h.extension) h.blanks
        (extended_last h.digits h.is_size.digits h.is_extension) h.all_blank) in
    rw (read_line-crlf b.lim.max_chunk_size_line b line rest pos clean h.short stream) (
      rw trimmed (
        ap (λ s. (advance (length line + 2) rest b, s))
          (size_of_line_lem b h.digits n h.is_size h.is_extension)))
