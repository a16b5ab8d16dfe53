-- ===== src/Http1/Chunks.antt =====
-- Chunk headers, the CRLF behind chunk data, and trailers: http1/body.go.
pub mod Hex
pub mod Header
pub mod Section
pub mod Budget
use simdhttp.Common.{
  ℕ, zero, suc, ◌+◌, ◌-◌, ◌/◌, Bool, true, false, not, ◌&&◌, Option, none, some, List, [], ◌∷◌,
  ◌++◌, ltb, leb, ◌==◌, within, if◌then◌else◌, Bytes, length, take, drop, equal, index_byte,
}
use simdhttp.Common.Int64.{max_int64, add64, mul64, lt64}
use simdhttp.Http1.Chars.{trim_right, trim, valid_token, valid_field_value}
use simdhttp.Http1.Conn.{read_two}
use simdhttp.Http1.Errors.{
  Error, Result, ok, err, malformed, value_too_large, body_too_large, bad_chunk,
  chunk_line_too_long, chunk_extension_too_long, too_many_trailers, line_too_long, unexpected_eof,
  stuck,
}
use simdhttp.Http1.Lines.{Line, read_line}
use simdhttp.Http1.Reader.{BodyReader, Limits}

-- The switch of `parseHexInt64`.
abbrev pub hex_digit : ℕ → Option ℕ
hex_digit c =
    if within b'0' b'9' c
    then some (c - b'0')
    else if within b'a' b'f' c
    then some (c - b'a' + 10)
    else if within b'A' b'F' c
    then some (c - b'A' + 10)
    else none

unfoldable pub hex_loop : ℕ → Bytes → Option ℕ
hex_loop n [] = some n
hex_loop n (c ∷ cs) = elim (hex_digit c) [
  | none ↦ none
  | some d ↦ if ltb ((max_int64 - d) / 16) n then none else hex_loop (add64 (mul64 n 16) d) cs
]

unfoldable pub parse_hex_int64 : Bytes → Option ℕ
parse_hex_int64 [] = none
parse_hex_int64 (c ∷ cs) = hex_loop 0 (c ∷ cs)

-- The end of `readChunkHeader`: the size, and the budget of the body.
abbrev pub admit_size : BodyReader → Option ℕ → Result ℕ
admit_size b none = err bad_chunk
admit_size b (some size) =
    if lt64 b.lim.max_body_size (add64 b.served size) then err body_too_large else ok size

-- A line without its blanks at the end; the index is that of a semicolon.
abbrev pub size_of_line : BodyReader → Bytes → Option ℕ → Result ℕ
size_of_line b line none = admit_size b (parse_hex_int64 line)
size_of_line b line (some i) =
    if ltb b.lim.max_chunk_extension_len (length line - i - 1)
    then err chunk_extension_too_long
    else admit_size b (parse_hex_int64 (take i line))

unfoldable pub chunk_size : BodyReader → Line → Result ℕ
chunk_size b (err line_too_long) = err chunk_line_too_long
chunk_size b (err e) = err e
chunk_size b (ok (line, false)) = err bad_chunk
chunk_size b (ok (line, true)) =
    let trimmed = trim_right line in size_of_line b trimmed (index_byte trimmed b';')

unfoldable pub read_chunk_header : BodyReader → BodyReader × Result ℕ
read_chunk_header b =
    let (b', line) = read_line b.lim.max_chunk_size_line b in (b', chunk_size b' line)

-- On the bytes that `io.ReadFull` returned.
abbrev pub crlf_error : Bytes → Option Error
crlf_error (x ∷ y ∷ _) = if x == b'\r' && y == b'\n' then none else some bad_chunk
crlf_error _ = some unexpected_eof

unfoldable pub expect_crlf : BodyReader → BodyReader × Option Error
expect_crlf b =
    let (got, c) = read_two b.conn in
    (record b { conn = c; consumed = add64 b.consumed (length got) }, crlf_error got)

abbrev to_upper : ℕ → ℕ
to_upper c = if within b'a' b'z' c then c - 32 else c

abbrev to_lower : ℕ → ℕ
to_lower c = if within b'A' b'Z' c then c + 32 else c

-- The key under which `http.Header.Add` files a token: upper case at the start and after a dash,
-- lower case elsewhere.
unfoldable pub canonical_key : Bool → Bytes → Bytes
canonical_key upper [] = []
canonical_key upper (c ∷ cs) =
    (if upper then to_upper c else to_lower c) ∷ canonical_key (c == b'-') cs

abbrev pub max_trailer_name_len : ℕ
max_trailer_name_len = 256

-- One trailer line that is not empty, past the count check: the field, or the error.
abbrev pub trailer_value : Limits → Bytes → Bytes → Result (Bytes × Bytes)
trailer_value lim name value =
    if ltb lim.max_trailer_value_len (length value)
    then err value_too_large
    else if not (valid_field_value value)
    then err malformed
    else ok (canonical_key true name, value)

abbrev pub trailer_at : Limits → Bytes → Option ℕ → Result (Bytes × Bytes)
trailer_at lim line none = err malformed
trailer_at lim line (some zero) = err malformed
trailer_at lim line (some (suc i)) =
    if not (valid_token (take (suc i) line))
    then err malformed
    else trailer_value lim (take (suc i) line) (trim (drop (suc (suc i)) line))

unfoldable pub trailer_field : Limits → Bytes → Result (Bytes × Bytes)
trailer_field lim line = trailer_at lim line (index_byte line b':')

abbrev pub Fields : Type 0
Fields = List (Bytes × Bytes)

-- `again` is the next round of the loop, with one more line counted.
abbrev pub trailer_next :
    (Fields → BodyReader → BodyReader × Option Error)
    → Fields
    → BodyReader
    → Result (Bytes × Bytes)
    → BodyReader × Option Error
trailer_next again h b (err e) = (b, some e)
trailer_next again h b (ok field) = again (h ++ (field ∷ [])) b

unfoldable pub trailer_line :
    (Fields → BodyReader → BodyReader × Option Error)
    → ℕ
    → Fields
    → BodyReader × Line
    → BodyReader × Option Error
trailer_line again count h (b, err line_too_long) = (b, some value_too_large)
trailer_line again count h (b, err e) = (b, some e)
trailer_line again count h (b, ok (line, false)) = (b, some malformed)
trailer_line again count h (b, ok ([], true)) = (record b { trailers = h }, none)
trailer_line again count h (b, ok (c ∷ cs, true)) =
    if leb b.lim.max_trailer_count count
    then (b, some too_many_trailers)
    else trailer_next again h b (trailer_field b.lim (c ∷ cs))

unfoldable pub trailer_loop : ℕ → ℕ → Fields → BodyReader → BodyReader × Option Error
trailer_loop zero count h b = (b, some stuck)
trailer_loop (suc fuel) count h b =
    trailer_line (trailer_loop fuel (count + 1)) count h
      (read_line (b.lim.max_trailer_value_len + max_trailer_name_len) b)

-- Each round takes a line feed at least.
unfoldable pub read_trailers : BodyReader → BodyReader × Option Error
read_trailers b = trailer_loop (suc (length b.conn.bytes)) 0 [] b
