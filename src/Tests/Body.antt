-- ===== src/Tests/Body.antt =====
-- The body reader of http1/body.go on concrete inputs.
use simdhttp.Common.{
  ℕ, ◌≡◌, ◌↔◌, ap, ◌∙◌, refl, true, false, none, some, List, [], ◌∷◌, ◌++◌, arith, Bytes, codes,
  length, All, ltb, if◌then◌else◌,
}
use simdhttp.Common.Int64.{max_int64, add64, mul64}
use simdhttp.Http1.Chars.{valid_token, token_char, trim, trim_left, trim_right, valid_field_value}
use simdhttp.Http1.Body.Client.{read_all, IsBuffer}
use simdhttp.Http1.Body.Rounds.{Delivers}
use simdhttp.Http1.Body.Serve.{read-Delivers}
use simdhttp.Http1.Body.Whole.{HoldsChunks, IsWhole, read_all-chunked}
use simdhttp.Http1.Body.WholeLength.{
  FitsBudget, IsServed, IsCut, read_all-fixed, read_all_truncated, read_over_budget,
}
use simdhttp.Http1.Body.Wire.{
  Chunk, IsChunk, chunk_bytes, Tail, tail_bytes, IsTail, at_header, Pending,
}
use simdhttp.Http1.Body.{read}
use simdhttp.Http1.Chunks.Budget.{AtSizeLine, read_chunk_header_within, read_chunk_header_wraps}
use simdhttp.Http1.Chunks.Header.{absent, present, IsSizeLine}
use simdhttp.Http1.Chunks.Hex.{IsHexSize, parse_hex_int64_iff}
use simdhttp.Http1.Chunks.Section.{IsTrailer, section_bytes, read_trailers_lem}
use simdhttp.Http1.Chunks.{
  parse_hex_int64, hex_loop, read_chunk_header, read_trailers, canonical_key,
}
use simdhttp.Http1.Conn.{Conn}
use simdhttp.Http1.Errors.{ok, err, eof, body_too_large}
use simdhttp.Http1.Framing.{chunked_body, fixed_length}
use simdhttp.Http1.Lines.Spec.{advance}
use simdhttp.Http1.Lines.Verdict.{read_line-verdict, read_line-crlf, crlf, line_verdict}
use simdhttp.Http1.Lines.{read_line}
use simdhttp.Http1.Reader.{BodyReader, Limits, new_body_reader}

abbrev lim : Limits
lim = record {
  max_body_size = 100;
  max_chunk_size_line = 20;
  max_chunk_extension_len = 10;
  max_trailer_count = 2;
  max_trailer_value_len = 10;
  max_drain_size = 50;
}

-- Fragments of 4 and 1 bytes, then what is asked for.
abbrev peer : Bytes → Conn
peer bytes = record {
  bytes = bytes;
  grants = (4, false) ∷ (0, false) ∷ (1, true) ∷ [];
  ending = eof;
  buf_size = 16;
}

abbrev size_line : Bytes → Bytes → Bytes → Bytes
size_line digits extension blanks = (digits ++ extension) ++ blanks

hex_sizes :
    (parse_hex_int64 (codes "3") ≡ some 3)
    × (parse_hex_int64 (codes "02") ≡ some 2)
    × (parse_hex_int64 (codes "0") ≡ some 0)
    × (parse_hex_int64 (codes "7fffffffffffffff") ≡ some max_int64)
    × (parse_hex_int64 (codes "8000000000000000") ≡ none)
unfolding parse_hex_int64 hex_loop add64 mul64
hex_sizes = (refl, refl, refl, refl, refl)

parse_hex_int64_iff_example :
    (parse_hex_int64 (codes "0aF") ≡ some 175) ↔ IsHexSize (codes "0aF") 175
parse_hex_int64_iff_example = parse_hex_int64_iff (codes "0aF") 175

first_IsSizeLine : IsSizeLine lim (codes "3") 3
first_IsSizeLine = record {
  digits = codes "3";
  extension = [];
  blanks = [];
  joined = refl;
  is_size = (parse_hex_int64_iff (codes "3") 3).0 hex_sizes.0;
  is_extension = absent;
  all_blank = refl;
  short = omega arith;
}

second_IsSizeLine : IsSizeLine lim (codes "02;x=y ") 2
second_IsSizeLine = record {
  digits = codes "02";
  extension = codes ";x=y";
  blanks = codes " ";
  joined = refl;
  is_size = (parse_hex_int64_iff (codes "02") 2).0 hex_sizes.1;
  is_extension = present (refl, (refl, (refl, tt))) refl (omega arith);
  all_blank = refl;
  short = omega arith;
}

last_IsSizeLine : IsSizeLine lim (codes "0") 0
last_IsSizeLine = record {
  digits = codes "0";
  extension = [];
  blanks = [];
  joined = refl;
  is_size = (parse_hex_int64_iff (codes "0") 0).0 hex_sizes.2;
  is_extension = absent;
  all_blank = refl;
  short = omega arith;
}

abbrev chunks : List Chunk
chunks =
    record { line = codes "3"; content = codes "abc" }
    ∷ record { line = codes "02;x=y "; content = codes "de" }
    ∷ []

abbrev tail : Tail
tail = record {
  last_line = codes "0";
  trailer_lines = codes "etag: 1 " ∷ [];
  fields = (codes "Etag", codes "1") ∷ [];
  next = codes "GET /";
}

etag : canonical_key true (codes "etag") ≡ codes "Etag"
unfolding canonical_key
etag = refl

etag_valid : valid_token (codes "etag") ≡ true
unfolding valid_token token_char
etag_valid = refl

etag_trim : trim (codes " 1 ") ≡ codes "1"
unfolding trim trim_left trim_right
etag_trim = refl

etag_value : valid_field_value (codes "1") ≡ true
unfolding valid_field_value
etag_value = refl

etag_IsTrailer : IsTrailer lim (codes "etag: 1 ") (codes "Etag", codes "1")
etag_IsTrailer = record {
  name = codes "etag";
  text = codes " 1 ";
  joined = refl;
  is_name = etag_valid;
  text_clean = (refl, (refl, (refl, tt)));
  is_value = ap valid_field_value etag_trim ∙ etag_value;
  value_short = rw etag_trim (omega arith);
  short = omega arith;
  is_field = rw (etag, etag_trim) refl;
}

tail-IsTail : IsTail lim tail
tail-IsTail = record {
  is_last = last_IsSizeLine;
  are_trailers = (etag_IsTrailer, tt);
  few = omega arith;
}

chunks-IsChunk : All (IsChunk lim) chunks
chunks-IsChunk = (
  record { is_size = first_IsSizeLine; not_empty = omega arith },
  (record { is_size = second_IsSizeLine; not_empty = omega arith }, tt),
)

abbrev chunked_peer : Conn
chunked_peer = peer (chunk_bytes chunks (tail_bytes tail))

chunked_HoldsChunks : HoldsChunks chunked_peer lim chunks tail
chunked_HoldsChunks = record {
  has_buffer = omega arith;
  limit_nonneg = omega arith;
  are_chunks = chunks-IsChunk;
  is_tail = tail-IsTail;
  in_budget = omega arith;
  stream = refl;
}

abbrev buffers : List ℕ
buffers = 2 ∷ 1 ∷ 4 ∷ 4 ∷ 2 ∷ 2 ∷ []

buffers-IsBuffer : All IsBuffer buffers
buffers-IsBuffer = omega arith

read_all-chunked_example :
    IsWhole tail (codes "abcde") (read_all buffers (new_body_reader chunked_peer chunked_body lim))
read_all-chunked_example =
    read_all-chunked buffers chunked_peer lim chunks tail buffers-IsBuffer (omega arith)
      chunked_HoldsChunks

chunked_Pending : Pending tail (new_body_reader chunked_peer chunked_body lim) (codes "abcde")
unfolding new_body_reader
chunked_Pending = record {
  is_open = record {
    is_chunked = refl;
    no_error = refl;
    has_buffer = omega arith;
    is_tail = tail-IsTail;
    limit_nonneg = omega arith;
    in_budget = omega arith;
  };
  place = at_header chunks chunks-IsChunk refl refl refl;
}

read-Delivers_example :
    Delivers tail (codes "abcde") (read 2 (new_body_reader chunked_peer chunked_body lim))
read-Delivers_example =
    read-Delivers 2 tail (new_body_reader chunked_peer chunked_body lim) (codes "abcde")
      (omega arith) (omega arith) chunked_Pending

five_FitsBudget : FitsBudget (peer (codes "helloGET")) lim 5
five_FitsBudget = record { limit_nonneg = omega arith; in_budget = omega arith; closes = refl }

read_all-fixed_example :
    IsServed
      (codes "hello")
      (codes "GET")
      (read_all buffers (new_body_reader (peer (codes "helloGET")) (fixed_length 5) lim))
read_all-fixed_example =
    read_all-fixed buffers (peer (codes "helloGET")) lim (codes "hello") (codes "GET")
      buffers-IsBuffer (omega arith) five_FitsBudget refl

short_FitsBudget : FitsBudget (peer (codes "hel")) lim 5
short_FitsBudget = record { limit_nonneg = omega arith; in_budget = omega arith; closes = refl }

read_all_truncated_example :
    IsCut
      (codes "hel")
      (read_all buffers (new_body_reader (peer (codes "hel")) (fixed_length 5) lim))
read_all_truncated_example =
    read_all_truncated buffers (peer (codes "hel")) lim 5 buffers-IsBuffer (omega arith)
      short_FitsBudget (omega arith)

read_over_budget_example :
    let b = new_body_reader (peer (codes "hel")) (fixed_length 101) lim in
    (read 8 b ≡ (b, [], some body_too_large)) × (b.conn ≡ peer (codes "hel"))
read_over_budget_example =
    read_over_budget 8 (peer (codes "hel")) lim 101 (omega arith) (omega arith) (omega arith)

abbrev line_reader : BodyReader
line_reader = new_body_reader (peer (codes "012\r\nab")) chunked_body lim

read_line-verdict_example :
    ((read_line 20 line_reader).1 ≡ line_verdict 20 line_reader.conn.bytes)
    × ((taken : Bytes) × (rest : Bytes) × (line_reader.conn.bytes ≡ taken ++ rest)
        × ((read_line 20 line_reader).0 ≡ advance (length taken) rest line_reader))
read_line-verdict_example = read_line-verdict 20 line_reader (unfold new_body_reader in omega arith)

line_reader_stream : line_reader.conn.bytes ≡ codes "012" ++ crlf (codes "ab")
unfolding new_body_reader
line_reader_stream = refl

read_line-crlf_example :
    read_line 3 line_reader ≡ (advance 5 (codes "ab") line_reader, ok (codes "012", true))
read_line-crlf_example =
    read_line-crlf 3 line_reader (codes "012") (codes "ab") (unfold new_body_reader in omega arith)
      (refl, (refl, (refl, tt))) (omega arith) line_reader_stream

abbrev trailer_reader : BodyReader
trailer_reader = new_body_reader (peer (codes "etag: 1 \r\n\r\nGET")) chunked_body lim

trailer_limits : trailer_reader.lim ≡ lim
unfolding new_body_reader
trailer_limits = refl

trailer_stream : trailer_reader.conn.bytes ≡ section_bytes (codes "etag: 1 " ∷ []) (codes "GET")
unfolding new_body_reader
trailer_stream = refl

read_trailers_lem_example : read_trailers trailer_reader ≡ (
  record (advance 12 (codes "GET") trailer_reader) { trailers = (codes "Etag", codes "1") ∷ [] },
  none,
)
read_trailers_lem_example =
    read_trailers_lem trailer_reader (codes "etag: 1 " ∷ []) ((codes "Etag", codes "1") ∷ [])
      (codes "GET") (unfold new_body_reader in omega arith)
      (unfold new_body_reader in (etag_IsTrailer, tt)) (unfold new_body_reader in omega arith)
      trailer_stream

-- A reader that has served `n` bytes of a chunked body.
abbrev served_reader : ℕ → Bytes → BodyReader
served_reader n bytes = record (new_body_reader (peer bytes) chunked_body lim) { served = n }

at_three : AtSizeLine (served_reader 98 (codes "3\r\nabc")) (codes "3") (codes "abc") 3
unfolding new_body_reader
at_three = record {
  has_buffer = omega arith;
  is_size = first_IsSizeLine;
  stream = refl;
  limit_nonneg = omega arith;
  served_nonneg = omega arith;
}

read_chunk_header_within_example : read_chunk_header (served_reader 98 (codes "3\r\nabc")) ≡ (
  advance 3 (codes "abc") (served_reader 98 (codes "3\r\nabc")),
  if ltb (served_reader 98 (codes "3\r\nabc")).lim.max_body_size 101
      then err body_too_large
      else ok 3,
)
read_chunk_header_within_example = read_chunk_header_within at_three (omega arith)

max_IsSizeLine : IsSizeLine lim (codes "7fffffffffffffff") max_int64
max_IsSizeLine = record {
  digits = codes "7fffffffffffffff";
  extension = [];
  blanks = [];
  joined = refl;
  is_size = (parse_hex_int64_iff (codes "7fffffffffffffff") max_int64).0 hex_sizes.3;
  is_extension = absent;
  all_blank = refl;
  short = omega arith;
}

at_max :
    AtSizeLine
      (served_reader 1 (codes "7fffffffffffffff\r\nabc"))
      (codes "7fffffffffffffff")
      (codes "abc")
      max_int64
unfolding new_body_reader
at_max = record {
  has_buffer = omega arith;
  is_size = max_IsSizeLine;
  stream = refl;
  limit_nonneg = omega arith;
  served_nonneg = omega arith;
}

read_chunk_header_wraps_example :
    read_chunk_header (served_reader 1 (codes "7fffffffffffffff\r\nabc"))
    ≡ (advance 18 (codes "abc") (served_reader 1 (codes "7fffffffffffffff\r\nabc")), ok max_int64)
read_chunk_header_wraps_example = read_chunk_header_wraps at_max (omega arith)
