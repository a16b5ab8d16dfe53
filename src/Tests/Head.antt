-- ===== src/Tests/Head.antt =====
-- The head parser and the framing of http1/parser.go and http1/framing.go on concrete inputs.
use simdhttp.Common.{
  ◌≡◌, ◌≢◌, ◌⊎◌, ◌↔◌, refl, true, some, [], ◌∷◌, arith, Bytes, codes, take, IsByte, All, index_byte,
  equal,
}
use simdhttp.Http1.Chars.Folds.{ascii_fold, KelvinSpelling, valid_transfer_encoding_iff}
use simdhttp.Http1.Chars.Tokens.{IsPlain, token_only-valid_token, token_only-IsPlain}
use simdhttp.Http1.Chars.Trims.{IsTrimOf, trim-IsTrimOf}
use simdhttp.Http1.Chars.{
  is_hex, equal_fold, fold_rune, trim_left, trim_right, token_only, valid_token, trim,
  valid_transfer_encoding, valid_field_value, token_bytes,
}
use simdhttp.Http1.Errors.{bad_transfer_encoding, ambiguous_framing, ok, err, bad_content_length}
use simdhttp.Http1.Framing.ContentLength.{IsContentLength, parse_content_length_iff}
use simdhttp.Http1.Framing.Table.{Frames, Refuses, framing_of_iff, framing_of-Refuses_iff}
use simdhttp.Http1.Framing.{strict, framing_of, parse_content_length, fixed_length}
use simdhttp.Http1.Parser.Agreement.{parse-framing_of}
use simdhttp.Http1.Parser.Fields.{IsFramable, parse-IsFramable}
use simdhttp.Http1.Parser.Values.{clean_value-valid}
use simdhttp.Http1.Parser.Walks.{parse_block-walk_lines, walk_lines, first_walk}
use simdhttp.Http1.Parser.{
  Request, clean_value, parse, parse_block, profile_limits, strip_cr, parse_parts, valid_target,
  is_http_version, walk_ends, field_line, named_field, value_field, head_end, host_field,
  keep_field, limit_field, scan_tabs, valid_host,
}
use simdhttp.Http1.Simd.{Simd, first_where, positions, any_or_less}

-- The kernels as their documentation has them.
abbrev pub scalar : Simd
scalar = record {
  index_byte_of = index_byte;
  index_any_or_less = (λ b set lo. first_where (any_or_less set lo) b);
  index_all = (λ n b c. take n (positions 0 b c));
  index_byte_law = (λ b c. refl);
  index_any_or_less_law = (λ b set lo. refl);
  index_all_law = (λ n b c. refl);
}

abbrev pub no_request : Request
no_request = record {
  method = [];
  target = [];
  proto = [];
  headers = [];
  content_length_lines = [];
  transfer_encoding_lines = [];
  ends_cap = 0;
}

abbrev pub get : Bytes
get = codes "GET /a%20b HTTP/1.1\r\nHost: x\r\nContent-Length: 12\r\n\r\nrest"

abbrev header_block : Bytes
header_block = codes "Host: x\r\nContent-Length: 12\r\n\r\nrest"

abbrev with_head : Request
with_head = record no_request { method = codes "GET"; target = codes "/"; proto = codes "HTTP/1.1" }

parse-get : (parse scalar no_request get strict).1 ≡ ok 52
unfolding parse profile_limits index_byte strip_cr parse_parts valid_target is_hex is_http_version
    equal token_only token_bytes parse_block walk_ends field_line named_field equal_fold value_field
    clean_value fold_rune trim trim_left trim_right valid_field_value valid_transfer_encoding
    head_end host_field keep_field limit_field scan_tabs valid_host
parse-get = refl

parse_block-walk_lines_example :
    parse_block scalar strict (profile_limits strict) with_head 16 header_block
    ≡ walk_lines scalar (profile_limits strict) strict 36 16 header_block (first_walk with_head 35)
parse_block-walk_lines_example =
    parse_block-walk_lines scalar strict (profile_limits strict) with_head 16 header_block

clean_value-valid_example :
    clean_value scalar (codes "text\twith\ttabs") ≡ valid_field_value (codes "text\twith\ttabs")
clean_value-valid_example = clean_value-valid scalar (codes "text\twith\ttabs")

framing_of_iff_example :
    (framing_of (codes "12" ∷ []) [] strict ≡ ok (fixed_length 12))
    ↔ Frames (codes "12" ∷ []) [] (fixed_length 12)
framing_of_iff_example = framing_of_iff (codes "12" ∷ []) [] strict (fixed_length 12)

framing_of-Refuses_iff_example :
    (framing_of (codes "+12" ∷ []) [] strict ≡ err bad_content_length)
    ↔ Refuses (codes "+12" ∷ []) [] bad_content_length
framing_of-Refuses_iff_example =
    framing_of-Refuses_iff (codes "+12" ∷ []) [] strict bad_content_length

parse_content_length_iff_example :
    (parse_content_length (codes "012") ≡ some 12) ↔ IsContentLength (codes "012") 12
parse_content_length_iff_example = parse_content_length_iff (codes "012") 12

valid_transfer_encoding_iff_example :
    (valid_transfer_encoding (codes "Chunked") ≡ true)
    ↔ ((ascii_fold (codes "Chunked") (codes "chunked") ≡ true) ⊎ KelvinSpelling (codes "Chunked"))
valid_transfer_encoding_iff_example = valid_transfer_encoding_iff (codes "Chunked")

trim-IsTrimOf_example : IsTrimOf (codes " \t a b ") (trim (codes " \t a b "))
trim-IsTrimOf_example = trim-IsTrimOf (codes " \t a b ")

host_IsByte : All IsByte (codes "Host")
host_IsByte = omega arith

token_only-valid_token_example : token_only (codes "Host") ≡ valid_token (codes "Host")
token_only-valid_token_example = token_only-valid_token (codes "Host") host_IsByte

host_token_only : token_only (codes "Host") ≡ true
unfolding token_only token_bytes
host_token_only = refl

token_only-IsPlain_example : All IsPlain (codes "Host") × (codes "Host" ≢ [])
token_only-IsPlain_example = token_only-IsPlain (codes "Host") host_token_only

parse-IsFramable_example : IsFramable (parse scalar no_request get strict).0
parse-IsFramable_example = parse-IsFramable scalar no_request get strict 52 parse-get

parse-framing_of_example :
    let r = (parse scalar no_request get strict).0 in
    (framing_of r.content_length_lines r.transfer_encoding_lines strict ≢ err bad_transfer_encoding)
    × (framing_of r.content_length_lines r.transfer_encoding_lines strict ≡ err ambiguous_framing
        → (r.content_length_lines ≢ []) × (r.transfer_encoding_lines ≢ []))
parse-framing_of_example = parse-framing_of scalar no_request get strict 52 parse-get
