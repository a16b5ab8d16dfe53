-- ===== src/Http1/Framing.antt =====
-- The body-framing decision table, http1/framing.go.
pub mod ContentLength
pub mod Table
use simdhttp.Common.{
  ℕ, suc, ◌+◌, ◌-◌, ◌/◌, Bool, true, false, not, ◌||◌, Option, none, some, List, [], ◌∷◌, ltb, ◌==◌,
  if◌then◌else◌, Bytes, length, is_empty,
}
use simdhttp.Common.Int64.{max_int64, add64, mul64}
use simdhttp.Http1.Errors.{Result, ok, err, ambiguous_framing, bad_content_length}
use simdhttp.Http1.Errors.{bad_transfer_encoding}
use simdhttp.Http1.Chars.{valid_transfer_encoding}

pub data Profile : Type 0 where
  compatible strict : Profile

pub data Kind : Type 0 where
  kind_none kind_fixed kind_chunked : Kind

-- `length` is an int64, and 0 where the source leaves it out.
pub record Framing : Type 0 where
  pub kind : Kind
  pub length : ℕ

abbrev pub no_body : Framing
no_body = record { kind = kind_none; length = 0 }

abbrev pub chunked_body : Framing
chunked_body = record { kind = kind_chunked; length = 0 }

-- `FixedLength`
abbrev pub fixed_length : ℕ → Framing
fixed_length n = record { kind = kind_fixed; length = n }

-- The loop of `parseContentLength`.
unfoldable pub content_length_loop : ℕ → Bytes → Option ℕ
content_length_loop n [] = some n
content_length_loop n (c ∷ cs) =
    let d = c - b'0' in
    if ltb c b'0' || ltb b'9' c
    then none
    else if ltb ((max_int64 - d) / 10) n
    then none
    else content_length_loop (add64 (mul64 n 10) d) cs

unfoldable pub parse_content_length : Bytes → Option ℕ
parse_content_length v =
    if length v == 0 || ltb 19 (length v) then none else content_length_loop 0 v

-- One Content-Length line, no Transfer-Encoding.
abbrev pub frame_parsed : Option ℕ → Result Framing
frame_parsed none = err bad_content_length
frame_parsed (some n) = ok (fixed_length n)

unfoldable pub frame_length : Bytes → Result Framing
frame_length v = frame_parsed (parse_content_length v)

-- The second switch, on the Content-Length lines.
unfoldable pub frame_by_length : List Bytes → Result Framing
frame_by_length [] = ok no_body
frame_by_length (v ∷ []) = frame_length v
frame_by_length (v ∷ w ∷ vs) = err ambiguous_framing

unfoldable pub framing_of : List Bytes → List Bytes → Profile → Result Framing
unfolding frame_by_length
framing_of cl (v ∷ w ∷ te) profile = err bad_transfer_encoding
framing_of cl (v ∷ []) profile =
    if not (valid_transfer_encoding v)
    then err bad_transfer_encoding
    else if not (is_empty cl)
    then err ambiguous_framing
    else ok chunked_body
framing_of cl [] profile = frame_by_length cl
