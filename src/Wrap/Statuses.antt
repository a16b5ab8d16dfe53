-- ===== src/Wrap/Statuses.antt =====
-- The statuses of `DefaultErrorMapper`.
use simdhttp.Common.{
  ℕ, zero, suc, ◌≡◌, if◌then◌else◌, arith, refl, ap, ◌∙◌, Bool, true, false, some, List, [], ◌∷◌,
  ◌==◌, ==_iff, get_elem?, all, not, inl, inr, Bool-cases,
}
use simdhttp.Http1.Errors.{
  Error, incomplete, malformed, missing_host, ambiguous_framing, bad_content_length, bad_chunk,
  body_too_large, drain_too_large, chunk_line_too_long, chunk_extension_too_long, too_many_trailers,
  head_too_large, too_many_headers, value_too_large, bad_transfer_encoding, request_line_too_large,
  line_too_long, eof, unexpected_eof, stuck, conn,
}
use simdhttp.Wrap.{any_is, bad_requests, too_large, head_fields_too_large, default_error_mapper}

-- The status that RFC 9110 and RFC 6585 give each error: 400 Bad Request, 413 Content Too Large, 414
-- URI Too Long, 431 Request Header Fields Too Large, 501 Not Implemented; 500 for what is no sentinel
-- of the mapper.
abbrev pub status_for : Error → ℕ
status_for incomplete = 400
status_for malformed = 400
status_for missing_host = 400
status_for ambiguous_framing = 400
status_for bad_content_length = 400
status_for bad_chunk = 400
status_for body_too_large = 413
status_for drain_too_large = 413
status_for chunk_line_too_long = 413
status_for chunk_extension_too_long = 413
status_for too_many_trailers = 413
status_for head_too_large = 431
status_for too_many_headers = 431
status_for value_too_large = 431
status_for bad_transfer_encoding = 501
status_for request_line_too_large = 414
status_for line_too_long = 500
status_for eof = 500
status_for unexpected_eof = 500
status_for stuck = 500
status_for (conn n) = 500

-- `errors.Is` answers true for `e` and for no other error.
pub record IsJust (e : Error) (is : Error → Bool) : Type 0 where
  pub itself : is e ≡ true
  pub no_other : (x : Error) → is x ≡ true → x ≡ e

-- A number for each constructor, to tell them apart.
abbrev tag : Error → ℕ
tag incomplete = 0
tag malformed = 1
tag missing_host = 2
tag ambiguous_framing = 3
tag bad_content_length = 4
tag bad_chunk = 5
tag body_too_large = 6
tag drain_too_large = 7
tag chunk_line_too_long = 8
tag chunk_extension_too_long = 9
tag too_many_trailers = 10
tag head_too_large = 11
tag too_many_headers = 12
tag value_too_large = 13
tag bad_transfer_encoding = 14
tag request_line_too_large = 15
tag line_too_long = 16
tag eof = 17
tag unexpected_eof = 18
tag stuck = 19
tag (conn n) = 20

module _ (e : Error) (is : Error → Bool) (just : IsJust e is) where
  abbrev NoneOf : List Error → Type 0
  NoneOf es = all (λ x. not (tag x == tag e)) es ≡ true

  is_off : (x : Error) → (tag x == tag e) ≡ false → is x ≡ false
  is_off x differ = elim (Bool-cases (is x)) [
    | inr off ↦ off
    | inl on ↦
        let same : (tag x == tag e) ≡ true =
          (==_iff (tag x) (tag e)).1 (ap tag (just.no_other x on)) in
        cc
  ]

  all_off : (es : List Error) → NoneOf es → any_is is es ≡ false
  all_off [] h = refl
  all_off (x ∷ xs) h = elim (Bool-cases (tag x == tag e)) [
    | inl same ↦ cc (rw same at h)
    | inr differ ↦ rw (is_off x differ) (all_off xs (rw differ at h))
  ]

  one_on : (es : List Error) (i : ℕ) → get_elem? es i ≡ some e → any_is is es ≡ true
  one_on [] i h = cc
  one_on (x ∷ xs) zero h = let here : x ≡ e = cc in rw (ap is here ∙ just.itself) refl
  one_on (x ∷ xs) (suc i) h = elim (Bool-cases (is x)) [
    | inl on ↦ rw on refl
    | inr off ↦ rw off (one_on xs i h)
  ]

  -- The tests come one after the other; each lemma says what is left behind the tests before it.
  past_400 :
      NoneOf (bad_transfer_encoding ∷ bad_requests)
      → default_error_mapper is ≡ (
          if any_is is too_large
          then 413
          else if any_is is head_fields_too_large
          then 431
          else if is request_line_too_large
          then 414
          else 500)
  unfolding default_error_mapper
  past_400 h =
      let h1 : (tag bad_transfer_encoding == tag e) ≡ false = ground arith in
      rw (all_off bad_requests (ground arith), is_off bad_transfer_encoding h1) refl

  past_413 :
      NoneOf (bad_transfer_encoding ∷ bad_requests)
      → NoneOf too_large
      → default_error_mapper is ≡ (
          if any_is is head_fields_too_large
          then 431
          else if is request_line_too_large
          then 414
          else 500)
  past_413 h k = past_400 h ∙ rw (all_off too_large k) refl

  past_431 :
      NoneOf (bad_transfer_encoding ∷ bad_requests)
      → NoneOf too_large
      → NoneOf head_fields_too_large
      → default_error_mapper is ≡ (if is request_line_too_large then 414 else 500)
  past_431 h k l = past_413 h k ∙ rw (all_off head_fields_too_large l) refl

  is_400 : (i : ℕ) → get_elem? bad_requests i ≡ some e → default_error_mapper is ≡ 400
  unfolding default_error_mapper
  is_400 i h = rw (one_on bad_requests i h) refl

  is_413 :
      (i : ℕ)
      → NoneOf (bad_transfer_encoding ∷ bad_requests)
      → get_elem? too_large i ≡ some e
      → default_error_mapper is ≡ 413
  is_413 i h there_is = past_400 h ∙ rw (one_on too_large i there_is) refl

  is_431 :
      (i : ℕ)
      → NoneOf (bad_transfer_encoding ∷ bad_requests)
      → NoneOf too_large
      → get_elem? head_fields_too_large i ≡ some e
      → default_error_mapper is ≡ 431
  is_431 i h k there_is = past_413 h k ∙ rw (one_on head_fields_too_large i there_is) refl

  is_500 :
      NoneOf (bad_transfer_encoding ∷ bad_requests)
      → NoneOf too_large
      → NoneOf head_fields_too_large
      → (tag request_line_too_large == tag e) ≡ false
      → default_error_mapper is ≡ 500
  is_500 h k l differ = past_431 h k l ∙ rw (is_off request_line_too_large differ) refl

-- `DefaultErrorMapper` answers, for an error that is one of the errors of http1 or wraps just that
-- one, the status of the table, and 500 for an error that is none of them.
pub default_error_mapper-status_for :
    (e : Error) (is : Error → Bool) → IsJust e is → default_error_mapper is ≡ status_for e
unfolding default_error_mapper
default_error_mapper-status_for missing_host is h = is_400 missing_host is h 0 refl
default_error_mapper-status_for malformed is h = is_400 malformed is h 1 refl
default_error_mapper-status_for incomplete is h = is_400 incomplete is h 2 refl
default_error_mapper-status_for ambiguous_framing is h = is_400 ambiguous_framing is h 3 refl
default_error_mapper-status_for bad_content_length is h = is_400 bad_content_length is h 4 refl
default_error_mapper-status_for bad_chunk is h = is_400 bad_chunk is h 5 refl
default_error_mapper-status_for bad_transfer_encoding is h =
    rw (all_off bad_transfer_encoding is h bad_requests refl, h.itself) refl
default_error_mapper-status_for body_too_large is h = is_413 body_too_large is h 0 refl refl
default_error_mapper-status_for drain_too_large is h = is_413 drain_too_large is h 1 refl refl
default_error_mapper-status_for chunk_line_too_long is h =
    is_413 chunk_line_too_long is h 2 refl refl
default_error_mapper-status_for chunk_extension_too_long is h =
    is_413 chunk_extension_too_long is h 3 refl refl
default_error_mapper-status_for too_many_trailers is h = is_413 too_many_trailers is h 4 refl refl
default_error_mapper-status_for head_too_large is h = is_431 head_too_large is h 0 refl refl refl
default_error_mapper-status_for too_many_headers is h =
    is_431 too_many_headers is h 1 refl refl refl
default_error_mapper-status_for value_too_large is h = is_431 value_too_large is h 2 refl refl refl
default_error_mapper-status_for request_line_too_large is h =
    past_431 request_line_too_large is h refl refl refl ∙ rw h.itself refl
default_error_mapper-status_for line_too_long is h = is_500 line_too_long is h refl refl refl refl
default_error_mapper-status_for eof is h = is_500 eof is h refl refl refl refl
default_error_mapper-status_for unexpected_eof is h = is_500 unexpected_eof is h refl refl refl refl
default_error_mapper-status_for stuck is h = is_500 stuck is h refl refl refl refl
default_error_mapper-status_for (conn n) is h = is_500 (conn n) is h refl refl refl refl
