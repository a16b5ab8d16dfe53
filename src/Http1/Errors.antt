-- ===== src/Http1/Errors.antt =====
-- The error values of http1, those of io that it returns, and a value-or-error result.
use simdhttp.Common.{ℕ}

-- `line_too_long` is `errLineTooLong`; `conn n` is an error of the connection itself.
-- `stuck` is no Go value: a loop of the model ran out of fuel.
pub data Error : Type 0 where
  incomplete malformed missing_host : Error
  head_too_large too_many_headers value_too_large request_line_too_large : Error
  ambiguous_framing bad_content_length bad_transfer_encoding : Error
  body_too_large bad_chunk chunk_line_too_long chunk_extension_too_long too_many_trailers : Error
  line_too_long drain_too_large : Error
  eof unexpected_eof : Error
  conn : ℕ → Error
  stuck : Error

pub data Result {ℓ} (A : Type ℓ) : Type ℓ where
  ok : A → Result A
  err : Error → Result A
