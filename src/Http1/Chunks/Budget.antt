-- ===== src/Http1/Chunks/Budget.antt =====
-- The budget check of `readChunkHeader`, `b.served+size > b.lim.MaxBodySize` in int64.
use simdhttp.Common.{ℕ, ◌+◌, ◌<◌, ◌≤◌, ◌≡◌, refl, ◌∙◌, ◌++◌, ltb, if◌then◌else◌, Bytes, length}
use simdhttp.Common.Int64.{max_int64, IsNonneg, lt64_wrapped, lt64-add64}
use simdhttp.Http1.Chunks.Header.{IsSizeLine, read_chunk_header_lem}
use simdhttp.Http1.Chunks.{read_chunk_header}
use simdhttp.Http1.Errors.{ok, err, body_too_large}
use simdhttp.Http1.Lines.Spec.{advance}
use simdhttp.Http1.Lines.Verdict.{crlf}
use simdhttp.Http1.Reader.{BodyReader}

-- A reader at a chunk-size line that declares `n` bytes, with a limit that is not negative.
pub record AtSizeLine (b : BodyReader) (line rest : Bytes) (n : ℕ) : Type 0 where
  pub has_buffer : 0 < b.conn.buf_size
  pub is_size : IsSizeLine b.lim line n
  pub stream : b.conn.bytes ≡ line ++ crlf rest
  pub limit_nonneg : IsNonneg b.lim.max_body_size
  pub served_nonneg : IsNonneg b.served

module _ {b : BodyReader} {line rest : Bytes} {n : ℕ} (at : AtSizeLine b line rest n) where
  -- While the sum fits an int64, a chunk is refused exactly when it would carry the body past
  -- `MaxBodySize`, before a byte of it is read.
  pub read_chunk_header_within :
      b.served + n ≤ max_int64
      → read_chunk_header b ≡ (
        advance (length line + 2) rest b,
        if ltb b.lim.max_body_size (b.served + n) then err body_too_large else ok n,
      )
  read_chunk_header_within fits =
      read_chunk_header_lem b line rest n at.has_buffer at.is_size at.stream
      ∙ rw (lt64-add64 b.served n b.lim.max_body_size at.limit_nonneg fits) refl

  -- When the sum passes the largest int64 it wraps to a negative number, and the chunk is admitted
  -- whatever `MaxBodySize` is.
  pub read_chunk_header_wraps :
      max_int64 < b.served + n → read_chunk_header b ≡ (advance (length line + 2) rest b, ok n)
  read_chunk_header_wraps over =
      read_chunk_header_lem b line rest n at.has_buffer at.is_size at.stream
      ∙ rw
          (lt64_wrapped b.served n b.lim.max_body_size at.served_nonneg at.is_size.is_size.fits
            at.limit_nonneg over)
          refl
