-- ===== src/Http1/Body/Wire.antt =====
-- A chunked body on the wire, and a reader that is somewhere inside it.
use simdhttp.Common.{◌+◌, ◌<◌, ◌≤◌, ◌≡◌, none, List, [], ◌∷◌, ◌++◌, Bytes, length, All}
use simdhttp.Common.Int64.{IsNonneg}
use simdhttp.Http1.Chunks.Header.{IsSizeLine}
use simdhttp.Http1.Chunks.Section.{section_bytes, AreTrailers}
use simdhttp.Http1.Chunks.{Fields}
use simdhttp.Http1.Framing.{kind_chunked}
use simdhttp.Http1.Lines.Verdict.{crlf}
use simdhttp.Http1.Reader.{BodyReader, Limits, cs_header, cs_data, cs_data_crlf}

-- A chunk: its size line and its data.
pub record Chunk : Type 0 where
  pub line : Bytes
  pub content : Bytes

pub record IsChunk (lim : Limits) (c : Chunk) : Type 0 where
  pub is_size : IsSizeLine lim c.line (length c.content)
  pub not_empty : 0 < length c.content

abbrev pub chunk_bytes : List Chunk → Bytes → Bytes
chunk_bytes [] tail = tail
chunk_bytes (c ∷ cs) tail = c.line ++ crlf (c.content ++ crlf (chunk_bytes cs tail))

-- The body that the chunks carry.
abbrev pub contents : List Chunk → Bytes
contents [] = []
contents (c ∷ cs) = c.content ++ contents cs

-- What follows the chunks: the line of the last chunk, the trailers, and the next request.
pub record Tail : Type 0 where
  pub last_line : Bytes
  pub trailer_lines : List Bytes
  pub fields : Fields
  pub next : Bytes

abbrev pub tail_bytes : Tail → Bytes
tail_bytes t = t.last_line ++ crlf (section_bytes t.trailer_lines t.next)

pub record IsTail (lim : Limits) (t : Tail) : Type 0 where
  pub is_last : IsSizeLine lim t.last_line 0
  pub are_trailers : AreTrailers lim t.trailer_lines t.fields
  pub few : length t.trailer_lines ≤ lim.max_trailer_count

-- An open chunked reader with `body` still to serve within its budget.
pub record IsOpen (t : Tail) (b : BodyReader) (body : Bytes) : Type 0 where
  pub is_chunked : b.kind ≡ kind_chunked
  pub no_error : b.err ≡ none
  pub has_buffer : 0 < b.conn.buf_size
  pub is_tail : IsTail b.lim t
  pub limit_nonneg : IsNonneg b.lim.max_body_size
  pub in_budget : b.served + length body ≤ b.lim.max_body_size

-- Where the reader is: at a size line, inside the data of a chunk, or behind it.
pub data Place (t : Tail) (b : BodyReader) (body : Bytes) : Type 0 where
  at_header :
      (cs : List Chunk)
      → All (IsChunk b.lim) cs
      → b.state ≡ cs_header
      → b.conn.bytes ≡ chunk_bytes cs (tail_bytes t)
      → body ≡ contents cs
      → Place t b body
  at_data :
      (part : Bytes) (cs : List Chunk)
      → All (IsChunk b.lim) cs
      → b.state ≡ cs_data
      → b.chunk_remain ≡ length part
      → 0 < length part
      → b.conn.bytes ≡ part ++ crlf (chunk_bytes cs (tail_bytes t))
      → body ≡ part ++ contents cs
      → Place t b body
  at_crlf :
      (cs : List Chunk)
      → All (IsChunk b.lim) cs
      → b.state ≡ cs_data_crlf
      → b.conn.bytes ≡ crlf (chunk_bytes cs (tail_bytes t))
      → body ≡ contents cs
      → Place t b body

-- The reader is inside the encoding, and will serve `body` and leave `t.next`.
pub record Pending (t : Tail) (b : BodyReader) (body : Bytes) : Type 0 where
  pub is_open : IsOpen t b body
  pub place : Place t b body
