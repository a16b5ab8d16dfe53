-- ===== src/Http1/Body/Whole.antt =====
-- Reading a well-formed chunked body to its end.
use simdhttp.Common.{
  ℕ, ◌<◌, ◌≤◌, ◌≡◌, refl, sym, ap, ◌∙◌, some, List, [], ◌∷◌, ◌++◌, arith, Bytes, length,
  length-append, All,
}
use simdhttp.Common.Int64.{IsNonneg}
use simdhttp.Http1.Body.Client.{read_more, read_all, IsBuffer}
use simdhttp.Http1.Body.Rounds.{Delivers, served, ended}
use simdhttp.Http1.Body.Serve.{read-Delivers}
use simdhttp.Http1.Body.Wire.{
  Chunk, IsChunk, chunk_bytes, contents, Tail, tail_bytes, IsTail, at_header, Pending,
}
use simdhttp.Http1.Body.{Outcome, read}
use simdhttp.Http1.Conn.{Conn}
use simdhttp.Http1.Errors.{eof}
use simdhttp.Http1.Framing.{chunked_body}
use simdhttp.Http1.Reader.{BodyReader, Limits, new_body_reader}

-- The whole body, then the end, with the connection at the next request and the trailers kept.
pub record IsWhole (t : Tail) (body : Bytes) (r : Outcome) : Type 0 where
  pub all_served : r.1 ≡ body
  pub at_end : r.2 ≡ some eof
  pub next_untouched : r.0.conn.bytes ≡ t.next
  pub trailers_kept : r.0.trailers ≡ t.fields

read_more-IsWhole :
    (t : Tail) (body : Bytes) (ks : List ℕ) (r : Outcome)
    → Delivers t body r
    → ((b : BodyReader) (rest : Bytes)
        → Pending t b rest
        → length rest < length body
        → IsWhole t rest (read_all ks b))
    → IsWhole t body (read_more (read_all ks) r)
read_more-IsWhole t body ks _ (served {b} x xs rest joined pending) ih =
    let w = ih b rest pending (omega (arith, ap length joined ∙ length-append (x ∷ xs) rest)) in
    record {
      all_served = ap (λ (m : Bytes). (x ∷ xs) ++ m) w.all_served ∙ sym joined;
      at_end = w.at_end;
      next_untouched = w.next_untouched;
      trailers_kept = w.trailers_kept;
    }
read_more-IsWhole t body ks _ (ended empty err next kept) ih = record {
  all_served = sym empty;
  at_end = refl;
  next_untouched = next;
  trailers_kept = kept;
}

pub read_all-IsWhole :
    (ks : List ℕ) (t : Tail) (b : BodyReader) (body : Bytes)
    → All IsBuffer ks
    → length body < length ks
    → Pending t b body
    → IsWhole t body (read_all ks b)
unfolding read_all
read_all-IsWhole [] t b body bufs enough p = absurd (omega arith)
read_all-IsWhole (k ∷ ks) t b body (buf, bufs) enough p =
    read_more-IsWhole t body ks (read k b) (read-Delivers k t b body buf.0 buf.1 p)
      λ b' rest p' shorter. read_all-IsWhole ks t b' rest bufs (omega arith) p'

-- A connection at a chunked body within the limits.
pub record HoldsChunks (c : Conn) (lim : Limits) (cs : List Chunk) (t : Tail) : Type 0 where
  pub has_buffer : 0 < c.buf_size
  pub limit_nonneg : IsNonneg lim.max_body_size
  pub are_chunks : All (IsChunk lim) cs
  pub is_tail : IsTail lim t
  pub in_budget : length (contents cs) ≤ lim.max_body_size
  pub stream : c.bytes ≡ chunk_bytes cs (tail_bytes t)

-- A well-formed chunked body within the limits is served whole, in order and exactly once, then
-- `io.EOF` comes, the trailers are kept, and the bytes behind the body are still on the connection:
-- for every split into chunks, every schedule of the connection, every size of its buffer, and
-- every sequence of non-empty read buffers that is longer than the body.
pub read_all-chunked :
    (ks : List ℕ) (c : Conn) (lim : Limits) (cs : List Chunk) (t : Tail)
    → All IsBuffer ks
    → length (contents cs) < length ks
    → HoldsChunks c lim cs t
    → IsWhole t (contents cs) (read_all ks (new_body_reader c chunked_body lim))
unfolding new_body_reader
read_all-chunked ks c lim cs t bufs enough h =
    read_all-IsWhole ks t _ (contents cs) bufs enough (record {
      is_open = record {
        is_chunked = refl;
        no_error = refl;
        has_buffer = h.has_buffer;
        is_tail = h.is_tail;
        limit_nonneg = h.limit_nonneg;
        in_budget = omega (arith, h.in_budget);
      };
      place = at_header cs h.are_chunks refl h.stream refl;
    })
