-- ===== src/Http1/Body/Rounds.antt =====
-- One round of `readChunked` on a well-formed encoding.
use simdhttp.Common.{
  ℕ, suc, ◌+◌, ◌≤◌, ◌≡◌, refl, sym, ap, ◌∙◌, subst, false, none, some, [], ◌∷◌, ◌++◌, arith, ltb,
  Bytes, length,
}
use simdhttp.Http1.Body.Wire.{Tail, tail_bytes, IsOpen, Pending}
use simdhttp.Http1.Body.{Outcome, chunk_round, read_chunked, header_next, step_next}
use simdhttp.Http1.Chunks.Budget.{AtSizeLine, read_chunk_header_within}
use simdhttp.Http1.Chunks.Header.{IsSizeLine}
use simdhttp.Http1.Chunks.Section.{read_trailers_lem, section_bytes, section_length}
use simdhttp.Http1.Chunks.{read_chunk_header}
use simdhttp.Http1.Errors.{eof, ok}
use simdhttp.Http1.Lines.Spec.{advance}
use simdhttp.Http1.Lines.Verdict.{crlf}
use simdhttp.Http1.Reader.{BodyReader, ChunkState, cs_header, cs_trailers, cs_done}

-- What one `Read` answers on `body`: some of its bytes, or the end with the connection at `t.next`.
pub data Delivers (t : Tail) (body : Bytes) : Outcome → Type 0 where
  served :
      {b : BodyReader} (x : ℕ) (xs rest : Bytes)
      → body ≡ (x ∷ xs) ++ rest
      → Pending t b rest
      → Delivers t body (b, x ∷ xs, none)
  ended :
      {b : BodyReader}
      → body ≡ []
      → b.err ≡ some eof
      → b.conn.bytes ≡ t.next
      → b.trailers ≡ t.fields
      → Delivers t body (b, [], some eof)

pub read_chunked_at :
    (fuel k : ℕ) (b : BodyReader) (s : ChunkState)
    → b.state ≡ s
    → read_chunked (suc fuel) k b ≡ chunk_round (read_chunked fuel k) k b s
unfolding read_chunked
read_chunked_at fuel k b s e = ap (chunk_round (read_chunked fuel k) k b) e

-- A size within what is left of the body passes the budget check.
pub header_admitted :
    (t : Tail) (b : BodyReader) (body line rest : Bytes) (n : ℕ)
    → IsOpen t b body
    → IsSizeLine b.lim line n
    → n ≤ length body
    → b.conn.bytes ≡ line ++ crlf rest
    → read_chunk_header b ≡ (advance (length line + 2) rest b, ok n)
header_admitted t b body line rest n o is fits stream =
    let at : AtSizeLine b line rest n = record {
      has_buffer = o.has_buffer;
      is_size = is;
      stream = stream;
      limit_nonneg = o.limit_nonneg;
      served_nonneg = omega (arith, o.limit_nonneg, o.in_budget);
    } in
    let under : ltb b.lim.max_body_size (b.served + n) ≡ false = ground (arith, o.in_budget) in
    read_chunk_header_within at (omega (arith, o.limit_nonneg, o.in_budget)) ∙ rw under refl

-- The last chunk, the trailers and the end, in three rounds.
pub last_rounds :
    (fuel k : ℕ) (t : Tail) (b : BodyReader)
    → IsOpen t b []
    → b.state ≡ cs_header
    → b.conn.bytes ≡ tail_bytes t
    → Delivers t [] (read_chunked (suc (suc (suc fuel))) k b)
last_rounds fuel k t b o state stream =
    let section = section_bytes t.trailer_lines t.next in
    let b1 : BodyReader = record (advance (length t.last_line + 2) section b) {
      state = cs_trailers;
    } in
    let b2 : BodyReader = record (advance (section_length t.trailer_lines) t.next b1) {
      trailers = t.fields;
      state = cs_done;
    } in
    let first : read_chunked (suc (suc (suc fuel))) k b ≡ read_chunked (suc (suc fuel)) k b1 =
      read_chunked_at (suc (suc fuel)) k b cs_header state
      ∙ ap (header_next (read_chunked (suc (suc fuel)) k))
          (header_admitted t b [] t.last_line section 0 o o.is_tail.is_last (omega arith) stream) in
    let second : read_chunked (suc (suc fuel)) k b1 ≡ read_chunked (suc fuel) k b2 =
      read_chunked_at (suc fuel) k b1 cs_trailers refl
      ∙ ap (step_next (read_chunked (suc fuel) k) cs_done) (
          read_trailers_lem b1 t.trailer_lines t.fields t.next o.has_buffer o.is_tail.are_trailers
            o.is_tail.few refl) in
    let third = read_chunked_at fuel k b2 cs_done refl in
    subst (Delivers t []) (sym (first ∙ second ∙ third)) (ended refl refl refl refl)
