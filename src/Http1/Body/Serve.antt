-- ===== src/Http1/Body/Serve.antt =====
-- `Read` of the body reader serves a chunked body, and leaves the next request alone.
use simdhttp.Common.{
  ℕ, zero, suc, ◌+◌, ◌<◌, ◌≤◌, ◌≡◌, refl, sym, ap, ◌∙◌, subst, List, [], ◌∷◌, ◌++◌, arith, Bytes,
  length, length-append, All,
}
use simdhttp.Common.Int64.{IsNonneg}
use simdhttp.Http1.Body.Chunked.{work, data_round}
use simdhttp.Http1.Body.Rounds.{Delivers, read_chunked_at, header_admitted, last_rounds}
use simdhttp.Http1.Body.Wire.{
  Chunk, IsChunk, chunk_bytes, contents, Tail, tail_bytes, IsOpen, Place, at_header, at_data,
  at_crlf, Pending,
}
use simdhttp.Http1.Body.{
  Outcome, read_chunked, read, header_next, step_next, read_kind, read_unless,
}
use simdhttp.Http1.Chunks.Section.{expect_crlf_lem}
use simdhttp.Http1.Errors.{ok}
use simdhttp.Http1.Lines.Spec.{advance}
use simdhttp.Http1.Lines.Verdict.{crlf}
use simdhttp.Http1.Reader.{BodyReader, ChunkState, cs_header, cs_data, cs_data_crlf}

-- Bytes of framing that are taken leave what is still to be served as it was.
IsOpen-advance :
    (t : Tail) (b : BodyReader) (body : Bytes) (n r : ℕ) (rest : Bytes) (s : ChunkState)
    → IsOpen t b body
    → IsOpen t (record (advance n rest b) { chunk_remain = r; state = s }) body
IsOpen-advance t b body n r rest s o = record {
  is_chunked = o.is_chunked;
  no_error = o.no_error;
  has_buffer = o.has_buffer;
  is_tail = o.is_tail;
  limit_nonneg = o.limit_nonneg;
  in_budget = o.in_budget;
}

header_next_pos :
    (again : BodyReader → Outcome) (b : BodyReader) (n : ℕ)
    → 0 < n
    → header_next again (b, ok n) ≡ again (record b { chunk_remain = n; state = cs_data })
header_next_pos again b zero h = absurd (omega arith)
header_next_pos again b (suc n) h = refl

-- The two rounds that take framing bytes only: each gets to a later place with less to do.
header_round :
    (f k : ℕ) (t : Tail) (b : BodyReader) (body : Bytes) (c : Chunk) (cs : List Chunk)
    → IsOpen t b body
    → All (IsChunk b.lim) (c ∷ cs)
    → b.state ≡ cs_header
    → b.conn.bytes ≡ chunk_bytes (c ∷ cs) (tail_bytes t)
    → body ≡ contents (c ∷ cs)
    → ((b' : BodyReader)
        → Pending t b' body
        → work b' < work b
        → Delivers t body (read_chunked f k b'))
    → Delivers t body (read_chunked (suc f) k b)
header_round f k t b body c cs o (is, all) state stream joined ih =
    let n : ℕ = length c.content in
    let rest = c.content ++ crlf (chunk_bytes cs (tail_bytes t)) in
    let b1 : BodyReader = record (advance (length c.line + 2) rest b) {
      chunk_remain = n;
      state = cs_data;
    } in
    let fits : n ≤ length body =
      omega (arith, ap length joined, length-append c.content (contents cs)) in
    let first : read_chunked (suc f) k b ≡ read_chunked f k b1 =
      read_chunked_at f k b cs_header state
      ∙ ap (header_next (read_chunked f k))
          (header_admitted t b body c.line rest n o is.is_size fits stream)
      ∙ header_next_pos (read_chunked f k) (advance (length c.line + 2) rest b) n is.not_empty in
    let before = ap length stream ∙ length-append c.line (crlf rest) in
    let pending : Pending t b1 body = record {
      is_open = IsOpen-advance t b body (length c.line + 2) n rest cs_data o;
      place = at_data c.content cs all refl refl is.not_empty refl joined;
    } in
    subst (Delivers t body) (sym first) (ih b1 pending (omega arith))

crlf_round :
    (f k : ℕ) (t : Tail) (b : BodyReader) (body : Bytes) (cs : List Chunk)
    → IsOpen t b body
    → All (IsChunk b.lim) cs
    → b.state ≡ cs_data_crlf
    → b.conn.bytes ≡ crlf (chunk_bytes cs (tail_bytes t))
    → body ≡ contents cs
    → ((b' : BodyReader)
        → Pending t b' body
        → work b' < work b
        → Delivers t body (read_chunked f k b'))
    → Delivers t body (read_chunked (suc f) k b)
crlf_round f k t b body cs o all state stream joined ih =
    let rest = chunk_bytes cs (tail_bytes t) in
    let b1 : BodyReader = record (advance 2 rest b) { state = cs_header } in
    let first : read_chunked (suc f) k b ≡ read_chunked f k b1 =
      read_chunked_at f k b cs_data_crlf state
      ∙ ap (step_next (read_chunked f k) cs_header) (expect_crlf_lem b rest stream) in
    let before = ap length stream in
    let pending : Pending t b1 body = record {
      is_open = IsOpen-advance t b body 2 b.chunk_remain rest cs_header o;
      place = at_header cs all refl refl joined;
    } in
    subst (Delivers t body) (sym first) (ih b1 pending (omega arith))

-- The loop has enough rounds: `work` falls in each round that serves nothing.
rounds :
    (f k : ℕ) (t : Tail) (b : BodyReader) (body : Bytes)
    → 0 < k
    → IsNonneg k
    → IsOpen t b body
    → Place t b body
    → work b ≤ f
    → Delivers t body (read_chunked (suc (suc (suc f))) k b)
rounds f k t b body pos is_int o (at_header [] all state stream joined) enough =
    subst (λ x. Delivers t x (read_chunked (suc (suc (suc f))) k b)) (sym joined)
      (last_rounds f k t b (subst (IsOpen t b) joined o) state stream)
rounds zero k t b body pos is_int o (at_header (c ∷ cs) all state stream joined) enough =
    absurd (omega (arith, ap length stream ∙ length-append c.line _))
rounds (suc f) k t b body pos is_int o (at_header (c ∷ cs) all state stream joined) enough =
    header_round (suc (suc (suc f))) k t b body c cs o all state stream joined
      λ b' p less. rounds f k t b' body pos is_int p.is_open p.place (omega arith)
rounds zero k t b body pos is_int o (at_data part cs all state remain some_left stream is) enough =
    absurd (omega (arith, ap length stream ∙ length-append part _))
rounds (suc f) k t b body pos is_int o (at_data part cs all state remain some_left stream is)
      enough =
    data_round (suc (suc (suc f))) k t b body part cs pos is_int o all state remain some_left stream
      is λ b' body' p less. rounds f k t b' body' pos is_int p.is_open p.place (omega arith)
rounds zero k t b body pos is_int o (at_crlf cs all state stream joined) enough =
    absurd (omega (arith, ap length stream))
rounds (suc f) k t b body pos is_int o (at_crlf cs all state stream joined) enough =
    crlf_round (suc (suc (suc f))) k t b body cs o all state stream joined
      λ b' p less. rounds f k t b' body pos is_int p.is_open p.place (omega arith)

-- A `Read` into a buffer that is not empty, by a reader inside a well-formed chunked body within its
-- budget, serves at least one byte of what is left and stays inside the body, or, when nothing is
-- left, answers `io.EOF` with the trailers kept and the connection at the next request.
pub read-Delivers :
    (k : ℕ) (t : Tail) (b : BodyReader) (body : Bytes)
    → 0 < k
    → IsNonneg k
    → Pending t b body
    → Delivers t body (read k b)
unfolding read
read-Delivers zero t b body pos is_int p = absurd (omega arith)
read-Delivers (suc k) t b body pos is_int p =
    let open_kind = ap (λ e. read_unless e (suc k) b) p.is_open.no_error in
    let chunked = ap (λ s. read_kind s (suc k) b) p.is_open.is_chunked in
    subst (Delivers t body) (sym (open_kind ∙ chunked))
      (rounds (work b) (suc k) t b body pos is_int p.is_open p.place (omega arith))
