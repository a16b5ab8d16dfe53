-- ===== src/Http1/Body/Chunked.antt =====
-- `Read` on a well-formed chunked body, under every schedule of the connection.
use simdhttp.Common.{
  ℕ, suc, ◌+◌, ◌*◌, ◌<◌, ◌≤◌, ◌≡◌, inl, inr, refl, sym, ap, ◌∙◌, subst, none, List, [], ◌∷◌, ◌++◌,
  append_assoc, arith, Bytes, length, length-append, take, drop, take-append-drop, length-take,
  length-drop, All,
}
use simdhttp.Common.Int64.{IsNonneg, add64, sub64, add64-eq-add, sub64-eq-sub, lt64-ltb}
use simdhttp.Http1.Body.Rounds.{Delivers, served, read_chunked_at}
use simdhttp.Http1.Body.Wire.{
  Chunk, IsChunk, chunk_bytes, contents, Tail, tail_bytes, IsOpen, Place, at_data, at_crlf, Pending,
}
use simdhttp.Http1.Body.{Outcome, read_chunked, data_read, data_next, close_chunk, take_in, clip}
use simdhttp.Http1.Conn.Grants.{conn_read-Handed}
use simdhttp.Http1.Conn.{Conn, conn_read}
use simdhttp.Http1.Lines.Verdict.{crlf}
use simdhttp.Http1.Reader.{BodyReader, cs_data}

pub clip_bounds :
    (n k : ℕ)
    → IsNonneg n
    → IsNonneg k
    → (clip n k ≤ n) × (clip n k ≤ k) × (0 < n → 0 < k → 0 < clip n k)
clip_bounds n k hn hk = rw (lt64-ltb n k hn hk) (ground arith, ground arith, λ pn pk. ground arith)

-- The end of a chunk is seen as soon as its last byte is served.
close_chunk-Place :
    (t : Tail) (b : BodyReader) (part : Bytes) (cs : List Chunk) (body : Bytes)
    → All (IsChunk b.lim) cs
    → b.state ≡ cs_data
    → b.chunk_remain ≡ length part
    → b.conn.bytes ≡ part ++ crlf (chunk_bytes cs (tail_bytes t))
    → body ≡ part ++ contents cs
    → Place t (close_chunk b) body
close_chunk-Place t b [] cs body all state remain stream is =
    at_crlf cs all (ground arith) stream is
close_chunk-Place t b (x ∷ xs) cs body all state remain stream is =
    at_data (x ∷ xs) cs all (ground arith) remain (omega arith) stream is

-- The reader after `m` bytes of the part.
abbrev after : BodyReader → Bytes → ℕ → Conn → BodyReader
after b part m c = close_chunk (record (take_in b (take m part) c) {
  chunk_remain = sub64 b.chunk_remain (length (take m part));
})

module _ (t : Tail) (b : BodyReader) (part body : Bytes) (cs : List Chunk) (m : ℕ) (c : Conn)
    (o : IsOpen t b body) (all : All (IsChunk b.lim) cs) (state : b.state ≡ cs_data)
    (remain : b.chunk_remain ≡ length part) (is : body ≡ part ++ contents cs)
    (fits : m ≤ length part)
    (stream : c.bytes ≡ drop m part ++ crlf (chunk_bytes cs (tail_bytes t)))
    (buffer : c.buf_size ≡ b.conn.buf_size) where
  split : body ≡ take m part ++ (drop m part ++ contents cs)
  split =
      is
      ∙ ap (λ (p : Bytes). p ++ contents cs) (sym (take-append-drop m part))
      ∙ append_assoc (take m part) (drop m part) (contents cs)

  sizes :
      (length (take m part) ≡ m)
      × (length (drop m part) + m ≡ length part)
      × (length (drop m part ++ contents cs) + m ≡ length body)
  sizes =
      let got : length (take m part) ≡ m = length-take m part ∙ omega arith in
      let left = length-drop m part in
      let whole = ap length split in
      let joined = length-append (take m part) (drop m part ++ contents cs) in
      (got, omega arith, omega arith)

  after-Pending : Pending t (after b part m c) (drop m part ++ contents cs)
  after-Pending =
      let (got, left, rest) = sizes in
      let added : add64 b.served (length (take m part)) ≡ b.served + length (take m part) =
        add64-eq-add b.served (length (take m part)) (omega (arith, o.limit_nonneg, o.in_budget)) in
      let owed : sub64 b.chunk_remain (length (take m part)) ≡ length (drop m part) =
        sub64-eq-sub b.chunk_remain (length (take m part))
          (omega (arith, o.limit_nonneg, o.in_budget, length-append (drop m part) (contents cs)))
          (omega arith)
        ∙ omega arith in
      record {
        is_open = record {
          is_chunked = o.is_chunked;
          no_error = o.no_error;
          has_buffer = rw buffer o.has_buffer;
          is_tail = o.is_tail;
          limit_nonneg = o.limit_nonneg;
          in_budget = omega (arith, o.in_budget);
        };
        place =
            close_chunk-Place t _ (drop m part) cs (drop m part ++ contents cs) all state owed
              stream refl;
      }

-- What the bytes in hand make of the next call.
data_next-Delivers :
    (t : Tail) (again : BodyReader → Outcome) (body : Bytes) (b : BodyReader) (got rest : Bytes)
    → body ≡ got ++ rest
    → Pending t b rest
    → (length got ≡ 0 → Delivers t rest (again b))
    → Delivers t body (data_next again got none b)
data_next-Delivers t again body b [] rest joined pending more =
    subst (λ x. Delivers t x (again b)) (sym joined) (more refl)
data_next-Delivers t again body b (x ∷ xs) rest joined pending more =
    served x xs rest joined pending

nonempty_end : (p : Bytes) (rest : Bytes) → p ++ crlf rest ≡ [] → ⊥
nonempty_end [] rest e = cc
nonempty_end (x ∷ p) rest e = cc

-- What is left of the stream and the schedule bounds the rounds.
abbrev pub work : BodyReader → ℕ
work b = 2 * length b.conn.bytes + length b.conn.grants

pub data_round :
    (f k : ℕ) (t : Tail) (b : BodyReader) (body part : Bytes) (cs : List Chunk)
    → 0 < k
    → IsNonneg k
    → IsOpen t b body
    → All (IsChunk b.lim) cs
    → b.state ≡ cs_data
    → b.chunk_remain ≡ length part
    → 0 < length part
    → b.conn.bytes ≡ part ++ crlf (chunk_bytes cs (tail_bytes t))
    → body ≡ part ++ contents cs
    → ((b' : BodyReader) (body' : Bytes)
        → Pending t b' body'
        → work b' < work b
        → Delivers t body' (read_chunked f k b'))
    → Delivers t body (read_chunked (suc f) k b)
data_round f k t b body part cs pos is_int o all state remain some_left stream is ih =
    let more = crlf (chunk_bytes cs (tail_bytes t)) in
    let k' = clip b.chunk_remain k in
    let long : length body ≡ length part + length (contents cs) =
      ap length is ∙ length-append part (contents cs) in
    let bounds = clip_bounds b.chunk_remain k (omega (arith, o.limit_nonneg, o.in_budget)) is_int in
    let h =
      conn_read-Handed b.conn part more k' stream (bounds.2 (omega arith) pos)
        (omega (arith, bounds.0)) in
    let no_error : h.error ≡ none = elim h.error_at_end [
      | inl e ↦ e
      | inr (e, done, _) ↦ absurd (nonempty_end (drop h.m part) _ done)
    ] in
    let c : Conn = record b.conn { bytes = drop h.m part ++ more; grants = h.gs } in
    let readout : conn_read k' b.conn ≡ (take h.m part, none, c) =
      h.outcome ∙ ap (λ e. (take h.m part, e, c)) no_error in
    let first = read_chunked_at f k b cs_data state ∙ ap (data_read (read_chunked f k) b) readout in
    let pending =
      after-Pending t b part body cs h.m c o all state remain is h.within_part refl refl in
    let (got, left, rest) =
      sizes t b part body cs h.m c o all state remain is h.within_part refl refl in
    let before : length b.conn.bytes ≡ length part + length more =
      ap length stream ∙ length-append part more in
    subst (Delivers t body) (sym first) (
      data_next-Delivers t (read_chunked f k) body (after b part h.m c) (take h.m part)
        (drop h.m part ++ contents cs)
        (split t b part body cs h.m c o all state remain is h.within_part refl refl) pending
        λ stuck_read.
          ih (after b part h.m c) (drop h.m part ++ contents cs) pending
            (omega (arith, h.progress, length-append (drop h.m part) more)))
