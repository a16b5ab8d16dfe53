-- ===== src/Http1/Body.antt =====
-- `Read` and `Close` of the body reader, http1/body.go.
pub mod Wire
pub mod Rounds
pub mod Chunked
pub mod Serve
pub mod Client
pub mod Whole
pub mod Fixed
pub mod Length
pub mod WholeLength
use simdhttp.Common.{
  ℕ, zero, suc, ◌+◌, ◌*◌, Bool, true, false, not, ◌&&◌, Option, none, some, List, [], ◌∷◌, ltb,
  ◌==◌, if◌then◌else◌, Bytes, length, is_empty,
}
use simdhttp.Common.Int64.{add64, sub64, lt64}
use simdhttp.Http1.Conn.{Conn, Readout, conn_read}
use simdhttp.Http1.Errors.{
  Error, Result, ok, err, eof, unexpected_eof, body_too_large, drain_too_large, stuck,
}
use simdhttp.Http1.Framing.{Kind, kind_none, kind_fixed, kind_chunked}
use simdhttp.Http1.Reader.{
  BodyReader, ChunkState, cs_header, cs_data, cs_data_crlf, cs_trailers, cs_done,
}
use simdhttp.Http1.Chunks.{read_chunk_header, expect_crlf, read_trailers}

-- The reader after the call, the bytes put into `p`, and the error.
abbrev pub Outcome : Type 0
Outcome = BodyReader × Bytes × Option Error

-- `b.err = err; return n, err`
abbrev pub fail_with : BodyReader → Bytes → Error → Outcome
fail_with b got e = (record b { err = some e }, got, some e)

abbrev pub fail : BodyReader → Error → Outcome
fail b e = fail_with b [] e

abbrev pub is_eof : Error → Bool
is_eof eof = true
is_eof _ = false

-- `if int64(len(p)) > n { p = p[:n] }`, on the length of `p`.
abbrev pub clip : ℕ → ℕ → ℕ
clip n k = if lt64 n k then n else k

-- What `n` bytes from the connection change, whatever the framing.
abbrev pub take_in : BodyReader → Bytes → Conn → BodyReader
take_in b got c = record b {
  conn = c;
  served = add64 b.served (length got);
  consumed = add64 b.consumed (length got);
}

-- The switch at the end of `readFixed`; `again` is its call of itself, with the clipped `p`.
abbrev pub fixed_switch :
    (ℕ → BodyReader → Outcome) → ℕ → Bytes → Option Error → BodyReader → Outcome
fixed_switch again k got none b =
    if b.remain == 0 then (b, got, none) else if is_empty got then again k b else (b, got, none)
fixed_switch again k got (some e) b =
    if is_eof e && lt64 0 b.remain then fail_with b got unexpected_eof else fail_with b got e

abbrev pub fixed_read : (ℕ → BodyReader → Outcome) → ℕ → BodyReader → Readout → Outcome
fixed_read again k b (got, e, c) =
    fixed_switch again k got e (record (take_in b got c) { remain = sub64 b.remain (length got) })

abbrev pub fixed_round : (ℕ → BodyReader → Outcome) → ℕ → BodyReader → Outcome
fixed_round again k b =
    if b.remain == 0
    then fail b eof
    else if not (lt64 b.served b.lim.max_body_size)
    then fail b body_too_large
    else let k' = clip b.remain (clip (sub64 b.lim.max_body_size b.served) k) in
      fixed_read again k' b (conn_read k' b.conn)

unfoldable pub read_fixed : ℕ → ℕ → BodyReader → Outcome
read_fixed zero k b = (b, [], some stuck)
read_fixed (suc fuel) k b = fixed_round (read_fixed fuel) k b

-- The branches of `readChunked`; `again` is the next round of its loop.
abbrev pub header_next : (BodyReader → Outcome) → BodyReader × Result ℕ → Outcome
header_next again (b, err e) = fail b e
header_next again (b, ok zero) = again (record b { state = cs_trailers })
header_next again (b, ok (suc n)) = again (record b { chunk_remain = suc n; state = cs_data })

abbrev pub data_next : (BodyReader → Outcome) → Bytes → Option Error → BodyReader → Outcome
data_next again got (some e) b = fail_with b got (if is_eof e then unexpected_eof else e)
data_next again [] none b = again b
data_next again (x ∷ xs) none b = (b, x ∷ xs, none)

abbrev pub close_chunk : BodyReader → BodyReader
close_chunk b = record b { state = if b.chunk_remain == 0 then cs_data_crlf else b.state }

abbrev pub data_read : (BodyReader → Outcome) → BodyReader → Readout → Outcome
data_read again b (got, e, c) =
    data_next again got e
      (close_chunk (record (take_in b got c) { chunk_remain = sub64 b.chunk_remain (length got) }))

abbrev pub step_next : (BodyReader → Outcome) → ChunkState → BodyReader × Option Error → Outcome
step_next again s (b, some e) = fail b e
step_next again s (b, none) = again (record b { state = s })

abbrev pub chunk_round : (BodyReader → Outcome) → ℕ → BodyReader → ChunkState → Outcome
chunk_round again k b cs_header = header_next again (read_chunk_header b)
chunk_round again k b cs_data = data_read again b (conn_read (clip b.chunk_remain k) b.conn)
chunk_round again k b cs_data_crlf = step_next again cs_header (expect_crlf b)
chunk_round again k b cs_trailers = step_next again cs_done (read_trailers b)
chunk_round again k b cs_done = fail b eof

unfoldable pub read_chunked : ℕ → ℕ → BodyReader → Outcome
read_chunked zero k b = (b, [], some stuck)
read_chunked (suc fuel) k b = chunk_round (read_chunked fuel k) k b b.state

-- Rounds that serve nothing use up a grant; the others take bytes off the connection.
abbrev pub fixed_fuel : BodyReader → ℕ
fixed_fuel b = suc (length b.conn.grants)

abbrev pub chunked_fuel : BodyReader → ℕ
chunked_fuel b = suc (suc (suc (2 * length b.conn.bytes + length b.conn.grants)))

abbrev pub read_kind : Kind → ℕ → BodyReader → Outcome
read_kind kind_fixed k b = read_fixed (fixed_fuel b) k b
read_kind kind_chunked k b = read_chunked (chunked_fuel b) k b
read_kind kind_none k b = fail b eof

abbrev pub read_unless : Option Error → ℕ → BodyReader → Outcome
read_unless (some e) k b = (b, [], some e)
read_unless none k b = read_kind b.kind k b

-- `Read(p)` for a `p` of `k` bytes.
unfoldable pub read : ℕ → BodyReader → Outcome
read zero b = (b, [], none)
read (suc k) b = read_unless b.err (suc k) b

abbrev pub fail_close : BodyReader → Error → BodyReader × Option Error
fail_close b e = (record b { close_err = some e }, some e)

abbrev pub drain_next :
    (BodyReader → BodyReader × Option Error) → Option Error → BodyReader → BodyReader × Option Error
drain_next again (some e) b =
    if is_eof e then (record b { drained = true }, none) else fail_close b e
drain_next again none b = again b

abbrev pub drain_round :
    (ℕ → BodyReader → BodyReader × Option Error) → ℕ → Outcome → BodyReader × Option Error
drain_round again budget (b, got, e) =
    let left = sub64 budget (length got) in
    if lt64 left 0 then fail_close b drain_too_large else drain_next (again left) e b

-- The loop of `Close`, with 512 bytes of scratch.
unfoldable pub drain_loop : ℕ → ℕ → BodyReader → BodyReader × Option Error
drain_loop zero budget b = (b, some stuck)
drain_loop (suc fuel) budget b =
    drain_round (drain_loop fuel) budget (read (clip (add64 budget 1) 512) b)

abbrev pub close_open : Option Error → BodyReader → BodyReader × Option Error
close_open (some e) b = if is_eof e then (record b { drained = true }, none) else fail_close b e
close_open none b = drain_loop (suc (length b.conn.bytes)) b.lim.max_drain_size b

unfoldable pub close : BodyReader → BodyReader × Option Error
close b = if b.closed then (b, b.close_err) else close_open b.err (record b { closed = true })
