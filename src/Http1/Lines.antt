-- ===== src/Http1/Lines.antt =====
-- `readLine` of http1/body.go.
pub mod Spec
pub mod Verdict
use simdhttp.Common.{
  ℕ, zero, suc, ◌+◌, Bool, true, false, List, [], ◌∷◌, ◌++◌, ltb, ◌==◌, if◌then◌else◌, Bytes,
  length,
}
use simdhttp.Common.Int64.{add64}
use simdhttp.Http1.Conn.{Conn, SliceEnd, found, full, ended, read_slice}
use simdhttp.Http1.Errors.{Result, ok, err, line_too_long, unexpected_eof, stuck}
use simdhttp.Http1.Reader.{BodyReader}

-- `b.line[:len(b.line)-1]`
abbrev pub drop_last : Bytes → Bytes
drop_last [] = []
drop_last (c ∷ []) = []
drop_last (c ∷ d ∷ cs) = c ∷ drop_last (d ∷ cs)

abbrev pub keep_byte : ℕ → Bytes × Bool → Bytes × Bool
keep_byte c (line, crlf) = (c ∷ line, crlf)

-- A carriage return at the end goes, and is reported.
unfoldable pub cut_cr : Bytes → Bytes × Bool
cut_cr [] = ([], false)
cut_cr (c ∷ []) = if c == b'\r' then ([], true) else (c ∷ [], false)
cut_cr (c ∷ d ∷ cs) = keep_byte c (cut_cr (d ∷ cs))

abbrev pub Line : Type 0
Line = Result (Bytes × Bool)

-- What the loop does with a fragment: `again` is its next round, on the line so far.
abbrev pub line_next :
    (Bytes → BodyReader → BodyReader × Line) → SliceEnd → Bytes → BodyReader → BodyReader × Line
line_next again full line b = again line b
line_next again ended line b = (b, err unexpected_eof)
line_next again found line b = (b, ok (cut_cr (drop_last line)))

abbrev pub line_round :
    (Bytes → BodyReader → BodyReader × Line) → ℕ → Bytes → BodyReader → BodyReader × Line
line_round again limit line b =
    let (frag, end, c) = read_slice b.conn in
    let b' = record b { conn = c; consumed = add64 b.consumed (length frag) } in
    if ltb (limit + 2) (length line + length frag)
    then (b', err line_too_long)
    else line_next again end (line ++ frag) b'

unfoldable pub line_loop : ℕ → ℕ → Bytes → BodyReader → BodyReader × Line
line_loop zero limit line b = (b, err stuck)
line_loop (suc fuel) limit line b = line_round (line_loop fuel limit) limit line b

-- A round without the delimiter takes a whole buffer, so the bytes that are left bound the rounds.
unfoldable pub read_line : ℕ → BodyReader → BodyReader × Line
read_line limit b = line_loop (suc (length b.conn.bytes)) limit [] b
