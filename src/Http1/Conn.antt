-- ===== src/Http1/Conn.antt =====
-- The part of bufio.Reader and io.ReadFull that http1/body.go calls, over the bytes that the peer
-- still sends. `grants` is the schedule of the connection: how many bytes each `Read` may hand out,
-- and whether the error at the end of the stream comes with the last bytes or after them.
pub mod Slices
pub mod Grants
use simdhttp.Common.{
  ℕ, zero, suc, ◌+◌, ◌≤◌, min, Bool, true, false, ◌&&◌, Option, none, some, List, [], ◌∷◌, ◌==◌,
  if◌then◌else◌, Bytes, length, take, drop, is_empty,
}
use simdhttp.Http1.Errors.{Error}

pub record Conn : Type 0 where
  pub bytes : Bytes
  pub grants : List (ℕ × Bool)
  pub ending : Error
  pub buf_size : ℕ

-- The bytes read, the error, and the connection after the call.
abbrev pub Readout : Type 0
Readout = Bytes × Option Error × Conn

abbrev pub hand_out : ℕ → Bool → Conn → Readout
hand_out m with_error c =
    let rest = drop m c.bytes in
    (
      take m c.bytes,
      if with_error && is_empty rest then some c.ending else none,
      record c { bytes = rest },
    )

-- `br.Read(p)` for a `p` of `k` bytes. A grant of 0 is a `Read` that returns (0, nil).
abbrev pub deliver : ℕ → Bytes → List (ℕ × Bool) → Conn → Readout
deliver k [] gs c = ([], some c.ending, c)
deliver k (b ∷ bs) [] c = hand_out k false c
deliver k (b ∷ bs) ((g, with_error) ∷ gs) c =
    hand_out (min g k) with_error (record c { grants = gs })

unfoldable pub conn_read : ℕ → Conn → Readout
conn_read k c = deliver k c.bytes c.grants c

-- How `ReadSlice` ended: at the delimiter, with a full buffer, or with the stream.
pub data SliceEnd : Type 0 where
  found full ended : SliceEnd

abbrev pub slice_cons : ℕ → Bytes × SliceEnd × Bytes → Bytes × SliceEnd × Bytes
slice_cons b (frag, end, rest) = (b ∷ frag, end, rest)

-- `n` is the room left in the buffer.
unfoldable pub scan_slice : ℕ → Bytes → Bytes × SliceEnd × Bytes
scan_slice n [] = ([], ended, [])
scan_slice zero (b ∷ bs) = ([], full, b ∷ bs)
scan_slice (suc n) (b ∷ bs) =
    let more = scan_slice n bs in if b == b'\n' then (b ∷ [], found, bs) else slice_cons b more

-- `br.ReadSlice('\n')`
unfoldable pub read_slice : Conn → Bytes × SliceEnd × Conn
read_slice c =
    let (frag, end, rest) = scan_slice c.buf_size c.bytes in (frag, end, record c { bytes = rest })

-- `io.ReadFull(br, buf)` for two bytes. It calls `Read` until it has them, so the schedule does not
-- show; with less, it returns what there is and an error.
unfoldable pub read_two : Conn → Bytes × Conn
read_two c = (take 2 c.bytes, record c { bytes = drop 2 c.bytes })
