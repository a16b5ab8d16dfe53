-- ===== src/Http1/Lines/Verdict.antt =====
-- What `readLine` returns, and what it takes off the connection.
use simdhttp.Common.{
  ℕ, suc, ◌+◌, ◌<◌, ◌≤◌, ◌≡◌, refl, sym, ap, ◌∙◌, true, false, some, [], ◌∷◌, ◌++◌, append_assoc,
  arith, ltb, ◌==◌, Bytes, length, length-append,
}
use mathlib.Core.Path.{ap₂}
use simdhttp.Http1.Conn.Slices.{first_line}
use simdhttp.Http1.Errors.{ok}
use simdhttp.Http1.Lines.Spec.{judge, Reads, line_loop-Reads, advance}
use simdhttp.Http1.Lines.{Line, read_line, cut_cr}
use simdhttp.Http1.Reader.{BodyReader}

-- The verdict by the first line feed of the stream alone: a line of at most `limit` + 2 bytes with
-- its line feed is returned; a longer one, or a longer stream with no line feed, is too long; any
-- other stream with no line feed is truncated.
abbrev pub line_verdict : ℕ → Bytes → Line
line_verdict limit bytes = judge limit [] bytes (first_line bytes)

pub read_line-Reads :
    (limit : ℕ) (b : BodyReader)
    → 0 < b.conn.buf_size
    → Reads limit [] b.conn.bytes b (read_line limit b)
unfolding read_line
read_line-Reads limit b pos =
    line_loop-Reads (suc (length b.conn.bytes)) limit [] b.conn.bytes b refl pos (omega arith)

-- Whatever the size of the connection's buffer and the fragments it hands out, `readLine` returns
-- the verdict on the stream, and it has taken a front of the stream, counted in `consumed`.
pub read_line-verdict :
    (limit : ℕ) (b : BodyReader)
    → 0 < b.conn.buf_size
    → ((read_line limit b).1 ≡ line_verdict limit b.conn.bytes)
      × ((taken : Bytes) × (rest : Bytes) × (b.conn.bytes ≡ taken ++ rest)
          × ((read_line limit b).0 ≡ advance (length taken) rest b))
read_line-verdict limit b pos =
    let (taken, rest, joined, moved, verdict, last) = read_line-Reads limit b pos in
    (verdict, (taken, rest, joined, moved))

-- No line feed.
abbrev pub HasNoLf : Bytes → Type 0
HasNoLf [] = Unit
HasNoLf (b ∷ bs) = ((b == b'\n') ≡ false) × HasNoLf bs

first_line-append : (l rest : Bytes) → HasNoLf l → first_line (l ++ (b'\n' ∷ rest)) ≡ some l
unfolding first_line
first_line-append [] rest h = refl
first_line-append (b ∷ l) rest (hb, h) = rw (hb, first_line-append l rest h)

append_cancel : (l a b : Bytes) → l ++ a ≡ l ++ b → a ≡ b
append_cancel [] a b e = e
append_cancel (x ∷ l) a b e = append_cancel l a b (cc)

pub pair_path :
    {A B : Type 0} {a a' : A} {b b' : B} → a ≡ a' → b ≡ b' → ◌≡◌ {A = A × B} (a, b) (a', b')
pair_path p q = λ i. (p i, q i)

-- A line within the limit is cut by `cut_cr`, and just that line is taken.
pub read_line_lem :
    (limit : ℕ) (b : BodyReader) (l rest : Bytes)
    → 0 < b.conn.buf_size
    → HasNoLf l
    → length l ≤ limit + 1
    → b.conn.bytes ≡ l ++ (b'\n' ∷ rest)
    → read_line limit b ≡ (advance (suc (length l)) rest b, ok (cut_cr l))
read_line_lem limit b l rest pos clean short stream =
    let (taken, rest', joined, moved, verdict, last) = read_line-Reads limit b pos in
    let first : first_line b.conn.bytes ≡ some l =
      ap first_line stream ∙ first_line-append l rest clean in
    let small : ltb (limit + 2) (0 + suc (length l)) ≡ false = ground arith in
    let took : taken ≡ l ++ (b'\n' ∷ []) = last l first small in
    let left : rest' ≡ rest = append_cancel (l ++ (b'\n' ∷ [])) rest' rest (
      ap (λ (t : Bytes). t ++ rest') (sym took)
      ∙ sym joined
      ∙ stream
      ∙ sym (append_assoc l (b'\n' ∷ []) rest)) in
    let long : length taken ≡ suc (length l) =
      ap length took ∙ length-append l (b'\n' ∷ []) ∙ omega arith in
    pair_path (moved ∙ ap₂ (λ n r. advance n r b) long left) (verdict ∙ rw first (rw small refl))

cut_cr-append : (l : Bytes) → cut_cr (l ++ (b'\r' ∷ [])) ≡ (l, true)
unfolding cut_cr
cut_cr-append [] = refl
cut_cr-append (c ∷ []) = refl
cut_cr-append (c ∷ d ∷ cs) = rw (cut_cr-append (d ∷ cs)) refl

pub HasNoLf-append : (l m : Bytes) → HasNoLf l → HasNoLf m → HasNoLf (l ++ m)
HasNoLf-append [] m hl hm = hm
HasNoLf-append (c ∷ l) m (hc, hl) hm = (hc, HasNoLf-append l m hl hm)

abbrev pub crlf : Bytes → Bytes
crlf rest = b'\r' ∷ b'\n' ∷ rest

-- A line of at most `limit` bytes that has no line feed and ends in CRLF is returned without the
-- CRLF, as terminated by it, and just the line with its CRLF is taken off the connection, whatever
-- the size of the connection's buffer and the fragments it hands out.
pub read_line-crlf :
    (limit : ℕ) (b : BodyReader) (l rest : Bytes)
    → 0 < b.conn.buf_size
    → HasNoLf l
    → length l ≤ limit
    → b.conn.bytes ≡ l ++ crlf rest
    → read_line limit b ≡ (advance (length l + 2) rest b, ok (l, true))
read_line-crlf limit b l rest pos clean short stream =
    let l' = l ++ (b'\r' ∷ []) in
    let long : length l' ≡ length l + 1 = length-append l (b'\r' ∷ []) in
    read_line_lem limit b l' rest pos (HasNoLf-append l (b'\r' ∷ []) clean (refl, tt)) (omega arith)
      (stream ∙ sym (append_assoc l (b'\r' ∷ []) (b'\n' ∷ rest)))
    ∙ pair_path (ap (λ n. advance n rest b) (omega arith)) (ap ok (cut_cr-append l))
