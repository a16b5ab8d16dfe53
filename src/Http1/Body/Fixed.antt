-- ===== src/Http1/Body/Fixed.antt =====
-- `Read` on a body of a fixed length, under every schedule of the connection.
use simdhttp.Common.{
  ℕ, ◌+◌, ◌-◌, ◌<◌, ◌≤◌, ◌≡◌, inl, inr, refl, ◌∙◌, true, false, none, some, [], ◌∷◌, ◌++◌, arith,
  ltb, ◌==◌, Bytes, length, Bool-cases,
}
use simdhttp.Common.Int64.{IsNonneg, add64, sub64, lt64, add64-eq-add, sub64-eq-sub, lt64-ltb}
use simdhttp.Http1.Body.Chunked.{clip_bounds}
use simdhttp.Http1.Body.{Outcome, fixed_round, fixed_read, fixed_switch, take_in, clip}
use simdhttp.Http1.Conn.{Conn, conn_read}
use simdhttp.Http1.Errors.{eof, unexpected_eof}
use simdhttp.Http1.Framing.{kind_fixed}
use simdhttp.Http1.Reader.{BodyReader}

-- A reader of a fixed length that still owes `n` bytes, on a stream that the peer closes.
pub record Owes (b : BodyReader) (n : ℕ) : Type 0 where
  pub is_fixed : b.kind ≡ kind_fixed
  pub no_error : b.err ≡ none
  pub is_remain : b.remain ≡ n
  pub limit_nonneg : IsNonneg b.lim.max_body_size
  pub in_budget : b.served + n ≤ b.lim.max_body_size
  pub closes : b.conn.ending ≡ eof

-- What one `Read` answers: some of the bytes owed; the end; the last bytes with the end; or what
-- there is of a body that was cut short, with `io.ErrUnexpectedEOF`.
pub data Hands (n : ℕ) (bytes : Bytes) : Outcome → Type 0 where
  served :
      {b : BodyReader} (x : ℕ) (xs : Bytes)
      → bytes ≡ (x ∷ xs) ++ b.conn.bytes
      → length (x ∷ xs) ≤ n
      → Owes b (n - length (x ∷ xs))
      → Hands n bytes (b, x ∷ xs, none)
  ended :
      {b : BodyReader}
      → n ≡ 0
      → b.err ≡ some eof
      → b.conn.bytes ≡ bytes
      → Hands n bytes (b, [], some eof)
  last :
      {b : BodyReader} {got : Bytes}
      → bytes ≡ got
      → length got ≡ n
      → b.err ≡ some eof
      → b.conn.bytes ≡ []
      → Hands n bytes (b, got, some eof)
  cut :
      {b : BodyReader} {got : Bytes}
      → bytes ≡ got
      → length got < n
      → b.err ≡ some unexpected_eof
      → Hands n bytes (b, got, some unexpected_eof)

-- The reader after `m` more bytes.
abbrev pub after : BodyReader → Bytes → Conn → BodyReader
after b got c = record (take_in b got c) { remain = sub64 b.remain (length got) }

pub after-Owes :
    (b : BodyReader) (n : ℕ) (got : Bytes) (c : Conn)
    → Owes b n
    → length got ≤ n
    → c.ending ≡ eof
    → Owes (after b got c) (n - length got)
after-Owes b n got c o fits closes =
    let added : add64 b.served (length got) ≡ b.served + length got =
      add64-eq-add b.served (length got) (omega (arith, o.limit_nonneg, o.in_budget)) in
    record {
      is_fixed = o.is_fixed;
      no_error = o.no_error;
      is_remain =
          rw o.is_remain
            (sub64-eq-sub n (length got) (omega (arith, o.limit_nonneg, o.in_budget)) fits);
      limit_nonneg = o.limit_nonneg;
      in_budget = omega (arith, o.in_budget);
      closes = closes;
    }

-- The guards of `readFixed` let a reader that owes bytes through, to a request within its debt.
abbrev pub request : ℕ → BodyReader → ℕ
request k b = clip b.remain (clip (sub64 b.lim.max_body_size b.served) k)

pub fixed_round_open :
    (again : ℕ → BodyReader → Outcome) (k n : ℕ) (b : BodyReader)
    → 0 < n
    → Owes b n
    → fixed_round again k b ≡ fixed_read again (request k b) b (conn_read (request k b) b.conn)
fixed_round_open again k n b pos o =
    let owing : (b.remain == 0) ≡ false = ground (arith, o.is_remain) in
    let under : lt64 b.served b.lim.max_body_size ≡ true =
      lt64-ltb b.served b.lim.max_body_size (omega (arith, o.limit_nonneg, o.in_budget))
        o.limit_nonneg
      ∙ ground (arith, o.in_budget) in
    rw (owing, under) refl

pub request_bounds :
    (k n : ℕ) (b : BodyReader)
    → 0 < k
    → IsNonneg k
    → 0 < n
    → Owes b n
    → (0 < request k b) × (request k b ≤ n) × IsNonneg (request k b)
request_bounds k n b pos is_int owed o =
    let room : sub64 b.lim.max_body_size b.served ≡ b.lim.max_body_size - b.served =
      sub64-eq-sub b.lim.max_body_size b.served o.limit_nonneg (omega (arith, o.in_budget)) in
    let first =
      clip_bounds (sub64 b.lim.max_body_size b.served) k (omega (arith, o.limit_nonneg)) is_int in
    let second =
      clip_bounds b.remain (clip (sub64 b.lim.max_body_size b.served) k)
        (omega (arith, o.is_remain, o.limit_nonneg, o.in_budget)) (omega (arith, first.1)) in
    (
      second.2 (omega (arith, o.is_remain)) (first.2 (omega (arith, o.in_budget)) pos),
      omega (arith, second.0, o.is_remain),
      omega (arith, second.1, first.1),
    )

module _ (again : ℕ → BodyReader → Outcome) (k n : ℕ) (b : BodyReader) (pos : 0 < n)
    (o : Owes b n) where
  pub switch_served :
      (got : Bytes) (c : Conn)
      → c.ending ≡ eof
      → length got ≤ n
      → b.conn.bytes ≡ got ++ c.bytes
      → (got ≡ [] → Hands n b.conn.bytes (again k (after b got c)))
      → Hands n b.conn.bytes (fixed_switch again k got none (after b got c))
  switch_served [] c closes fits joined more =
      let owes = after-Owes b n [] c o fits closes in
      let owing : ((after b [] c).remain == 0) ≡ false = ground (arith, owes.is_remain) in
      rw owing (more refl)
  switch_served (x ∷ xs) c closes fits joined more =
      let hands : Hands n b.conn.bytes (after b (x ∷ xs) c, x ∷ xs, none) =
        served x xs joined fits (after-Owes b n (x ∷ xs) c o fits closes) in
      elim (Bool-cases ((after b (x ∷ xs) c).remain == 0)) [
        | inl e ↦ rw e hands
        | inr e ↦ rw e hands
      ]

  pub switch_closed :
      (got : Bytes) (c : Conn)
      → c.ending ≡ eof
      → length got ≤ n
      → b.conn.bytes ≡ got
      → c.bytes ≡ []
      → Hands n b.conn.bytes (fixed_switch again k got (some eof) (after b got c))
  switch_closed got c closes fits joined empty =
      let owes = after-Owes b n got c o fits closes in
      let small : lt64 0 (after b got c).remain ≡ ltb 0 (after b got c).remain =
        lt64-ltb 0 (after b got c).remain (omega arith)
          (omega (arith, owes.is_remain, o.limit_nonneg, o.in_budget)) in
      elim (Bool-cases (ltb 0 (after b got c).remain)) [
        | inl e ↦ rw (small, e) (cut joined (ground (arith, owes.is_remain)) refl)
        | inr e ↦ rw (small, e) (last joined (ground (arith, owes.is_remain)) refl empty)
      ]
