-- ===== src/Http1/Body/Length.antt =====
-- Reading a body of a fixed length to its end, or to the end of a stream that is cut short.
use simdhttp.Common.{
  ℕ, zero, suc, ◌<◌, ◌≤◌, ◌≡◌, ◌⊎◌, inl, inr, refl, sym, ap, ◌∙◌, subst, true, some, [], ◌∷◌, ◌++◌,
  append-nil, arith, ◌==◌, Bytes, length, length-take, take, drop, take-append-drop,
}
use simdhttp.Common.Int64.{IsNonneg}
use simdhttp.Http1.Body.Fixed.{
  Owes, Hands, ended, after, after-Owes, request, fixed_round_open, request_bounds, switch_served,
  switch_closed,
}
use simdhttp.Http1.Body.{
  Outcome, read_fixed, fixed_round, fixed_read, fixed_switch, read, read_unless, read_kind,
}
use simdhttp.Http1.Conn.Grants.{Handed, conn_read_any, conn_read_end}
use simdhttp.Http1.Conn.{Conn, conn_read}
use simdhttp.Http1.Errors.{eof}
use simdhttp.Http1.Reader.{BodyReader}

-- What the round makes of a readout; `again` is the call for a readout of no bytes.
module _ (again : ℕ → BodyReader → Outcome) (k n : ℕ) (b : BodyReader) (pos : 0 < n)
    (o : Owes b n) where
  read_at_end : b.conn.bytes ≡ [] → Hands n b.conn.bytes (fixed_read again k b (conn_read k b.conn))
  read_at_end empty =
      let readout : conn_read k b.conn ≡ ([], some eof, b.conn) =
        conn_read_end b.conn k empty ∙ ap (λ e. ([], some e, b.conn)) o.closes in
      subst (λ r. Hands n b.conn.bytes (fixed_read again k b r)) (sym readout)
        (switch_closed again k n b pos o [] b.conn o.closes (omega arith) empty empty)

  read_in_stream :
      Handed b.conn b.conn.bytes [] k (conn_read k b.conn)
      → k ≤ n
      → ((b' : BodyReader)
          → Owes b' n
          → b'.conn.bytes ≡ b.conn.bytes
          → length b'.conn.grants < length b.conn.grants
          → Hands n b.conn.bytes (again k b'))
      → Hands n b.conn.bytes (fixed_read again k b (conn_read k b.conn))
  read_in_stream h fits ih =
      let got = take h.m b.conn.bytes in
      let c : Conn = record b.conn { bytes = drop h.m b.conn.bytes ++ []; grants = h.gs } in
      let long : length got ≡ h.m = length-take h.m b.conn.bytes ∙ omega (arith, h.within_part) in
      let short : length got ≤ n = omega (arith, h.within_request) in
      let joined : b.conn.bytes ≡ got ++ c.bytes = sym (
        ap (λ (r : Bytes). got ++ r) (append-nil (drop h.m b.conn.bytes))
        ∙ take-append-drop h.m b.conn.bytes) in
      subst (λ r. Hands n b.conn.bytes (fixed_read again k b r)) (sym h.outcome)
        (elim h.error_at_end [
          | inl e ↦
              subst (λ x. Hands n b.conn.bytes (fixed_switch again k got x (after b got c))) (sym e)
                (switch_served again k n b pos o got c o.closes short joined λ nothing.
                  ih (after b got c)
                    (subst (Owes (after b got c)) (omega (arith, ap length nothing))
                      (after-Owes b n got c o short o.closes))
                    (sym (joined ∙ ap (λ (g : Bytes). g ++ c.bytes) nothing))
                    (omega (arith, h.progress, ap length nothing)))
          | inr (e, done, some_bytes) ↦
              subst (λ x. Hands n b.conn.bytes (fixed_switch again k got x (after b got c)))
                (sym (e ∙ ap some o.closes))
                (switch_closed again k n b pos o got c o.closes short
                  (joined ∙ ap (λ (r : Bytes). got ++ r) done ∙ append-nil got) done)
        ])

stream-cases : (bs : Bytes) → (bs ≡ []) ⊎ (0 < length bs)
stream-cases [] = inl refl
stream-cases (x ∷ bs) = inr (omega arith)

one_round :
    (again : ℕ → BodyReader → Outcome) (k n : ℕ) (b : BodyReader)
    → 0 < k
    → IsNonneg k
    → Owes b n
    → ((k' : ℕ) (b' : BodyReader)
        → 0 < k'
        → IsNonneg k'
        → Owes b' n
        → b'.conn.bytes ≡ b.conn.bytes
        → length b'.conn.grants < length b.conn.grants
        → Hands n b.conn.bytes (again k' b'))
    → Hands n b.conn.bytes (fixed_round again k b)
one_round again k zero b pos is_int o ih =
    let paid : (b.remain == 0) ≡ true = ground (arith, o.is_remain) in
    rw paid (ended refl refl refl)
one_round again k (suc n) b pos is_int o ih =
    let k' = request k b in
    let (some_room, fits, small) = request_bounds k (suc n) b pos is_int (omega arith) o in
    subst (Hands (suc n) b.conn.bytes) (sym (fixed_round_open again k (suc n) b (omega arith) o))
      (elim (stream-cases b.conn.bytes) [
        | inl empty ↦ read_at_end again k' (suc n) b (omega arith) o empty
        | inr some_left ↦
            read_in_stream again k' (suc n) b (omega arith) o
              (conn_read_any b.conn k' some_room some_left) fits
              λ b' o' same less. ih k' b' some_room small o' same less
      ])

-- A round that serves nothing uses up a grant, so the grants bound the rounds.
rounds :
    (f k n : ℕ) (b : BodyReader)
    → 0 < k
    → IsNonneg k
    → Owes b n
    → length b.conn.grants ≤ f
    → Hands n b.conn.bytes (read_fixed (suc f) k b)
unfolding read_fixed
rounds zero k n b pos is_int o enough =
    one_round (read_fixed 0) k n b pos is_int o
      λ k' b' pos' is_int' o' same less. absurd (omega arith)
rounds (suc f) k n b pos is_int o enough =
    one_round (read_fixed (suc f)) k n b pos is_int o λ k' b' pos' is_int' o' same less.
      subst (λ bs. Hands n bs (read_fixed (suc f) k' b')) same
        (rounds f k' n b' pos' is_int' o' (omega arith))

pub read-Hands :
    (k n : ℕ) (b : BodyReader) → 0 < k → IsNonneg k → Owes b n → Hands n b.conn.bytes (read k b)
unfolding read
read-Hands zero n b pos is_int o = absurd (omega arith)
read-Hands (suc k) n b pos is_int o =
    let open_kind = ap (λ e. read_unless e (suc k) b) o.no_error in
    let is_fixed = ap (λ s. read_kind s (suc k) b) o.is_fixed in
    subst (Hands n b.conn.bytes) (sym (open_kind ∙ is_fixed))
      (rounds (length b.conn.grants) (suc k) n b pos is_int o (omega arith))
