-- ===== src/Http1/Body/WholeLength.antt =====
-- Reading a body of a fixed length with a client, and the refusal of a length over the budget.
use simdhttp.Common.{
  ℕ, zero, suc, ◌-◌, ◌<◌, ◌≤◌, ◌≡◌, refl, sym, ap, ◌∙◌, some, List, [], ◌∷◌, ◌++◌, append-nil,
  arith, Bytes, length, length-append, All, true, false,
}
use simdhttp.Common.Int64.{IsNonneg, lt64, lt64-ltb}
use simdhttp.Http1.Body.Client.{read_more, read_all, IsBuffer}
use simdhttp.Http1.Body.Fixed.{Owes, Hands, served, ended, last, cut}
use simdhttp.Http1.Body.Length.{read-Hands}
use simdhttp.Http1.Body.{Outcome, read}
use simdhttp.Http1.Conn.{Conn}
use simdhttp.Http1.Errors.{eof, unexpected_eof, body_too_large}
use simdhttp.Http1.Framing.{fixed_length}
use simdhttp.Http1.Reader.{BodyReader, Limits, new_body_reader}

-- Of two ways to cut one string, the shorter front is a front of the other.
split_front :
    (xs ys zs ws : Bytes)
    → zs ++ ws ≡ xs ++ ys
    → length xs ≤ length zs
    → (m : Bytes) × (zs ≡ xs ++ m) × (ys ≡ m ++ ws)
split_front [] ys zs ws e h = (zs, refl, sym e)
split_front (x ∷ xs) ys [] ws e h = absurd (omega arith)
split_front (x ∷ xs) ys (z ∷ zs) ws e h =
    let (m, front, back) = split_front xs ys zs ws (cc) (omega arith) in
    let same : z ≡ x = cc in (m, cc, back)

-- The body, then the end, with the connection behind the body.
pub record IsServed (body next : Bytes) (r : Outcome) : Type 0 where
  pub all_served : r.1 ≡ body
  pub at_end : r.2 ≡ some eof
  pub next_untouched : r.0.conn.bytes ≡ next

empty_of_length : (xs : Bytes) → length xs ≡ 0 → xs ≡ []
empty_of_length [] h = refl
empty_of_length (x ∷ xs) h = absurd (omega arith)

read_more-IsServed :
    (ks : List ℕ) (n : ℕ) (bytes body next : Bytes) (r : Outcome)
    → bytes ≡ body ++ next
    → length body ≡ n
    → Hands n bytes r
    → ((b : BodyReader) (m : ℕ) (body' : Bytes)
        → m < n
        → Owes b m
        → b.conn.bytes ≡ body' ++ next
        → length body' ≡ m
        → IsServed body' next (read_all ks b))
    → IsServed body next (read_more (read_all ks) r)
read_more-IsServed ks n bytes body next _ stream long (served {b} x xs joined fits owes) ih =
    let (body', front, back) =
      split_front (x ∷ xs) b.conn.bytes body next (sym stream ∙ joined) (omega arith) in
    let rest : length body' ≡ n - length (x ∷ xs) =
      omega (arith, ap length front ∙ length-append (x ∷ xs) body') in
    let w = ih b (n - length (x ∷ xs)) body' (omega arith) owes back rest in
    record {
      all_served = ap (λ (m : Bytes). (x ∷ xs) ++ m) w.all_served ∙ sym front;
      at_end = w.at_end;
      next_untouched = w.next_untouched;
    }
read_more-IsServed ks n bytes body next _ stream long (ended paid err same) ih =
    let empty : body ≡ [] = empty_of_length body (long ∙ paid) in
    record {
      all_served = sym empty;
      at_end = refl;
      next_untouched = same ∙ stream ∙ ap (λ (b : Bytes). b ++ next) empty;
    }
read_more-IsServed ks n bytes body next _ stream long (last {b} {got} all whole err empty) ih =
    let (m, front, back) =
      split_front got [] body next (sym stream ∙ all ∙ sym (append-nil got)) (omega arith) in
    let nothing : m ≡ [] =
      empty_of_length m (omega (arith, ap length front ∙ length-append got m)) in
    record {
      all_served = sym (front ∙ ap (λ (r : Bytes). got ++ r) nothing ∙ append-nil got);
      at_end = refl;
      next_untouched = empty ∙ back ∙ ap (λ (r : Bytes). r ++ next) nothing;
    }
read_more-IsServed ks n bytes body next _ stream long (cut all short err) ih =
    absurd (omega (arith, ap length (sym all ∙ stream) ∙ length-append body next))

read_all-IsServed :
    (ks : List ℕ) (n : ℕ) (b : BodyReader) (body next : Bytes)
    → All IsBuffer ks
    → n < length ks
    → Owes b n
    → b.conn.bytes ≡ body ++ next
    → length body ≡ n
    → IsServed body next (read_all ks b)
unfolding read_all
read_all-IsServed [] n b body next bufs enough o stream long = absurd (omega arith)
read_all-IsServed (k ∷ ks) n b body next (buf, bufs) enough o stream long =
    read_more-IsServed ks n b.conn.bytes body next (read k b) stream long
      (read-Hands k n b buf.0 buf.1 o)
      λ b' m body' less o' stream' long'.
        read_all-IsServed ks m b' body' next bufs (omega arith) o' stream' long'

-- A connection that its peer closes, and a length within the budget.
pub record FitsBudget (c : Conn) (lim : Limits) (n : ℕ) : Type 0 where
  pub limit_nonneg : IsNonneg lim.max_body_size
  pub in_budget : n ≤ lim.max_body_size
  pub closes : c.ending ≡ eof

new-Owes :
    (c : Conn) (lim : Limits) (n : ℕ)
    → FitsBudget c lim n
    → Owes (new_body_reader c (fixed_length n) lim) n
unfolding new_body_reader
new-Owes c lim n h =
    let fits : lt64 lim.max_body_size n ≡ false =
      lt64-ltb lim.max_body_size n h.limit_nonneg (omega (arith, h.limit_nonneg, h.in_budget))
      ∙ ground (arith, h.in_budget) in
    record {
      is_fixed = refl;
      no_error = rw fits refl;
      is_remain = refl;
      limit_nonneg = h.limit_nonneg;
      in_budget = omega (arith, h.in_budget);
      closes = h.closes;
    }

-- A body of a fixed length within the budget, on a connection that would end in `io.EOF`, is served
-- whole and exactly once, then `io.EOF` comes, and the bytes behind it are still on the connection:
-- for every schedule of the connection and every sequence of non-empty read buffers that is longer
-- than the body.
pub read_all-fixed :
    (ks : List ℕ) (c : Conn) (lim : Limits) (body next : Bytes)
    → All IsBuffer ks
    → length body < length ks
    → FitsBudget c lim (length body)
    → c.bytes ≡ body ++ next
    → IsServed body next (read_all ks (new_body_reader c (fixed_length (length body)) lim))
read_all-fixed ks c lim body next bufs enough h stream =
    read_all-IsServed ks (length body) (new_body_reader c (fixed_length (length body)) lim) body
      next bufs enough (new-Owes c lim (length body) h) (unfold new_body_reader in stream) refl

-- What there is, and then the error of a truncation, which stays.
pub record IsCut (bytes : Bytes) (r : Outcome) : Type 0 where
  pub all_served : r.1 ≡ bytes
  pub truncated : r.2 ≡ some unexpected_eof
  pub sticks : r.0.err ≡ some unexpected_eof

read_more-IsCut :
    (ks : List ℕ) (n : ℕ) (bytes : Bytes) (r : Outcome)
    → length bytes < n
    → Hands n bytes r
    → ((b : BodyReader) (m : ℕ)
        → m < n
        → length b.conn.bytes < m
        → Owes b m
        → IsCut b.conn.bytes (read_all ks b))
    → IsCut bytes (read_more (read_all ks) r)
read_more-IsCut ks n bytes _ short (served {b} x xs joined fits owes) ih =
    let sizes = ap length joined ∙ length-append (x ∷ xs) b.conn.bytes in
    let w = ih b (n - length (x ∷ xs)) (omega arith) (omega arith) owes in
    record {
      all_served = ap (λ (m : Bytes). (x ∷ xs) ++ m) w.all_served ∙ sym joined;
      truncated = w.truncated;
      sticks = w.sticks;
    }
read_more-IsCut ks n bytes _ short (ended paid err same) ih = absurd (omega arith)
read_more-IsCut ks n bytes _ short (last all whole err empty) ih =
    absurd (omega (arith, ap length all))
read_more-IsCut ks n bytes _ short (cut all less err) ih = record {
  all_served = sym all;
  truncated = refl;
  sticks = err;
}

read_all-IsCut :
    (ks : List ℕ) (n : ℕ) (b : BodyReader)
    → All IsBuffer ks
    → n < length ks
    → Owes b n
    → length b.conn.bytes < n
    → IsCut b.conn.bytes (read_all ks b)
unfolding read_all
read_all-IsCut [] n b bufs enough o short = absurd (omega arith)
read_all-IsCut (k ∷ ks) n b (buf, bufs) enough o short =
    read_more-IsCut ks n b.conn.bytes (read k b) short (read-Hands k n b buf.0 buf.1 o)
      λ b' m less short' o'. read_all-IsCut ks m b' bufs (omega arith) o' short'

-- When the peer closes before a declared length that is within the budget, all that came is served
-- and the error is `io.ErrUnexpectedEOF`, which stays: for every schedule of the connection and
-- every sequence of non-empty read buffers that is longer than the declared length.
pub read_all_truncated :
    (ks : List ℕ) (c : Conn) (lim : Limits) (n : ℕ)
    → All IsBuffer ks
    → n < length ks
    → FitsBudget c lim n
    → length c.bytes < n
    → IsCut c.bytes (read_all ks (new_body_reader c (fixed_length n) lim))
read_all_truncated ks c lim n bufs enough h short =
    unfold new_body_reader in
    read_all-IsCut ks n (new_body_reader c (fixed_length n) lim) bufs enough (new-Owes c lim n h)
      short

-- A declared length over `MaxBodySize` is refused by the first `Read`, and by each one after it,
-- before a byte moves.
pub read_over_budget :
    (k : ℕ) (c : Conn) (lim : Limits) (n : ℕ)
    → 0 < k
    → IsNonneg n
    → lim.max_body_size < n
    → let b = new_body_reader c (fixed_length n) lim in
      (read k b ≡ (b, [], some body_too_large)) × (b.conn ≡ c)
unfolding read new_body_reader
read_over_budget zero c lim n pos is_int over = absurd (omega arith)
read_over_budget (suc k) c lim n pos is_int over =
    let refused : lt64 lim.max_body_size n ≡ true =
      lt64-ltb lim.max_body_size n (omega arith) is_int ∙ ground arith in
    rw refused (refl, refl)
