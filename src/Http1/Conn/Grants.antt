-- ===== src/Http1/Conn/Grants.antt =====
-- What `Read` can do under any schedule of the connection.
use simdhttp.Common.{
  ℕ, zero, suc, ◌<◌, ◌≤◌, min, ◌≡◌, ◌⊎◌, inl, inr, refl, sym, ap, ◌∙◌, subst, Bool, true, false,
  ◌&&◌, Option, none, some, List, [], ◌∷◌, ◌++◌, arith, if◌then◌else◌, Bytes, length, take, drop,
  is_empty, append-nil,
}
use simdhttp.Http1.Conn.{Conn, Readout, hand_out, deliver, conn_read}
use simdhttp.Http1.Errors.{Error}

-- The first `m` of the bytes `part` that come before `more`.
pub take-within :
    (m : ℕ) (part more : Bytes) → m ≤ length part → take m (part ++ more) ≡ take m part
take-within zero part more h = refl
take-within (suc m) [] more h = absurd (omega arith)
take-within (suc m) (x ∷ part) more h = ap (◌∷◌ x) (take-within m part more (omega arith))

pub drop-within :
    (m : ℕ) (part more : Bytes) → m ≤ length part → drop m (part ++ more) ≡ drop m part ++ more
drop-within zero part more h = refl
drop-within (suc m) [] more h = absurd (omega arith)
drop-within (suc m) (x ∷ part) more h = drop-within m part more (omega arith)

-- `m` bytes of `part` were handed out, and the schedule is now `gs`. An error can come with them
-- only if they were the last ones of the stream.
pub record Handed (c : Conn) (part more : Bytes) (k : ℕ) (r : Readout) : Type 0 where
  pub m : ℕ
  pub gs : List (ℕ × Bool)
  pub error : Option Error
  pub within_part : m ≤ length part
  pub within_request : m ≤ k
  pub outcome : r ≡ (take m part, error, record c { bytes = drop m part ++ more; grants = gs })
  pub progress : (1 ≤ m) ⊎ (length gs < length c.grants)
  pub schedule : length gs ≤ length c.grants
  pub error_at_end :
      (error ≡ none) ⊎ ((error ≡ some c.ending) × (drop m part ++ more ≡ []) × (1 ≤ m))

end_error : Bool → Error → Bytes → Option Error
end_error with_error e rest = if with_error && is_empty rest then some e else none

end_error-cases :
    (with_error : Bool) (e : Error) (rest : Bytes)
    → (end_error with_error e rest ≡ none) ⊎ ((end_error with_error e rest ≡ some e) × (rest ≡ []))
unfolding end_error
end_error-cases false e rest = inl refl
end_error-cases true e [] = inr (refl, refl)
end_error-cases true e (x ∷ xs) = inl refl

hand_out_lem :
    (c : Conn) (part more : Bytes) (m : ℕ) (with_error : Bool) (gs : List (ℕ × Bool))
    → c.bytes ≡ part ++ more
    → m ≤ length part
    → hand_out m with_error (record c { grants = gs }) ≡ (
      take m part,
      end_error with_error c.ending (drop m part ++ more),
      record c { bytes = drop m part ++ more; grants = gs },
    )
unfolding end_error
hand_out_lem c part more m with_error gs stream fits =
    let taken : take m c.bytes ≡ take m part = ap (take m) stream ∙ take-within m part more fits in
    let left : drop m c.bytes ≡ drop m part ++ more =
      ap (drop m) stream ∙ drop-within m part more fits in
    λ i. (
      taken i,
      if with_error && is_empty (left i) then some c.ending else none,
      record c { bytes = left i; grants = gs },
    )

ends_with_bytes : (m : ℕ) (part more : Bytes) → drop m part ++ more ≡ [] → 1 ≤ length part → 1 ≤ m
ends_with_bytes zero [] more e h = absurd (omega arith)
ends_with_bytes zero (x ∷ part) more e h = cc
ends_with_bytes (suc m) part more e h = omega arith

hand_out-Handed :
    (c : Conn) (part more : Bytes) (k m : ℕ) (with_error : Bool) (gs : List (ℕ × Bool))
    → c.bytes ≡ part ++ more
    → m ≤ length part
    → m ≤ k
    → (1 ≤ length part)
    → (1 ≤ m) ⊎ (length gs < length c.grants)
    → length gs ≤ length c.grants
    → Handed c part more k (hand_out m with_error (record c { grants = gs }))
hand_out-Handed c part more k m with_error gs stream fits asked some_left progress schedule =
    record {
      m = m;
      gs = gs;
      error = end_error with_error c.ending (drop m part ++ more);
      within_part = fits;
      within_request = asked;
      outcome = hand_out_lem c part more m with_error gs stream fits;
      progress = progress;
      schedule = schedule;
      error_at_end = elim (end_error-cases with_error c.ending (drop m part ++ more)) [
        | inl e ↦ inl e
        | inr (e, done) ↦ inr (e, done, ends_with_bytes m part more done some_left)
      ];
    }

deliver-Handed :
    (c : Conn) (x : ℕ) (part more : Bytes) (k : ℕ) (gs : List (ℕ × Bool))
    → c.grants ≡ gs
    → c.bytes ≡ (x ∷ part) ++ more
    → 0 < k
    → k ≤ length (x ∷ part)
    → Handed c (x ∷ part) more k (deliver k (x ∷ (part ++ more)) gs c)
deliver-Handed c x part more k [] e stream pos fits =
    hand_out-Handed c (x ∷ part) more k k false c.grants stream fits (omega arith) (omega arith)
      (inl (omega arith)) (omega arith)
deliver-Handed c x part more k ((g, with_error) ∷ gs) e stream pos fits =
    let shorter : length c.grants ≡ suc (length gs) = ap length e in
    hand_out-Handed c (x ∷ part) more k (min g k) with_error gs stream (omega arith) (omega arith)
      (omega arith) (inr (omega arith)) (omega arith)

-- On a stream that is not empty, and for a request within `part`.
pub conn_read-Handed :
    (c : Conn) (part more : Bytes) (k : ℕ)
    → c.bytes ≡ part ++ more
    → 0 < k
    → k ≤ length part
    → Handed c part more k (conn_read k c)
unfolding conn_read
conn_read-Handed c [] more k stream pos fits = absurd (omega arith)
conn_read-Handed c (x ∷ part) more k stream pos fits =
    subst (Handed c (x ∷ part) more k) (ap (λ bs. deliver k bs c.grants c) (sym stream))
      (deliver-Handed c x part more k c.grants refl stream pos fits)

-- A request for more than there is counts as one for all there is.
take_enough :
    (m n : ℕ) (bs : Bytes)
    → min m (length bs) ≡ min n (length bs)
    → (take m bs ≡ take n bs) × (drop m bs ≡ drop n bs)
take_enough zero zero bs h = (refl, refl)
take_enough zero (suc n) [] h = (refl, refl)
take_enough (suc m) zero [] h = (refl, refl)
take_enough (suc m) (suc n) [] h = (refl, refl)
take_enough zero (suc n) (x ∷ bs) h = absurd (omega arith)
take_enough (suc m) zero (x ∷ bs) h = absurd (omega arith)
take_enough (suc m) (suc n) (x ∷ bs) h =
    let (same, left) = take_enough m n bs (omega arith) in (ap (◌∷◌ x) same, left)

hand_out_enough :
    (m n : ℕ) (with_error : Bool) (c : Conn)
    → min m (length c.bytes) ≡ min n (length c.bytes)
    → hand_out m with_error c ≡ hand_out n with_error c
hand_out_enough m n with_error c h =
    let (same, left) = take_enough m n c.bytes h in
    λ i. (
      same i,
      if with_error && is_empty (left i) then some c.ending else none,
      record c { bytes = left i },
    )

deliver_enough :
    (k : ℕ) (bs : Bytes) (gs : List (ℕ × Bool)) (c : Conn)
    → deliver k bs gs c ≡ deliver (min k (length c.bytes)) bs gs c
deliver_enough k [] gs c = refl
deliver_enough k (b ∷ bs) [] c = hand_out_enough k (min k (length c.bytes)) false c (omega arith)
deliver_enough k (b ∷ bs) ((g, with_error) ∷ gs) c =
    hand_out_enough (min g k) (min g (min k (length c.bytes))) with_error (record c { grants = gs })
      (omega arith)

-- Any request on a stream that is not empty.
pub conn_read_any :
    (c : Conn) (k : ℕ) → 0 < k → 0 < length c.bytes → Handed c c.bytes [] k (conn_read k c)
conn_read_any c k pos some_left =
    let k' = min k (length c.bytes) in
    let h =
      conn_read-Handed c c.bytes [] k' (sym (append-nil c.bytes)) (omega arith) (omega arith) in
    let same : conn_read k c ≡ conn_read k' c =
      unfold conn_read in deliver_enough k c.bytes c.grants c in
    record {
      m = h.m;
      gs = h.gs;
      error = h.error;
      within_part = h.within_part;
      within_request = omega (arith, h.within_request);
      outcome = same ∙ h.outcome;
      progress = h.progress;
      schedule = h.schedule;
      error_at_end = h.error_at_end;
    }

-- At the end of the stream there is only its error.
pub conn_read_end : (c : Conn) (k : ℕ) → c.bytes ≡ [] → conn_read k c ≡ ([], some c.ending, c)
unfolding conn_read
conn_read_end c k e = ap (λ bs. deliver k bs c.grants c) e
