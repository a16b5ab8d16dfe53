-- ===== src/Wrap/Answers.antt =====
-- What a request gets from a wrapped handler.
use simdhttp.Common.{
  ℕ, ◌≡◌, inl, inr, refl, sym, ◌∙◌, subst, Bool, true, false, ◌||◌, Option, none, some, List, [],
  ◌∷◌, ◌++◌, append-nil, append_assoc, arith, if◌then◌else◌, Bool-cases, Among, here, there,
}
use simdhttp.Wrap.{
  Use, write_header, write, read_from, flush, hijack, Call, through, around, Presented, tracker_for,
  has_flush, has_hijack, offers, below, StartTracker, call, run, Outcome, finished, aborted,
  replied, conclude, wrap,
}

-- The calls that the writer below can serve, on the tracker or around it.
abbrev pub use_of : Call → Use
use_of (through u) = u
use_of (around u) = u

abbrev pub reaching : Bool → Bool → List Call → List Call
reaching flushes hijacks [] = []
reaching flushes hijacks (c ∷ cs) =
    let rest = reaching flushes hijacks cs in
    if below flushes hijacks (use_of c) then c ∷ rest else rest

-- Whether a call was made on the tracker.
abbrev marks : Call → Bool
marks (through u) = true
marks (around u) = false

abbrev any_marks : List Call → Bool
any_marks [] = false
any_marks (c ∷ cs) = marks c || any_marks cs

capabilities :
    (flushes hijacks : Bool)
    → (has_flush (tracker_for flushes hijacks) ≡ flushes)
      × (has_hijack (tracker_for flushes hijacks) ≡ hijacks)
unfolding tracker_for
capabilities true true = (refl, refl)
capabilities true false = (refl, refl)
capabilities false true = (refl, refl)
capabilities false false = (refl, refl)

-- The tracker offers what the writer below can do.
offers-below :
    (flushes hijacks : Bool) (u : Use)
    → offers (tracker_for flushes hijacks) u ≡ below flushes hijacks u
offers-below flushes hijacks (write_header code) = refl
offers-below flushes hijacks (write b) = refl
offers-below flushes hijacks (read_from b) = refl
offers-below flushes hijacks flush = (capabilities flushes hijacks).0
offers-below flushes hijacks hijack = (capabilities flushes hijacks).1

call-below :
    (flushes hijacks : Bool) (c : Call) (s : StartTracker)
    → call (tracker_for flushes hijacks) flushes hijacks c s ≡ (
        if below flushes hijacks (use_of c)
        then record { started = s.started || marks c; calls = s.calls ++ (c ∷ []) }
        else s)
unfolding call
call-below flushes hijacks (through u) s =
    let on : (s.started || true) ≡ true = ground arith in
    rw (offers-below flushes hijacks u, on) refl
call-below flushes hijacks (around u) s =
    let front : (s.started || false) ≡ s.started = ground arith in rw front refl

regroup : (a b c : Bool) → ((a || b) || c) ≡ (a || (b || c))
regroup a b c = ground arith

run-reaching :
    (flushes hijacks : Bool) (cs : List Call) (s : StartTracker)
    → run (tracker_for flushes hijacks) flushes hijacks cs s ≡ record {
      started = s.started || any_marks (reaching flushes hijacks cs);
      calls = s.calls ++ reaching flushes hijacks cs;
    }
unfolding run
run-reaching flushes hijacks [] s =
    let front : (s.started || false) ≡ s.started = ground arith in
    rw (front, append-nil s.calls) refl
run-reaching flushes hijacks (c ∷ cs) s = elim (Bool-cases (below flushes hijacks (use_of c))) [
  | inr lacking ↦ rw (call-below flushes hijacks c s, lacking) (run-reaching flushes hijacks cs s)
  | inl there_is ↦
      let sent = reaching flushes hijacks cs in
      rw (call-below flushes hijacks c s, there_is)
        (run-reaching flushes hijacks cs
            (record { started = s.started || marks c; calls = s.calls ++ (c ∷ []) })
          ∙ λ i. record {
            started = regroup s.started (marks c) (any_marks sent) i;
            calls = append_assoc s.calls (c ∷ []) sent i;
          })
]

-- What a request gets, by the calls that reached the writer below.
pub data IsAnswer {E : Type 0} (mapper : E → ℕ) (sent : List Call)
    : Option E → Outcome E → Type 0 where
  stands : IsAnswer mapper sent none (finished sent)
  cut_off :
      {e : E} (u : Use) → Among (through u) sent → IsAnswer mapper sent (some e) (aborted sent e)
  status_sent :
      {e : E}
      → ((u : Use) → ¬ Among (through u) sent)
      → IsAnswer mapper sent (some e) (replied sent (mapper e))

marked : (cs : List Call) → any_marks cs ≡ true → (u : Use) × Among (through u) cs
marked [] h = cc
marked (through u ∷ cs) h = (u, here)
marked (around u ∷ cs) h = let (v, k) = marked cs h in (v, there k)

unmarked : (u : Use) (cs : List Call) → any_marks cs ≡ false → ¬ Among (through u) cs
unmarked u _ h here = cc
unmarked u _ h (there {x = through v} {ms = cs} k) = cc
unmarked u _ h (there {x = around v} {ms = cs} k) = unmarked u cs h k

conclude-IsAnswer :
    {E : Type 0} (mapper : E → ℕ) (sent : List Call) (o : Option E)
    → IsAnswer mapper sent o (conclude mapper (record { started = any_marks sent; calls = sent }) o)
conclude-IsAnswer mapper sent none = stands
conclude-IsAnswer mapper sent (some e) = elim (Bool-cases (any_marks sent)) [
  | inl on ↦ rw on (let (u, k) = marked sent on in cut_off u k)
  | inr off ↦ rw off (status_sent λ u. unmarked u sent off)
]

-- A wrapped handler's request gets one of three answers, by the calls that reached the writer below,
-- which are those that this writer can serve. Where the handler returns no error, what it sent stands.
-- Where it returns one, the connection is aborted and no status is sent when a call on the tracker
-- was among them; otherwise the mapper's status is sent, also when calls on the writer that `Unwrap`
-- returns were. The handler is given flushing and hijacking exactly where the writer below has them.
pub wrap-IsAnswer :
    {E : Type 0} (mapper : E → ℕ) (handler : Presented → List Call × Option E)
    (flushes hijacks : Bool)
    → let p = tracker_for flushes hijacks in
      IsAnswer mapper
        (reaching flushes hijacks (handler p).0)
        (handler p).1
        (wrap mapper handler flushes hijacks)
      × (has_flush p ≡ flushes)
      × (has_hijack p ≡ hijacks)
unfolding wrap
wrap-IsAnswer mapper handler flushes hijacks =
    let p = tracker_for flushes hijacks in
    let (flush_is, hijack_is) = capabilities flushes hijacks in
    (
      subst
          (λ s.
            IsAnswer mapper (reaching flushes hijacks (handler p).0) (handler p).1
              (conclude mapper s (handler p).1))
          (sym
            (run-reaching flushes hijacks (handler p).0 (record { started = false; calls = [] })))
          (conclude-IsAnswer mapper (reaching flushes hijacks (handler p).0) (handler p).1),
      flush_is,
      hijack_is,
    )
