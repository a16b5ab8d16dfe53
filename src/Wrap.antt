-- ===== src/Wrap.antt =====
-- The adapter for handlers that return errors (wrap.go): `ErrorAdapter.Wrap`, `DefaultErrorMapper`,
-- `startTracker` and `trackerFor`.
pub mod Answers
pub mod Statuses
use simdhttp.Common.{
  ℕ, Bool, true, false, ◌||◌, Option, none, some, List, [], ◌∷◌, ◌++◌, if◌then◌else◌, Bytes,
}
use simdhttp.Http1.Errors.{
  Error, incomplete, malformed, missing_host, head_too_large, too_many_headers, value_too_large,
  request_line_too_large, ambiguous_framing, bad_content_length, bad_transfer_encoding,
  body_too_large, bad_chunk, chunk_line_too_long, chunk_extension_too_long, too_many_trailers,
  drain_too_large,
}

-- `is` says what `errors.Is` answers for the error and each sentinel.
abbrev pub any_is : (Error → Bool) → List Error → Bool
any_is is [] = false
any_is is (e ∷ es) = is e || any_is is es

abbrev pub bad_requests : List Error
bad_requests =
    missing_host ∷ malformed ∷ incomplete ∷ ambiguous_framing ∷ bad_content_length ∷ bad_chunk ∷ []

abbrev pub too_large : List Error
too_large =
    body_too_large ∷ drain_too_large ∷ chunk_line_too_long ∷ chunk_extension_too_long
    ∷ too_many_trailers ∷ []

abbrev pub head_fields_too_large : List Error
head_fields_too_large = head_too_large ∷ too_many_headers ∷ value_too_large ∷ []

-- The status; the message is the library's text for it.
unfoldable pub default_error_mapper : (Error → Bool) → ℕ
default_error_mapper is =
    if any_is is bad_requests
    then 400
    else if is bad_transfer_encoding
    then 501
    else if any_is is too_large
    then 413
    else if any_is is head_fields_too_large
    then 431
    else if is request_line_too_large
    then 414
    else 500

-- What a handler calls on the writer that it is given.
pub data Use : Type 0 where
  write_header : ℕ → Use
  write : Bytes → Use
  read_from : Bytes → Use
  flush hijack : Use

-- The four types that `trackerFor` picks from.
pub data Presented : Type 0 where
  start_tracker track_flusher track_hijacker track_flush_hijack : Presented

unfoldable pub tracker_for : Bool → Bool → Presented
tracker_for true true = track_flush_hijack
tracker_for true false = track_flusher
tracker_for false true = track_hijacker
tracker_for false false = start_tracker

abbrev pub has_flush : Presented → Bool
has_flush start_tracker = false
has_flush track_flusher = true
has_flush track_hijacker = false
has_flush track_flush_hijack = true

abbrev pub has_hijack : Presented → Bool
has_hijack start_tracker = false
has_hijack track_flusher = false
has_hijack track_hijacker = true
has_hijack track_flush_hijack = true

abbrev pub offers : Presented → Use → Bool
offers p (write_header code) = true
offers p (write b) = true
offers p (read_from b) = true
offers p flush = has_flush p
offers p hijack = has_hijack p

-- A call on the tracker, or on the writer below, which `Unwrap` returns and `http.ResponseController`
-- looks for.
pub data Call : Type 0 where
  through around : Use → Call

-- What the writer below can do.
abbrev pub below : Bool → Bool → Use → Bool
below flushes hijacks (write_header code) = true
below flushes hijacks (write b) = true
below flushes hijacks (read_from b) = true
below flushes hijacks flush = flushes
below flushes hijacks hijack = hijacks

-- `calls` is what reached the writer below, in order.
pub record StartTracker : Type 0 where
  pub started : Bool
  pub calls : List Call

-- A method of the tracker marks the start before it calls the writer below. A call around the tracker
-- marks nothing. A method that the type lacks cannot be called.
unfoldable pub call : Presented → Bool → Bool → Call → StartTracker → StartTracker
call p flushes hijacks (through u) s =
    if offers p u then record { started = true; calls = s.calls ++ (through u ∷ []) } else s
call p flushes hijacks (around u) s =
    if below flushes hijacks u
    then record { started = s.started; calls = s.calls ++ (around u ∷ []) }
    else s

unfoldable pub run : Presented → Bool → Bool → List Call → StartTracker → StartTracker
run p flushes hijacks [] s = s
run p flushes hijacks (c ∷ cs) s = run p flushes hijacks cs (call p flushes hijacks c s)

-- How a request ends: the handler's answer stands, the connection is aborted, or the status of the
-- mapper is sent. `E` are the errors of handlers.
pub data Outcome (E : Type 0) : Type 0 where
  finished : List Call → Outcome E
  aborted : List Call → E → Outcome E
  replied : List Call → ℕ → Outcome E

abbrev pub conclude : {E : Type 0} → (E → ℕ) → StartTracker → Option E → Outcome E
conclude mapper s none = finished s.calls
conclude mapper s (some e) = if s.started then aborted s.calls e else replied s.calls (mapper e)

-- `flushes` and `hijacks` say what the writer below has; the handler may look at what it is given.
unfoldable pub wrap :
    {E : Type 0} → (E → ℕ) → (Presented → List Call × Option E) → Bool → Bool → Outcome E
wrap mapper handler flushes hijacks =
    let p = tracker_for flushes hijacks in
    let (cs, result) = handler p in
    conclude mapper (run p flushes hijacks cs (record { started = false; calls = [] })) result
