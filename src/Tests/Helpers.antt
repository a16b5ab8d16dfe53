-- ===== src/Tests/Helpers.antt =====
-- The query accessors and the error adapter (helpers.go, wrap.go) on concrete inputs.
use simdhttp.Common.{arith}
use simdhttp.Common.{
  ℕ, ◌≡◌, ◌↔◌, refl, true, false, Bool, Option, some, List, [], ◌∷◌, Bytes, codes, equal,
  index_byte,
}
use simdhttp.Http1.Chars.{is_hex}
use simdhttp.Http1.Errors.{Error, bad_chunk}
use simdhttp.Query.Escapes.{Unescapes, unescape_query_iff}
use simdhttp.Query.{
  query_lookup, lookup_loop, pair_value, unescape_query, unescape_loop, query, query_has,
}
use simdhttp.Router.Escapes.{unhex}
use simdhttp.Wrap.Answers.{IsAnswer, reaching, wrap-IsAnswer}
use simdhttp.Wrap.Statuses.{IsJust, default_error_mapper-status_for}
use simdhttp.Wrap.{
  default_error_mapper, write, flush, Call, through, around, Presented, tracker_for, has_flush,
  has_hijack, aborted, replied, wrap, run, call,
}

abbrev sample_query : Bytes
sample_query = codes "x=1&q=a%2Bb+c&q=2&debug"

queries :
    (query_lookup sample_query (codes "q") ≡ some (codes "a+b c"))
    × (query_has (some sample_query) (codes "debug") ≡ true)
    × (query (some sample_query) (codes "y") ≡ [])
unfolding query_lookup lookup_loop pair_value unescape_query unescape_loop query query_has equal
    index_byte is_hex unhex
queries = (refl, refl, refl)

-- A key is compared as it is written, before it is decoded to `a b`.
raw_keys : query_lookup (codes "a+b=1") (codes "a+b") ≡ some (codes "1")
unfolding query_lookup lookup_loop pair_value unescape_query unescape_loop equal index_byte
raw_keys = refl

unescape_query_iff_example :
    (unescape_query (codes "a%2Bb+c") ≡ some (codes "a+b c"))
    ↔ Unescapes (codes "a%2Bb+c") (codes "a+b c")
unescape_query_iff_example = unescape_query_iff (codes "a%2Bb+c") (codes "a+b c")

-- A handler that flushes where it can, and then fails.
abbrev flush_and_fail : Presented → List Call × Option ℕ
flush_and_fail p = (through flush ∷ [], some 7)

-- One that writes to the writer below, and then fails.
abbrev unwrap_and_fail : Presented → List Call × Option ℕ
unwrap_and_fail p = (around (write (codes "hi")) ∷ [], some 7)

abbrev teapot : ℕ → ℕ
teapot e = 418

wrapped_handlers :
    (wrap teapot flush_and_fail true false ≡ aborted (through flush ∷ []) 7)
    × (wrap teapot flush_and_fail false true ≡ replied [] 418)
    × (wrap teapot unwrap_and_fail true true ≡ replied (around (write (codes "hi")) ∷ []) 418)
unfolding wrap tracker_for run call
wrapped_handlers = (refl, refl, refl)

wrap-IsAnswer_example :
    IsAnswer teapot
      (reaching true false (through flush ∷ []))
      (some 7)
      (wrap teapot flush_and_fail true false)
    × (has_flush (tracker_for true false) ≡ true)
    × (has_hijack (tracker_for true false) ≡ false)
wrap-IsAnswer_example = wrap-IsAnswer teapot flush_and_fail true false

abbrev is_bad_chunk : Error → Bool
is_bad_chunk bad_chunk = true
is_bad_chunk _ = false

only_bad_chunk : (x : Error) → is_bad_chunk x ≡ true → x ≡ bad_chunk
only_bad_chunk x h = ground arith

bad_chunk-IsJust : IsJust bad_chunk is_bad_chunk
bad_chunk-IsJust = record { itself = refl; no_other = only_bad_chunk }

default_error_mapper-status_for_example : default_error_mapper is_bad_chunk ≡ 400
default_error_mapper-status_for_example =
    default_error_mapper-status_for bad_chunk is_bad_chunk bad_chunk-IsJust
