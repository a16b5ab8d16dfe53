-- ===== src/Query/Answers.antt =====
-- What `queryLookup` answers, in terms of keys, values and their decodings.
use simdhttp.Common.{◌≡◌, ◌≢◌, ◌⊎◌, Option, none, some, List, [], ◌∷◌, ◌++◌, Bytes}
use simdhttp.Query.Escapes.{Unescapes}
use simdhttp.Router.Tree.Paths.{HasNo}

-- A pair is cut at its first equals sign; without one it is a key with the empty value.
pub data KeyValue : Bytes → Bytes → Bytes → Type 0 where
  bare : {key : Bytes} → HasNo b'=' key → KeyValue key key []
  with_equals : {key val : Bytes} → HasNo b'=' key → KeyValue (key ++ (b'=' ∷ val)) key val

-- The pair has the name as its key, written as it is or escaped, and a value that decodes to `v`.
pub record Gives (pair name v : Bytes) : Type 0 where
  pub key : Bytes
  pub val : Bytes
  pub not_blank : pair ≢ []
  pub cut : KeyValue pair key val
  pub key_is : (key ≡ name) ⊎ Unescapes key name
  pub value_is : Unescapes val v

-- The first pair that gives a value, or none.
pub data Finds (name : Bytes) : List Bytes → Option Bytes → Type 0 where
  nowhere : Finds name [] none
  first : {p v : Bytes} {ps : List Bytes} → Gives p name v → Finds name (p ∷ ps) (some v)
  later :
      {p : Bytes} {ps : List Bytes} {r : Option Bytes}
      → ((v : Bytes) → ¬ Gives p name v)
      → Finds name ps r
      → Finds name (p ∷ ps) r
