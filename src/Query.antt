-- ===== src/Query.antt =====
-- The query accessors of helpers.go: `queryLookup`, `unescapeQuery`, and what is built on them.
pub mod Escapes
pub mod Pairs
pub mod Answers
use simdhttp.Common.{
  ℕ, zero, suc, ◌+◌, ◌*◌, Bool, true, false, not, ◌&&◌, ◌||◌, Option, none, some, [], ◌∷◌, ◌==◌,
  if◌then◌else◌, Bytes, length, take, drop, is_empty, equal, index_byte,
}
use simdhttp.Http1.Chars.{is_hex}
use simdhttp.Http1.Simd.{first_where}
use simdhttp.Router.Escapes.{unhex}

abbrev pub push : ℕ → Option Bytes → Option Bytes
push c none = none
push c (some out) = some (c ∷ out)

-- The loop of `unescapeQuery`; `none` is its false.
unfoldable pub unescape_loop : Bytes → Option Bytes
unescape_loop [] = some []
unescape_loop (c ∷ []) =
    if c == b'+' then some (b' ' ∷ []) else if c == b'%' then none else some (c ∷ [])
unescape_loop (c ∷ d ∷ []) =
    let rest = unescape_loop (d ∷ []) in
    if c == b'+' then push b' ' rest else if c == b'%' then none else push c rest
unescape_loop (c ∷ d ∷ e ∷ cs) =
    let behind = unescape_loop cs in
    let rest = unescape_loop (d ∷ e ∷ cs) in
    if c == b'+'
    then push b' ' rest
    else if c == b'%'
    then (if is_hex d && is_hex e then push (16 * unhex d + unhex e) behind else none)
    else push c rest

abbrev pub has_byte : Option ℕ → Bool
has_byte none = false
has_byte (some i) = true

-- Whether there is a percent sign or a plus.
abbrev pub is_escaped : Bytes → Bool
is_escaped s = has_byte (index_byte s b'%') || has_byte (index_byte s b'+')

unfoldable pub unescape_query : Bytes → Option Bytes
unescape_query s = if is_escaped s then unescape_loop s else some s

abbrev pub is_separator : ℕ → Bool
is_separator c = c == b'&' || c == b';'

abbrev pub pair_at : Bytes → Option ℕ → Bytes × Bytes
pair_at raw none = (raw, [])
pair_at raw (some i) = (take i raw, drop (suc i) raw)

abbrev pub key_at : Bytes → Option ℕ → Bytes × Bytes
key_at pair none = (pair, [])
key_at pair (some i) = (take i pair, drop (suc i) pair)

abbrev pub decodes_to : Option Bytes → Bytes → Bool
decodes_to none name = false
decodes_to (some key) name = equal key name

-- A key is compared as it is written, and decoded only where it differs.
abbrev pub is_key : Bytes → Bytes → Bool
is_key key name = equal key name || (is_escaped key && decodes_to (unescape_query key) name)

abbrev pub value_of : Bytes × Bytes → Bytes → Option Bytes
value_of (key, val) name = if is_key key name then unescape_query val else none

-- One pair: the value, or none where the loop goes on.
unfoldable pub pair_value : Bytes → Bytes → Option Bytes
pair_value pair name =
    if is_empty pair then none else value_of (key_at pair (index_byte pair b'=')) name

abbrev pub or_rest : Option Bytes → Option Bytes → Option Bytes
or_rest none rest = rest
or_rest (some v) rest = some v

unfoldable pub lookup_loop : ℕ → Bytes → Bytes → Option Bytes
lookup_loop zero raw name = none
lookup_loop (suc fuel) [] name = none
lookup_loop (suc fuel) (c ∷ cs) name =
    let (pair, raw') = pair_at (c ∷ cs) (first_where is_separator (c ∷ cs)) in
    or_rest (pair_value pair name) (lookup_loop fuel raw' name)

-- Each round takes a byte at least.
unfoldable pub query_lookup : Bytes → Bytes → Option Bytes
query_lookup raw name = lookup_loop (suc (length raw)) raw name

-- `Query` and `QueryHas`; the query is none where the request has no URL.
abbrev pub value_or_empty : Option Bytes → Bytes
value_or_empty none = []
value_or_empty (some v) = v

abbrev pub is_present : Option Bytes → Bool
is_present none = false
is_present (some v) = true

unfoldable pub query : Option Bytes → Bytes → Bytes
query none name = []
query (some raw) name = value_or_empty (query_lookup raw name)

unfoldable pub query_has : Option Bytes → Bytes → Bool
query_has none name = false
query_has (some raw) name = is_present (query_lookup raw name)

-- `QueryInt` and `QueryBool`, with what `strconv.Atoi` and `strconv.ParseBool` answer, none for an
-- error. Both take the URL for granted.
abbrev pub parsed_or {ℓ} : {A : Type ℓ} → Option A → A → A
parsed_or none def = def
parsed_or (some a) def = a

abbrev pub number_or {ℓ} : {A : Type ℓ} → (Bytes → Option A) → Option Bytes → A → A
number_or atoi none def = def
number_or atoi (some v) def = parsed_or (atoi v) def

unfoldable pub query_int {ℓ} : {A : Type ℓ} → (Bytes → Option A) → Bytes → Bytes → A → A
query_int atoi raw name def = number_or atoi (query_lookup raw name) def

abbrev pub bool_or : (Bytes → Option Bool) → Option Bytes → Bool → Bool
bool_or parse_bool none def = def
bool_or parse_bool (some []) def = true
bool_or parse_bool (some (c ∷ cs)) def = parsed_or (parse_bool (c ∷ cs)) def

unfoldable pub query_bool : (Bytes → Option Bool) → Bytes → Bytes → Bool → Bool
query_bool parse_bool raw name def = bool_or parse_bool (query_lookup raw name) def
