-- ===== src/Router/Tree.antt =====
-- The compiled trie of router.go: `node`, `insert`, `serves` and `matchSegments`.
pub mod Paths
pub mod Leaves
pub mod Outcomes
pub mod Search
pub mod Branches
pub mod Kinds
pub mod Matching
pub mod Specific
pub mod Inserts
use simdhttp.Common.{
  ℕ, zero, suc, ◌+◌, ◌-◌, ◌<◌, ◌≡◌, Bool, true, false, ◌&&◌, ◌||◌, Option, none, some, List, [],
  ◌∷◌, ◌++◌, ltb, ◌==◌, if◌then◌else◌, Bytes, length, take, drop, get_elem?, is_empty, equal,
  index_byte,
}
use simdhttp.Router.Escapes.{Decoded, decoded, invalid_escape, out_of_range, decode_segment}
use simdhttp.Router.{SegKind, seg_lit, seg_single, seg_multi, Segment}

-- A number names each `http.Handler`.
pub record HandlerEntry : Type 0 where
  pub handler : ℕ
  pub names : List Bytes
  pub pattern : Bytes

-- `handlers` of a node: nil, or a slot for each method ID.
abbrev pub Handlers : Type 0
Handlers = Option (List (Option HandlerEntry))

-- `static` is an association list.
mutual
  pub data Node : Type 0 where
    node : Edges → Child → Child → Handlers → List Bytes → Node

  pub data Child : Type 0 where
    absent : Child
    present : Node → Child

  pub data Edges : Type 0 where
    no_edges : Edges
    edge : Bytes → Node → Edges → Edges

abbrev pub empty_node : Node
empty_node = node no_edges absent absent none []

abbrev pub handlers_of : Node → Handlers
handlers_of (node st si mu hs ms) = hs

abbrev pub methods_of : Node → List Bytes
methods_of (node st si mu hs ms) = ms

-- `n.static[text]`
abbrev pub find_edge : Bytes → Edges → Child
find_edge t no_edges = absent
find_edge t (edge u n es) = let rest = find_edge t es in if equal u t then present n else rest

-- The step of `insert` along an edge, which is created where it is missing.
unfoldable pub put_edge : Bytes → (Node → Node) → Edges → Edges
put_edge t f no_edges = edge t (f empty_node) no_edges
put_edge t f (edge u n es) =
    let rest = put_edge t f es in if equal u t then edge u (f n) es else edge u n rest

abbrev pub put_child : (Node → Node) → Child → Child
put_child f absent = present (f empty_node)
put_child f (present n) = present (f n)

-- `sort.Strings` after an append, on a list that is sorted.
abbrev pub less : Bytes → Bytes → Bool
less [] [] = false
less [] (y ∷ ys) = true
less (x ∷ xs) [] = false
less (x ∷ xs) (y ∷ ys) = ltb x y || (x == y && less xs ys)

abbrev pub insert_sorted : Bytes → List Bytes → List Bytes
insert_sorted m [] = m ∷ []
insert_sorted m (x ∷ xs) =
    let rest = insert_sorted m xs in if less x m then x ∷ rest else m ∷ x ∷ xs

abbrev pub nil_handlers : ℕ → List (Option HandlerEntry)
nil_handlers zero = []
nil_handlers (suc n) = none ∷ nil_handlers n

-- `n.handlers[i]`, nil where the index is out of range.
abbrev pub slot : ℕ → List (Option HandlerEntry) → Option HandlerEntry
slot i [] = none
slot zero (h ∷ hs) = h
slot (suc i) (h ∷ hs) = slot i hs

abbrev pub set_slot : ℕ → HandlerEntry → List (Option HandlerEntry) → List (Option HandlerEntry)
set_slot i e [] = []
set_slot zero e (h ∷ hs) = some e ∷ hs
set_slot (suc i) e (h ∷ hs) = h ∷ set_slot i e hs

abbrev pub allocated : ℕ → Handlers → List (Option HandlerEntry)
allocated num none = nil_handlers num
allocated num (some hs) = hs

abbrev pub is_taken : Option HandlerEntry → Bool
is_taken none = false
is_taken (some e) = true

-- The end of `insert`, at the node of the pattern: the first registration is kept.
unfoldable pub put_handler : ℕ → ℕ → Bytes → HandlerEntry → Node → Node
put_handler num id method e (node st si mu hs ms) =
    let hs' = allocated num hs in
    if is_taken (slot id hs')
    then node st si mu (some hs') ms
    else node st si mu (some (set_slot id e hs')) (insert_sorted method ms)

-- The loop of `insert` over the segments; `leaf` is what is done at the node of the pattern.
abbrev pub insert_step : SegKind → Bytes → (Node → Node) → Node → Node
insert_step seg_lit t f (node st si mu hs ms) = node (put_edge t f st) si mu hs ms
insert_step seg_single t f (node st si mu hs ms) = node st (put_child f si) mu hs ms
insert_step seg_multi t f (node st si mu hs ms) = node st si (put_child f mu) hs ms

unfoldable pub insert_at : (Node → Node) → List Segment → Node → Node
insert_at leaf [] n = leaf n
insert_at leaf (s ∷ ss) n = insert_step s.kind s.text (insert_at leaf ss) n

abbrev pub method_id_get : ℕ
method_id_get = 0

abbrev pub method_id_head : ℕ
method_id_head = 1

-- `want` is `none` for a negative method ID.
unfoldable pub serves_in : Handlers → Option ℕ → Bool
serves_in none want = false
serves_in (some hs) none = true
serves_in (some hs) (some id) =
    is_taken (slot id hs) || (id == method_id_head && is_taken (slot method_id_get hs))

abbrev pub serves : Node → Option ℕ → Bool
serves n want = serves_in (handlers_of n) want

-- The first segment of `rest`, and what is behind the slash.
abbrev pub cut_at : Bytes → Option ℕ → Bytes × Option Bytes
cut_at rest none = (rest, none)
cut_at rest (some j) = (take j rest, some (drop (suc j) rest))

abbrev pub cut_slash : Bytes → Bytes × Option Bytes
cut_slash rest = cut_at rest (index_byte rest b'/')

abbrev pub decoded_bytes : Decoded → Option Bytes
decoded_bytes (decoded out) = some out
decoded_bytes invalid_escape = none
decoded_bytes out_of_range = none

-- `decodeSegmentFast`
abbrev pub decode_escaped : Bytes → Option ℕ → Option Bytes
decode_escaped seg none = some seg
decode_escaped seg (some i) = decoded_bytes (decode_segment seg)

unfoldable pub decode_fast : Bytes → Option Bytes
decode_fast seg = decode_escaped seg (index_byte seg b'%')

abbrev pub max_inline_params : ℕ
max_inline_params = 8

-- `vals[i] = v` in the array of `max_inline_params` values.
abbrev pub set_value : ℕ → Bytes → List Bytes → List Bytes
set_value i v [] = []
set_value zero v (x ∷ xs) = v ∷ xs
set_value (suc i) v (x ∷ xs) = x ∷ set_value i v xs

-- The array after the call, and the node with the number of values bound.
abbrev pub Found : Type 0
Found = List Bytes × Option (Node × ℕ)

abbrev pub or_else : Found → (List Bytes → Found) → Found
or_else (vals, none) k = k vals
or_else (vals, some r) k = (vals, some r)

-- A value is bound while there is room.
abbrev pub bind_value : Bytes → List Bytes → ℕ → List Bytes × ℕ
bind_value v vals nv =
    if ltb nv max_inline_params then (set_value nv v vals, nv + 1) else (vals, nv)

-- Along an edge: the last segment ends at the child, any other goes on below it.
abbrev pub step_into :
    (Node → Bytes → List Bytes → ℕ → Found)
    → Option ℕ
    → Child
    → Option Bytes
    → List Bytes
    → ℕ
    → Found
step_into again want absent tail vals nv = (vals, none)
step_into again want (present c) none vals nv =
    if serves c want then (vals, some (c, nv)) else (vals, none)
step_into again want (present c) (some tail) vals nv = again c tail vals nv

abbrev pub try_single :
    (Node → Bytes → List Bytes → ℕ → Found)
    → Option ℕ
    → Child
    → Option Bytes
    → Bytes
    → List Bytes
    → ℕ
    → Found
try_single again want absent tail dec vals nv = (vals, none)
try_single again want (present c) tail dec vals nv =
    if is_empty dec
    then (vals, none)
    else let (vals', nv') = bind_value dec vals nv in
      step_into again want (present c) tail vals' nv'

abbrev pub bind_rest : Node → Option Bytes → List Bytes → ℕ → Found
bind_rest m none vals nv = (vals, none)
bind_rest m (some whole) vals nv =
    let (vals', nv') = bind_value whole vals nv in (vals', some (m, nv'))

abbrev pub try_multi : Option ℕ → Child → Bytes → List Bytes → ℕ → Found
try_multi want absent rest vals nv = (vals, none)
try_multi want (present m) rest vals nv =
    if serves m want then bind_rest m (decode_fast rest) vals nv else (vals, none)

abbrev pub match_decoded :
    (Node → Bytes → List Bytes → ℕ → Found)
    → Option ℕ
    → Node
    → Bytes
    → Option Bytes
    → Option Bytes
    → List Bytes
    → ℕ
    → Found
match_decoded again want n rest tail none vals nv = (vals, none)
match_decoded again want (node st si mu hs ms) rest tail (some dec) vals nv =
    or_else (step_into again want (find_edge dec st) tail vals nv) λ vals1.
      or_else (try_single again want si tail dec vals1 nv) λ vals2. try_multi want mu rest vals2 nv

unfoldable pub match_loop : ℕ → Option ℕ → Node → Bytes → List Bytes → ℕ → Found
match_loop zero want n rest vals nv = (vals, none)
match_loop (suc fuel) want n rest vals nv =
    let (seg, tail) = cut_slash rest in
    match_decoded (λ c t vs k. match_loop fuel want c t vs k) want n rest tail (decode_fast seg)
      vals nv

-- Each round takes a slash off the path.
unfoldable pub match_segments : Node → Bytes → Option ℕ → List Bytes → ℕ → Found
match_segments n rest want vals nv = match_loop (suc (length rest)) want n rest vals nv
