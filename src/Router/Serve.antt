-- ===== src/Router/Serve.antt =====
-- `ServeHTTP` of router.go: the tries it looks in, the redirects, the answers.
pub mod Routes
pub mod Verdict
use simdhttp.Common.{
  ℕ, zero, suc, ◌-◌, ◌≡◌, Bool, true, false, not, ◌&&◌, ◌||◌, Option, none, some, List, [], ◌∷◌,
  ◌++◌, ◌==◌, if◌then◌else◌, Bytes, codes, length, take, drop, is_empty, equal, index_byte,
}
use simdhttp.Router.Allow.{allow_value, ends_in_slash}
use simdhttp.Router.Methods.{MethodTable, method_id}
use simdhttp.Router.Tree.{
  Node, Child, absent, present, Edges, Handlers, HandlerEntry, handlers_of, find_edge, slot, Found,
  match_segments, method_id_get, method_id_head,
}

-- What the request holds; a number names each `url.URL` that the library parsed.
pub record Request : Type 0 where
  pub method : Bytes
  pub host : Bytes
  pub request_uri : Bytes
  pub url : Option ℕ

-- `EscapedPath`, `Path` and `RawQuery` of a URL, `path.Clean` and `strings.ToLower`.
pub record Library : Type 0 where
  pub escaped_path_of : ℕ → Bytes
  pub path_of : ℕ → Bytes
  pub raw_query_of : ℕ → Bytes
  pub clean : Bytes → Bytes
  pub to_lower : Bytes → Bytes

pub record Router : Type 0 where
  pub built : Bool
  pub redirect_trailing_slash : Bool
  pub host_routes : Bool
  pub allow_all : Bytes
  pub methods : MethodTable
  pub roots : Edges

-- What is done with the request: an answer of the router's own, or the handler that is called,
-- after its path values are set.
pub data Response : Type 0 where
  before_build : Response
  options_for_all : Bytes → Response
  not_found : Response
  redirected : Bytes → Bytes → Response
  method_not_allowed : Bytes → Response
  served : ℕ → List (Bytes × Bytes) → Response

abbrev pub escaped_path : Library → Request → Bytes
escaped_path lib req = elim req.url [ none ↦ b'/' ∷ [] | some u ↦ lib.escaped_path_of u ]

-- `needsClean`
abbrev pub dots_or_slashes : Bytes → Bool
dots_or_slashes [] = false
dots_or_slashes (c ∷ []) = false
dots_or_slashes (c ∷ d ∷ ds) = (c == b'/' && (d == b'/' || d == b'.')) || dots_or_slashes (d ∷ ds)

abbrev pub ends_in_dot : Bytes → Bool
ends_in_dot [] = false
ends_in_dot (c ∷ []) = c == b'.'
ends_in_dot (c ∷ d ∷ ds) = ends_in_dot (d ∷ ds)

unfoldable pub needs_clean : Bytes → Bool
needs_clean [] = true
needs_clean (c ∷ cs) = not (c == b'/') || (dots_or_slashes (c ∷ cs) || ends_in_dot (c ∷ cs))

abbrev pub keep_slash : Bytes → Bytes → Bytes
keep_slash p np = if ends_in_slash p && not (equal np (b'/' ∷ [])) then np ++ b'/' ∷ [] else np

abbrev pub rooted : Bytes → Bytes
rooted [] = []
rooted (c ∷ cs) = if c == b'/' then c ∷ cs else b'/' ∷ c ∷ cs

abbrev pub cleaned : Library → Bytes → Bytes
cleaned lib [] = b'/' ∷ []
cleaned lib (c ∷ cs) = keep_slash (rooted (c ∷ cs)) (lib.clean (rooted (c ∷ cs)))

unfoldable pub clean_path : Library → Bytes → Bytes
clean_path lib p = if needs_clean p then cleaned lib p else p

-- `strings.LastIndexByte`
abbrev pub later_index : Option ℕ → Option ℕ → Option ℕ
later_index here none = here
later_index here (some j) = some (suc j)

abbrev pub last_index_byte : Bytes → ℕ → Option ℕ
last_index_byte [] c = none
last_index_byte (x ∷ xs) c =
    let rest = last_index_byte xs c in later_index (if x == c then some 0 else none) rest

-- The port goes, unless the colon is within brackets.
abbrev pub strip_port : Bytes → Option ℕ → Bytes
strip_port host none = host
strip_port host (some i) = elim (index_byte (drop i host) b']') [
  | none ↦ take i host
  | some j ↦ host
]

-- The key of a trie that is there, else the key of the hostless trie.
abbrev pub key_if : Bytes → Child → Bytes
key_if key absent = []
key_if key (present n) = key

-- `hostRoot`, as the key of its trie in `roots`: two tries are one exactly when their keys are.
unfoldable pub host_key : Library → Router → Bytes → Bytes
host_key lib r host =
    if not r.host_routes || is_empty host
    then []
    else (let key = lib.to_lower (strip_port host (last_index_byte host b':')) in
        key_if key (find_edge key r.roots))

abbrev pub blank_values : List Bytes
blank_values = [] ∷ [] ∷ [] ∷ [] ∷ [] ∷ [] ∷ [] ∷ [] ∷ []

abbrev pub match_root : Child → Bytes → Option ℕ → List Bytes → Found
match_root absent rest want vals = (vals, none)
match_root (present n) rest want vals = match_segments n rest want vals 0

-- `lookupPath`, whether it finds a node.
abbrev pub is_found : Found → Bool
is_found (vals, none) = false
is_found (vals, some r) = true

abbrev pub lookup_path : Child → Bytes → Option ℕ → Bool
lookup_path root [] want = false
lookup_path root (c ∷ rest) want =
    if c == b'/' then is_found (match_root root rest want blank_values) else false

-- The trie of the host, then the hostless one, with the same array.
abbrev pub fall_back : Edges → Bytes → Bytes → Option ℕ → Found → Child × Found
fall_back roots key rest want (vals, none) =
    if is_empty key
    then (find_edge key roots, (vals, none))
    else (find_edge [] roots, match_root (find_edge [] roots) rest want vals)
fall_back roots key rest want (vals, some r) = (find_edge key roots, (vals, some r))

unfoldable pub search : Edges → Bytes → Bytes → Option ℕ → Child × Found
search roots key rest want =
    fall_back roots key rest want (match_root (find_edge key roots) rest want blank_values)

-- `serveEntry`: names without a value, and values without a name, are not bound.
abbrev pub bind_params : List Bytes → List Bytes → List (Bytes × Bytes)
bind_params [] vals = []
bind_params (n ∷ names) [] = []
bind_params (n ∷ names) (v ∷ vals) =
    let rest = bind_params names vals in if is_empty n then rest else (n, v) ∷ rest

abbrev pub serve_entry : HandlerEntry → List Bytes → ℕ → Response
serve_entry e vals nv = served e.handler (bind_params e.names (take nv vals))

abbrev pub not_allowed : Child → Bytes → Response
not_allowed root path = method_not_allowed (allow_value root path)

-- `n.handlers[id]`, nil where `n.handlers` is.
abbrev pub entry_in : Handlers → ℕ → Option HandlerEntry
entry_in none id = none
entry_in (some hs) id = slot id hs

-- HEAD is served by GET where it has no entry of its own.
abbrev pub head_or_get : Option HandlerEntry → ℕ → Option HandlerEntry → Option HandlerEntry
head_or_get (some e) id get = some e
head_or_get none id get = if id == method_id_head then get else none

-- The entry of a node for a method ID, which is `none` where it is negative.
abbrev pub entry_for : Handlers → Option ℕ → Option HandlerEntry
entry_for hs none = none
entry_for hs (some id) = head_or_get (entry_in hs id) id (entry_in hs method_id_get)

abbrev pub serve_node : Child → Bytes → List Bytes → ℕ → Option HandlerEntry → Response
serve_node root path vals nv none = not_allowed root path
serve_node root path vals nv (some e) = serve_entry e vals nv

unfoldable pub serve_no_route : Router → Child → Bytes → Response
serve_no_route r root path =
    if lookup_path root path none
    then not_allowed root path
    else (if r.redirect_trailing_slash
          && (not (ends_in_slash path) && lookup_path root (path ++ b'/' ∷ []) none)
        then not_allowed root path
        else not_found)

abbrev pub query_of : Library → Request → Bytes
query_of lib req = elim req.url [ none ↦ [] | some u ↦ lib.raw_query_of u ]

abbrev pub slash_target : Library → Request → Bytes → Bytes
slash_target lib req path = elim req.url [
  | none ↦ path ++ b'/' ∷ []
  | some u ↦ clean_path lib (lib.path_of u) ++ b'/' ∷ []
]

abbrev pub serve_found : Router → Child → Bytes → Option ℕ → Found → Response
serve_found r root path id (vals, none) = serve_no_route r root path
serve_found r root path id (vals, some (n, nv)) =
    serve_node root path vals nv (entry_for (handlers_of n) id)

-- What follows the search, on a trie.
unfoldable pub answer :
    Library → Router → Request → Bytes → Bytes → Option ℕ → Child → Found → Response
answer lib r req escaped path id absent found = not_found
answer lib r req escaped path id (present root) found =
    if not (is_found found)
      && (r.redirect_trailing_slash
          && (not (ends_in_slash path) && lookup_path (present root) (path ++ b'/' ∷ []) id))
    then redirected (slash_target lib req path) (query_of lib req)
    else (if equal path escaped
        then serve_found r (present root) path id found
        else redirected path (query_of lib req))

abbrev pub serve_path : Library → Router → Request → Bytes → Bytes → Response
serve_path lib r req escaped [] = not_found
serve_path lib r req escaped (c ∷ rest) =
    if c == b'/'
    then (let id = method_id r.methods req.method in
        let (root, found) = search r.roots (host_key lib r req.host) rest id in
        answer lib r req escaped (c ∷ rest) id root found)
    else not_found

unfoldable pub serve_http : Library → Router → Request → Response
serve_http lib r req =
    if not r.built
    then before_build
    else (let escaped = escaped_path lib req in
        if equal req.method (codes "OPTIONS")
          && (equal escaped (b'*' ∷ []) || equal req.request_uri (b'*' ∷ []))
        then options_for_all r.allow_all
        else serve_path lib r req escaped
            (if equal req.method (codes "CONNECT") then escaped else clean_path lib escaped))
