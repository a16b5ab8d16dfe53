-- ===== src/Router/Serve/Verdict.antt =====
-- What `ServeHTTP` does with a request whose path is clean.
use simdhttp.Common.{
  ℕ, ◌≡◌, inl, inr, refl, sym, ap, ◌∙◌, subst, Bool, true, false, not, ◌&&◌, none, some, List, [],
  ◌∷◌, ◌⊎◌, ◌++◌, if◌then◌else◌, Bytes, codes, take, equal, is_empty, Bool-cases,
}
use simdhttp.Router.Allow.{ends_in_slash}
use simdhttp.Router.Methods.{method_id}
use simdhttp.Router.Segments.{equal_refl}
use simdhttp.Router.Serve.Routes.{
  Serving, Routes, nowhere, somewhere, match_root-Routes, absent_serves, Child-cases,
}
use simdhttp.Router.Serve.{
  Request, Library, Router, Response, before_build, options_for_all, not_found, redirected,
  method_not_allowed, served, escaped_path, needs_clean, clean_path, host_key, blank_values,
  match_root, lookup_path, fall_back, search, bind_params, serve_no_route, answer, serve_path,
  serve_http, serve_entry, entry_for,
}
use simdhttp.Router.Tree.Leaves.{captures, Prefers}
use simdhttp.Router.Tree.Paths.{IsPath}
use simdhttp.Router.Tree.{
  Node, Child, absent, present, Edges, HandlerEntry, handlers_of, find_edge, Found,
  max_inline_params,
}
use simdhttp.Router.{Segment}

abbrev pub is_served : Response → Bool
is_served before_build = false
is_served (options_for_all allow) = false
is_served not_found = false
is_served (redirected target query) = false
is_served (method_not_allowed allow) = false
is_served (served h params) = true

-- No pattern of the host's trie takes the path and the method.
abbrev pub Nowhere : Edges → Bytes → Bytes → ℕ → Type 0
Nowhere roots host rest id =
    (ss : List Segment) (ps : List Bytes) (e : HandlerEntry)
    → IsPath rest ps
    → Serving roots host id ss ps e
    → ⊥

-- The trie that answers: that of the request's host, or the hostless one after it.
abbrev pub Looks : Edges → Bytes → Bytes → ℕ → Bytes → Type 0
Looks roots key rest id host = (host ≡ key) ⊎ ((host ≡ []) × Nowhere roots key rest id)

pub data IsAnswer (roots : Edges) (key rest : Bytes) (id : ℕ) : Response → Type 0 where
  by_route :
      (host : Bytes) (ss : List Segment) (ps : List Bytes) (e : HandlerEntry)
      → Looks roots key rest id host
      → IsPath rest ps
      → Serving roots host id ss ps e
      → ((ss' : List Segment) (e' : HandlerEntry)
          → Serving roots host id ss' ps e'
          → Prefers ss ss')
      → IsAnswer roots key rest id
          (served e.handler (bind_params e.names (take max_inline_params (captures ss ps))))
  by_router :
      {answer : Response}
      → Nowhere roots key rest id
      → Nowhere roots [] rest id
      → is_served answer ≡ false
      → IsAnswer roots key rest id answer

-- The search in both tries.
data IsSearched (roots : Edges) (key rest : Bytes) (id : ℕ) : Child × Found → Type 0 where
  in_neither :
      {root : Child} {vals : List Bytes}
      → Nowhere roots key rest id
      → Nowhere roots [] rest id
      → IsSearched roots key rest id (root, (vals, none))
  in_one :
      {vals : List Bytes} {nv : ℕ} {c : Node} (host : Bytes)
      → Looks roots key rest id host
      → Routes roots host rest id (vals, some (c, nv))
      → IsSearched roots key rest id (find_edge host roots, (vals, some (c, nv)))

empty_is : (key : Bytes) → is_empty key ≡ true → key ≡ []
empty_is [] h = refl
empty_is (x ∷ xs) h = cc

second_IsSearched :
    (roots : Edges) (key rest : Bytes) (id : ℕ) (r : Found)
    → Nowhere roots key rest id
    → Routes roots [] rest id r
    → IsSearched roots key rest id (find_edge [] roots, r)
second_IsSearched roots key rest id _ none_first (nowhere room h) = in_neither none_first h
second_IsSearched roots key rest id _ none_first (somewhere ss ps e path k entry bound best) =
    in_one [] (inr (refl, none_first)) (somewhere ss ps e path k entry bound best)

fall_back-IsSearched :
    (roots : Edges) (key rest : Bytes) (id : ℕ) (r : Found)
    → Routes roots key rest id r
    → IsSearched roots key rest id (fall_back roots key rest (some id) r)
fall_back-IsSearched roots key rest id _ (nowhere {vals = vals} room h) =
    elim (Bool-cases (is_empty key)) [
      | inl hostless ↦
          rw hostless
            (in_neither h (subst (λ x. Nowhere roots x rest id) (empty_is key hostless) h))
      | inr named ↦ rw named (
          second_IsSearched roots key rest id (match_root (find_edge [] roots) rest (some id) vals)
            h (match_root-Routes roots [] rest id vals room))
    ]
fall_back-IsSearched roots key rest id _ (somewhere ss ps e path k entry bound best) =
    in_one key (inl refl) (somewhere ss ps e path k entry bound best)

search-IsSearched :
    (roots : Edges) (key rest : Bytes) (id : ℕ)
    → IsSearched roots key rest id (search roots key rest (some id))
unfolding search
search-IsSearched roots key rest id =
    fall_back-IsSearched roots key rest id
      (match_root (find_edge key roots) rest (some id) blank_values)
      (match_root-Routes roots key rest id blank_values refl)

no_route_answer :
    (r : Router) (root : Child) (path : Bytes) → is_served (serve_no_route r root path) ≡ false
unfolding serve_no_route
no_route_answer r root path = elim (Bool-cases (lookup_path root path none)) [
  | inl h ↦ rw h refl
  | inr h ↦
      elim (Bool-cases (
        r.redirect_trailing_slash
        && (not (ends_in_slash path) && lookup_path root (path ++ b'/' ∷ []) none))) [
          | inl k ↦ rw (h, k) refl
          | inr k ↦ rw (h, k) refl
        ]
]

module _ (lib : Library) (r : Router) (req : Request) (path : Bytes) (id : ℕ) where
  not_served :
      (root : Child) (vals : List Bytes)
      → is_served (answer lib r req path path (some id) root (vals, none)) ≡ false
  unfolding answer
  not_served absent vals = refl
  not_served (present n) vals =
      elim (Bool-cases (
        r.redirect_trailing_slash
        && (not (ends_in_slash path) && lookup_path (present n) (path ++ b'/' ∷ []) (some id)))) [
          | inl h ↦ rw h refl
          | inr h ↦ rw (h, equal_refl path) (no_route_answer r (present n) path)
        ]

  serves_entry :
      (n c : Node) (vals : List Bytes) (nv : ℕ) (e : HandlerEntry)
      → entry_for (handlers_of c) (some id) ≡ some e
      → answer lib r req path path (some id) (present n) (vals, some (c, nv))
        ≡ serve_entry e vals nv
  unfolding answer
  serves_entry n c vals nv e entry = rw (equal_refl path, entry) refl

  answer-IsAnswer :
      (key rest : Bytes) (root : Child) (found : Found)
      → IsSearched r.roots key rest id (root, found)
      → IsAnswer r.roots key rest id (answer lib r req path path (some id) root found)
  answer-IsAnswer key rest root _ (in_neither {vals = vals} h h') =
      by_router h h' (not_served root vals)
  answer-IsAnswer key rest _ _
        (in_one {vals = vals} {nv = nv} {c = c} host looks
          (somewhere ss ps e path' k entry bound best)) =
      elim (Child-cases (find_edge host r.roots)) [
        | inl gone ↦ absurd (absent_serves r.roots host id ss ps e gone k)
        | inr (n, is) ↦ rw is (
            subst (IsAnswer r.roots key rest id)
              (sym (
                serves_entry n c vals nv e entry
                ∙ ap (λ vs. served e.handler (bind_params e.names vs)) bound))
              (by_route host ss ps e looks path' k best))
      ]

no_asterisk : (rest : Bytes) → equal (b'/' ∷ rest) (b'*' ∷ []) ≡ false
unfolding equal
no_asterisk rest = refl

nothing_asked : (b : Bool) → (b && false) ≡ false
nothing_asked true = refl
nothing_asked false = refl

kept_path :
    (lib : Library) (connect : Bool) (p : Bytes)
    → needs_clean p ≡ false
    → (if connect then p else clean_path lib p) ≡ p
unfolding clean_path
kept_path lib true p h = refl
kept_path lib false p h = rw h refl

searched :
    (lib : Library) (r : Router) (req : Request) (rest : Bytes) (id : ℕ)
    → method_id r.methods req.method ≡ some id
    → IsAnswer r.roots
        (host_key lib r req.host)
        rest
        id
        (serve_path lib r req (b'/' ∷ rest) (b'/' ∷ rest))
searched lib r req rest id known = rw known (
    answer-IsAnswer lib r req (b'/' ∷ rest) id (host_key lib r req.host) rest
      (search r.roots (host_key lib r req.host) rest (some id)).0
      (search r.roots (host_key lib r req.host) rest (some id)).1
      (search-IsSearched r.roots (host_key lib r req.host) rest id))

-- A built router answers a request whose path is clean, and whose method the table knows, in one of
-- two ways. Where a pattern of the trie of its host that has an entry for the method matches the
-- path, or else one of the hostless trie, the handler of such an entry runs, with the values that
-- the pattern's wildcards take bound to the names that were registered with the entry, the first
-- eight of them; and where another such pattern parts from it, the one chosen has the literal or the
-- other one the wildcard. Where no such pattern matches, no handler runs.
pub serve_http-IsAnswer :
    (lib : Library) (r : Router) (req : Request) (rest : Bytes) (id : ℕ)
    → r.built ≡ true
    → equal req.request_uri (b'*' ∷ []) ≡ false
    → escaped_path lib req ≡ b'/' ∷ rest
    → needs_clean (b'/' ∷ rest) ≡ false
    → method_id r.methods req.method ≡ some id
    → IsAnswer r.roots (host_key lib r req.host) rest id (serve_http lib r req)
unfolding serve_http host_key answer serve_no_route
serve_http-IsAnswer lib r req rest id built uri path clean known =
    let m = req.method in
    rw (built, path, uri, no_asterisk rest, nothing_asked (equal m (codes "OPTIONS")))
      (rw (kept_path lib (equal m (codes "CONNECT")) (b'/' ∷ rest) clean)
        (searched lib r req rest id known))

unknown_answer :
    (lib : Library) (r : Router) (req : Request) (path : Bytes) (root : Child) (found : Found)
    → is_served (answer lib r req path path none root found) ≡ false
unfolding answer
unknown_answer lib r req path absent found = refl
unknown_answer lib r req path (present n) (vals, some (c, nv)) = rw (equal_refl path) refl
unknown_answer lib r req path (present n) (vals, none) =
    elim (Bool-cases (
      r.redirect_trailing_slash
      && (not (ends_in_slash path) && lookup_path (present n) (path ++ b'/' ∷ []) none))) [
        | inl h ↦ rw h refl
        | inr h ↦ rw (h, equal_refl path) (no_route_answer r (present n) path)
      ]

unknown_searched :
    (lib : Library) (r : Router) (req : Request) (rest : Bytes)
    → method_id r.methods req.method ≡ none
    → is_served (serve_path lib r req (b'/' ∷ rest) (b'/' ∷ rest)) ≡ false
unknown_searched lib r req rest unknown = rw unknown (
    unknown_answer lib r req (b'/' ∷ rest) (search r.roots (host_key lib r req.host) rest none).0
      (search r.roots (host_key lib r req.host) rest none).1)

-- A method that no route has runs no handler.
pub serve_http-unknown :
    (lib : Library) (r : Router) (req : Request) (rest : Bytes)
    → r.built ≡ true
    → equal req.request_uri (b'*' ∷ []) ≡ false
    → escaped_path lib req ≡ b'/' ∷ rest
    → needs_clean (b'/' ∷ rest) ≡ false
    → method_id r.methods req.method ≡ none
    → is_served (serve_http lib r req) ≡ false
unfolding serve_http host_key answer serve_no_route
serve_http-unknown lib r req rest built uri path clean unknown =
    let m = req.method in
    rw (built, path, uri, no_asterisk rest, nothing_asked (equal m (codes "OPTIONS")))
      (rw (kept_path lib (equal m (codes "CONNECT")) (b'/' ∷ rest) clean)
        (unknown_searched lib r req rest unknown))
