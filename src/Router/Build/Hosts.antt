-- ===== src/Router/Build/Hosts.antt =====
-- The trie that `hostRoot` of router.go picks, and the answer by the host of the request.
use simdhttp.Common.{
  ℕ, ◌≡◌, inl, inr, refl, sym, ap, ◌∙◌, subst, Bool, true, false, not, ◌||◌, List, [], ◌∷◌, arith,
  Bytes, equal, Among, here, there, Bool-cases,
}
use simdhttp.Router.Build.Dispatch.{serve_http-host_key}
use simdhttp.Router.Build.Verdict.{Dispatches, to_route, to_none, NoRoute}
use simdhttp.Router.Build.{Registration, methods_in, names_host, compile}
use simdhttp.Router.Methods.{MethodTable, assign_method_ids}
use simdhttp.Router.Segments.{equal_sound, equal_refl}
use simdhttp.Router.Serve.{
  Request, Response, Library, Router, key_if, escaped_path, needs_clean, last_index_byte,
  strip_port, host_key, serve_http,
}
use simdhttp.Router.Table.{ParsedRoute, insert, insert_all}
use simdhttp.Router.Tree.Inserts.{find_edge-put_edge}
use simdhttp.Router.Tree.Leaves.{IsPattern}
use simdhttp.Router.Tree.{Node, Child, absent, present, Edges, no_edges, edge, find_edge, put_edge}
use simdhttp.Router.Build.Keys.{HostKey, no_host, strip_port-HostKey}

abbrev is_there : Child → Bool
is_there absent = false
is_there (present n) = true

put_edge-there :
    (u t : Bytes) (f : Node → Node) (es : Edges)
    → is_there (find_edge u es) ≡ true
    → is_there (find_edge u (put_edge t f es)) ≡ true
put_edge-there u t f es h = elim (Bool-cases (equal t u)) [
  | inl same ↦ rw (find_edge-put_edge u t f es, same) refl
  | inr other ↦ rw (find_edge-put_edge u t f es, other) h
]

module _ (t : MethodTable) (wrap : ℕ → ℕ) where
  insert-there :
      (p : ParsedRoute) (roots : Edges) → is_there (find_edge p.host (insert t wrap p roots)) ≡ true
  unfolding insert
  insert-there p roots = rw (find_edge-put_edge p.host p.host _ roots, equal_refl p.host) refl

  insert_all-keeps :
      (ps : List ParsedRoute) (u : Bytes) (roots : Edges)
      → is_there (find_edge u roots) ≡ true
      → is_there (find_edge u (insert_all t wrap ps roots).0) ≡ true
  unfolding insert_all insert
  insert_all-keeps [] u roots h = h
  insert_all-keeps (p ∷ ps) u roots h =
      insert_all-keeps ps u (insert t wrap p roots) (put_edge-there u p.host _ roots h)

  -- Each route's host has its trie.
  insert_all-there :
      (p : ParsedRoute) (ps : List ParsedRoute) (roots : Edges)
      → Among p ps
      → is_there (find_edge p.host (insert_all t wrap ps roots).0) ≡ true
  unfolding insert_all
  insert_all-there p _ roots (here {ms = ps}) =
      insert_all-keeps ps p.host (insert t wrap p roots) (insert-there p roots)
  insert_all-there p _ roots (there {x = q} {ms = ps} k) =
      insert_all-there p ps (insert t wrap q roots) k

-- Where no key is a host, only the hostless trie can be there.
names_host-there :
    (u : Bytes) (es : Edges) → is_there (find_edge u es) ≡ true → names_host es ≡ false → u ≡ []
names_host-there u no_edges h none_named = cc
names_host-there u (edge [] n es) h none_named = elim (Bool-cases (equal [] u)) [
  | inl same ↦ sym (equal_sound [] u same)
  | inr other ↦ names_host-there u es (rw other at h) none_named
]
names_host-there u (edge (c ∷ cs) n es) h none_named = cc

-- Where no route has the key as its host, the routes without a host are the ones to be asked.
unnamed-Dispatches :
    {wrap : ℕ → ℕ} {ps : List ParsedRoute} {rest m : Bytes} (key : Bytes) (r : Response)
    → NoRoute ps rest m key
    → Dispatches wrap ps [] rest m r
    → Dispatches wrap ps key rest m r
unnamed-Dispatches key _ unnamed (to_route p qs k (inl hostless) path takes best bound binds) =
    to_route p qs k (inr (hostless, unnamed)) path takes best bound binds
unnamed-Dispatches key _ unnamed (to_route p qs k (inr (hostless, _)) path takes best bound binds) =
    to_route p qs k (inr (hostless, unnamed)) path takes best bound binds
unnamed-Dispatches key r unnamed (to_none none_here none_else unserved) =
    to_none unnamed none_else unserved

hostless-Dispatches :
    {wrap : ℕ → ℕ} {ps : List ParsedRoute} {rest m : Bytes} (key : Bytes) (r : Response)
    → ((p : ParsedRoute) → Among p ps → p.host ≡ key → key ≡ [])
    → Dispatches wrap ps [] rest m r
    → Dispatches wrap ps key rest m r
hostless-Dispatches [] r alone d = d
hostless-Dispatches (c ∷ cs) r alone d =
    unnamed-Dispatches (c ∷ cs) r (λ p qs k path takes. let bad = alone p k takes.same_host in cc) d

key_if-there : (key : Bytes) (ch : Child) → is_there ch ≡ true → key_if key ch ≡ key
key_if-there key absent h = cc
key_if-there key (present n) h = refl

key_if-absent : (key : Bytes) (ch : Child) → is_there ch ≡ false → key_if key ch ≡ []
key_if-absent key absent h = refl
key_if-absent key (present n) h = cc

module _ (lib : Library) (t : MethodTable) (wrap : ℕ → ℕ) (ps : List ParsedRoute) (r : Router)
    (roots_are : r.roots ≡ (insert_all t wrap ps no_edges).0)
    (named_are : r.host_routes ≡ names_host r.roots) where
  route-there : (p : ParsedRoute) → Among p ps → is_there (find_edge p.host r.roots) ≡ true
  route-there p k =
      ap (λ es. is_there (find_edge p.host es)) roots_are ∙ insert_all-there t wrap p ps no_edges k

  -- The trie that the code picks answers as the host of the request asks.
  host_key-Dispatches :
      {rest m : Bytes} {x : Response} (host : Bytes)
      → Dispatches wrap ps (host_key lib r host) rest m x
      → (key : Bytes) × HostKey lib host key × Dispatches wrap ps key rest m x
  unfolding host_key
  host_key-Dispatches {rest} {m} {x} [] d =
      let off : (not r.host_routes || true) ≡ true = ground arith in ([], no_host, rw off at d)
  host_key-Dispatches {rest} {m} {x} (c ∷ cs) d =
      let key = lib.to_lower (strip_port (c ∷ cs) (last_index_byte (c ∷ cs) b':')) in
      let is_key = strip_port-HostKey lib (c ∷ cs) (λ e. cc) in
      let there_is = λ (p : ParsedRoute) (k : Among p ps) (same : p.host ≡ key).
        subst (λ h. is_there (find_edge h r.roots) ≡ true) same (route-there p k) in
      elim (Bool-cases r.host_routes) [
        | inr off ↦
            let alone : (p : ParsedRoute) → Among p ps → p.host ≡ key → key ≡ [] =
              λ p k same. names_host-there key r.roots (there_is p k same) (sym named_are ∙ off) in
            (key, is_key, hostless-Dispatches key x alone (rw off at d))
        | inl on ↦ elim (Bool-cases (is_there (find_edge key r.roots))) [
          | inl there_now ↦
              (key, is_key, rw (on, key_if-there key (find_edge key r.roots) there_now) at d)
          | inr gone ↦
              let alone : (p : ParsedRoute) → Among p ps → p.host ≡ key → key ≡ [] =
                λ p k same. (let found = there_is p k same in cc) in
              (
                key,
                is_key,
                hostless-Dispatches key x alone
                    (rw (on, key_if-absent key (find_edge key r.roots) gone) at d),
              )
        ]
      ]

-- A table compiled from routes whose patterns are well formed answers a request, whose escaped path is
-- clean and whose request URI is not the asterisk, as the routes say. The host is the request's,
-- lower-cased and without its port, a colon before a closing bracket being none of a port. Where a
-- route of that host, or else a route without a host, matches the path and has the request's method, or
-- has GET where the request has HEAD, such a route's handler runs, with the values that the wildcards of
-- its pattern take, the first eight of them, bound to its own names that are not empty, and no other
-- such route of the same host is more specific. Where there is no such route, no handler runs.
pub serve_http-Dispatches :
    (lib : Library) (wrap : ℕ → ℕ) (redirects : Bool) (regs : List Registration)
    (ps : List ParsedRoute) (req : Request) (rest : Bytes)
    → ((p : ParsedRoute) → Among p ps → IsPattern p.segs)
    → equal req.request_uri (b'*' ∷ []) ≡ false
    → escaped_path lib req ≡ b'/' ∷ rest
    → needs_clean (b'/' ∷ rest) ≡ false
    → (key : Bytes) × HostKey lib req.host key
      × Dispatches wrap ps key rest req.method (serve_http lib (compile wrap redirects regs ps) req)
unfolding compile
serve_http-Dispatches lib wrap redirects regs ps req rest patterns uri path clean =
    host_key-Dispatches lib (assign_method_ids (methods_in ps)) wrap ps
      (compile wrap redirects regs ps) refl refl req.host
      (serve_http-host_key lib wrap redirects regs ps req rest patterns uri path clean)
