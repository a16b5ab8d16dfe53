-- ===== src/Router/Build/Dispatch.antt =====
-- From the routes of a table to the handler that a request runs.
use simdhttp.Common.{
  ℕ, ◌≡◌, inl, inr, refl, sym, ap, ◌∙◌, subst, Bool, true, false, Option, none, some, List, [], ◌∷◌,
  ◌==◌, ==_iff, Bytes, codes, take, equal, Bool-cases, Option-cases,
}
use simdhttp.Router.Build.Same.{same_node_sym, same_Matches, same_captures}
use simdhttp.Router.Build.{Registration, methods_in, compile}
use simdhttp.Router.Conflicts.{IsMoreSpecific}
use simdhttp.Router.Methods.{MethodTable, method_id, assign_method_ids}
use simdhttp.Common.{Among, here, there}
use simdhttp.Router.Methods.Ids.{IsMethodTable, assign_method_ids-IsMethodTable}
use simdhttp.Router.Segments.{Matches}
use simdhttp.Router.Serve.Routes.{Serving}
use simdhttp.Router.Serve.{
  Request, Library, Response, served, escaped_path, needs_clean, host_key, bind_params, serve_http,
  entry_in, entry_for, head_or_get,
}
use simdhttp.Router.Serve.Verdict.{
  Nowhere, IsAnswer, by_route, by_router, serve_http-IsAnswer, serve_http-unknown,
}
use simdhttp.Router.Table.Entries.{handlers_in}
use simdhttp.Router.Table.First.{first_entry, insert_all-first_entry}
use simdhttp.Router.Table.{ParsedRoute, entry_of, insert_all}
use simdhttp.Router.Tree.Inserts.{same_node}
use simdhttp.Router.Tree.Leaves.{captures, IsPattern, Prefers}
use simdhttp.Router.Tree.Specific.{Prefers-not_specific}
use simdhttp.Router.Tree.{
  Edges, no_edges, HandlerEntry, max_inline_params, method_id_head, method_id_get,
}
use simdhttp.Router.{Segment}
use simdhttp.Router.Build.Picks.{
  entry_in-slot_of, get_id, head_id, first_entry-route, first_entry-some, picked, picks_own,
  id_of_same,
}
use simdhttp.Router.Build.Verdict.{
  AnswersMethod, Takes, NoRoute, bind_params-Binds, Dispatches, to_route, to_none,
}

module _ (wrap : ℕ → ℕ) (t : MethodTable) (ps : List ParsedRoute) (ms : List Bytes)
    (table : IsMethodTable ms t) where
  roots : Edges
  roots = (insert_all t wrap ps no_edges).0

  entry_of_slots :
      (host : Bytes) (ss : List Segment) (j : ℕ)
      → entry_in (handlers_in roots host ss) j ≡ first_entry t wrap ps host ss j
  unfolding roots
  entry_of_slots host ss j =
      entry_in-slot_of (handlers_in roots host ss) j
      ∙ insert_all-first_entry t wrap ps ms host ss j table

  entry_of_routes :
      (host : Bytes) (ss : List Segment) (id : ℕ)
      → entry_for (handlers_in roots host ss) (some id)
        ≡ head_or_get
            (first_entry t wrap ps host ss id)
            id
            (first_entry t wrap ps host ss method_id_get)
  entry_of_routes host ss id =
      ap (λ x. head_or_get x id (entry_in (handlers_in roots host ss) method_id_get))
        (entry_of_slots host ss id)
      ∙ ap (head_or_get (first_entry t wrap ps host ss id) id)
          (entry_of_slots host ss method_id_get)

  -- The route that an entry is of.
  record Behind (m host : Bytes) (ss : List Segment) (e : HandlerEntry) (p : ParsedRoute)
      : Type 0 where
    among : Among p ps
    same_host : p.host ≡ host
    node_is : same_node p.segs ss ≡ true
    for_method : AnswersMethod m p
    entry_is : entry_of wrap p ≡ e

  route_with_id :
      (m host : Bytes) (ss : List Segment) (j : ℕ) (e : HandlerEntry)
      → ((p : ParsedRoute) → method_id t p.method ≡ some j → AnswersMethod m p)
      → first_entry t wrap ps host ss j ≡ some e
      → (p : ParsedRoute) × Behind m host ss e p
  route_with_id m host ss j e answers h =
      let (p, (k, (is, entry))) = first_entry-route wrap t ps host ss j e h in
      let (same, (segs, id)) = picked wrap t host ss j p is in
      (
        p,
        record {
          among = k;
          same_host = same;
          node_is = segs;
          for_method = answers p id;
          entry_is = entry;
        },
      )

  route-Behind :
      (m host : Bytes) (ss : List Segment) (id : ℕ) (e : HandlerEntry)
      → method_id t m ≡ some id
      → head_or_get
          (first_entry t wrap ps host ss id)
          id
          (first_entry t wrap ps host ss method_id_get)
        ≡ some e
      → (p : ParsedRoute) × Behind m host ss e p
  route-Behind m host ss id e known h = elim (Option-cases (first_entry t wrap ps host ss id)) [
    | inr (e', own) ↦
        route_with_id m host ss id e (λ p is. inl (table.distinct p.method m id is known))
          (own ∙ rw own at h)
    | inl none_own ↦ elim (Bool-cases (id == method_id_head)) [
      | inr other ↦ cc (rw (none_own, other) at h)
      | inl head ↦
          let is : id ≡ method_id_head = (==_iff id method_id_head).0 head in
          route_with_id m host ss method_id_get e
            (λ p get. inr (
              table.distinct m (codes "HEAD") id known (head_id t ∙ ap some (sym is)),
              table.distinct p.method (codes "GET") method_id_get get (get_id t),
            ))
            (rw (none_own, head) at h)
    ]
  ]

  entry_behind :
      (m : Bytes) (id : ℕ) (p : ParsedRoute)
      → method_id t m ≡ some id
      → Among p ps
      → AnswersMethod m p
      → (e : HandlerEntry) × (head_or_get
            (first_entry t wrap ps p.host p.segs id)
            id
            (first_entry t wrap ps p.host p.segs method_id_get)
          ≡ some e)
  entry_behind m id p known k (inl same) =
      let (e, h) =
        first_entry-some wrap t p p.host p.segs id ps
          (picks_own wrap t id p p.host refl (ap (method_id t) same ∙ known)) k in
      (e, rw h refl)
  entry_behind m id p known k (inr (head, get)) =
      let is : id ≡ method_id_head =
        id_of_same t m (codes "HEAD") id method_id_head head known (head_id t) in
      let (e, h) =
        first_entry-some wrap t p p.host p.segs method_id_get ps
          (picks_own wrap t method_id_get p p.host refl (ap (method_id t) get ∙ get_id t)) k in
      let own_is : (id == method_id_head) ≡ true = (==_iff id method_id_head).1 is in
      elim (Option-cases (first_entry t wrap ps p.host p.segs id)) [
        | inr (e', own) ↦ (e', rw own refl)
        | inl none_own ↦ (e, rw (none_own, own_is) h)
      ]

  module _ (patterns : (p : ParsedRoute) → Among p ps → IsPattern p.segs) where
    Takes-Serving :
        (m host : Bytes) (id : ℕ) (p : ParsedRoute) (qs : List Bytes)
        → method_id t m ≡ some id
        → Among p ps
        → Takes m host qs p
        → (e : HandlerEntry) × Serving roots host id p.segs qs e
    Takes-Serving m host id p qs known k takes =
        let (e, h) = entry_behind m id p known k takes.for_method in
        (
          e,
          record {
            is_pattern = patterns p k;
            matches = takes.matches;
            entry =
                entry_of_routes host p.segs id
                ∙ ap
                    (λ x.
                      head_or_get (first_entry t wrap ps x p.segs id) id
                        (first_entry t wrap ps x p.segs method_id_get))
                    (sym takes.same_host)
                ∙ h;
          },
        )

    Nowhere-NoRoute :
        (rest m host : Bytes) (id : ℕ)
        → method_id t m ≡ some id
        → Nowhere roots host rest id
        → NoRoute ps rest m host
    Nowhere-NoRoute rest m host id known nowhere p qs k path takes =
        let (e, serving) = Takes-Serving m host id p qs known k takes in
        nowhere p.segs qs e path serving

    not_better :
        (m host : Bytes) (id : ℕ) (ss : List Segment) (qs : List Bytes) (p : ParsedRoute)
        → method_id t m ≡ some id
        → same_node p.segs ss ≡ true
        → ((ss' : List Segment) (e' : HandlerEntry)
            → Serving roots host id ss' qs e'
            → Prefers ss ss')
        → (p' : ParsedRoute) → Among p' ps
        → Takes m host qs p'
        → ¬ IsMoreSpecific (Matches p'.segs) (Matches p.segs)
    not_better m host id ss qs p known node best p' k takes (within, (rs, m', out)) =
        let (e, serving) = Takes-Serving m host id p' qs known k takes in
        let there' = same_Matches p.segs ss node in
        Prefers-not_specific ss p'.segs (best p'.segs e serving)
          ((λ vs h. there' vs (within vs h)), (rs, there' rs m', out))

    routed :
        (key rest m : Bytes) (id : ℕ) (r : Response)
        → method_id t m ≡ some id
        → IsAnswer roots key rest id r
        → Dispatches wrap ps key rest m r
    routed key rest m id _ known (by_router none_key none_else unserved) =
        to_none (Nowhere-NoRoute rest m key id known none_key)
          (Nowhere-NoRoute rest m [] id known none_else) unserved
    routed key rest m id _ known (by_route host ss qs e looks path k best) =
        let (p, b) =
          route-Behind m host ss id e known (sym (entry_of_routes host ss id) ∙ k.entry) in
        let same_values : captures p.segs qs ≡ captures ss qs =
          same_captures p.segs ss qs b.node_is in
        let run =
          to_route p qs b.among
            (elim looks [
              | inl is_key ↦ inl (b.same_host ∙ is_key)
              | inr (hostless, nowhere) ↦
                  inr (b.same_host ∙ hostless, Nowhere-NoRoute rest m key id known nowhere)
            ])
            path
            (record {
              same_host = refl;
              matches = same_Matches ss p.segs (same_node_sym p.segs ss b.node_is) qs k.matches;
              for_method = b.for_method;
            })
            (λ p' among takes. not_better m host id ss qs p known b.node_is best p' among (record {
              same_host = takes.same_host ∙ b.same_host;
              matches = takes.matches;
              for_method = takes.for_method;
            }))
            _ (bind_params-Binds p.names (take max_inline_params (captures p.segs qs))) in
        subst (Dispatches wrap ps key rest m)
          (ap (λ vs. served (wrap p.handler) (bind_params p.names (take max_inline_params vs)))
              same_values
            ∙ ap
                (λ x.
                  served x.handler (bind_params x.names (take max_inline_params (captures ss qs))))
                b.entry_is)
          run

Among-methods_in :
    (p : ParsedRoute) {ps : List ParsedRoute} → Among p ps → Among p.method (methods_in ps)
Among-methods_in p here = here
Among-methods_in p (there k) = there (Among-methods_in p k)

NoRoute-unknown :
    (ps : List ParsedRoute) (rest m host : Bytes)
    → method_id (assign_method_ids (methods_in ps)) m ≡ none
    → NoRoute ps rest m host
NoRoute-unknown ps rest m host unknown p qs k path takes =
    let t = assign_method_ids (methods_in ps) in
    elim takes.for_method [
      | inl same ↦
          let (id, known) =
            (assign_method_ids-IsMethodTable (methods_in ps)).known p.method
              (Among-methods_in p k) in
          let both : ◌≡◌ {A = Option ℕ} none (some id) =
            sym unknown ∙ ap (method_id t) (sym same) ∙ known in
          cc
      | inr (head, get) ↦
          let both : ◌≡◌ {A = Option ℕ} none (some 1) =
            sym unknown ∙ ap (method_id t) head ∙ head_id t in
          cc
    ]

-- The answer to a request of a clean path, by the routes of the trie that `hostRoot` picks, and by
-- those without a host where none of them matches.
pub serve_http-host_key :
    (lib : Library) (wrap : ℕ → ℕ) (redirects : Bool) (regs : List Registration)
    (ps : List ParsedRoute) (req : Request) (rest : Bytes)
    → ((p : ParsedRoute) → Among p ps → IsPattern p.segs)
    → equal req.request_uri (b'*' ∷ []) ≡ false
    → escaped_path lib req ≡ b'/' ∷ rest
    → needs_clean (b'/' ∷ rest) ≡ false
    → Dispatches wrap ps
        (host_key lib (compile wrap redirects regs ps) req.host)
        rest
        req.method
        (serve_http lib (compile wrap redirects regs ps) req)
unfolding compile roots
serve_http-host_key lib wrap redirects regs ps req rest patterns uri path clean =
    let r = compile wrap redirects regs ps in
    let t = assign_method_ids (methods_in ps) in
    elim (Option-cases (method_id t req.method)) [
      | inr (id, known) ↦
          routed wrap t ps (methods_in ps) (assign_method_ids-IsMethodTable (methods_in ps))
            patterns (host_key lib r req.host) rest req.method id (serve_http lib r req) known
            (serve_http-IsAnswer lib r req rest id refl uri path clean known)
      | inl unknown ↦
          to_none (NoRoute-unknown ps rest req.method (host_key lib r req.host) unknown)
            (NoRoute-unknown ps rest req.method [] unknown)
            (serve_http-unknown lib r req rest refl uri path clean unknown)
    ]
