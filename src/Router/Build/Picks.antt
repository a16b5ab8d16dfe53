-- ===== src/Router/Build/Picks.antt =====
-- The routes behind the entries of a table.
use simdhttp.Common.{
  ℕ, ◌≡◌, inl, inr, refl, sym, ap, ◌∙◌, subst, true, Option, none, some, List, [], ◌∷◌, ◌==◌,
  ==_iff, Bytes, codes, equal, Bool-cases, Option-cases, &&-true,
}
use simdhttp.Router.Build.Same.{same_node_refl}
use simdhttp.Router.Methods.{MethodTable, method_id}
use simdhttp.Router.Methods.Common.{common_method_id_iff}
use simdhttp.Common.{Among, here, there}
use simdhttp.Router.Segments.{equal_sound, equal_refl}
use simdhttp.Router.Serve.{entry_in}
use simdhttp.Router.Table.Entries.{slot_of}
use simdhttp.Router.Table.First.{first_entry, picks}
use simdhttp.Router.Table.{ParsedRoute, entry_of}
use simdhttp.Router.Tree.Inserts.{same_node}
use simdhttp.Router.Tree.{Handlers, HandlerEntry, method_id_head, method_id_get}
use simdhttp.Router.{Segment}

pub entry_in-slot_of : (hs : Handlers) (j : ℕ) → entry_in hs j ≡ slot_of j hs
entry_in-slot_of none j = refl
entry_in-slot_of (some hs) j = refl

-- The ID of a method and of the two that the router names.
pub get_id : (t : MethodTable) → method_id t (codes "GET") ≡ some method_id_get
unfolding method_id
get_id t = rw ((common_method_id_iff (codes "GET") 0).1 refl) refl

pub head_id : (t : MethodTable) → method_id t (codes "HEAD") ≡ some method_id_head
unfolding method_id
head_id t = rw ((common_method_id_iff (codes "HEAD") 1).1 refl) refl

module _ (wrap : ℕ → ℕ) (t : MethodTable) where
  pub first_entry-route :
      (ps : List ParsedRoute) (host : Bytes) (ss : List Segment) (j : ℕ) (e : HandlerEntry)
      → first_entry t wrap ps host ss j ≡ some e
      → (p : ParsedRoute) × (Among p ps × ((picks t host ss j p ≡ true) × (entry_of wrap p ≡ e)))
  first_entry-route [] host ss j e h = cc
  first_entry-route (p ∷ ps) host ss j e h = elim (Bool-cases (picks t host ss j p)) [
    | inl is ↦ let same : entry_of wrap p ≡ e = cc (rw is at h) in (p, (here, (is, same)))
    | inr other ↦
        let (p', (k, both)) = first_entry-route ps host ss j e (rw other at h) in
        (p', (there k, both))
  ]

  pub first_entry-some :
      (p : ParsedRoute) (host : Bytes) (ss : List Segment) (j : ℕ) (ps : List ParsedRoute)
      → picks t host ss j p ≡ true
      → Among p ps
      → (e : HandlerEntry) × (first_entry t wrap ps host ss j ≡ some e)
  first_entry-some p host ss j _ is here = (entry_of wrap p, rw is refl)
  first_entry-some p host ss j _ is (there {x = x} {ms = ms} k) =
      elim (Bool-cases (picks t host ss j x)) [
        | inl before ↦ (entry_of wrap x, rw before refl)
        | inr other ↦ let (e, h) = first_entry-some p host ss j ms is k in (e, rw other h)
      ]

  pub picked :
      (host : Bytes) (ss : List Segment) (j : ℕ) (p : ParsedRoute)
      → picks t host ss j p ≡ true
      → (p.host ≡ host) × ((same_node p.segs ss ≡ true) × (method_id t p.method ≡ some j))
  picked host ss j p h =
      let (node, id) = &&-true _ _ h in
      let (same, segs) = &&-true _ _ node in
      (
        equal_sound p.host host same,
        (
          segs,
          elim (Option-cases (method_id t p.method)) [
            | inl missing ↦ cc (rw missing at id)
            | inr (k, is) ↦ is ∙ ap some ((==_iff k j).0 (rw is at id))
          ],
        ),
      )

  pub picks_own :
      (j : ℕ) (p : ParsedRoute) (host : Bytes)
      → p.host ≡ host
      → method_id t p.method ≡ some j
      → picks t host p.segs j p ≡ true
  picks_own j p host same is =
      let eq : (j == j) ≡ true = (==_iff j j).1 refl in
      let host' : equal p.host host ≡ true =
        subst (λ x. equal p.host x ≡ true) same (equal_refl p.host) in
      rw (host', same_node_refl p.segs, is) eq

pub id_of_same :
    (t : MethodTable) (m m' : Bytes) (i j : ℕ)
    → m ≡ m'
    → method_id t m ≡ some i
    → method_id t m' ≡ some j
    → i ≡ j
id_of_same t m m' i j same h h' =
    let both : ◌≡◌ {A = Option ℕ} (some i) (some j) = sym h ∙ ap (method_id t) same ∙ h' in cc
