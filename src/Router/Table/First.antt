-- ===== src/Router/Table/First.antt =====
-- A table built by `insert_all` answers with the first registration.
use simdhttp.Common.{
  ℕ, ◌<◌, ◌≡◌, inl, inr, refl, sym, ap, ◌∙◌, Bool, false, ◌&&◌, Option, none, some, List, [], ◌∷◌,
  ◌==◌, if◌then◌else◌, Bytes, equal, Bool-cases, Option-cases,
}
use simdhttp.Router.Methods.{MethodTable, method_id}
use simdhttp.Router.Methods.Ids.{IsMethodTable}
use simdhttp.Router.Table.Entries.{
  handlers_in, handlers_in-insert, slot_of, slot_of-put_in, first_kept, Sized, put_in-length,
}
use simdhttp.Router.Table.{ParsedRoute, entry_of, insert, insert_all}
use simdhttp.Router.Tree.Inserts.{same_node}
use simdhttp.Router.Tree.{Edges, no_edges, HandlerEntry}
use simdhttp.Router.{Segment}

-- The entry of a method at the node of a pattern.
abbrev pub entry_at : Edges → Bytes → List Segment → ℕ → Option HandlerEntry
entry_at roots host ss j = slot_of j (handlers_in roots host ss)

abbrev is_id : Option ℕ → ℕ → Bool
is_id none j = false
is_id (some id) j = id == j

-- A route of this host, with the node of this pattern and this method.
abbrev pub picks : MethodTable → Bytes → List Segment → ℕ → ParsedRoute → Bool
picks t host ss j p = (equal p.host host && same_node p.segs ss) && is_id (method_id t p.method) j

abbrev pub first_entry :
    MethodTable → (ℕ → ℕ) → List ParsedRoute → Bytes → List Segment → ℕ → Option HandlerEntry
first_entry t wrap [] host ss j = none
first_entry t wrap (p ∷ ps) host ss j =
    let rest = first_entry t wrap ps host ss j in
    if picks t host ss j p then some (entry_of wrap p) else rest

abbrev or_first : Option HandlerEntry → Option HandlerEntry → Option HandlerEntry
or_first none o = o
or_first (some e) o = some e

or_first_kept :
    (x : Option HandlerEntry) (e : HandlerEntry) (o : Option HandlerEntry)
    → or_first (first_kept x e) o ≡ or_first x (some e)
or_first_kept none e o = refl
or_first_kept (some x) e o = refl

module _ (t : MethodTable) (wrap : ℕ → ℕ) where
  entry_at-insert :
      (p : ParsedRoute) (roots : Edges) (host : Bytes) (ss : List Segment) (j : ℕ)
      → ((id : ℕ) → method_id t p.method ≡ some id → id < t.num_methods)
      → Sized t.num_methods roots
      → entry_at (insert t wrap p roots) host ss j ≡ (
          if picks t host ss j p
          then first_kept (entry_at roots host ss j) (entry_of wrap p)
          else entry_at roots host ss j)
  entry_at-insert p roots host ss j small sized =
      ap (slot_of j) (handlers_in-insert t wrap p roots host ss)
      ∙ elim (Bool-cases (equal p.host host && same_node p.segs ss)) [
        | inr other ↦ rw other refl
        | inl this ↦ elim (Option-cases (method_id t p.method)) [
          | inl missing ↦ rw (this, missing) refl
          | inr (id, is) ↦
              rw (this, is)
                (slot_of-put_in t.num_methods id j (entry_of wrap p) (handlers_in roots host ss)
                  (small id is) (sized host ss))
        ]
      ]

  insert-Sized :
      (p : ParsedRoute) (roots : Edges)
      → Sized t.num_methods roots
      → Sized t.num_methods (insert t wrap p roots)
  insert-Sized p roots sized host ss hs e =
      elim (Bool-cases (equal p.host host && same_node p.segs ss)) [
        | inr other ↦
            sized host ss hs (sym (handlers_in-insert t wrap p roots host ss ∙ rw other refl) ∙ e)
        | inl this ↦
            put_in-length t.num_methods (method_id t p.method) (entry_of wrap p)
              (handlers_in roots host ss) hs (sized host ss)
              (sym (handlers_in-insert t wrap p roots host ss ∙ rw this refl) ∙ e)
      ]

  entries_after :
      (ps : List ParsedRoute) (roots : Edges) (host : Bytes) (ss : List Segment) (j : ℕ)
      → ((m : Bytes) (id : ℕ) → method_id t m ≡ some id → id < t.num_methods)
      → Sized t.num_methods roots
      → entry_at (insert_all t wrap ps roots).0 host ss j
        ≡ or_first (entry_at roots host ss j) (first_entry t wrap ps host ss j)
  unfolding insert_all
  entries_after [] roots host ss j small sized = elim (Option-cases (entry_at roots host ss j)) [
    | inl e ↦ rw e refl
    | inr (x, e) ↦ rw e refl
  ]
  entries_after (p ∷ ps) roots host ss j small sized =
      entries_after ps (insert t wrap p roots) host ss j small (insert-Sized p roots sized)
      ∙ ap (λ x. or_first x (first_entry t wrap ps host ss j))
          (entry_at-insert p roots host ss j (small p.method) sized)
      ∙ elim (Bool-cases (picks t host ss j p)) [
        | inl is ↦ rw is (
            or_first_kept (entry_at roots host ss j) (entry_of wrap p)
              (first_entry t wrap ps host ss j))
        | inr other ↦ rw other refl
      ]

-- After all routes are inserted into empty tries, with method IDs that are in range and distinct, the
-- node of a pattern in the trie of a host has, for a method ID, the entry of the first route with this
-- host, a pattern that leads to the node and a method with the ID, and no entry where there is no such
-- route.
pub insert_all-first_entry :
    (t : MethodTable) (wrap : ℕ → ℕ) (ps : List ParsedRoute) (ms : List Bytes) (host : Bytes)
    (ss : List Segment) (j : ℕ)
    → IsMethodTable ms t
    → entry_at (insert_all t wrap ps no_edges).0 host ss j ≡ first_entry t wrap ps host ss j
insert_all-first_entry t wrap ps ms host ss j h =
    entries_after t wrap ps no_edges host ss j h.in_range λ host' ss' hs e. cc
