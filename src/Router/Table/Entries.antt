-- ===== src/Router/Table/Entries.antt =====
-- What a table holds after its routes are inserted.
use simdhttp.Common.{
  ℕ, zero, suc, ◌<◌, ◌≡◌, inl, inr, refl, sym, ap, ◌∙◌, subst, true, false, ◌&&◌, Option, none,
  some, List, [], ◌∷◌, arith, ◌==◌, ==_iff, if◌then◌else◌, Bytes, length, equal, Bool-cases,
}
use simdhttp.Router.Methods.{MethodTable, method_id}
use simdhttp.Router.Table.{ParsedRoute, entry_of, at_leaf, insert}
use simdhttp.Router.Tree.Inserts.{
  handlers_at, through, same_node, Puts, handlers_at-insert_at, find_edge-put_edge, or_empty,
  through-or_empty, same_node_handlers,
}
use simdhttp.Router.Segments.{equal_sound}
use simdhttp.Router.Tree.Leaves.{child_along}
use simdhttp.Router.Tree.{
  Node, node, Child, Edges, Handlers, HandlerEntry, handlers_of, find_edge, put_handler, insert_at,
  nil_handlers, slot, set_slot, allocated, is_taken,
}
use simdhttp.Router.{SegKind, seg_lit, seg_single, seg_multi, Segment}

-- The change of a node's handlers.
abbrev pub put_in : ℕ → Option ℕ → HandlerEntry → Handlers → Handlers
put_in num none e hs = hs
put_in num (some id) e hs =
    let hs' = allocated num hs in
    if is_taken (slot id hs') then some hs' else some (set_slot id e hs')

leaf_handlers :
    (num : ℕ) (id : Option ℕ) (m : Bytes) (e : HandlerEntry) (n : Node)
    → handlers_of (at_leaf num id m e n) ≡ put_in num id e (handlers_of n)
unfolding put_handler
leaf_handlers num none m e n = refl
leaf_handlers num (some id) m e (node st si mu hs ms) =
    elim (Bool-cases (is_taken (slot id (allocated num hs)))) [
      | inl h ↦ rw h refl
      | inr h ↦ rw h refl
    ]

same_children :
    (k : SegKind) (t : Bytes) (st : Edges) (si mu : Child) (hs hs' : Handlers) (ms ms' : List Bytes)
    → child_along k t (node st si mu hs' ms') ≡ child_along k t (node st si mu hs ms)
same_children seg_lit t st si mu hs hs' ms ms' = refl
same_children seg_single t st si mu hs hs' ms ms' = refl
same_children seg_multi t st si mu hs hs' ms ms' = refl

leaf_children :
    (num : ℕ) (id : Option ℕ) (m : Bytes) (e : HandlerEntry) (k : SegKind) (t : Bytes) (n : Node)
    → child_along k t (at_leaf num id m e n) ≡ child_along k t n
unfolding put_handler
leaf_children num none m e k t n = refl
leaf_children num (some id) m e k t (node st si mu hs ms) =
    elim (Bool-cases (is_taken (slot id (allocated num hs)))) [
      | inl h ↦ rw h (same_children k t st si mu hs (some (allocated num hs)) ms ms)
      | inr h ↦ rw h (same_children k t st si mu hs _ ms _)
    ]

leaf_Puts :
    (num : ℕ) (id : Option ℕ) (m : Bytes) (e : HandlerEntry)
    → Puts (at_leaf num id m e) (put_in num id e)
leaf_Puts num id m e = record {
  handlers = leaf_handlers num id m e;
  children = leaf_children num id m e;
}

-- The handlers of a pattern's node, in the trie of a host.
abbrev pub handlers_in : Edges → Bytes → List Segment → Handlers
handlers_in roots host ss = through (handlers_at ss) (find_edge host roots)

pub handlers_in-insert :
    (t : MethodTable) (wrap : ℕ → ℕ) (p : ParsedRoute) (roots : Edges) (host : Bytes)
    (ss : List Segment)
    → handlers_in (insert t wrap p roots) host ss ≡ (
        if equal p.host host && same_node p.segs ss
        then put_in t.num_methods
            (method_id t p.method)
            (entry_of wrap p)
            (handlers_in roots host ss)
        else handlers_in roots host ss)
unfolding insert
handlers_in-insert t wrap p roots host ss = elim (Bool-cases (equal p.host host)) [
  | inr e ↦
      rw
        (
          find_edge-put_edge host p.host
              (insert_at (at_leaf t.num_methods (method_id t p.method) p.method (entry_of wrap p))
                p.segs)
              roots,
          e,
        )
        refl
  | inl e ↦
      rw
        (
          find_edge-put_edge host p.host
              (insert_at (at_leaf t.num_methods (method_id t p.method) p.method (entry_of wrap p))
                p.segs)
              roots,
          e,
        )
        (let ch = find_edge p.host roots in
          let id = method_id t p.method in
          let num = t.num_methods in
          let e' = entry_of wrap p in
          let same : find_edge host roots ≡ ch =
            ap (λ x. find_edge x roots) (sym (equal_sound p.host host e)) in
          handlers_at-insert_at (leaf_Puts num id p.method e') p.segs ss (or_empty ch)
          ∙ rw same (elim (Bool-cases (same_node p.segs ss)) [
            | inl k ↦ rw k (
                ap (put_in num id e')
                  (same_node_handlers p.segs ss (or_empty ch) k ∙ through-or_empty ss ch))
            | inr k ↦ rw k (through-or_empty ss ch)
          ]))
]

abbrev pub slot_of : ℕ → Handlers → Option HandlerEntry
slot_of id none = none
slot_of id (some hs) = slot id hs

abbrev pub first_kept : Option HandlerEntry → HandlerEntry → Option HandlerEntry
first_kept none e = some e
first_kept (some x) e = some x

-- All handlers have a slot for each ID.
abbrev pub Sized : ℕ → Edges → Type 0
Sized num roots =
    (host : Bytes) (ss : List Segment) (hs : List (Option HandlerEntry))
    → handlers_in roots host ss ≡ some hs
    → length hs ≡ num

slot-nil_handlers : (i n : ℕ) → slot i (nil_handlers n) ≡ none
slot-nil_handlers i zero = refl
slot-nil_handlers zero (suc n) = refl
slot-nil_handlers (suc i) (suc n) = slot-nil_handlers i n

length-nil_handlers : (n : ℕ) → length (nil_handlers n) ≡ n
length-nil_handlers zero = refl
length-nil_handlers (suc n) = ap suc (length-nil_handlers n)

length-set_slot :
    (i : ℕ) (e : HandlerEntry) (hs : List (Option HandlerEntry))
    → length (set_slot i e hs) ≡ length hs
length-set_slot i e [] = refl
length-set_slot zero e (h ∷ hs) = refl
length-set_slot (suc i) e (h ∷ hs) = ap suc (length-set_slot i e hs)

slot-set_slot :
    (i j : ℕ) (e : HandlerEntry) (hs : List (Option HandlerEntry))
    → i < length hs
    → slot j (set_slot i e hs) ≡ (if i == j then some e else slot j hs)
slot-set_slot i j e [] h = absurd (omega arith)
slot-set_slot zero zero e (x ∷ hs) h = refl
slot-set_slot zero (suc j) e (x ∷ hs) h = ground arith
slot-set_slot (suc i) zero e (x ∷ hs) h = ground arith
slot-set_slot (suc i) (suc j) e (x ∷ hs) h = ground (arith, slot-set_slot i j e hs)

slot_of-allocated : (num j : ℕ) (hs : Handlers) → slot j (allocated num hs) ≡ slot_of j hs
slot_of-allocated num j none = slot-nil_handlers j num
slot_of-allocated num j (some hs) = refl

length-allocated :
    (num : ℕ) (hs : Handlers)
    → ((l : List (Option HandlerEntry)) → hs ≡ some l → length l ≡ num)
    → length (allocated num hs) ≡ num
length-allocated num none h = length-nil_handlers num
length-allocated num (some l) h = h l refl

taken_slot : (o : Option HandlerEntry) (e : HandlerEntry) → is_taken o ≡ true → first_kept o e ≡ o
taken_slot none e h = cc
taken_slot (some x) e h = refl

free_slot : (o : Option HandlerEntry) → is_taken o ≡ false → o ≡ none
free_slot none h = refl
free_slot (some x) h = cc

-- The slot of the ID gets the entry unless it has one; the other slots stay.
pub slot_of-put_in :
    (num id j : ℕ) (e : HandlerEntry) (hs : Handlers)
    → id < num
    → ((l : List (Option HandlerEntry)) → hs ≡ some l → length l ≡ num)
    → slot_of j (put_in num (some id) e hs)
      ≡ (if id == j then first_kept (slot_of j hs) e else slot_of j hs)
slot_of-put_in num id j e hs small sized =
    let hs' = allocated num hs in
    let same = slot_of-allocated num in
    elim (Bool-cases (is_taken (slot id hs'))) [
      | inl taken ↦ elim (Bool-cases (id == j)) [
        | inl here ↦
            let is : id ≡ j = (==_iff id j).0 here in
            let taken' : is_taken (slot_of j hs) ≡ true =
              subst (λ (o : Option HandlerEntry). is_taken o ≡ true) (same j hs)
                (subst (λ (x : ℕ). is_taken (slot x hs') ≡ true) is taken) in
            rw (taken, here) (same j hs ∙ sym (taken_slot (slot_of j hs) e taken'))
        | inr other ↦ rw (taken, other) (same j hs)
      ]
      | inr free ↦
          let put = slot-set_slot id j e hs' (omega (arith, length-allocated num hs sized)) in
          elim (Bool-cases (id == j)) [
            | inl here ↦
                let is : id ≡ j = (==_iff id j).0 here in
                let empty : slot_of j hs ≡ none =
                  sym (same j hs)
                  ∙ subst (λ (x : ℕ). slot x hs' ≡ none) is (free_slot (slot id hs') free) in
                rw (free, here) (put ∙ rw (here, empty) refl)
            | inr other ↦ rw (free, other) (put ∙ rw other (same j hs))
          ]
    ]

pub put_in-length :
    (num : ℕ) (id : Option ℕ) (e : HandlerEntry) (hs : Handlers) (l : List (Option HandlerEntry))
    → ((l : List (Option HandlerEntry)) → hs ≡ some l → length l ≡ num)
    → put_in num id e hs ≡ some l
    → length l ≡ num
put_in-length num none e hs l sized h = sized l h
put_in-length num (some id) e hs l sized h =
    elim (Bool-cases (is_taken (slot id (allocated num hs)))) [
      | inl taken ↦
          let same : allocated num hs ≡ l = cc (rw taken at h) in
          ap length (sym same) ∙ length-allocated num hs sized
      | inr free ↦
          let same : set_slot id e (allocated num hs) ≡ l = cc (rw free at h) in
          ap length (sym same)
          ∙ length-set_slot id e (allocated num hs)
          ∙ length-allocated num hs sized
    ]
