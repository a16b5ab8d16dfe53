-- ===== src/Router/Serve/Routes.antt =====
-- The routes of a table in the place of the nodes of its tries.
use simdhttp.Common.{
  ℕ, ◌≡◌, inl, inr, refl, sym, ap, ◌∙◌, true, Option, none, some, List, [], ◌∷◌, ◌==◌, ◌⊎◌, Bytes,
  length, take, Bool-cases, Option-cases,
}
use simdhttp.Router.Segments.{Matches}
use simdhttp.Router.Serve.{entry_for, match_root}
use simdhttp.Router.Table.Entries.{handlers_in}
use simdhttp.Router.Tree.Inserts.{handlers_at, through}
use simdhttp.Router.Tree.Leaves.{
  child_along, down, leaf_at, IsPattern, captures, Prefers, Candidate,
}
use simdhttp.Router.Tree.Matching.{Answers, missed, matched, match_segments-Answers}
use simdhttp.Router.Tree.Paths.{IsPath}
use simdhttp.Router.Tree.{
  Node, Child, absent, present, Edges, Handlers, HandlerEntry, handlers_of, find_edge, Found,
  match_segments, max_inline_params, serves, serves_in, is_taken, slot, method_id_head,
  method_id_get,
}
use simdhttp.Router.{Segment}

below_child :
    (ss : List Segment) (ch : Child)
    → ((n : Node) → handlers_at ss n ≡ through handlers_of (leaf_at ss n))
    → through (handlers_at ss) ch ≡ through handlers_of (down (leaf_at ss) ch)
below_child ss absent h = refl
below_child ss (present n) h = h n

pub handlers_at-leaf_at :
    (ss : List Segment) (n : Node) → handlers_at ss n ≡ through handlers_of (leaf_at ss n)
handlers_at-leaf_at [] n = refl
handlers_at-leaf_at (s ∷ ss) n =
    below_child ss (child_along s.kind s.text n) (handlers_at-leaf_at ss)

taken : (o : Option HandlerEntry) → is_taken o ≡ true → (e : HandlerEntry) × (o ≡ some e)
taken none h = cc
taken (some e) h = (e, refl)

some_entry :
    (id : ℕ) (hs : Handlers)
    → serves_in hs (some id) ≡ true
    → (e : HandlerEntry) × (entry_for hs (some id) ≡ some e)
unfolding serves_in
some_entry id none h = cc
some_entry id (some hs) h = elim (Option-cases (slot id hs)) [
  | inr (e, is) ↦ (e, rw is refl)
  | inl is ↦ elim (Bool-cases (id == method_id_head)) [
    | inl head ↦
        let (e, get) = taken (slot method_id_get hs) (rw (is, head) at h) in (e, rw (is, head) get)
    | inr other ↦ cc (rw (is, other) at h)
  ]
]

entry_serves :
    (id : ℕ) (hs : Handlers) (e : HandlerEntry)
    → entry_for hs (some id) ≡ some e
    → serves_in hs (some id) ≡ true
unfolding serves_in
entry_serves id none e h = elim (Bool-cases (id == method_id_head)) [
  | inl head ↦ cc (rw head at h)
  | inr other ↦ cc (rw other at h)
]
entry_serves id (some hs) e h = elim (Option-cases (slot id hs)) [
  | inr (e', is) ↦ rw is refl
  | inl is ↦ elim (Bool-cases (id == method_id_head)) [
    | inl head ↦
        let get : slot method_id_get hs ≡ some e = rw (is, head) at h in rw (is, head, get) refl
    | inr other ↦ cc (rw (is, other) at h)
  ]
]

-- A pattern of a host's trie that matches the path and has an entry for the method.
pub record Serving (roots : Edges) (host : Bytes) (id : ℕ) (ss : List Segment) (ps : List Bytes)
    (e : HandlerEntry) : Type 0 where
  pub is_pattern : IsPattern ss
  pub matches : Matches ss ps
  pub entry : entry_for (handlers_in roots host ss) (some id) ≡ some e

leaf_present :
    (ch : Child) (id : ℕ) (e : HandlerEntry)
    → entry_for (through handlers_of ch) (some id) ≡ some e
    → (c : Node) × ((ch ≡ present c) × (serves c (some id) ≡ true))
leaf_present absent id e h = elim (Bool-cases (id == method_id_head)) [
  | inl head ↦ cc (rw head at h)
  | inr other ↦ cc (rw other at h)
]
leaf_present (present c) id e h = (c, (refl, entry_serves id (handlers_of c) e h))

module _ (roots : Edges) (host : Bytes) (n : Node) (is : find_edge host roots ≡ present n)
    (id : ℕ) where
  in_trie : (ss : List Segment) → handlers_in roots host ss ≡ through handlers_of (leaf_at ss n)
  in_trie ss = ap (through (handlers_at ss)) is ∙ handlers_at-leaf_at ss n

  pub Serving-Candidate :
      (ss : List Segment) (ps : List Bytes) (e : HandlerEntry)
      → Serving roots host id ss ps e
      → (c : Node) × Candidate (some id) n ss ps c
  Serving-Candidate ss ps e k =
      let (c, (leaf, serving)) =
        leaf_present (leaf_at ss n) id e
          (ap (λ hs. entry_for hs (some id)) (sym (in_trie ss)) ∙ k.entry) in
      (c, record { leaf = leaf; is_pattern = k.is_pattern; matches = k.matches; serving = serving })

  pub Candidate-Serving :
      (ss : List Segment) (ps : List Bytes) (c : Node)
      → Candidate (some id) n ss ps c
      → (e : HandlerEntry) × ((entry_for (handlers_of c) (some id) ≡ some e)
          × Serving roots host id ss ps e)
  Candidate-Serving ss ps c k =
      let (e, entry) = some_entry id (handlers_of c) k.serving in
      let same : handlers_in roots host ss ≡ handlers_of c =
        in_trie ss ∙ ap (through handlers_of) k.leaf in
      (
        e,
        (
          entry,
          record {
            is_pattern = k.is_pattern;
            matches = k.matches;
            entry = ap (λ hs. entry_for hs (some id)) same ∙ entry;
          },
        ),
      )

pub absent_serves :
    (roots : Edges) (host : Bytes) (id : ℕ) (ss : List Segment) (ps : List Bytes) (e : HandlerEntry)
    → find_edge host roots ≡ absent
    → Serving roots host id ss ps e
    → ⊥
absent_serves roots host id ss ps e is k =
    let (c, (bad, serving)) =
      leaf_present absent id e
        (ap (λ ch. entry_for (through (handlers_at ss) ch) (some id)) (sym is) ∙ k.entry) in
    cc

-- A search of one trie, in terms of the patterns with an entry.
pub data Routes (roots : Edges) (host rest : Bytes) (id : ℕ) : Found → Type 0 where
  nowhere :
      {vals : List Bytes}
      → length vals ≡ max_inline_params
      → ((ss : List Segment) (ps : List Bytes) (e : HandlerEntry)
          → IsPath rest ps
          → Serving roots host id ss ps e
          → ⊥)
      → Routes roots host rest id (vals, none)
  somewhere :
      {vals : List Bytes} {nv : ℕ} {c : Node} (ss : List Segment) (ps : List Bytes)
      (e : HandlerEntry)
      → IsPath rest ps
      → Serving roots host id ss ps e
      → entry_for (handlers_of c) (some id) ≡ some e
      → take nv vals ≡ take max_inline_params (captures ss ps)
      → ((ss' : List Segment) (e' : HandlerEntry)
          → Serving roots host id ss' ps e'
          → Prefers ss ss')
      → Routes roots host rest id (vals, some (c, nv))

Answers-Routes :
    (roots : Edges) (host rest : Bytes) (n : Node) (id : ℕ) (r : Found)
    → find_edge host roots ≡ present n
    → Answers n rest (some id) r
    → Routes roots host rest id r
Answers-Routes roots host rest n id _ is (missed room h) = nowhere room λ ss ps e path k.
    let (c, k') = Serving-Candidate roots host n is id ss ps e k in h ss ps c path k'
Answers-Routes roots host rest n id _ is (matched ss ps path k bound best) =
    let (e, (entry, k')) = Candidate-Serving roots host n is id ss ps _ k in
    somewhere ss ps e path k' entry bound λ ss' e' k''.
      let (c', candidate) = Serving-Candidate roots host n is id ss' ps e' k'' in
      best ss' c' candidate

pub Child-cases : (ch : Child) → (ch ≡ absent) ⊎ ((n : Node) × (ch ≡ present n))
Child-cases absent = inl refl
Child-cases (present n) = inr (n, refl)

pub match_root-Routes :
    (roots : Edges) (host rest : Bytes) (id : ℕ) (vals : List Bytes)
    → length vals ≡ max_inline_params
    → Routes roots host rest id (match_root (find_edge host roots) rest (some id) vals)
match_root-Routes roots host rest id vals room = elim (Child-cases (find_edge host roots)) [
  | inl is ↦ rw is (nowhere room λ ss ps e path k. absent_serves roots host id ss ps e is k)
  | inr (n, is) ↦ rw is (
      Answers-Routes roots host rest n id (match_segments n rest (some id) vals 0) is
        (match_segments-Answers n rest (some id) vals room))
]
