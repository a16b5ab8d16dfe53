-- ===== src/Router/Tree/Inserts.antt =====
-- What `insert` changes: the handlers of one node, and nothing that another pattern reaches.
use simdhttp.Common.{
  ◌≡◌, inl, inr, refl, sym, ap, ◌∙◌, subst, Bool, true, false, ◌&&◌, none, List, [], ◌∷◌,
  if◌then◌else◌, Bytes, equal, Bool-cases, &&-true,
}
use mathlib.Core.Path.{ap₂}
use simdhttp.Router.Segments.{equal_sound, equal_refl}
use simdhttp.Router.Tree.Leaves.{child_along}
use simdhttp.Router.Tree.{
  Node, node, Child, absent, present, Edges, no_edges, edge, Handlers, empty_node, handlers_of,
  find_edge, put_edge, put_child, insert_step, insert_at,
}
use simdhttp.Router.{SegKind, seg_lit, seg_single, seg_multi, Segment}

-- Two segments that lead to one child.
abbrev pub same_child : SegKind → SegKind → Bytes → Bytes → Bool
same_child seg_lit seg_lit t u = equal t u
same_child seg_single seg_single t u = true
same_child seg_multi seg_multi t u = true
same_child seg_lit seg_single t u = false
same_child seg_lit seg_multi t u = false
same_child seg_single seg_lit t u = false
same_child seg_single seg_multi t u = false
same_child seg_multi seg_lit t u = false
same_child seg_multi seg_single t u = false

-- Two patterns that lead to one node.
abbrev pub same_node : List Segment → List Segment → Bool
same_node [] [] = true
same_node [] (s ∷ ss) = false
same_node (s ∷ ss) [] = false
same_node (s ∷ ss) (s' ∷ ss') = same_child s.kind s'.kind s.text s'.text && same_node ss ss'

abbrev pub through : (Node → Handlers) → Child → Handlers
through f absent = none
through f (present n) = f n

-- The handlers of the node of a pattern, nil where there is none.
abbrev pub handlers_at : List Segment → Node → Handlers
handlers_at [] n = handlers_of n
handlers_at (s ∷ ss) n = through (handlers_at ss) (child_along s.kind s.text n)

abbrev pub or_empty : Child → Node
or_empty absent = empty_node
or_empty (present n) = n

below_empty :
    (k : SegKind) (t : Bytes) (f : Node → Handlers) → through f (child_along k t empty_node) ≡ none
below_empty seg_lit t f = refl
below_empty seg_single t f = refl
below_empty seg_multi t f = refl

pub handlers_at-empty : (ss : List Segment) → handlers_at ss empty_node ≡ none
handlers_at-empty [] = refl
handlers_at-empty (s ∷ ss) = below_empty s.kind s.text (handlers_at ss)

pub through-or_empty :
    (ss : List Segment) (ch : Child) → handlers_at ss (or_empty ch) ≡ through (handlers_at ss) ch
through-or_empty ss absent = handlers_at-empty ss
through-or_empty ss (present n) = refl

put_child_lem : (f : Node → Node) (ch : Child) → put_child f ch ≡ present (f (or_empty ch))
put_child_lem f absent = refl
put_child_lem f (present n) = refl

-- Only the edge with the key is changed.
pub find_edge-put_edge :
    (u t : Bytes) (f : Node → Node) (es : Edges)
    → find_edge u (put_edge t f es)
      ≡ (if equal t u then present (f (or_empty (find_edge t es))) else find_edge u es)
unfolding put_edge
find_edge-put_edge u t f no_edges = elim (Bool-cases (equal t u)) [
  | inl e ↦ rw e refl
  | inr e ↦ rw e refl
]
find_edge-put_edge u t f (edge v n es) = elim (Bool-cases (equal v t)) [
  | inl e ↦ elim (Bool-cases (equal t u)) [
    | inl h ↦
        let is : equal v u ≡ true = subst (λ x. equal x u ≡ true) (sym (equal_sound v t e)) h in
        rw (e, h, is) refl
    | inr h ↦
        let is : equal v u ≡ false = subst (λ x. equal x u ≡ false) (sym (equal_sound v t e)) h in
        rw (e, h, is) refl
  ]
  | inr e ↦ elim (Bool-cases (equal v u)) [
    | inl h ↦ elim (Bool-cases (equal t u)) [
      | inl k ↦
          let same : v ≡ t = equal_sound v u h ∙ sym (equal_sound t u k) in
          let bad : equal v t ≡ true = subst (λ x. equal v x ≡ true) same (equal_refl v) in cc
      | inr k ↦ rw (e, h, k) refl
    ]
    | inr h ↦ rw (e, h) (find_edge-put_edge u t f es)
  ]
]

-- The step of `insert` along one segment.
child_along-insert_step :
    (k k' : SegKind) (t u : Bytes) (f : Node → Node) (n : Node)
    → child_along k' u (insert_step k t f n) ≡ (
        if same_child k k' t u
        then present (f (or_empty (child_along k t n)))
        else child_along k' u n)
child_along-insert_step seg_lit seg_lit t u f (node st si mu hs ms) = find_edge-put_edge u t f st
child_along-insert_step seg_single seg_single t u f (node st si mu hs ms) = put_child_lem f si
child_along-insert_step seg_multi seg_multi t u f (node st si mu hs ms) = put_child_lem f mu
child_along-insert_step seg_lit seg_single t u f (node st si mu hs ms) = refl
child_along-insert_step seg_lit seg_multi t u f (node st si mu hs ms) = refl
child_along-insert_step seg_single seg_lit t u f (node st si mu hs ms) = refl
child_along-insert_step seg_single seg_multi t u f (node st si mu hs ms) = refl
child_along-insert_step seg_multi seg_lit t u f (node st si mu hs ms) = refl
child_along-insert_step seg_multi seg_single t u f (node st si mu hs ms) = refl

handlers_of-insert_step :
    (k : SegKind) (t : Bytes) (f : Node → Node) (n : Node)
    → handlers_of (insert_step k t f n) ≡ handlers_of n
handlers_of-insert_step seg_lit t f (node st si mu hs ms) = refl
handlers_of-insert_step seg_single t f (node st si mu hs ms) = refl
handlers_of-insert_step seg_multi t f (node st si mu hs ms) = refl

same_child_handlers :
    (k k' : SegKind) (t u : Bytes) (n : Node)
    → same_child k k' t u ≡ true
    → child_along k' u n ≡ child_along k t n
same_child_handlers seg_lit seg_lit t u n e =
    ap (λ x. child_along seg_lit x n) (sym (equal_sound t u e))
same_child_handlers seg_single seg_single t u (node st si mu hs ms) e = refl
same_child_handlers seg_multi seg_multi t u (node st si mu hs ms) e = refl
same_child_handlers seg_lit seg_single t u n e = cc
same_child_handlers seg_lit seg_multi t u n e = cc
same_child_handlers seg_single seg_lit t u n e = cc
same_child_handlers seg_single seg_multi t u n e = cc
same_child_handlers seg_multi seg_lit t u n e = cc
same_child_handlers seg_multi seg_single t u n e = cc

pub same_node_handlers :
    (ss ss' : List Segment) (n : Node)
    → same_node ss ss' ≡ true
    → handlers_at ss n ≡ handlers_at ss' n
same_node_handlers [] [] n e = refl
same_node_handlers [] (s ∷ ss) n e = cc
same_node_handlers (s ∷ ss) [] n e = cc
same_node_handlers (s ∷ ss) (s' ∷ ss') n e =
    let both = &&-true (same_child s.kind s'.kind s.text s'.text) (same_node ss ss') e in
    let ch = child_along s.kind s.text n in
    sym (through-or_empty ss ch)
    ∙ same_node_handlers ss ss' (or_empty ch) both.1
    ∙ through-or_empty ss' ch
    ∙ ap (through (handlers_at ss'))
        (sym (same_child_handlers s.kind s'.kind s.text s'.text n both.0))

-- What is done at the node of the pattern changes its handlers by `g`, and no child.
pub record Puts (f : Node → Node) (g : Handlers → Handlers) : Type 0 where
  pub handlers : (n : Node) → handlers_of (f n) ≡ g (handlers_of n)
  pub children : (k : SegKind) (t : Bytes) (n : Node) → child_along k t (f n) ≡ child_along k t n

module _ {f : Node → Node} {g : Handlers → Handlers} (puts : Puts f g) where
  both_sides :
      (ss ss' : List Segment) (ch : Child)
      → (if same_node ss ss'
          then g (handlers_at ss (or_empty ch))
          else handlers_at ss' (or_empty ch))
        ≡ (if same_node ss ss'
            then g (through (handlers_at ss) ch)
            else through (handlers_at ss') ch)
  both_sides ss ss' ch =
      ap₂ (λ x y. if same_node ss ss' then g x else y) (through-or_empty ss ch)
        (through-or_empty ss' ch)

  -- The handlers at the node of the pattern change by `g`, those of all other patterns stay.
  pub handlers_at-insert_at :
      (ss ss' : List Segment) (n : Node)
      → handlers_at ss' (insert_at f ss n)
        ≡ (if same_node ss ss' then g (handlers_at ss n) else handlers_at ss' n)
  unfolding insert_at
  handlers_at-insert_at [] [] n = puts.handlers n
  handlers_at-insert_at [] (s ∷ ss) n =
      ap (through (handlers_at ss)) (puts.children s.kind s.text n)
  handlers_at-insert_at (s ∷ ss) [] n = handlers_of-insert_step s.kind s.text (insert_at f ss) n
  handlers_at-insert_at (s ∷ ss) (s' ∷ ss') n =
      let step = child_along-insert_step s.kind s'.kind s.text s'.text (insert_at f ss) n in
      elim (Bool-cases (same_child s.kind s'.kind s.text s'.text)) [
        | inr e ↦ rw (step, e) refl
        | inl e ↦
            let ch = child_along s.kind s.text n in
            rw (step, e)
              (handlers_at-insert_at ss ss' (or_empty ch)
                ∙ both_sides ss ss' ch
                ∙ ap
                    (λ x.
                      if same_node ss ss'
                      then g (through (handlers_at ss) ch)
                      else through (handlers_at ss') x)
                    (sym (same_child_handlers s.kind s'.kind s.text s'.text n e)))
      ]
