-- ===== src/Router/Allow/Names.antt =====
-- Which methods `collectMethods` finds.
use simdhttp.Common.{
  ◌≡◌, ◌≢◌, ◌⊎◌, inl, inr, refl, sym, ap, ◌∙◌, subst, Bool, true, false, ◌&&◌, ◌||◌, List, [], ◌∷◌,
  arith, Bytes, codes, equal, Bool-cases,
}
use simdhttp.Router.Allow.{has_name, add_name, head_too, add_names}
use simdhttp.Router.Segments.{Matches, equal_sound}
use simdhttp.Router.Tree.Leaves.{child_along, down, leaf_at, IsPattern}
use simdhttp.Router.Tree.{Node, node, Child, absent, present, find_edge, methods_of}
use simdhttp.Router.{SegKind, seg_lit, seg_single, seg_multi, Segment}

-- A node's methods, with HEAD where there is GET.
abbrev pub lists : List Bytes → Bytes → Bool
lists [] x = false
lists (m ∷ ms) x = (equal x m || (equal m (codes "GET") && equal x (codes "HEAD"))) || lists ms x

has_name-add_name :
    (x m : Bytes) (set : List Bytes) → has_name x (add_name m set) ≡ (equal x m || has_name x set)
has_name-add_name x m set = elim (Bool-cases (has_name m set)) [
  | inr new ↦ rw new refl
  | inl old ↦ elim (Bool-cases (equal x m)) [
    | inr other ↦ rw (old, other) refl
    | inl same ↦
        let found : has_name x set ≡ true =
          subst (λ y. has_name y set ≡ true) (sym (equal_sound x m same)) old in
        rw (old, same) found
  ]
]

has_name-head_too :
    (x m : Bytes) (set : List Bytes)
    → has_name x (head_too m set)
      ≡ ((equal m (codes "GET") && equal x (codes "HEAD")) || has_name x set)
has_name-head_too x m set = elim (Bool-cases (equal m (codes "GET"))) [
  | inl get ↦ rw get (has_name-add_name x (codes "HEAD") set)
  | inr other ↦ rw other refl
]

reorder : (a b c d : Bool) → ((b || (a || c)) || d) ≡ (c || ((a || b) || d))
reorder a b c d = ground arith

pub has_name-add_names :
    (x : Bytes) (ms set : List Bytes)
    → has_name x (add_names ms set) ≡ (has_name x set || lists ms x)
unfolding add_names
has_name-add_names x [] set = ground arith
has_name-add_names x (m ∷ ms) set =
    has_name-add_names x ms (head_too m (add_name m set))
    ∙ ap (λ b. b || lists ms x) (has_name-head_too x m (add_name m set))
    ∙ ap (λ b. ((equal m (codes "GET") && equal x (codes "HEAD")) || b) || lists ms x)
        (has_name-add_name x m set)
    ∙ reorder (equal x m) (equal m (codes "GET") && equal x (codes "HEAD")) (has_name x set)
        (lists ms x)

-- A pattern below `n` that matches the path, and whose node has the method.
pub record Names (x : Bytes) (n : Node) (ps : List Bytes) (ss : List Segment) (c : Node)
    : Type 0 where
  pub leaf : leaf_at ss n ≡ present c
  pub is_pattern : IsPattern ss
  pub matches : Matches ss ps
  pub listed : lists (methods_of c) x ≡ true

abbrev pub IsNamed : Bytes → Node → List Bytes → Type 0
IsNamed x n ps = (ss : List Segment) × (c : Node) × Names x n ps ss c

abbrev pub NamedIn : Bytes → Child → List Bytes → Type 0
NamedIn x absent ps = ⊥
NamedIn x (present n) ps = IsNamed x n ps

abbrev pub ListedIn : Bytes → Child → Type 0
ListedIn x absent = ⊥
ListedIn x (present n) = lists (methods_of n) x ≡ true

-- The three edges of a node.
abbrev pub EdgesOf : Bytes → Node → Bytes → List Bytes → Type 0
EdgesOf x (node st si mu hs ms) p ps =
    NamedIn x (find_edge p st) ps ⊎ (((p ≢ []) × NamedIn x si ps) ⊎ ListedIn x mu)

along :
    (x : Bytes) (ps : List Bytes) (ss : List Segment) (c : Node) (ch : Child)
    → down (leaf_at ss) ch ≡ present c
    → IsPattern ss
    → Matches ss ps
    → lists (methods_of c) x ≡ true
    → NamedIn x ch ps
along x ps ss c absent leaf pat m l = cc
along x ps ss c (present n) leaf pat m l =
    (ss, c, record { leaf = leaf; is_pattern = pat; matches = m; listed = l })

multi_listed :
    (x : Bytes) (ss : List Segment) (c : Node) (ch : Child)
    → ss ≡ []
    → down (leaf_at ss) ch ≡ present c
    → lists (methods_of c) x ≡ true
    → ListedIn x ch
multi_listed x ss c absent e leaf l = cc
multi_listed x [] c (present n) e leaf l =
    let is : n ≡ c = cc in subst (λ y. lists (methods_of y) x ≡ true) (sym is) l
multi_listed x (s ∷ ss) c (present n) e leaf l = cc

first_edge :
    (x : Bytes) (n : Node) (p : Bytes) (ps : List Bytes) (k : SegKind) (t : Bytes)
    (ss : List Segment) (c : Node)
    → Names x n (p ∷ ps) (record { kind = k; text = t } ∷ ss) c
    → EdgesOf x n p ps
first_edge x (node st si mu hs ms) p ps seg_lit t ss c k =
    let (is, m) = k.matches in
    inl (
      along x ps ss c (find_edge p st) (ap (λ y. down (leaf_at ss) (find_edge y st)) is ∙ k.leaf)
        k.is_pattern.1 m k.listed)
first_edge x (node st si mu hs ms) p ps seg_single t ss c k =
    let (fits, m) = k.matches in
    inr (inl (fits, along x ps ss c si k.leaf k.is_pattern.1 m k.listed))
first_edge x (node st si mu hs ms) p ps seg_multi t ss c k =
    inr (inr (multi_listed x ss c mu k.is_pattern.0 k.leaf k.listed))

pub IsNamed-EdgesOf :
    (x : Bytes) (n : Node) (p : Bytes) (ps : List Bytes) → IsNamed x n (p ∷ ps) → EdgesOf x n p ps
IsNamed-EdgesOf x n p ps ([], c, k) = absurd k.matches
IsNamed-EdgesOf x n p ps (s ∷ ss, c, k) = first_edge x n p ps s.kind s.text ss c k

lit_edge :
    (x : Bytes) (n : Node) (p : Bytes) (ps : List Bytes) (ch : Child)
    → child_along seg_lit p n ≡ ch
    → NamedIn x ch ps
    → IsNamed x n (p ∷ ps)
lit_edge x n p ps absent e k = absurd k
lit_edge x n p ps (present m) e (ss, c, k) = (
  record { kind = seg_lit; text = p } ∷ ss,
  c,
  record {
    leaf = ap (down (leaf_at ss)) e ∙ k.leaf;
    is_pattern = (tt, k.is_pattern);
    matches = (refl, k.matches);
    listed = k.listed;
  },
)

single_edge :
    (x : Bytes) (n : Node) (p : Bytes) (ps : List Bytes) (ch : Child)
    → child_along seg_single [] n ≡ ch
    → p ≢ []
    → NamedIn x ch ps
    → IsNamed x n (p ∷ ps)
single_edge x n p ps absent e fits k = absurd k
single_edge x n p ps (present m) e fits (ss, c, k) = (
  record { kind = seg_single; text = [] } ∷ ss,
  c,
  record {
    leaf = ap (down (leaf_at ss)) e ∙ k.leaf;
    is_pattern = (tt, k.is_pattern);
    matches = (fits, k.matches);
    listed = k.listed;
  },
)

multi_edge :
    (x : Bytes) (n : Node) (p : Bytes) (ps : List Bytes) (ch : Child)
    → child_along seg_multi [] n ≡ ch
    → ListedIn x ch
    → IsNamed x n (p ∷ ps)
multi_edge x n p ps absent e l = absurd l
multi_edge x n p ps (present m) e l = (
  record { kind = seg_multi; text = [] } ∷ [],
  m,
  record { leaf = ap (down (leaf_at [])) e; is_pattern = (refl, tt); matches = tt; listed = l },
)

pub EdgesOf-IsNamed :
    (x : Bytes) (n : Node) (p : Bytes) (ps : List Bytes) → EdgesOf x n p ps → IsNamed x n (p ∷ ps)
EdgesOf-IsNamed x (node st si mu hs ms) p ps (inl k) =
    lit_edge x (node st si mu hs ms) p ps (find_edge p st) refl k
EdgesOf-IsNamed x (node st si mu hs ms) p ps (inr (inl (fits, k))) =
    single_edge x (node st si mu hs ms) p ps si refl fits k
EdgesOf-IsNamed x (node st si mu hs ms) p ps (inr (inr l)) =
    multi_edge x (node st si mu hs ms) p ps mu refl l
