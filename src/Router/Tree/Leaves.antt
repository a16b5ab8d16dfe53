-- ===== src/Router/Tree/Leaves.antt =====
-- The node at the end of a pattern, what the pattern binds, and which of two patterns is tried first.
use simdhttp.Common.{ℕ, ◌≡◌, true, Option, List, [], ◌∷◌, Bytes}
use simdhttp.Router.Segments.{Matches}
use simdhttp.Router.Tree.Paths.{join}
use simdhttp.Router.Tree.{Node, node, Child, absent, present, find_edge, serves}
use simdhttp.Router.{SegKind, seg_lit, seg_single, seg_multi, Segment}

abbrev pub child_along : SegKind → Bytes → Node → Child
child_along seg_lit t (node st si mu hs ms) = find_edge t st
child_along seg_single t (node st si mu hs ms) = si
child_along seg_multi t (node st si mu hs ms) = mu

abbrev pub down : (Node → Child) → Child → Child
down f absent = absent
down f (present c) = f c

-- The node that `insert` reaches by these segments.
abbrev pub leaf_at : List Segment → Node → Child
leaf_at [] n = present n
leaf_at (s ∷ ss) n = down (leaf_at ss) (child_along s.kind s.text n)

abbrev pub EndsIfMulti : SegKind → List Segment → Type 0
EndsIfMulti seg_multi ss = ss ≡ []
EndsIfMulti seg_lit ss = Unit
EndsIfMulti seg_single ss = Unit

-- A wildcard is the last segment.
abbrev pub IsPattern : List Segment → Type 0
IsPattern [] = Unit
IsPattern (s ∷ ss) = EndsIfMulti s.kind ss × IsPattern ss

abbrev pub capture : SegKind → Bytes → List Bytes → List Bytes → List Bytes
capture seg_lit p ps rest = rest
capture seg_single p ps rest = p ∷ rest
capture seg_multi p ps rest = join (p ∷ ps) ∷ []

-- The values that the wildcards of a pattern take from a path.
abbrev pub captures : List Segment → List Bytes → List Bytes
captures [] ps = []
captures (s ∷ ss) [] = []
captures (s ∷ ss) (p ∷ ps) = capture s.kind p ps (captures ss ps)

abbrev pub PrefersAt : SegKind → SegKind → Bytes → Bytes → Type 0 → Type 0
PrefersAt seg_lit seg_lit t u R = (t ≡ u) × R
PrefersAt seg_lit seg_single t u R = Unit
PrefersAt seg_lit seg_multi t u R = Unit
PrefersAt seg_single seg_single t u R = R
PrefersAt seg_single seg_multi t u R = Unit
PrefersAt seg_multi seg_multi t u R = Unit
PrefersAt seg_single seg_lit t u R = ⊥
PrefersAt seg_multi seg_lit t u R = ⊥
PrefersAt seg_multi seg_single t u R = ⊥

-- Where two patterns part, the first has the literal, or the second the wildcard.
abbrev pub Prefers : List Segment → List Segment → Type 0
Prefers [] [] = Unit
Prefers [] (s ∷ ss) = ⊥
Prefers (s ∷ ss) [] = ⊥
Prefers (s ∷ ss) (s' ∷ ss') = PrefersAt s.kind s'.kind s.text s'.text (Prefers ss ss')

-- A pattern with a node below `n` that matches the path and serves the method.
pub record Candidate (want : Option ℕ) (n : Node) (ss : List Segment) (ps : List Bytes) (c : Node)
    : Type 0 where
  pub leaf : leaf_at ss n ≡ present c
  pub is_pattern : IsPattern ss
  pub matches : Matches ss ps
  pub serving : serves c want ≡ true

abbrev pub CandidateIn : Option ℕ → Child → List Segment → List Bytes → Node → Type 0
CandidateIn want absent ss ps c = ⊥
CandidateIn want (present n) ss ps c = Candidate want n ss ps c

-- A candidate by the kind of its first segment.
pub data First (want : Option ℕ) (n : Node) (k : SegKind)
    : List Segment → List Bytes → Node → Type 0 where
  first :
      (t : Bytes) {ss : List Segment} {ps : List Bytes} {c : Node}
      → Candidate want n (record { kind = k; text = t } ∷ ss) ps c
      → First want n k (record { kind = k; text = t } ∷ ss) ps c
