-- ===== src/Router/Tree/Branches.antt =====
-- The three branches of `matchSegments` at a node.
use simdhttp.Common.{
  ℕ, ◌≡◌, inl, inr, refl, subst, true, false, Option, none, some, List, [], ◌∷◌, Bytes, Bool-cases,
}
use simdhttp.Router.Segments.{Matches}
use simdhttp.Router.Tree.Leaves.{leaf_at, IsPattern, Prefers, Candidate, CandidateIn, down}
use simdhttp.Router.Tree.Outcomes.{Outcome, HasRoom, Kept-refl, Bound-nil}
use simdhttp.Router.Tree.Paths.{IsPath}
use simdhttp.Router.Tree.Search.{Rest, at_last, behind}
use simdhttp.Router.Tree.{Node, Child, absent, present, Found, serves, step_into}
use simdhttp.Router.{Segment}

abbrev pub Again : Type 0
Again = Node → Bytes → List Bytes → ℕ → Found

pub candidate_in :
    (want : Option ℕ) (ch : Child) (ss : List Segment) (ps : List Bytes) (c : Node)
    → down (leaf_at ss) ch ≡ present c
    → IsPattern ss
    → Matches ss ps
    → serves c want ≡ true
    → CandidateIn want ch ss ps c
candidate_in want absent ss ps c e i m s = cc
candidate_in want (present n) ss ps c e i m s = record {
  leaf = e;
  is_pattern = i;
  matches = m;
  serving = s;
}

-- At the end of the path only the node itself is left.
ended_here :
    (want : Option ℕ) (n c : Node) (ss : List Segment)
    → Candidate want n ss [] c
    → serves n want ≡ true
ended_here want n c [] k =
    let same : present n ≡ present c = k.leaf in
    let is : c ≡ n = cc in subst (λ x. serves x want ≡ true) is k.serving
ended_here want n c (s ∷ ss) k = absurd k.matches

ended_Prefers :
    (want : Option ℕ) (n c : Node) (ss : List Segment) → Candidate want n ss [] c → Prefers [] ss
ended_Prefers want n c [] k = tt
ended_Prefers want n c (s ∷ ss) k = absurd k.matches

behind_missing :
    (C : List Segment → List Bytes → Node → Type 0) (tail : Bytes) (ss : List Segment)
    (ps : List Bytes) (c : Node)
    → (IsPath tail ps → C ss ps c → ⊥)
    → Rest (some tail) ps
    → C ss ps c
    → ⊥
behind_missing C tail ss ps c f (behind k) is = f k is

behind_Outcome :
    (C : List Segment → List Bytes → Node → Type 0) (tail : Bytes) (vals : List Bytes) (nv : ℕ)
    (r : Found)
    → Outcome (IsPath tail) C vals nv r
    → Outcome (Rest (some tail)) C vals nv r
behind_Outcome C tail vals nv (vals', none) (kept, missing) =
    (kept, λ ss ps c k is. behind_missing C tail ss ps c (missing ss ps c) k is)
behind_Outcome C tail vals nv (vals', some (c, nv')) (ss, ps, path, is, bound, best) =
    (ss, ps, behind path, is, bound, best)

last_missing :
    (want : Option ℕ) (n c : Node) (ss : List Segment) (ps : List Bytes)
    → serves n want ≡ false
    → Rest none ps
    → Candidate want n ss ps c
    → ⊥
last_missing want n c ss ps e at_last k = cc (e, ended_here want n c ss k)

-- What each call along an edge answers, in the branch that it stands in.
abbrev pub Below : Option ℕ → Again → Option Bytes → Type 0
Below want again tail =
    (c : Node) (t : Bytes) (vals : List Bytes) (nv : ℕ)
    → tail ≡ some t
    → HasRoom vals nv
    → Outcome (IsPath t) (Candidate want c) vals nv (again c t vals nv)

pub step_into-Outcome :
    (want : Option ℕ) (again : Again) (ch : Child) (tail : Option Bytes) (vals : List Bytes)
    (nv : ℕ)
    → Below want again tail
    → HasRoom vals nv
    → Outcome (Rest tail) (CandidateIn want ch) vals nv (step_into again want ch tail vals nv)
step_into-Outcome want again absent tail vals nv ih room = (Kept-refl nv vals, λ ss ps c k is. is)
step_into-Outcome want again (present n) none vals nv ih room = elim (Bool-cases (serves n want)) [
  | inl e ↦ rw e (
    [],
    [],
    at_last,
    record { leaf = refl; is_pattern = tt; matches = tt; serving = e },
    Bound-nil nv vals room,
    λ ss c k. ended_Prefers want n c ss k,
  )
  | inr e ↦ rw e (Kept-refl nv vals, λ ss ps c k is. last_missing want n c ss ps e k is)
]
step_into-Outcome want again (present n) (some t) vals nv ih room =
    behind_Outcome (Candidate want n) t vals nv (again n t vals nv) (ih n t vals nv refl room)
