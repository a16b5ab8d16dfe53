-- ===== src/Router/Tree/Specific.antt =====
-- The pattern that `matchSegments` finds against the relation of patterns that `Build` checks.
use simdhttp.Common.{ℕ, ◌≡◌, ◌⊎◌, inl, inr, subst, Option, none, some, List, [], ◌∷◌, Bytes, length}
use simdhttp.Router.Conflicts.{IsMoreSpecific}
use simdhttp.Router.Segments.{
  Matches, Step, Fits, misfit-Fits, IsPlain, Fits-Step, Step-Fits, some_path, some_path-Matches,
  sample, sample-Fits,
}
use simdhttp.Router.Sets.{Within, Beyond}
use simdhttp.Router.Tree.Leaves.{Candidate, Prefers}
use simdhttp.Router.Tree.Matching.{Answers, missed, matched, match_segments-Answers}
use simdhttp.Router.Tree.Paths.{IsPath}
use simdhttp.Router.Tree.{Node, Found, match_segments, max_inline_params}
use simdhttp.Router.{SegKind, seg_lit, seg_single, seg_multi, Segment}

-- Either every path of the first is one of the second, or some path of the second is not of the
-- first.
abbrev OrBeyond : List Segment → List Segment → Type 0
OrBeyond ss ss' = Within (Matches ss) (Matches ss') ⊎ Beyond (Matches ss') (Matches ss)

Step-within :
    (k : SegKind) (t : Bytes) (R R' : List Bytes → Type 0)
    → IsPlain k
    → Within R R'
    → (ps : List Bytes) → Step k t R ps
    → Step k t R' ps
Step-within k t R R' h f [] s = absurd s
Step-within k t R R' h f (p ∷ ps) s =
    let (fits, m) = Step-Fits R k t p ps h s in Fits-Step R' k t p ps fits (f ps m)

-- Both patterns begin alike.
same_start :
    (k : SegKind) (t : Bytes) (R R' : List Bytes → Type 0)
    → IsPlain k
    → Within R R' ⊎ Beyond R' R
    → Within (Step k t R) (Step k t R') ⊎ Beyond (Step k t R') (Step k t R)
same_start k t R R' h (inl f) = inl λ ps. Step-within k t R R' h f ps
same_start k t R R' h (inr (ps, m, out)) = inr (
  sample k t ∷ ps,
  Fits-Step R' k t (sample k t) ps (sample-Fits k t) m,
  λ s. out (Step-Fits R k t (sample k t) ps h s).1,
)

-- A path of the second pattern that the first segment of the first one refuses.
refused :
    (k k' : SegKind) (t u p : Bytes) (R R' : List Bytes → Type 0) (ps : List Bytes)
    → IsPlain k
    → Fits k' u p
    → R' ps
    → (Fits k t p → ⊥)
    → Beyond (Step k' u R') (Step k t R)
refused k k' t u p R R' ps h fits m out =
    (p ∷ ps, Fits-Step R' k' u p ps fits m, λ s. out (Step-Fits R k t p ps h s).0)

-- A non-empty segment other than `t`.
other : Bytes → Bytes
other t = 0 ∷ t

multi_within :
    (t u : Bytes) (R R' : List Bytes → Type 0) (ps : List Bytes)
    → Step seg_multi t R ps
    → Step seg_multi u R' ps
multi_within t u R R' [] s = s
multi_within t u R R' (p ∷ ps) s = tt

Prefers-kinds :
    (k k' : SegKind) (t u : Bytes) (ss ss' : List Segment)
    → Prefers (record { kind = k; text = t } ∷ ss) (record { kind = k'; text = u } ∷ ss')
    → (Prefers ss ss' → OrBeyond ss ss')
    → OrBeyond (record { kind = k; text = t } ∷ ss) (record { kind = k'; text = u } ∷ ss')
unfolding other
Prefers-kinds seg_lit seg_lit t u ss ss' (same, h) ih =
    subst
      (λ x.
        OrBeyond (record { kind = seg_lit; text = t } ∷ ss)
          (record { kind = seg_lit; text = x } ∷ ss'))
      same (same_start seg_lit t (Matches ss) (Matches ss') tt (ih h))
Prefers-kinds seg_lit seg_single t u ss ss' h ih = inr (
    refused seg_lit seg_single t u (other t) (Matches ss) (Matches ss') (some_path ss') tt (λ e. cc)
      (some_path-Matches ss') (misfit-Fits seg_lit t tt))
Prefers-kinds seg_lit seg_multi t u ss ss' h ih = inr (
    refused seg_lit seg_multi t u (other t) (Matches ss) (Matches ss') (some_path ss') tt tt
      (some_path-Matches ss') (misfit-Fits seg_lit t tt))
Prefers-kinds seg_single seg_single t u ss ss' h ih =
    same_start seg_single t (Matches ss) (Matches ss') tt (ih h)
Prefers-kinds seg_single seg_multi t u ss ss' h ih = inr (
    refused seg_single seg_multi t u [] (Matches ss) (Matches ss') (some_path ss') tt tt
      (some_path-Matches ss') (misfit-Fits seg_single t tt))
Prefers-kinds seg_multi seg_multi t u ss ss' h ih =
    inl λ ps. multi_within t u (Matches ss) (Matches ss') ps
Prefers-kinds seg_single seg_lit t u ss ss' h ih = absurd h
Prefers-kinds seg_multi seg_lit t u ss ss' h ih = absurd h
Prefers-kinds seg_multi seg_single t u ss ss' h ih = absurd h

Prefers-OrBeyond : (ss ss' : List Segment) → Prefers ss ss' → OrBeyond ss ss'
Prefers-OrBeyond [] [] h = inl λ ps m. m
Prefers-OrBeyond [] (s ∷ ss) h = absurd h
Prefers-OrBeyond (s ∷ ss) [] h = absurd h
Prefers-OrBeyond (s ∷ ss) (s' ∷ ss') h =
    Prefers-kinds s.kind s'.kind s.text s'.text ss ss' h (Prefers-OrBeyond ss ss')

pub Prefers-not_specific :
    (ss ss' : List Segment) → Prefers ss ss' → ¬ IsMoreSpecific (Matches ss') (Matches ss)
Prefers-not_specific ss ss' h (within, (ps, m, out)) = elim (Prefers-OrBeyond ss ss' h) [
  | inl f ↦ out (f ps m)
  | inr (ps', m', out') ↦ out' (within ps' m')
]

-- The pattern of the node that was found, and no better one.
pub data IsBest (n : Node) (rest : Bytes) (want : Option ℕ) : Found → Type 0 where
  none_is : {vals : List Bytes} → IsBest n rest want (vals, none)
  best :
      {vals : List Bytes} {nv : ℕ} {c : Node} (ss : List Segment) (ps : List Bytes)
      → IsPath rest ps
      → Candidate want n ss ps c
      → ((ss' : List Segment) (c' : Node)
          → Candidate want n ss' ps c'
          → ¬ IsMoreSpecific (Matches ss') (Matches ss))
      → IsBest n rest want (vals, some (c, nv))

Answers-IsBest :
    (n : Node) (rest : Bytes) (want : Option ℕ) (r : Found)
    → Answers n rest want r
    → IsBest n rest want r
Answers-IsBest n rest want _ (missed room h) = none_is
Answers-IsBest n rest want _ (matched ss ps path k bound first) =
    best ss ps path k λ ss' c' k'. Prefers-not_specific ss ss' (first ss' c' k')

-- The walk that tries the literal, then the parameter, then the wildcard, and goes back where an
-- edge leads nowhere, finds a pattern that matches, and no other pattern of the trie that matches
-- the path and serves the method is more specific.
pub match_segments-IsBest :
    (n : Node) (rest : Bytes) (want : Option ℕ) (vals : List Bytes)
    → length vals ≡ max_inline_params
    → IsBest n rest want (match_segments n rest want vals 0)
match_segments-IsBest n rest want vals room =
    Answers-IsBest n rest want (match_segments n rest want vals 0)
      (match_segments-Answers n rest want vals room)
