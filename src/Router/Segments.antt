-- ===== src/Router/Segments.antt =====
-- The paths that a pattern of router.go matches, as lists of decoded segments, and how the paths of
-- two patterns relate at one position.
use simdhttp.Common.{
  ℕ, ◌≡◌, ◌≢◌, inl, inr, refl, sym, ap, true, List, [], ◌∷◌, arith, Bytes, length, equal,
  Bool-cases, ◌∙◌,
}
use simdhttp.Router.{
  SegKind, seg_lit, seg_single, seg_multi, Segment, rel_more_general, compare_segs,
}
use simdhttp.Router.Sets.{Relates}

-- What one segment of a path satisfies: `{x}` takes no empty one.
abbrev pub Fits : SegKind → Bytes → Bytes → Type 0
Fits seg_lit t p = p ≡ t
Fits seg_single t p = p ≢ []
Fits seg_multi t p = Unit

-- A wildcard at the end takes one or more segments, whatever they are.
abbrev pub Step : SegKind → Bytes → (List Bytes → Type 0) → List Bytes → Type 0
Step k t R [] = ⊥
Step seg_lit t R (p ∷ ps) = (p ≡ t) × R ps
Step seg_single t R (p ∷ ps) = (p ≢ []) × R ps
Step seg_multi t R (p ∷ ps) = Unit

abbrev pub Matches : List Segment → List Bytes → Type 0
Matches [] [] = Unit
Matches [] (p ∷ ps) = ⊥
Matches (s ∷ ss) ps = Step s.kind s.text (Matches ss) ps

abbrev pub IsPlain : SegKind → Type 0
IsPlain seg_lit = Unit
IsPlain seg_single = Unit
IsPlain seg_multi = ⊥

-- A segment that fits, and one that does not.
abbrev pub sample : SegKind → Bytes → Bytes
sample seg_lit t = t
sample seg_single t = 0 ∷ []
sample seg_multi t = []

pub sample-Fits : (k : SegKind) (t : Bytes) → Fits k t (sample k t)
sample-Fits seg_lit t = refl
sample-Fits seg_single t = λ e. cc
sample-Fits seg_multi t = tt

abbrev pub misfit : SegKind → Bytes → Bytes
misfit seg_lit t = 0 ∷ t
misfit seg_single t = []
misfit seg_multi t = []

pub longer : (x : ℕ) (t : Bytes) → (x ∷ t) ≢ t
longer x t e = absurd (omega (arith, ap length e))

pub misfit-Fits : (k : SegKind) (t : Bytes) → IsPlain k → Fits k t (misfit k t) → ⊥
misfit-Fits seg_lit t h e = longer 0 t e
misfit-Fits seg_single t h e = e refl
misfit-Fits seg_multi t h e = absurd h

pub Step-Fits :
    (R : List Bytes → Type 0) (k : SegKind) (t p : Bytes) (ps : List Bytes)
    → IsPlain k
    → Step k t R (p ∷ ps)
    → Fits k t p × R ps
Step-Fits R seg_lit t p ps h m = m
Step-Fits R seg_single t p ps h m = m
Step-Fits R seg_multi t p ps h m = absurd h

pub Fits-Step :
    (R : List Bytes → Type 0) (k : SegKind) (t p : Bytes) (ps : List Bytes)
    → Fits k t p
    → R ps
    → Step k t R (p ∷ ps)
Fits-Step R seg_lit t p ps h m = (h, m)
Fits-Step R seg_single t p ps h m = (h, m)
Fits-Step R seg_multi t p ps h m = tt

-- Each pattern matches some path.
abbrev pub some_path : List Segment → List Bytes
some_path [] = []
some_path (s ∷ ss) = sample s.kind s.text ∷ some_path ss

pub some_path-Matches : (ss : List Segment) → Matches ss (some_path ss)
some_path-Matches [] = tt
some_path-Matches (s ∷ ss) =
    Fits-Step (Matches ss) s.kind s.text _ (some_path ss) (sample-Fits s.kind s.text)
      (some_path-Matches ss)

pub equal_sound : (t u : Bytes) → equal t u ≡ true → t ≡ u
unfolding equal
equal_sound [] [] e = refl
equal_sound [] (y ∷ ys) e = cc
equal_sound (x ∷ xs) [] e = cc
equal_sound (x ∷ xs) (y ∷ ys) e = let rest = equal_sound xs ys in ground (arith, rest)

pub equal_refl : (t : Bytes) → equal t t ≡ true
unfolding equal
equal_refl [] = refl
equal_refl (x ∷ xs) = ground (arith, equal_refl xs)

-- Two segments that are no final wildcards relate as `compareSegs` says.
pub compare_segs-Relates :
    (k k' : SegKind) (t u : Bytes)
    → IsPlain k
    → IsPlain k'
    → Relates (compare_segs k k' t u) (Fits k t) (Fits k' u)
unfolding compare_segs
compare_segs-Relates seg_lit seg_lit t u h h' = elim (Bool-cases (equal t u)) [
  | inl e ↦
      let same = equal_sound t u e in
      rw e ((t, refl, same), (λ p f. f ∙ same), (λ p f. f ∙ sym same))
  | inr e ↦ rw e (λ p f g. cc (equal_refl u, sym f ∙ g))
]
compare_segs-Relates seg_lit seg_single [] u h h' = λ p f g. g f
compare_segs-Relates seg_lit seg_single (x ∷ xs) u h h' =
    ((x ∷ xs, refl, λ e. cc), (λ p f e. cc), (x ∷ x ∷ xs, (λ e. cc), longer x _))
compare_segs-Relates seg_single seg_lit t [] h h' = λ p f g. f g
compare_segs-Relates seg_single seg_lit t (x ∷ xs) h h' =
    ((x ∷ xs, (λ e. cc), refl), (x ∷ x ∷ xs, (λ e. cc), longer x _), (λ p f e. cc))
compare_segs-Relates seg_single seg_single t u h h' =
    ((0 ∷ [], (λ e. cc), λ e. cc), (λ p f. f), (λ p f. f))
compare_segs-Relates seg_lit seg_multi t u h h' = absurd h'
compare_segs-Relates seg_single seg_multi t u h h' = absurd h'
compare_segs-Relates seg_multi k' t u h h' = absurd h

pub multi_takes :
    (R R' : List Bytes → Type 0) (k : SegKind) (t u : Bytes) (ps : List Bytes)
    → Step k u R' ps
    → Step seg_multi t R ps
multi_takes R R' k t u [] m = m
multi_takes R R' k t u (p ∷ ps) m = tt

-- A final wildcard contains what any other segment and rest match, and more.
pub multi-Relates :
    (R R' : List Bytes → Type 0) (k : SegKind) (t u : Bytes) (ps : List Bytes)
    → IsPlain k
    → R' ps
    → Relates rel_more_general (Step seg_multi t R) (Step k u R')
multi-Relates R R' k t u ps h m = (
  (sample k u ∷ ps, tt, Fits-Step R' k u _ ps (sample-Fits k u) m),
  (misfit k u ∷ [], tt, λ s. misfit-Fits k u h (Step-Fits R' k u _ [] h s).0),
  multi_takes R R' k t u,
)
