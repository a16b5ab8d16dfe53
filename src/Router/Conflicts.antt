-- ===== src/Router/Conflicts.antt =====
-- What `comparePaths` and the test of `pairwise` say of the paths that two patterns match.
use simdhttp.Common.{◌≡◌, ◌⊎◌, inl, inr, refl, true, List, [], ◌∷◌, Bytes, ◌↔◌}
use simdhttp.Router.{
  SegKind, seg_lit, seg_single, seg_multi, Segment, Relationship, rel_equivalent, rel_more_general,
  rel_more_specific, rel_overlaps, rel_disjoint, compare_segs, combine_rel, unless_disjoint,
  compare_at, compare_loop, compare_paths, is_conflict,
}
use simdhttp.Router.Segments.{
  Fits, Step, Matches, IsPlain, Step-Fits, Fits-Step, some_path, some_path-Matches,
  compare_segs-Relates, multi-Relates, multi_takes,
}
use simdhttp.Router.Sets.{
  Common, Within, Beyond, Relates, Both, Same, apart_left, combine_rel-Relates, carry-Relates,
}

-- What the next round of the loop makes of a relation over any set.
abbrev Continues : (Relationship → Relationship) → (R R' : List Bytes → Type 0) → Type 1
Continues again R R' =
    (rel : Relationship) (A : Type 0) (X X' : A → Type 0)
    → Relates rel X X'
    → Relates (again rel) (Both X R) (Both X' R')

unless_disjoint-Relates :
    (again : Relationship → Relationship) (R R' : List Bytes → Type 0)
    → Continues again R R'
    → Continues (unless_disjoint again) R R'
unless_disjoint-Relates again R R' next rel_disjoint A X X' h = apart_left X X' R R' h
unless_disjoint-Relates again R R' next rel_equivalent A X X' h = next rel_equivalent A X X' h
unless_disjoint-Relates again R R' next rel_more_general A X X' h = next rel_more_general A X X' h
unless_disjoint-Relates again R R' next rel_more_specific A X X' h = next rel_more_specific A X X' h
unless_disjoint-Relates again R R' next rel_overlaps A X X' h = next rel_overlaps A X X' h

module _ (again : Relationship → Relationship) (R R' : List Bytes → Type 0)
    (next : Continues again R R') where
  same-Step :
      {A : Type 0} (X X' : A → Type 0) (k k' : SegKind) (t u : Bytes)
      → IsPlain k
      → IsPlain k'
      → (a : A) (p : Bytes) (ps : List Bytes)
      → Same
          (Both (Both X (Fits k t)) R ((a, p), ps))
          (Both (Both X' (Fits k' u)) R' ((a, p), ps))
          (Both X (Step k t R) (a, p ∷ ps))
          (Both X' (Step k' u R') (a, p ∷ ps))
  same-Step X X' k k' t u h h' a p ps = (
    (λ ((x, f), m). (x, Fits-Step R k t p ps f m)),
    (λ (x, s). let (f, m) = Step-Fits R k t p ps h s in ((x, f), m)),
    (λ ((x, f), m). (x, Fits-Step R' k' u p ps f m)),
    (λ (x, s). let (f, m) = Step-Fits R' k' u p ps h' s in ((x, f), m)),
  )

  split_path :
      {A : Type 0} (X X' : A → Type 0) (k k' : SegKind) (t u : Bytes)
      → IsPlain k
      → IsPlain k'
      → (b : A × List Bytes) → (Both X (Step k t R) b ⊎ Both X' (Step k' u R') b)
      → (q : (A × Bytes) × List Bytes) × Same
          (Both (Both X (Fits k t)) R q)
          (Both (Both X' (Fits k' u)) R' q)
          (Both X (Step k t R) b)
          (Both X' (Step k' u R') b)
  split_path X X' k k' t u h h' (a, []) (inl (x, m)) = absurd m
  split_path X X' k k' t u h h' (a, []) (inr (x, m)) = absurd m
  split_path X X' k k' t u h h' (a, p ∷ ps) m = (((a, p), ps), same-Step X X' k k' t u h h' a p ps)

  -- A position at which neither pattern ends in a wildcard.
  plain-Relates :
      (k k' : SegKind) (t u : Bytes)
      → IsPlain k
      → IsPlain k'
      → Continues
          (λ rel. unless_disjoint again (combine_rel rel (compare_segs k k' t u)))
          (Step k t R)
          (Step k' u R')
  plain-Relates k k' t u h h' rel A X X' e =
      carry-Relates (λ q. (q.0.0, q.0.1 ∷ q.1)) (λ q. same-Step X X' k k' t u h h' q.0.0 q.0.1 q.1)
        (split_path X X' k k' t u h h')
        (unless_disjoint again (combine_rel rel (compare_segs k k' t u)))
        (unless_disjoint-Relates again R R' next _ _ (Both X (Fits k t)) (Both X' (Fits k' u)) (
          combine_rel-Relates X X' (Fits k t) (Fits k' u) rel (compare_segs k k' t u) e
            (compare_segs-Relates k k' t u h h')))

  module _ (ps ps' : List Bytes) (some : R ps) (some' : R' ps') where
    turned :
        {A : Type 0} (X X' : A → Type 0)
        → Relates rel_more_general X' X
        → Relates rel_more_specific X X'
    turned X X' ((a, x, x'), f, g) = ((a, x', x), g, f)

    both_multi : (t u : Bytes) → Relates rel_equivalent (Step seg_multi t R) (Step seg_multi u R')
    both_multi t u =
        (([] ∷ [], tt, tt), multi_takes R' R seg_multi u t, multi_takes R R' seg_multi t u)

    compare_at-Relates :
        (k k' : SegKind) (t u : Bytes)
        → Continues (λ rel. compare_at again rel k k' t u) (Step k t R) (Step k' u R')
    compare_at-Relates seg_multi seg_multi t u rel A X X' e =
        combine_rel-Relates X X' _ _ rel rel_equivalent e (both_multi t u)
    compare_at-Relates seg_multi seg_lit t u rel A X X' e =
        combine_rel-Relates X X' _ _ rel rel_more_general e
          (multi-Relates R R' seg_lit t u ps' tt some')
    compare_at-Relates seg_multi seg_single t u rel A X X' e =
        combine_rel-Relates X X' _ _ rel rel_more_general e
          (multi-Relates R R' seg_single t u ps' tt some')
    compare_at-Relates seg_lit seg_multi t u rel A X X' e =
        combine_rel-Relates X X' _ _ rel rel_more_specific e
          (turned _ _ (multi-Relates R' R seg_lit u t ps tt some))
    compare_at-Relates seg_single seg_multi t u rel A X X' e =
        combine_rel-Relates X X' _ _ rel rel_more_specific e
          (turned _ _ (multi-Relates R' R seg_single u t ps tt some))
    compare_at-Relates seg_lit seg_lit t u rel A X X' e =
        plain-Relates seg_lit seg_lit t u tt tt rel A X X' e
    compare_at-Relates seg_lit seg_single t u rel A X X' e =
        plain-Relates seg_lit seg_single t u tt tt rel A X X' e
    compare_at-Relates seg_single seg_lit t u rel A X X' e =
        plain-Relates seg_single seg_lit t u tt tt rel A X X' e
    compare_at-Relates seg_single seg_single t u rel A X X' e =
        plain-Relates seg_single seg_single t u tt tt rel A X X' e

ended_from :
    {A : Type 0} (X X' : A → Type 0) (b : A × List Bytes)
    → (Both X (Matches []) b ⊎ Both X' (Matches []) b)
    → (a : A) × Same (X a) (X' a) (Both X (Matches []) b) (Both X' (Matches []) b)
ended_from X X' (a, []) m = (a, ((λ x. (x, tt)), (λ q. q.0), (λ x. (x, tt)), (λ q. q.0)))
ended_from X X' (a, p ∷ ps) (inl (x, m)) = absurd m
ended_from X X' (a, p ∷ ps) (inr (x, m)) = absurd m

ended_apart :
    (s : Segment) (ss : List Segment) (ps : List Bytes) → Matches [] ps → Matches (s ∷ ss) ps → ⊥
ended_apart s ss [] m m' = m'
ended_apart s ss (p ∷ ps) m m' = m

compare_loop-Relates :
    (ss ss' : List Segment) → Continues (λ rel. compare_loop rel ss ss') (Matches ss) (Matches ss')
unfolding compare_loop
compare_loop-Relates [] [] rel A X X' e =
    carry-Relates (λ a. (a, [])) (λ a. ((λ x. (x, tt)), (λ q. q.0), (λ x. (x, tt)), (λ q. q.0)))
      (ended_from X X') rel e
compare_loop-Relates [] (s ∷ ss) rel A X X' e = λ q m m'. ended_apart s ss q.1 m.1 m'.1
compare_loop-Relates (s ∷ ss) [] rel A X X' e = λ q m m'. ended_apart s ss q.1 m'.1 m.1
compare_loop-Relates (s ∷ ss) (s' ∷ ss') rel A X X' e =
    compare_at-Relates (λ r. compare_loop r ss ss') (Matches ss) (Matches ss')
      (compare_loop-Relates ss ss') (some_path ss) (some_path ss') (some_path-Matches ss)
      (some_path-Matches ss') s.kind s'.kind s.text s'.text rel A X X' e

abbrev Whatever : Unit {0} → Type 0
Whatever a = Unit {0}

Relates-Whatever : Relates rel_equivalent Whatever Whatever
Relates-Whatever = ((tt, tt, tt), (λ a x. x), (λ a x. x))

-- `comparePaths` answers how the paths of the two patterns lie to each other, exactly: the same
-- paths; all of the other's and more; some of the other's only; some in common and some of each
-- alone; or none in common.
pub compare_paths-Relates :
    (ss ss' : List Segment) → Relates (compare_paths ss ss') (Matches ss) (Matches ss')
unfolding compare_paths
compare_paths-Relates ss ss' =
    carry-Relates (λ q. q.1) (λ q. ((λ m. m.1), (λ m. (tt, m)), (λ m. m.1), (λ m. (tt, m))))
      (λ ps m. ((tt, ps), ((λ m. m.1), (λ m. (tt, m)), (λ m. m.1), (λ m. (tt, m)))))
      (compare_loop rel_equivalent ss ss')
      (compare_loop-Relates ss ss' rel_equivalent (Unit {0}) Whatever Whatever Relates-Whatever)

-- The first set is contained in the second, and is not all of it.
abbrev pub IsMoreSpecific : {A : Type 0} → (A → Type 0) → (A → Type 0) → Type 0
IsMoreSpecific X Y = Within X Y × Beyond Y X

-- Some path matches both patterns, and neither pattern is more specific.
abbrev pub InConflict : List Segment → List Segment → Type 0
InConflict ss ss' =
    Common (Matches ss) (Matches ss')
    × ¬ IsMoreSpecific (Matches ss) (Matches ss')
    × ¬ IsMoreSpecific (Matches ss') (Matches ss)

is_conflict_of :
    (ss ss' : List Segment) (r : Relationship)
    → Relates r (Matches ss) (Matches ss')
    → (is_conflict r ≡ true) ↔ InConflict ss ss'
unfolding is_conflict
is_conflict_of ss ss' rel_equivalent (c, f, g) =
    ((λ e. (c, (λ (p, (a, m, out)). out (g a m)), (λ (p, (a, m, out)). out (f a m)))), λ k. refl)
is_conflict_of ss ss' rel_overlaps (c, (a, m, out), (b, n, out')) =
    ((λ e. (c, (λ (p, q). out (p a m)), (λ (p, q). out' (p b n)))), λ k. refl)
is_conflict_of ss ss' rel_more_general (c, f, g) = ((λ e. cc), λ (k, p, q). absurd (q (g, f)))
is_conflict_of ss ss' rel_more_specific (c, f, g) = ((λ e. cc), λ (k, p, q). absurd (p (f, g)))
is_conflict_of ss ss' rel_disjoint f = ((λ e. cc), λ ((a, m, n), p, q). absurd (f a m n))

-- `pairwise` reports two patterns of one method and host exactly when they are in conflict: some
-- path matches both, and neither is more specific.
pub is_conflict_iff :
    (ss ss' : List Segment) → (is_conflict (compare_paths ss ss') ≡ true) ↔ InConflict ss ss'
is_conflict_iff ss ss' = is_conflict_of ss ss' (compare_paths ss ss') (compare_paths-Relates ss ss')
