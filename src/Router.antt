-- ===== src/Router.antt =====
-- The conflict detection of router.go: segments of a pattern, and how two patterns relate. The
-- escapes of a segment are in a module below.
pub mod Sets
pub mod Segments
pub mod Conflicts
pub mod Escapes
pub mod Tree
pub mod Methods
pub mod Table
pub mod Allow
pub mod Patterns
pub mod Serve
pub mod Build
use simdhttp.Common.{ℕ, Bool, true, false, List, [], ◌∷◌, if◌then◌else◌, Bytes, equal, is_empty}

pub data SegKind : Type 0 where
  seg_lit seg_single seg_multi : SegKind

pub record Segment : Type 0 where
  pub kind : SegKind
  pub text : Bytes

pub data Relationship : Type 0 where
  rel_equivalent rel_more_general rel_more_specific rel_overlaps rel_disjoint : Relationship

unfoldable pub combine_rel : Relationship → Relationship → Relationship
combine_rel rel_disjoint b = rel_disjoint
combine_rel rel_equivalent b = b
combine_rel rel_more_general rel_disjoint = rel_disjoint
combine_rel rel_more_general rel_equivalent = rel_more_general
combine_rel rel_more_general rel_more_general = rel_more_general
combine_rel rel_more_general rel_more_specific = rel_overlaps
combine_rel rel_more_general rel_overlaps = rel_overlaps
combine_rel rel_more_specific rel_disjoint = rel_disjoint
combine_rel rel_more_specific rel_equivalent = rel_more_specific
combine_rel rel_more_specific rel_more_general = rel_overlaps
combine_rel rel_more_specific rel_more_specific = rel_more_specific
combine_rel rel_more_specific rel_overlaps = rel_overlaps
combine_rel rel_overlaps rel_disjoint = rel_disjoint
combine_rel rel_overlaps rel_equivalent = rel_overlaps
combine_rel rel_overlaps rel_more_general = rel_overlaps
combine_rel rel_overlaps rel_more_specific = rel_overlaps
combine_rel rel_overlaps rel_overlaps = rel_overlaps

-- `compareSegs`, by the kinds and the texts of the two segments.
unfoldable pub compare_segs : SegKind → SegKind → Bytes → Bytes → Relationship
compare_segs seg_lit seg_lit t u = if equal t u then rel_equivalent else rel_disjoint
compare_segs seg_lit seg_single t u = if is_empty t then rel_disjoint else rel_more_specific
compare_segs seg_lit seg_multi t u = if is_empty t then rel_disjoint else rel_more_specific
compare_segs seg_single seg_lit t u = if is_empty u then rel_disjoint else rel_more_general
compare_segs seg_multi seg_lit t u = if is_empty u then rel_disjoint else rel_more_general
compare_segs seg_single seg_single t u = rel_equivalent
compare_segs seg_single seg_multi t u = rel_equivalent
compare_segs seg_multi seg_single t u = rel_equivalent
compare_segs seg_multi seg_multi t u = rel_equivalent

-- `if rel == relDisjoint { return relDisjoint }` before the next round.
abbrev pub unless_disjoint : (Relationship → Relationship) → Relationship → Relationship
unless_disjoint again rel_disjoint = rel_disjoint
unless_disjoint again rel_equivalent = again rel_equivalent
unless_disjoint again rel_more_general = again rel_more_general
unless_disjoint again rel_more_specific = again rel_more_specific
unless_disjoint again rel_overlaps = again rel_overlaps

-- One position of the two patterns.
abbrev pub compare_at :
    (Relationship → Relationship) → Relationship → SegKind → SegKind → Bytes → Bytes → Relationship
compare_at again rel seg_multi seg_multi t u = combine_rel rel rel_equivalent
compare_at again rel seg_multi seg_lit t u = combine_rel rel rel_more_general
compare_at again rel seg_multi seg_single t u = combine_rel rel rel_more_general
compare_at again rel seg_lit seg_multi t u = combine_rel rel rel_more_specific
compare_at again rel seg_single seg_multi t u = combine_rel rel rel_more_specific
compare_at again rel seg_lit seg_lit t u =
    unless_disjoint again (combine_rel rel (compare_segs seg_lit seg_lit t u))
compare_at again rel seg_lit seg_single t u =
    unless_disjoint again (combine_rel rel (compare_segs seg_lit seg_single t u))
compare_at again rel seg_single seg_lit t u =
    unless_disjoint again (combine_rel rel (compare_segs seg_single seg_lit t u))
compare_at again rel seg_single seg_single t u =
    unless_disjoint again (combine_rel rel (compare_segs seg_single seg_single t u))

unfoldable pub compare_loop : Relationship → List Segment → List Segment → Relationship
compare_loop rel [] [] = rel
compare_loop rel [] (s ∷ ss) = rel_disjoint
compare_loop rel (s ∷ ss) [] = rel_disjoint
compare_loop rel (s ∷ ss) (s' ∷ ss') =
    compare_at (λ rel'. compare_loop rel' ss ss') rel s.kind s'.kind s.text s'.text

unfoldable pub compare_paths : List Segment → List Segment → Relationship
compare_paths p q = compare_loop rel_equivalent p q

-- The test of `pairwise`.
unfoldable pub is_conflict : Relationship → Bool
is_conflict rel_equivalent = true
is_conflict rel_overlaps = true
is_conflict rel_more_general = false
is_conflict rel_more_specific = false
is_conflict rel_disjoint = false
