-- ===== src/Router/Sets.antt =====
-- How two sets lie to each other, in the words of `relationship`, and what `combineRel` computes:
-- the relation of two products.

use simdhttp.Common.{◌⊎◌, inl, inr}
use simdhttp.Router.{
  Relationship, rel_equivalent, rel_more_general, rel_more_specific, rel_overlaps, rel_disjoint,
  combine_rel,
}

abbrev pub Common : {A : Type 0} → (A → Type 0) → (A → Type 0) → Type 0
Common {A} X Y = (a : A) × X a × Y a

abbrev pub Within : {A : Type 0} → (A → Type 0) → (A → Type 0) → Type 0
Within {A} X Y = (a : A) → X a → Y a

-- Something of the first set is not in the second.
abbrev pub Beyond : {A : Type 0} → (A → Type 0) → (A → Type 0) → Type 0
Beyond {A} X Y = (a : A) × X a × (Y a → ⊥)

abbrev pub Apart : {A : Type 0} → (A → Type 0) → (A → Type 0) → Type 0
Apart {A} X Y = (a : A) → X a → Y a → ⊥

abbrev pub Relates : {A : Type 0} → Relationship → (A → Type 0) → (A → Type 0) → Type 0
Relates rel_equivalent X Y = Common X Y × Within X Y × Within Y X
Relates rel_more_general X Y = Common X Y × Beyond X Y × Within Y X
Relates rel_more_specific X Y = Common X Y × Within X Y × Beyond Y X
Relates rel_overlaps X Y = Common X Y × Beyond X Y × Beyond Y X
Relates rel_disjoint X Y = Apart X Y

module _ {A B : Type 0} where
  abbrev pub Both : (A → Type 0) → (B → Type 0) → A × B → Type 0
  Both X Y q = X q.0 × Y q.1

  module _ (X X' : A → Type 0) (Y Y' : B → Type 0) where
    pub common-Both : Common X X' → Common Y Y' → Common (Both X Y) (Both X' Y')
    common-Both (a, x, x') (b, y, y') = ((a, b), (x, y), (x', y'))

    within-Both : Within X X' → Within Y Y' → Within (Both X Y) (Both X' Y')
    within-Both f g q (x, y) = (f q.0 x, g q.1 y)

    back-Both : Within X' X → Within Y' Y → Within (Both X' Y') (Both X Y)
    back-Both f g q (x, y) = (f q.0 x, g q.1 y)

    pub apart_left : Apart X X' → Apart (Both X Y) (Both X' Y')
    apart_left f q (x, y) (x', y') = f q.0 x x'

    apart_right : Apart Y Y' → Apart (Both X Y) (Both X' Y')
    apart_right f q (x, y) (x', y') = f q.1 y y'

    beyond_left : Beyond X X' → Common Y Y' → Beyond (Both X Y) (Both X' Y')
    beyond_left (a, x, out) (b, y, y') = ((a, b), (x, y), λ h. out h.0)

    beyond_right : Common X X' → Beyond Y Y' → Beyond (Both X Y) (Both X' Y')
    beyond_right (a, x, x') (b, y, out) = ((a, b), (x, y), λ h. out h.1)

    back_left : Beyond X' X → Common Y Y' → Beyond (Both X' Y') (Both X Y)
    back_left (a, x, out) (b, y, y') = ((a, b), (x, y'), λ h. out h.0)

    back_right : Common X X' → Beyond Y' Y → Beyond (Both X' Y') (Both X Y)
    back_right (a, x, x') (b, y, out) = ((a, b), (x', y), λ h. out h.1)

    -- `combineRel` computes the relation of the products.
    pub combine_rel-Relates :
        (a b : Relationship)
        → Relates a X X'
        → Relates b Y Y'
        → Relates (combine_rel a b) (Both X Y) (Both X' Y')
    unfolding combine_rel
    combine_rel-Relates rel_disjoint b h k = apart_left h
    combine_rel-Relates rel_equivalent rel_disjoint h k = apart_right k
    combine_rel-Relates rel_more_general rel_disjoint h k = apart_right k
    combine_rel-Relates rel_more_specific rel_disjoint h k = apart_right k
    combine_rel-Relates rel_overlaps rel_disjoint h k = apart_right k
    combine_rel-Relates rel_equivalent rel_equivalent (c, f, g) (d, p, q) =
        (common-Both c d, within-Both f p, back-Both g q)
    combine_rel-Relates rel_equivalent rel_more_general (c, f, g) (d, p, q) =
        (common-Both c d, beyond_right c p, back-Both g q)
    combine_rel-Relates rel_equivalent rel_more_specific (c, f, g) (d, p, q) =
        (common-Both c d, within-Both f p, back_right c q)
    combine_rel-Relates rel_equivalent rel_overlaps (c, f, g) (d, p, q) =
        (common-Both c d, beyond_right c p, back_right c q)
    combine_rel-Relates rel_more_general rel_equivalent (c, f, g) (d, p, q) =
        (common-Both c d, beyond_left f d, back-Both g q)
    combine_rel-Relates rel_more_general rel_more_general (c, f, g) (d, p, q) =
        (common-Both c d, beyond_left f d, back-Both g q)
    combine_rel-Relates rel_more_general rel_more_specific (c, f, g) (d, p, q) =
        (common-Both c d, beyond_left f d, back_right c q)
    combine_rel-Relates rel_more_general rel_overlaps (c, f, g) (d, p, q) =
        (common-Both c d, beyond_left f d, back_right c q)
    combine_rel-Relates rel_more_specific rel_equivalent (c, f, g) (d, p, q) =
        (common-Both c d, within-Both f p, back_left g d)
    combine_rel-Relates rel_more_specific rel_more_general (c, f, g) (d, p, q) =
        (common-Both c d, beyond_right c p, back_left g d)
    combine_rel-Relates rel_more_specific rel_more_specific (c, f, g) (d, p, q) =
        (common-Both c d, within-Both f p, back_left g d)
    combine_rel-Relates rel_more_specific rel_overlaps (c, f, g) (d, p, q) =
        (common-Both c d, beyond_right c p, back_left g d)
    combine_rel-Relates rel_overlaps rel_equivalent (c, f, g) (d, p, q) =
        (common-Both c d, beyond_left f d, back_left g d)
    combine_rel-Relates rel_overlaps rel_more_general (c, f, g) (d, p, q) =
        (common-Both c d, beyond_left f d, back_left g d)
    combine_rel-Relates rel_overlaps rel_more_specific (c, f, g) (d, p, q) =
        (common-Both c d, beyond_left f d, back_left g d)
    combine_rel-Relates rel_overlaps rel_overlaps (c, f, g) (d, p, q) =
        (common-Both c d, beyond_left f d, back_left g d)

-- Two descriptions of one element: each set holds it in the one just when it does in the other.
abbrev pub Same : Type 0 → Type 0 → Type 0 → Type 0 → Type 0
Same X X' Y Y' = (X → Y) × (Y → X) × (X' → Y') × (Y' → X')

-- A relation carries over when each element of the one side, and each member of the other, has its
-- counterpart.
module _ {A B : Type 0} {X X' : A → Type 0} {Y Y' : B → Type 0} (to : A → B)
    (agree : (a : A) → Same (X a) (X' a) (Y (to a)) (Y' (to a)))
    (from : (b : B) → (Y b ⊎ Y' b) → (a : A) × Same (X a) (X' a) (Y b) (Y' b)) where
  carry_within : Within X X' → Within Y Y'
  carry_within f b y = let (a, (p, q, p', q')) = from b (inl y) in p' (f a (q y))

  carry_back : Within X' X → Within Y' Y
  carry_back f b y = let (a, (p, q, p', q')) = from b (inr y) in p (f a (q' y))

  carry_apart : Apart X X' → Apart Y Y'
  carry_apart f b y y' = let (a, (p, q, p', q')) = from b (inl y) in f a (q y) (q' y')

  carry_common : Common X X' → Common Y Y'
  carry_common (a, x, x') = let (p, q, p', q') = agree a in (to a, p x, p' x')

  carry_beyond : Beyond X X' → Beyond Y Y'
  carry_beyond (a, x, out) = let (p, q, p', q') = agree a in (to a, p x, λ y. out (q' y))

  carry_other : Beyond X' X → Beyond Y' Y
  carry_other (a, x, out) = let (p, q, p', q') = agree a in (to a, p' x, λ y. out (q y))

  pub carry-Relates : (r : Relationship) → Relates r X X' → Relates r Y Y'
  carry-Relates rel_equivalent (c, f, g) = (carry_common c, carry_within f, carry_back g)
  carry-Relates rel_more_general (c, f, g) = (carry_common c, carry_beyond f, carry_back g)
  carry-Relates rel_more_specific (c, f, g) = (carry_common c, carry_within f, carry_other g)
  carry-Relates rel_overlaps (c, f, g) = (carry_common c, carry_beyond f, carry_other g)
  carry-Relates rel_disjoint f = carry_apart f
