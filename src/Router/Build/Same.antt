-- ===== src/Router/Build/Same.antt =====
-- Two patterns that lead to one node match the same paths and take the same values.
use simdhttp.Common.{◌≡◌, refl, sym, ap, ◌∙◌, subst, true, List, [], ◌∷◌, Bytes, equal, &&-true, ap}
use simdhttp.Router.Segments.{Step, Matches, equal_sound, equal_refl}
use simdhttp.Router.Tree.Inserts.{same_child, same_node}
use simdhttp.Router.Tree.Leaves.{capture, captures}
use simdhttp.Router.{SegKind, seg_lit, seg_single, seg_multi, Segment}

same_child_refl : (k : SegKind) (t : Bytes) → same_child k k t t ≡ true
same_child_refl seg_lit t = equal_refl t
same_child_refl seg_single t = refl
same_child_refl seg_multi t = refl

pub same_node_refl : (ss : List Segment) → same_node ss ss ≡ true
same_node_refl [] = refl
same_node_refl (s ∷ ss) = rw (same_child_refl s.kind s.text, same_node_refl ss) refl

same_Step :
    (k k' : SegKind) (t u : Bytes) (R R' : List Bytes → Type 0) (ps : List Bytes)
    → same_child k k' t u ≡ true
    → ((qs : List Bytes) → R qs → R' qs)
    → Step k t R ps
    → Step k' u R' ps
same_Step k k' t u R R' [] e f m = absurd m
same_Step seg_lit seg_lit t u R R' (p ∷ ps) e f (is, m) = (is ∙ equal_sound t u e, f ps m)
same_Step seg_single seg_single t u R R' (p ∷ ps) e f (fits, m) = (fits, f ps m)
same_Step seg_multi seg_multi t u R R' (p ∷ ps) e f m = tt
same_Step seg_lit seg_single t u R R' (p ∷ ps) e f m = cc
same_Step seg_lit seg_multi t u R R' (p ∷ ps) e f m = cc
same_Step seg_single seg_lit t u R R' (p ∷ ps) e f m = cc
same_Step seg_single seg_multi t u R R' (p ∷ ps) e f m = cc
same_Step seg_multi seg_lit t u R R' (p ∷ ps) e f m = cc
same_Step seg_multi seg_single t u R R' (p ∷ ps) e f m = cc

pub same_Matches :
    (ss ss' : List Segment)
    → same_node ss ss' ≡ true
    → (ps : List Bytes) → Matches ss ps
    → Matches ss' ps
same_Matches [] [] e ps m = m
same_Matches [] (s ∷ ss) e ps m = cc
same_Matches (s ∷ ss) [] e ps m = cc
same_Matches (s ∷ ss) (s' ∷ ss') e ps m =
    let both = &&-true (same_child s.kind s'.kind s.text s'.text) (same_node ss ss') e in
    same_Step s.kind s'.kind s.text s'.text (Matches ss) (Matches ss') ps both.0
      (same_Matches ss ss' both.1) m

swap_child :
    (k k' : SegKind) (t u : Bytes) → same_child k k' t u ≡ true → same_child k' k u t ≡ true
swap_child seg_lit seg_lit t u e =
    subst (λ x. equal u x ≡ true) (sym (equal_sound t u e)) (equal_refl u)
swap_child seg_single seg_single t u e = refl
swap_child seg_multi seg_multi t u e = refl
swap_child seg_lit seg_single t u e = e
swap_child seg_lit seg_multi t u e = e
swap_child seg_single seg_lit t u e = e
swap_child seg_single seg_multi t u e = e
swap_child seg_multi seg_lit t u e = e
swap_child seg_multi seg_single t u e = e

pub same_node_sym : (ss ss' : List Segment) → same_node ss ss' ≡ true → same_node ss' ss ≡ true
same_node_sym [] [] e = refl
same_node_sym [] (s ∷ ss) e = e
same_node_sym (s ∷ ss) [] e = e
same_node_sym (s ∷ ss) (s' ∷ ss') e =
    let both = &&-true (same_child s.kind s'.kind s.text s'.text) (same_node ss ss') e in
    rw (swap_child s.kind s'.kind s.text s'.text both.0, same_node_sym ss ss' both.1) refl

same_capture :
    (k k' : SegKind) (t u p : Bytes) (ps rest : List Bytes)
    → same_child k k' t u ≡ true
    → capture k p ps rest ≡ capture k' p ps rest
same_capture seg_lit seg_lit t u p ps rest e = refl
same_capture seg_single seg_single t u p ps rest e = refl
same_capture seg_multi seg_multi t u p ps rest e = refl
same_capture seg_lit seg_single t u p ps rest e = cc
same_capture seg_lit seg_multi t u p ps rest e = cc
same_capture seg_single seg_lit t u p ps rest e = cc
same_capture seg_single seg_multi t u p ps rest e = cc
same_capture seg_multi seg_lit t u p ps rest e = cc
same_capture seg_multi seg_single t u p ps rest e = cc

pub same_captures :
    (ss ss' : List Segment) (ps : List Bytes)
    → same_node ss ss' ≡ true
    → captures ss ps ≡ captures ss' ps
same_captures [] [] ps e = refl
same_captures [] (s ∷ ss) ps e = cc
same_captures (s ∷ ss) [] ps e = cc
same_captures (s ∷ ss) (s' ∷ ss') [] e = refl
same_captures (s ∷ ss) (s' ∷ ss') (p ∷ ps) e =
    let both = &&-true (same_child s.kind s'.kind s.text s'.text) (same_node ss ss') e in
    ap (capture s.kind p ps) (same_captures ss ss' ps both.1)
    ∙ same_capture s.kind s'.kind s.text s'.text p ps (captures ss' ps) both.0
