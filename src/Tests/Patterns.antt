-- ===== src/Tests/Patterns.antt =====
-- Patterns of router.go on concrete inputs.
use simdhttp.Http1.Chars.{is_hex}
use simdhttp.Common.{◌≢◌, Bytes, ◌≡◌, ◌↔◌, refl, true, List, [], ◌∷◌, codes, equal}
use simdhttp.Router.Conflicts.{InConflict, compare_paths-Relates, is_conflict_iff}
use simdhttp.Router.Escapes.{
  decode_segment, count_escapes, resolve, unhex, Decodes, decoded, invalid_escape, out_of_range,
  decode_segment_iff,
}
use simdhttp.Router.Segments.{Matches}
use simdhttp.Router.Sets.{Relates}
use simdhttp.Router.{
  Segment, seg_lit, seg_single, seg_multi, compare_paths, compare_loop, compare_segs, combine_rel,
  is_conflict, rel_more_general, rel_overlaps,
}

-- /users/{id}, /users/me, /{kind}/me and /users/*
abbrev user_by_id : List Segment
user_by_id =
    record { kind = seg_lit; text = codes "users" }
    ∷ record { kind = seg_single; text = codes "id" }
    ∷ []

abbrev user_me : List Segment
user_me =
    record { kind = seg_lit; text = codes "users" }
    ∷ record { kind = seg_lit; text = codes "me" }
    ∷ []

abbrev any_me : List Segment
any_me =
    record { kind = seg_single; text = codes "kind" }
    ∷ record { kind = seg_lit; text = codes "me" }
    ∷ []

abbrev users_below : List Segment
users_below =
    record { kind = seg_lit; text = codes "users" }
    ∷ record { kind = seg_multi; text = codes "*" }
    ∷ []

comparisons :
    (compare_paths user_by_id user_me ≡ rel_more_general)
    × (compare_paths user_by_id any_me ≡ rel_overlaps)
    × (compare_paths users_below user_by_id ≡ rel_more_general)
unfolding compare_paths compare_loop compare_segs combine_rel equal
comparisons = (refl, refl, refl)

compare_paths-Relates_example :
    Relates (compare_paths users_below user_me) (Matches users_below) (Matches user_me)
compare_paths-Relates_example = compare_paths-Relates users_below user_me

is_conflict_iff_example :
    (is_conflict (compare_paths user_by_id any_me) ≡ true) ↔ InConflict user_by_id any_me
is_conflict_iff_example = is_conflict_iff user_by_id any_me

decodings :
    (decode_segment (codes "a%20b+c") ≡ decoded (codes "a b+c"))
    × (decode_segment (codes "a%2") ≡ invalid_escape)
    × (decode_segment (codes "plain") ≡ decoded (codes "plain"))
unfolding decode_segment count_escapes resolve unhex is_hex
decodings = (refl, refl, refl)

decode_segment_iff_example :
    ((out : Bytes) → (decode_segment (codes "a%2Fb") ≡ decoded out) ↔ Decodes (codes "a%2Fb") out)
    × ((decode_segment (codes "a%2Fb") ≡ invalid_escape)
        ↔ ((out : Bytes) → ¬ Decodes (codes "a%2Fb") out))
    × (decode_segment (codes "a%2Fb") ≢ out_of_range)
decode_segment_iff_example = decode_segment_iff (codes "a%2Fb")
