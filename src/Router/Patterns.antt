-- ===== src/Router/Patterns.antt =====
-- `parsePattern`, `parseSegment` and `isToken` of router.go.
pub mod Shapes
pub mod Accepted
use simdhttp.Common.{
  ℕ, zero, suc, ◌-◌, ◌≡◌, Bool, true, false, not, ◌&&◌, ◌||◌, Option, none, some, List, [], ◌∷◌,
  ◌++◌, ◌==◌, leb, within, if◌then◌else◌, Bytes, codes, length, take, drop, all, is_empty, equal,
  index_byte,
}
use simdhttp.Http1.Chars.{member}
use simdhttp.Router.Allow.{has_name, ends_in_slash}
use simdhttp.Router.Escapes.{decode_segment}
use simdhttp.Router.Table.{ParsedRoute}
use simdhttp.Router.Tree.{cut_slash, decoded_bytes}
use simdhttp.Router.{SegKind, seg_lit, seg_single, seg_multi, Segment}

pub data PatternError : Type 0 where
  no_method bad_method empty_pattern no_leading_slash empty_segment : PatternError
  wildcard_before_end repeated_parameter unterminated_parameter : PatternError
  empty_name malformed_parameter mixed_parameter mixed_wildcard invalid_pattern_escape :
      PatternError

-- `stuck` is a loop that has no rounds left.
pub data Result (A : Type 0) : Type 0 where
  parsed : A → Result A
  rejected : PatternError → Result A
  stuck : Result A

abbrev pub and_then : {A B : Type 0} → Result A → (A → Result B) → Result B
and_then (parsed a) k = k a
and_then (rejected err) k = rejected err
and_then stuck k = stuck

abbrev pub method_token_char : ℕ → Bool
method_token_char c =
    member c (codes "!#$%&'*+-.^_`|~")
    || within b'0' b'9' c
    || within b'a' b'z' c
    || within b'A' b'Z' c

unfoldable pub is_token : Bytes → Bool
is_token [] = false
is_token (c ∷ cs) = all (λ x. not (leb 0x80 x || not (method_token_char x))) (c ∷ cs)

abbrev pub has_brace : Bytes → Bool
has_brace s = member b'{' s || member b'}' s

-- What is between the first byte and the last.
abbrev pub but_last : Bytes → Bytes
but_last [] = []
but_last (c ∷ []) = []
but_last (c ∷ d ∷ ds) = c ∷ but_last (d ∷ ds)

abbrev pub ends_in_brace : Bytes → Bool
ends_in_brace [] = false
ends_in_brace (c ∷ []) = c == b'}'
ends_in_brace (c ∷ d ∷ ds) = ends_in_brace (d ∷ ds)

abbrev pub starts_in_brace : Bytes → Bool
starts_in_brace [] = false
starts_in_brace (c ∷ cs) = c == b'{'

abbrev pub parse_name : Bytes → Result Segment
parse_name name =
    if is_empty name
    then rejected empty_name
    else (if has_brace name
        then rejected malformed_parameter
        else parsed (record { kind = seg_single; text = name }))

abbrev pub parse_parameter : Bytes → Result Segment
parse_parameter seg =
    if not (ends_in_brace seg) || leb (length seg) 1
    then rejected unterminated_parameter
    else parse_name (drop 1 (but_last seg))

abbrev pub literal_of : Option Bytes → Result Segment
literal_of none = rejected invalid_pattern_escape
literal_of (some lit) = parsed (record { kind = seg_lit; text = lit })

unfoldable pub parse_segment : Bytes → Result Segment
parse_segment seg =
    if equal seg (b'*' ∷ [])
    then parsed (record { kind = seg_multi; text = b'*' ∷ [] })
    else (if equal seg (b'{' ∷ b'$' ∷ b'}' ∷ [])
        then parsed (record { kind = seg_lit; text = [] })
        else (if starts_in_brace seg
            then parse_parameter seg
            else (if has_brace seg
                then rejected mixed_parameter
                else (if member b'*' seg
                    then rejected mixed_wildcard
                    else literal_of (decoded_bytes (decode_segment seg))))))

-- The segments and the names of the wildcards; what the loop appends comes before what it goes on
-- to append.
abbrev pub Shape : Type 0
Shape = List Segment × List Bytes

abbrev pub with_segment : Segment → Shape → Shape
with_segment s (segs, names) = (s ∷ segs, names)

abbrev pub with_name : Bytes → Shape → Shape
with_name name (segs, names) = (segs, name ∷ names)

-- `seen`, a map from names to true, is the list of its names.
abbrev pub note_name : Bytes → List Bytes → List Bytes
note_name name seen = if is_empty name then seen else name ∷ seen

abbrev pub is_repeated : Bytes → List Bytes → Bool
is_repeated name seen = not (is_empty name) && has_name name seen

abbrev pub add_segment : SegKind → Bytes → List Bytes → (List Bytes → Result Shape) → Result Shape
add_segment seg_lit t seen again =
    and_then (again seen) λ sh. parsed (with_segment (record { kind = seg_lit; text = t }) sh)
add_segment seg_single t seen again =
    if is_repeated t seen
    then rejected repeated_parameter
    else and_then (again (note_name t seen))
        λ sh. parsed (with_segment (record { kind = seg_single; text = t }) (with_name t sh))
add_segment seg_multi t seen again =
    if is_repeated t seen
    then rejected repeated_parameter
    else and_then (again (note_name t seen))
        λ sh. parsed (with_segment (record { kind = seg_multi; text = t }) (with_name t sh))

-- A segment with more behind it.
abbrev pub not_last : SegKind → Bytes → Option PatternError
not_last seg_lit t = if is_empty t then some empty_segment else none
not_last seg_single t = none
not_last seg_multi t = some wildcard_before_end

abbrev pub unless : Option PatternError → Result Shape → Result Shape
unless none r = r
unless (some err) r = rejected err

-- The last segment of a pattern with a trailing slash: the empty literal is the subtree wildcard.
abbrev pub last_segment : Bool → SegKind → Bytes → List Bytes → Result Shape
last_segment trailing seg_lit t seen =
    if trailing && is_empty t
    then parsed (record { kind = seg_multi; text = [] } ∷ [], [] ∷ [])
    else parsed (record { kind = seg_lit; text = t } ∷ [], [])
last_segment trailing seg_single t seen = add_segment seg_single t seen λ seen'. parsed ([], [])
last_segment trailing seg_multi t seen = add_segment seg_multi t seen λ seen'. parsed ([], [])

abbrev pub segment_step :
    (Bytes → List Bytes → Result Shape) → Bool → Option Bytes → List Bytes → Segment → Result Shape
segment_step again trailing none seen s = last_segment trailing s.kind s.text seen
segment_step again trailing (some rest) seen s =
    unless (not_last s.kind s.text) (add_segment s.kind s.text seen λ seen'. again rest seen')

unfoldable pub segments_loop : ℕ → Bool → Bytes → List Bytes → Result Shape
segments_loop zero trailing rest seen = stuck
segments_loop (suc fuel) trailing rest seen =
    let (text, tail) = cut_slash rest in
    and_then (parse_segment text) λ s.
      segment_step (λ rest' seen'. segments_loop fuel trailing rest' seen') trailing tail seen s

abbrev pub shaped : Bytes → Bytes → Bytes → ℕ → Shape → ParsedRoute
shaped method host pattern handler (segs, names) = record {
  method = method;
  host = host;
  segs = segs;
  pattern = pattern;
  names = names;
  handler = handler;
}

-- Each round takes a slash off the route.
abbrev pub parse_route : Bytes → Bytes → Bytes → ℕ → Bytes → Result ParsedRoute
parse_route method host pattern handler [] = rejected no_leading_slash
parse_route method host pattern handler (c ∷ rest) =
    if c == b'/'
    then (and_then (segments_loop (suc (length rest)) (ends_in_slash (c ∷ rest)) rest [])
        λ sh. parsed (shaped method host pattern handler sh))
    else rejected no_leading_slash

-- The host before the first slash is in lower case, by `strings.ToLower`.
abbrev pub parse_from : (Bytes → Bytes) → Bytes → Bytes → ℕ → Option ℕ → Result ParsedRoute
parse_from to_lower method pattern handler none = parse_route method [] pattern handler pattern
parse_from to_lower method pattern handler (some zero) =
    parse_route method [] pattern handler pattern
parse_from to_lower method pattern handler (some (suc i)) =
    parse_route method (to_lower (take (suc i) pattern)) pattern handler (drop (suc i) pattern)

unfoldable pub parse_pattern : (Bytes → Bytes) → Bytes → Bytes → ℕ → Result ParsedRoute
parse_pattern to_lower method pattern handler =
    if is_empty method
    then rejected no_method
    else (if not (is_token method)
        then rejected bad_method
        else (if is_empty pattern
            then rejected empty_pattern
            else parse_from to_lower method pattern handler (index_byte pattern b'/')))
