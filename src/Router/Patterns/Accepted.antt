-- ===== src/Router/Patterns/Accepted.antt =====
-- The patterns that `parsePattern` accepts.
use simdhttp.Common.{
  ℕ, zero, suc, arith, ◌≡◌, ◌≢◌, inl, inr, refl, sym, Bool, true, false, Option, none, some, List,
  [], ◌∷◌, ◌==◌, Bytes, length, take, drop, is_empty, index_byte, Bool-cases,
}
use simdhttp.Router.Allow.{ends_in_slash}
use simdhttp.Router.Patterns.{
  Result, parsed, rejected, stuck, and_then, Shape, note_name, is_repeated, segments_loop, shaped,
  parse_route, parse_from, parse_pattern, is_token,
}
use simdhttp.Router.Table.{ParsedRoute}
use simdhttp.Router.Tree.Leaves.{IsPattern}
use simdhttp.Http1.Chars.{valid_token, token_char}
use simdhttp.Router.Allow.{has_name}
use simdhttp.Router.Segments.{equal_refl}
use simdhttp.Common.{All, equal, ◌∙◌, subst, ◌||◌}
use simdhttp.Router.Patterns.Shapes.{wildcard_names, Reachable, Fresh, ShapeOf, loop_ShapeOf}

-- No two names are equal, but empty ones, which bind nothing.
abbrev pub Distinct : List Bytes → Type 0
Distinct [] = Unit
Distinct (n ∷ ns) = All (λ m. m ≡ n → n ≡ []) ns × Distinct ns

either : (b : Bool) → (b || true) ≡ true
either b = ground arith

name_is_kept :
    (n m : Bytes) (seen : List Bytes)
    → has_name n seen ≡ true
    → has_name n (note_name m seen) ≡ true
name_is_kept n m seen h = elim (Bool-cases (is_empty m)) [
  | inl blank ↦ rw blank h
  | inr named ↦ rw (named, h) (either (equal n m))
]

not_repeated :
    (n m : Bytes) (seen : List Bytes)
    → has_name n seen ≡ true
    → is_repeated m seen ≡ false
    → m ≡ n
    → n ≡ []
not_repeated [] m seen h new e = refl
not_repeated (c ∷ cs) m seen h new e =
    let again : is_repeated m seen ≡ true = subst (λ x. is_repeated x seen ≡ true) (sym e) h in cc

Fresh-All :
    (n : Bytes) (seen ns : List Bytes)
    → has_name n seen ≡ true
    → Fresh seen ns
    → All (λ m. m ≡ n → n ≡ []) ns
Fresh-All n seen [] h f = tt
Fresh-All n seen (m ∷ ns) h (new, f) =
    (not_repeated n m seen h new, Fresh-All n (note_name m seen) ns (name_is_kept n m seen h) f)

blank_All : (ns : List Bytes) → All (λ m. ◌≡◌ {A = Bytes} m [] → ◌≡◌ {A = Bytes} [] []) ns
blank_All [] = tt
blank_All (m ∷ ns) = ((λ e. refl), blank_All ns)

noted : (n : Bytes) (seen : List Bytes) → is_empty n ≡ false → has_name n (note_name n seen) ≡ true
noted n seen named = rw (named, equal_refl n) refl

Fresh-Distinct : (seen ns : List Bytes) → Fresh seen ns → Distinct ns
Fresh-Distinct seen [] f = tt
Fresh-Distinct seen ([] ∷ ns) (new, f) = (blank_All ns, Fresh-Distinct seen ns f)
Fresh-Distinct seen ((c ∷ cs) ∷ ns) (new, f) =
    let n = c ∷ cs in
    (
      Fresh-All n (note_name n seen) ns (noted n seen refl) f,
      Fresh-Distinct (note_name n seen) ns f,
    )

is_token-valid_token : (s : Bytes) → valid_token s ≡ is_token s
unfolding is_token valid_token token_char
is_token-valid_token [] = refl
is_token-valid_token (c ∷ cs) = refl

-- What an accepted route owes the rest of the router.
pub record IsRoute (method : Bytes) (p : ParsedRoute) : Type 0 where
  pub same_method : p.method ≡ method
  pub token : valid_token method ≡ true
  pub is_pattern : IsPattern p.segs
  pub not_empty : p.segs ≢ []
  pub reachable : Reachable p.segs
  pub aligned : p.names ≡ wildcard_names p.segs
  pub distinct : Distinct p.names

abbrev pub Accepts : Bytes → Result ParsedRoute → Type 0
Accepts method (rejected err) = Unit
Accepts method stuck = ⊥
Accepts method (parsed p) = IsRoute method p

shape_Accepts :
    (method host pattern : Bytes) (handler : ℕ) (r : Result Shape)
    → is_token method ≡ true
    → ShapeOf [] r
    → Accepts method (and_then r λ sh. parsed (shaped method host pattern handler sh))
shape_Accepts method host pattern handler (rejected err) ok h = tt
shape_Accepts method host pattern handler stuck ok h = absurd h
shape_Accepts method host pattern handler (parsed (segs, names)) ok h = record {
  same_method = refl;
  token = is_token-valid_token method ∙ ok;
  is_pattern = h.is_pattern;
  not_empty = h.not_empty;
  reachable = h.reachable;
  aligned = h.aligned;
  distinct = Fresh-Distinct [] names h.fresh;
}

route_Accepts :
    (method host pattern : Bytes) (handler : ℕ) (route : Bytes)
    → is_token method ≡ true
    → Accepts method (parse_route method host pattern handler route)
route_Accepts method host pattern handler [] ok = tt
route_Accepts method host pattern handler (c ∷ rest) ok = elim (Bool-cases (c == b'/')) [
  | inl slash ↦ rw slash (
      shape_Accepts method host pattern handler
        (segments_loop (suc (length rest)) (ends_in_slash (c ∷ rest)) rest []) ok
        (loop_ShapeOf (suc (length rest)) (ends_in_slash (c ∷ rest)) rest [] (omega arith)))
  | inr other ↦ rw other tt
]

from_Accepts :
    (to_lower : Bytes → Bytes) (method pattern : Bytes) (handler : ℕ) (i : Option ℕ)
    → is_token method ≡ true
    → Accepts method (parse_from to_lower method pattern handler i)
from_Accepts to_lower method pattern handler none ok =
    route_Accepts method [] pattern handler pattern ok
from_Accepts to_lower method pattern handler (some zero) ok =
    route_Accepts method [] pattern handler pattern ok
from_Accepts to_lower method pattern handler (some (suc i)) ok =
    route_Accepts method (to_lower (take (suc i) pattern)) pattern handler (drop (suc i) pattern) ok

-- The parser of patterns ends on every input. A pattern that it accepts has at least one segment, a
-- wildcard that takes the rest only at the end, an empty literal only at the end, one name for each of
-- its wildcards in their order, and no name twice, the empty one apart; its method is a token.
pub parse_pattern-Accepts :
    (to_lower : Bytes → Bytes) (method pattern : Bytes) (handler : ℕ)
    → Accepts method (parse_pattern to_lower method pattern handler)
unfolding parse_pattern
parse_pattern-Accepts to_lower method pattern handler = elim (Bool-cases (is_empty method)) [
  | inl h ↦ rw h tt
  | inr h ↦ elim (Bool-cases (is_token method)) [
    | inr h' ↦ rw (h, h') tt
    | inl h' ↦ elim (Bool-cases (is_empty pattern)) [
      | inl h'' ↦ rw (h, h', h'') tt
      | inr h'' ↦
          rw (h, h', h'')
            (from_Accepts to_lower method pattern handler (index_byte pattern b'/') h')
    ]
  ]
]
