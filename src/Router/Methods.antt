-- ===== src/Router/Methods.antt =====
-- The method IDs of router.go: nine fixed ones, and the next numbers for the other methods of a
-- table.
pub mod Common
pub mod Ids
use simdhttp.Common.{
  ℕ, zero, suc, ◌+◌, ◌<◌, ◌≤◌, ◌≡◌, ◌↔◌, inl, inr, refl, sym, ap, ◌∙◌, subst, Option, none, some,
  List, [], ◌∷◌, arith, ◌==◌, if◌then◌else◌, Bytes, codes, length, get_elem?, equal, All,
  Bool-cases, Option-cases,
}
use simdhttp.Router.Segments.{equal_sound, equal_refl}

abbrev pub num_common_methods : ℕ
num_common_methods = 9

-- A `switch` over names.
abbrev pub named : List (Bytes × ℕ) → Bytes → Option ℕ
named [] m = none
named ((name, id) ∷ cases) m = let rest = named cases m in if equal name m then some id else rest

-- The cases for names of three to seven letters.
abbrev pub three_letters : List (Bytes × ℕ)
three_letters = (codes "GET", 0) ∷ (codes "PUT", 3) ∷ []

abbrev pub four_letters : List (Bytes × ℕ)
four_letters = (codes "HEAD", 1) ∷ (codes "POST", 2) ∷ []

abbrev pub five_letters : List (Bytes × ℕ)
five_letters = (codes "PATCH", 4) ∷ (codes "TRACE", 8) ∷ []

abbrev pub six_letters : List (Bytes × ℕ)
six_letters = (codes "DELETE", 5) ∷ []

abbrev pub seven_letters : List (Bytes × ℕ)
seven_letters = (codes "OPTIONS", 6) ∷ (codes "CONNECT", 7) ∷ []

-- `none` stands for -1.
unfoldable pub common_method_id : Bytes → Option ℕ
common_method_id m =
    if length m == 3
    then named three_letters m
    else if length m == 4
    then named four_letters m
    else if length m == 5
    then named five_letters m
    else if length m == 6
    then named six_letters m
    else if length m == 7
    then named seven_letters m
    else none

abbrev pub common_method_names : List Bytes
common_method_names =
    codes "GET"
    ∷ codes "HEAD"
    ∷ codes "POST"
    ∷ codes "PUT"
    ∷ codes "PATCH"
    ∷ codes "DELETE"
    ∷ codes "OPTIONS"
    ∷ codes "CONNECT"
    ∷ codes "TRACE"
    ∷ []

-- `methodIDs` and `numMethods`.
pub record MethodTable : Type 0 where
  pub ids : List (Bytes × ℕ)
  pub num_methods : ℕ

abbrev pub add_method : Bytes → MethodTable → Option ℕ → Option ℕ → MethodTable
add_method m t (some id) known = t
add_method m t none (some id) = t
add_method m t none none = record {
  ids = (m, t.num_methods) ∷ t.ids;
  num_methods = t.num_methods + 1;
}

-- The loop of `assignMethodIDs` over the methods of the routes.
unfoldable pub assign_loop : List Bytes → MethodTable → MethodTable
assign_loop [] t = t
assign_loop (m ∷ ms) t = assign_loop ms (add_method m t (common_method_id m) (named t.ids m))

unfoldable pub assign_method_ids : List Bytes → MethodTable
assign_method_ids ms = assign_loop ms (record { ids = []; num_methods = num_common_methods })

abbrev pub common_or : Option ℕ → Option ℕ → Option ℕ
common_or (some id) known = some id
common_or none known = known

unfoldable pub method_id : MethodTable → Bytes → Option ℕ
method_id t m = common_or (common_method_id m) (named t.ids m)
