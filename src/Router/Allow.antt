-- ===== src/Router/Allow.antt =====
-- `collectMethods`, `addMethods` and `allowValue` of router.go.
pub mod Names
pub mod Collects
use simdhttp.Common.{
  ℕ, zero, suc, Bool, false, ◌||◌, Option, none, some, List, [], ◌∷◌, ◌++◌, ◌==◌, if◌then◌else◌,
  Bytes, codes, length, is_empty, equal,
}
use simdhttp.Router.Tree.{
  Node, node, Child, absent, present, find_edge, methods_of, cut_slash, decode_fast, insert_sorted,
}

-- `set`, a map from names to true, is the list of its names.
abbrev pub has_name : Bytes → List Bytes → Bool
has_name m [] = false
has_name m (x ∷ xs) = equal m x || has_name m xs

abbrev pub add_name : Bytes → List Bytes → List Bytes
add_name m set = if has_name m set then set else m ∷ set

abbrev pub head_too : Bytes → List Bytes → List Bytes
head_too m set = if equal m (codes "GET") then add_name (codes "HEAD") set else set

unfoldable pub add_names : List Bytes → List Bytes → List Bytes
add_names [] set = set
add_names (m ∷ ms) set = add_names ms (head_too m (add_name m set))

abbrev pub add_methods : Node → List Bytes → List Bytes
add_methods n set = add_names (methods_of n) set

-- Along an edge: at the last segment the child's methods, before it what is collected below.
abbrev pub collect_into :
    (Node → Bytes → List Bytes → List Bytes) → Child → Option Bytes → List Bytes → List Bytes
collect_into again absent tail set = set
collect_into again (present c) none set = add_methods c set
collect_into again (present c) (some tail) set = again c tail set

abbrev pub collect_multi : Child → List Bytes → List Bytes
collect_multi absent set = set
collect_multi (present m) set = add_methods m set

abbrev pub collect_decoded :
    (Node → Bytes → List Bytes → List Bytes)
    → Node
    → Option Bytes
    → Option Bytes
    → List Bytes
    → List Bytes
collect_decoded again n tail none set = set
collect_decoded again (node st si mu hs ms) tail (some dec) set =
    let set1 = collect_into again (find_edge dec st) tail set in
    let set2 = if is_empty dec then set1 else collect_into again si tail set1 in
    collect_multi mu set2

unfoldable pub collect_loop : ℕ → Node → Bytes → List Bytes → List Bytes
collect_loop zero n rest set = set
collect_loop (suc fuel) n rest set =
    let (seg, tail) = cut_slash rest in
    collect_decoded (λ c t s. collect_loop fuel c t s) n tail (decode_fast seg) set

-- Each round takes a slash off the path.
unfoldable pub collect_methods : Node → Bytes → List Bytes → List Bytes
collect_methods n rest set = collect_loop (suc (length rest)) n rest set

abbrev pub ends_in_slash : Bytes → Bool
ends_in_slash [] = false
ends_in_slash (c ∷ []) = c == b'/'
ends_in_slash (c ∷ d ∷ ds) = ends_in_slash (d ∷ ds)

-- `sort.Strings`
abbrev pub sort_names : List Bytes → List Bytes
sort_names [] = []
sort_names (x ∷ xs) = insert_sorted x (sort_names xs)

-- `strings.Join` with a comma and a space.
abbrev pub join_names : List Bytes → Bytes
join_names [] = []
join_names (x ∷ []) = x
join_names (x ∷ y ∷ ys) = x ++ (codes ", " ++ join_names (y ∷ ys))

abbrev pub allowed_at : Node → Bytes → Bytes → List Bytes
allowed_at n rest path =
    let set = collect_methods n rest [] in
    if ends_in_slash path then set else collect_methods n (rest ++ b'/' ∷ []) set

abbrev pub allowed_names : Child → Bytes → List Bytes
allowed_names absent path = []
allowed_names (present n) [] = []
allowed_names (present n) (c ∷ rest) = if c == b'/' then allowed_at n rest (c ∷ rest) else []

unfoldable pub allow_value : Child → Bytes → Bytes
allow_value root path = join_names (sort_names (allowed_names root path))
