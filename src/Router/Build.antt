-- ===== src/Router/Build.antt =====
-- `Build` of router.go behind the parser of patterns: the method IDs, the tries and the `Allow` value.
pub mod Same
pub mod Picks
pub mod Verdict
pub mod Dispatch
pub mod Keys
pub mod Hosts
use simdhttp.Common.{
  ℕ, ◌≡◌, Bool, true, false, not, ◌||◌, List, [], ◌∷◌, if◌then◌else◌, Bytes, codes, is_empty, equal,
}
use simdhttp.Router.Allow.{add_name, head_too, sort_names, join_names}
use simdhttp.Router.Methods.{MethodTable, assign_method_ids}
use simdhttp.Router.Serve.{Router}
use simdhttp.Router.Table.{ParsedRoute, insert_all}
use simdhttp.Router.Tree.{Node, Edges, no_edges, edge}

pub record Registration : Type 0 where
  pub method : Bytes
  pub pattern : Bytes
  pub handler : ℕ

-- `allMethodNames`
abbrev pub registered_methods : List Registration → List Bytes
registered_methods [] = []
registered_methods (reg ∷ regs) =
    let seen = registered_methods regs in
    if is_empty reg.method then seen else head_too reg.method (add_name reg.method seen)

unfoldable pub all_method_names : List Registration → Bytes
all_method_names regs = join_names (sort_names (registered_methods regs))

-- Whether a key of `roots` is a host.
abbrev pub names_host : Edges → Bool
names_host no_edges = false
names_host (edge host n es) = not (is_empty host) || names_host es

abbrev pub methods_in : List ParsedRoute → List Bytes
methods_in [] = []
methods_in (p ∷ ps) = p.method ∷ methods_in ps

-- What `Build` makes of the routes that were parsed.
unfoldable pub compile : (ℕ → ℕ) → Bool → List Registration → List ParsedRoute → Router
compile wrap redirects regs ps =
    let t = assign_method_ids (methods_in ps) in
    let roots = (insert_all t wrap ps no_edges).0 in
    record {
      built = true;
      redirect_trailing_slash = redirects;
      host_routes = names_host roots;
      allow_all = all_method_names regs;
      methods = t;
      roots = roots;
    }
