-- ===== src/Router/Table.antt =====
-- `insert` of router.go on the tries of a table, one for each host, and the loop of `Build` over it.
pub mod Entries
pub mod First
use simdhttp.Common.{
  ℕ, ◌≡◌, Bool, true, false, ◌&&◌, Option, none, some, List, [], ◌∷◌, ◌==◌, if◌then◌else◌, Bytes,
  equal,
}
use simdhttp.Router.Methods.{MethodTable, method_id}
use simdhttp.Router.Tree.{
  Node, Child, Edges, no_edges, Handlers, HandlerEntry, put_edge, put_handler, insert_at, find_edge,
  slot,
}
use simdhttp.Router.{Segment}

pub record ParsedRoute : Type 0 where
  pub method : Bytes
  pub host : Bytes
  pub segs : List Segment
  pub pattern : Bytes
  pub names : List Bytes
  pub handler : ℕ

-- `wrap` applies the middleware to a handler.
abbrev pub entry_of : (ℕ → ℕ) → ParsedRoute → HandlerEntry
entry_of wrap p = record { handler = wrap p.handler; names = p.names; pattern = p.pattern }

-- At the node of the pattern; a method without an ID changes nothing there.
abbrev pub at_leaf : ℕ → Option ℕ → Bytes → HandlerEntry → Node → Node
at_leaf num none method e n = n
at_leaf num (some id) method e n = put_handler num id method e n

abbrev pub missing_id : Option ℕ → Bytes → List Bytes → List Bytes
missing_id none method errs = method ∷ errs
missing_id (some id) method errs = errs

-- `insert` on `roots`, a map from hosts to tries.
unfoldable pub insert : MethodTable → (ℕ → ℕ) → ParsedRoute → Edges → Edges
insert t wrap p roots =
    put_edge p.host
      (insert_at (at_leaf t.num_methods (method_id t p.method) p.method (entry_of wrap p)) p.segs)
      roots

-- The loop over the routes; the methods that have no ID are the errors.
unfoldable pub insert_all : MethodTable → (ℕ → ℕ) → List ParsedRoute → Edges → Edges × List Bytes
insert_all t wrap [] roots = (roots, [])
insert_all t wrap (p ∷ ps) roots =
    let (roots', errs) = insert_all t wrap ps (insert t wrap p roots) in
    (roots', missing_id (method_id t p.method) p.method errs)
