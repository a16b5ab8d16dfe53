-- ===== src/Tests/Routes.antt =====
-- A table of routes of router.go, built and asked.
use simdhttp.Common.{
  ℕ, ◌≡◌, ◌↔◌, refl, true, some, List, [], ◌∷◌, Bytes, codes, get_elem?, equal, index_byte,
}
use simdhttp.Http1.Chars.{is_hex}
use simdhttp.Router.Allow.Collects.{collect_methods_iff}
use simdhttp.Router.Allow.Names.{IsNamed}
use simdhttp.Router.Allow.{has_name}
use simdhttp.Router.Tree.Paths.{IsPath, last, more, decode_fast_iff}
use simdhttp.Router.Escapes.{Decodes}
use simdhttp.Common.{◌⊎◌}
use simdhttp.Router.Build.Verdict.{Dispatches}
use simdhttp.Router.Build.Keys.{HostKey}
use simdhttp.Router.Build.Hosts.{serve_http-Dispatches}
use simdhttp.Router.Build.{compile, all_method_names}
use simdhttp.Router.Escapes.{decode_segment, count_escapes, resolve, unhex}
use simdhttp.Router.Methods.{
  common_method_id, common_method_names, assign_method_ids, assign_loop, method_id,
}
use simdhttp.Router.Methods.Common.{common_method_id_iff}
use simdhttp.Common.{Among, here, there}
use simdhttp.Router.Methods.Ids.{IsMethodTable, assign_method_ids-IsMethodTable}
use simdhttp.Router.Patterns.Accepted.{Accepts, parse_pattern-Accepts}
use simdhttp.Router.Patterns.{parsed, parse_pattern, parse_segment, segments_loop, is_token}
use simdhttp.Router.Serve.{
  Library, Request, served, method_not_allowed, needs_clean, clean_path, host_key, search, answer,
  serve_no_route, serve_http,
}
use simdhttp.Router.Table.First.{entry_at, first_entry, insert_all-first_entry}
use simdhttp.Router.Table.{ParsedRoute, insert, insert_all}
use simdhttp.Router.Tree.Leaves.{IsPattern}
use simdhttp.Router.Tree.Matching.{Answers, match_segments-Answers}
use simdhttp.Router.Tree.Specific.{IsBest, match_segments-IsBest}
use simdhttp.Router.Tree.{
  Node, no_edges, insert_at, put_edge, put_handler, serves_in, decode_fast, match_loop,
  match_segments, empty_node,
}
use simdhttp.Router.Allow.{allow_value, collect_methods, collect_loop, add_names}
use simdhttp.Router.{Segment, seg_lit, seg_single}

-- GET /users/me is handled by 1, GET /users/{id} by 2 and DELETE /users/{id} by 3.
abbrev me : List Segment
me =
    record { kind = seg_lit; text = codes "users" }
    ∷ record { kind = seg_lit; text = codes "me" }
    ∷ []

abbrev by_id : List Segment
by_id =
    record { kind = seg_lit; text = codes "users" }
    ∷ record { kind = seg_single; text = codes "id" }
    ∷ []

abbrev get_me : ParsedRoute
get_me = record {
  method = codes "GET";
  host = [];
  segs = me;
  pattern = codes "/users/me";
  names = [];
  handler = 1;
}

abbrev get_by_id : ParsedRoute
get_by_id = record {
  method = codes "GET";
  host = [];
  segs = by_id;
  pattern = codes "/users/{id}";
  names = codes "id" ∷ [];
  handler = 2;
}

abbrev delete_by_id : ParsedRoute
delete_by_id = record {
  method = codes "DELETE";
  host = [];
  segs = by_id;
  pattern = codes "/users/{id}";
  names = codes "id" ∷ [];
  handler = 3;
}

abbrev users_table : List ParsedRoute
users_table = get_me ∷ get_by_id ∷ delete_by_id ∷ []

users_table-IsPattern : (p : ParsedRoute) → Among p users_table → IsPattern p.segs
users_table-IsPattern _ here = (tt, (tt, tt))
users_table-IsPattern _ (there here) = (tt, (tt, tt))
users_table-IsPattern _ (there (there here)) = (tt, (tt, tt))
users_table-IsPattern p (there (there (there k))) = elim k [ ]

abbrev same_handler : ℕ → ℕ
same_handler h = h

-- Each URL is /users/me.
abbrev for_me : Library
for_me = record {
  escaped_path_of = λ u. codes "/users/me";
  path_of = λ u. codes "/users/me";
  raw_query_of = λ u. [];
  clean = λ p. p;
  to_lower = λ h. h;
}

abbrev ask : Bytes → Request
ask m = record {
  method = m;
  host = codes "a.example";
  request_uri = codes "/users/me";
  url = some 0;
}

served_requests :
    (serve_http for_me (compile same_handler true [] users_table) (ask (codes "HEAD"))
      ≡ served 1 [])
    × (serve_http for_me (compile same_handler true [] users_table) (ask (codes "DELETE"))
        ≡ served 3 ((codes "id", codes "me") ∷ []))
    × (serve_http for_me (compile same_handler true [] users_table) (ask (codes "PUT"))
        ≡ method_not_allowed (codes "DELETE, GET, HEAD"))
unfolding serve_http compile needs_clean clean_path host_key search answer serve_no_route method_id
    common_method_id assign_method_ids assign_loop insert_all insert insert_at put_edge put_handler
    serves_in decode_fast match_loop match_segments equal allow_value collect_methods collect_loop
    add_names all_method_names index_byte
served_requests = (refl, refl, refl)

serve_http-Dispatches_example :
    (key : Bytes) × HostKey for_me (codes "a.example") key
    × Dispatches same_handler users_table key
        (codes "users/me")
        (codes "HEAD")
        (serve_http for_me (compile same_handler true [] users_table) (ask (codes "HEAD")))
unfolding needs_clean equal
serve_http-Dispatches_example =
    serve_http-Dispatches for_me same_handler true [] users_table (ask (codes "HEAD"))
      (codes "users/me") users_table-IsPattern refl refl refl

abbrev users_trie : Node
users_trie =
    insert_at
      (λ n.
        put_handler 9 5 (codes "DELETE")
          (record { handler = 3; names = codes "id" ∷ []; pattern = [] }) n)
      by_id empty_node

abbrev no_values : List Bytes
no_values = [] ∷ [] ∷ [] ∷ [] ∷ [] ∷ [] ∷ [] ∷ [] ∷ []

match_segments-Answers_example :
    Answers users_trie
      (codes "users/me")
      (some 5)
      (match_segments users_trie (codes "users/me") (some 5) no_values 0)
match_segments-Answers_example =
    match_segments-Answers users_trie (codes "users/me") (some 5) no_values refl

match_segments-IsBest_example :
    IsBest users_trie
      (codes "users/me")
      (some 5)
      (match_segments users_trie (codes "users/me") (some 5) no_values 0)
match_segments-IsBest_example =
    match_segments-IsBest users_trie (codes "users/me") (some 5) no_values refl

abbrev table_methods : List Bytes
table_methods = codes "GET" ∷ codes "PURGE" ∷ []

assign_method_ids-IsMethodTable_example :
    IsMethodTable table_methods (assign_method_ids table_methods)
assign_method_ids-IsMethodTable_example = assign_method_ids-IsMethodTable table_methods

common_method_id_iff_example :
    (common_method_id (codes "PATCH") ≡ some 4)
    ↔ (get_elem? common_method_names 4 ≡ some (codes "PATCH"))
common_method_id_iff_example = common_method_id_iff (codes "PATCH") 4

insert_all-first_entry_example :
    entry_at
      (insert_all (assign_method_ids table_methods) same_handler users_table no_edges).0
      []
      by_id
      0
    ≡ first_entry (assign_method_ids table_methods) same_handler users_table [] by_id 0
insert_all-first_entry_example =
    insert_all-first_entry (assign_method_ids table_methods) same_handler users_table table_methods
      [] by_id 0 (assign_method_ids-IsMethodTable table_methods)

abbrev kept_case : Bytes → Bytes
kept_case h = h

parsed_pattern : parse_pattern kept_case (codes "GET") (codes "/users/{id}") 2 ≡ parsed get_by_id
unfolding parse_pattern is_token segments_loop parse_segment decode_segment count_escapes resolve
    unhex is_hex equal index_byte
parsed_pattern = refl

parse_pattern-Accepts_example :
    Accepts (codes "GET") (parse_pattern kept_case (codes "GET") (codes "a.example/users/{id}/") 2)
parse_pattern-Accepts_example =
    parse_pattern-Accepts kept_case (codes "GET") (codes "a.example/users/{id}/") 2

no_escapes : Decodes (codes "users") (codes "users") × Decodes (codes "me") (codes "me")
unfolding decode_fast index_byte
no_escapes = (
  (decode_fast_iff (codes "users") (codes "users")).0 refl,
  (decode_fast_iff (codes "me") (codes "me")).0 refl,
)

users_me-IsPath : IsPath (codes "users/me") (codes "users" ∷ codes "me" ∷ [])
users_me-IsPath =
    more {seg = codes "users"} {tail = codes "me"} refl (refl, (refl, (refl, (refl, (refl, tt)))))
      no_escapes.0 (last (refl, (refl, tt)) no_escapes.1)

collect_methods_iff_example :
    (has_name (codes "DELETE") (collect_methods users_trie (codes "users/me") []) ≡ true) ↔ (
      (has_name (codes "DELETE") [] ≡ true)
      ⊎ IsNamed (codes "DELETE") users_trie (codes "users" ∷ codes "me" ∷ []))
collect_methods_iff_example =
    collect_methods_iff (codes "DELETE") users_trie (codes "users/me")
      (codes "users" ∷ codes "me" ∷ []) [] users_me-IsPath
