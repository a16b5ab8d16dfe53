-- ===== src/Router/Build/Verdict.antt =====
-- What a compiled table answers, in terms of its routes.
use simdhttp.Common.{ℕ, ◌≢◌, ◌≡◌, ◌⊎◌, false, List, [], ◌∷◌, Bytes, codes, take}
use simdhttp.Router.Conflicts.{IsMoreSpecific}
use simdhttp.Common.{Among}
use simdhttp.Router.Segments.{Matches}
use simdhttp.Router.Serve.{Response, served, bind_params}
use simdhttp.Router.Serve.Verdict.{is_served}
use simdhttp.Router.Table.{ParsedRoute}
use simdhttp.Router.Tree.Leaves.{captures}
use simdhttp.Router.Tree.Paths.{IsPath}

-- A route answers its method, and GET answers HEAD.
abbrev pub AnswersMethod : Bytes → ParsedRoute → Type 0
AnswersMethod m p = (p.method ≡ m) ⊎ ((m ≡ codes "HEAD") × (p.method ≡ codes "GET"))

-- A route of this host that matches the path.
pub record Takes (m host : Bytes) (qs : List Bytes) (p : ParsedRoute) : Type 0 where
  pub same_host : p.host ≡ host
  pub matches : Matches p.segs qs
  pub for_method : AnswersMethod m p

abbrev pub NoRoute : List ParsedRoute → Bytes → Bytes → Bytes → Type 0
NoRoute ps rest m host =
    (p : ParsedRoute) (qs : List Bytes) → Among p ps → IsPath rest qs → Takes m host qs p → ⊥

-- The names of a pattern's wildcards bound to their values, in order. An empty name binds nothing.
pub data Binds : List Bytes → List Bytes → List (Bytes × Bytes) → Type 0 where
  no_name : {vals : List Bytes} → Binds [] vals []
  no_value : {names : List Bytes} → Binds names [] []
  nameless :
      {v : Bytes} {names vals : List Bytes} {bound : List (Bytes × Bytes)}
      → Binds names vals bound
      → Binds ([] ∷ names) (v ∷ vals) bound
  named :
      {n v : Bytes} {names vals : List Bytes} {bound : List (Bytes × Bytes)}
      → n ≢ []
      → Binds names vals bound
      → Binds (n ∷ names) (v ∷ vals) ((n, v) ∷ bound)

pub bind_params-Binds : (names vals : List Bytes) → Binds names vals (bind_params names vals)
bind_params-Binds [] vals = no_name
bind_params-Binds (n ∷ names) [] = no_value
bind_params-Binds ([] ∷ names) (v ∷ vals) = nameless (bind_params-Binds names vals)
bind_params-Binds ((c ∷ cs) ∷ names) (v ∷ vals) = named (λ e. cc) (bind_params-Binds names vals)

pub data Dispatches (wrap : ℕ → ℕ) (ps : List ParsedRoute) (key rest m : Bytes)
    : Response → Type 0 where
  to_route :
      (p : ParsedRoute) (qs : List Bytes)
      → Among p ps
      → (p.host ≡ key) ⊎ ((p.host ≡ []) × NoRoute ps rest m key)
      → IsPath rest qs
      → Takes m p.host qs p
      → ((p' : ParsedRoute)
          → Among p' ps
          → Takes m p.host qs p'
          → ¬ IsMoreSpecific (Matches p'.segs) (Matches p.segs))
      → (bound : List (Bytes × Bytes)) → Binds p.names (take 8 (captures p.segs qs)) bound
      → Dispatches wrap ps key rest m (served (wrap p.handler) bound)
  to_none :
      {answer : Response}
      → NoRoute ps rest m key
      → NoRoute ps rest m []
      → is_served answer ≡ false
      → Dispatches wrap ps key rest m answer
