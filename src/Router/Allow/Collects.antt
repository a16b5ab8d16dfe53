-- ===== src/Router/Allow/Collects.antt =====
-- The walk of `collectMethods` collects the methods of every pattern that matches.
use simdhttp.Common.{
  ℕ, zero, suc, ◌<◌, ◌≡◌, ◌≢◌, ◌⊎◌, ◌↔◌, inl, inr, refl, sym, ap, subst, Bool, true, false, ◌||◌,
  Option, none, some, List, [], ◌∷◌, arith, if◌then◌else◌, Bytes, length, is_empty,
}
use simdhttp.Router.Allow.Names.{
  lists, has_name-add_names, IsNamed, NamedIn, ListedIn, IsNamed-EdgesOf, EdgesOf-IsNamed,
}
use simdhttp.Router.Allow.{
  has_name, add_methods, collect_into, collect_multi, collect_decoded, collect_loop,
  collect_methods,
}
use simdhttp.Router.Tree.Matching.{tail_shorter}
use simdhttp.Router.Tree.Paths.{IsPath, decode_fast_iff}
use simdhttp.Router.Tree.Search.{Rest, at_last, behind, Split, split, IsPath-Split}
use simdhttp.Router.Tree.{Node, node, Child, absent, present, find_edge, methods_of, cut_slash}

-- `after` has the names of `before` and those that `T` says.
abbrev pub Adds : Bytes → List Bytes → List Bytes → Type 0 → Type 0
Adds x before after T = (has_name x after ≡ true) ↔ ((has_name x before ≡ true) ⊎ T)

nothing-Adds : (x : Bytes) (set : List Bytes) (T : Type 0) → (T → ⊥) → Adds x set set T
nothing-Adds x set T f = ((λ h. inl h), λ h. elim h [ inl a ↦ a | inr t ↦ absurd (f t) ])

chain-Adds :
    (x : Bytes) (s0 s1 s2 : List Bytes) (A B : Type 0)
    → Adds x s0 s1 A
    → Adds x s1 s2 B
    → Adds x s0 s2 (A ⊎ B)
chain-Adds x s0 s1 s2 A B f g = (
  (λ h. elim (g.0 h) [
    | inl h1 ↦ elim (f.0 h1) [ inl h0 ↦ inl h0 | inr a ↦ inr (inl a) ]
    | inr b ↦ inr (inr b)
  ]),
  λ h. elim h [
    | inl h0 ↦ g.1 (inl (f.1 (inl h0)))
    | inr ab ↦ elim ab [ inl a ↦ g.1 (inl (f.1 (inr a))) | inr b ↦ g.1 (inr b) ]
  ],
)

map-Adds :
    (x : Bytes) (s0 s1 : List Bytes) (A B : Type 0)
    → (A → B)
    → (B → A)
    → Adds x s0 s1 A
    → Adds x s0 s1 B
map-Adds x s0 s1 A B f g h = (
  (λ e. elim (h.0 e) [ inl s ↦ inl s | inr a ↦ inr (f a) ]),
  λ e. elim e [ inl s ↦ h.1 (inl s) | inr b ↦ h.1 (inr (g b)) ],
)

either_true : (a b : Bool) → ((a || b) ≡ true) ↔ ((a ≡ true) ⊎ (b ≡ true))
either_true true b = ((λ h. inl refl), λ h. refl)
either_true false b = ((λ h. inr h), λ h. elim h [ inl e ↦ cc | inr e ↦ e ])

methods-Adds :
    (x : Bytes) (n : Node) (set : List Bytes)
    → Adds x set (add_methods n set) (lists (methods_of n) x ≡ true)
methods-Adds x n set =
    rw (has_name-add_names x (methods_of n) set)
      (either_true (has_name x set) (lists (methods_of n) x))

-- The pattern that ends at a node.
ended : (x : Bytes) (c : Node) → lists (methods_of c) x ≡ true → IsNamed x c []
ended x c l = ([], c, record { leaf = refl; is_pattern = tt; matches = tt; listed = l })

ended-lists : (x : Bytes) (c : Node) → IsNamed x c [] → lists (methods_of c) x ≡ true
ended-lists x c ([], c', k) =
    let e : present c ≡ present c' = k.leaf in
    let is : c ≡ c' = cc in subst (λ y. lists (methods_of y) x ≡ true) (sym is) k.listed
ended-lists x c (s ∷ ss, c', k) = absurd k.matches

module _ (x : Bytes) (again : Node → Bytes → List Bytes → List Bytes) where
  into-Adds :
      (ch : Child) (tail : Option Bytes) (ps set : List Bytes)
      → Rest tail ps
      → ((t : Bytes)
          → tail ≡ some t
          → IsPath t ps
          → (c : Node) → Adds x set (again c t set) (IsNamed x c ps))
      → Adds x set (collect_into again ch tail set) (NamedIn x ch ps)
  into-Adds absent tail ps set r ih = nothing-Adds x set ⊥ λ k. k
  into-Adds (present c) none _ set at_last ih =
      map-Adds x set (add_methods c set) _ _ (ended x c) (ended-lists x c) (methods-Adds x c set)
  into-Adds (present c) (some t) ps set (behind k) ih = ih t refl k c

  multi-Adds : (ch : Child) (set : List Bytes) → Adds x set (collect_multi ch set) (ListedIn x ch)
  multi-Adds absent set = nothing-Adds x set ⊥ λ k. k
  multi-Adds (present m) set = methods-Adds x m set

  single-Adds :
      (p : Bytes) (before after : List Bytes) (T : Type 0)
      → Adds x before after T
      → Adds x before (if is_empty p then before else after) ((p ≢ []) × T)
  single-Adds [] before after T h = nothing-Adds x before (([] ≢ []) × T) λ k. k.0 refl
  single-Adds (c ∷ cs) before after T h =
      map-Adds x before after T (((c ∷ cs) ≢ []) × T) (λ t. ((λ e. cc), t)) (λ k. k.1) h

  decoded-Adds :
      (n : Node) (tail : Option Bytes) (p : Bytes) (ps set : List Bytes)
      → Rest tail ps
      → ((t : Bytes)
          → tail ≡ some t
          → IsPath t ps
          → (c : Node) (s : List Bytes) → Adds x s (again c t s) (IsNamed x c ps))
      → Adds x set (collect_decoded again n tail (some p) set) (IsNamed x n (p ∷ ps))
  decoded-Adds (node st si mu hs ms) tail p ps set r ih =
      let n = node st si mu hs ms in
      let set1 = collect_into again (find_edge p st) tail set in
      let after1 = collect_into again si tail set1 in
      let set2 = if is_empty p then set1 else after1 in
      map-Adds x set (collect_multi mu set2) _ _ (EdgesOf-IsNamed x n p ps)
        (IsNamed-EdgesOf x n p ps)
        (chain-Adds x set set1 (collect_multi mu set2) (NamedIn x (find_edge p st) ps) _
          (into-Adds (find_edge p st) tail ps set r λ t e k c. ih t e k c set)
          (chain-Adds x set1 set2 (collect_multi mu set2) ((p ≢ []) × NamedIn x si ps)
            (ListedIn x mu)
            (single-Adds p set1 after1 (NamedIn x si ps)
              (into-Adds si tail ps set1 r λ t e k c. ih t e k c set1))
            (multi-Adds mu set2)))

  split-Adds :
      (n : Node) (tail : Option Bytes) (p : Bytes) (ps set : List Bytes)
      → Split p tail ps
      → ((t : Bytes) (qs : List Bytes)
          → tail ≡ some t
          → IsPath t qs
          → (c : Node) (s : List Bytes) → Adds x s (again c t s) (IsNamed x c qs))
      → Adds x set (collect_decoded again n tail (some p) set) (IsNamed x n ps)
  split-Adds n tail p _ set (split {ps = qs} r) ih =
      decoded-Adds n tail p qs set r λ t e k c s. ih t qs e k c s

loop-Adds :
    (x : Bytes) (fuel : ℕ) (n : Node) (rest : Bytes) (ps set : List Bytes)
    → length rest < fuel
    → IsPath rest ps
    → Adds x set (collect_loop fuel n rest set) (IsNamed x n ps)
unfolding collect_loop
loop-Adds x zero n rest ps set enough path = absurd (omega arith)
loop-Adds x (suc fuel) n rest ps set enough path =
    let seg = (cut_slash rest).0 in
    let tail = (cut_slash rest).1 in
    let (p, d, s) = IsPath-Split seg tail refl path in
    rw ((decode_fast_iff seg p).1 d) (
      split-Adds x (λ c t vs. collect_loop fuel c t vs) n tail p ps set s
        λ t qs e k c vs.
          loop-Adds x fuel c t qs vs (omega (arith, tail_shorter rest seg t (ap (λ y. (seg, y)) e)))
            k)

-- On a path whose escapes are sound, `collectMethods` adds to the set exactly the methods registered
-- for the patterns of the trie that match the path, all of them and not only those of the most
-- specific one, with HEAD where GET is registered.
pub collect_methods_iff :
    (x : Bytes) (n : Node) (rest : Bytes) (ps set : List Bytes)
    → IsPath rest ps
    → (has_name x (collect_methods n rest set) ≡ true) ↔ ((has_name x set ≡ true) ⊎ IsNamed x n ps)
unfolding collect_methods
collect_methods_iff x n rest ps set path =
    loop-Adds x (suc (length rest)) n rest ps set (omega arith) path
