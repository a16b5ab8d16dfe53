-- ===== src/Router/Build/Keys.antt =====
-- The host of a request that routes are looked up by (`hostRoot` of router.go).
use simdhttp.Common.{
  ℕ, suc, ◌≡◌, ◌≢◌, inl, inr, refl, sym, ap, ◌∙◌, subst, none, some, [], ◌∷◌, ◌++◌, ◌==◌, ==_iff,
  Bytes, take, drop, index_byte, Bool-cases, Option-cases,
}
use simdhttp.Router.Serve.{Library, last_index_byte, strip_port}
use simdhttp.Router.Tree.Paths.{HasNo, HasNo-index_byte, index_byte-HasNo}

-- The host that routes are looked up by: lower-cased and without its port, which is what stands behind
-- the last colon, unless there is a closing bracket in it.
pub data HostKey (lib : Library) : Bytes → Bytes → Type 0 where
  no_host : HostKey lib [] []
  no_colon : {host : Bytes} → host ≢ [] → HasNo b':' host → HostKey lib host (lib.to_lower host)
  with_port :
      (name port : Bytes)
      → HasNo b':' port
      → HasNo b']' port
      → HostKey lib (name ++ (b':' ∷ port)) (lib.to_lower name)
  in_brackets :
      (front tail : Bytes)
      → HasNo b':' tail
      → ¬ HasNo b']' tail
      → HostKey lib (front ++ (b':' ∷ tail)) (lib.to_lower (front ++ (b':' ∷ tail)))

last_index_byte-HasNo : (c : ℕ) (xs : Bytes) → last_index_byte xs c ≡ none → HasNo c xs
last_index_byte-HasNo c [] h = tt
last_index_byte-HasNo c (x ∷ xs) h = elim (Option-cases (last_index_byte xs c)) [
  | inr (j, rest) ↦ cc (rw rest at h)
  | inl rest ↦ elim (Bool-cases (x == c)) [
    | inl e ↦ cc (rw (e, rest) at h)
    | inr e ↦ (e, last_index_byte-HasNo c xs rest)
  ]
]

-- A string cut at the last place of a byte.
record Cut (c : ℕ) (xs : Bytes) (i : ℕ) : Type 0 where
  front : Bytes
  tail : Bytes
  joined : xs ≡ front ++ (c ∷ tail)
  clean : HasNo c tail
  taken : take i xs ≡ front
  dropped : drop i xs ≡ c ∷ tail

last_index_byte-Cut : (c : ℕ) (xs : Bytes) (i : ℕ) → last_index_byte xs c ≡ some i → Cut c xs i
last_index_byte-Cut c [] i h = cc
last_index_byte-Cut c (x ∷ xs) i h = elim (Option-cases (last_index_byte xs c)) [
  | inr (j, rest) ↦
      let k = last_index_byte-Cut c xs j rest in
      let is : some (suc j) ≡ some i = rw rest at h in
      let at_suc : i ≡ suc j = cc in
      subst (Cut c (x ∷ xs)) (sym at_suc) (record {
        front = x ∷ k.front;
        tail = k.tail;
        joined = ap (◌∷◌ x) k.joined;
        clean = k.clean;
        taken = ap (◌∷◌ x) k.taken;
        dropped = k.dropped;
      })
  | inl rest ↦ elim (Bool-cases (x == c)) [
    | inr e ↦ cc (rw (e, rest) at h)
    | inl e ↦
        let is : some 0 ≡ some i = rw (e, rest) at h in
        let at_zero : i ≡ 0 = cc in
        let same : (x ∷ xs) ≡ (c ∷ xs) = ap (λ (y : ℕ). y ∷ xs) ((==_iff x c).0 e) in
        subst (Cut c (x ∷ xs)) (sym at_zero) (record {
          front = [];
          tail = xs;
          joined = same;
          clean = last_index_byte-HasNo c xs rest;
          taken = refl;
          dropped = same;
        })
  ]
]

-- The key that the code looks up is the one of the relation.
pub strip_port-HostKey :
    (lib : Library) (host : Bytes)
    → host ≢ []
    → HostKey lib host (lib.to_lower (strip_port host (last_index_byte host b':')))
strip_port-HostKey lib host named = elim (Option-cases (last_index_byte host b':')) [
  | inl e ↦ rw e (no_colon named (last_index_byte-HasNo b':' host e))
  | inr (i, e) ↦
      let k = last_index_byte-Cut b':' host i e in
      elim (Option-cases (index_byte (drop i host) b']')) [
        | inl none_there ↦
            let clean =
              HasNo-index_byte b']' (b':' ∷ k.tail)
                (sym (ap (λ x. index_byte x b']') k.dropped) ∙ none_there) in
            rw (e, none_there, strip_port, k.taken)
              (subst (λ x. HostKey lib x (lib.to_lower k.front)) (sym k.joined)
                (with_port k.front k.tail k.clean clean.1))
        | inr (j, bracket) ↦
            let unclean : ¬ HasNo b']' k.tail = λ h.
              let no_bracket = index_byte-HasNo b']' (b':' ∷ k.tail) (refl, h) in
              let found = sym no_bracket ∙ ap (λ x. index_byte x b']') (sym k.dropped) ∙ bracket in
              cc in
            rw (e, bracket, strip_port)
              (subst (λ x. HostKey lib x (lib.to_lower x)) (sym k.joined)
                (in_brackets k.front k.tail k.clean unclean))
      ]
]
