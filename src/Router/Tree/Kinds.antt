-- ===== src/Router/Tree/Kinds.antt =====
-- The branches of `matchSegments` for a literal, a parameter and a wildcard, as searches for the
-- patterns that start with one.
use simdhttp.Common.{
  ℕ, ◌≤◌, ◌≡◌, ◌≢◌, inl, inr, refl, sym, ap, ◌∙◌, subst, true, false, Option, none, some, List, [],
  ◌∷◌, Bytes, is_empty, Bool-cases,
}
use simdhttp.Router.Escapes.{Decodes}
use simdhttp.Router.Segments.{Matches}
use simdhttp.Router.Tree.Branches.{Again, Below, candidate_in, step_into-Outcome}
use simdhttp.Router.Tree.Leaves.{
  leaf_at, IsPattern, captures, Prefers, CandidateIn, First, first, down,
}
use simdhttp.Router.Tree.Outcomes.{
  Kept, Bound, Outcome, HasRoom, bind_value_lem, Bound-cons, Kept-behind, Kept-refl, HasRoom-Bound,
}
use simdhttp.Router.Tree.Paths.{
  IsPath, join, IsPath-nonempty, decode_fast_iff, IsPath-Decodes, Decodes-IsPath,
}
use simdhttp.Router.Tree.Search.{Rest, Split, split, Split-first, Rest-IsPath}
use simdhttp.Router.Tree.{
  Node, node, Child, absent, present, Edges, Handlers, Found, find_edge, serves, cut_slash,
  decode_fast, step_into, try_single, try_multi, bind_rest, bind_value,
}
use simdhttp.Router.{seg_lit, seg_single, seg_multi, Segment}

empty_bytes : (p : Bytes) → is_empty p ≡ true → p ≡ []
empty_bytes [] e = refl
empty_bytes (x ∷ xs) e = cc

nonempty_bytes : (p : Bytes) → is_empty p ≡ false → p ≢ []
nonempty_bytes [] e = cc
nonempty_bytes (x ∷ xs) e = λ h. cc

down_self :
    (ch : Child) (ss : List Segment) (c : Node)
    → ss ≡ []
    → down (leaf_at ss) ch ≡ present c
    → ch ≡ present c
down_self absent ss c e h = cc
down_self (present n) ss c e h = subst (λ xs. leaf_at xs n ≡ present c) e h

module _ (want : Option ℕ) (st : Edges) (si mu : Child) (hs : Handlers) (ms : List Bytes)
    (rest seg p : Bytes) (tail : Option Bytes) (cut : cut_slash rest ≡ (seg, tail))
    (dec : Decodes seg p) where
  abbrev pub here : Node
  here = node st si mu hs ms

  -- The candidate behind the first segment.
  literal_in :
      (ss : List Segment) (ps : List Bytes) (c : Node)
      → First want here seg_lit ss ps c
      → Split p tail ps
      → (ss' : List Segment) × (ps' : List Bytes) × Rest tail ps'
        × CandidateIn want (find_edge p st) ss' ps' c
  literal_in _ _ c (first t {ss = ss} k) (split {ps = ps} r) =
      let same : t ≡ p = sym k.matches.0 in
      (
        ss,
        ps,
        r,
        candidate_in want (find_edge p st) ss ps c
            (subst (λ x. down (leaf_at ss) (find_edge x st) ≡ present c) same k.leaf) k.is_pattern.1
            k.matches.1 k.serving,
      )

  literal_Prefers :
      (ss0 : List Segment) (ps : List Bytes) (ss : List Segment) (c : Node)
      → First want here seg_lit ss (p ∷ ps) c
      → ((ss' : List Segment) (c' : Node)
          → CandidateIn want (find_edge p st) ss' ps c'
          → Prefers ss0 ss')
      → Prefers (record { kind = seg_lit; text = p } ∷ ss0) ss
  literal_Prefers ss0 ps _ c (first t {ss = ss} k) best =
      let same : t ≡ p = sym k.matches.0 in
      (
        sym same,
        best ss c (
            candidate_in want (find_edge p st) ss ps c
              (subst (λ x. down (leaf_at ss) (find_edge x st) ≡ present c) same k.leaf)
              k.is_pattern.1 k.matches.1 k.serving),
      )

  candidate_leaf :
      (ch : Child) (ss : List Segment) (ps : List Bytes) (c : Node)
      → CandidateIn want ch ss ps c
      → (down (leaf_at ss) ch ≡ present c) × IsPattern ss × Matches ss ps × (serves c want ≡ true)
  candidate_leaf absent ss ps c k = absurd k
  candidate_leaf (present n) ss ps c k = (k.leaf, k.is_pattern, k.matches, k.serving)

  pub literal_Outcome :
      (vals : List Bytes) (nv : ℕ) (r : Found)
      → Outcome (Rest tail) (CandidateIn want (find_edge p st)) vals nv r
      → Outcome (IsPath rest) (First want here seg_lit) vals nv r
  literal_Outcome vals nv (vals', none) (kept, missing) = (
    kept,
    λ ss ps c path f.
        let (ss', ps', r, k) = literal_in ss ps c f (Split-first seg p tail cut dec path) in
        missing ss' ps' c r k,
  )
  literal_Outcome vals nv (vals', some (c, nv')) (ss, ps, r, k, bound, best) =
      let (leaf, is, m, s) = candidate_leaf (find_edge p st) ss ps c k in
      (
        record { kind = seg_lit; text = p } ∷ ss,
        p ∷ ps,
        Rest-IsPath rest seg p tail ps cut dec r,
        first p (record { leaf = leaf; is_pattern = (tt, is); matches = (refl, m); serving = s }),
        bound,
        λ ss' c' f. literal_Prefers ss ps ss' c' f best,
      )

  single_in :
      (ss : List Segment) (ps : List Bytes) (c : Node)
      → First want here seg_single ss ps c
      → Split p tail ps
      → (ss' : List Segment) × (ps' : List Bytes) × Rest tail ps'
        × CandidateIn want si ss' ps' c
        × (p ≢ [])
  single_in _ _ c (first t {ss = ss} k) (split {ps = ps} r) = (
    ss,
    ps,
    r,
    candidate_in want si ss ps c k.leaf k.is_pattern.1 k.matches.1 k.serving,
    k.matches.0,
  )

  single_Prefers :
      (ss0 : List Segment) (ps : List Bytes) (ss : List Segment) (c : Node)
      → First want here seg_single ss (p ∷ ps) c
      → ((ss' : List Segment) (c' : Node) → CandidateIn want si ss' ps c' → Prefers ss0 ss')
      → Prefers (record { kind = seg_single; text = [] } ∷ ss0) ss
  single_Prefers ss0 ps _ c (first t {ss = ss} k) best =
      best ss c (candidate_in want si ss ps c k.leaf k.is_pattern.1 k.matches.1 k.serving)

  single_Outcome :
      (vals vals1 : List Bytes) (nv nv1 : ℕ) (r : Found)
      → p ≢ []
      → Bound nv vals (p ∷ []) nv1 vals1
      → Kept nv vals vals1
      → nv ≤ nv1
      → Outcome (Rest tail) (CandidateIn want si) vals1 nv1 r
      → Outcome (IsPath rest) (First want here seg_single) vals nv r
  single_Outcome vals vals1 nv nv1 (vals', none) ne b k le (kept, missing) = (
    Kept-behind nv nv1 vals vals1 vals' k le kept,
    λ ss ps c path f.
        let (ss', ps', r, is, some_byte) =
          single_in ss ps c f (Split-first seg p tail cut dec path) in
        missing ss' ps' c r is,
  )
  single_Outcome vals vals1 nv nv1 (vals', some (c, nv')) ne b kept le (ss, ps, r, k, bound, best) =
      let (leaf, is, m, s) = candidate_leaf si ss ps c k in
      (
        record { kind = seg_single; text = [] } ∷ ss,
        p ∷ ps,
        Rest-IsPath rest seg p tail ps cut dec r,
        first [] (record { leaf = leaf; is_pattern = (tt, is); matches = (ne, m); serving = s }),
        Bound-cons nv nv1 nv' vals vals1 vals' p (captures ss ps) b bound,
        λ ss' c' f. single_Prefers ss ps ss' c' f best,
      )

  pub try_single-Outcome :
      (again : Again) (ch : Child) (vals : List Bytes) (nv : ℕ)
      → ch ≡ si
      → Below want again tail
      → HasRoom vals nv
      → Outcome
          (IsPath rest)
          (First want here seg_single)
          vals
          nv
          (try_single again want ch tail p vals nv)
  try_single-Outcome again absent vals nv is ih room = (
    Kept-refl nv vals,
    λ ss ps c path f.
        let (ss', ps', r, k, ne) = single_in ss ps c f (Split-first seg p tail cut dec path) in
        subst (λ ch. CandidateIn want ch ss' ps' c) (sym is) k,
  )
  try_single-Outcome again (present n) vals nv is ih room = elim (Bool-cases (is_empty p)) [
    | inl e ↦ rw e (
      Kept-refl nv vals,
      λ ss ps c path f.
          let (ss', ps', r, k, ne) = single_in ss ps c f (Split-first seg p tail cut dec path) in
          ne (empty_bytes p e),
    )
    | inr e ↦
        let (bound, kept, le) = bind_value_lem p vals nv room in
        let b = bind_value p vals nv in
        rw e (
          single_Outcome vals b.0 nv b.1 _ (nonempty_bytes p e) bound kept le (
            subst
              (λ ch.
                Outcome (Rest tail) (CandidateIn want ch) b.0 b.1
                  (step_into again want (present n) tail b.0 b.1))
              is
              (step_into-Outcome want again (present n) tail b.0 b.1 ih
                (HasRoom-Bound nv b.1 vals (p ∷ []) b.0 room bound))))
  ]

  multi_leaf :
      (ss : List Segment) (ps : List Bytes) (c : Node)
      → First want here seg_multi ss ps c
      → (mu ≡ present c) × (serves c want ≡ true)
  multi_leaf _ ps c (first t {ss = ss} k) = (down_self mu ss c k.is_pattern.0 k.leaf, k.serving)

  multi_Prefers :
      (ps : List Bytes) (ss : List Segment) (c : Node)
      → First want here seg_multi ss ps c
      → Prefers (record { kind = seg_multi; text = [] } ∷ []) ss
  multi_Prefers ps _ c (first t k) = tt

  wildcard :
      (m : Node) (p' : Bytes) (ps : List Bytes)
      → mu ≡ present m
      → serves m want ≡ true
      → First want here seg_multi (record { kind = seg_multi; text = [] } ∷ []) (p' ∷ ps) m
  wildcard m p' ps e s = first [] (record {
    leaf = ap (down (leaf_at [])) e;
    is_pattern = (refl, tt);
    matches = tt;
    serving = s;
  })

  whole_Outcome :
      (m : Node) (whole : Bytes) (vals : List Bytes) (nv : ℕ)
      → mu ≡ present m
      → serves m want ≡ true
      → let b = bind_value whole vals nv in
        Bound nv vals (whole ∷ []) b.1 b.0
        → (ps : List Bytes) → IsPath rest ps
        → join ps ≡ whole
        → Outcome
            (IsPath rest)
            (First want here seg_multi)
            vals
            nv
            (bind_rest m (some whole) vals nv)
  whole_Outcome m whole vals nv is s bound [] path joined = absurd (IsPath-nonempty path)
  whole_Outcome m whole vals nv is s bound (q ∷ ps) path joined =
      let b = bind_value whole vals nv in
      (
        record { kind = seg_multi; text = [] } ∷ [],
        q ∷ ps,
        path,
        wildcard m q ps is s,
        subst (λ (v : Bytes). Bound nv vals (v ∷ []) b.1 b.0) (sym joined) bound,
        λ ss' c' f. multi_Prefers (q ∷ ps) ss' c' f,
      )

  bind_rest-Outcome :
      (m : Node) (o : Option Bytes) (vals : List Bytes) (nv : ℕ)
      → decode_fast rest ≡ o
      → mu ≡ present m
      → serves m want ≡ true
      → HasRoom vals nv
      → Outcome (IsPath rest) (First want here seg_multi) vals nv (bind_rest m o vals nv)
  bind_rest-Outcome m none vals nv e is s room = (
    Kept-refl nv vals,
    λ ss ps c path f.
        let read = (decode_fast_iff rest (join ps)).1 (IsPath-Decodes path) in cc (e, read),
  )
  bind_rest-Outcome m (some whole) vals nv e is s room =
      let (bound, kept, le) = bind_value_lem whole vals nv room in
      let (ps, path, joined) = Decodes-IsPath ((decode_fast_iff rest whole).0 e) in
      whole_Outcome m whole vals nv is s bound ps path joined

  pub try_multi-Outcome :
      (ch : Child) (vals : List Bytes) (nv : ℕ)
      → mu ≡ ch
      → HasRoom vals nv
      → Outcome (IsPath rest) (First want here seg_multi) vals nv (try_multi want ch rest vals nv)
  try_multi-Outcome absent vals nv is room =
      (Kept-refl nv vals, λ ss ps c path f. let leaf = (multi_leaf ss ps c f).0 in cc (is, leaf))
  try_multi-Outcome (present m) vals nv is room = elim (Bool-cases (serves m want)) [
    | inl e ↦ rw e (bind_rest-Outcome m (decode_fast rest) vals nv refl is e room)
    | inr e ↦ rw e (
      Kept-refl nv vals,
      λ ss ps c path f.
          let (leaf, s) = multi_leaf ss ps c f in
          let both : present m ≡ present c = sym is ∙ leaf in
          let same : c ≡ m = cc in
          let served = subst (λ x. serves x want ≡ true) same s in cc (e, served),
    )
  ]
