-- ===== src/Head/Agreement.antt =====
-- A head that http1 accepts, in the root package's parser.
use simdhttp.Common.{
  ℕ, zero, suc, ◌+◌, ◌≡◌, inl, inr, refl, sym, ap, ◌∙◌, not, ◌&&◌, Option, none, some, List, [],
  ◌∷◌, ◌++◌, ltb, Bytes, codes, length, take, drop, is_empty, equal, index_byte, Bool-cases,
  Option-cases,
}
use simdhttp.Head.Lines.{head_lines, head_block-head_lines}
use simdhttp.Head.{
  HeadField, HeadRequest, HeadParsed, head_field, with_field, head_round, head_block, head_parts,
  cut_target, cut_method, head_line, head_at, parse_head,
}
use simdhttp.Http1.Chars.{token_only}
use simdhttp.Http1.Conn.Slices.{first_line}
use simdhttp.Http1.Errors.{Result, ok, err, malformed, missing_host}
use simdhttp.Http1.Framing.{Profile, compatible, strict}
use simdhttp.Http1.Parser.{
  HeadLimits, Header, Request, Walk, Parsed, field_line, head_end, strip_cr, line_round, line_field,
  parse_block, parse_parts, split_target, split_method, request_line, parse_at, parse,
  profile_limits, valid_target, is_http_version,
}
use simdhttp.Http1.Parser.Walks.{walk_lines, first_walk, parse_block-walk_lines}
use simdhttp.Http1.Simd.{Simd}
use simdhttp.Head.Kept.{
  same_fields, SameHead, Adds, KeepsIf, field_line-KeepsIf, same_tokens, same_versions,
}

-- Where http1 accepts a head, the other parser accepts it too.
abbrev pub Agrees : Parsed → HeadParsed → Type 0
Agrees (r, err e) p = Unit
Agrees (r, ok n) (r', p) = SameHead r r' × (p ≡ ok n)

same_fields-append :
    (hs : List Header) (name val : Bytes)
    → same_fields (hs ++ (record { name = name; value = val } ∷ []))
      ≡ same_fields hs ++ (record { name = name; value = val } ∷ [])
same_fields-append [] name val = refl
same_fields-append (h ∷ hs) name val =
    ap (λ (xs : List HeadField). record { name = h.name; value = h.value } ∷ xs)
      (same_fields-append hs name val)

SameHead-Adds :
    (name val : Bytes) (r r1 : Request) (r' : HeadRequest)
    → SameHead r r'
    → Adds name val r r1
    → SameHead r1 (record r' { headers = r'.headers ++ (record { name = name; value = val } ∷ []) })
SameHead-Adds name val r r1 r' same adds = record {
  same_method = same.same_method ∙ sym adds.kept_method;
  same_target = same.same_target ∙ sym adds.kept_target;
  same_proto = same.same_proto ∙ sym adds.kept_proto;
  same_headers =
      ap (λ (xs : List HeadField). xs ++ (record { name = name; value = val } ∷ []))
        same.same_headers
      ∙ sym (same_fields-append r.headers name val)
      ∙ ap same_fields (sym adds.added);
}

abbrev AgreeOn : (Walk → Parsed) → (HeadRequest → HeadParsed) → Type 0
AgreeOn again again' =
    (w : Walk) (req : HeadRequest) → SameHead w.req req → Agrees (again w) (again' req)

module _ (k : Simd) (lim : HeadLimits) (profile : Profile) where
  field-Agrees :
      (again : Walk → Parsed) (again' : HeadRequest → HeadParsed) (w : Walk) (req : HeadRequest)
      (o : Option HeadField) (r : Result Walk)
      → SameHead w.req req
      → AgreeOn again again'
      → KeepsIf k w o r
      → Agrees (line_field again w r) (with_field again' req o)
  field-Agrees again again' w req o (err e) same next keeps = tt
  field-Agrees again again' w req o (ok w') same next (name, val, (is, adds)) = rw is (
      next w' (record req { headers = req.headers ++ (record { name = name; value = val } ∷ []) })
        (SameHead-Adds name val w.req w'.req req same adds))

  no_host-Agrees :
      (pr : Profile) (r : Request) (p : HeadParsed)
      → Agrees (r, elim pr [ strict ↦ err malformed | compatible ↦ err missing_host ]) p
  no_host-Agrees strict r p = tt
  no_host-Agrees compatible r p = tt

  end-Agrees :
      (w : Walk) (req : HeadRequest) (consumed : ℕ)
      → SameHead w.req req
      → Agrees (w.req, head_end profile w consumed) (req, ok consumed)
  unfolding head_end
  end-Agrees w req consumed same =
      elim (Bool-cases (equal (drop 7 w.req.proto) (codes "1") && not w.host_non_empty)) [
        | inl missing ↦ rw missing (no_host-Agrees profile w.req (req, ok consumed))
        | inr fine ↦ rw fine (same, refl)
      ]

  round-Agrees :
      (again : Walk → Parsed) (again' : HeadRequest → HeadParsed) (consumed : ℕ) (w : Walk)
      (req : HeadRequest) (l : Option Bytes)
      → SameHead w.req req
      → AgreeOn again again'
      → Agrees (line_round k lim profile again consumed w l) (head_round k again' consumed req l)
  round-Agrees again again' consumed w req none same next = tt
  round-Agrees again again' consumed w req (some []) same next = end-Agrees w req consumed same
  round-Agrees again again' consumed w req (some (c ∷ cs)) same next =
      field-Agrees again again' w req (head_field k (c ∷ cs)) (field_line k lim (c ∷ cs) w) same
        next
        (unfold field_line head_field in
          field_line-KeepsIf k lim (c ∷ cs) w (index_byte (c ∷ cs) b':'))

  lines-Agrees :
      (fuel pos : ℕ) (block : Bytes) (w : Walk) (req : HeadRequest)
      → SameHead w.req req
      → Agrees (walk_lines k lim profile fuel pos block w) (head_lines k fuel pos block req)
  unfolding walk_lines head_lines
  lines-Agrees zero pos block w req same = tt
  lines-Agrees (suc fuel) pos block w req same = elim (Option-cases (first_line block)) [
    | inl no_line ↦ rw no_line tt
    | inr (l, e) ↦
        let pos' = pos + length l + 1 in
        let block' = drop (suc (length l)) block in
        rw e (
          round-Agrees (walk_lines k lim profile fuel pos' block') (head_lines k fuel pos' block')
            pos' w req (strip_cr l) same
            λ w' req' same'. lines-Agrees fuel pos' block' w' req' same')
  ]

  block-Agrees :
      (r : Request) (r' : HeadRequest) (first : ℕ) (block : Bytes)
      → r'.method ≡ r.method
      → r'.target ≡ r.target
      → r'.proto ≡ r.proto
      → Agrees (parse_block k profile lim r first block) (head_block k r' first block)
  block-Agrees r r' first block m t p =
      rw
        (parse_block-walk_lines k profile lim r first block, head_block-head_lines k r' first block)
        (lines-Agrees (suc (length block)) first block (first_walk r (length block)) _
          (record { same_method = m; same_target = t; same_proto = p; same_headers = refl }))

  parts-Agrees :
      (r : Request) (r' : HeadRequest) (method target proto : Bytes) (first : ℕ) (block : Bytes)
      → Agrees
          (parse_parts k profile lim
            (record r { method = method; target = target; proto = proto })
            first
            block)
          (head_parts k (record r' { method = method; target = target; proto = proto }) first block)
  unfolding parse_parts head_parts
  parts-Agrees r r' method target proto first block = elim (Bool-cases (is_empty target)) [
    | inl none_there ↦ rw none_there tt
    | inr there ↦ elim (Bool-cases (valid_target k target)) [
      | inr bad ↦ rw (there, bad) tt
      | inl valid ↦ elim (Bool-cases (is_http_version proto)) [
        | inr other ↦ rw (there, valid, other) tt
        | inl version ↦ elim (Bool-cases (token_only method)) [
          | inr no_token ↦ rw (there, valid, version, no_token) tt
          | inl token ↦
              rw
                (
                  there,
                  valid,
                  version,
                  token,
                  same_versions proto ∙ version,
                  same_tokens method ∙ token,
                )
                (block-Agrees (record r { method = method; target = target; proto = proto })
                  (record r' { method = method; target = target; proto = proto }) first block refl
                  refl refl)
        ]
      ]
    ]
  ]

  target-Agrees :
      (r : Request) (r' : HeadRequest) (method behind : Bytes) (o : Option ℕ) (first : ℕ)
      (block : Bytes)
      → Agrees
          (split_target k profile lim r method behind o first block)
          (cut_target k r' method behind o first block)
  target-Agrees r r' method behind none first block = tt
  target-Agrees r r' method behind (some j) first block =
      parts-Agrees r r' method (take j behind) (drop (suc j) behind) first block

  method-Agrees :
      (r : Request) (r' : HeadRequest) (line : Bytes) (o : Option ℕ) (first : ℕ) (block : Bytes)
      → Agrees
          (split_method k profile lim r line o first block)
          (cut_method k r' line o first block)
  method-Agrees r r' line none first block = tt
  method-Agrees r r' line (some zero) first block = tt
  method-Agrees r r' line (some (suc i)) first block =
      let behind = drop (suc (suc i)) line in
      target-Agrees r r' (take (suc i) line) behind (k.index_byte_of behind b' ') first block

  request_line-Agrees :
      (r : Request) (r' : HeadRequest) (l : Option Bytes) (first : ℕ) (block : Bytes)
      → Agrees (request_line k profile lim r l first block) (head_line k r' l first block)
  request_line-Agrees r r' none first block = tt
  request_line-Agrees r r' (some line) first block =
      method-Agrees r r' line (k.index_byte_of line b' ') first block

  at-Agrees :
      (r : Request) (r' : HeadRequest) (b : Bytes) (o : Option ℕ)
      → Agrees (parse_at k profile lim r b o) (head_at k r' b o)
  at-Agrees r r' b none = tt
  at-Agrees r r' b (some nl) = elim (Bool-cases (ltb lim.request_line (length (take nl b)))) [
    | inl long ↦ rw long tt
    | inr fits ↦
        rw fits (request_line-Agrees r r' (strip_cr (take nl b)) (nl + 1) (drop (suc nl) b))
  ]

-- Every head that the parser of http1 accepts, in either profile, is accepted by the parser of the
-- root package, which consumes as many bytes and finds the same method, target, version and fields
-- in the same order; whatever the two requests held before.
pub parse-Agrees :
    (k : Simd) (profile : Profile) (r : Request) (r' : HeadRequest) (b : Bytes)
    → Agrees (parse k r b profile) (parse_head k r' b)
unfolding parse parse_head
parse-Agrees k profile r r' b =
    elim (Bool-cases (ltb (profile_limits profile).head_size (length b))) [
      | inl long ↦ rw long tt
      | inr fits ↦
          rw fits (at-Agrees k (profile_limits profile) profile r r' b (k.index_byte_of b b'\n'))
    ]
