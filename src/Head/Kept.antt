-- ===== src/Head/Kept.antt =====
-- A header line that the parser of http1 keeps, in the root package's parser.
use simdhttp.Common.{
  ℕ, zero, suc, ◌+◌, ◌≡◌, inl, inr, refl, ◌∙◌, Bool, true, false, not, ◌&&◌, Option, none, some,
  List, [], ◌∷◌, ◌++◌, ltb, leb, Bytes, codes, length, take, drop, is_empty, Bool-cases,
}
use simdhttp.Head.Values.{clean_value-passes_scan}
use simdhttp.Head.{
  HeadField, HeadRequest, is_head_token, is_version, field_from, head_named, head_value,
}
use simdhttp.Http1.Chars.{token_only, token_bytes, equal_fold, trim, valid_transfer_encoding}
use simdhttp.Http1.Errors.{Result, ok, err}
use simdhttp.Http1.Parser.{
  HeadLimits, Header, Request, Walk, clean_value, keep_field, limit_field, host_field, value_field,
  named_field, field_at, is_http_version, valid_host,
}
use simdhttp.Http1.Simd.{Simd}

abbrev pub same_fields : List Header → List HeadField
same_fields [] = []
same_fields (h ∷ hs) = record { name = h.name; value = h.value } ∷ same_fields hs

-- The same request line and the same fields.
pub record SameHead (r : Request) (r' : HeadRequest) : Type 0 where
  pub same_method : r'.method ≡ r.method
  pub same_target : r'.target ≡ r.target
  pub same_proto : r'.proto ≡ r.proto
  pub same_headers : r'.headers ≡ same_fields r.headers

-- What one header line adds to the request.
pub record Adds (name val : Bytes) (r r' : Request) : Type 0 where
  pub kept_method : r'.method ≡ r.method
  pub kept_target : r'.target ≡ r.target
  pub kept_proto : r'.proto ≡ r.proto
  pub added : r'.headers ≡ r.headers ++ (record { name = name; value = val } ∷ [])

abbrev AddsIf : Bytes → Bytes → Walk → Result Walk → Type 0
AddsIf name val w (err e) = Unit
AddsIf name val w (ok w') = Adds name val w.req w'.req

keep_field-AddsIf : (name val : Bytes) (w : Walk) → AddsIf name val w (keep_field name val w)
unfolding keep_field
keep_field-AddsIf name val w = elim (Bool-cases (equal_fold name (codes "Content-Length"))) [
  | inl cl ↦ elim (Bool-cases w.cl_seen) [
    | inl twice ↦ rw (cl, twice) tt
    | inr once ↦
        rw (cl, once)
          (record { kept_method = refl; kept_target = refl; kept_proto = refl; added = refl })
  ]
  | inr no_cl ↦ elim (Bool-cases (equal_fold name (codes "Transfer-Encoding"))) [
    | inl te ↦ elim (Bool-cases w.te_seen) [
      | inl twice ↦ rw (no_cl, te, twice) tt
      | inr once ↦ elim (Bool-cases (valid_transfer_encoding val)) [
        | inl fine ↦
            rw (no_cl, te, once, fine)
              (record { kept_method = refl; kept_target = refl; kept_proto = refl; added = refl })
        | inr bad ↦ rw (no_cl, te, once, bad) tt
      ]
    ]
    | inr no_te ↦
        rw (no_cl, no_te)
          (record { kept_method = refl; kept_target = refl; kept_proto = refl; added = refl })
  ]
]

limit_field-AddsIf :
    (lim : HeadLimits) (name val : Bytes) (w : Walk)
    → AddsIf name val w (limit_field lim name val w)
unfolding limit_field
limit_field-AddsIf lim name val w = elim (Bool-cases (ltb lim.value_len (length val))) [
  | inl long ↦ rw long tt
  | inr fits ↦ elim (Bool-cases (leb lim.header_count (length w.req.headers))) [
    | inl many ↦ rw (fits, many) tt
    | inr few ↦ rw (fits, few) (keep_field-AddsIf name val w)
  ]
]

host_field-AddsIf :
    (lim : HeadLimits) (is_host : Bool) (name val : Bytes) (w : Walk)
    → AddsIf name val w (host_field lim is_host name val w)
unfolding host_field
host_field-AddsIf lim is_host name val w = elim (Bool-cases (is_host && not (is_empty val))) [
  | inr other ↦ rw other (limit_field-AddsIf lim name val w)
  | inl host ↦ elim (Bool-cases (valid_host val)) [
    | inr bad ↦ rw (host, bad) tt
    | inl fine ↦
        rw (host, fine) (limit_field-AddsIf lim name val (record w { host_non_empty = true }))
  ]
]

-- A field that http1 keeps is one that the root package's parser keeps.
abbrev pub KeepsIf : Simd → Walk → Option HeadField → Result Walk → Type 0
KeepsIf k w o (err e) = Unit
KeepsIf k w o (ok w') =
    (name : Bytes) × (val : Bytes) × ((o ≡ some (record { name = name; value = val }))
      × Adds name val w.req w'.req)

kept_if :
    (k : Simd) (w : Walk) (o : Option HeadField) (r : Result Walk) (name val : Bytes)
    → o ≡ some (record { name = name; value = val })
    → AddsIf name val w r
    → KeepsIf k w o r
kept_if k w o (err e) name val h adds = tt
kept_if k w o (ok w') name val h adds = (name, val, (h, adds))

value_field-KeepsIf :
    (k : Simd) (lim : HeadLimits) (is_host : Bool) (name val : Bytes) (w : Walk)
    → KeepsIf k w (head_value k name val) (value_field k lim is_host name val w)
unfolding value_field
value_field-KeepsIf k lim is_host name val w = elim (Bool-cases (clean_value k val)) [
  | inr bad ↦ rw bad tt
  | inl clean ↦
      rw (clean, clean_value-passes_scan k val clean)
        (kept_if k w (some (record { name = name; value = val }))
          (host_field lim is_host name val w) name val refl
          (host_field-AddsIf lim is_host name val w))
]

pub same_tokens : (b : Bytes) → is_head_token b ≡ token_only b
unfolding is_head_token token_only token_bytes
same_tokens [] = refl
same_tokens (c ∷ cs) = refl

pub same_versions : (p : Bytes) → is_version p ≡ is_http_version p
unfolding is_version is_http_version
same_versions p = refl

named_field-KeepsIf :
    (k : Simd) (lim : HeadLimits) (name text : Bytes) (w : Walk)
    → KeepsIf k w (head_named k name text) (named_field k lim name text w)
unfolding named_field
named_field-KeepsIf k lim name text w = elim (Bool-cases (token_only name)) [
  | inr bad ↦ rw bad tt
  | inl fine ↦
      let token : is_head_token name ≡ true = same_tokens name ∙ fine in
      elim (Bool-cases (equal_fold name (codes "Host"))) [
        | inr other ↦ rw (fine, other, token) (value_field-KeepsIf k lim false name (trim text) w)
        | inl host ↦ elim (Bool-cases (ltb 1 (w.host_count + 1))) [
          | inl twice ↦ rw (fine, host, twice) tt
          | inr once ↦
              rw (fine, host, once, token)
                (value_field-KeepsIf k lim true name (trim text)
                  (record w { host_count = w.host_count + 1 }))
        ]
      ]
]

pub field_line-KeepsIf :
    (k : Simd) (lim : HeadLimits) (line : Bytes) (w : Walk) (o : Option ℕ)
    → KeepsIf k w (field_from k line o) (field_at k lim line w o)
field_line-KeepsIf k lim line w none = tt
field_line-KeepsIf k lim line w (some zero) = tt
field_line-KeepsIf k lim line w (some (suc i)) =
    named_field-KeepsIf k lim (take (suc i) line) (drop (suc (suc i)) line) w
