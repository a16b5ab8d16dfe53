-- ===== src/Http1/Parser/Fields.antt =====
-- The framing headers of an accepted head: what `Parse` leaves for `FramingOf`.
use simdhttp.Common.{
  ℕ, zero, suc, ◌+◌, ◌≡◌, Bool, true, false, not, ◌&&◌, Option, none, some, List, [], ◌∷◌, ◌++◌,
  ltb, leb, Bytes, codes, length, take, drop, is_empty, index_byte, Bool-cases, inl, inr,
}
use simdhttp.Http1.Chars.{token_only, trim, equal_fold, valid_transfer_encoding}
use simdhttp.Http1.Errors.{Result, ok, err}
use simdhttp.Http1.Framing.{Profile}
use simdhttp.Http1.Parser.{
  HeadLimits, Request, Walk, valid_target, is_http_version, valid_host, clean_value, Parsed,
  keep_field, limit_field, host_field, value_field, named_field, field_at, field_line, head_end,
  line_round, line_field, walk_ends, parse_block, parse_parts, split_target, split_method,
  request_line, parse_at, parse, strip_cr, profile_limits,
}
use simdhttp.Http1.Simd.{Simd}

-- Before the header, and after it.
data Codings : List Bytes → Bool → Type 0 where
  no_coding : Codings [] false
  one_coding : {v : Bytes} → valid_transfer_encoding v ≡ true → Codings (v ∷ []) true

data Lengths : List Bytes → Bool → Type 0 where
  no_length : Lengths [] false
  one_length : {v : Bytes} → Lengths (v ∷ []) true

record IsOnce (w : Walk) : Type 0 where
  codings : Codings w.req.transfer_encoding_lines w.te_seen
  lengths : Lengths w.req.content_length_lines w.cl_seen

-- At most one Transfer-Encoding, which is valid, and at most one Content-Length.
pub data Single : List Bytes → Type 0 where
  absent : Single []
  one : {v : Bytes} → Single (v ∷ [])

pub data SingleCoding : List Bytes → Type 0 where
  not_coded : SingleCoding []
  coded : {v : Bytes} → valid_transfer_encoding v ≡ true → SingleCoding (v ∷ [])

pub record IsFramable (req : Request) : Type 0 where
  pub codings : SingleCoding req.transfer_encoding_lines
  pub lengths : Single req.content_length_lines

Codings-Single : {te : List Bytes} {seen : Bool} → Codings te seen → SingleCoding te
Codings-Single no_coding = not_coded
Codings-Single (one_coding h) = coded h

Lengths-Single : {cl : List Bytes} {seen : Bool} → Lengths cl seen → Single cl
Lengths-Single no_length = absent
Lengths-Single one_length = one

add_one_coding :
    {te : List Bytes} {seen : Bool} (v : Bytes)
    → Codings te seen
    → seen ≡ false
    → valid_transfer_encoding v ≡ true
    → Codings (te ++ (v ∷ [])) true
add_one_coding v no_coding e h = one_coding h
add_one_coding v (one_coding k) e h = cc

add_one_length :
    {cl : List Bytes} {seen : Bool} (v : Bytes)
    → Lengths cl seen
    → seen ≡ false
    → Lengths (cl ++ (v ∷ [])) true
add_one_length v no_length e = one_length
add_one_length v one_length e = cc

abbrev Kept : Result Walk → Type 0
Kept (ok w) = IsOnce w
Kept (err e) = Unit

keep_field-Kept : (name val : Bytes) (w : Walk) → IsOnce w → Kept (keep_field name val w)
unfolding keep_field
keep_field-Kept name val w h = elim (Bool-cases (equal_fold name (codes "Content-Length"))) [
  | inl is_length ↦ elim (Bool-cases w.cl_seen) [
    | inl e ↦ rw (is_length, e) tt
    | inr e ↦
        rw (is_length, e) (record { codings = h.codings; lengths = add_one_length val h.lengths e })
  ]
  | inr other ↦ elim (Bool-cases (equal_fold name (codes "Transfer-Encoding"))) [
    | inl is_coding ↦ elim (Bool-cases w.te_seen) [
      | inl e ↦ rw (other, is_coding, e) tt
      | inr e ↦ elim (Bool-cases (valid_transfer_encoding val)) [
        | inl good ↦
            rw (other, is_coding, e, good)
              (record { codings = add_one_coding val h.codings e good; lengths = h.lengths })
        | inr bad ↦ rw (other, is_coding, e, bad) tt
      ]
    ]
    | inr plain ↦ rw (other, plain) (record { codings = h.codings; lengths = h.lengths })
  ]
]

limit_field-Kept :
    (lim : HeadLimits) (name val : Bytes) (w : Walk) → IsOnce w → Kept (limit_field lim name val w)
unfolding limit_field
limit_field-Kept lim name val w h = elim (Bool-cases (ltb lim.value_len (length val))) [
  | inl long ↦ rw long tt
  | inr short ↦ elim (Bool-cases (leb lim.header_count (length w.req.headers))) [
    | inl full ↦ rw (short, full) tt
    | inr room ↦ rw (short, room) (keep_field-Kept name val w h)
  ]
]

host_field-Kept :
    (lim : HeadLimits) (is_host : Bool) (name val : Bytes) (w : Walk)
    → IsOnce w
    → Kept (host_field lim is_host name val w)
unfolding host_field
host_field-Kept lim is_host name val w h = elim (Bool-cases (is_host && not (is_empty val))) [
  | inl host ↦ elim (Bool-cases (valid_host val)) [
    | inl good ↦
        rw (host, good)
          (limit_field-Kept lim name val _ (record { codings = h.codings; lengths = h.lengths }))
    | inr bad ↦ rw (host, bad) tt
  ]
  | inr other ↦ rw other (limit_field-Kept lim name val w h)
]

value_field-Kept :
    (k : Simd) (lim : HeadLimits) (is_host : Bool) (name val : Bytes) (w : Walk)
    → IsOnce w
    → Kept (value_field k lim is_host name val w)
unfolding value_field
value_field-Kept k lim is_host name val w h = elim (Bool-cases (clean_value k val)) [
  | inl clean ↦ rw clean (host_field-Kept lim is_host name val w h)
  | inr bad ↦ rw bad tt
]

named_field-Kept :
    (k : Simd) (lim : HeadLimits) (name text : Bytes) (w : Walk)
    → IsOnce w
    → Kept (named_field k lim name text w)
unfolding named_field
named_field-Kept k lim name text w h = elim (Bool-cases (token_only name)) [
  | inr bad ↦ rw bad tt
  | inl token ↦ elim (Bool-cases (equal_fold name (codes "Host"))) [
    | inr other ↦ rw (token, other) (value_field-Kept k lim false name (trim text) w h)
    | inl host ↦ elim (Bool-cases (ltb 1 (w.host_count + 1))) [
      | inl again ↦ rw (token, host, again) tt
      | inr first ↦
          rw (token, host, first)
            (value_field-Kept k lim true name (trim text) _
              (record { codings = h.codings; lengths = h.lengths }))
    ]
  ]
]

field_at-Kept :
    (k : Simd) (lim : HeadLimits) (line : Bytes) (w : Walk) (o : Option ℕ)
    → IsOnce w
    → Kept (field_at k lim line w o)
field_at-Kept k lim line w none h = tt
field_at-Kept k lim line w (some zero) h = tt
field_at-Kept k lim line w (some (suc i)) h =
    named_field-Kept k lim (take (suc i) line) (drop (suc (suc i)) line) w h

-- An accepted head is framable; of a refused one nothing is said.
abbrev pub Leaves : Parsed → Type 0
Leaves (req, ok n) = IsFramable req
Leaves (req, err e) = Unit

Leaves-head_end : (w : Walk) (r : Result ℕ) → IsOnce w → Leaves (w.req, r)
Leaves-head_end w (ok n) h = record {
  codings = Codings-Single h.codings;
  lengths = Lengths-Single h.lengths;
}
Leaves-head_end w (err e) h = tt

Leaves-line_field :
    (again : Walk → Parsed) (w : Walk) (r : Result Walk)
    → ((w' : Walk) → IsOnce w' → Leaves (again w'))
    → Kept r
    → Leaves (line_field again w r)
Leaves-line_field again w (ok w') next h = next w' h
Leaves-line_field again w (err e) next h = tt

Leaves-line_round :
    (k : Simd) (lim : HeadLimits) (profile : Profile) (again : Walk → Parsed) (n : ℕ) (w : Walk)
    (line : Option Bytes)
    → ((w' : Walk) → IsOnce w' → Leaves (again w'))
    → IsOnce w
    → Leaves (line_round k lim profile again n w line)
Leaves-line_round k lim profile again n w none next h = tt
Leaves-line_round k lim profile again n w (some []) next h =
    Leaves-head_end w (head_end profile w n) h
Leaves-line_round k lim profile again n w (some (c ∷ cs)) next h =
    Leaves-line_field again w (field_line k lim (c ∷ cs) w) next
      (unfold field_line in field_at-Kept k lim (c ∷ cs) w (index_byte (c ∷ cs) b':') h)

walk_ends-Leaves :
    (k : Simd) (lim : HeadLimits) (profile : Profile) (first : ℕ) (block : Bytes) (ends : List ℕ)
    (start : ℕ) (w : Walk)
    → IsOnce w
    → Leaves (walk_ends k lim profile first block ends start w)
unfolding walk_ends
walk_ends-Leaves k lim profile first block [] start w h = tt
walk_ends-Leaves k lim profile first block (end ∷ ends) start w h =
    Leaves-line_round k lim profile _ _ w _
      (λ w' h'. walk_ends-Leaves k lim profile first block ends (end + 1) w' h') h

parse_block-Leaves :
    (k : Simd) (profile : Profile) (lim : HeadLimits) (req : Request) (first : ℕ) (block : Bytes)
    → Leaves (parse_block k profile lim req first block)
unfolding parse_block
parse_block-Leaves k profile lim req first block =
    walk_ends-Leaves k lim profile first block _ 0 _
      (record { codings = no_coding; lengths = no_length })

parse_parts-Leaves :
    (k : Simd) (profile : Profile) (lim : HeadLimits) (req : Request) (first : ℕ) (block : Bytes)
    → Leaves (parse_parts k profile lim req first block)
unfolding parse_parts
parse_parts-Leaves k profile lim req first block = elim (Bool-cases (is_empty req.target)) [
  | inl e ↦ rw e tt
  | inr a ↦ elim (Bool-cases (valid_target k req.target)) [
    | inr e ↦ rw (a, e) tt
    | inl b ↦ elim (Bool-cases (is_http_version req.proto)) [
      | inr e ↦ rw (a, b, e) tt
      | inl c ↦ elim (Bool-cases (token_only req.method)) [
        | inr e ↦ rw (a, b, c, e) tt
        | inl d ↦ rw (a, b, c, d) (parse_block-Leaves k profile lim req first block)
      ]
    ]
  ]
]

split_target-Leaves :
    (k : Simd) (profile : Profile) (lim : HeadLimits) (req : Request) (method behind : Bytes)
    (o : Option ℕ) (first : ℕ) (block : Bytes)
    → Leaves (split_target k profile lim req method behind o first block)
split_target-Leaves k profile lim req method behind none first block = tt
split_target-Leaves k profile lim req method behind (some j) first block =
    parse_parts-Leaves k profile lim _ first block

request_line-Leaves :
    (k : Simd) (profile : Profile) (lim : HeadLimits) (req : Request) (line : Bytes) (o : Option ℕ)
    (first : ℕ) (block : Bytes)
    → Leaves (split_method k profile lim req line o first block)
request_line-Leaves k profile lim req line none first block = tt
request_line-Leaves k profile lim req line (some zero) first block = tt
request_line-Leaves k profile lim req line (some (suc i)) first block =
    split_target-Leaves k profile lim req _ _ _ first block

stripped-Leaves :
    (k : Simd) (profile : Profile) (lim : HeadLimits) (req : Request) (o : Option Bytes) (first : ℕ)
    (block : Bytes)
    → Leaves (request_line k profile lim req o first block)
stripped-Leaves k profile lim req none first block = tt
stripped-Leaves k profile lim req (some line) first block =
    request_line-Leaves k profile lim req line _ first block

parse_at-Leaves :
    (k : Simd) (profile : Profile) (lim : HeadLimits) (req : Request) (b : Bytes) (o : Option ℕ)
    → Leaves (parse_at k profile lim req b o)
parse_at-Leaves k profile lim req b none = tt
parse_at-Leaves k profile lim req b (some nl) =
    elim (Bool-cases (ltb lim.request_line (length (take nl b)))) [
      | inl long ↦ rw long tt
      | inr short ↦
          rw short
            (stripped-Leaves k profile lim req (strip_cr (take nl b)) (nl + 1) (drop (suc nl) b))
    ]

parse-Leaves :
    (k : Simd) (req : Request) (b : Bytes) (profile : Profile) → Leaves (parse k req b profile)
unfolding parse
parse-Leaves k req b profile =
    elim (Bool-cases (ltb (profile_limits profile).head_size (length b))) [
      | inl large ↦ rw large tt
      | inr small ↦ rw small (parse_at-Leaves k profile (profile_limits profile) req b _)
    ]

Leaves-IsFramable : (r : Parsed) (n : ℕ) → r.1 ≡ ok n → Leaves r → IsFramable r.0
Leaves-IsFramable (req, ok m) n e h = h
Leaves-IsFramable (req, err x) n e h = cc

-- A head that `Parse` accepts has at most one Content-Length line, and at most one
-- Transfer-Encoding line, which `ValidTransferEncoding` accepts: whatever request it was parsed
-- into before.
pub parse-IsFramable :
    (k : Simd) (req : Request) (b : Bytes) (profile : Profile) (n : ℕ)
    → (parse k req b profile).1 ≡ ok n
    → IsFramable (parse k req b profile).0
parse-IsFramable k req b profile n e =
    Leaves-IsFramable (parse k req b profile) n e (parse-Leaves k req b profile)
