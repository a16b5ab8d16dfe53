-- ===== src/Http1/Parser.antt =====
-- `Parse` of http1/parser.go.
pub mod Values
pub mod Fields
pub mod Agreement
pub mod Walks
use simdhttp.Common.{
  ℕ, zero, suc, ◌+◌, ◌-◌, ◌*◌, ◌/◌, ◌^◌, Bool, true, false, not, ◌&&◌, ◌||◌, Option, none, some,
  List, [], ◌∷◌, ◌++◌, ltb, leb, ◌==◌, if◌then◌else◌, Bytes, codes, length, take, drop, get_elem?,
  is_empty, equal, index_byte,
}
use simdhttp.Http1.Chars.{
  is_hex, token_only, is_field_ctl, valid_field_value, trim, equal_fold, valid_transfer_encoding,
}
use simdhttp.Http1.Errors.{
  Error, Result, ok, err, incomplete, malformed, missing_host, head_too_large, too_many_headers,
  value_too_large, request_line_too_large,
}
use simdhttp.Http1.Framing.{Profile, compatible, strict}
use simdhttp.Http1.Simd.{Simd}

pub record HeadLimits : Type 0 where
  pub head_size : ℕ
  pub request_line : ℕ
  pub header_count : ℕ
  pub value_len : ℕ

unfoldable pub profile_limits : Profile → HeadLimits
profile_limits compatible = record {
  head_size = 2 * 2 ^ 20;
  request_line = 8 * 2 ^ 10;
  header_count = 100;
  value_len = 1 * 2 ^ 20;
}
profile_limits strict = record {
  head_size = 256 * 2 ^ 10;
  request_line = 4 * 2 ^ 10;
  header_count = 50;
  value_len = 64 * 2 ^ 10;
}

pub record Header : Type 0 where
  pub name : Bytes
  pub value : Bytes

-- `ends_cap` is the capacity of the scratch `lineEnds`; what it holds is written before it is read.
pub record Request : Type 0 where
  pub method : Bytes
  pub target : Bytes
  pub proto : Bytes
  pub headers : List Header
  pub content_length_lines : List Bytes
  pub transfer_encoding_lines : List Bytes
  pub ends_cap : ℕ

abbrev pub ctl_scan_threshold : ℕ
ctl_scan_threshold = 64

-- `t[i+1]` and `t[i+2]` are hex digits.
abbrev pub two_hex : Bytes → Bool
two_hex (a ∷ b ∷ _) = is_hex a && is_hex b
two_hex _ = false

abbrev pub valid_escapes : Bytes → Bool
valid_escapes [] = true
valid_escapes (c ∷ cs) = (not (c == b'%') || two_hex cs) && valid_escapes cs

abbrev pub is_none : Option ℕ → Bool
is_none none = true
is_none (some i) = false

unfoldable pub valid_target : Simd → Bytes → Bool
valid_target k t = is_none (k.index_any_or_less t (0x7f ∷ []) 0x20) && valid_escapes t

abbrev pub pop : ℕ → (ℕ → Bool) → Bool
pop zero f = false
pop (suc d) f = f d

-- The loop of `validHost`; a closing bracket at depth 0 is refused.
abbrev pub host_loop : ℕ → Bytes → Bool
host_loop depth [] = depth == 0
host_loop depth (c ∷ cs) =
    let opened = host_loop (suc depth) cs in
    let closed = pop depth (λ d. host_loop d cs) in
    let other = host_loop depth cs in
    if leb c 0x20 || c == 0x7f || c == b','
    then false
    else if c == b'['
    then opened
    else if c == b']'
    then closed
    else other

unfoldable pub valid_host : Bytes → Bool
valid_host h = host_loop 0 h

unfoldable pub is_http_version : Bytes → Bool
is_http_version p =
    length p == 8
    && equal (take 7 p) (codes "HTTP/1.")
    && (equal (drop 7 p) (codes "0") || equal (drop 7 p) (codes "1"))

-- The loop over a long value, on what is behind `pos`: each hit that is a tab is passed over.
abbrev pub scan_next : (Bytes → Bool) → Bytes → Option ℕ → Bool
scan_next again rest none = true
scan_next again rest (some i) = elim (get_elem? rest i) [
  | none ↦ false
  | some c ↦ if not (c == b'\t') then false else again (drop (suc i) rest)
]

unfoldable pub scan_tabs : Simd → ℕ → Bytes → Bool
scan_tabs k zero rest = false
scan_tabs k (suc fuel) rest =
    scan_next (scan_tabs k fuel) rest (k.index_any_or_less rest (0x7f ∷ []) 0x20)

-- No control byte but tabs. The inline loop for short values is that of `validFieldValue`.
unfoldable pub clean_value : Simd → Bytes → Bool
clean_value k val =
    if leb ctl_scan_threshold (length val)
    then scan_tabs k (suc (length val)) val
    else valid_field_value val

-- The locals of the walk over the header lines, with the request that it fills.
pub record Walk : Type 0 where
  pub req : Request
  pub host_count : ℕ
  pub host_non_empty : Bool
  pub cl_seen : Bool
  pub te_seen : Bool

abbrev pub add_header : Bytes → Bytes → Walk → Walk
add_header name val w = record w {
  req = record w.req { headers = w.req.headers ++ (record { name = name; value = val } ∷ []) };
}

abbrev pub add_length : Bytes → Walk → Walk
add_length val w = record w {
  cl_seen = true;
  req = record w.req { content_length_lines = w.req.content_length_lines ++ (val ∷ []) };
}

abbrev pub add_coding : Bytes → Walk → Walk
add_coding val w = record w {
  te_seen = true;
  req = record w.req { transfer_encoding_lines = w.req.transfer_encoding_lines ++ (val ∷ []) };
}

-- The end of the loop's body: the framing headers, and the new header.
unfoldable pub keep_field : Bytes → Bytes → Walk → Result Walk
keep_field name val w =
    if equal_fold name (codes "Content-Length")
    then (if w.cl_seen then err malformed else ok (add_header name val (add_length val w)))
    else if equal_fold name (codes "Transfer-Encoding")
    then (if w.te_seen
        then err malformed
        else if not (valid_transfer_encoding val)
        then err malformed
        else ok (add_header name val (add_coding val w)))
    else ok (add_header name val w)

-- The limits on one header.
unfoldable pub limit_field : HeadLimits → Bytes → Bytes → Walk → Result Walk
limit_field lim name val w =
    if ltb lim.value_len (length val)
    then err value_too_large
    else if leb lim.header_count (length w.req.headers)
    then err too_many_headers
    else keep_field name val w

-- `isHost`, on the trimmed value.
unfoldable pub host_field : HeadLimits → Bool → Bytes → Bytes → Walk → Result Walk
host_field lim is_host name val w =
    if is_host && not (is_empty val)
    then (if not (valid_host val)
        then err malformed
        else limit_field lim name val (record w { host_non_empty = true }))
    else limit_field lim name val w

unfoldable pub value_field : Simd → HeadLimits → Bool → Bytes → Bytes → Walk → Result Walk
value_field k lim is_host name val w =
    if not (clean_value k val) then err malformed else host_field lim is_host name val w

-- A name and the text behind its colon.
unfoldable pub named_field : Simd → HeadLimits → Bytes → Bytes → Walk → Result Walk
named_field k lim name text w =
    let is_host = equal_fold name (codes "Host") in
    if not (token_only name)
    then err malformed
    else if is_host
    then (if ltb 1 (w.host_count + 1)
        then err malformed
        else value_field k lim true name (trim text) (record w { host_count = w.host_count + 1 }))
    else value_field k lim false name (trim text) w

abbrev pub field_at : Simd → HeadLimits → Bytes → Walk → Option ℕ → Result Walk
field_at k lim line w none = err malformed
field_at k lim line w (some zero) = err malformed
field_at k lim line w (some (suc i)) =
    named_field k lim (take (suc i) line) (drop (suc (suc i)) line) w

-- One header line without its CRLF.
unfoldable pub field_line : Simd → HeadLimits → Bytes → Walk → Result Walk
field_line k lim line w = field_at k lim line w (index_byte line b':')

-- The blank line: `req.Proto[7] == '1' && !hostNonEmpty`.
unfoldable pub head_end : Profile → Walk → ℕ → Result ℕ
head_end profile w consumed =
    if equal (drop 7 w.req.proto) (codes "1") && not w.host_non_empty
    then (elim profile [ strict ↦ err malformed | compatible ↦ err missing_host ])
    else ok consumed

-- A line that ends in a carriage return, without it.
unfoldable pub strip_cr : Bytes → Option Bytes
strip_cr [] = none
strip_cr (c ∷ []) = if c == b'\r' then some [] else none
strip_cr (c ∷ d ∷ cs) = elim (strip_cr (d ∷ cs)) [ none ↦ none | some l ↦ some (c ∷ l) ]

abbrev pub Parsed : Type 0
Parsed = Request × Result ℕ

abbrev pub line_field : (Walk → Parsed) → Walk → Result Walk → Parsed
line_field again w (err e) = (w.req, err e)
line_field again w (ok w') = again w'

-- One round of the walk, on a line that was cut at its line feed; `consumed` is `consumedTo`.
abbrev pub line_round :
    Simd → HeadLimits → Profile → (Walk → Parsed) → ℕ → Walk → Option Bytes → Parsed
line_round k lim profile again consumed w none = (w.req, err malformed)
line_round k lim profile again consumed w (some []) = (w.req, head_end profile w consumed)
line_round k lim profile again consumed w (some (c ∷ cs)) =
    line_field again w (field_line k lim (c ∷ cs) w)

-- The loop over the line ends: `first` is `nl + 1`, and `block` is what follows the request line.
unfoldable pub walk_ends : Simd → HeadLimits → Profile → ℕ → Bytes → List ℕ → ℕ → Walk → Parsed
walk_ends k lim profile first block [] start w = (w.req, err incomplete)
walk_ends k lim profile first block (end ∷ ends) start w =
    line_round k lim profile (walk_ends k lim profile first block ends (end + 1)) (first + end + 1)
      w (strip_cr (take (end - start) (drop start block)))

abbrev pub grow : ℕ → ℕ → ℕ
grow cap need = if ltb cap need then need else cap

-- The header block, with the slices and the scratch reset.
unfoldable pub parse_block : Simd → Profile → HeadLimits → Request → ℕ → Bytes → Parsed
parse_block k profile lim req first block =
    let cap = grow req.ends_cap (length block / 2 + 1) in
    let fresh = record req {
      headers = [];
      content_length_lines = [];
      transfer_encoding_lines = [];
      ends_cap = cap;
    } in
    walk_ends k lim profile first block (k.index_all cap block b'\n') 0 (record {
      req = fresh;
      host_count = 0;
      host_non_empty = false;
      cl_seen = false;
      te_seen = false;
    })

-- The three parts of the request line are stored before they are checked.
unfoldable pub parse_parts : Simd → Profile → HeadLimits → Request → ℕ → Bytes → Parsed
parse_parts k profile lim req first block =
    if is_empty req.target
    then (req, err malformed)
    else if not (valid_target k req.target)
    then (req, err malformed)
    else if not (is_http_version req.proto)
    then (req, err malformed)
    else if not (token_only req.method)
    then (req, err malformed)
    else parse_block k profile lim req first block

abbrev pub split_target :
    Simd → Profile → HeadLimits → Request → Bytes → Bytes → Option ℕ → ℕ → Bytes → Parsed
split_target k profile lim req method behind none first block = (req, err malformed)
split_target k profile lim req method behind (some j) first block =
    parse_parts k profile lim
      (record req { method = method; target = take j behind; proto = drop (suc j) behind }) first
      block

abbrev pub split_method :
    Simd → Profile → HeadLimits → Request → Bytes → Option ℕ → ℕ → Bytes → Parsed
split_method k profile lim req line none first block = (req, err malformed)
split_method k profile lim req line (some zero) first block = (req, err malformed)
split_method k profile lim req line (some (suc i)) first block =
    let behind = drop (suc (suc i)) line in
    split_target k profile lim req (take (suc i) line) behind (k.index_byte_of behind b' ') first
      block

abbrev pub request_line : Simd → Profile → HeadLimits → Request → Option Bytes → ℕ → Bytes → Parsed
request_line k profile lim req none first block = (req, err malformed)
request_line k profile lim req (some line) first block =
    split_method k profile lim req line (k.index_byte_of line b' ') first block

abbrev pub parse_at : Simd → Profile → HeadLimits → Request → Bytes → Option ℕ → Parsed
parse_at k profile lim req b none = (req, err incomplete)
parse_at k profile lim req b (some nl) =
    if ltb lim.request_line (length (take nl b))
    then (req, err request_line_too_large)
    else request_line k profile lim req (strip_cr (take nl b)) (nl + 1) (drop (suc nl) b)

unfoldable pub parse : Simd → Request → Bytes → Profile → Parsed
parse k req b profile =
    let lim = profile_limits profile in
    if ltb lim.head_size (length b)
    then (req, err head_too_large)
    else parse_at k profile lim req b (k.index_byte_of b b'\n')
