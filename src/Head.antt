-- ===== src/Head.antt =====
-- The parser of the root package: `Parse` of parser.go, which http1 does not use.
pub mod Values
pub mod Lines
pub mod Kept
pub mod Agreement
use simdhttp.Common.{
  ℕ, zero, suc, ◌+◌, ◌-◌, ◌/◌, Bool, true, false, not, ◌&&◌, ◌||◌, Option, none, some, List, [],
  ◌∷◌, ◌++◌, ltb, leb, ◌==◌, if◌then◌else◌, Bytes, codes, length, take, drop, get_elem?, is_empty,
  equal, index_byte, all,
}
use simdhttp.Http1.Chars.{member, valid_field_value, trim}
use simdhttp.Http1.Errors.{Result, ok, err, incomplete, malformed}
use simdhttp.Http1.Parser.{strip_cr, grow}
use simdhttp.Http1.Simd.{Simd}

abbrev pub ctl_scan_limit : ℕ
ctl_scan_limit = 64

pub record HeadField : Type 0 where
  pub name : Bytes
  pub value : Bytes

-- `ends_cap` is the capacity of the scratch `lineEnds`; what it holds is written before it is read.
pub record HeadRequest : Type 0 where
  pub method : Bytes
  pub target : Bytes
  pub proto : Bytes
  pub headers : List HeadField
  pub ends_cap : ℕ

abbrev pub token_alphabet : Bytes
token_alphabet =
    codes "!#$%&'*+-.^_`|~0123456789"
    ++ codes "ABCDEFGHIJKLMNOPQRSTUVWXYZabcdefghijklmnopqrstuvwxyz"

unfoldable pub is_head_token : Bytes → Bool
is_head_token [] = false
is_head_token (c ∷ cs) = all (λ x. member x token_alphabet) (c ∷ cs)

-- The test of `p[7]` is behind that of the length.
unfoldable pub is_version : Bytes → Bool
is_version p =
    length p == 8
    && equal (take 7 p) (codes "HTTP/1.")
    && (equal (drop 7 p) (codes "0") || equal (drop 7 p) (codes "1"))

-- The kernel's first hit is looked at, and no other.
abbrev pub passes_hit : Bytes → Option ℕ → Bool
passes_hit val none = true
passes_hit val (some i) = elim (get_elem? val i) [ none ↦ false | some c ↦ c == b'\t' ]

-- The inline loop over a short value is that of `validFieldValue`.
unfoldable pub passes_scan : Simd → Bytes → Bool
passes_scan k val =
    if leb ctl_scan_limit (length val)
    then passes_hit val (k.index_any_or_less val (0x7f ∷ []) 0x20)
    else valid_field_value val

abbrev pub head_value : Simd → Bytes → Bytes → Option HeadField
head_value k name val =
    if passes_scan k val then some (record { name = name; value = val }) else none

abbrev pub head_named : Simd → Bytes → Bytes → Option HeadField
head_named k name text = if is_head_token name then head_value k name (trim text) else none

abbrev pub field_from : Simd → Bytes → Option ℕ → Option HeadField
field_from k line none = none
field_from k line (some zero) = none
field_from k line (some (suc i)) = head_named k (take (suc i) line) (drop (suc (suc i)) line)

-- One header line without its CRLF; `none` is `ErrMalformed`.
unfoldable pub head_field : Simd → Bytes → Option HeadField
head_field k line = field_from k line (index_byte line b':')

abbrev pub HeadParsed : Type 0
HeadParsed = HeadRequest × Result ℕ

abbrev pub with_field : (HeadRequest → HeadParsed) → HeadRequest → Option HeadField → HeadParsed
with_field again req none = (req, err malformed)
with_field again req (some h) = again (record req { headers = req.headers ++ (h ∷ []) })

-- One round of the loop, on a line cut at its line feed; `consumed` is `consumedTo`.
abbrev pub head_round :
    Simd → (HeadRequest → HeadParsed) → ℕ → HeadRequest → Option Bytes → HeadParsed
head_round k again consumed req none = (req, err malformed)
head_round k again consumed req (some []) = (req, ok consumed)
head_round k again consumed req (some (c ∷ cs)) = with_field again req (head_field k (c ∷ cs))

-- The loop over the line ends: `first` is `nl + 1`, and `block` is what follows the request line.
unfoldable pub head_ends : Simd → ℕ → Bytes → List ℕ → ℕ → HeadRequest → HeadParsed
head_ends k first block [] start req = (req, err incomplete)
head_ends k first block (end ∷ ends) start req =
    head_round k (head_ends k first block ends (end + 1)) (first + end + 1) req
      (strip_cr (take (end - start) (drop start block)))

unfoldable pub head_block : Simd → HeadRequest → ℕ → Bytes → HeadParsed
head_block k req first block =
    let cap = grow req.ends_cap (length block / 2 + 1) in
    head_ends k first block (k.index_all cap block b'\n') 0
      (record req { headers = []; ends_cap = cap })

-- The three parts of the request line are stored before they are checked.
unfoldable pub head_parts : Simd → HeadRequest → ℕ → Bytes → HeadParsed
head_parts k req first block =
    if is_empty req.target
    then (req, err malformed)
    else if not (is_version req.proto)
    then (req, err malformed)
    else if not (is_head_token req.method)
    then (req, err malformed)
    else head_block k req first block

abbrev pub cut_target : Simd → HeadRequest → Bytes → Bytes → Option ℕ → ℕ → Bytes → HeadParsed
cut_target k req method behind none first block = (req, err malformed)
cut_target k req method behind (some j) first block =
    head_parts k
      (record req { method = method; target = take j behind; proto = drop (suc j) behind }) first
      block

abbrev pub cut_method : Simd → HeadRequest → Bytes → Option ℕ → ℕ → Bytes → HeadParsed
cut_method k req line none first block = (req, err malformed)
cut_method k req line (some zero) first block = (req, err malformed)
cut_method k req line (some (suc i)) first block =
    let behind = drop (suc (suc i)) line in
    cut_target k req (take (suc i) line) behind (k.index_byte_of behind b' ') first block

abbrev pub head_line : Simd → HeadRequest → Option Bytes → ℕ → Bytes → HeadParsed
head_line k req none first block = (req, err malformed)
head_line k req (some line) first block =
    cut_method k req line (k.index_byte_of line b' ') first block

abbrev pub head_at : Simd → HeadRequest → Bytes → Option ℕ → HeadParsed
head_at k req b none = (req, err incomplete)
head_at k req b (some nl) = head_line k req (strip_cr (take nl b)) (nl + 1) (drop (suc nl) b)

unfoldable pub parse_head : Simd → HeadRequest → Bytes → HeadParsed
parse_head k req b = head_at k req b (k.index_byte_of b b'\n')
