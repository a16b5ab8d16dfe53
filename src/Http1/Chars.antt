-- ===== src/Http1/Chars.antt =====
-- Byte classes, trimming and case folding that the head parser, the framing table and the body
-- reader share (http1/parser.go, http1/body.go).
pub mod Tokens
pub mod Folds
pub mod Trims
use simdhttp.Common.{
  ℕ, ◌+◌, Bool, true, false, not, ◌&&◌, ◌||◌, Option, none, some, List, [], ◌∷◌, ltb, leb, within,
  ◌==◌, if◌then◌else◌, Bytes, codes, all, is_empty,
}

unfoldable pub is_hex : ℕ → Bool
is_hex c = within b'0' b'9' c || within b'a' b'f' c || within b'A' b'F' c

-- `tokenSet` of the head parser.
abbrev pub token_set : Bytes
token_set = codes "!#$%&'*+-.^_`|~0123456789ABCDEFGHIJKLMNOPQRSTUVWXYZabcdefghijklmnopqrstuvwxyz"

abbrev pub member : ℕ → Bytes → Bool
member c [] = false
member c (x ∷ xs) = c == x || member c xs

-- The table `tokenBytes` at one byte.
unfoldable pub token_bytes : ℕ → Bool
token_bytes c = member c token_set

unfoldable pub token_only : Bytes → Bool
token_only [] = false
token_only (c ∷ cs) = all token_bytes (c ∷ cs)

-- The table `tokenChar` of the body reader, and `validToken`.
unfoldable pub token_char : ℕ → Bool
token_char c =
    member c (codes "!#$%&'*+-.^_`|~")
    || within b'0' b'9' c
    || within b'a' b'z' c
    || within b'A' b'Z' c

abbrev pub valid_token_byte : ℕ → Bool
valid_token_byte c = not (leb 0x80 c || not (token_char c))

unfoldable pub valid_token : Bytes → Bool
valid_token [] = false
valid_token (c ∷ cs) = all valid_token_byte (c ∷ cs)

-- `c < 0x20 && c != '\t' || c == 0x7f`
abbrev pub is_field_ctl : ℕ → Bool
is_field_ctl c = ltb c 0x20 && not (c == b'\t') || c == 0x7f

unfoldable pub valid_field_value : Bytes → Bool
valid_field_value [] = true
valid_field_value (c ∷ cs) = if is_field_ctl c then false else valid_field_value cs

abbrev pub is_blank : ℕ → Bool
is_blank c = c == b' ' || c == b'\t'

-- `for len(v) > 0 && (v[0] == ' ' || v[0] == '\t') { v = v[1:] }`
unfoldable pub trim_left : Bytes → Bytes
trim_left [] = []
trim_left (c ∷ cs) = let rest = trim_left cs in if is_blank c then rest else c ∷ cs

-- The same loop at the other end: the last byte goes while it is blank.
unfoldable pub trim_right : Bytes → Bytes
trim_right [] = []
trim_right (c ∷ cs) = elim (trim_right cs) [
  | [] ↦ (if is_blank c then [] else c ∷ [])
  | x ∷ xs ↦ c ∷ x ∷ xs
]

unfoldable pub trim : Bytes → Bytes
trim v = trim_right (trim_left v)

-- The ASCII half of the comparison in `bytes.EqualFold`.
abbrev pub folds_ascii : ℕ → ℕ → Bool
folds_ascii s t = s == t || within b'A' b'Z' s && t == s + 32 || within b'A' b'Z' t && s == t + 32

-- `bytes.EqualFold(s, t)` for an ASCII `t`, the only second argument in the source. Beyond ASCII
-- two runes fold to an ASCII letter: U+212A (KELVIN SIGN, bytes e2 84 aa) to `k`, and U+017F
-- (LATIN SMALL LETTER LONG S, bytes c5 bf) to `s`.
abbrev pub strip_prefix : Bytes → Bytes → Option Bytes
strip_prefix [] bs = some bs
strip_prefix (p ∷ ps) [] = none
strip_prefix (p ∷ ps) (b ∷ bs) = if b == p then strip_prefix ps bs else none

-- What follows one rune of the first argument, if that rune folds to `t`.
unfoldable pub fold_rune : Bytes → ℕ → Option Bytes
fold_rune [] t = none
fold_rune (s ∷ ss) t =
    if ltb s 0x80
    then (if folds_ascii s t then some ss else none)
    else if s == 0xc5 && folds_ascii b's' t
    then strip_prefix (0xbf ∷ []) ss
    else if s == 0xe2 && folds_ascii b'k' t
    then strip_prefix (0x84 ∷ 0xaa ∷ []) ss
    else none

unfoldable pub equal_fold : Bytes → Bytes → Bool
unfolding fold_rune
equal_fold s [] = is_empty s
equal_fold s (t ∷ ts) = elim (fold_rune s t) [ none ↦ false | some ss ↦ equal_fold ss ts ]

unfoldable pub valid_transfer_encoding : Bytes → Bool
valid_transfer_encoding v = equal_fold v (codes "chunked")
