-- ===== src/Http1/Chars/Tokens.antt =====
-- The two token checks, `tokenOnly` (http1/parser.go) and `validToken` (http1/body.go).
use simdhttp.Common.{ℕ, ◌<◌, ◌≡◌, ◌≢◌, refl, true, [], ◌∷◌, arith, Bytes, IsByte, All, all}
use simdhttp.Common.Tables.{range, all-range, iff_test, iff_test_sound}
use simdhttp.Http1.Chars.{
  token_bytes, token_only, token_char, valid_token_byte, valid_token, member, token_set,
}

token_table : all (λ c. iff_test (token_bytes c) (valid_token_byte c)) (range 0 256) ≡ true
unfolding range token_bytes token_char
token_table = refl

token_bytes-valid_token_byte : (c : ℕ) → IsByte c → token_bytes c ≡ valid_token_byte c
token_bytes-valid_token_byte c h =
    iff_test_sound _ _ (all-range 0 256 _ token_table c (omega arith) h)

all-token_bytes : (cs : Bytes) → All IsByte cs → all token_bytes cs ≡ all valid_token_byte cs
all-token_bytes [] h = refl
all-token_bytes (c ∷ cs) (hc, h) = cc (token_bytes-valid_token_byte c hc, all-token_bytes cs h)

-- The head parser and the body reader have two tables for one alphabet: on every byte string
-- they give the same verdict.
pub token_only-valid_token : (cs : Bytes) → All IsByte cs → token_only cs ≡ valid_token cs
unfolding token_only valid_token
token_only-valid_token [] h = refl
token_only-valid_token (c ∷ cs) h = all-token_bytes (c ∷ cs) h

-- Printable ASCII other than the space and the colon.
abbrev pub IsPlain : ℕ → Type 0
IsPlain c = (0x20 < c) × (c < 0x7f) × (c ≢ b':')

member_of_IsPlain : (c : ℕ) (xs : Bytes) → All IsPlain xs → member c xs ≡ true → IsPlain c
member_of_IsPlain c [] h e = cc
member_of_IsPlain c (x ∷ xs) (hx, h) e = ground (arith, member_of_IsPlain c xs h)

token_bytes-IsPlain : (c : ℕ) → token_bytes c ≡ true → IsPlain c
unfolding token_bytes
token_bytes-IsPlain c e = member_of_IsPlain c token_set (omega arith) e

all-IsPlain : (cs : Bytes) → all token_bytes cs ≡ true → All IsPlain cs
all-IsPlain [] e = tt
all-IsPlain (c ∷ cs) e = (token_bytes-IsPlain c (ground arith), all-IsPlain cs (ground arith))

-- A token is not empty, and holds neither white space, a control byte, a colon nor a byte beyond
-- ASCII.
pub token_only-IsPlain : (cs : Bytes) → token_only cs ≡ true → All IsPlain cs × (cs ≢ [])
unfolding token_only
token_only-IsPlain [] e = cc
token_only-IsPlain (c ∷ cs) e = (all-IsPlain (c ∷ cs) e, λ p. cc)
