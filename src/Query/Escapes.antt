-- ===== src/Query/Escapes.antt =====
-- What `unescapeQuery` decodes.
use simdhttp.Common.{
  ℕ, zero, suc, ◌+◌, ◌*◌, ◌<◌, length, ◌≡◌, ◌↔◌, inl, inr, refl, sym, ap, ◌∙◌, true, false, ◌&&◌,
  Option, none, some, [], ◌∷◌, arith, ◌==◌, ==_iff, Bytes, index_byte, Bool-cases, &&-true, subst,
}
use simdhttp.Common.Digits.{hexadecimal_digit}
use simdhttp.Http1.Chars.{is_hex}
use simdhttp.Query.{push, unescape_loop, is_escaped, unescape_query}
use simdhttp.Router.Escapes.{unhex, digit-unhex, is_hex-digit}

-- The decoding of a query component: a plus is a space.
pub data Unescapes : Bytes → Bytes → Type 0 where
  nothing : Unescapes [] []
  plus : {cs out : Bytes} → Unescapes cs out → Unescapes (b'+' ∷ cs) (b' ' ∷ out)
  hex_pair :
      {d e a b : ℕ} {cs out : Bytes}
      → hexadecimal_digit d ≡ some a
      → hexadecimal_digit e ≡ some b
      → Unescapes cs out
      → Unescapes (b'%' ∷ d ∷ e ∷ cs) ((16 * a + b) ∷ out)
  as_it_is :
      {c : ℕ} {cs out : Bytes}
      → (c == b'+') ≡ false
      → (c == b'%') ≡ false
      → Unescapes cs out
      → Unescapes (c ∷ cs) (c ∷ out)

loop_nothing : unescape_loop [] ≡ some []
unfolding unescape_loop
loop_nothing = refl

loop_plus : (cs : Bytes) → unescape_loop (b'+' ∷ cs) ≡ push b' ' (unescape_loop cs)
unfolding unescape_loop
loop_plus [] = refl
loop_plus (d ∷ []) = refl
loop_plus (d ∷ e ∷ cs) = refl

loop_as_it_is :
    (c : ℕ) (cs : Bytes)
    → (c == b'+') ≡ false
    → (c == b'%') ≡ false
    → unescape_loop (c ∷ cs) ≡ push c (unescape_loop cs)
unfolding unescape_loop
loop_as_it_is c [] h h' = rw (h, h') refl
loop_as_it_is c (d ∷ []) h h' = rw (h, h') refl
loop_as_it_is c (d ∷ e ∷ cs) h h' = rw (h, h') refl

Unescapes-loop : {s out : Bytes} → Unescapes s out → unescape_loop s ≡ some out
unfolding unescape_loop
Unescapes-loop nothing = refl
Unescapes-loop (plus {cs = cs} u) = loop_plus cs ∙ ap (push b' ') (Unescapes-loop u)
Unescapes-loop (hex_pair {d = d} {e = e} {a = a} {b = b} {cs = cs} h h' u) =
    let (dh, da) = digit-unhex d a h in
    let (eh, eb) = digit-unhex e b h' in rw (dh, da, eh, eb, Unescapes-loop u) refl
Unescapes-loop (as_it_is {c = c} {cs = cs} h h' u) =
    loop_as_it_is c cs h h' ∙ ap (push c) (Unescapes-loop u)

push-some :
    (c : ℕ) (o : Option Bytes) (out : Bytes)
    → push c o ≡ some out
    → (rest : Bytes) × (o ≡ some rest) × (c ∷ rest ≡ out)
push-some c none out e = cc
push-some c (some rest) out e = (rest, refl, cc)

bad_escape :
    (cs out : Bytes)
    → unescape_loop (b'%' ∷ cs) ≡ some out
    → (d : ℕ) × (e : ℕ) × (ds : Bytes) × (cs ≡ d ∷ e ∷ ds)
      × (is_hex d ≡ true)
      × (is_hex e ≡ true)
      × (push (16 * unhex d + unhex e) (unescape_loop ds) ≡ some out)
unfolding unescape_loop
bad_escape [] out h = cc
bad_escape (d ∷ []) out h = cc
bad_escape (d ∷ e ∷ ds) out h = elim (Bool-cases (is_hex d && is_hex e)) [
  | inr bad ↦ cc (rw bad at h)
  | inl fine ↦
      let both = &&-true (is_hex d) (is_hex e) fine in
      (d, e, ds, refl, both.0, both.1, rw fine at h)
]

loop-Unescapes :
    (fuel : ℕ) (s out : Bytes) → length s < fuel → unescape_loop s ≡ some out → Unescapes s out
loop-Unescapes zero s out enough h = absurd (omega arith)
loop-Unescapes (suc fuel) [] out enough h =
    let both : ◌≡◌ {A = Option Bytes} (some []) (some out) = sym loop_nothing ∙ h in
    let same : [] ≡ out = cc in subst (Unescapes []) same nothing
loop-Unescapes (suc fuel) (c ∷ cs) out enough h = elim (Bool-cases (c == b'+')) [
  | inl is_plus ↦
      let is : b'+' ≡ c = sym ((==_iff c b'+').0 is_plus) in
      let (rest, e, joined) =
        push-some b' ' (unescape_loop cs) out
          (sym (loop_plus cs) ∙ ap (λ x. unescape_loop (x ∷ cs)) is ∙ h) in
      subst (λ x. Unescapes (x ∷ cs) out) is
        (subst (Unescapes (b'+' ∷ cs)) joined (plus (loop-Unescapes fuel cs rest (omega arith) e)))
  | inr no_plus ↦ elim (Bool-cases (c == b'%')) [
    | inl is_percent ↦
        let is : b'%' ≡ c = sym ((==_iff c b'%').0 is_percent) in
        let (d, e, ds, split, hex, hex', pushed) =
          bad_escape cs out (ap (λ x. unescape_loop (x ∷ cs)) is ∙ h) in
        let (rest, e', joined) = push-some (16 * unhex d + unhex e) (unescape_loop ds) out pushed in
        let shorter = ap length split in
        let whole : Unescapes (b'%' ∷ d ∷ e ∷ ds) out =
          subst (Unescapes (b'%' ∷ d ∷ e ∷ ds)) joined (
            hex_pair (is_hex-digit d hex) (is_hex-digit e hex')
              (loop-Unescapes fuel ds rest (omega arith) e')) in
        subst (λ x. Unescapes (x ∷ cs) out) is
          (subst (λ x. Unescapes (b'%' ∷ x) out) (sym split) whole)
    | inr no_percent ↦
        let (rest, e, joined) =
          push-some c (unescape_loop cs) out (sym (loop_as_it_is c cs no_plus no_percent) ∙ h) in
        subst (Unescapes (c ∷ cs)) joined
          (as_it_is no_plus no_percent (loop-Unescapes fuel cs rest (omega arith) e))
  ]
]

-- Nothing to decode.
plain_head :
    (c : ℕ) (cs : Bytes)
    → is_escaped (c ∷ cs) ≡ false
    → ((c == b'+') ≡ false) × ((c == b'%') ≡ false) × (is_escaped cs ≡ false)
unfolding index_byte
plain_head c cs h = ground arith

pub plain-Unescapes : (s : Bytes) → is_escaped s ≡ false → Unescapes s s
plain-Unescapes [] h = nothing
plain-Unescapes (c ∷ cs) h =
    let (no_plus, no_percent, rest) = plain_head c cs h in
    as_it_is no_plus no_percent (plain-Unescapes cs rest)

-- `unescapeQuery` is the decoding of a query component: it answers `out` exactly when the string
-- decodes to it, with a plus for a space and each percent sign before two hex digits.
pub unescape_query_iff : (s out : Bytes) → (unescape_query s ≡ some out) ↔ Unescapes s out
unfolding unescape_query
unescape_query_iff s out = elim (Bool-cases (is_escaped s)) [
  | inl escaped ↦
      rw escaped
        ((λ h. loop-Unescapes (suc (length s)) s out (omega arith) h), λ u. Unescapes-loop u)
  | inr plain ↦ rw plain (
    (λ h. let same : s ≡ out = cc in subst (Unescapes s) same (plain-Unescapes s plain)),
    λ u. sym (Unescapes-loop (plain-Unescapes s plain)) ∙ Unescapes-loop u,
  )
]
