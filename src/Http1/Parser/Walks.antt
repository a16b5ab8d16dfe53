-- ===== src/Http1/Parser/Walks.antt =====
-- The walk over the index of line ends against a walk over the lines themselves.
use simdhttp.Common.{
  ℕ, zero, suc, ◌+◌, ◌-◌, ◌*◌, ◌/◌, ◌<◌, ◌≡◌, inl, inr, refl, sym, ap, ◌∙◌, subst, true, false,
  Option, none, some, [], ◌∷◌, arith, ◌==◌, Bytes, length, take, drop, Bool-cases, Option-cases,
}
use mathlib.Core.Path.{ap₂, fun_ext}
use simdhttp.Http1.Conn.Slices.{first_line, prepend}
use simdhttp.Http1.Errors.{err, incomplete}
use simdhttp.Http1.Framing.{Profile}
use simdhttp.Http1.Parser.{
  HeadLimits, Request, Walk, Parsed, grow, parse_block, line_round, strip_cr, walk_ends,
}
use simdhttp.Http1.Simd.{Simd, positions}

-- The reference: each line is cut at the next line feed, without an index. `pos` is the offset of
-- `block` in the input.
abbrev pub next_line :
    Simd
    → HeadLimits
    → Profile
    → (ℕ → Bytes → Walk → Parsed)
    → ℕ
    → Bytes
    → Walk
    → Option Bytes
    → Parsed
next_line k lim profile again pos block w none = (w.req, err incomplete)
next_line k lim profile again pos block w (some l) =
    line_round k lim profile (again (pos + length l + 1) (drop (suc (length l)) block))
      (pos + length l + 1) w (strip_cr l)

unfoldable pub walk_lines : Simd → HeadLimits → Profile → ℕ → ℕ → Bytes → Walk → Parsed
walk_lines k lim profile zero pos block w = (w.req, err incomplete)
walk_lines k lim profile (suc fuel) pos block w =
    next_line k lim profile (walk_lines k lim profile fuel) pos block w (first_line block)

pub no_positions : (i : ℕ) (s : Bytes) → first_line s ≡ none → positions i s b'\n' ≡ []
unfolding first_line
no_positions i [] e = refl
no_positions i (b ∷ bs) e = elim (Bool-cases (b == b'\n')) [
  | inl lf ↦ absurd (ground arith)
  | inr other ↦ rw other (no_positions (i + 1) bs (ground arith))
]

-- The first index, the ones behind it, and the line.
pub record FirstAt (i : ℕ) (s l : Bytes) : Type 0 where
  pub indices :
      positions i s b'\n'
      ≡ (i + length l) ∷ positions (i + length l + 1) (drop (suc (length l)) s) b'\n'
  pub is_line : take (length l) s ≡ l
  pub within : length l < length s

prepend-some :
    (b : ℕ) (o : Option Bytes) (l : Bytes)
    → prepend (b ∷ []) o ≡ some l
    → (l' : Bytes) × (o ≡ some l') × (l ≡ b ∷ l')
prepend-some b none l e = cc
prepend-some b (some l') l e = (l', refl, cc)

FirstAt-lf : (i b : ℕ) (bs : Bytes) → (b == b'\n') ≡ true → FirstAt i (b ∷ bs) []
FirstAt-lf i b bs lf =
    let at : i + 0 ≡ i = omega arith in
    record { indices = rw (lf, at) refl; is_line = refl; within = omega arith }

FirstAt-cons :
    (i b : ℕ) (bs l : Bytes)
    → (b == b'\n') ≡ false
    → FirstAt (i + 1) bs l
    → FirstAt i (b ∷ bs) (b ∷ l)
FirstAt-cons i b bs l other f =
    let at : i + 1 + length l ≡ i + suc (length l) = omega arith in
    record {
      indices = rw other (f.indices ∙ rw at refl);
      is_line = ap (◌∷◌ b) f.is_line;
      within = omega (arith, f.within);
    }

pub first_line-FirstAt : (i : ℕ) (s l : Bytes) → first_line s ≡ some l → FirstAt i s l
unfolding first_line
first_line-FirstAt i [] l e = cc
first_line-FirstAt i (b ∷ bs) l e = elim (Bool-cases (b == b'\n')) [
  | inl lf ↦ subst (FirstAt i (b ∷ bs)) (ground arith) (FirstAt-lf i b bs lf)
  | inr other ↦
      let (l', e', joined) = prepend-some b (first_line bs) l (rw other at e) in
      subst (FirstAt i (b ∷ bs)) (sym joined)
        (FirstAt-cons i b bs l' other (first_line-FirstAt (i + 1) bs l' e'))
]

drop_nil : (n : ℕ) → drop {A = ℕ} n [] ≡ []
drop_nil zero = refl
drop_nil (suc n) = refl

pub drop-drop : (n m k : ℕ) (xs : Bytes) → n + m ≡ k → drop m (drop n xs) ≡ drop k xs
drop-drop zero m k xs e = ap (λ (j : ℕ). drop j xs) (omega arith)
drop-drop (suc n) m k [] e = drop_nil m ∙ sym (drop_nil k)
drop-drop (suc n) m zero (x ∷ xs) e = absurd (omega arith)
drop-drop (suc n) m (suc k) (x ∷ xs) e = drop-drop n m k xs (omega arith)

pub length-drop_line :
    (n : ℕ) (xs : Bytes) → n < length xs → length (drop (suc n) xs) + n + 1 ≡ length xs
length-drop_line n [] h = absurd (omega arith)
length-drop_line zero (x ∷ xs) h = omega arith
length-drop_line (suc n) (x ∷ xs) h = omega (arith, length-drop_line n xs (omega arith))

-- A line that does not end in a carriage return ends the walk, so a line that goes on is not empty.
line_round_step :
    (k : Simd) (lim : HeadLimits) (profile : Profile) (again again' : Walk → Parsed) (pos : ℕ)
    (w : Walk) (l : Bytes)
    → (0 < length l → (w' : Walk) → again w' ≡ again' w')
    → line_round k lim profile again pos w (strip_cr l)
      ≡ line_round k lim profile again' pos w (strip_cr l)
line_round_step k lim profile again again' pos w [] same = unfold strip_cr in refl
line_round_step k lim profile again again' pos w (x ∷ xs) same =
    ap (λ f. line_round k lim profile f pos w (strip_cr (x ∷ xs))) (fun_ext (same (omega arith)))

module _ (k : Simd) (lim : HeadLimits) (profile : Profile) (first : ℕ) (block : Bytes) where
  -- `cap` indices are enough for what is left: each line that goes on has two bytes at least.
  walk_ends-lines :
      (fuel cap start : ℕ) (s : Bytes) (w : Walk)
      → drop start block ≡ s
      → length s < fuel
      → length s < 2 * cap
      → walk_ends k lim profile first block (take cap (positions start s b'\n')) start w
        ≡ walk_lines k lim profile fuel (first + start) s w
  unfolding walk_ends walk_lines
  walk_ends-lines zero cap start s w at enough room = absurd (omega arith)
  walk_ends-lines (suc fuel) zero start s w at enough room = absurd (omega arith)
  walk_ends-lines (suc fuel) (suc cap) start s w at enough room =
      elim (Option-cases (first_line s)) [
        | inl e ↦ rw (no_positions start s e, e) refl
        | inr (l, e) ↦
            let f = first_line-FirstAt start s l e in
            let s' = drop (suc (length l)) s in
            let at' : drop (start + length l + 1) block ≡ s' =
              sym (drop-drop start (suc (length l)) (start + length l + 1) block (omega arith))
              ∙ ap (drop (suc (length l))) at in
            let cut : take (start + length l - start) (drop start block) ≡ l =
              ap₂ (λ (n : ℕ) (b : Bytes). take n b) (omega arith) at ∙ f.is_line in
            let size = length-drop_line (length l) s f.within in
            let here : first + start + length l + 1 ≡ first + (start + length l) + 1 =
              omega arith in
            rw (f.indices, e, cut, here)
              (line_round_step k lim profile _ _ (first + (start + length l) + 1) w l
                λ some_byte w'.
                  walk_ends-lines fuel cap (start + length l + 1) s' w' at' (omega arith)
                    (omega arith)
                  ∙ ap (λ (p : ℕ). walk_lines k lim profile fuel p s' w') (omega arith))
      ]

pub grow-enough : (cap n : ℕ) → n < 2 * grow cap (n / 2 + 1)
grow-enough cap n = ground arith

-- The walk's start: the slices are reset, and only the scratch grows.
abbrev pub first_walk : Request → ℕ → Walk
first_walk req n = record {
  req = record req {
    headers = [];
    content_length_lines = [];
    transfer_encoding_lines = [];
    ends_cap = grow req.ends_cap (n / 2 + 1);
  };
  host_count = 0;
  host_non_empty = false;
  cl_seen = false;
  te_seen = false;
}

-- Whatever capacity the scratch comes with, the header block is parsed as by cutting one line after
-- the other at its line feed: no head that the reference accepts or refuses is reported incomplete
-- because the line ends did not fit, and the header slices of the request's last use play no part.
pub parse_block-walk_lines :
    (k : Simd) (profile : Profile) (lim : HeadLimits) (req : Request) (first : ℕ) (block : Bytes)
    → parse_block k profile lim req first block
      ≡ walk_lines k lim profile (suc (length block)) first block (first_walk req (length block))
unfolding parse_block
parse_block-walk_lines k profile lim req first block =
    let n = length block in
    let cap = grow req.ends_cap (n / 2 + 1) in
    ap (λ ends. walk_ends k lim profile first block ends 0 (first_walk req n))
      (k.index_all_law cap block b'\n')
    ∙ walk_ends-lines k lim profile first block (suc n) cap 0 block (first_walk req n) refl
        (omega arith) (grow-enough req.ends_cap n)
    ∙ ap (λ (p : ℕ). walk_lines k lim profile (suc n) p block (first_walk req n)) (omega arith)
