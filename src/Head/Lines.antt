-- ===== src/Head/Lines.antt =====
-- The loop of the root package's parser over its index of line ends, against the lines themselves.
use simdhttp.Common.{
  ℕ, zero, suc, ◌+◌, ◌-◌, ◌*◌, ◌/◌, ◌<◌, ◌≡◌, inl, inr, refl, sym, ap, ◌∙◌, Option, none, some, [],
  ◌∷◌, arith, Bytes, length, take, drop, Option-cases,
}
use mathlib.Core.Path.{ap₂, fun_ext}
use simdhttp.Head.{HeadRequest, HeadParsed, head_round, head_ends, head_block}
use simdhttp.Http1.Conn.Slices.{first_line}
use simdhttp.Http1.Errors.{err, incomplete}
use simdhttp.Http1.Parser.Walks.{
  no_positions, first_line-FirstAt, drop-drop, length-drop_line, grow-enough,
}
use simdhttp.Http1.Parser.{grow, strip_cr}
use simdhttp.Http1.Simd.{Simd, positions}

-- The reference: each line is cut at the next line feed.
abbrev pub head_next :
    Simd
    → (ℕ → Bytes → HeadRequest → HeadParsed)
    → ℕ
    → Bytes
    → HeadRequest
    → Option Bytes
    → HeadParsed
head_next k again pos block req none = (req, err incomplete)
head_next k again pos block req (some l) =
    head_round k (again (pos + length l + 1) (drop (suc (length l)) block)) (pos + length l + 1) req
      (strip_cr l)

unfoldable pub head_lines : Simd → ℕ → ℕ → Bytes → HeadRequest → HeadParsed
head_lines k zero pos block req = (req, err incomplete)
head_lines k (suc fuel) pos block req =
    head_next k (head_lines k fuel) pos block req (first_line block)

-- A line that does not end in a carriage return ends the loop, so a line that goes on is not empty.
head_round_step :
    (k : Simd) (again again' : HeadRequest → HeadParsed) (pos : ℕ) (req : HeadRequest) (l : Bytes)
    → (0 < length l → (req' : HeadRequest) → again req' ≡ again' req')
    → head_round k again pos req (strip_cr l) ≡ head_round k again' pos req (strip_cr l)
head_round_step k again again' pos req [] same = unfold strip_cr in refl
head_round_step k again again' pos req (x ∷ xs) same =
    ap (λ f. head_round k f pos req (strip_cr (x ∷ xs))) (fun_ext (same (omega arith)))

module _ (k : Simd) (first : ℕ) (block : Bytes) where
  -- `cap` indices are enough for what is left: each line that goes on has two bytes at least.
  head_ends-lines :
      (fuel cap start : ℕ) (s : Bytes) (req : HeadRequest)
      → drop start block ≡ s
      → length s < fuel
      → length s < 2 * cap
      → head_ends k first block (take cap (positions start s b'\n')) start req
        ≡ head_lines k fuel (first + start) s req
  unfolding head_ends head_lines
  head_ends-lines zero cap start s req at enough room = absurd (omega arith)
  head_ends-lines (suc fuel) zero start s req at enough room = absurd (omega arith)
  head_ends-lines (suc fuel) (suc cap) start s req at enough room =
      elim (Option-cases (first_line s)) [
        | inl e ↦ rw (no_positions start s e, e) refl
        | inr (l, e) ↦
            let f = first_line-FirstAt start s l e in
            let at' =
              sym (drop-drop start (suc (length l)) (start + length l + 1) block (omega arith))
              ∙ ap (drop (suc (length l))) at in
            let cut : take (start + length l - start) (drop start block) ≡ l =
              ap₂ (λ (n : ℕ) (b : Bytes). take n b) (omega arith) at ∙ f.is_line in
            let size = length-drop_line (length l) s f.within in
            let here : first + start + length l + 1 ≡ first + (start + length l) + 1 =
              omega arith in
            let s' = drop (suc (length l)) s in
            rw (f.indices, e, cut, here)
              (head_round_step k _ (head_lines k fuel (first + (start + length l) + 1) s')
                (first + (start + length l) + 1) req l
                λ some_byte req'.
                  head_ends-lines fuel cap (start + length l + 1) s' req' at' (omega arith)
                    (omega arith)
                  ∙ ap (λ (p : ℕ). head_lines k fuel p s' req') (omega arith))
      ]

-- The header block is parsed as by cutting one line after the other at its line feed, whatever
-- capacity the scratch comes with: an index of half as many line ends as there are bytes, and one, is
-- enough.
pub head_block-head_lines :
    (k : Simd) (req : HeadRequest) (first : ℕ) (block : Bytes)
    → head_block k req first block
      ≡ head_lines k
          (suc (length block))
          first
          block
          (record req { headers = []; ends_cap = grow req.ends_cap (length block / 2 + 1) })
unfolding head_block
head_block-head_lines k req first block =
    let n = length block in
    let cap = grow req.ends_cap (n / 2 + 1) in
    let fresh : HeadRequest = record req { headers = []; ends_cap = cap } in
    ap (λ ends. head_ends k first block ends 0 fresh) (k.index_all_law cap block b'\n')
    ∙ head_ends-lines k first block (suc n) cap 0 block fresh refl (omega arith)
        (grow-enough req.ends_cap n)
    ∙ ap (λ (p : ℕ). head_lines k (suc n) p block fresh) (omega arith)
