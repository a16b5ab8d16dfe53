-- ===== src/Http1/Lines/Spec.antt =====
-- `readLine` against the first line feed of the stream.
use simdhttp.Common.{
  ℕ, zero, suc, ◌+◌, ◌≤◌, ◌<◌, ◌≡◌, refl, sym, ap, ◌∙◌, true, false, Option, none, some, [], ◌∷◌,
  ◌++◌, append-nil, append_assoc, arith, ltb, if◌then◌else◌, Bytes, length, length-append,
  Bool-cases, inl, inr,
}
use native.Mathlib.Nat.{add_assoc, add-suc}
use simdhttp.Common.Int64.{add64}
use simdhttp.Http1.Conn.Slices.{first_line, prepend, IsSlice, scan_slice-IsSlice}
use simdhttp.Http1.Conn.{SliceEnd, found, full, ended, scan_slice, read_slice}
use simdhttp.Http1.Errors.{ok, err, line_too_long, unexpected_eof}
use simdhttp.Http1.Lines.{cut_cr, drop_last, Line, line_next, line_loop}
use simdhttp.Http1.Reader.{BodyReader}

-- The verdict on the stream `bytes` whose first line is known, behind the part `line` that was read.
abbrev pub judge : ℕ → Bytes → Bytes → Option Bytes → Line
judge limit line bytes none =
    if ltb (limit + 2) (length line + length bytes) then err line_too_long else err unexpected_eof
judge limit line bytes (some l) =
    if ltb (limit + 2) (length line + suc (length l))
    then err line_too_long
    else ok (cut_cr (line ++ l))

-- The reader after `n` bytes more, with `rest` to come.
abbrev pub advance : ℕ → Bytes → BodyReader → BodyReader
advance n rest b = record b { conn = record b.conn { bytes = rest }; consumed = add64 b.consumed n }

-- `r` has taken a front of the stream `bytes`, gives the verdict, and on a line has taken just that
-- line.
abbrev pub Reads : ℕ → Bytes → Bytes → BodyReader → BodyReader × Line → Type 0
Reads limit line bytes b r =
    (taken : Bytes) × (rest : Bytes) × (bytes ≡ taken ++ rest)
    × (r.0 ≡ advance (length taken) rest b)
    × (r.1 ≡ judge limit line bytes (first_line bytes))
    × ((l : Bytes)
        → first_line bytes ≡ some l
        → ltb (limit + 2) (length line + suc (length l)) ≡ false
        → taken ≡ l ++ (b'\n' ∷ []))

drop_last-append : (l : Bytes) (x : ℕ) → drop_last (l ++ (x ∷ [])) ≡ l
drop_last-append [] x = refl
drop_last-append (c ∷ []) x = refl
drop_last-append (c ∷ d ∷ cs) x = ap (◌∷◌ c) (drop_last-append (d ∷ cs) x)

pub add64_assoc : (a b c : ℕ) → add64 (add64 a b) c ≡ add64 a (b + c)
unfolding add64
add64_assoc a b c = omega arith

pub advance-advance :
    (n m : ℕ) (r s : Bytes) (b : BodyReader) → advance m s (advance n r b) ≡ advance (n + m) s b
advance-advance n m r s b = rw add64_assoc

abbrev Again : Type 0
Again = Bytes → BodyReader → BodyReader × Line

-- One round of the loop, on the slice `s`.
abbrev on_slice : Again → ℕ → Bytes → BodyReader → Bytes × SliceEnd × Bytes → BodyReader × Line
on_slice again limit line b (frag, end, rest) =
    if ltb (limit + 2) (length line + length frag)
    then (advance (length frag) rest b, err line_too_long)
    else line_next again end (line ++ frag) (advance (length frag) rest b)

module _ (again : Again) (limit : ℕ) (line bytes : Bytes) (b : BodyReader) (frag rest : Bytes) where
  Reads-found :
      (l : Bytes)
      → frag ≡ l ++ (b'\n' ∷ [])
      → first_line bytes ≡ some l
      → bytes ≡ frag ++ rest
      → Reads limit line bytes b (on_slice again limit line b (frag, found, rest))
  Reads-found l is_line first joined =
      let long : length frag ≡ suc (length l) = rw is_line (rw length-append (omega arith)) in
      let same : (l' : Bytes) → first_line bytes ≡ some l' → frag ≡ l' ++ (b'\n' ∷ []) =
        λ l' e. cc in
      let cut : drop_last (line ++ frag) ≡ line ++ l =
        rw (is_line, ← append_assoc) (drop_last-append (line ++ l) b'\n') in
      elim (Bool-cases (ltb (limit + 2) (length line + length frag))) [
        | inl big ↦
            rw big (frag, rest, joined, refl, rw first (ground arith), λ l' e small. same l' e)
        | inr small ↦
            rw small
              (frag, rest, joined, refl, rw (first, cut) (ground arith), λ l' e small'. same l' e)
      ]

  Reads-ended :
      rest ≡ []
      → first_line bytes ≡ none
      → bytes ≡ frag ++ rest
      → Reads limit line bytes b (on_slice again limit line b (frag, ended, rest))
  Reads-ended no_rest first joined =
      let long : length bytes ≡ length frag = rw (joined, no_rest, append-nil) refl in
      elim (Bool-cases (ltb (limit + 2) (length line + length frag))) [
        | inl big ↦ rw big (frag, rest, joined, refl, rw first (ground arith), λ l' e small. cc)
        | inr small ↦
            rw small (frag, rest, joined, refl, rw first (ground arith), λ l' e small'. cc)
      ]

  judge_shift :
      (o : Option Bytes)
      → bytes ≡ frag ++ rest
      → judge limit (line ++ frag) rest o ≡ judge limit line bytes (prepend frag o)
  judge_shift none joined = rw (joined, length-append, length-append, add_assoc)
  judge_shift (some l) joined = rw (append_assoc line frag l) (
      rw (
        length-append line frag,
        length-append frag l,
        ← add-suc (length frag) (length l),
        add_assoc,
      ))

  judge_big :
      (o : Option Bytes)
      → bytes ≡ frag ++ rest
      → ltb (limit + 2) (length line + length frag) ≡ true
      → judge limit line bytes (prepend frag o) ≡ err line_too_long
  judge_big none joined big = rw (joined, length-append) (ground arith)
  judge_big (some l) joined big = rw (length-append) (ground arith)

  prepend-eq-some :
      (o : Option Bytes) (l' : Bytes)
      → prepend frag o ≡ some l'
      → (l : Bytes) × (o ≡ some l) × (l' ≡ frag ++ l)
  prepend-eq-some none l' e = cc
  prepend-eq-some (some l) l' e = (l, refl, cc)

  too_small :
      (l' : Bytes)
      → ltb (limit + 2) (length line + length frag) ≡ true
      → ltb (limit + 2) (length line + suc (length l')) ≡ false
      → (l : Bytes) × (first_line rest ≡ some l) × (l' ≡ frag ++ l)
      → ⊥
  too_small l' big small (l, e, joined) =
      let long : length l' ≡ length frag + length l = rw (joined, length-append) refl in
      ground arith

  shorter :
      (l l' : Bytes)
      → l' ≡ frag ++ l
      → ltb (limit + 2) (length line + suc (length l')) ≡ false
      → ltb (limit + 2) (length (line ++ frag) + suc (length l)) ≡ false
  shorter l l' joined small =
      let long : length l' ≡ length frag + length l = rw (joined, length-append) refl in
      rw length-append (ground arith)

  Reads-full :
      first_line bytes ≡ prepend frag (first_line rest)
      → bytes ≡ frag ++ rest
      → Reads limit
          (line ++ frag)
          rest
          (advance (length frag) rest b)
          (again (line ++ frag) (advance (length frag) rest b))
      → Reads limit line bytes b (on_slice again limit line b (frag, full, rest))
  Reads-full first joined (taken', rest', joined', moved, verdict, last) =
      elim (Bool-cases (ltb (limit + 2) (length line + length frag))) [
        | inl big ↦ rw big (
          frag,
          rest,
          joined,
          refl,
          rw first (sym (judge_big (first_line rest) joined big)),
          λ l' e small.
              absurd
                (too_small l' big small (prepend-eq-some (first_line rest) l' (sym first ∙ e))),
        )
        | inr small ↦ rw small (
          frag ++ taken',
          rest',
          joined ∙ rw joined' (sym (append_assoc frag taken' rest')),
          moved
              ∙ advance-advance (length frag) (length taken') rest rest' b
              ∙ ap (λ n. advance n rest' b) (sym (length-append frag taken')),
          verdict ∙ rw first (judge_shift (first_line rest) joined),
          λ l' e small'.
              let (l, e', joined_l) = prepend-eq-some (first_line rest) l' (sym first ∙ e) in
              rw (last l e' (shorter l l' joined_l small'), joined_l)
                (sym (append_assoc frag l (b'\n' ∷ []))),
        )
      ]

Reads-slice :
    (again : Again) (limit : ℕ) (line bytes : Bytes) (b : BodyReader) (n : ℕ)
    (s : Bytes × SliceEnd × Bytes)
    → IsSlice n bytes s
    → ((line' rest : Bytes) (b' : BodyReader)
        → b'.conn.bytes ≡ rest
        → b'.conn.buf_size ≡ b.conn.buf_size
        → length rest + n ≤ length bytes
        → Reads limit line' rest b' (again line' b'))
    → Reads limit line bytes b (on_slice again limit line b s)
Reads-slice again limit line bytes b n (frag, found, rest) (joined, (l, is_line, first)) ih =
    Reads-found again limit line bytes b frag rest l is_line first joined
Reads-slice again limit line bytes b n (frag, ended, rest) (joined, (no_rest, first)) ih =
    Reads-ended again limit line bytes b frag rest no_rest first joined
Reads-slice again limit line bytes b n (frag, full, rest) (joined, (long, first)) ih =
    Reads-full again limit line bytes b frag rest first joined (
      ih (line ++ frag) rest (advance (length frag) rest b) refl refl
        (rw (joined, length-append, long) (omega arith)))

pub line_loop-Reads :
    (fuel limit : ℕ) (line bytes : Bytes) (b : BodyReader)
    → b.conn.bytes ≡ bytes
    → 0 < b.conn.buf_size
    → length bytes < fuel
    → Reads limit line bytes b (line_loop fuel limit line b)
unfolding line_loop read_slice
line_loop-Reads zero limit line bytes b same pos h = absurd (omega arith)
line_loop-Reads (suc fuel) limit line bytes b same pos h = rw same (
    Reads-slice (line_loop fuel limit) limit line bytes b b.conn.buf_size
      (scan_slice b.conn.buf_size bytes) (scan_slice-IsSlice b.conn.buf_size bytes)
      λ line' rest b' e size short.
        line_loop-Reads fuel limit line' rest b' e (omega arith) (omega arith))
