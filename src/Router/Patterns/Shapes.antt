-- ===== src/Router/Patterns/Shapes.antt =====
-- The segments and names that the loop of `parsePattern` collects.
use simdhttp.Common.{
  ℕ, zero, suc, ◌<◌, arith, ◌≡◌, ◌≢◌, inl, inr, refl, sym, ap, Bool, true, false, ◌&&◌, Option,
  none, some, List, [], ◌∷◌, if◌then◌else◌, Bytes, length, is_empty, Bool-cases,
}
use simdhttp.Router.Patterns.{
  Result, parsed, rejected, stuck, and_then, parse_segment, Shape, note_name, is_repeated,
  add_segment, last_segment, not_last, segment_step, segments_loop, with_name, with_segment, unless,
}
use simdhttp.Router.Tree.Leaves.{IsPattern}
use simdhttp.Router.Tree.Matching.{tail_shorter}
use simdhttp.Router.Tree.{cut_slash}
use simdhttp.Router.{SegKind, seg_lit, seg_single, seg_multi, Segment}

abbrev pub name_at : SegKind → Bytes → List Bytes → List Bytes
name_at seg_lit t names = names
name_at seg_single t names = t ∷ names
name_at seg_multi t names = t ∷ names

abbrev pub wildcard_names : List Segment → List Bytes
wildcard_names [] = []
wildcard_names (s ∷ ss) = name_at s.kind s.text (wildcard_names ss)

-- No empty literal but at the end.
abbrev pub FullUnlessLast : SegKind → Bytes → List Segment → Type 0
FullUnlessLast seg_lit t [] = Unit
FullUnlessLast seg_lit t (s ∷ ss) = t ≢ []
FullUnlessLast seg_single t ss = Unit
FullUnlessLast seg_multi t ss = Unit

abbrev pub Reachable : List Segment → Type 0
Reachable [] = Unit
Reachable (s ∷ ss) = FullUnlessLast s.kind s.text ss × Reachable ss

-- No name twice, nor one of `seen`; the empty name binds nothing.
abbrev pub Fresh : List Bytes → List Bytes → Type 0
Fresh seen [] = Unit
Fresh seen (n ∷ ns) = (is_repeated n seen ≡ false) × Fresh (note_name n seen) ns

pub record IsShape (seen : List Bytes) (segs : List Segment) (names : List Bytes) : Type 0 where
  pub is_pattern : IsPattern segs
  pub not_empty : segs ≢ []
  pub reachable : Reachable segs
  pub aligned : names ≡ wildcard_names segs
  pub fresh : Fresh seen names

abbrev pub ShapeOf : List Bytes → Result Shape → Type 0
ShapeOf seen (rejected err) = Unit
ShapeOf seen stuck = ⊥
ShapeOf seen (parsed (segs, names)) = IsShape seen segs names

fresh_lit :
    (t : Bytes) (seen : List Bytes) (r : Result Shape)
    → t ≢ []
    → ShapeOf seen r
    → ShapeOf seen (and_then r λ sh. parsed (with_segment (record { kind = seg_lit; text = t }) sh))
fresh_lit t seen (rejected err) full h = tt
fresh_lit t seen stuck full h = absurd h
fresh_lit t seen (parsed ([], names)) full h = absurd (h.not_empty refl)
fresh_lit t seen (parsed (s ∷ segs, names)) full h = record {
  is_pattern = (tt, h.is_pattern);
  not_empty = λ e. cc;
  reachable = (full, h.reachable);
  aligned = h.aligned;
  fresh = h.fresh;
}

fresh_single :
    (t : Bytes) (seen : List Bytes) (r : Result Shape)
    → is_repeated t seen ≡ false
    → ShapeOf (note_name t seen) r
    → ShapeOf seen (
        and_then r
          λ sh. parsed (with_segment (record { kind = seg_single; text = t }) (with_name t sh)))
fresh_single t seen (rejected err) new h = tt
fresh_single t seen stuck new h = absurd h
fresh_single t seen (parsed (segs, names)) new h = record {
  is_pattern = (tt, h.is_pattern);
  not_empty = λ e. cc;
  reachable = (tt, h.reachable);
  aligned = ap (λ ns. t ∷ ns) h.aligned;
  fresh = (new, h.fresh);
}

single_alone :
    (k : SegKind) (t : Bytes) (seen : List Bytes)
    → is_repeated t seen ≡ false
    → IsPattern (record { kind = k; text = t } ∷ [])
    → FullUnlessLast k t []
    → name_at k t [] ≡ t ∷ []
    → IsShape seen (record { kind = k; text = t } ∷ []) (t ∷ [])
single_alone k t seen new pat reach names = record {
  is_pattern = pat;
  not_empty = λ e. cc;
  reachable = (reach, tt);
  aligned = sym names;
  fresh = (new, tt);
}

last_literal :
    (trailing : Bool) (t : Bytes) (seen : List Bytes) (b : Bool)
    → ShapeOf seen (
        if b
        then parsed (record { kind = seg_multi; text = [] } ∷ [], [] ∷ [])
        else parsed (record { kind = seg_lit; text = t } ∷ [], []))
last_literal trailing t seen true = single_alone seg_multi [] seen refl (refl, tt) tt refl
last_literal trailing t seen false = record {
  is_pattern = (tt, tt);
  not_empty = λ e. cc;
  reachable = (tt, tt);
  aligned = refl;
  fresh = tt;
}

last_ShapeOf :
    (trailing : Bool) (k : SegKind) (t : Bytes) (seen : List Bytes)
    → ShapeOf seen (last_segment trailing k t seen)
last_ShapeOf trailing seg_lit t seen = last_literal trailing t seen (trailing && is_empty t)
last_ShapeOf trailing seg_single t seen = elim (Bool-cases (is_repeated t seen)) [
  | inl twice ↦ rw twice tt
  | inr new ↦ rw new (single_alone seg_single t seen new (tt, tt) tt refl)
]
last_ShapeOf trailing seg_multi t seen = elim (Bool-cases (is_repeated t seen)) [
  | inl twice ↦ rw twice tt
  | inr new ↦ rw new (single_alone seg_multi t seen new (refl, tt) tt refl)
]

full : (t : Bytes) → is_empty t ≡ false → t ≢ []
full [] h e = cc
full (x ∷ xs) h e = cc

module _ (again : Bytes → List Bytes → Result Shape) (rounds : ℕ)
    (later : (rest : Bytes) (seen : List Bytes)
      → length rest < rounds
      → ShapeOf seen (again rest seen)) where
  more_ShapeOf :
      (rest : Bytes) (k : SegKind) (t : Bytes) (seen : List Bytes)
      → length rest < rounds
      → ShapeOf seen (unless (not_last k t) (add_segment k t seen λ seen'. again rest seen'))
  more_ShapeOf rest seg_lit t seen enough = elim (Bool-cases (is_empty t)) [
    | inl blank ↦ rw blank tt
    | inr some_text ↦
        rw some_text
          (fresh_lit t seen (again rest seen) (full t some_text) (later rest seen enough))
  ]
  more_ShapeOf rest seg_single t seen enough = elim (Bool-cases (is_repeated t seen)) [
    | inl twice ↦ rw twice tt
    | inr new ↦ rw new (
        fresh_single t seen (again rest (note_name t seen)) new
          (later rest (note_name t seen) enough))
  ]
  more_ShapeOf rest seg_multi t seen enough = tt

  step_ShapeOf :
      (trailing : Bool) (tail : Option Bytes) (seen : List Bytes) (s : Segment)
      → ((rest : Bytes) → tail ≡ some rest → length rest < rounds)
      → ShapeOf seen (segment_step again trailing tail seen s)
  step_ShapeOf trailing none seen s enough = last_ShapeOf trailing s.kind s.text seen
  step_ShapeOf trailing (some rest) seen s enough =
      more_ShapeOf rest s.kind s.text seen (enough rest refl)

-- A segment is parsed in one go.
abbrev NotStuck : Result Segment → Type 0
NotStuck (parsed s) = Unit
NotStuck (rejected err) = Unit
NotStuck stuck = ⊥

segment_NotStuck : (seg : Bytes) → NotStuck (parse_segment seg)
unfolding parse_segment
segment_NotStuck seg = ground arith

chained :
    (seen : List Bytes) (r : Result Segment) (k : Segment → Result Shape)
    → NotStuck r
    → ((s : Segment) → ShapeOf seen (k s))
    → ShapeOf seen (and_then r k)
chained seen (rejected err) k ok h = tt
chained seen (parsed s) k ok h = h s
chained seen stuck k ok h = absurd ok

pub loop_ShapeOf :
    (fuel : ℕ) (trailing : Bool) (rest : Bytes) (seen : List Bytes)
    → length rest < fuel
    → ShapeOf seen (segments_loop fuel trailing rest seen)
unfolding segments_loop
loop_ShapeOf zero trailing rest seen enough = absurd (omega arith)
loop_ShapeOf (suc fuel) trailing rest seen enough =
    chained seen (parse_segment (cut_slash rest).0)
      (λ s.
        segment_step (λ rest' seen'. segments_loop fuel trailing rest' seen') trailing
          (cut_slash rest).1 seen s)
      (segment_NotStuck (cut_slash rest).0)
      λ s.
        step_ShapeOf (λ rest' seen'. segments_loop fuel trailing rest' seen') fuel
          (λ rest' seen' enough'. loop_ShapeOf fuel trailing rest' seen' enough') trailing
          (cut_slash rest).1 seen s
          λ t e.
            omega
              (arith, tail_shorter rest (cut_slash rest).0 t (ap (λ x. ((cut_slash rest).0, x)) e))
