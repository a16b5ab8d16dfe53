-- ===== src/Http1/Framing/Table.antt =====
-- `FramingOf` against its decision table.
use simdhttp.Common.{
  ℕ, ◌≡◌, ◌↔◌, refl, true, false, List, [], ◌∷◌, Bytes, Bool-cases, Option-cases, inl, inr,
}
use simdhttp.Http1.Chars.{valid_transfer_encoding}
use simdhttp.Http1.Errors.{Error, Result, ok, err, ambiguous_framing, bad_content_length}
use simdhttp.Http1.Errors.{bad_transfer_encoding}
use simdhttp.Http1.Framing.ContentLength.{IsContentLength, parse_content_length_iff}
use simdhttp.Http1.Framing.{
  Profile, Framing, no_body, chunked_body, fixed_length, parse_content_length, frame_length,
  framing_of,
}

-- The heads that have one reading, by their Content-Length and Transfer-Encoding lines.
pub data Frames : List Bytes → List Bytes → Framing → Type 0 where
  nothing : Frames [] [] no_body
  by_length : {v : Bytes} {n : ℕ} → IsContentLength v n → Frames (v ∷ []) [] (fixed_length n)
  by_coding : {v : Bytes} → valid_transfer_encoding v ≡ true → Frames [] (v ∷ []) chunked_body

-- The heads that have none, and the error of each.
pub data Refuses : List Bytes → List Bytes → Error → Type 0 where
  two_codings : {cl te : List Bytes} {v w : Bytes} → Refuses cl (v ∷ w ∷ te) bad_transfer_encoding
  bad_coding :
      {cl : List Bytes} {v : Bytes}
      → valid_transfer_encoding v ≡ false
      → Refuses cl (v ∷ []) bad_transfer_encoding
  both :
      {cl : List Bytes} {u v : Bytes}
      → valid_transfer_encoding v ≡ true
      → Refuses (u ∷ cl) (v ∷ []) ambiguous_framing
  two_lengths : {cl : List Bytes} {v w : Bytes} → Refuses (v ∷ w ∷ cl) [] ambiguous_framing
  bad_length :
      {v : Bytes} → ((n : ℕ) → ¬ IsContentLength v n) → Refuses (v ∷ []) [] bad_content_length

abbrev Verdict : List Bytes → List Bytes → Result Framing → Type 0
Verdict cl te (ok f) = Frames cl te f
Verdict cl te (err e) = Refuses cl te e

frame_length-Verdict : (v : Bytes) → Verdict (v ∷ []) [] (frame_length v)
unfolding frame_length
frame_length-Verdict v = elim (Option-cases (parse_content_length v)) [
  | inl bad ↦ rw bad (bad_length λ n h. cc (bad, (parse_content_length_iff v n).1 h))
  | inr (n, good) ↦ rw good (by_length ((parse_content_length_iff v n).0 good))
]

framing_of-Verdict :
    (cl te : List Bytes) (profile : Profile) → Verdict cl te (framing_of cl te profile)
unfolding framing_of
framing_of-Verdict [] [] profile = nothing
framing_of-Verdict (v ∷ []) [] profile = frame_length-Verdict v
framing_of-Verdict (v ∷ w ∷ vs) [] profile = two_lengths
framing_of-Verdict [] (v ∷ []) profile = elim (Bool-cases (valid_transfer_encoding v)) [
  | inl e ↦ rw e (by_coding e)
  | inr e ↦ rw e (bad_coding e)
]
framing_of-Verdict (u ∷ us) (v ∷ []) profile = elim (Bool-cases (valid_transfer_encoding v)) [
  | inl e ↦ rw e (both e)
  | inr e ↦ rw e (bad_coding e)
]
framing_of-Verdict cl (v ∷ w ∷ te) profile = two_codings

Frames-framing_of :
    (profile : Profile) {cl te : List Bytes} {f : Framing}
    → Frames cl te f
    → framing_of cl te profile ≡ ok f
unfolding framing_of frame_length
Frames-framing_of profile nothing = refl
Frames-framing_of profile (by_length {v} {n} h) = rw ((parse_content_length_iff v n).1 h)
Frames-framing_of profile (by_coding e) = rw e

-- `FramingOf` answers `f` exactly when the head has one reading and `f` is that reading, whatever
-- the profile: no length, one well-formed Content-Length alone, or one valid Transfer-Encoding
-- alone.
pub framing_of_iff :
    (cl te : List Bytes) (profile : Profile) (f : Framing)
    → (framing_of cl te profile ≡ ok f) ↔ Frames cl te f
framing_of_iff cl te profile f =
    ((λ e. rw e at (framing_of-Verdict cl te profile)), Frames-framing_of profile)

Refuses-framing_of :
    (profile : Profile) {cl te : List Bytes} {e : Error}
    → Refuses cl te e
    → framing_of cl te profile ≡ err e
unfolding framing_of frame_length
Refuses-framing_of profile two_codings = refl
Refuses-framing_of profile (bad_coding e) = rw e
Refuses-framing_of profile (both e) = rw e
Refuses-framing_of profile two_lengths = refl
Refuses-framing_of profile (bad_length {v} none_fits) =
    elim (Option-cases (parse_content_length v)) [
      | inl bad ↦ rw bad
      | inr (n, good) ↦ absurd (none_fits n ((parse_content_length_iff v n).0 good))
    ]

-- `FramingOf` answers the error `e` exactly on the heads that the table refuses with `e`: two
-- Transfer-Encoding lines or a bad one, then the two headers together, then two Content-Length
-- lines or a bad one.
pub framing_of-Refuses_iff :
    (cl te : List Bytes) (profile : Profile) (e : Error)
    → (framing_of cl te profile ≡ err e) ↔ Refuses cl te e
framing_of-Refuses_iff cl te profile e =
    ((λ h. rw h at (framing_of-Verdict cl te profile)), Refuses-framing_of profile)
