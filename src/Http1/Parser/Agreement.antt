-- ===== src/Http1/Parser/Agreement.antt =====
-- What `FramingOf` (http1/framing.go) answers on the lines that `Parse` (http1/parser.go) keeps.
use simdhttp.Common.{ℕ, ◌≡◌, ◌≢◌, List, [], ◌∷◌, Bytes, Option-cases, inl, inr}
use simdhttp.Http1.Errors.{ok, err, bad_transfer_encoding, ambiguous_framing}
use simdhttp.Http1.Framing.{
  Profile, framing_of, frame_by_length, frame_length, parse_content_length,
}
use simdhttp.Http1.Parser.Fields.{Single, SingleCoding, coded, parse-IsFramable}
use simdhttp.Http1.Parser.{Request, parse}
use simdhttp.Http1.Simd.{Simd}

-- What `FramingOf` answers on a framable head.
framing_of-Single :
    (cl te : List Bytes) (profile : Profile)
    → SingleCoding te
    → Single cl
    → (framing_of cl te profile ≢ err bad_transfer_encoding)
      × (framing_of cl te profile ≡ err ambiguous_framing → (cl ≢ []) × (te ≢ []))
unfolding framing_of frame_by_length frame_length
framing_of-Single [] [] profile c l = ((λ e. cc), λ e. cc)
framing_of-Single (v ∷ []) [] profile c l = elim (Option-cases (parse_content_length v)) [
  | inl none_read ↦ rw none_read ((λ e. cc), λ e. cc)
  | inr (n, read) ↦ rw read ((λ e. cc), λ e. cc)
]
framing_of-Single [] (v ∷ []) profile (coded h) l = rw h ((λ e. cc), λ e. cc)
framing_of-Single (u ∷ []) (v ∷ []) profile (coded h) l =
    rw h ((λ e. cc), λ e. ((λ p. cc), λ p. cc))
framing_of-Single [] (v ∷ w ∷ te) profile c l = elim c [ ]
framing_of-Single (u ∷ []) (v ∷ w ∷ te) profile c l = elim c [ ]
framing_of-Single (u ∷ v ∷ cl) te profile c l = elim l [ ]

-- On the lines of a head that `Parse` accepts, `FramingOf` never answers `ErrBadTransferEncoding`,
-- and it answers `ErrAmbiguousFraming` only when the head has both headers.
pub parse-framing_of :
    (k : Simd) (req : Request) (b : Bytes) (profile : Profile) (n : ℕ)
    → (parse k req b profile).1 ≡ ok n
    → let r = (parse k req b profile).0 in
      (framing_of r.content_length_lines r.transfer_encoding_lines profile
        ≢ err bad_transfer_encoding)
      × (framing_of r.content_length_lines r.transfer_encoding_lines profile ≡ err ambiguous_framing
          → (r.content_length_lines ≢ []) × (r.transfer_encoding_lines ≢ []))
parse-framing_of k req b profile n e =
    let f = parse-IsFramable k req b profile n e in
    framing_of-Single _ _ profile f.codings f.lengths
