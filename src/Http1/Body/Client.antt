-- ===== src/Http1/Body/Client.antt =====
-- A client of the body reader, such as `io.ReadAll`: it calls `Read` with buffers of any sizes until
-- an error comes.
use simdhttp.Common.{ℕ, ◌<◌, none, some, List, [], ◌∷◌, ◌++◌, Bytes}
use simdhttp.Common.Int64.{IsNonneg}
use simdhttp.Http1.Body.{Outcome, read}
use simdhttp.Http1.Reader.{BodyReader}

abbrev pub prepend_got : Bytes → Outcome → Outcome
prepend_got got (b, more, e) = (b, got ++ more, e)

abbrev pub read_more : (BodyReader → Outcome) → Outcome → Outcome
read_more again (b, got, none) = prepend_got got (again b)
read_more again (b, got, some e) = (b, got, some e)

-- The sizes of the buffers, in order.
unfoldable pub read_all : List ℕ → BodyReader → Outcome
read_all [] b = (b, [], none)
read_all (k ∷ ks) b = read_more (read_all ks) (read k b)

-- A buffer that is not empty, of a length that is an int.
abbrev pub IsBuffer : ℕ → Type 0
IsBuffer k = (0 < k) × IsNonneg k
