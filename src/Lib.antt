-- ===== src/Lib.antt =====
-- A verification library for simdhttp: its HTTP/1.x request parsers, its body reader, its router, its
-- query accessors and its error adapter.
--
-- The program. `Parse` (http1/parser.go) reads one request head from a byte slice and keeps the raw
-- Content-Length and Transfer-Encoding lines. `FramingOf` (http1/framing.go) decides from those
-- lines how the body is delimited, with the same `ValidTransferEncoding` that `Parse` uses.
-- `NewBodyReader` and `Read` (http1/body.go) serve exactly that body from the connection, and
-- `Close` drains what is left, so that the connection is at the next request. The router
-- (router.go) matches a request's path against a table of patterns that `Build` checks for conflicts
-- and compiles into one trie for each host; `ServeHTTP` walks a trie and runs the handler it finds.
-- Beside them stand a second head parser (parser.go), accessors of the query (helpers.go) and an adapter
-- that turns a handler's error into a status (wrap.go).
--
-- The files.
--   Common: Boolean tests, byte strings and lists over the native numbers, int64 arithmetic
--     (Common.Int64), accumulating digit loops with an overflow guard (Common.Numerals), and the
--     hexadecimal digits as a table (Common.Digits), which is apart from the switches of the source.
--   Http1.Errors: the error values of http1 and io. `stuck` is no Go value: it is what a loop of the
--     model answers when it runs out of fuel.
--   Http1.Chars: `isHex`, `tokenOnly`, `validToken`, `validFieldValue`, the trimming loops,
--     `bytes.EqualFold` for an ASCII second argument, `ValidTransferEncoding`.
--   Http1.Simd: the kernels of github.com/sebishogun/simd, a module outside this repository, as
--     parameters with the laws that its calls rely on.
--   Http1.Parser: `Parse`, cut into the parts that its comments name; the inner loops `scan_tabs`
--     and `walk_ends`, the locals of the walk as the record `Walk`.
--   Http1.Framing: `FramingOf` and `parseContentLength`.
--   Http1.Conn: what `bufio.Reader` and `io.ReadFull` do for the body reader. A connection is the bytes
--     still to come, a schedule of grants (how many bytes one `Read` may hand out, and whether the
--     last bytes come with the error), the error at the end, and the size of the buffer.
--   Http1.Reader: `Limits`, `BodyReader` and `NewBodyReader`.
--   Http1.Lines, Http1.Chunks: `readLine`, `parseHexInt64`, `readChunkHeader`, `expectCRLF`,
--     `readTrailers`.
--   Http1.Body: `Read` with `readFixed` and `readChunked`, and `Close`.
--   Head: `Parse` of parser.go in the root package, which http1 does not use; its two errors are those of
--     the same names in Http1.Errors. Head.Kept and Head.Agreement compare it with the parser of http1.
--   Router: `combineRel`, `compareSegs`, `comparePaths` and the test of `pairwise`; Router.Sets and
--     Router.Segments say what they are about, sets of paths as lists of decoded segments;
--     Router.Escapes is `decodeSegment`.
--   Router.Patterns: `parsePattern`, `parseSegment` and `isToken`.
--   Router.Methods: `commonMethodID`, `assignMethodIDs` and `methodID`.
--   Router.Tree: the nodes, `insert` along the segments, `serves` and `matchSegments`. A map is an
--     association list, an `http.Handler` a number, and the array of values that a walk writes is
--     handed on from branch to branch. Its child modules say what a node's pattern is and prove what
--     the walk finds.
--   Router.Table: `insert` on the tries of all hosts, and the loop of `Build` over the routes.
--   Router.Allow, Router.Serve: `allowValue` with `collectMethods`, and `ServeHTTP`, whose answers are
--     the values of a data type: what net/http then writes is not followed. `strings.ToLower`,
--     `path.Clean` and the accessors of `url.URL` are parameters.
--   Router.Build: what `Build` makes of the routes that were parsed, and the way from the routes to
--     the handler that runs. Router.Build.Verdict says what a table answers, Router.Build.Keys what host
--     `hostRoot` looks up, and Router.Build.Hosts joins them.
--   Query: `queryLookup`, `unescapeQuery` and the accessors built on them (helpers.go), with `strconv` as
--     parameters.
--   Wrap: `ErrorAdapter.Wrap`, `DefaultErrorMapper`, `startTracker` and `trackerFor` (wrap.go). What a
--     handler calls is a list that may depend on the type it is given. A call goes through the tracker,
--     or around it, to the writer that `Unwrap` returns, and then leaves no mark; `errors.Is` is a
--     parameter.
--   Tests: concrete runs.
--
-- Integers. The int64 counters are bit patterns below 2^64 with Go's wrap-around (add64, sub64,
-- mul64) and the signed order lt64. Lengths of slices, and the limits that are ints, are natural
-- numbers; they are taken to be so small that a limit plus a small constant does not overflow, and the
-- limits and lengths that a caller chooses are taken to be non-negative.
--
-- Fuel. `scan_tabs` gets one more than the length of the value, `read_line` one more than the bytes on
-- the connection, `read_fixed` one more than the grants, and `read_chunked` a number from both: each
-- round takes a byte or a grant, or goes from one state of the chunk grammar to the next. `ReadSlice`
-- and `io.ReadFull` call the connection until they have what they want, so they use no grants. The loop
-- of `Close` gets one more than the bytes on the connection: each `Read` that it goes on after takes one.
-- `matchSegments`, `collectMethods` and the loop of `parsePattern` get one more than the length of what
-- they walk: each round takes a slash off it.
--
-- What is left out. The scratch slices whose content is never read before it is written (`line`; of
-- `lineEnds` only the capacity counts), the text of errors, `Kind.String`, the accessors. Trailers are
-- a list of canonical keys with values in the order of `Header.Add`. Not modelled are the JSON and form
-- helpers (helpers.go), which call other libraries, and in router.go the registration calls, the
-- grouping of `detectConflicts` and the errors of `Build`.
pub mod Common
pub mod Head
pub mod Http1
pub mod Query
pub mod Router
pub mod Tests
pub mod Wrap
