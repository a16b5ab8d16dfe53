-- ===== src/Tests/RootHead.antt =====
-- The root package's parser (parser.go) on concrete inputs.
use simdhttp.Common.{◌≡◌, refl, true, false, [], ◌∷◌, ◌++◌, ◌/◌, ◌+◌, Bytes, codes}
use simdhttp.Head.Agreement.{Agrees, parse-Agrees}
use simdhttp.Head.Lines.{head_lines, head_block-head_lines}
use simdhttp.Head.Values.{passes_scan-scanned, scanned}
use simdhttp.Head.{HeadRequest, parse_head, head_block, passes_scan}
use simdhttp.Http1.Chars.{valid_field_value}
use simdhttp.Http1.Framing.{strict}
use simdhttp.Http1.Parser.{parse, clean_value, grow, scan_tabs}
use simdhttp.Tests.Head.{scalar, no_request, get}

abbrev no_head : HeadRequest
no_head = record { method = []; target = []; proto = []; headers = []; ends_cap = 0 }

-- A value of 64 bytes: a tab, a control byte, and letters.
abbrev late_control : Bytes
late_control = 9 ∷ 1 ∷ codes "abcdefghijklmnopqrstuvwxyzabcdefghijklmnopqrstuvwxyzabcdefghij"

late_controls : (passes_scan scalar late_control ≡ true) × (clean_value scalar late_control ≡ false)
unfolding passes_scan clean_value scan_tabs
late_controls = (refl, refl)

passes_scan-scanned_example :
    passes_scan scalar late_control ≡ valid_field_value (scanned late_control)
passes_scan-scanned_example = passes_scan-scanned scalar late_control

parse-Agrees_example : Agrees (parse scalar no_request get strict) (parse_head scalar no_head get)
parse-Agrees_example = parse-Agrees scalar strict no_request no_head get

abbrev one_field : Bytes
one_field = codes "Host: a" ++ 13 ∷ 10 ∷ 13 ∷ 10 ∷ []

head_block-head_lines_example :
    head_block scalar no_head 16 one_field
    ≡ head_lines scalar 12 16 one_field
        (record no_head { headers = []; ends_cap = grow 0 (11 / 2 + 1) })
head_block-head_lines_example = head_block-head_lines scalar no_head 16 one_field
