-- ===== src/Proxy/Http/Tests.antt =====
-- Requests that are run, and the properties at a request.
use exfiltrate.Common.{[], ◌∷◌, ◌++◌, ◌≡◌, refl}
use exfiltrate.Common.Text.{text, text_eq}
use exfiltrate.Proxy.Http.{
  HttpParser, new, not_found, out_of_range, websocket, push, pop, split_on, header_section,
  parse_headers, judge, pop_request, pop_section,
}
use exfiltrate.Proxy.Http.Request.{join, pop-upgrade, pop_cut}
use exfiltrate.Proxy.Http.Samples.{
  request_line, header_lines, request_line-IsLine, upgrade_line-IsLine, key_line-IsLine, asks,
}

abbrev asked_for : HttpParser
asked_for = record { buf = join (request_line ∷ header_lines) ++ text "\r\n" ++ (1 ∷ 2 ∷ []) }

pop-upgrade_example :
    pop asked_for
    ≡ (websocket (record { key = text "abc=="; leftover_bytes = 1 ∷ 2 ∷ [] }), asked_for)
pop-upgrade_example =
    pop-upgrade asked_for request_line header_lines (text "abc==") (1 ∷ 2 ∷ [])
      (request_line-IsLine, (upgrade_line-IsLine, (key_line-IsLine, tt))) asks refl

pop_cut_example :
    ((pop (record { buf = join (request_line ∷ header_lines) })).0 ≡ out_of_range)
    × ((pop (record { buf = join (request_line ∷ header_lines) ++ text "\r" })).0 ≡ out_of_range)
pop_cut_example =
    pop_cut request_line header_lines (text "abc==")
      (request_line-IsLine, (upgrade_line-IsLine, (key_line-IsLine, tt))) asks

-- Another path is not found, and the buffer is emptied.
not_found_test : pop (push (text "GET /x HTTP/1.1\r\n\r\n") new) ≡ (not_found, new)
unfolding push pop pop_section pop_request judge split_on header_section parse_headers text_eq
not_found_test = refl
