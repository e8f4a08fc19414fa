-- ===== src/Proxy/Handshake/Tests.antt =====
-- A handshake that is run: the request comes in two reads, with two bytes of a frame behind it.
use exfiltrate.Common.{arith, ℕ, List, [], ◌∷◌, ◌++◌, drop, length, refl}
use exfiltrate.Common.Text.{Text, text}
use exfiltrate.Stream.{ready, takes, refuses, interrupted}
use exfiltrate.Proxy.Http.{new}
use exfiltrate.Proxy.Http.Request.{join}
use exfiltrate.Proxy.Http.Samples.{
  request_line, upgrade_line, header_lines, request_line-IsLine, upgrade_line-IsLine,
  key_line-IsLine, asks,
}
use exfiltrate.Proxy.Handshake.{Handshake, response, do_http_stream}
use exfiltrate.Proxy.Handshake.Opening.{Opens, do_http_stream-Opens}

-- In the place of the hash.
abbrev same_text : Text → Text
same_text key = key

abbrev first_read : List ℕ
first_read = join (request_line ∷ []) ++ upgrade_line

abbrev last_read : List ℕ
last_read =
    drop (length first_read) (join (request_line ∷ header_lines) ++ text "\r\n" ++ (1 ∷ 2 ∷ []))

abbrev start : Handshake
start = record {
  http_parse = new;
  stream = record {
    reads = ready first_read ∷ ready last_read ∷ [];
    writes = takes 100 ∷ refuses interrupted ∷ [];
    sent = [];
  };
}

do_http_stream-Opens_example :
    Opens same_text
      (do_http_stream same_text 2 start)
      (1 ∷ 2 ∷ [])
      []
      (response same_text (text "abc=="))
do_http_stream-Opens_example =
    do_http_stream-Opens same_text 2 start (first_read ∷ []) last_read [] request_line header_lines
      (text "abc==") (1 ∷ 2 ∷ []) refl (omega arith, tt) (omega arith)
      (
        record {
          lines = request_line ∷ [];
          partial = upgrade_line;
          whole_lines = (request_line-IsLine, tt);
          last_line = upgrade_line-IsLine;
          split = refl;
        },
        tt,
      )
      (tt, (tt, tt)) (request_line-IsLine, (upgrade_line-IsLine, (key_line-IsLine, tt))) asks refl
      (omega arith)
