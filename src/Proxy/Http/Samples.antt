-- ===== src/Proxy/Http/Samples.antt =====
-- The request that the tests use.
use exfiltrate.Common.{ℕ, List, [], ◌∷◌, refl}
use exfiltrate.Common.Text.{text, text_eq}
use exfiltrate.Proxy.Http.{split_on, split_colon, parse_headers, get_or_empty, trim, to_lowercase}
use exfiltrate.Proxy.Http.Request.{IsLine, AsksUpgrade}

-- A request to open a WebSocket, as browsers send it.
abbrev pub request_line : List ℕ
request_line = text "GET / HTTP/1.1\r"

abbrev pub upgrade_line : List ℕ
upgrade_line = text "Upgrade:  websocket\r"

abbrev pub key_line : List ℕ
key_line = text "Sec-WebSocket-Key: abc==\r"

abbrev pub header_lines : List (List ℕ)
header_lines = upgrade_line ∷ key_line ∷ []

pub request_line-IsLine : IsLine request_line
unfolding text_eq
request_line-IsLine = record { unbroken = search; nonempty = refl; filled = refl }

pub upgrade_line-IsLine : IsLine upgrade_line
unfolding text_eq
upgrade_line-IsLine = record { unbroken = search; nonempty = refl; filled = refl }

pub key_line-IsLine : IsLine key_line
unfolding text_eq
key_line-IsLine = record { unbroken = search; nonempty = refl; filled = refl }

pub asks : AsksUpgrade request_line header_lines (text "abc==")
unfolding split_on parse_headers split_colon get_or_empty trim to_lowercase text_eq
asks = record {
  version = text "HTTP/1.1\r";
  more = [];
  headers = (text "sec-websocket-key", text "abc==") ∷ (text "upgrade", text "websocket") ∷ [];
  first_line = refl;
  named = refl;
  upgrades = refl;
  keyed = refl;
}
