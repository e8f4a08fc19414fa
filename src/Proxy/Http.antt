-- ===== src/Proxy/Http.antt =====
-- exfiltrate_proxy/src/websocket.rs: the request of the browser that opens the WebSocket. Text is
-- ASCII: `from_utf8_lossy` keeps it, and `trim` and `to_lowercase` change no other characters.
mod Tests
pub mod Request
pub mod Samples
use exfiltrate.Common.{ℕ, ◌+◌, List, [], ◌∷◌, ◌++◌, length, drop, Bool, true, false, ◌&&◌, ◌||◌}
use exfiltrate.Common.{Option, none, some, ltb, leb, ◌==◌, if◌then◌else◌}
use exfiltrate.Common.Text.{Text, text, text_eq}

pub record WebsocketInfo : Type 0 where
  pub key : Text
  pub leftover_bytes : List ℕ

-- `out_of_range` is the panic of a slice that starts behind the end of the buffer.
pub data HttpParseResult : Type 0 where
  not_ready not_found out_of_range : HttpParseResult
  rejected : Text → HttpParseResult
  websocket : WebsocketInfo → HttpParseResult

pub record HttpParser : Type 0 where
  pub buf : List ℕ

-- `HTTPParser::new`
abbrev pub new : HttpParser
new = record { buf = [] }

unfoldable pub push : List ℕ → HttpParser → HttpParser
push data_bytes p = record p { buf = p.buf ++ data_bytes }

-- A byte in front of the first line.
abbrev pub prepend : ℕ → List (List ℕ) → List (List ℕ)
prepend b [] = (b ∷ []) ∷ []
prepend b (l ∷ ls) = (b ∷ l) ∷ ls

-- `split` at every occurrence of a byte.
unfoldable pub split_on : ℕ → List ℕ → List (List ℕ)
split_on sep [] = [] ∷ []
split_on sep (b ∷ bs) = let rest = split_on sep bs in if b == sep then [] ∷ rest else prepend b rest

abbrev pub push_line : List ℕ → Option (List (List ℕ) × ℕ) → Option (List (List ℕ) × ℕ)
push_line line none = none
push_line line (some (lines, pos)) = some (line ∷ lines, length line + 1 + pos)

-- The lines before the blank line, and the position behind it.
unfoldable pub header_section : List (List ℕ) → Option (List (List ℕ) × ℕ)
header_section [] = none
header_section (line ∷ lines) =
    let rest = header_section lines in
    if text_eq line []
    then some ([], 1)
    else if text_eq line (b'\r' ∷ [])
    then some ([], 2)
    else push_line line rest

is_whitespace : ℕ → Bool
is_whitespace c = (leb 9 c && leb c 13) || c == 32

trim_start : Text → Text
unfolding is_whitespace
trim_start [] = []
trim_start (c ∷ s) = if is_whitespace c then trim_start s else c ∷ s

add_trimmed : ℕ → Text → Text
unfolding is_whitespace
add_trimmed c [] = if is_whitespace c then [] else c ∷ []
add_trimmed c (d ∷ s) = c ∷ d ∷ s

trim_end : Text → Text
unfolding add_trimmed
trim_end [] = []
trim_end (c ∷ s) = add_trimmed c (trim_end s)

unfoldable pub trim : Text → Text
unfolding trim_start trim_end
trim s = trim_end (trim_start s)

unfoldable pub to_lowercase : Text → Text
to_lowercase [] = []
to_lowercase (c ∷ s) = (if leb 65 c && leb c 90 then c + 32 else c) ∷ to_lowercase s

-- `splitn(2, ':')`: what stands before the first colon and after it.
unfoldable pub split_colon : List ℕ → Option (List ℕ × List ℕ)
split_colon [] = none
split_colon (b ∷ bs) =
    let rest = split_colon bs in if b == 58 then some ([], bs) else before_colon b rest
  where
    before_colon : ℕ → Option (List ℕ × List ℕ) → Option (List ℕ × List ℕ)
    before_colon c none = none
    before_colon c (some (key, val)) = some (c ∷ key, val)

-- The `HashMap`, the latest insertion first.
insert_header :
    List (Text × Text)
    → Option (List ℕ × List ℕ)
    → (List (Text × Text) → Option (List (Text × Text)))
    → Option (List (Text × Text))
insert_header headers none next = none
insert_header headers (some (key, val)) next = next ((to_lowercase (trim key), trim val) ∷ headers)

unfoldable pub parse_headers : List (Text × Text) → List (List ℕ) → Option (List (Text × Text))
unfolding insert_header
parse_headers headers [] = some headers
parse_headers headers (line ∷ lines) =
    insert_header headers (split_colon line) (λ h. parse_headers h lines)

-- `headers.get(key)`, or the empty string.
unfoldable pub get_or_empty : Text → List (Text × Text) → Text
get_or_empty key [] = []
get_or_empty key ((k, val) ∷ headers) =
    let rest = get_or_empty key headers in if text_eq k key then val else rest

-- The key goes to the handshake, and what follows the request to the frame parser.
unfoldable pub upgrade : HttpParser → ℕ → Text → HttpParseResult × HttpParser
upgrade p pos key =
    if ltb (length p.buf) pos
    then (out_of_range, p)
    else (websocket (record { key = key; leftover_bytes = drop pos p.buf }), p)

-- Every refusal clears the buffer.
unfoldable pub judge :
    HttpParser
    → ℕ
    → Text
    → List ℕ
    → List ℕ
    → Option (List (Text × Text))
    → HttpParseResult × HttpParser
judge p pos request_line method url none =
    (rejected (text "Invalid header line: " ++ request_line), new)
judge p pos request_line method url (some headers) =
    if text_eq url (text "/")
    then (if text_eq method (text "GET")
          && text_eq (get_or_empty (text "upgrade") headers) (text "websocket")
        then upgrade p pos (get_or_empty (text "sec-websocket-key") headers)
        else (rejected (text "request " ++ p.buf), new))
    else (not_found, new)

unfoldable pub pop_request :
    HttpParser
    → ℕ
    → Text
    → List (List ℕ)
    → Option (List (Text × Text))
    → HttpParseResult × HttpParser
pop_request p pos request_line (method ∷ url ∷ version ∷ more) headers =
    judge p pos request_line method url headers
pop_request p pos request_line _ headers =
    (rejected (text "Invalid request line: " ++ request_line), new)

unfoldable pub pop_section : HttpParser → Option (List (List ℕ) × ℕ) → HttpParseResult × HttpParser
pop_section p none = (not_ready, p)
pop_section p (some ([], pos)) = (rejected (text "No request line found"), new)
pop_section p (some (request_line ∷ lines, pos)) =
    pop_request p pos request_line (split_on 32 request_line) (parse_headers [] lines)

-- `HTTPParser::pop`
unfoldable pub pop : HttpParser → HttpParseResult × HttpParser
pop p = pop_section p (header_section (split_on b'\n' p.buf))
