-- ===== src/Browser/Handshake.antt =====
-- exfiltrate/src/wire/server/wasm32.rs: `debug_ws_handshake_in_worker`, which asks for the WebSocket
-- address over HTTP after a socket has failed.
use exfiltrate.Common.{[], ◌∷◌, ◌++◌, Bool, true, false, ◌==◌, ◌&&◌, if◌then◌else◌, drop, length}
use exfiltrate.Common.{◌≡◌, refl, ap}
use exfiltrate.Common.Text.{Text, text}

-- `str::starts_with`
starts_with : Text → Text → Bool
starts_with s [] = true
starts_with [] (c ∷ prefix) = false
starts_with (d ∷ s) (c ∷ prefix) = d == c && starts_with s prefix

-- `replacen(from, to, 1)` where the text starts with `from`.
replace_front : Text → Text → Text → Text
replace_front s from to = to ++ drop (length from) s

http_url : Text → Text
unfolding starts_with replace_front
http_url ws_url =
    if starts_with ws_url (text "ws://")
    then replace_front ws_url (text "ws://") (text "http://")
    else if starts_with ws_url (text "wss://")
    then replace_front ws_url (text "wss://") (text "https://")
    else ws_url

-- What the browser answers: to the request object, to the fetch, and to the two steps that read the
-- body. The errors are JavaScript values, which are not looked into.
pub data BodyText : Type 0 where
  no_text no_body : BodyText
  body : Text → BodyText

pub data Fetched : Type 0 where
  fetch_error : Fetched
  not_a_response : Fetched
  fetched : BodyText → Fetched

pub data Answer : Type 0 where
  no_worker : Answer
  bad_request : Answer
  requested : Fetched → Answer

-- The `Result<(), JsValue>`, or a panic.
pub data Debugged : Type 0 where
  done failed panicked : Debugged

read_body : BodyText → Debugged
read_body no_text = failed
read_body no_body = failed
read_body (body t) = done

read_response : Fetched → Debugged
unfolding read_body
read_response fetch_error = done
read_response not_a_response = failed
read_response (fetched b) = read_body b

after_request : Answer → Debugged
unfolding read_response
after_request no_worker = panicked
after_request bad_request = failed
after_request (requested f) = read_response f

-- The browser is a function from the address to its answer.
debug_ws_handshake_in_worker : (Text → Answer) → Text → Debugged
unfolding after_request http_url
debug_ws_handshake_in_worker browser ws_url = after_request (browser (http_url ws_url))

-- `.await.unwrap()` in the error callback.
unwrap : Debugged → Debugged
unwrap done = done
unwrap failed = panicked
unwrap panicked = panicked

abbrev web_addr : Text
web_addr = text "ws://localhost:1338"

debug_failed_socket : (Text → Answer) → Debugged
unfolding unwrap
debug_failed_socket browser = unwrap (debug_ws_handshake_in_worker browser web_addr)

-- The fetch goes to the HTTP address of the same host, port and path.
http_url-ws : (rest : Text) → http_url (text "ws://" ++ rest) ≡ text "http://" ++ rest
unfolding http_url starts_with replace_front
http_url-ws rest = refl

http_url-wss : (rest : Text) → http_url (text "wss://" ++ rest) ≡ text "https://" ++ rest
unfolding http_url starts_with replace_front
http_url-wss rest = refl

-- A proxy that is not there is reported and no more: the fetch fails, and nothing panics.
debug_failed_socket_refused :
    (browser : Text → Answer)
    → browser (text "http://localhost:1338") ≡ requested fetch_error
    → debug_failed_socket browser ≡ done
unfolding debug_failed_socket debug_ws_handshake_in_worker after_request unwrap
debug_failed_socket_refused browser e = ap (λ a. unwrap (after_request a)) e
