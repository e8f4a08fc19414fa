-- ===== src/System.antt =====
-- The tool, the proxy and the program in the browser together: the client of
-- exfiltrate_cli/src/wire/client.rs at one end of the threads that exfiltrate_proxy/src/main.rs
-- starts, the callback `onmessage` of exfiltrate/src/wire/server/wasm32.rs at the other.
mod Tests
pub mod Samples
pub mod Requests
pub mod Replies
pub mod Answers
pub mod Call
pub mod Carried
use exfiltrate.Common.{ℕ, List, [], ◌∷◌, ◌++◌, All, true, some, ◌≡◌}
use exfiltrate.Common.{◌<◌, ◌^◌, length}
use exfiltrate.Stream.{Outcome, ok, err, panic, ReadEvent, available}
use exfiltrate.Wire.{InFlightMessage}
use exfiltrate.Wire.Delivery.{IsQuiet, FitsBuffer, work_left}
use exfiltrate.Rpc.{Codec}
use exfiltrate.Server.{Host}
use exfiltrate.Browser.{on_message}
use exfiltrate.Proxy.Tcp.Clients.{find, live}
use exfiltrate.Proxy.Bridge.{Bridge, Label, Run}
use exfiltrate.Proxy.Bridge.Serving.{Serves}
use exfiltrate.Proxy.Bridge.Rounds.{forwarded_by}
use exfiltrate.Proxy.Socket.Delivery.{IsPatient}
use exfiltrate.Proxy.Socket.Arrivals.{Message, IsMessage, bytes_of}
use exfiltrate.Proxy.Bridge.Heard.{heard_by}
use exfiltrate.Proxy.Bridge.Down.{heard_messages, Remains}
use exfiltrate.Proxy.Bridge.Up.{forwarded_messages, Lasts}

-- The next message is dealt with only where the callback has returned.
unfoldable pub and_then :
    Outcome (List (List ℕ)) → Outcome (List (List ℕ)) → Outcome (List (List ℕ))
and_then (ok sent) (ok more) = ok (sent ++ more)
and_then (ok sent) (err e) = err e
and_then (ok sent) panic = panic
and_then (err e) later = err e
and_then panic later = panic

-- `onmessage` on one message after the other: all that it sends.
unfoldable pub answers : Codec → Host → List (List ℕ) → Outcome (List (List ℕ))
unfolding and_then
answers codec h [] = ok []
answers codec h (message ∷ messages) =
    let rest = answers codec h messages in and_then (on_message codec h message) rest

-- A run of the proxy that carries what a client writes: the bytes `sent` are with the proxy or come
-- to it with no read failing, neither the browser's stream nor the thread that serves it breaks, and no
-- other client has anything forwarded. At the beginning nothing waits for the browser or was written
-- to it, and at the end everything has been read and written.
pub record ReachesBrowser (tag : ℕ) (b b' : Bridge) (ls : List Label) (sent : List ℕ) : Type 0 where
  pub accepted : b.accepted tag ≡ true
  pub serving : b.serving ≡ true
  pub serves : Serves ls
  pub writing : b.writing ≡ true
  pub lasts : Lasts ls
  pub comes : (b.in_flight tag).bytes ++ available (b.streams tag).reads ≡ sent
  pub small : length (b.in_flight tag).bytes < 2 ^ 32
  pub quiet : All IsQuiet (b.streams tag).reads
  pub alone : forwarded_messages ls ≡ forwarded_by tag ls
  pub none_waits : b.to_websocket ≡ []
  pub none_written : b.sent ≡ []
  pub all_read : work_left (b'.in_flight tag) (b'.streams tag).reads ≡ 0
  pub all_written : b'.to_websocket ≡ []

-- A run of the proxy that carries what it hears from the browsers to a client that stays: at the
-- beginning nothing waits for the client or was written to it, and at the end everything is
-- written. The client, which holds nothing yet, reads what was written, with no read failing.
pub record ReachesClient (tag : ℕ) (b b' : Bridge) (ls : List Label) (m : InFlightMessage)
    (reads : List ReadEvent) : Type 0 where
  pub registered : find tag b.clients ≡ some (live [])
  pub none_heard : b.from_websocket ≡ []
  pub none_sent : (b.streams tag).sent ≡ []
  pub stays : Remains tag ls
  pub all_taken : find tag b'.clients ≡ some (live [])
  pub all_distributed : b'.from_websocket ≡ []
  pub fresh : m.bytes ≡ []
  pub comes : available reads ≡ (b'.streams tag).sent
  pub quiet : All IsQuiet reads
  pub fits : All FitsBuffer (heard_messages ls)

-- A run of the proxy that carries what a page answers: its browser sends the messages in frames, and
-- the bytes are with the proxy or come to it with no read failing; nothing is heard from other
-- browsers, and at the end everything has been read.
pub record PageAnswers (page : ℕ) (b b' : Bridge) (ls : List Label) (messages : List Message)
    : Type 0 where
  pub connected : page < b.opened
  pub fresh : (b.browsers page).frame_parser.parsed_data ≡ []
  pub comes :
      (b.browsers page).frame_parser.unparsed_data ++ available (b.browsers page).reads
      ≡ bytes_of messages
  pub whole : All IsMessage messages
  pub patient : All IsPatient (b.browsers page).reads
  pub alone : heard_messages ls ≡ heard_by page ls
  pub all_read : available (b'.browsers page).reads ≡ []
  pub all_used : (b'.browsers page).frame_parser.unparsed_data ≡ []
