-- ===== src/Proxy/Bridge.antt =====
-- exfiltrate_proxy/src/main.rs, tcp.rs and websocket.rs: the threads of the proxy together, as a
-- step relation. The threads share two channels and the list of clients, and take turns in any
-- order; each step is what one thread does between two looks at what is shared.
mod Tests
pub mod Writers
pub mod Rounds
pub mod Down
pub mod Readers
pub mod Up
pub mod Drain
pub mod Gather
pub mod Carrying
pub mod Serving
pub mod Start
pub mod Heard
pub mod Flush
use exfiltrate.Common.{
  ℕ, ◌+◌, ◌<◌, List, [], ◌∷◌, ◌++◌, Bool, true, false, ◌==◌, none, some, ◌≡◌, ◌≢◌,
}
use exfiltrate.Common.{if◌then◌else◌}
use exfiltrate.Common.Table.{update}
use exfiltrate.Stream.{Outcome, ok, err, panic, IoError, TcpStream, WriteEvent}
use exfiltrate.Loop.{Thread, running}
use exfiltrate.Wire.{InFlightMessage, new, send_socket_frame}
use exfiltrate.Proxy.Tcp.{Channel, Client, broadcast, register, hang_up, Reader, reader_round}
use exfiltrate.Proxy.Tcp.Clients.{find, live}
use exfiltrate.Proxy.Socket.{
  Websocket, Progress, waiting, crashed, returned, failed_with, read, ws_frame,
}
use exfiltrate.Common.Text.{Text}
use exfiltrate.Proxy.Handshake.{
  write_all, Handshake, do_http_stream, Opened, opened, died, refused, waiting as unopened,
}

-- Whether the threads that accept clients and browsers go on (the latter owns the receiver of
-- `to_websocket`); the clients that are registered; by their tags, which of them were ever accepted,
-- their streams and whether their reader threads go on; by their number, the browsers that have connected and whether
-- the threads that read them go on; the channels `from_websocket` and `to_websocket`; and the stream
-- to the last browser, with what was written to it, while the write loop on it goes on.
pub record Bridge : Type 0 where
  pub accepting : Bool
  pub serving : Bool
  pub clients : List Client
  pub accepted : ℕ → Bool
  pub streams : ℕ → TcpStream
  pub in_flight : ℕ → InFlightMessage
  pub reading : ℕ → Bool
  pub browsers : ℕ → Websocket
  pub opened : ℕ
  pub listening : ℕ → Bool
  pub from_websocket : List (List ℕ)
  pub to_websocket : List (List ℕ)
  pub writing : Bool
  pub writes : List WriteEvent
  pub sent : List ℕ

-- What a step shows: a browser's message is read, a client's message is forwarded, a client joins
-- or leaves, the browser's stream breaks or a new one is opened, the thread that accepts browsers
-- panics, or nothing of that kind.
pub data Label : Type 0 where
  heard : ℕ → List ℕ → Label
  forwarded : ℕ → List ℕ → Label
  came gone : ℕ → Label
  broke connected halted inner : Label

abbrev pub behind_first : List (List ℕ) → List (List ℕ)
behind_first [] = []
behind_first (msg ∷ queue) = queue

-- An error or a panic.
abbrev pub IsFailure : Outcome (Unit {0}) → Type 0
IsFailure (ok _) = ⊥
IsFailure (err e) = Unit
IsFailure panic = Unit

-- `Websocket::read` returns an error or panics.
abbrev pub IsEnd : Progress → Type 0
IsEnd waiting = ⊥
IsEnd crashed = Unit
IsEnd (returned message) = ⊥
IsEnd (failed_with e) = Unit

-- A handshake that panics, or one that has opened a stream, which must then be cloned.
abbrev pub MayHalt : Opened → Type 0
MayHalt unopened = ⊥
MayHalt refused = ⊥
MayHalt died = Unit
MayHalt (opened w) = Unit

-- `for msg in rx`: the writer thread of a client takes the first message of its channel.
unfoldable pub take_front : ℕ → List Client → List Client
take_front tag [] = []
take_front tag (c ∷ cs) =
    let rest = take_front tag cs in
    if c.tag == tag
    then record c { channel = record c.channel { queue = behind_first c.channel.queue } } ∷ cs
    else c ∷ rest

-- The reader thread of a client, on what is shared.
abbrev pub reader_of : Bridge → ℕ → Reader
reader_of b tag = record {
  in_flight_message = b.in_flight tag;
  stream = b.streams tag;
  to_websocket = record { queue = b.to_websocket; connected = b.serving };
}

-- What is shared, after a round of that thread.
abbrev pub after_reader : Bridge → ℕ → Reader → Bridge
after_reader b tag r = record b {
  streams = update b.streams tag r.stream;
  in_flight = update b.in_flight tag r.in_flight_message;
  to_websocket = r.to_websocket.queue;
}

pub data Step (b : Bridge) : Label → Bridge → Type 0 where
  -- A client is accepted and registered.
  joins :
      (tag : ℕ) (stream : TcpStream)
      → b.accepting ≡ true
      → b.accepted tag ≡ false
      → find tag b.clients ≡ none
      → Step b (came tag) (record b {
        clients = register tag b.clients;
        accepted = update b.accepted tag true;
        streams = update b.streams tag stream;
        in_flight = update b.in_flight tag new;
        reading = update b.reading tag true;
      })
  -- The listener has an error, and the thread that accepts clients panics.
  stops_accepting :
      (e : IoError) → b.accepting ≡ true → Step b inner (record b { accepting = false })
  -- The stream of a client that is registered cannot be cloned, and that thread panics: the client
  -- gets no threads, and the receiver of its channel is gone.
  cannot_join :
      (tag : ℕ)
      → b.accepting ≡ true
      → b.accepted tag ≡ false
      → find tag b.clients ≡ none
      → Step b inner
          (record b { accepting = false; clients = hang_up tag (register tag b.clients) })
  -- The thread that reads a browser's stream: `from_ws_send.send(reply)`.
  reads :
      (k rounds : ℕ) {message : List ℕ} {w : Websocket}
      → b.listening k ≡ true
      → read rounds (b.browsers k) ≡ (returned message, w)
      → Step b (heard k message) (record b {
        browsers = update b.browsers k w;
        from_websocket = b.from_websocket ++ message ∷ [];
      })
  -- That thread ends with an error of the stream or a panic.
  stops_listening :
      (k rounds : ℕ) {p : Progress} {w : Websocket}
      → b.listening k ≡ true
      → read rounds (b.browsers k) ≡ (p, w)
      → IsEnd p
      → Step b inner
          (record b { browsers = update b.browsers k w; listening = update b.listening k false })
  -- The distributor: `from_websocket.recv()`.
  distributes :
      (message : List ℕ) (rest : List (List ℕ))
      → b.from_websocket ≡ message ∷ rest
      → Step b inner (record b { clients = broadcast message b.clients; from_websocket = rest })
  -- The writer thread of a client sends a message, or fails and ends.
  writes_client :
      (tag : ℕ) (message : List ℕ) (queue : List (List ℕ)) {s : TcpStream}
      → find tag b.clients ≡ some (live (message ∷ queue))
      → send_socket_frame message (b.streams tag) ≡ (ok tt, s)
      → Step b inner
          (record b { clients = take_front tag b.clients; streams = update b.streams tag s })
  fails_client :
      (tag : ℕ) (message : List ℕ) (queue : List (List ℕ)) {r : Outcome (Unit {0})} {s : TcpStream}
      → find tag b.clients ≡ some (live (message ∷ queue))
      → send_socket_frame message (b.streams tag) ≡ (r, s)
      → IsFailure r
      → Step b (gone tag) (record b {
        clients = hang_up tag (take_front tag b.clients);
        streams = update b.streams tag s;
      })
  -- A round of the reader thread of a client, with nothing to forward or with a message.
  waits :
      (tag : ℕ) (r : Reader)
      → b.reading tag ≡ true
      → reader_round (reader_of b tag) ≡ (running, r)
      → r.to_websocket.queue ≡ b.to_websocket
      → Step b inner (after_reader b tag r)
  forwards :
      (tag : ℕ) (message : List ℕ) (r : Reader)
      → b.reading tag ≡ true
      → reader_round (reader_of b tag) ≡ (running, r)
      → r.to_websocket.queue ≡ b.to_websocket ++ message ∷ []
      → Step b (forwarded tag message) (after_reader b tag r)
  -- That thread ends.
  stops_reading :
      (tag : ℕ) (r : Reader) {end : Thread}
      → b.reading tag ≡ true
      → reader_round (reader_of b tag) ≡ (end, r)
      → end ≢ running
      → Step b inner (record (after_reader b tag r) { reading = update b.reading tag false })
  -- The write loop on the browser's stream: `send_data_receiver.recv()`; where the write fails, the
  -- message is gone and the loop ends.
  writes_browser :
      (message bytes : List ℕ) (rest : List (List ℕ)) {ws : List WriteEvent} {written : List ℕ}
      → b.writing ≡ true
      → b.to_websocket ≡ message ∷ rest
      → ws_frame message ≡ ok bytes
      → write_all b.writes bytes ≡ (ok tt, ws, written)
      → Step b inner (record b { to_websocket = rest; writes = ws; sent = b.sent ++ written })
  fails_browser :
      (message bytes : List ℕ) (rest : List (List ℕ)) {e : IoError} {ws : List WriteEvent}
      {written : List ℕ}
      → b.writing ≡ true
      → b.to_websocket ≡ message ∷ rest
      → ws_frame message ≡ ok bytes
      → write_all b.writes bytes ≡ (err e, ws, written)
      → Step b broke
          (record b { to_websocket = rest; writing = false; writes = ws; sent = b.sent ++ written })
  -- The next browser has finished its handshake; the threads of the browsers before it read on.
  opens :
      (sha1_base64 : Text → Text) (rounds : ℕ) (s : Handshake) {s' : Handshake} {w : Websocket}
      → b.serving ≡ true
      → b.writing ≡ false
      → do_http_stream sha1_base64 rounds s ≡ (opened w, s')
      → Step b connected (record b {
        browsers = update b.browsers b.opened w;
        opened = b.opened + 1;
        listening = update b.listening b.opened true;
        writing = true;
        writes = s'.stream.writes;
        sent = [];
      })
  -- The handshake panics, or the stream that it has opened cannot be cloned, and with it the thread
  -- that accepts browsers: what waits for the browsers is gone.
  halts :
      (sha1_base64 : Text → Text) (rounds : ℕ) (s : Handshake) {x : Opened} {s' : Handshake}
      → b.serving ≡ true
      → b.writing ≡ false
      → do_http_stream sha1_base64 rounds s ≡ (x, s')
      → MayHalt x
      → Step b halted (record b { serving = false; to_websocket = [] })

-- Steps in any number, with what they show.
pub data Run : Bridge → List Label → Bridge → Type 0 where
  here : {b : Bridge} → Run b [] b
  next :
      {b b' b'' : Bridge} {l : Label} {ls : List Label}
      → Step b l b'
      → Run b' ls b''
      → Run b (l ∷ ls) b''
