-- ===== src/Proxy/Tcp.antt =====
-- exfiltrate_proxy/src/tcp.rs: the distributor, and the reader and the writer thread of a client.
mod Tests
pub mod Relay
pub mod Clients
use exfiltrate.Common.{
  ℕ, suc, zero, List, [], ◌∷◌, ◌++◌, Bool, true, false, ◌==◌, ◌+◌, if◌then◌else◌,
}
use exfiltrate.Stream.{Outcome, ok, err, panic, TcpStream, ReadEvent}
use exfiltrate.Loop.{Thread, running, returned, crashed, loop}
use exfiltrate.Wire.{
  InFlightMessage, ReadStatus, completed, progress, blocked, read_stream, send_socket_frame,
}

-- A `std::sync::mpsc` channel: what waits in it, and whether its receiver is alive.
pub record Channel : Type 0 where
  pub queue : List (List ℕ)
  pub connected : Bool

-- `Sender::send`: whether it succeeded, and the channel after it.
unfoldable pub send : Channel → List ℕ → Bool × Channel
send c msg = if c.connected then (true, record c { queue = c.queue ++ msg ∷ [] }) else (false, c)

-- One element of `clients`, with a tag that tells the elements apart.
pub record Client : Type 0 where
  pub tag : ℕ
  pub channel : Channel

-- `clients_guard.retain(..)` in the distributor.
pub broadcast : List ℕ → List Client → List Client
broadcast msg [] = []
broadcast msg (c ∷ cs) =
    let rest = broadcast msg cs in
    let (sent, channel) = send c.channel msg in
    if sent then record c { channel = channel } ∷ rest else rest

-- `do_stream` registers the client's channel.
pub register : ℕ → List Client → List Client
register tag cs = cs ++ record { tag = tag; channel = record { queue = []; connected = true } } ∷ []

-- The writer thread of a client ends and drops its receiver.
pub hang_up : ℕ → List Client → List Client
hang_up tag [] = []
hang_up tag (c ∷ cs) =
    (if c.tag == tag
      then record c { channel = record { queue = c.channel.queue; connected = false } }
      else c)
    ∷ hang_up tag cs

-- The threads take the lock on `clients` in some order; each event is what one of them does.
pub data Event : Type 0 where
  joined : ℕ → Event
  received : List ℕ → Event
  left : ℕ → Event

pub handle : List Client → Event → List Client
unfolding register broadcast hang_up
handle cs (joined tag) = register tag cs
handle cs (received msg) = broadcast msg cs
handle cs (left tag) = hang_up tag cs

pub run : List Client → List Event → List Client
unfolding handle
run cs [] = cs
run cs (e ∷ es) = run (handle cs e) es

go_on_writing :
    (TcpStream → Outcome (Unit {0}) × TcpStream)
    → Outcome (Unit {0}) × TcpStream
    → Outcome (Unit {0}) × TcpStream
go_on_writing next (ok _, s) = next s
go_on_writing next (err e, s) = (err e, s)
go_on_writing next (panic, s) = (panic, s)

-- The writer thread: `for msg in rx`, until a write fails.
pub writer_loop : List (List ℕ) → TcpStream → Outcome (Unit {0}) × TcpStream
unfolding go_on_writing
writer_loop [] s = (ok tt, s)
writer_loop (msg ∷ msgs) s = go_on_writing (writer_loop msgs) (send_socket_frame msg s)

pub record Reader : Type 0 where
  pub in_flight_message : InFlightMessage
  pub stream : TcpStream
  pub to_websocket : Channel

-- The `match` on what `read_stream` returned: a complete message is forwarded.
after_read : Reader → Outcome ReadStatus × InFlightMessage × TcpStream → Thread × Reader
after_read r (err e, m, s) = (returned, record r { in_flight_message = m; stream = s })
after_read r (panic, m, s) = (crashed, record r { in_flight_message = m; stream = s })
after_read r (ok blocked, m, s) = (running, record r { in_flight_message = m; stream = s })
after_read r (ok progress, m, s) = (running, record r { in_flight_message = m; stream = s })
after_read r (ok (completed pop), m, s) =
    let (sent, c) = send r.to_websocket pop in
    (
      if sent then running else returned,
      record { in_flight_message = m; stream = s; to_websocket = c },
    )

-- One round of the loop.
pub reader_round : Reader → Thread × Reader
unfolding after_read
reader_round r = after_read r (read_stream r.in_flight_message r.stream)

pub reader_loop : ℕ → Reader → Thread × Reader
reader_loop = loop reader_round
