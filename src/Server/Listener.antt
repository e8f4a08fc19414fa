-- ===== src/Server/Listener.antt =====
-- exfiltrate/src/wire/server.rs: `Server::new_tcp`, its accept loop and the threads of all
-- connections, which take turns in any order.
pub mod Turns
use exfiltrate.Common.{ℕ, zero, suc, List, [], ◌∷◌, ◌++◌}
use exfiltrate.Common.Text.{Text, text}
use exfiltrate.Stream.{IoError, permission_denied, TcpStream}
use exfiltrate.Loop.{Thread, running, returned, crashed, go_on}
use exfiltrate.Wire.{new}
use exfiltrate.Rpc.{Codec}
use exfiltrate.Server.{Host, Connection, serve_round}

-- What `TcpListener::bind` answers, and each step of `listener.incoming()`.
pub data Bound : Type 0 where
  bound : Bound
  unbound : IoError → Bound

pub data Incoming : Type 0 where
  accepted : TcpStream → Incoming
  refused : IoError → Incoming

-- The threads of the connections in the order of their acceptance, and the thread that accepts.
pub record Listener : Type 0 where
  pub accepting : Thread
  pub connections : List (Thread × Connection)

-- The server listens, or panics with a text.
pub data Started : Type 0 where
  listening : Listener → Started
  panicked : Text → Started

-- `debug` is the `{:?}` of an `io::Error`.
pub new_tcp : (IoError → Text) → Bound → Started
new_tcp debug bound = listening (record { accepting = running; connections = [] })
new_tcp debug (unbound permission_denied) = panicked (
    text
      "Permission denied to open the exfiltrate server socket.  You may be running in a sandbox.")
new_tcp debug (unbound e) = panicked (text "Can't open socket: " ++ debug e)

-- The accept loop: a stream gets a thread of its own, an error ends the loop with a panic.
accept : Incoming → List (Thread × Connection) → Listener
accept (accepted stream) cs = record {
  accepting = running;
  connections = cs ++ (running, record { in_flight_message = new; stream = stream }) ∷ [];
}
accept (refused e) cs = record { accepting = crashed; connections = cs }

-- Once that loop has ended nothing is accepted.
accept_while : Thread → Incoming → List (Thread × Connection) → Listener
unfolding accept
accept_while running i cs = accept i cs
accept_while returned i cs = record { accepting = returned; connections = cs }
accept_while crashed i cs = record { accepting = crashed; connections = cs }

-- What happens next: the listener has something, or the thread of a connection takes its turn.
pub data Event : Type 0 where
  incoming : Incoming → Event
  turn : ℕ → Event

module _ (codec : Codec) (h : Host) where
  -- One round of a thread, while it runs.
  pub take_turn : Thread × Connection → Thread × Connection
  take_turn x = go_on (serve_round codec h) x

  pub turn_at : ℕ → List (Thread × Connection) → List (Thread × Connection)
  unfolding take_turn
  turn_at i [] = []
  turn_at zero (x ∷ xs) = take_turn x ∷ xs
  turn_at (suc i) (x ∷ xs) = x ∷ turn_at i xs

  pub handle : Listener → Event → Listener
  unfolding accept_while turn_at
  handle l (incoming i) = accept_while l.accepting i l.connections
  handle l (turn i) = record l { connections = turn_at i l.connections }

  unfoldable pub run : Listener → List Event → Listener
  unfolding handle
  run l [] = l
  run l (e ∷ es) = run (handle l e) es
