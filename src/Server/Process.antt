-- ===== src/Server/Process.antt =====
-- exfiltrate/src/commands/terminate.rs: the command `terminate` starts a thread that sleeps and then
-- ends the process with status 70, while the threads of wire/server.rs go on.
pub mod Exit
use exfiltrate.Common.{
  ℕ, zero, suc, List, [], ◌∷◌, ◌++◌, Bool, true, false, ◌||◌, Option, none, some, if◌then◌else◌,
}
use exfiltrate.Common.{arith, ◌≡◌, refl, sym, ap, ◌∙◌, inl, inr, ◌⊎◌, Bool-cases}
use exfiltrate.Common.Text.{Text, text_eq}
use exfiltrate.Stream.{Outcome, ok, err, panic, TcpStream}
use exfiltrate.Loop.{Thread, running, returned, crashed}
use exfiltrate.Wire.{InFlightMessage, ReadStatus, completed, progress, blocked, read_stream}
use exfiltrate.Rpc.{Codec, Decoded, decoded, malformed, Rpc, command, command_response}
use exfiltrate.Server.{Body, help, list, terminate, logwise_logs, custom, Command, Host, Connection}
use exfiltrate.Server.Listener.{Listener, Event as Occurrence, incoming, turn, handle}

-- The listener with its threads, whether a thread `terminate` sleeps, and the status of the process
-- once it has ended.
pub record Process : Type 0 where
  pub listener : Listener
  pub terminating : Bool
  pub exited : Option ℕ

-- The listener or a connection has its turn, or the thread `terminate` wakes up.
pub data Event : Type 0 where
  happens : Occurrence → Event
  wakes : Event

pub is_terminate : Body → Bool
is_terminate help = false
is_terminate list = false
is_terminate terminate = true
is_terminate logwise_logs = false
is_terminate (custom f) = false

-- Whether the command that `do_command` finds for a name is `terminate`.
pub finds_terminate : List Command → Text → Bool
unfolding is_terminate
finds_terminate [] name = false
finds_terminate (matcher ∷ rest) name =
    let later = finds_terminate rest name in
    if text_eq matcher.name name then is_terminate matcher.body else later

asks_end : Host → Decoded Rpc → Bool
unfolding finds_terminate
asks_end h (decoded (command c)) = finds_terminate h.commands c.name
asks_end h (decoded (command_response r)) = false
asks_end h (malformed e) = false

module _ (codec : Codec) (h : Host) where
  read_ends : Outcome ReadStatus × InFlightMessage × TcpStream → Bool
  unfolding asks_end
  read_ends (err e, m, s) = false
  read_ends (panic, m, s) = false
  read_ends (ok blocked, m, s) = false
  read_ends (ok progress, m, s) = false
  read_ends (ok (completed pop), m, s) = asks_end h (codec.rpc_from_slice pop)

  -- Whether the round that a thread takes next executes `terminate`.
  round_ends : Thread × Connection → Bool
  unfolding read_ends
  round_ends (running, c) = read_ends (read_stream c.in_flight_message c.stream)
  round_ends (returned, c) = false
  round_ends (crashed, c) = false

  pub turn_ends : ℕ → List (Thread × Connection) → Bool
  unfolding round_ends
  turn_ends i [] = false
  turn_ends zero (x ∷ xs) = round_ends x
  turn_ends (suc i) (x ∷ xs) = turn_ends i xs

  event_ends : Occurrence → List (Thread × Connection) → Bool
  event_ends (incoming a) xs = false
  event_ends (turn i) xs = turn_ends i xs

  -- Nothing happens in a process that has ended.
  while_alive : Option ℕ → Process → Event → Process
  unfolding event_ends
  while_alive (some status) p e = p
  while_alive none p (happens e) = record p {
    listener = handle codec h p.listener e;
    terminating = p.terminating || event_ends e p.listener.connections;
  }
  while_alive none p wakes = if p.terminating then record p { exited = some 70 } else p

  pub step : Process → Event → Process
  unfolding while_alive
  step p e = while_alive p.exited p e

  pub run_process : Process → List Event → Process
  run_process p [] = p
  run_process p (e ∷ es) = run_process (step p e) es
