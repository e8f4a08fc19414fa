-- ===== src/Server/Tests.antt =====
-- Tests of the registry, and the theorems about the server at concrete inputs.
use exfiltrate.Common.{ℕ, List, [], ◌∷◌, true, false, arith, ◌≡◌, refl, zero, suc, some, none}
use exfiltrate.Common.Text.{Text, text}
use exfiltrate.Stream.{ok, ready, failed, would_block, other}
use exfiltrate.Response.{string}
use exfiltrate.Rpc.{CommandInvocation, CommandResponse, new_response}
use exfiltrate.Samples.{small_codec, stream_of}
use exfiltrate.Server.{
  Host, Command, Body, Executed, success, begin, execute, reply_to, do_command, Connection,
}
use exfiltrate.Server.Dispatch.{do_command_first}
use exfiltrate.Loop.{Thread, running}
use exfiltrate.Server.Listener.{Listener, Event, incoming, turn, Incoming, accepted, run}
use exfiltrate.Server.Listener.Turns.{get, run_serves}
use exfiltrate.Server.Process.{Process, Event as ProcessEvent, happens, wakes}
use exfiltrate.Server.Serving.{Exchange, Replies}

greet : List Text → Executed
greet args = success (string (text "hi"))

abbrev Greeting : Command
Greeting = record {
  name = text "greet";
  short_description = [];
  full_description = text "Greets.";
  body = Body.custom greet;
}

-- Another command of the same name, behind the first.
abbrev Shadowed : Command
Shadowed = record {
  name = text "greet";
  short_description = [];
  full_description = [];
  body = Body.terminate;
}

abbrev host : Host
host = record { commands = Greeting ∷ Shadowed ∷ []; logs = [] }

abbrev greeting : CommandInvocation
greeting = record { name = text "greet"; args = []; reply_id = 7 }

abbrev greeted : CommandResponse
greeted = record {
  success = true;
  response = string (text "hi");
  reply_id = 7;
  num_attachments = 0;
}

names : List Command → List Text
names [] = []
names (c ∷ cs) = c.name ∷ names cs

registered :
    names (begin true false (record { commands = []; logs = [] })).commands
    ≡ text "logwise_logs" ∷ text "help" ∷ text "list" ∷ text "terminate" ∷ []
unfolding names begin
registered = refl

greeting_done : do_command small_codec host greeting ≡ ok greeted
unfolding reply_to execute greet new_response
greeting_done = do_command_first small_codec host greeting [] Greeting (Shadowed ∷ []) refl tt refl

abbrev greeting_exchange : Exchange
greeting_exchange = record {
  invocation = greeting;
  response = greeted;
  request = 0 ∷ 7 ∷ text "greet";
  reply = 1 ∷ 7 ∷ 0 ∷ text "hi";
}

abbrev asking : Connection
asking = record {
  in_flight_message = record { bytes = [] };
  stream =
      stream_of
        (ready (0 ∷ 0 ∷ 0 ∷ 7 ∷ 0 ∷ 7 ∷ []) ∷ failed would_block ∷ ready (text "greet") ∷ []);
}

-- Its turns among those of connections that come later.
abbrev busy : ℕ → List Event
busy zero = incoming (Incoming.refused (other 24)) ∷ []
busy (suc n) = incoming (accepted (stream_of [])) ∷ turn 1 ∷ turn 0 ∷ busy n

abbrev one_asking : Listener
one_asking = record { accepting = running; connections = (running, asking) ∷ [] }

run_serves_example :
    (x : Thread × Connection) × (get 0 (run small_codec host one_asking (busy 30)).connections
      ≡ some x)
    × Replies small_codec host x (0 ∷ 0 ∷ 0 ∷ 5 ∷ 1 ∷ 7 ∷ 0 ∷ 104 ∷ 105 ∷ [])
run_serves_example =
    run_serves small_codec host 0 (busy 30) one_asking asking (greeting_exchange ∷ []) refl
      (record { sent = refl; executed = greeting_done; replied = refl; short = omega arith }, tt)
      (record { split = refl; small = omega arith; fits = omega arith; quiet = omega arith })
      (omega arith) (omega arith)

-- The connection asks for `terminate` under a name of the program's own.
abbrev deadly : Host
deadly = record { commands = Shadowed ∷ []; logs = [] }

abbrev alive : Process
alive = record { listener = one_asking; terminating = false; exited = none }

-- Turns in which the connection is served, and then a waking that comes too early.
abbrev rounds_and_waking : ℕ → List ProcessEvent
rounds_and_waking zero = wakes ∷ happens (incoming (Incoming.refused (other 24))) ∷ []
rounds_and_waking (suc n) = happens (turn 0) ∷ rounds_and_waking n
