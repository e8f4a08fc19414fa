-- ===== src/Server.antt =====
-- exfiltrate/src: the registry of commands, the built-in commands and the TCP server's thread.
-- The registry and the captured logs are read under locks; a request sees one state of them.
pub mod Descriptions
mod Tests
pub mod Dispatch
pub mod Serving
pub mod Listener
pub mod Process
use exfiltrate.Common.{ℕ, List, [], ◌∷◌, ◌++◌, Bool, true, false, Option, none, some, if◌then◌else◌}
use exfiltrate.Common.Text.{Text, text, text_eq}
use exfiltrate.Stream.{Outcome, ok, err, panic, TcpStream}
use exfiltrate.Loop.{Thread, running, returned, crashed, loop}
use exfiltrate.Wire.{InFlightMessage, ReadStatus, completed, progress, blocked, read_stream}
use exfiltrate.Response.{Response, string, bytes, files, new_file}
use exfiltrate.RpcWire.{send_socket_rpc}
use exfiltrate.Rpc.{
  Codec, Encoded, encoded, refused, Decoded, decoded, malformed, Rpc, command, command_response,
}
use exfiltrate.Rpc.{CommandInvocation, CommandResponse, new_response, ListItem}
use exfiltrate.Server.Descriptions.{help_short, help_full, list_short, list_full}
use exfiltrate.Server.Descriptions.{
  terminate_short, terminate_full, logwise_logs_short, logwise_logs_full,
}

-- What `execute` returns, a Rust `Result<Response, Response>`, or a panic.
pub data Executed : Type 0 where
  success failure : Response → Executed
  crash : Executed

-- The types that implement the trait `Command`; the program's own commands are functions.
pub data Body : Type 0 where
  help list terminate logwise_logs : Body
  custom : (List Text → Executed) → Body

pub record Command : Type 0 where
  pub name : Text
  pub short_description : Text
  pub full_description : Text
  pub body : Body

-- `COMMANDS`, and `LOGGER` with each record as its `to_string` gives it.
pub record Host : Type 0 where
  pub commands : List Command
  pub logs : List Text

abbrev pub Help : Command
Help = record {
  name = text "help";
  short_description = help_short;
  full_description = help_full;
  body = help;
}

abbrev pub ListCommands : Command
ListCommands = record {
  name = text "list";
  short_description = list_short;
  full_description = list_full;
  body = list;
}

abbrev pub Terminate : Command
Terminate = record {
  name = text "terminate";
  short_description = terminate_short;
  full_description = terminate_full;
  body = terminate;
}

abbrev pub LogwiseCapture : Command
LogwiseCapture = record {
  name = text "logwise_logs";
  short_description = logwise_logs_short;
  full_description = logwise_logs_full;
  body = logwise_logs;
}

-- `add_command`
unfoldable pub add_command : Command → Host → Host
add_command c h = record h { commands = h.commands ++ c ∷ [] }

-- `register_commands`: `terminate` only where the target is not wasm32.
unfoldable pub register_commands : Bool → Host → Host
unfolding add_command
register_commands wasm h =
    let h' = add_command ListCommands (add_command Help h) in
    if wasm then h' else add_command Terminate h'

-- `begin_log_capture`; the logger that it adds is `LOGGER`.
unfoldable begin_log_capture : Host → Host
unfolding add_command
begin_log_capture h = add_command LogwiseCapture h

-- `begin`, with the feature `logwise` or without it.
unfoldable pub begin : Bool → Bool → Host → Host
unfolding register_commands begin_log_capture
begin logwise wasm h = register_commands wasm (if logwise then begin_log_capture h else h)

-- `finish_log_record`
unfoldable pub finish_log_record : Text → Host → Host
finish_log_record log h = record h { logs = h.logs ++ log ∷ [] }

-- The remote `help`: `args[0]` is read when the first command is compared, and again for the
-- message, so it panics without an argument.
unfoldable pub execute_help : List Command → List Text → Executed
execute_help cs [] = crash
execute_help [] (arg ∷ args) = failure (string (text "No such command: " ++ arg))
execute_help (c ∷ cs) (arg ∷ args) =
    let rest = execute_help cs (arg ∷ args) in
    if text_eq c.name arg then success (string c.full_description) else rest

unfoldable pub list_items : List Command → List ListItem
list_items [] = []
list_items (c ∷ cs) =
    record { name = c.name; short_description = c.short_description } ∷ list_items cs

-- `Response::from_serialize`
unfoldable pub from_serialize : Encoded → Executed
from_serialize (encoded bs) = success (bytes bs)
from_serialize (refused e) = failure (string e)

pub log_text : List Text → Text
log_text [] = []
log_text (log ∷ logs) = log ++ (b'\n' ∷ log_text logs)

module _ (codec : Codec) where
  unfoldable pub execute : Host → Body → List Text → Executed
  unfolding execute_help list_items from_serialize log_text
  execute h help args = execute_help h.commands args
  execute h list args = from_serialize (codec.items_to_vec (list_items h.commands))
  execute h terminate args = success (string (text "Termination successful."))
  execute h logwise_logs args = success (files (new_file (text "log") none (log_text h.logs) ∷ []))
  execute h (custom f) args = f args

  -- The reply to an executed command.
  unfoldable pub reply_to : ℕ → Executed → Outcome CommandResponse
  reply_to reply_id (success response) = ok (new_response true response reply_id)
  reply_to reply_id (failure response) = ok (new_response false response reply_id)
  reply_to reply_id crash = panic

  -- The loop of `do_command` over the commands that are left.
  pub find_and_execute : Host → List Command → CommandInvocation → Outcome CommandResponse
  unfolding execute reply_to new_response
  find_and_execute h [] c =
      ok (new_response false (string (text "command not found: " ++ c.name)) c.reply_id)
  find_and_execute h (matcher ∷ rest) c =
      let later = find_and_execute h rest c in
      if text_eq matcher.name c.name
      then reply_to c.reply_id (execute h matcher.body c.args)
      else later

  pub do_command : Host → CommandInvocation → Outcome CommandResponse
  do_command h c = find_and_execute h h.commands c

-- The state of the thread of one connection.
pub record Connection : Type 0 where
  pub in_flight_message : InFlightMessage
  pub stream : TcpStream

module _ (codec : Codec) (h : Host) where
  -- The reply goes out; a failed write is only reported.
  after_reply : Connection → Outcome (Unit {0}) × TcpStream → Thread × Connection
  after_reply c (ok _, s) = (running, record c { stream = s })
  after_reply c (err e, s) = (running, record c { stream = s })
  after_reply c (panic, s) = (crashed, record c { stream = s })

  answer_command : Connection → Outcome CommandResponse → Thread × Connection
  unfolding after_reply
  answer_command c (ok response) =
      after_reply c (send_socket_rpc codec (command_response response) c.stream)
  answer_command c (err e) = (crashed, c)
  answer_command c panic = (crashed, c)

  -- A message that is no RPC panics at `unwrap`, and a response at `todo!`.
  answer : Connection → Decoded Rpc → Thread × Connection
  unfolding answer_command
  answer c (decoded (command invocation)) = answer_command c (do_command codec h invocation)
  answer c (decoded (command_response response)) = (crashed, c)
  answer c (malformed e) = (crashed, c)

  after_read : Connection → Outcome ReadStatus × InFlightMessage × TcpStream → Thread × Connection
  unfolding answer
  after_read c (err e, m, s) = (returned, record { in_flight_message = m; stream = s })
  after_read c (panic, m, s) = (crashed, record { in_flight_message = m; stream = s })
  after_read c (ok blocked, m, s) = (running, record { in_flight_message = m; stream = s })
  after_read c (ok progress, m, s) = (running, record { in_flight_message = m; stream = s })
  after_read c (ok (completed pop), m, s) =
      answer (record { in_flight_message = m; stream = s }) (codec.rpc_from_slice pop)

  -- One round of the loop of `do_stream`.
  pub serve_round : Connection → Thread × Connection
  unfolding after_read
  serve_round c = after_read c (read_stream c.in_flight_message c.stream)

  pub do_stream : ℕ → Connection → Thread × Connection
  do_stream = loop serve_round
