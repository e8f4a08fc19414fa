-- ===== src/Cli/Session.antt =====
-- exfiltrate_cli/src/wire/client.rs: the connection `CLIENT`, and how main.rs, help.rs and list.rs
-- use it: they take an id, send a command and wait for the reply.
use exfiltrate.Common.{ℕ, List}
use exfiltrate.Common.Text.{Text, text}
use exfiltrate.Stream.{
  Outcome, ok, err, panic, IoError, connection_refused, permission_denied, TcpStream,
}
use exfiltrate.Wire.{InFlightMessage, new}
use exfiltrate.Rpc.{Codec, CommandResponse, command, new_invocation}
use exfiltrate.RpcWire.{send_socket_rpc}
use exfiltrate.Client.{Popping, Answer, pending, returned, awaiting, next_reply_id, pop_msg}

-- `Client`: the counter of ids, and what the lock guards.
pub record Session : Type 0 where
  pub last_reply_id : ℕ
  pub in_flight_message : InFlightMessage
  pub stream : TcpStream

-- `CLIENT`, once it is initialised.
pub data Link : Type 0 where
  offline : Text → Link
  online : Session → Link

-- `Client::new` on what `TcpStream::connect` returns; `io_text` is the text of an I/O error.
pub connect : (IoError → Text) → Outcome TcpStream → Outcome Link
connect io_text (ok stream) =
    ok (online (record { last_reply_id = 0; in_flight_message = new; stream = stream }))
connect io_text (err connection_refused) =
    ok (offline (text "The connection was refused; is the debugged application running?"))
connect io_text (err permission_denied) =
    ok (offline (text "Permission denied opening a TCP connection; maybe you're in a sandbox?"))
connect io_text (err e) = ok (offline (io_text e))
connect io_text panic = panic

-- What has become of a command that was sent: its sending failed, or its reply could not be read,
-- or it is there; or the caller has panicked, or still waits.
pub data Asked : Type 0 where
  unsent unread : IoError → Asked
  replied : CommandResponse → Asked
  died waiting : Asked

-- `pop_msg`, which reads from the stream of the session.
unfoldable pub after_pop_msg : Session → Answer × Popping → Asked × Session
after_pop_msg s (pending, p) =
    (waiting, record s { in_flight_message = p.in_flight_message; stream = p.stream })
after_pop_msg s (returned (ok r), p) =
    (replied r, record s { in_flight_message = p.in_flight_message; stream = p.stream })
after_pop_msg s (returned (err e), p) =
    (unread e, record s { in_flight_message = p.in_flight_message; stream = p.stream })
after_pop_msg s (returned panic, p) =
    (died, record s { in_flight_message = p.in_flight_message; stream = p.stream })

-- `pop_msg` begins on the buffer of the session and the stream.
abbrev pub popping : Session → TcpStream → Popping
popping s stream = record {
  in_flight_message = s.in_flight_message;
  stream = stream;
  phase = awaiting;
}

module _ (codec : Codec) (rounds : ℕ) where
  -- `send_rpc` has returned; the reply is awaited.
  unfoldable pub after_send : ℕ → Session → Outcome (Unit {0}) × TcpStream → Asked × Session
  after_send reply_id s (ok _, stream) =
      after_pop_msg s (pop_msg codec reply_id rounds (popping s stream))
  after_send reply_id s (err e, stream) = (unsent e, record s { stream = stream })
  after_send reply_id s (panic, stream) = (died, record s { stream = stream })

  -- A command and its reply, with `rounds` as the bound on the rounds of `pop_msg`.
  unfoldable pub ask : Session → Text → List Text → Asked × Session
  ask s name args =
      let (reply_id, last) = next_reply_id s.last_reply_id in
      after_send reply_id (record s { last_reply_id = last })
        (send_socket_rpc codec (command (new_invocation name args reply_id)) s.stream)
