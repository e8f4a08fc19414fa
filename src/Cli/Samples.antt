-- ===== src/Cli/Samples.antt =====
-- A connection between the tool and a native program, for the tests.
use exfiltrate.Common.{
  ◌≡◌, ◌≤◌, [], ◌∷◌, length, arith, refl, sym, ap, ◌∙◌, append-nil, length-append,
}
use exfiltrate.Stream.{Outcome, TcpStream, ready}
use exfiltrate.Wire.Framing.{frame}
use exfiltrate.Wire.Delivery.{Delivers}
use exfiltrate.Rpc.{command, new_invocation}
use exfiltrate.RpcWire.{send_socket_rpc, send_socket_rpc-IsTolerated}
use exfiltrate.Server.{Host, Connection}
use exfiltrate.Server.Serving.{Exchange, IsServed, do_stream_serves}
use exfiltrate.Samples.{small_codec, stream_of}
use exfiltrate.Cli.Session.{Session, ask}
use exfiltrate.Cli.Call.{IsWired, ask_sent}

-- Seven commands have been sent before, over other connections.
abbrev pub session_for : Exchange → Session
session_for x = record {
  last_reply_id = 7;
  in_flight_message = record { bytes = [] };
  stream = stream_of (ready (frame x.reply) ∷ []);
}

abbrev pub connection_for : Exchange → Connection
connection_for x = record {
  in_flight_message = record { bytes = [] };
  stream = stream_of (ready (frame x.request) ∷ []);
}

module _ (h : Host) (x : Exchange) (serves : IsServed small_codec h x)
    (short : length x.request ≤ 500) (short' : length x.reply ≤ 500)
    (own : x.invocation.reply_id ≡ 7) where
  arrives :
      Delivers (connection_for x).in_flight_message (connection_for x).stream.reads (x.request ∷ [])
  arrives = record { split = refl; small = omega arith; fits = (omega arith, tt); quiet = (tt, tt) }

  written :
      (ask small_codec 2000 (session_for x) x.invocation.name x.invocation.args).1.stream.sent
      ≡ frame x.request
  unfolding new_invocation
  written =
      ask_sent small_codec 2000 (session_for x) x.invocation.name x.invocation.args
      ∙ ap
          (λ i.
            (send_socket_rpc small_codec
              (command (new_invocation x.invocation.name x.invocation.args i))
              (session_for x).stream).1.sent)
          (sym own)
      ∙ ap (λ (r : Outcome (Unit {0}) × TcpStream). r.1.sent)
          (send_socket_rpc-IsTolerated small_codec (command x.invocation) (session_for x).stream
            serves.sent (omega arith) (omega arith)).1

  pub wired : IsWired small_codec h (session_for x) (connection_for x) 2000 2000 x
  wired = record {
    client_empty = refl;
    server_empty = refl;
    client_sent = refl;
    server_sent = refl;
    up = append-nil (frame x.request) ∙ sym written;
    down =
        sym
          (do_stream_serves small_codec h 2000 (connection_for x) (x ∷ []) (serves, tt) arrives
            (omega arith) (omega (arith, length-append x.request []))).1;
    client_quiet = (tt, tt);
    server_quiet = (tt, tt);
    client_writes = omega arith;
    server_writes = omega arith;
    request_fits = omega arith;
    reply_fits = omega arith;
    client_rounds = omega (arith, length-append x.reply []);
    server_rounds = omega (arith, length-append x.request []);
  }
