-- ===== src/Cli/Call.antt =====
-- One command from the tool through both ends of a TCP connection and back: the client of the tool
-- and the connection thread of a native program, composed.
use exfiltrate.Common.{
  ℕ, ◌≤◌, List, [], ◌∷◌, ◌++◌, length, All, arith, ◌≡◌, refl, sym, ap, ◌∙◌, append-nil,
}
use exfiltrate.Common.Text.{Text}
use exfiltrate.Stream.{Outcome, ok, err, panic, TcpStream, WriteEvent, available}
use exfiltrate.Wire.Framing.{frame, frames}
use exfiltrate.Wire.Delivery.{Delivers, work_left, IsQuiet, FitsBuffer}
use exfiltrate.Wire.Writing.{IsTolerated}
use exfiltrate.Rpc.{Codec, command, command_response, new_invocation, CommandResponse}
use exfiltrate.RpcWire.{send_socket_rpc, send_socket_rpc-IsTolerated}
use exfiltrate.Server.{Host, Connection, do_stream}
use exfiltrate.Server.Dispatch.{do_command_id}
use exfiltrate.Server.Serving.{Exchange, IsServed, do_stream_serves}
use exfiltrate.Client.{returned, pending, pop_msg, next_reply_id, Answer, Popping}
use exfiltrate.Client.Quiet.{pop_msg_sent}
use exfiltrate.Client.Replies.{Returns, pop_msg-whole}
use exfiltrate.Cli.Session.{Session, replied, ask, popping, after_pop_msg, after_send}

-- A new connection, and what the system does with it: each end reads what the other one has
-- written, in any pieces; no read fails but for want of data, and every write takes something or
-- may be tried again. `rounds` and `served` are enough rounds for the loops of both ends.
pub record IsWired (codec : Codec) (h : Host) (s : Session) (c : Connection) (rounds served : ℕ)
    (x : Exchange) : Type 0 where
  pub client_empty : s.in_flight_message.bytes ≡ []
  pub server_empty : c.in_flight_message.bytes ≡ []
  pub client_sent : s.stream.sent ≡ []
  pub server_sent : c.stream.sent ≡ []
  pub up :
      available c.stream.reads
      ≡ (ask codec rounds s x.invocation.name x.invocation.args).1.stream.sent
  pub down : available s.stream.reads ≡ (do_stream codec h served c).1.stream.sent
  pub client_quiet : All IsQuiet s.stream.reads
  pub server_quiet : All IsQuiet c.stream.reads
  pub client_writes : All IsTolerated s.stream.writes
  pub server_writes : All IsTolerated c.stream.writes
  pub request_fits : FitsBuffer x.request
  pub reply_fits : FitsBuffer x.reply
  pub client_rounds : work_left s.in_flight_message s.stream.reads ≤ rounds
  pub server_rounds : work_left c.in_flight_message c.stream.reads ≤ served

after_pop_msg_stream :
    (s : Session) (y : Answer × Popping) → (after_pop_msg s y).1.stream ≡ y.1.stream
unfolding after_pop_msg
after_pop_msg_stream s (pending, p) = refl
after_pop_msg_stream s (returned (ok r), p) = refl
after_pop_msg_stream s (returned (err f), p) = refl
after_pop_msg_stream s (returned panic, p) = refl

after_send_sent :
    (codec : Codec) (rounds id : ℕ) (s : Session) (y : Outcome (Unit {0}) × TcpStream)
    → (after_send codec rounds id s y).1.stream.sent ≡ y.1.sent
unfolding after_send
after_send_sent codec rounds id s (ok _, stream) =
    ap (λ t. t.sent) (after_pop_msg_stream s (pop_msg codec id rounds (popping s stream)))
    ∙ pop_msg_sent codec id rounds (popping s stream)
after_send_sent codec rounds id s (err e, stream) = refl
after_send_sent codec rounds id s (panic, stream) = refl

-- What the tool writes for a command is the frame of its invocation, and nothing more.
pub ask_sent :
    (codec : Codec) (rounds : ℕ) (s : Session) (name : Text) (args : List Text)
    → (ask codec rounds s name args).1.stream.sent
      ≡ (send_socket_rpc codec (command (new_invocation name args s.last_reply_id)) s.stream).1.sent
unfolding ask next_reply_id
ask_sent codec rounds s name args =
    after_send_sent codec rounds s.last_reply_id
      (record s { last_reply_id = (next_reply_id s.last_reply_id).1 })
      (send_socket_rpc codec (command (new_invocation name args s.last_reply_id)) s.stream)

after_pop_msg_ok :
    (s : Session) (y : Answer × Popping) {r : CommandResponse}
    → y.0 ≡ returned (ok r)
    → (after_pop_msg s y).0 ≡ replied r
unfolding after_pop_msg
after_pop_msg_ok s (pending, p) e = cc
after_pop_msg_ok s (returned (ok r), p) e = cc
after_pop_msg_ok s (returned (err f), p) e = cc
after_pop_msg_ok s (returned panic, p) e = cc

-- Where the command is sent and `pop_msg` returns a response, that is the reply.
pub ask_popped :
    (codec : Codec) (rounds : ℕ) (s : Session) (name : Text) (args : List Text) {stream : TcpStream}
    {r : CommandResponse}
    → send_socket_rpc codec (command (new_invocation name args s.last_reply_id)) s.stream
      ≡ (ok tt, stream)
    → (pop_msg codec s.last_reply_id rounds (popping s stream)).0 ≡ returned (ok r)
    → (ask codec rounds s name args).0 ≡ replied r
unfolding ask after_send next_reply_id
ask_popped codec rounds s name args {stream} sent popped =
    let s' : Session = record s { last_reply_id = (next_reply_id s.last_reply_id).1 } in
    ap (λ t. (after_send codec rounds s.last_reply_id s' t).0) sent
    ∙ after_pop_msg_ok s' (pop_msg codec s.last_reply_id rounds (popping s stream)) popped

module _ (codec : Codec) (h : Host) (s : Session) (c : Connection) (rounds served : ℕ)
    (x : Exchange) (serves : IsServed codec h x) (w : IsWired codec h s c rounds served x)
    (own : x.invocation.reply_id ≡ s.last_reply_id) where
  request_sent :
      (rest : List WriteEvent) × (send_socket_rpc codec (command x.invocation) s.stream
        ≡ (ok tt, record s.stream { writes = rest; sent = s.stream.sent ++ frame x.request }))
      × All IsTolerated rest
  request_sent =
      send_socket_rpc-IsTolerated codec (command x.invocation) s.stream serves.sent
        (omega (arith, w.request_fits)) w.client_writes

  request_delivered : Delivers c.in_flight_message c.stream.reads (x.request ∷ [])
  unfolding new_invocation
  request_delivered = record {
    split =
        ap (λ t. t ++ available c.stream.reads) w.server_empty
        ∙ w.up
        ∙ ask_sent codec rounds s x.invocation.name x.invocation.args
        ∙ ap
            (λ i.
              (send_socket_rpc codec
                (command (new_invocation x.invocation.name x.invocation.args i)) s.stream).1.sent)
            (sym own)
        ∙ ap (λ (r : Outcome (Unit {0}) × TcpStream). r.1.sent) request_sent.1
        ∙ ap (λ t. t ++ frame x.request) w.client_sent
        ∙ sym (append-nil (frame x.request));
    small = omega (arith, ap length w.server_empty);
    fits = (w.request_fits, tt);
    quiet = w.server_quiet;
  }

  reply_delivered : Delivers s.in_flight_message s.stream.reads (x.reply ∷ [])
  reply_delivered = record {
    split =
        ap (λ t. t ++ available s.stream.reads) w.client_empty
        ∙ w.down
        ∙ (do_stream_serves codec h served c (x ∷ []) (serves, tt) request_delivered w.server_writes
            w.server_rounds).1
        ∙ ap (λ t. t ++ frames (x.reply ∷ [])) w.server_sent;
    small = omega (arith, ap length w.client_empty);
    fits = (w.reply_fits, tt);
    quiet = w.client_quiet;
  }

  reply_popped :
      (stream : TcpStream)
      → stream.reads ≡ s.stream.reads
      → Returns codec x.invocation.reply_id
          (pop_msg codec x.invocation.reply_id rounds (popping s stream))
          x.response
          []
  reply_popped stream same =
      let ids = do_command_id codec h x.invocation x.response serves.executed in
      pop_msg-whole codec x.invocation.reply_id rounds (popping s stream) x.reply x.response [] []
        refl (codec.rpc_round_trip (command_response x.response) x.reply serves.replied) ids.0 ids.1
        (rw same reply_delivered) (rw same w.client_rounds)

-- The command of an exchange, over a connection that serves it.
module _ (codec : Codec) (h : Host) (s : Session) (c : Connection) (rounds served : ℕ)
    (x : Exchange) (serves : IsServed codec h x) (w : IsWired codec h s c rounds served x) where
  pub ask_replied :
      (name : Text) (args : List Text)
      → x.invocation ≡ new_invocation name args s.last_reply_id
      → (ask codec rounds s name args).0 ≡ replied x.response
  ask_replied name args e =
      let own : x.invocation.reply_id ≡ s.last_reply_id =
        unfold new_invocation in ap (λ i. i.reply_id) e in
      let (rest, sent, quiet) = request_sent codec h s c rounds served x serves w own in
      let stream : TcpStream = record s.stream {
        writes = rest;
        sent = s.stream.sent ++ frame x.request;
      } in
      ask_popped codec rounds s name args
        (ap (λ i. send_socket_rpc codec (command i) s.stream) (sym e) ∙ sent)
        (ap (λ i. (pop_msg codec i rounds (popping s stream)).0) (sym own)
          ∙ (reply_popped codec h s c rounds served x serves w own stream refl).0)
