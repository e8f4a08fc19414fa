-- ===== src/System/Call.antt =====
-- One command from the tool through the proxy to the program in the browser and back.
use exfiltrate.Common.{
  ℕ, ◌≤◌, ◌<◌, ◌^◌, List, [], ◌∷◌, ◌++◌, length, All, arith, ◌≡◌, refl, sym, ap, subst, ◌∙◌,
  append-nil,
}
use exfiltrate.Common.Bytes.{IsByte}
use exfiltrate.Common.Text.{Text}
use exfiltrate.Stream.{Outcome, ok, err, panic, TcpStream, WriteEvent}
use exfiltrate.Wire.Framing.{frame}
use exfiltrate.Wire.Delivery.{Delivers, FitsBuffer, work_left}
use exfiltrate.Wire.Writing.{IsTolerated}
use exfiltrate.Response.{split_data}
use exfiltrate.Rpc.{Codec, encoded, command, new_invocation, CommandResponse}
use exfiltrate.RpcWire.{send_socket_rpc, send_socket_rpc-IsTolerated}
use exfiltrate.Server.{Host, do_command}
use exfiltrate.Browser.{on_message}
use exfiltrate.Browser.Reassembly.{numbered, pop_msg-on_message}
use exfiltrate.Proxy.Bridge.{Bridge, Label, Run}
use exfiltrate.Proxy.Bridge.Down.{heard_messages}
use exfiltrate.Proxy.Bridge.Up.{ws_frames}
use exfiltrate.Cli.Session.{Session, replied, ask, popping}
use exfiltrate.Cli.Call.{ask_sent, ask_popped}
use exfiltrate.System.{and_then, answers, ReachesBrowser, ReachesClient, PageAnswers}
use exfiltrate.System.Answers.{answers_heard}
use exfiltrate.Proxy.Socket.Arrivals.{Message, texts}
use exfiltrate.System.Requests.{requests_arrive}
use exfiltrate.System.Replies.{heard_delivered}

answers_one :
    (codec : Codec) (h : Host) (request : List ℕ) (msgs : List (List ℕ))
    → answers codec h (request ∷ []) ≡ ok msgs
    → on_message codec h request ≡ ok msgs
unfolding answers
answers_one codec h request msgs e = go (on_message codec h request) e
  where
    go : (x : Outcome (List (List ℕ))) → and_then x (ok []) ≡ ok msgs → x ≡ ok msgs
    go (ok sent) p = ap ok (sym (append-nil sent)) ∙ p
    go (err f) p = cc
    go panic p = cc

-- The tool's stream and the proxy's stream of this client are the ends of one connection; what the
-- browser makes of the bytes that it is sent (`decode`) is answered by `onmessage`, and those
-- answers are what the browser sends to the proxy.
pub record IsBridged (codec : Codec) (h : Host) (decode : List ℕ → List (List ℕ)) (tag rounds : ℕ)
    (s : Session) (name : Text) (args : List Text) (b b' : Bridge) (ls : List Label) (page : ℕ)
    (messages : List Message) : Type 0 where
  pub run : Run b ls b'
  pub up : ReachesBrowser tag b b' ls (ask codec rounds s name args).1.stream.sent
  pub down : ReachesClient tag b b' ls s.in_flight_message s.stream.reads
  pub back : PageAnswers page b b' ls messages
  pub answered : answers codec h (decode b'.sent) ≡ ok (texts messages)
  pub new_stream : s.stream.sent ≡ []
  pub tolerant : All IsTolerated s.stream.writes
  pub enough : work_left s.in_flight_message s.stream.reads ≤ rounds

module _ (codec : Codec) (h : Host) (decode : List ℕ → List (List ℕ))
    (decodes : (message : List ℕ)
      → All IsByte message
      → length message < 2 ^ 63
      → decode (ws_frames (message ∷ [])) ≡ message ∷ [])
    (tag rounds : ℕ) (s : Session) (name : Text) (args : List Text) {b b' : Bridge}
    {ls : List Label} {page : ℕ} {messages : List Message}
    (w : IsBridged codec h decode tag rounds s name args b b' ls page messages) (request : List ℕ)
    (serializes : codec.rpc_to_vec (command (new_invocation name args s.last_reply_id))
      ≡ encoded request)
    (fits : FitsBuffer request) (is_bytes : All IsByte request) where
  request_sent :
      (rest : List WriteEvent) × (send_socket_rpc codec
          (command (new_invocation name args s.last_reply_id))
          s.stream
        ≡ (ok tt, record s.stream { writes = rest; sent = s.stream.sent ++ frame request }))
      × All IsTolerated rest
  request_sent =
      send_socket_rpc-IsTolerated codec (command (new_invocation name args s.last_reply_id))
        s.stream serializes (omega (arith, fits)) w.tolerant

  written : (ask codec rounds s name args).1.stream.sent ≡ frame request ++ []
  written =
      ask_sent codec rounds s name args
      ∙ ap (λ (r : Outcome (Unit {0}) × TcpStream). r.1.sent) request_sent.1
      ∙ ap (λ t. t ++ frame request) w.new_stream
      ∙ sym (append-nil (frame request))

  heard : on_message codec h request ≡ ok (heard_messages ls)
  heard =
      let arrived =
        requests_arrive tag (request ∷ []) w.run (subst (ReachesBrowser tag b b' ls) written w.up)
          (fits, tt) in
      answers_one codec h request (heard_messages ls) (
        ap (answers codec h)
          (sym (ap decode arrived ∙ decodes request is_bytes (omega (arith, fits))))
        ∙ w.answered
        ∙ ap ok (sym (answers_heard page messages w.run w.back)))

  -- One command, all the way: the tool writes the request, the proxy's threads take their turns in
  -- any order until everything is carried, the page answers with `onmessage`, its browser sends the
  -- answer in any frames, and `ask` returns what the command returned there, whole and with the
  -- number of its attachments. The conditions are that the command does not panic, request and
  -- response can be serialized and fit, no message of the answer is empty, no stream and no thread
  -- on the way fails, the browser gives back the message of a frame, nothing else is under way
  -- through the proxy, and `pop_msg` runs as many rounds as there is work.
  pub ask-through_proxy :
      (r : CommandResponse)
      → do_command codec h (new_invocation name args s.last_reply_id) ≡ ok r
      → length (split_data r.response).1 < 2 ^ 32
      → (ask codec rounds s name args).0 ≡ replied (numbered r)
  unfolding new_invocation
  ask-through_proxy r done few =
      let stream : TcpStream = record s.stream {
        writes = request_sent.0;
        sent = s.stream.sent ++ frame request;
      } in
      ask_popped codec rounds s name args request_sent.1 (
        pop_msg-on_message codec h (new_invocation name args s.last_reply_id) r request rounds
          (popping s stream) (heard_messages ls) [] (codec.rpc_round_trip _ request serializes) done
          heard few refl
          (subst (Delivers s.in_flight_message s.stream.reads)
            (sym (append-nil (heard_messages ls)))
            (heard_delivered tag s.in_flight_message s.stream.reads w.run w.down))
          w.enough)
