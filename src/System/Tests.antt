-- ===== src/System/Tests.antt =====
-- A command of the tool through the proxy to the browser and back, at a concrete run.
use exfiltrate.Common.{
  ℕ, ◌<◌, ◌^◌, List, [], ◌∷◌, ◌++◌, length, All, true, arith, ◌≡◌, ◌≢◌, refl, sym, ap, subst, ◌∙◌,
  append-nil,
}
use exfiltrate.Common.Bytes.{IsByte}
use exfiltrate.Common.Text.{text}
use exfiltrate.Stream.{Outcome, ok, panic, TcpStream, ready, read_events}
use exfiltrate.Samples.{small_codec, stream_of}
use exfiltrate.Wire.{new}
use exfiltrate.Wire.Framing.{frame}
use exfiltrate.Response.{bytes, split_data}
use exfiltrate.Rpc.{command, new_invocation}
use exfiltrate.Proxy.Tcp.Clients.{find}
use exfiltrate.Proxy.Frame.{
  Parsed, complete, failed, panicked, stuck, WebsocketFrameParser, parse, parse_loop, next_frame,
  first_frame, is_fin, opcode, is_masked, length_field, take_payload, send_data, new as new_parser,
}
use exfiltrate.Proxy.Frame.Header.{size_bytes}
use exfiltrate.Proxy.Frame.Fragments.{wire}
use exfiltrate.Proxy.Frame.Messages.{whole_frame, parse-to_bytes, to_bytes-wire}
use exfiltrate.Proxy.Socket.{read, read_round, try_parse_frame}
use exfiltrate.Proxy.Bridge.{}
use exfiltrate.Proxy.Bridge.Up.{ws_frames}
use exfiltrate.Proxy.Bridge.Writers.{find-take_front}
use exfiltrate.System.{and_then, answers, ReachesBrowser, ReachesClient, PageAnswers}
use exfiltrate.Proxy.Socket.Arrivals.{Message, IsMessage}
use exfiltrate.Client.{Popping, pop_msg as pop_reply, returned as popped}
use exfiltrate.System.Replies.{pop_msg-any_client}
use exfiltrate.System.Carried.{IsReady, Carried, Run-Carried}
use exfiltrate.System.Call.{IsBridged, ask-through_proxy}
use exfiltrate.Cli.Session.{Session, popping, ask, replied}
use exfiltrate.Cli.Call.{ask_sent}
use exfiltrate.RpcWire.{send_socket_rpc-IsTolerated}
use exfiltrate.Browser.Samples.{host, dumping, dumped, dumping_done, two_messages}
use exfiltrate.System.Requests.{requests_arrive}
use exfiltrate.Wire.Framing.{frames}
use exfiltrate.System.Samples.{
  request, header, part, asked, both_out, first_sent, served, shown, run, queued,
}

up : ReachesBrowser 2 asked served shown (frames (request ∷ []))
up = record {
  accepted = refl;
  serving = refl;
  serves = tt;
  writing = refl;
  lasts = tt;
  comes = refl;
  small = omega arith;
  quiet = tt;
  alone = refl;
  none_waits = refl;
  none_written = refl;
  all_read = unfold new in refl;
  all_written = refl;
}

arrived : served.sent ≡ ws_frames (request ∷ [])
arrived = requests_arrive 2 (request ∷ []) run up (omega arith, tt)

abbrev session : Session
session = record {
  last_reply_id = 7;
  in_flight_message = new;
  stream = stream_of (ready (0 ∷ 0 ∷ []) ∷ ready (0 ∷ 3 ∷ (header ++ frame part)) ∷ []);
}

-- A client with another id, on the same stream of bytes.
abbrev somebody : Popping
somebody = popping session session.stream

down : ReachesClient 2 asked served shown new session.stream.reads
unfolding new find
down = record {
  registered = refl;
  none_heard = refl;
  none_sent = refl;
  stays = tt;
  all_taken = find-take_front 2 first_sent.clients (find-take_front 2 both_out.clients queued);
  all_distributed = refl;
  fresh = refl;
  comes = refl;
  quiet = omega arith;
  fits = omega arith;
}

pop_msg-any_client_example : (pop_reply small_codec 0 40 somebody).0 ≡ popped panic
pop_msg-any_client_example =
    pop_msg-any_client small_codec host dumping dumped request 0 40 2 somebody (header ∷ part ∷ [])
      [] refl dumping_done two_messages (unfold split_data in omega arith) run down refl refl
      (unfold new in omega arith)

payloads : Parsed → List (List ℕ)
payloads (complete f) = f.payload ∷ []
payloads (failed e) = []
payloads panicked = []
payloads stuck = []

decode : List ℕ → List (List ℕ)
unfolding payloads
decode bs = payloads (parse (send_data bs new_parser)).0

decodes :
    (message : List ℕ)
    → All IsByte message
    → length message < 2 ^ 63
    → decode (ws_frames (message ∷ [])) ≡ message ∷ []
unfolding decode
decodes message hb size =
    let (bs, e, p, q) = parse-to_bytes message hb size in
    ap (λ t. payloads (parse (send_data t new_parser)).0)
      (append-nil (wire (whole_frame message)) ∙ written_as (sym (to_bytes-wire message) ∙ e))
    ∙ ap (λ (t : Parsed × WebsocketFrameParser). payloads t.0) p
  where
    written_as : {x y : List ℕ} → ◌≡◌ {A = Outcome (List ℕ)} (ok x) (ok y) → x ≡ y
    written_as h = cc

request_written : (ask small_codec 40 session (text "dump") []).1.stream.sent ≡ frame request
unfolding new_invocation
request_written =
    ask_sent small_codec 40 session (text "dump") []
    ∙ ap (λ (r : Outcome (Unit {0}) × TcpStream). r.1.sent)
        (send_socket_rpc-IsTolerated small_codec (command dumping) session.stream refl (omega arith)
          (omega arith)).1

-- What the page sends, in frames without a mask.
abbrev framed : List ℕ → Message
framed message = record { before = []; last = whole_frame message }

framed-IsMessage :
    (message : List ℕ)
    → All IsByte message
    → length message < 2 ^ 63
    → message ≢ []
    → IsMessage (framed message)
framed-IsMessage message hb size ne = record {
  opened = tt;
  fragment = record { key_size = refl; key_bytes = omega arith; bytes = hb; size = size };
  final = refl;
  some_bytes = ne;
}

back : PageAnswers 0 asked served shown (framed header ∷ framed part ∷ [])
unfolding size_bytes read read_round try_parse_frame parse parse_loop next_frame first_frame is_fin
    opcode is_masked length_field take_payload send_data read_events
back = record {
  connected = omega arith;
  fresh = refl;
  comes = refl;
  whole = (
    framed-IsMessage header (omega arith) (omega arith) (λ e. cc),
    (framed-IsMessage part (omega arith) (omega arith) (λ e. cc), tt),
  );
  patient = (tt, (tt, tt));
  alone = refl;
  all_read = refl;
  all_used = refl;
}

before_asking : IsReady 2 0 asked (request ∷ []) (framed header ∷ framed part ∷ [])
unfolding find
before_asking = record {
  accepted = refl;
  registered = refl;
  reading = refl;
  serving = refl;
  writing = refl;
  taken = tt;
  asked = record { split = refl; small = omega arith; fits = (omega arith, tt); quiet = tt };
  tolerant = tt;
  none_sent = refl;
  none_waits = refl;
  none_written = refl;
  none_heard = refl;
  connected = omega arith;
  listening = refl;
  fresh = refl;
  comes = back.comes;
  whole = back.whole;
  patient = (tt, (tt, tt));
  fits = omega arith;
}

bridged :
    IsBridged small_codec host decode 2 40 session
      (text "dump")
      []
      asked
      served
      shown
      0
      (framed header ∷ framed part ∷ [])
unfolding answers and_then
bridged = record {
  run = run;
  up = subst (ReachesBrowser 2 asked served shown) (sym request_written) up;
  down = down;
  back = back;
  answered =
      ap (answers small_codec host)
        (ap decode arrived ∙ decodes request (omega arith) (omega arith))
      ∙ ap (λ t. and_then t (ok [])) two_messages;
  new_stream = refl;
  tolerant = omega arith;
  enough = unfold new in omega arith;
}

ask-through_proxy_example :
    (ask small_codec 40 session (text "dump") []).0
    ≡ replied (record { success = true; response = bytes part; reply_id = 7; num_attachments = 1 })
unfolding split_data new_invocation
ask-through_proxy_example =
    ask-through_proxy small_codec host decode decodes 2 40 session (text "dump") [] bridged request
      refl (omega arith) (omega arith) dumped dumping_done (omega arith)

Run-Carried_example : Carried 2 0 asked (request ∷ []) (framed header ∷ framed part ∷ [])
Run-Carried_example =
    Run-Carried 2 0 asked (request ∷ []) (framed header ∷ framed part ∷ []) before_asking
