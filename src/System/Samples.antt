-- ===== src/System/Samples.antt =====
-- A run of the proxy for the tests: a command of the tool goes to the browser, and its answer, with
-- an attachment, comes back.
use exfiltrate.Common.{ℕ, List, [], ◌∷◌, ◌++◌, true, some, arith, ◌≡◌, refl, ap, ◌==◌}
use exfiltrate.Common.Table.{update}
use exfiltrate.Common.Text.{text}
use exfiltrate.Stream.{ok, TcpStream, ready, read_events}
use exfiltrate.Wire.{new, pop_msg, write_all_events, write_all_robust, send_socket_frame}
use exfiltrate.Wire.Framing.{frame, pop_msg_complete}
use exfiltrate.Wire.Reading.{read_status_whole}
use exfiltrate.Proxy.Tcp.{Reader, broadcast}
use exfiltrate.Proxy.Tcp.Relay.{round_completed}
use exfiltrate.Proxy.Tcp.Clients.{find, live, find-broadcast}
use exfiltrate.Proxy.Frame.{
  parse, parse_loop, next_frame, first_frame, is_fin, opcode, is_masked, length_field, take_payload,
  send_data,
}
use exfiltrate.Proxy.Frame.Header.{size_bytes}
use exfiltrate.Proxy.Frame.Fragments.{wire}
use exfiltrate.Proxy.Frame.Messages.{whole_frame}
use exfiltrate.Proxy.Socket.{Websocket, read, read_round, try_parse_frame, returned}
use exfiltrate.Proxy.Handshake.{write_all}
use exfiltrate.Proxy.Bridge.{
  Bridge, Label, heard, forwarded, inner, reads, distributes, writes_client, forwards,
  writes_browser, Run, here, next, reader_of, after_reader, take_front,
}
use exfiltrate.Proxy.Bridge.Up.{ws_frame-wire}
use exfiltrate.Proxy.Bridge.Writers.{find-take_front}

abbrev pub request : List ℕ
request = 0 ∷ 7 ∷ text "dump"

abbrev pub header : List ℕ
header = 3 ∷ 7 ∷ 1 ∷ []

abbrev pub part : List ℕ
part = 5 ∷ 6 ∷ []

abbrev pub quick : TcpStream
quick = record { reads = []; writes = []; sent = [] }

abbrev pub browser : Websocket
browser = record {
  frame_parser = record { parsed_data = []; unparsed_data = []; frames_received = 0 };
  reads = ready (130 ∷ 3 ∷ header) ∷ ready (130 ∷ 2 ∷ part) ∷ [];
}

-- The request is in the buffer of the client's reader thread already.
abbrev pub asked : Bridge
asked = record {
  accepting = true;
  serving = true;
  clients = record { tag = 2; channel = live [] } ∷ [];
  accepted = λ t. t == 2;
  streams = λ t. quick;
  in_flight = λ t. record { bytes = frame request };
  reading = λ t. t == 2;
  browsers = λ k. browser;
  opened = 1;
  listening = λ k. k == 0;
  from_websocket = [];
  to_websocket = [];
  writing = true;
  writes = [];
  sent = [];
}

first_heard : (read 2 browser).0 ≡ returned header
unfolding read read_round try_parse_frame parse parse_loop next_frame first_frame is_fin opcode
    is_masked length_field take_payload send_data read_events
first_heard = refl

second_heard : (read 2 (read 2 browser).1).0 ≡ returned part
unfolding read read_round try_parse_frame parse parse_loop next_frame first_frame is_fin opcode
    is_masked length_field take_payload send_data read_events
second_heard = refl

first_written : send_socket_frame header quick ≡ (ok tt, record quick { sent = frame header })
unfolding send_socket_frame write_all_robust write_all_events
first_written = refl

second_written :
    send_socket_frame part (record quick { sent = frame header })
    ≡ (ok tt, record quick { sent = frame header ++ frame part })
unfolding send_socket_frame write_all_robust write_all_events
second_written = refl

request_frame : write_all [] (wire (whole_frame request)) ≡ (ok tt, [], 130 ∷ 6 ∷ request)
unfolding write_all size_bytes
request_frame = refl

in_buffer : pop_msg (asked.in_flight 2) ≡ ok (some request, new)
in_buffer =
    unfold new in
    pop_msg_complete (record { bytes = frame request }) [] request [] refl (omega arith)
      (omega arith) (omega arith) (omega arith)

abbrev pub reader : Reader
reader = record { in_flight_message = new; stream = quick; to_websocket = live (request ∷ []) }

-- The states of the run, one behind the other.
abbrev pub posted : Bridge
posted = after_reader asked 2 reader

abbrev pub shown_to_browser : Bridge
shown_to_browser = record posted { to_websocket = []; sent = 130 ∷ 6 ∷ request }

abbrev pub first_back : Bridge
first_back = record shown_to_browser {
  browsers = update asked.browsers 0 (read 2 browser).1;
  from_websocket = header ∷ [];
}

abbrev pub both_back : Bridge
both_back = record first_back {
  browsers = update first_back.browsers 0 (read 2 (read 2 browser).1).1;
  from_websocket = header ∷ part ∷ [];
}

abbrev pub first_out : Bridge
first_out = record both_back {
  clients = broadcast header asked.clients;
  from_websocket = part ∷ [];
}

abbrev pub both_out : Bridge
both_out = record first_out { clients = broadcast part first_out.clients; from_websocket = [] }

abbrev pub first_sent : Bridge
first_sent = record both_out {
  clients = take_front 2 both_out.clients;
  streams = update both_out.streams 2 (record quick { sent = frame header });
}

abbrev pub served : Bridge
served = record first_sent {
  clients = take_front 2 first_sent.clients;
  streams = update first_sent.streams 2 (record quick { sent = frame header ++ frame part });
}

abbrev pub shown : List Label
shown =
    forwarded 2 request ∷ inner ∷ heard 0 header ∷ heard 0 part ∷ inner ∷ inner ∷ inner ∷ inner ∷ []

pub queued : find 2 both_out.clients ≡ some (live (header ∷ part ∷ []))
queued =
    find-broadcast 2 part first_out.clients (header ∷ [])
      (find-broadcast 2 header asked.clients [] (unfold find in refl))

pub run : Run asked shown served
run =
    next
      (forwards 2 request reader refl
        (round_completed (reader_of asked 2) request
          (read_status_whole (asked.in_flight 2) [] in_buffer) refl)
        refl)
      (next
        (writes_browser request (wire (whole_frame request)) [] refl refl (ws_frame-wire request)
          request_frame)
        (next (reads 0 2 refl (ap (λ p. (p, (read 2 browser).1)) first_heard)) (
          next (reads 0 2 refl (ap (λ p. (p, (read 2 (read 2 browser).1).1)) second_heard)) (
            next (distributes header (part ∷ []) refl) (
              next (distributes part [] refl) (
                next (writes_client 2 header (part ∷ []) queued first_written) (
                  next
                    (writes_client 2 part [] (find-take_front 2 both_out.clients queued)
                      second_written)
                    here)))))))
