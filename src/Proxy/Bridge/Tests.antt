-- ===== src/Proxy/Bridge/Tests.antt =====
-- A run of the proxy with one browser and one client: the browser's message goes to the client and
-- the client's to the browser.
use exfiltrate.Common.{List, [], ◌∷◌, true, some, arith, ◌≡◌, refl, ap, ◌==◌, false}
use exfiltrate.Common.Table.{update}
use exfiltrate.Stream.{ok, ready, read_events}
use exfiltrate.Samples.{stream_of}
use exfiltrate.Wire.{new, pop_msg, send_socket_frame}
use exfiltrate.Wire.Framing.{pop_msg_complete}
use exfiltrate.Wire.Writing.{send_socket_frame-IsTolerated}
use exfiltrate.Wire.Reading.{read_status_whole}
use exfiltrate.Proxy.Tcp.{Reader, broadcast}
use exfiltrate.Proxy.Tcp.Relay.{round_completed}
use exfiltrate.Proxy.Tcp.Clients.{find, live, find-broadcast}
use exfiltrate.Proxy.Frame.{
  parse, parse_loop, next_frame, first_frame, is_fin, opcode, is_masked, length_field, take_payload,
  send_data,
}
use exfiltrate.Proxy.Frame.Header.{size_bytes}
use exfiltrate.Proxy.Frame.Fragments.{wire}
use exfiltrate.Proxy.Frame.Messages.{whole_frame}
use exfiltrate.Proxy.Socket.{Websocket, read, read_round, try_parse_frame, returned}
use exfiltrate.Proxy.Handshake.{write_all}
use exfiltrate.Proxy.Bridge.{
  Bridge, Label, heard, forwarded, inner, Step, reads, distributes, writes_client, forwards,
  writes_browser, Run, here, next, reader_of, after_reader, take_front,
}
use exfiltrate.Proxy.Socket.Delivery.{Delivers}
use exfiltrate.Proxy.Bridge.Heard.{Hears, Run-Hears}
use exfiltrate.Proxy.Bridge.Flush.{Written, Run-Written}
use exfiltrate.Proxy.Bridge.Serving.{IsHalted, Run-IsHalted}
use exfiltrate.Proxy.Bridge.Down.{Run-Served}
use exfiltrate.Proxy.Bridge.Writers.{Served}
use exfiltrate.Proxy.Bridge.Readers.{Run-Keeps}
use exfiltrate.Proxy.Bridge.Rounds.{Keeps}
use exfiltrate.Proxy.Bridge.Up.{ws_frame-wire}

abbrev browser : Websocket
browser = record {
  frame_parser = record { parsed_data = []; unparsed_data = []; frames_received = 0 };
  reads = ready (130 ∷ 2 ∷ 5 ∷ 6 ∷ []) ∷ [];
}

-- The client's message is in its buffer already.
abbrev two_ends : Bridge
two_ends = record {
  accepting = true;
  serving = true;
  clients = record { tag = 2; channel = live [] } ∷ [];
  accepted = λ t. t == 2;
  streams = λ t. stream_of [];
  in_flight = λ t. record { bytes = 0 ∷ 0 ∷ 0 ∷ 1 ∷ 7 ∷ [] };
  reading = λ t. t == 2;
  browsers = λ k. browser;
  opened = 1;
  listening = λ k. k == 0;
  from_websocket = [];
  to_websocket = [];
  writing = true;
  writes = [];
  sent = [];
}

first_message : (read 2 browser).0 ≡ returned (5 ∷ 6 ∷ [])
unfolding read read_round try_parse_frame parse parse_loop next_frame first_frame is_fin opcode
    is_masked length_field take_payload send_data read_events
first_message = refl

abbrev heard_it : Bridge
heard_it = record two_ends {
  browsers = update two_ends.browsers 0 (read 2 browser).1;
  from_websocket = (5 ∷ 6 ∷ []) ∷ [];
}

Step-reads : Step two_ends (heard 0 (5 ∷ 6 ∷ [])) heard_it
Step-reads = reads 0 2 refl (ap (λ p. (p, (read 2 browser).1)) first_message)

in_buffer : pop_msg (two_ends.in_flight 2) ≡ ok (some (7 ∷ []), new)
in_buffer =
    unfold new in
    pop_msg_complete (record { bytes = 0 ∷ 0 ∷ 0 ∷ 1 ∷ 7 ∷ [] }) [] (7 ∷ []) [] refl (omega arith)
      (omega arith) (omega arith) (omega arith)

abbrev reader : Reader
reader = record {
  in_flight_message = new;
  stream = stream_of [];
  to_websocket = live ((7 ∷ []) ∷ []);
}

abbrev passed_on : Bridge
passed_on = after_reader heard_it 2 reader

Step-forwards : Step heard_it (forwarded 2 (7 ∷ [])) passed_on
Step-forwards =
    forwards 2 (7 ∷ []) reader refl
      (round_completed (reader_of heard_it 2) (7 ∷ [])
        (read_status_whole (two_ends.in_flight 2) [] in_buffer) refl)
      refl

abbrev distributed : Bridge
distributed = record passed_on {
  clients = broadcast (5 ∷ 6 ∷ []) two_ends.clients;
  from_websocket = [];
}

Step-distributes : Step passed_on inner distributed
Step-distributes = distributes (5 ∷ 6 ∷ []) [] refl

queued : find 2 distributed.clients ≡ some (live ((5 ∷ 6 ∷ []) ∷ []))
queued = find-broadcast 2 (5 ∷ 6 ∷ []) two_ends.clients [] (unfold find in refl)

abbrev served : Bridge
served = record distributed {
  clients = take_front 2 distributed.clients;
  streams = update distributed.streams 2 (send_socket_frame (5 ∷ 6 ∷ []) (stream_of [])).1;
}

Step-writes_client : Step distributed inner served
Step-writes_client = writes_client 2 (5 ∷ 6 ∷ []) [] queued (
    ap (λ r. (r, (send_socket_frame (5 ∷ 6 ∷ []) (stream_of [])).1))
      (ap (λ x. x.0)
        (send_socket_frame-IsTolerated (stream_of []) (5 ∷ 6 ∷ []) (omega arith) (omega arith)).1))

abbrev both_served : Bridge
both_served = record served { to_websocket = []; sent = 130 ∷ 1 ∷ 7 ∷ [] }

one_frame : write_all [] (wire (whole_frame (7 ∷ []))) ≡ (ok tt, [], 130 ∷ 1 ∷ 7 ∷ [])
unfolding write_all size_bytes
one_frame = refl

Step-writes_browser : Step served inner both_served
Step-writes_browser =
    writes_browser (7 ∷ []) (wire (whole_frame (7 ∷ []))) [] refl refl (ws_frame-wire (7 ∷ []))
      one_frame

abbrev shown : List Label
shown = heard 0 (5 ∷ 6 ∷ []) ∷ forwarded 2 (7 ∷ []) ∷ inner ∷ inner ∷ inner ∷ []

run : Run two_ends shown both_served
run = next Step-reads (
    next Step-forwards
      (next Step-distributes (next Step-writes_client (next Step-writes_browser here))))

Run-Served_example : Served 2 two_ends [] ((5 ∷ 6 ∷ []) ∷ []) both_served
Run-Served_example = Run-Served 2 [] run (unfold find in refl) tt

Run-Keeps_example : Keeps 2 both_served ((7 ∷ []) ∷ []) shown
Run-Keeps_example =
    Run-Keeps 2 ((7 ∷ []) ∷ []) run refl tt refl
      (record { split = refl; small = omega arith; fits = omega arith; quiet = tt })

-- The thread that accepts browsers is gone; the client's message is still in its buffer.
abbrev without_browsers : Bridge
without_browsers = record two_ends { serving = false }

Run-IsHalted_example :
    IsHalted without_browsers (heard 0 (5 ∷ 6 ∷ []) ∷ []) (record without_browsers {
      browsers = update two_ends.browsers 0 (read 2 browser).1;
      from_websocket = (5 ∷ 6 ∷ []) ∷ [];
    })
Run-IsHalted_example =
    Run-IsHalted (next (reads 0 2 refl (ap (λ p. (p, (read 2 browser).1)) first_message)) here) refl

browser-Delivers : Delivers browser ((5 ∷ 6 ∷ []) ∷ [])
unfolding parse parse_loop next_frame first_frame is_fin opcode is_masked length_field take_payload
    send_data
browser-Delivers = record {
  gives = (
    false,
    record { parsed_data = []; unparsed_data = []; frames_received = 0 },
    refl,
    (λ e. cc),
    refl,
  );
  patient = (tt, tt);
}

Run-Hears_example : Hears 0 both_served ((5 ∷ 6 ∷ []) ∷ []) shown
Run-Hears_example = Run-Hears 0 ((5 ∷ 6 ∷ []) ∷ []) run (omega arith) browser-Delivers

Run-Written_example : Written 2 two_ends ((7 ∷ []) ∷ [])
Run-Written_example =
    Run-Written 2 ((7 ∷ []) ∷ []) two_ends
      (record { split = refl; small = omega arith; fits = omega arith; quiet = tt }) refl refl refl
      tt
