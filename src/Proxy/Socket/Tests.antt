-- ===== src/Proxy/Socket/Tests.antt =====
-- The theorems about the proxy's WebSocket at concrete inputs.
use exfiltrate.Common.{ℕ, List, [], ◌∷◌, arith, ◌≡◌, ◌≢◌, refl, true, false}
use exfiltrate.Stream.{ready, failed, timed_out, read_events}
use exfiltrate.Proxy.Frame.{
  parse, parse_loop, next_frame, first_frame, is_fin, opcode, is_masked, length_field, take_payload,
  send_data,
}
use exfiltrate.Proxy.Socket.{Websocket, read, read_round, try_parse_frame, returned, waiting}
use exfiltrate.Proxy.Frame.{unmask_from}
use exfiltrate.Proxy.Frame.Header.{size_bytes}
use exfiltrate.Proxy.Frame.Fragments.{Fragment, wire}
use exfiltrate.Proxy.Socket.Delivery.{Delivers}
use exfiltrate.Proxy.Socket.Arrivals.{Message, IsMessage, read_lem}
use exfiltrate.Proxy.Socket.Reading.{AtClose, read-ne-nil, read_after_close}

-- An empty message, and then one of two bytes.
abbrev empty_first : Websocket
empty_first = record {
  frame_parser = record { parsed_data = []; unparsed_data = []; frames_received = 0 };
  reads = ready (130 ∷ 0 ∷ 130 ∷ 2 ∷ 5 ∷ 6 ∷ []) ∷ failed timed_out ∷ [];
}

second_returned : (read 3 empty_first).0 ≡ returned (5 ∷ 6 ∷ [])
unfolding read read_round try_parse_frame parse parse_loop next_frame first_frame is_fin opcode
    is_masked length_field take_payload send_data read_events
second_returned = refl

read-ne-nil_example : ◌≢◌ {A = List ℕ} (5 ∷ 6 ∷ []) []
read-ne-nil_example = read-ne-nil 3 empty_first second_returned

-- A close frame, and then a message.
abbrev closing : Websocket
closing = record {
  frame_parser = record { parsed_data = []; unparsed_data = 136 ∷ 0 ∷ []; frames_received = 0 };
  reads = ready (130 ∷ 1 ∷ 5 ∷ []) ∷ ready [] ∷ [];
}

closing-AtClose : AtClose closing
unfolding opcode
closing-AtClose = record { two = omega arith; close = refl }

read_after_close_example : (read 5 closing).0 ≡ waiting
read_after_close_example = read_after_close 5 closing closing-AtClose (omega arith)

-- One message in two frames, the second masked; a read times out between them.
abbrev first_half : Fragment
first_half = record {
  fin = false;
  continuation = false;
  masked = false;
  key = 0 ∷ 0 ∷ 0 ∷ 0 ∷ [];
  payload = 1 ∷ 2 ∷ [];
}

abbrev second_half : Fragment
second_half = record {
  fin = true;
  continuation = true;
  masked = true;
  key = 7 ∷ 8 ∷ 9 ∷ 10 ∷ [];
  payload = 3 ∷ [];
}

abbrev halves : Message
halves = record { before = first_half ∷ []; last = second_half }

abbrev halving : Websocket
halving = record {
  frame_parser = record { parsed_data = []; unparsed_data = 2 ∷ []; frames_received = 0 };
  reads = ready (2 ∷ 1 ∷ 2 ∷ []) ∷ failed timed_out ∷ ready (wire second_half) ∷ [];
}

halves-IsMessage : IsMessage halves
halves-IsMessage = record {
  opened = (
    (
      record { key_size = refl; key_bytes = omega arith; bytes = omega arith; size = omega arith },
      refl,
    ),
    tt,
  );
  fragment = record {
    key_size = refl;
    key_bytes = omega arith;
    bytes = omega arith;
    size = omega arith;
  };
  final = refl;
  some_bytes = λ e. cc;
}

read_lem_example :
    (w' : Websocket) × (read 20 halving ≡ (returned (1 ∷ 2 ∷ 3 ∷ []), w')) × Delivers w' []
unfolding size_bytes unmask_from
read_lem_example =
    read_lem 20 halving halves [] refl refl (halves-IsMessage, tt) (tt, (tt, (tt, tt)))
      (omega arith)
