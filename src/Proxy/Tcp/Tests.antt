-- ===== src/Proxy/Tcp/Tests.antt =====
-- The theorems about the proxy's TCP side at concrete inputs.
use exfiltrate.Common.{ℕ, List, [], ◌∷◌, true, arith, ◌≡◌, refl, sym}
use exfiltrate.Samples.{stream_of, two_frames}
use exfiltrate.Wire.{new}
use exfiltrate.Proxy.Tcp.{Channel, Reader, reader_loop, writer_loop}
use exfiltrate.Proxy.Tcp.Relay.{Forwards, writer_loop-frames, reader_loop-writer_loop, ended}

abbrev open_channel : Channel
open_channel = record { queue = (9 ∷ []) ∷ []; connected = true }

abbrev two_messages : List (List ℕ)
two_messages = (1 ∷ 2 ∷ []) ∷ (3 ∷ []) ∷ []

written :
    (writer_loop two_messages (stream_of [])).1.sent
    ≡ 0 ∷ 0 ∷ 0 ∷ 2 ∷ 1 ∷ 2 ∷ 0 ∷ 0 ∷ 0 ∷ 1 ∷ 3 ∷ []
written = (writer_loop-frames two_messages (stream_of []) (omega arith) (omega arith)).1

reader_loop-writer_loop_example :
    Forwards
      (reader_loop 30 (record {
        in_flight_message = new;
        stream = stream_of two_frames;
        to_websocket = open_channel;
      }))
      ((9 ∷ []) ∷ (1 ∷ 2 ∷ []) ∷ (3 ∷ []) ∷ [])
reader_loop-writer_loop_example =
    reader_loop-writer_loop two_messages (stream_of []) (stream_of two_frames) open_channel 30
      (omega arith) (omega arith) refl (omega arith) (sym written) refl (omega arith)

abbrev idle : Reader
idle = record {
  in_flight_message = record { bytes = 0 ∷ [] };
  stream = stream_of (ended 3);
  to_websocket = open_channel;
}
