-- ===== src/Proxy/Frame/Tests.antt =====
-- The theorems about WebSocket frames at concrete inputs.
use exfiltrate.Common.{ℕ, ◌-◌, ◌^◌, List, [], ◌∷◌, ◌++◌, true, false, arith, ◌≡◌, ◌≢◌, refl}
use exfiltrate.Stream.{ok, panic}
use exfiltrate.Proxy.Frame.{
  first_frame, is_fin, opcode, is_masked, length_field, take_payload, WebsocketFrameParser, Parsed,
  panicked, stuck, new, send_data, parse, from_bytes, Read, to_bytes,
}
use exfiltrate.Proxy.Frame.Header.{size_bytes}
use exfiltrate.Proxy.Frame.Pieces.{Resumes, parse-Resumes}
use exfiltrate.Proxy.Frame.Fragments.{Fragment, wire}
use exfiltrate.Proxy.Frame.Messages.{wires, parse-to_bytes, finished}
use exfiltrate.Proxy.Frame.Agreement.{parse-from_bytes, parse-ne-stuck}
use exfiltrate.Proxy.Frame.Closing.{parse_overflow}

-- Two frames, the second masked.
abbrev first_half : Fragment
first_half = record {
  fin = false;
  continuation = false;
  masked = false;
  key = 0 ∷ 0 ∷ 0 ∷ 0 ∷ [];
  payload = 1 ∷ 2 ∷ [];
}

abbrev second_half : Fragment
second_half = record {
  fin = true;
  continuation = true;
  masked = true;
  key = 7 ∷ 8 ∷ 9 ∷ 10 ∷ [];
  payload = 3 ∷ [];
}

abbrev receiving : WebsocketFrameParser
receiving = record {
  parsed_data = [];
  unparsed_data = wires (first_half ∷ []) ++ (wire second_half ++ (130 ∷ []));
  frames_received = 0;
}

parse-to_bytes_example :
    (bs : List ℕ) × (to_bytes (record { payload = 5 ∷ 6 ∷ []; mask = false }) ≡ ok bs)
    × (parse (send_data bs new)
        ≡ (Parsed.complete (record { payload = 5 ∷ 6 ∷ []; mask = false }), new))
    × (to_bytes (record { payload = 5 ∷ 6 ∷ []; mask = true }) ≡ panic)
parse-to_bytes_example = parse-to_bytes (5 ∷ 6 ∷ []) (omega arith) (omega arith)

-- A frame of `5 6`, and the first byte of another.
abbrev two_bytes : List ℕ
two_bytes = 130 ∷ 2 ∷ 5 ∷ 6 ∷ 130 ∷ []

read_two_bytes :
    from_bytes two_bytes ≡ Read.complete (record { payload = 5 ∷ 6 ∷ []; mask = false }) 4
unfolding from_bytes first_frame is_fin opcode is_masked length_field take_payload
read_two_bytes = refl

parse-from_bytes_example :
    parse (send_data two_bytes new)
    ≡ (Parsed.complete (record { payload = 5 ∷ 6 ∷ []; mask = false }), finished (130 ∷ []))
parse-from_bytes_example =
    parse-from_bytes two_bytes (record { payload = 5 ∷ 6 ∷ []; mask = false }) 4 read_two_bytes

parse-ne-stuck_example : (parse receiving).0 ≢ stuck
parse-ne-stuck_example = parse-ne-stuck receiving

abbrev hostile : WebsocketFrameParser
hostile = record {
  parsed_data = [];
  unparsed_data = 130 ∷ 127 ∷ 255 ∷ 255 ∷ 255 ∷ 255 ∷ 255 ∷ 255 ∷ 255 ∷ 255 ∷ [];
  frames_received = 0;
}

parse_overflow_example : parse hostile ≡ (panicked, hostile)
unfolding size_bytes
parse_overflow_example =
    parse_overflow hostile false (2 ^ 64 - 1) [] (omega arith) (omega arith) refl

-- A frame of two bytes, of which one has come in.
abbrev cut_frame : WebsocketFrameParser
cut_frame = record { parsed_data = []; unparsed_data = 130 ∷ 2 ∷ 7 ∷ []; frames_received = 0 }

parse-Resumes_example :
    Resumes (parse cut_frame) (parse (send_data (8 ∷ 9 ∷ []) cut_frame)) (8 ∷ 9 ∷ [])
parse-Resumes_example = parse-Resumes cut_frame (8 ∷ 9 ∷ [])
