-- ===== src/Client/Tests.antt =====
-- The theorems about the CLI's connection at concrete inputs.
use exfiltrate.Common.{[], ◌∷◌, ◌-◌, ◌^◌, true, arith, ◌≡◌, refl}
use exfiltrate.Common.Text.{text}
use exfiltrate.Stream.{ready, failed, would_block}
use exfiltrate.Response.{string, bytes}
use exfiltrate.Rpc.{CommandResponse}
use exfiltrate.Samples.{small_codec, stream_of}
use exfiltrate.Client.{Popping, awaiting, pop_msg, next_reply_id}
use exfiltrate.Client.Replies.{Returns, whole, pop_msg-whole}
use exfiltrate.Client.Race.{Receiver, recv, exited, recv_takes_reply}

ids_wrap : next_reply_id (2 ^ 32 - 1) ≡ (2 ^ 32 - 1, 0)
unfolding next_reply_id
ids_wrap = refl

abbrev announced : CommandResponse
announced = record { success = true; response = bytes []; reply_id = 7; num_attachments = 1 }

abbrev waiting_for_seven : Popping
waiting_for_seven = record {
  in_flight_message = record { bytes = 0 ∷ [] };
  stream = stream_of (
      ready (0 ∷ 0 ∷ 3 ∷ 3 ∷ 7 ∷ [])
      ∷ failed would_block
      ∷ ready (1 ∷ 0 ∷ 0 ∷ 0 ∷ 2 ∷ 5 ∷ 6 ∷ [])
      ∷ []);
  phase = awaiting;
}

pop_msg-whole_example :
    Returns small_codec 7
      (pop_msg small_codec 7 30 waiting_for_seven)
      (whole announced ((5 ∷ 6 ∷ []) ∷ []))
      []
pop_msg-whole_example =
    pop_msg-whole small_codec 7 30 waiting_for_seven (3 ∷ 7 ∷ 1 ∷ []) announced ((5 ∷ 6 ∷ []) ∷ [])
      [] refl refl refl refl
      (record { split = refl; small = omega arith; fits = omega arith; quiet = omega arith })
      (omega arith)

abbrev listener : Receiver
listener = record {
  in_flight_message = record { bytes = [] };
  stream = stream_of (ready (0 ∷ 0 ∷ 0 ∷ 5 ∷ 1 ∷ 7 ∷ 0 ∷ 104 ∷ 105 ∷ []) ∷ []);
}

recv_takes_reply_example : (recv small_codec 20 listener).0 ≡ exited 0
recv_takes_reply_example =
    recv_takes_reply small_codec 20 listener (1 ∷ 7 ∷ 0 ∷ text "hi") []
      (record { success = true; response = string (text "hi"); reply_id = 7; num_attachments = 0 })
      (text "hi") refl refl
      (record { split = refl; small = omega arith; fits = omega arith; quiet = omega arith })
      (omega arith)
