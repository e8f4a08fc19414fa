-- ===== src/Browser/Tests.antt =====
-- The theorems about the browser's server at concrete inputs.
use exfiltrate.Common.{[], ◌∷◌, true, arith, ◌≡◌, refl, ap, false}
use exfiltrate.Common.Text.{text}
use exfiltrate.Stream.{ok, ready, failed, would_block}
use exfiltrate.Response.{bytes, split_data}
use exfiltrate.Samples.{small_codec, stream_of}
use exfiltrate.Client.{Popping, awaiting, pop_msg, returned, pending}
use exfiltrate.Browser.Sending.{
  onmessage, send_outcome, send_each, and_sent, array_buffer, panicked, pop_msg-cut_short,
}
use exfiltrate.Browser.Start.{
  run, handle, wasm32_go, run_thread, start_worker, go, thread_runs, not_started,
}
use exfiltrate.Browser.Samples.{dumping, dumped, host, dumping_done, two_messages}
use exfiltrate.Browser.Reassembly.{pop_msg-on_message}

abbrev waiting_for_seven : Popping
waiting_for_seven = record {
  in_flight_message = record { bytes = [] };
  stream = stream_of (
      ready (0 ∷ 0 ∷ 0 ∷ 3 ∷ 3 ∷ 7 ∷ [])
      ∷ failed would_block
      ∷ ready (1 ∷ 0 ∷ 0 ∷ 0 ∷ 2 ∷ 5 ∷ 6 ∷ [])
      ∷ []);
  phase = awaiting;
}

pop_msg-on_message_example :
    (pop_msg small_codec 7 30 waiting_for_seven).0
    ≡ returned (
        ok (record {
          success = true;
          response = bytes (5 ∷ 6 ∷ []);
          reply_id = 7;
          num_attachments = 1;
        }))
unfolding split_data
pop_msg-on_message_example =
    pop_msg-on_message small_codec host dumping dumped (0 ∷ 7 ∷ text "dump") 30 waiting_for_seven
      ((3 ∷ 7 ∷ 1 ∷ []) ∷ (5 ∷ 6 ∷ []) ∷ []) [] refl dumping_done two_messages (omega arith) refl
      (record { split = refl; small = omega arith; fits = omega arith; quiet = omega arith })
      (omega arith)

-- The attachment cannot be sent.
half_sent :
    onmessage small_codec host (true ∷ false ∷ []) (array_buffer (0 ∷ 7 ∷ text "dump"))
    ≡ (panicked, (3 ∷ 7 ∷ 1 ∷ []) ∷ [])
unfolding onmessage send_outcome send_each and_sent
half_sent = ap (send_outcome (true ∷ false ∷ [])) two_messages

abbrev half_delivered : Popping
half_delivered = record {
  in_flight_message = record { bytes = [] };
  stream = stream_of (ready (0 ∷ 0 ∷ 0 ∷ 3 ∷ 3 ∷ 7 ∷ 1 ∷ []) ∷ []);
  phase = awaiting;
}

pop_msg-cut_short_example : (pop_msg small_codec 7 100 half_delivered).0 ≡ pending
unfolding split_data
pop_msg-cut_short_example =
    pop_msg-cut_short small_codec host dumping dumped (0 ∷ 7 ∷ text "dump") (true ∷ false ∷ []) 100
      half_delivered ((3 ∷ 7 ∷ 1 ∷ []) ∷ (5 ∷ 6 ∷ []) ∷ []) ((3 ∷ 7 ∷ 1 ∷ []) ∷ []) refl
      dumping_done two_messages (omega arith) half_sent refl
      (record { split = refl; small = omega arith; fits = omega arith; quiet = omega arith })

two_starts :
    run (go true ∷ go true ∷ thread_runs ∷ go false ∷ thread_runs ∷ []) not_started
    ≡ record { receiver = false; spawned = 0; workers = 1; panics = 2 }
unfolding run handle wasm32_go run_thread start_worker
two_starts = refl
