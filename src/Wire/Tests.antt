-- ===== src/Wire/Tests.antt =====
-- Tests of the frames, and the theorems about writing at concrete inputs.
use exfiltrate.Common.{
  ℕ, ◌-◌, ◌^◌, [], ◌∷◌, ◌++◌, take, none, some, arith, ◌≡◌, refl, replicate, length-replicate,
}
use exfiltrate.Stream.{ok, panic, set_nonblocking, read_events}
use exfiltrate.Samples.{stream_of, two_frames}
use exfiltrate.Wire.{
  new, pop_msg, read_status, progress, expected_length, current_length, send_socket_frame,
}
use exfiltrate.Wire.Framing.{frame}
use exfiltrate.Wire.Writing.{oversized_frame}

lengths :
    (expected_length (record { bytes = 0 ∷ 0 ∷ 1 ∷ 2 ∷ 9 ∷ [] }) ≡ some 258)
    × (current_length (record { bytes = 0 ∷ 0 ∷ 1 ∷ 2 ∷ 9 ∷ [] }) ≡ 1)
    × (expected_length new ≡ none)
unfolding expected_length current_length new
lengths = (refl, refl, refl)

first_frame_popped :
    pop_msg (record { bytes = 0 ∷ 0 ∷ 0 ∷ 2 ∷ 7 ∷ 8 ∷ 9 ∷ [] })
    ≡ ok (some (7 ∷ 8 ∷ []), record { bytes = 9 ∷ [] })
unfolding pop_msg
first_frame_popped = refl

header_cut : (read_status (record { bytes = 0 ∷ [] }) (take 2 two_frames)).0 ≡ ok progress
unfolding read_status pop_msg set_nonblocking read_events
header_cut = refl

oversized_frame_example :
    ((send_socket_frame (replicate (2 ^ 32 - 4) 0) (stream_of [])).0 ≡ ok tt)
    × (pop_msg (record { bytes = frame (replicate (2 ^ 32 - 4) 0) ++ [] }) ≡ panic)
oversized_frame_example =
    oversized_frame (stream_of []) (replicate (2 ^ 32 - 4) 0) []
      (omega (arith, length-replicate {A = ℕ} (2 ^ 32 - 4) 0))
      (omega (arith, length-replicate {A = ℕ} (2 ^ 32 - 4) 0)) (omega arith)
