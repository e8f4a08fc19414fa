-- ===== src/Wire/Framing.antt =====
-- Frames as they stand on the stream, and what `pop_msg` makes of a buffer that holds the first
-- bytes of a stream of frames.
use exfiltrate.Common.{ℕ, ◌+◌, ◌-◌, ◌^◌, ◌≤◌, ◌<◌, List, [], ◌∷◌, ◌++◌, length, take, drop}
use exfiltrate.Common.{none, some, ltb, arith, ◌≡◌, sym, ap, ◌∙◌}
use exfiltrate.Common.{
  Bool-cases, inl, inr, length-drop, take-append_le, drop-append_le, take-append_length,
  drop-append_length, ltb→lt, lt→ltb, ltb_false→le, le→ltb_false,
}
use exfiltrate.Common.Bytes.{to_be_bytes, from_be_bytes, from_be_bytes-to_be_bytes_u32}
use exfiltrate.Stream.{ok, panic}
use exfiltrate.Wire.{InFlightMessage, pop_msg}

-- A message as the protocol puts it on the stream: its length as a big-endian `u32`, and itself.
abbrev pub frame : List ℕ → List ℕ
frame msg = to_be_bytes 4 (length msg) ++ msg

abbrev pub frames : List (List ℕ) → List ℕ
frames [] = []
frames (msg ∷ msgs) = frame msg ++ frames msgs

header :
    (msg rest : List ℕ)
    → length msg < 2 ^ 32
    → from_be_bytes (take 4 (frame msg ++ rest)) ≡ length msg
header msg rest h = from_be_bytes-to_be_bytes_u32 (length msg) h

-- The first four bytes of a stream of frames are known once they are in.
module _ (m : InFlightMessage) (later msg rest : List ℕ)
    (split : m.bytes ++ later ≡ frame msg ++ rest) (fits : length msg < 2 ^ 32)
    (four : 4 ≤ length m.bytes) where
  header_of_buffer : from_be_bytes (take 4 m.bytes) ≡ length msg
  header_of_buffer =
      ap from_be_bytes (sym (take-append_le 4 m.bytes later four) ∙ ap (take 4) split)
      ∙ header msg rest fits

  body_of_buffer : drop 4 m.bytes ++ later ≡ msg ++ rest
  body_of_buffer = sym (drop-append_le 4 m.bytes later four) ∙ ap (drop 4) split

  take_body : length msg + 4 ≤ length m.bytes → take (length msg) (drop 4 m.bytes) ≡ msg
  take_body long =
      sym
        (take-append_le (length msg) (drop 4 m.bytes) later (omega (arith, length-drop 4 m.bytes)))
      ∙ ap (take (length msg)) body_of_buffer
      ∙ take-append_length msg rest

  pub drop_body :
      length msg + 4 ≤ length m.bytes → drop (length msg) (drop 4 m.bytes) ++ later ≡ rest
  drop_body long =
      sym
        (drop-append_le (length msg) (drop 4 m.bytes) later (omega (arith, length-drop 4 m.bytes)))
      ∙ ap (drop (length msg)) body_of_buffer
      ∙ drop-append_length msg rest

  -- A whole frame in the buffer is taken off it.
  pub pop_msg_complete :
      length m.bytes < 2 ^ 32
      → length msg + 4 ≤ length m.bytes
      → pop_msg m ≡ ok (some msg, record m { bytes = drop (length msg) (drop 4 m.bytes) })
  unfolding pop_msg
  pop_msg_complete small long = rw (
    header_of_buffer,
    le→ltb_false (length m.bytes) 4 four,
    lt→ltb (length m.bytes) (2 ^ 32) small,
    le→ltb_false (length m.bytes - 4) (length msg) (omega arith),
    take_body long,
  )

  pop_msg_partial_body :
      length m.bytes < 2 ^ 32 → length m.bytes < length msg + 4 → pop_msg m ≡ ok (none, m)
  unfolding pop_msg
  pop_msg_partial_body small short = rw (
    header_of_buffer,
    le→ltb_false (length m.bytes) 4 four,
    lt→ltb (length m.bytes) (2 ^ 32) small,
    lt→ltb (length m.bytes - 4) (length msg) (omega arith),
  )

pop_msg_no_header : (m : InFlightMessage) → length m.bytes < 4 → pop_msg m ≡ ok (none, m)
unfolding pop_msg
pop_msg_no_header m h = rw (lt→ltb (length m.bytes) 4 h)

-- Less than a frame is left alone.
pub pop_msg_partial :
    (m : InFlightMessage) (later msg rest : List ℕ)
    → m.bytes ++ later ≡ frame msg ++ rest
    → length msg < 2 ^ 32
    → length m.bytes < 2 ^ 32
    → length m.bytes < length msg + 4
    → pop_msg m ≡ ok (none, m)
pop_msg_partial m later msg rest split fits small short =
    elim (Bool-cases (ltb (length m.bytes) 4)) [
      | inl few ↦ pop_msg_no_header m (ltb→lt _ _ few)
      | inr four ↦
          pop_msg_partial_body m later msg rest split fits (ltb_false→le _ _ four) small short
    ]

-- A buffer that has outgrown a `u32` makes `pop_msg` panic, whatever it holds.
pub pop_msg_too_large : (m : InFlightMessage) → 2 ^ 32 ≤ length m.bytes → pop_msg m ≡ panic
unfolding pop_msg
pop_msg_too_large m h =
    rw (le→ltb_false (length m.bytes) 4 (omega arith), le→ltb_false (length m.bytes) (2 ^ 32) h)
