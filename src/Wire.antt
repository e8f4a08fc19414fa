-- ===== src/Wire.antt =====
-- exfiltrate_internal/src/wire.rs: length-prefixed frames over a stream.
-- `usize` has 64 bits, so `u32` to `usize` never fails.
mod Tests
pub mod Framing
pub mod Delivery
pub mod Reading
pub mod Writing
use exfiltrate.Common.{ℕ, suc, zero, ◌-◌, ◌^◌, List, [], ◌∷◌, ◌++◌, length, take, drop}
use exfiltrate.Common.{Option, none, some, ltb, if◌then◌else◌}
use exfiltrate.Common.Bytes.{to_be_bytes, from_be_bytes}
use exfiltrate.Stream.{
  Outcome, ok, err, panic, TcpStream, ReadEvent, WriteEvent, read_events, set_nonblocking,
}
use exfiltrate.Stream.{takes, refuses}
use exfiltrate.Stream.{interrupted, would_block, write_zero}

pub data ReadStatus : Type 0 where
  completed : List ℕ → ReadStatus
  progress : ReadStatus
  blocked : ReadStatus

-- The scratch buffer `buf` carries nothing from one call to the next; only its size is kept.
pub record InFlightMessage : Type 0 where
  pub bytes : List ℕ

abbrev pub buf_size : ℕ
buf_size = 1024

unfoldable pub new : InFlightMessage
new = record { bytes = [] }

pub add_bytes : InFlightMessage → List ℕ → InFlightMessage
add_bytes m bs = record m { bytes = m.bytes ++ bs }

-- `write_all_robust`: an interrupted write or a full socket is tried again.
unfoldable pub write_all_events :
    List WriteEvent → List ℕ → List ℕ → Outcome (Unit {0}) × List WriteEvent × List ℕ
write_all_events events sent [] = (ok tt, events, sent)
write_all_events [] sent buf = (ok tt, [], sent ++ buf)
write_all_events (takes zero ∷ events) sent (b ∷ bs) = (err write_zero, events, sent)
write_all_events (takes (suc n) ∷ events) sent (b ∷ bs) =
    write_all_events events (sent ++ take (suc n) (b ∷ bs)) (drop (suc n) (b ∷ bs))
write_all_events (refuses interrupted ∷ events) sent buf = write_all_events events sent buf
write_all_events (refuses would_block ∷ events) sent buf = write_all_events events sent buf
write_all_events (refuses e ∷ events) sent buf = (err e, events, sent)

unfoldable pub write_all_robust : TcpStream → List ℕ → Outcome (Unit {0}) × TcpStream
write_all_robust s buf =
    let (r, events, sent) = write_all_events s.writes s.sent buf in
    (r, record s { writes = events; sent = sent })

-- The payload goes out where the header did.
send_payload : List ℕ → Outcome (Unit {0}) × TcpStream → Outcome (Unit {0}) × TcpStream
send_payload msg (ok _, s) = write_all_robust s msg
send_payload msg (err e, s) = (err e, s)
send_payload msg (panic, s) = (panic, s)

-- `msg.len()` is converted to a `u32`, which panics where it does not fit.
unfoldable pub send_socket_frame : List ℕ → TcpStream → Outcome (Unit {0}) × TcpStream
unfolding send_payload
send_socket_frame msg s =
    if ltb (length msg) (2 ^ 32)
    then send_payload msg (write_all_robust s (to_be_bytes 4 (length msg)))
    else (panic, s)

pub pop_msg : InFlightMessage → Outcome (Option (List ℕ) × InFlightMessage)
pop_msg m =
    if ltb (length m.bytes) 4
    then ok (none, m)
    else let len = from_be_bytes (take 4 m.bytes) in
      if ltb (length m.bytes) (2 ^ 32)
      then (if ltb (length m.bytes - 4) len
          then ok (none, m)
          else ok
              (some (take len (drop 4 m.bytes)), record m { bytes = drop len (drop 4 m.bytes) }))
      else panic

pub expected_length : InFlightMessage → Option ℕ
expected_length m = if ltb (length m.bytes) 4 then none else some (from_be_bytes (take 4 m.bytes))

pub current_length : InFlightMessage → ℕ
current_length m = if ltb (length m.bytes) 4 then 0 else length m.bytes - 4

-- The end of `read_stream`, after `add_bytes(read_data)`.
status_after : List ℕ → InFlightMessage → Outcome ReadStatus × InFlightMessage
status_after read_data m = elim (pop_msg m) [
  | ok (some msg, m') ↦ (ok (completed msg), m')
  | ok (none, m') ↦ elim read_data [ [] ↦ (ok blocked, m') | b ∷ bs ↦ (ok progress, m') ]
  | err e ↦ (err e, m)
  | panic ↦ (panic, m)
]

-- What follows the call of `read`: a read that would block is no error.
take_answer :
    InFlightMessage
    → Outcome (List ℕ) × List ReadEvent
    → Outcome ReadStatus × InFlightMessage × List ReadEvent
unfolding status_after add_bytes
take_answer m (ok read_data, es) =
    let (r, m') = status_after read_data (add_bytes m read_data) in (r, m', es)
take_answer m (err would_block, es) = (ok blocked, m, es)
take_answer m (err e, es) = (err e, m, es)
take_answer m (panic, es) = (panic, m, es)

read_more :
    InFlightMessage
    → Outcome (Unit {0}) × List ReadEvent
    → Outcome ReadStatus × InFlightMessage × List ReadEvent
unfolding take_answer
read_more m (ok _, es) = take_answer m (read_events buf_size es)
read_more m (err e, es) = (err e, m, es)
read_more m (panic, es) = (panic, m, es)

pub read_status :
    InFlightMessage → List ReadEvent → Outcome ReadStatus × InFlightMessage × List ReadEvent
unfolding read_more
read_status m es = elim (pop_msg m) [
  | ok (some msg, m') ↦ (ok (completed msg), m', es)
  | ok (none, m') ↦ read_more m' (set_nonblocking es)
  | err e ↦ (err e, m, es)
  | panic ↦ (panic, m, es)
]

pub read_stream : InFlightMessage → TcpStream → Outcome ReadStatus × InFlightMessage × TcpStream
read_stream m s = let (r, m', es) = read_status m s.reads in (r, m', record s { reads = es })
