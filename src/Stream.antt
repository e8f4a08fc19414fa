-- ===== src/Stream.antt =====
-- The TCP stream of the standard library, as a script of what the operating system answers to
-- each call, and the results of fallible code.
use exfiltrate.Common.{
  ℕ, List, [], ◌∷◌, ◌++◌, length, take, drop, ltb, true, false, ◌≡◌, if◌then◌else◌,
}

-- `std::io::Error` by its kind; every kind that the code does not name is `other`.
pub data IoError : Type 0 where
  interrupted would_block timed_out write_zero : IoError
  connection_refused permission_denied : IoError
  other : ℕ → IoError

-- A Rust `io::Result`, or a panic.
pub data Outcome {ℓ} (A : Type ℓ) : Type ℓ where
  ok : A → Outcome A
  err : IoError → Outcome A
  panic : Outcome A

-- What the system has ready for one call of `read`: bytes (none of them at the end of the
-- stream), or a failure. `set_nonblocking` may fail before the call.
pub data ReadEvent : Type 0 where
  ready : List ℕ → ReadEvent
  failed : IoError → ReadEvent
  mode_failed : IoError → ReadEvent

-- What one call of `write` does: it takes that many bytes at most, or fails.
pub data WriteEvent : Type 0 where
  takes : ℕ → WriteEvent
  refuses : IoError → WriteEvent

-- Calls past the end of a script find nothing to read, and room for every write.
pub record TcpStream : Type 0 where
  pub reads : List ReadEvent
  pub writes : List WriteEvent
  pub sent : List ℕ

-- The bytes that a script still delivers, in order.
abbrev pub available : List ReadEvent → List ℕ
available [] = []
available (ready bs ∷ es) = bs ++ available es
available (failed e ∷ es) = available es
available (mode_failed e ∷ es) = available es

-- `stream.set_nonblocking(true)`
unfoldable pub set_nonblocking : List ReadEvent → Outcome (Unit {0}) × List ReadEvent
set_nonblocking (mode_failed e ∷ es) = (err e, es)
set_nonblocking es = (ok tt, es)

-- `stream.read(buf)` into a buffer of `size` bytes. What does not fit stays for the next call.
unfoldable pub read_events : ℕ → List ReadEvent → Outcome (List ℕ) × List ReadEvent
read_events size [] = (err would_block, [])
read_events size (ready bs ∷ es) =
    if ltb size (length bs) then (ok (take size bs), ready (drop size bs) ∷ es) else (ok bs, es)
read_events size (failed e ∷ es) = (err e, es)
read_events size (mode_failed e ∷ es) = read_events size es

-- A read takes what fits, and leaves the rest.
pub read_events_long :
    (size : ℕ) (bs : List ℕ) (es : List ReadEvent)
    → ltb size (length bs) ≡ true
    → read_events size (ready bs ∷ es) ≡ (ok (take size bs), ready (drop size bs) ∷ es)
unfolding read_events
read_events_long size bs es h = rw h

pub read_events_short :
    (size : ℕ) (bs : List ℕ) (es : List ReadEvent)
    → ltb size (length bs) ≡ false
    → read_events size (ready bs ∷ es) ≡ (ok bs, es)
unfolding read_events
read_events_short size bs es h = rw h
