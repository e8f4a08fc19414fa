-- ===== src/Proxy/Tcp/Relay.antt =====
-- A client's bytes through the reader thread to the WebSocket, and a client's queue through the
-- writer thread to its stream.
use exfiltrate.Common.{
  ℕ, suc, zero, ◌+◌, ◌*◌, ◌^◌, ◌≤◌, ◌<◌, List, [], ◌∷◌, ◌++◌, length, true, false,
}
use exfiltrate.Common.{
  arith, ◌≡◌, ◌≢◌, refl, sym, ap, ◌∙◌, All, Bool-cases, inl, inr, append_assoc, append-nil,
}
use exfiltrate.Stream.{Outcome, ok, err, panic, TcpStream, ReadEvent, ready, available}
use exfiltrate.Wire.{
  InFlightMessage, ReadStatus, read_stream, completed, progress, blocked, read_status, new,
}
use exfiltrate.Wire.Framing.{frame, frames}
use exfiltrate.Wire.Delivery.{Delivers, work_left, IsQuiet, FitsBuffer, no_work_left}
use exfiltrate.Wire.Reading.{
  delivered, made_progress, found_nothing, read_status-Round, read_stream_lem, read_stream_sent,
}
use exfiltrate.Wire.Writing.{IsTolerated, send_socket_frame-IsTolerated}
use exfiltrate.Loop.{Thread, running, loop, loop_step}
use exfiltrate.Proxy.Tcp.{after_read, Channel, send, Reader, reader_round, reader_loop, writer_loop}

abbrev pub at_state : Reader → InFlightMessage → List ReadEvent → Reader
at_state r m es = record r { in_flight_message = m; stream = record r.stream { reads = es } }

module _ (r : Reader) {m : InFlightMessage} {es : List ReadEvent} where
  pub round_completed :
      (msg : List ℕ)
      → read_status r.in_flight_message r.stream.reads ≡ (ok (completed msg), m, es)
      → r.to_websocket.connected ≡ true
      → reader_round r ≡ (
        running,
        record (at_state r m es) {
          to_websocket = record r.to_websocket { queue = r.to_websocket.queue ++ msg ∷ [] };
        },
      )
  unfolding reader_round send
  round_completed msg p alive =
      ap (after_read r) (read_stream_lem r.in_flight_message r.stream p) ∙ rw alive

  pub round_progress :
      read_status r.in_flight_message r.stream.reads ≡ (ok progress, m, es)
      → reader_round r ≡ (running, at_state r m es)
  unfolding reader_round
  round_progress p = ap (after_read r) (read_stream_lem r.in_flight_message r.stream p)

  pub round_blocked :
      read_status r.in_flight_message r.stream.reads ≡ (ok blocked, m, es)
      → reader_round r ≡ (running, at_state r m es)
  unfolding reader_round
  round_blocked p = ap (after_read r) (read_stream_lem r.in_flight_message r.stream p)

-- A round of a reader thread writes nothing.
after_read_stream :
    (r : Reader) (x : Outcome ReadStatus × InFlightMessage × TcpStream)
    → (after_read r x).1.stream ≡ x.2
unfolding after_read
after_read_stream r (err e, m, s) = refl
after_read_stream r (panic, m, s) = refl
after_read_stream r (ok blocked, m, s) = refl
after_read_stream r (ok progress, m, s) = refl
after_read_stream r (ok (completed pop), m, s) = refl

pub reader_round_sent : (r : Reader) → (reader_round r).1.stream.sent ≡ r.stream.sent
unfolding reader_round
reader_round_sent r =
    ap (λ s. s.sent) (after_read_stream r (read_stream r.in_flight_message r.stream))
    ∙ read_stream_sent r.in_flight_message r.stream

-- A round that ends the thread forwards nothing.
after_read_queue :
    (r : Reader) (x : Outcome ReadStatus × InFlightMessage × TcpStream)
    → (after_read r x).0 ≢ running
    → (after_read r x).1.to_websocket ≡ r.to_websocket
unfolding after_read send
after_read_queue r (err e, m, s) over = refl
after_read_queue r (panic, m, s) over = refl
after_read_queue r (ok blocked, m, s) over = refl
after_read_queue r (ok progress, m, s) over = refl
after_read_queue r (ok (completed pop), m, s) over = elim (Bool-cases r.to_websocket.connected) [
  | inl alive ↦ absurd (over (rw alive))
  | inr closed ↦ rw closed
]

pub reader_round_queue :
    (r : Reader) → (reader_round r).0 ≢ running → (reader_round r).1.to_websocket ≡ r.to_websocket
unfolding reader_round
reader_round_queue r = after_read_queue r (read_stream r.in_flight_message r.stream)

-- Without a receiver, no round forwards anything.
after_read_closed :
    (r : Reader) (x : Outcome ReadStatus × InFlightMessage × TcpStream)
    → r.to_websocket.connected ≡ false
    → (after_read r x).1.to_websocket ≡ r.to_websocket
unfolding after_read send
after_read_closed r (err e, m, s) closed = refl
after_read_closed r (panic, m, s) closed = refl
after_read_closed r (ok blocked, m, s) closed = refl
after_read_closed r (ok progress, m, s) closed = refl
after_read_closed r (ok (completed pop), m, s) closed = rw closed

pub reader_round_closed :
    (r : Reader)
    → r.to_websocket.connected ≡ false
    → (reader_round r).1.to_websocket ≡ r.to_websocket
unfolding reader_round
reader_round_closed r = after_read_closed r (read_stream r.in_flight_message r.stream)

abbrev pub Forwards : Thread × Reader → List (List ℕ) → Type 0
Forwards x queue = (x.0 ≡ running) × (x.1.to_websocket.queue ≡ queue)

-- With as many rounds as there is work, every message is forwarded, in order.
pub reader_loop-Forwards :
    (rounds : ℕ) (r : Reader) (msgs : List (List ℕ))
    → Delivers r.in_flight_message r.stream.reads msgs
    → r.to_websocket.connected ≡ true
    → work_left r.in_flight_message r.stream.reads ≤ rounds
    → Forwards (reader_loop rounds r) (r.to_websocket.queue ++ msgs)
unfolding reader_loop
reader_loop-Forwards zero r msgs d alive enough =
    unfold loop in
    (refl, rw (no_work_left _ _ msgs d (omega arith)) (sym (append-nil r.to_websocket.queue)))
reader_loop-Forwards (suc rounds) r msgs d alive enough =
    elim (read_status-Round r.in_flight_message r.stream.reads msgs d) [
      | delivered msg rest m' es' e p d' less ↦
          let r' : Reader = record (at_state r m' es') {
            to_websocket = record r.to_websocket { queue = r.to_websocket.queue ++ msg ∷ [] };
          } in
          rw
            (
              loop_step reader_round rounds r (round_completed r msg p alive),
              e,
              ← append_assoc r.to_websocket.queue (msg ∷ []) rest,
            )
            (reader_loop-Forwards rounds r' rest d' alive (omega arith))
      | made_progress m' es' p d' less ↦
          rw (loop_step reader_round rounds r (round_progress r p))
            (reader_loop-Forwards rounds (at_state r m' es') msgs d' alive (omega arith))
      | found_nothing m' es' p d' less ↦
          rw (loop_step reader_round rounds r (round_blocked r p))
            (reader_loop-Forwards rounds (at_state r m' es') msgs d' alive (omega arith))
    ]

-- The writer thread of a client puts the frames of its queue on the stream, in order.
pub writer_loop-frames :
    (msgs : List (List ℕ)) (s : TcpStream)
    → All (λ msg. length msg < 2 ^ 32) msgs
    → All IsTolerated s.writes
    → ((writer_loop msgs s).0 ≡ ok tt) × ((writer_loop msgs s).1.sent ≡ s.sent ++ frames msgs)
unfolding writer_loop
writer_loop-frames [] s short h = (refl, sym (append-nil s.sent))
writer_loop-frames (msg ∷ msgs) s short h =
    let (rest, p, quiet) = send_socket_frame-IsTolerated s msg short.0 h in
    rw (p, ← append_assoc s.sent (frame msg) (frames msgs))
      (writer_loop-frames msgs (record s { writes = rest; sent = s.sent ++ frame msg }) short.1
        quiet)

FitsBuffer-short :
    (msgs : List (List ℕ)) → All FitsBuffer msgs → All (λ msg. length msg < 2 ^ 32) msgs
FitsBuffer-short [] h = tt
FitsBuffer-short (msg ∷ msgs) h = (omega arith, FitsBuffer-short msgs h.1)

-- What one end writes with `send_socket_frame`, the reader thread at the other end forwards: the
-- same messages in the same order, with none added or lost, however the system cuts the writes and
-- the reads, once the loop has run as many rounds as there are bytes and reads to take in. The
-- messages leave room for a header and a read in a `u32`, no read fails but for want of data, every
-- write takes something or may be tried again, and the channel to the WebSocket is open.
pub reader_loop-writer_loop :
    (msgs : List (List ℕ)) (client proxy : TcpStream) (to_websocket : Channel) (rounds : ℕ)
    → All FitsBuffer msgs
    → All IsTolerated client.writes
    → client.sent ≡ []
    → All IsQuiet proxy.reads
    → available proxy.reads ≡ (writer_loop msgs client).1.sent
    → to_websocket.connected ≡ true
    → 2 * length (available proxy.reads) + length proxy.reads ≤ rounds
    → Forwards
        (reader_loop rounds
          (record { in_flight_message = new; stream = proxy; to_websocket = to_websocket }))
        (to_websocket.queue ++ msgs)
unfolding new
reader_loop-writer_loop msgs client proxy to_websocket rounds fits tolerated fresh quiet same alive
      enough =
    reader_loop-Forwards rounds
      (record {
        in_flight_message = record { bytes = [] };
        stream = proxy;
        to_websocket = to_websocket;
      })
      msgs
      (record {
        split =
            same
            ∙ (writer_loop-frames msgs client (FitsBuffer-short msgs fits) tolerated).1
            ∙ rw fresh;
        small = omega arith;
        fits = fits;
        quiet = quiet;
      })
      alive (omega arith)

-- The end of the stream shows as a `read` of no bytes, each time.
unfoldable pub ended : ℕ → List ReadEvent
ended zero = []
ended (suc n) = ready [] ∷ ended n
