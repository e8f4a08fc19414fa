-- ===== src/Server/Serving.antt =====
-- The thread of a connection answers every request that arrives.
use exfiltrate.Common.{
  ℕ, suc, zero, ◌^◌, ◌≤◌, ◌<◌, List, [], ◌∷◌, ◌++◌, length, All, arith, ◌≡◌, refl, sym, ap, subst,
  ◌∙◌, append_assoc, append-nil,
}
use exfiltrate.Stream.{ok, ReadEvent, WriteEvent}
use exfiltrate.Loop.{Thread, running, loop, loop_step}
use exfiltrate.Wire.{InFlightMessage, completed, progress, blocked, read_status}
use exfiltrate.Wire.Framing.{frame, frames}
use exfiltrate.Wire.Delivery.{Delivers, work_left, no_work_left}
use exfiltrate.Wire.Reading.{
  delivered, made_progress, found_nothing, read_status-Round, read_stream_lem,
}
use exfiltrate.Wire.Writing.{IsTolerated}
use exfiltrate.Rpc.{Codec, encoded, command, command_response, CommandInvocation, CommandResponse}
use exfiltrate.RpcWire.{send_socket_rpc-IsTolerated}
use exfiltrate.Server.{
  Host, do_command, Connection, serve_round, do_stream, after_read, answer, answer_command,
  after_reply,
}

-- A request and its reply, with the bytes of both.
pub record Exchange : Type 0 where
  pub invocation : CommandInvocation
  pub response : CommandResponse
  pub request : List ℕ
  pub reply : List ℕ

-- The command runs without a panic, and both messages are what the codec makes of them.
pub record IsServed (codec : Codec) (h : Host) (x : Exchange) : Type 0 where
  pub sent : codec.rpc_to_vec (command x.invocation) ≡ encoded x.request
  pub executed : do_command codec h x.invocation ≡ ok x.response
  pub replied : codec.rpc_to_vec (command_response x.response) ≡ encoded x.reply
  pub short : length x.reply < 2 ^ 32

abbrev pub requests : List Exchange → List (List ℕ)
requests [] = []
requests (x ∷ xs) = x.request ∷ requests xs

abbrev pub replies : List Exchange → List (List ℕ)
replies [] = []
replies (x ∷ xs) = x.reply ∷ replies xs

first_exchange :
    (xs : List Exchange) {msg : List ℕ} {rest : List (List ℕ)}
    → requests xs ≡ msg ∷ rest
    → (x : Exchange) × (ys : List Exchange) × (xs ≡ x ∷ ys)
      × (x.request ≡ msg)
      × (requests ys ≡ rest)
first_exchange [] e = cc
first_exchange (x ∷ xs) e = (x, xs, refl, cc, cc)

module _ (codec : Codec) (h : Host) where
  abbrev at_state : Connection → InFlightMessage → List ReadEvent → Connection
  at_state c m es = record { in_flight_message = m; stream = record c.stream { reads = es } }

  module _ (c : Connection) {m : InFlightMessage} {es : List ReadEvent} where
    round_progress :
        read_status c.in_flight_message c.stream.reads ≡ (ok progress, m, es)
        → serve_round codec h c ≡ (running, at_state c m es)
    unfolding serve_round
    round_progress p = ap (after_read codec h c) (read_stream_lem c.in_flight_message c.stream p)

    round_blocked :
        read_status c.in_flight_message c.stream.reads ≡ (ok blocked, m, es)
        → serve_round codec h c ≡ (running, at_state c m es)
    unfolding serve_round
    round_blocked p = ap (after_read codec h c) (read_stream_lem c.in_flight_message c.stream p)

    -- A request that has come in whole is executed, and its reply is written.
    round_completed :
        (x : Exchange)
        → IsServed codec h x
        → All IsTolerated c.stream.writes
        → read_status c.in_flight_message c.stream.reads ≡ (ok (completed x.request), m, es)
        → (rest : List WriteEvent) × (serve_round codec h c ≡ (
          running,
          record {
            in_flight_message = m;
            stream = record c.stream {
              reads = es;
              writes = rest;
              sent = c.stream.sent ++ frame x.reply;
            };
          },
        ))
          × All IsTolerated rest
    unfolding serve_round
    round_completed x s tolerated p =
        let c' : Connection = at_state c m es in
        let (rest, e, quiet) =
          send_socket_rpc-IsTolerated codec (command_response x.response) c'.stream s.replied
            s.short tolerated in
        (
          rest,
          ap (after_read codec h c) (read_stream_lem c.in_flight_message c.stream p)
              ∙ ap (answer codec h c')
                  (codec.rpc_round_trip (command x.invocation) x.request s.sent)
              ∙ ap (answer_command codec h c') s.executed
              ∙ ap (after_reply codec h c') e,
          quiet,
        )

  abbrev pub Replies : Thread × Connection → List ℕ → Type 0
  Replies x sent = (x.0 ≡ running) × (x.1.stream.sent ≡ sent)

  -- The thread of a connection executes every request that the stream delivers, in order, and
  -- writes exactly the frames of their replies, in that order, however the bytes are cut into reads
  -- and writes: once it has run as many rounds as there is work, while no command panics and the
  -- messages can be serialized and fit. No read fails but for want of data, and every write takes
  -- something or may be tried again.
  pub do_stream_serves :
      (rounds : ℕ) (c : Connection) (xs : List Exchange)
      → All (IsServed codec h) xs
      → Delivers c.in_flight_message c.stream.reads (requests xs)
      → All IsTolerated c.stream.writes
      → work_left c.in_flight_message c.stream.reads ≤ rounds
      → Replies (do_stream codec h rounds c) (c.stream.sent ++ frames (replies xs))
  unfolding do_stream
  do_stream_serves zero c [] s d t enough = unfold loop in (refl, sym (append-nil c.stream.sent))
  do_stream_serves zero c (x ∷ xs) s d t enough =
      cc (no_work_left c.in_flight_message c.stream.reads _ d enough)
  do_stream_serves (suc rounds) c xs s d t enough =
      elim (read_status-Round c.in_flight_message c.stream.reads (requests xs) d) [
        | delivered msg rest m es e p d' less ↦
            let (x, ys, all, same, others) = first_exchange xs e in
            let s' : All (IsServed codec h) (x ∷ ys) =
              subst (λ l. All (IsServed codec h) l) all s in
            let (w, q, quiet) = round_completed c {m = m} {es = es} x s'.0 t (rw same p) in
            let c' : Connection = record {
              in_flight_message = m;
              stream = record c.stream {
                reads = es;
                writes = w;
                sent = c.stream.sent ++ frame x.reply;
              };
            } in
            rw
              (
                loop_step (serve_round codec h) rounds c q,
                all,
                ← append_assoc c.stream.sent (frame x.reply) (frames (replies ys)),
              )
              (do_stream_serves rounds c' ys s'.1 (rw others d') quiet (omega arith))
        | made_progress m es p d' less ↦
            rw (loop_step (serve_round codec h) rounds c (round_progress c p))
              (do_stream_serves rounds (at_state c m es) xs s d' t (omega arith))
        | found_nothing m es p d' less ↦
            rw (loop_step (serve_round codec h) rounds c (round_blocked c p))
              (do_stream_serves rounds (at_state c m es) xs s d' t (omega arith))
      ]
