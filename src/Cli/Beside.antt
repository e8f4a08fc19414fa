-- ===== src/Cli/Beside.antt =====
-- exfiltrate_cli/src/wire/client.rs: the thread `wire_client_recv` beside a caller that sends a
-- command and waits for its reply. The thread takes the lock for one read at a time, and can do so
-- until the command is sent, and again until `pop_msg` has the lock, which it keeps to its end.
use exfiltrate.Common.{ℕ, List, ◌≡◌, refl, sym, ap, ◌∙◌}
use exfiltrate.Common.Text.{Text}
use exfiltrate.Stream.{Outcome, ok, err, panic, TcpStream, ReadEvent}
use exfiltrate.Wire.{InFlightMessage, new}
use exfiltrate.Rpc.{Codec, Rpc, command, new_invocation}
use exfiltrate.RpcWire.{send_socket_rpc, send_socket_rpc_any_reads}
use exfiltrate.Client.{Answer, Popping, pending, returned, awaiting, next_reply_id, pop_msg}
use exfiltrate.Client.Race.{
  Ending, listening, died, poisoned, exited, Receiver, recv, silence, recv-silence,
}
use exfiltrate.Cli.Session.{Session, Asked, unsent, ask, popping, after_pop_msg, after_send}

-- The caller has come to its result, or the other thread has ended the process with a status.
pub data Beside : Type 0 where
  came : Asked → Beside
  process_exited : ℕ → Beside

module _ (codec : Codec) where
  -- The rounds of the thread, if it still runs, between two holds of the lock.
  unfoldable pub gap : Ending → ℕ → Receiver → Ending × Receiver
  gap listening n r = recv codec n r
  gap died n r = (died, r)
  gap poisoned n r = (poisoned, r)
  gap (exited status) n r = (exited status, r)

  module _ (rounds reply_id : ℕ) (s : Session) where
    -- `pop_msg` takes the lock, if it is not poisoned and the process has not ended.
    unfoldable pub pop_beside : Ending × Receiver → Beside
    pop_beside (listening, r) =
        came (after_pop_msg s (pop_msg codec reply_id rounds (popping s r.stream))).0
    pop_beside (died, r) =
        came (after_pop_msg s (pop_msg codec reply_id rounds (popping s r.stream))).0
    pop_beside (poisoned, r) = came Asked.died
    pop_beside (exited status, r) = process_exited status

    -- `send_rpc` has returned.
    unfoldable pub sent_beside :
        ℕ → Ending → InFlightMessage → Outcome (Unit {0}) × TcpStream → Beside
    sent_beside n t own (ok _, stream) =
        pop_beside (gap t n (record { in_flight_message = own; stream = stream }))
    sent_beside n t own (err e, stream) = came (unsent e)
    sent_beside n t own (panic, stream) = came Asked.died

    unfoldable pub send_beside : ℕ → Rpc → Ending × Receiver → Beside
    send_beside n msg (listening, r) =
        sent_beside n listening r.in_flight_message (send_socket_rpc codec msg r.stream)
    send_beside n msg (died, r) =
        sent_beside n died r.in_flight_message (send_socket_rpc codec msg r.stream)
    send_beside n msg (poisoned, r) = came Asked.died
    send_beside n msg (exited status, r) = process_exited status

  -- A command and its reply, with the thread in a state and so many rounds of it before the
  -- command is sent, and so many before `pop_msg` has the lock.
  unfoldable pub ask_beside :
      ℕ → ℕ → ℕ → Ending → InFlightMessage → Session → Text → List Text → Beside
  ask_beside before between rounds t own s name args =
      let (reply_id, last) = next_reply_id s.last_reply_id in
      send_beside rounds reply_id (record s { last_reply_id = last }) between
        (command (new_invocation name args reply_id))
        (gap t before (record { in_flight_message = own; stream = s.stream }))

  asked_same :
      (s s' : Session) (y : Answer × Popping) → (after_pop_msg s y).0 ≡ (after_pop_msg s' y).0
  unfolding after_pop_msg
  asked_same s s' (pending, p) = refl
  asked_same s s' (returned (ok r), p) = refl
  asked_same s s' (returned (err f), p) = refl
  asked_same s s' (returned panic, p) = refl

  -- The caller's side from the sending on, with and without silence in between.
  sent_alike :
      (between rounds id : ℕ) (s s' : Session) (es : List ReadEvent)
      (x : Outcome (Unit {0}) × TcpStream)
      → s'.in_flight_message ≡ s.in_flight_message
      → sent_beside rounds id s between listening new
          (x.0, record x.1 { reads = silence between es })
        ≡ came (after_send codec rounds id s' (x.0, record x.1 { reads = es })).0
  unfolding sent_beside after_send pop_beside gap
  sent_alike between rounds id s s' es (ok _, t) e =
      ap (pop_beside rounds id s) (recv-silence codec between es t)
      ∙ ap came (asked_same s s' (pop_msg codec id rounds (popping s (record t { reads = es }))))
      ∙ ap
          (λ m. came (
            (after_pop_msg s' (
              pop_msg codec id rounds (record {
                in_flight_message = m;
                stream = record t { reads = es };
                phase = awaiting;
              }))).0))
          (sym e)
  sent_alike between rounds id s s' es (err f, t) e = refl
  sent_alike between rounds id s s' es (panic, t) e = refl

  -- While nothing comes in until `pop_msg` has the lock, the thread makes no difference: the caller
  -- comes to what it comes to alone on what is read from then on, whatever that is, and whether the
  -- sending or the reading fails.
  pub ask_beside-silence :
      (before between rounds : ℕ) (s : Session) (es : List ReadEvent) (name : Text)
      (args : List Text)
      → s.stream.reads ≡ silence before (silence between es)
      → ask_beside before between rounds listening new s name args
        ≡ came
            ((ask codec rounds (record s { stream = record s.stream { reads = es } }) name args).0)
  unfolding ask_beside ask next_reply_id send_beside gap
  ask_beside-silence before between rounds s es name args quiet =
      let id = s.last_reply_id in
      let msg : Rpc = command (new_invocation name args id) in
      let s' : Session = record s { last_reply_id = (next_reply_id id).1 } in
      let alone : Session = record s' { stream = record s.stream { reads = es } } in
      ap
        (λ t. send_beside rounds id s' between msg (
          recv codec before
            (record { in_flight_message = new; stream = record s.stream { reads = t } })))
        quiet
      ∙ ap (send_beside rounds id s' between msg)
          (recv-silence codec before (silence between es) s.stream)
      ∙ ap (sent_beside rounds id s' between listening new)
          (send_socket_rpc_any_reads codec msg (silence between es) s.stream)
      ∙ sent_alike between rounds id s' alone es (send_socket_rpc codec msg s.stream) refl
      ∙ ap (λ t. came (after_send codec rounds id alone t).0)
          (sym (send_socket_rpc_any_reads codec msg es s.stream))
