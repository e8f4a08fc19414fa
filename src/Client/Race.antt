-- ===== src/Client/Race.antt =====
-- exfiltrate_cli/src/wire/client.rs: the thread `wire_client_recv`, which `Client::new` starts and
-- which reads the same stream as `pop_msg` whenever that does not hold the lock.
use exfiltrate.Common.{
  ℕ, zero, suc, ◌≤◌, List, ◌∷◌, Bool, true, false, if◌then◌else◌, arith, ◌≡◌, refl, ap, ◌∙◌,
}
use exfiltrate.Common.Text.{Text}
use exfiltrate.Stream.{Outcome, ok, err, panic, TcpStream, ReadEvent, failed, would_block}
use exfiltrate.Wire.{new, InFlightMessage, ReadStatus, completed, progress, blocked, read_stream}
use exfiltrate.Wire.Delivery.{Delivers, work_left, no_work_left}
use exfiltrate.Wire.Reading.{
  delivered, made_progress, found_nothing, read_status-Round, read_stream_lem, read_status_none,
}
use exfiltrate.Response.{Response, string}
use exfiltrate.Rpc.{
  Codec, Decoded, decoded, malformed, Rpc, command, command_response, CommandResponse,
}

-- The thread's own buffer, and the stream that it shares.
pub record Receiver : Type 0 where
  pub in_flight_message : InFlightMessage
  pub stream : TcpStream

-- The thread goes on, or ends the whole process with a status, or panics; where it does so while it
-- reads, it holds the lock, which is poisoned then.
pub data Ending : Type 0 where
  listening died poisoned : Ending
  exited : ℕ → Ending

take_text : Bool → Response → Ending
take_text true (string s) = exited 0
take_text false (string s) = exited 2
take_text success _ = died

take_reply : Decoded Rpc → Ending
unfolding take_text
take_reply (decoded (command_response r)) = take_text r.success r.response
take_reply (decoded (command c)) = died
take_reply (malformed e) = died

-- Nothing to read, for so many rounds.
abbrev pub silence : ℕ → List ReadEvent → List ReadEvent
silence zero es = es
silence (suc n) es = failed would_block ∷ silence n es

module _ (codec : Codec) where
  after_read : Outcome ReadStatus × InFlightMessage × TcpStream → Ending × Receiver
  unfolding take_reply
  after_read (err e, m, s) = (exited 1, record { in_flight_message = m; stream = s })
  after_read (panic, m, s) = (poisoned, record { in_flight_message = m; stream = s })
  after_read (ok blocked, m, s) = (listening, record { in_flight_message = m; stream = s })
  after_read (ok progress, m, s) = (listening, record { in_flight_message = m; stream = s })
  after_read (ok (completed msg), m, s) =
      (take_reply (codec.rpc_from_slice msg), record { in_flight_message = m; stream = s })

  pub recv_round : Receiver → Ending × Receiver
  unfolding after_read
  recv_round r = after_read (read_stream r.in_flight_message r.stream)

  unfoldable pub go_on_listening :
      (Receiver → Ending × Receiver) → Ending × Receiver → Ending × Receiver
  go_on_listening next (listening, r) = next r
  go_on_listening next (died, r) = (died, r)
  go_on_listening next (poisoned, r) = (poisoned, r)
  go_on_listening next (exited status, r) = (exited status, r)

  -- The loop for a number of rounds, or until it ends.
  unfoldable pub recv : ℕ → Receiver → Ending × Receiver
  unfolding go_on_listening
  recv zero r = (listening, r)
  recv (suc rounds) r = go_on_listening (recv rounds) (recv_round r)

  recv_step :
      (rounds : ℕ) (r : Receiver) {x : Ending × Receiver}
      → recv_round r ≡ x
      → recv (suc rounds) r ≡ go_on_listening (recv rounds) x
  unfolding recv
  recv_step rounds r e = ap (go_on_listening (recv rounds)) e

  nothing_read :
      (es : List ReadEvent) (s : TcpStream)
      → recv_round (record {
        in_flight_message = new;
        stream = record s { reads = failed would_block ∷ es };
      })
        ≡ (listening, record { in_flight_message = new; stream = record s { reads = es } })
  unfolding recv_round
  nothing_read es s =
      ap after_read
        (read_stream_lem new (record s { reads = failed would_block ∷ es }) (read_status_none es))

  -- While nothing comes in the thread changes nothing.
  pub recv-silence :
      (n : ℕ) (es : List ReadEvent) (s : TcpStream)
      → recv n (record { in_flight_message = new; stream = record s { reads = silence n es } })
        ≡ (listening, record { in_flight_message = new; stream = record s { reads = es } })
  unfolding recv go_on_listening
  recv-silence zero es s = refl
  recv-silence (suc n) es s = recv_step n _ (nothing_read (silence n es) s) ∙ recv-silence n es s

  text_taken :
      (success : Bool) (s : Text) (rounds : ℕ) (r : Receiver)
      → (go_on_listening (recv rounds) (take_text success (string s), r)).0
        ≡ exited (if success then 0 else 2)
  unfolding take_text go_on_listening
  text_taken true s rounds r = refl
  text_taken false s rounds r = refl

  abbrev at_state : Receiver → InFlightMessage → List ReadEvent → Receiver
  at_state r m es = record { in_flight_message = m; stream = record r.stream { reads = es } }

  -- Where the thread has the stream while a reply with a text comes in, it takes the reply and
  -- ends the process, with status 0 or 2: the caller of `pop_msg` never gets it. No read fails but for
  -- want of data, and the messages leave room for a header and a read in a `u32`.
  pub recv_takes_reply :
      (rounds : ℕ) (r : Receiver) (header : List ℕ) (more : List (List ℕ)) (reply : CommandResponse)
      (s : Text)
      → codec.rpc_from_slice header ≡ decoded (command_response reply)
      → reply.response ≡ string s
      → Delivers r.in_flight_message r.stream.reads (header ∷ more)
      → work_left r.in_flight_message r.stream.reads ≤ rounds
      → (recv rounds r).0 ≡ exited (if reply.success then 0 else 2)
  unfolding recv_round recv
  recv_takes_reply zero r header more reply s e text d enough =
      cc (no_work_left r.in_flight_message r.stream.reads _ d enough)
  recv_takes_reply (suc rounds) r header more reply s e text d enough =
      elim (read_status-Round r.in_flight_message r.stream.reads (header ∷ more) d) [
        | delivered msg rest m es eq q d' less ↦
            let taken : msg ≡ header = cc in
            ap (λ t. t.0)
              (recv_step rounds r (ap after_read (read_stream_lem r.in_flight_message r.stream q)))
            ∙ ap
                (λ t.
                  (go_on_listening (recv rounds)
                    (take_reply (codec.rpc_from_slice t), at_state r m es)).0)
                taken
            ∙ ap (λ t. (go_on_listening (recv rounds) (take_reply t, at_state r m es)).0) e
            ∙ ap
                (λ t.
                  (go_on_listening (recv rounds) (take_text reply.success t, at_state r m es)).0)
                text
            ∙ text_taken reply.success s rounds (at_state r m es)
        | made_progress m es q d' less ↦
            ap (λ t. t.0)
              (recv_step rounds r (ap after_read (read_stream_lem r.in_flight_message r.stream q)))
            ∙ recv_takes_reply rounds (at_state r m es) header more reply s e text d' (omega arith)
        | found_nothing m es q d' less ↦
            ap (λ t. t.0)
              (recv_step rounds r (ap after_read (read_stream_lem r.in_flight_message r.stream q)))
            ∙ recv_takes_reply rounds (at_state r m es) header more reply s e text d' (omega arith)
      ]
