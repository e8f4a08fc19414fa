-- ===== src/Client.antt =====
-- exfiltrate_cli/src/wire/client.rs: the connection of the CLI to the application.
mod Tests
pub mod Replies
pub mod Race
pub mod Quiet
pub mod Strangers
pub mod Lost
use exfiltrate.Common.{
  ℕ, zero, suc, ◌+◌, ◌%◌, ◌^◌, List, [], ◌∷◌, ◌++◌, ◌==◌, Bool, true, false, if◌then◌else◌,
}
use exfiltrate.Common.Text.{Text}
use exfiltrate.Stream.{Outcome, ok, err, panic, IoError, TcpStream}
use exfiltrate.Wire.{InFlightMessage, ReadStatus, completed, progress, blocked, read_stream}
use exfiltrate.Response.{Response, string, merge_data}
use exfiltrate.Rpc.{
  Codec, Decoded, decoded, malformed, Rpc, command, command_response, CommandResponse,
}

-- `fetch_add(1)` on an `AtomicU32`: the value before, and the value after, which wraps around.
unfoldable pub next_reply_id : ℕ → ℕ × ℕ
next_reply_id last = (last, (last + 1) % 2 ^ 32)

-- Where `pop_msg` stands: in its outer loop, or in the loop for the attachments of a response, with
-- the number of those that are still to come, and those that have come.
pub data Phase : Type 0 where
  awaiting : Phase
  attaching : CommandResponse → ℕ → List (List ℕ) → Phase

-- `ClientLock`, and where `pop_msg` stands.
pub record Popping : Type 0 where
  pub in_flight_message : InFlightMessage
  pub stream : TcpStream
  pub phase : Phase

-- `pop_msg` has returned or panicked, or it is still in its loops.
pub data Answer : Type 0 where
  pending : Answer
  returned : Outcome CommandResponse → Answer

-- `merge_data` puts the attachments into the response.
unfoldable pub reassemble : CommandResponse → List (List ℕ) → CommandResponse
reassemble r attachments = record r { response = merge_data r.response attachments }

-- `for _ in 0..num_attachments`, from the number that is left.
attach : Popping → CommandResponse → ℕ → List (List ℕ) → Answer × Popping
unfolding reassemble
attach p r zero attachments = (returned (ok (reassemble r attachments)), p)
attach p r (suc wanted) attachments =
    (pending, record p { phase = attaching r (suc wanted) attachments })

-- A response to another request panics at `todo!`.
pub take_response : ℕ → Popping → CommandResponse → Answer × Popping
unfolding attach
take_response reply_id p r =
    if r.reply_id == reply_id
    then (if r.num_attachments == 0 then (returned (ok r), p) else attach p r r.num_attachments [])
    else (returned panic, p)

take_rpc : ℕ → Popping → Decoded Rpc → Answer × Popping
unfolding take_response
take_rpc reply_id p (decoded (command_response r)) = take_response reply_id p r
take_rpc reply_id p (decoded (command c)) = (returned panic, p)
take_rpc reply_id p (malformed e) = (returned panic, p)

module _ (codec : Codec) (reply_id : ℕ) where
  pub take_message : Popping → Phase → List ℕ → Answer × Popping
  unfolding take_rpc
  take_message p awaiting message = take_rpc reply_id p (codec.rpc_from_slice message)
  take_message p (attaching r zero attachments) part = (returned (ok (reassemble r attachments)), p)
  take_message p (attaching r (suc wanted) attachments) part =
      attach p r wanted (attachments ++ part ∷ [])

  after_read : Phase → Outcome ReadStatus × InFlightMessage × TcpStream → Answer × Popping
  unfolding take_message
  after_read phase (err e, m, s) =
      (returned (err e), record { in_flight_message = m; stream = s; phase = phase })
  after_read phase (panic, m, s) =
      (returned panic, record { in_flight_message = m; stream = s; phase = phase })
  after_read phase (ok blocked, m, s) =
      (pending, record { in_flight_message = m; stream = s; phase = phase })
  after_read phase (ok progress, m, s) =
      (pending, record { in_flight_message = m; stream = s; phase = phase })
  after_read phase (ok (completed message), m, s) =
      take_message (record { in_flight_message = m; stream = s; phase = phase }) phase message

  -- One round of the loop in which `pop_msg` is.
  pub pop_round : Popping → Answer × Popping
  unfolding after_read
  pop_round p = after_read p.phase (read_stream p.in_flight_message p.stream)

  keep_popping : (Popping → Answer × Popping) → Answer × Popping → Answer × Popping
  keep_popping next (pending, p) = next p
  keep_popping next (returned r, p) = (returned r, p)

  -- `pop_msg` for a number of rounds, or until it returns.
  pub pop_msg : ℕ → Popping → Answer × Popping
  unfolding keep_popping
  pop_msg zero p = (pending, p)
  pop_msg (suc rounds) p = keep_popping (pop_msg rounds) (pop_round p)
