-- ===== src/Client/Quiet.antt =====
-- `pop_msg` writes nothing.
use exfiltrate.Common.{ℕ, zero, suc, List, [], ◌∷◌, ◌++◌, ◌≡◌, refl, ap, ◌∙◌, arith}
use exfiltrate.Stream.{Outcome, ok, err, panic, TcpStream}
use exfiltrate.Wire.{InFlightMessage, ReadStatus, completed, progress, blocked, read_stream}
use exfiltrate.Wire.Reading.{read_stream_sent}
use exfiltrate.Rpc.{
  Codec, CommandResponse, Decoded, decoded, malformed, Rpc, command, command_response,
}
use exfiltrate.Client.{
  Popping, Phase, awaiting, attaching, Answer, pending, returned, attach, take_response, take_rpc,
  take_message, after_read, pop_round, keep_popping, pop_msg,
}

attach_stream :
    (p : Popping) (r : CommandResponse) (n : ℕ) (attachments : List (List ℕ))
    → (attach p r n attachments).1.stream ≡ p.stream
unfolding attach
attach_stream p r zero attachments = refl
attach_stream p r (suc wanted) attachments = refl

take_response_stream :
    (reply_id : ℕ) (p : Popping) (r : CommandResponse)
    → (take_response reply_id p r).1.stream ≡ p.stream
unfolding take_response
take_response_stream reply_id p r = ground (arith, attach_stream p r r.num_attachments [])

take_rpc_stream :
    (reply_id : ℕ) (p : Popping) (m : Decoded Rpc) → (take_rpc reply_id p m).1.stream ≡ p.stream
unfolding take_rpc
take_rpc_stream reply_id p (decoded (command_response r)) = take_response_stream reply_id p r
take_rpc_stream reply_id p (decoded (command c)) = refl
take_rpc_stream reply_id p (malformed e) = refl

module _ (codec : Codec) (reply_id : ℕ) where
  take_message_stream :
      (p : Popping) (phase : Phase) (message : List ℕ)
      → (take_message codec reply_id p phase message).1.stream ≡ p.stream
  unfolding take_message
  take_message_stream p awaiting message = take_rpc_stream reply_id p (codec.rpc_from_slice message)
  take_message_stream p (attaching r zero attachments) part = refl
  take_message_stream p (attaching r (suc wanted) attachments) part =
      attach_stream p r wanted (attachments ++ part ∷ [])

  after_read_stream :
      (phase : Phase) (x : Outcome ReadStatus × InFlightMessage × TcpStream)
      → (after_read codec reply_id phase x).1.stream ≡ x.2
  unfolding after_read
  after_read_stream phase (err e, m, s) = refl
  after_read_stream phase (panic, m, s) = refl
  after_read_stream phase (ok blocked, m, s) = refl
  after_read_stream phase (ok progress, m, s) = refl
  after_read_stream phase (ok (completed message), m, s) =
      take_message_stream (record { in_flight_message = m; stream = s; phase = phase }) phase
        message

  pop_round_sent : (p : Popping) → (pop_round codec reply_id p).1.stream.sent ≡ p.stream.sent
  unfolding pop_round
  pop_round_sent p =
      ap (λ s. s.sent) (after_read_stream p.phase (read_stream p.in_flight_message p.stream))
      ∙ read_stream_sent p.in_flight_message p.stream

  keep_popping_sent :
      (next : Popping → Answer × Popping) (x : Answer × Popping)
      → ((p : Popping) → (next p).1.stream.sent ≡ p.stream.sent)
      → (keep_popping codec reply_id next x).1.stream.sent ≡ x.1.stream.sent
  unfolding keep_popping
  keep_popping_sent next (pending, p) same = same p
  keep_popping_sent next (returned r, p) same = refl

  pub pop_msg_sent :
      (rounds : ℕ) (p : Popping) → (pop_msg codec reply_id rounds p).1.stream.sent ≡ p.stream.sent
  unfolding pop_msg
  pop_msg_sent zero p = refl
  pop_msg_sent (suc rounds) p =
      keep_popping_sent (pop_msg codec reply_id rounds) (pop_round codec reply_id p)
        (λ q. pop_msg_sent rounds q)
      ∙ pop_round_sent p
