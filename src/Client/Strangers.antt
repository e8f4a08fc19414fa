-- ===== src/Client/Strangers.antt =====
-- A response to a request of somebody else.
use exfiltrate.Common.{ℕ, suc, zero, ◌≤◌, List, ◌∷◌, arith, ◌≡◌, ◌≢◌, ap, ◌∙◌}
use exfiltrate.Stream.{panic}
use exfiltrate.Wire.Delivery.{Delivers, work_left, no_work_left}
use exfiltrate.Rpc.{Codec, decoded, command_response, CommandResponse}
use exfiltrate.Client.{awaiting, Popping, returned, take_response, take_message, pop_msg}
use exfiltrate.Client.Replies.{
  at_state, pop_step, pop_return, took, waited, PopRound-cases, take_header,
}

module _ (codec : Codec) (reply_id : ℕ) where
  take_stranger :
      (p : Popping) (r : CommandResponse)
      → r.reply_id ≢ reply_id
      → take_response reply_id p r ≡ (returned panic, p)
  unfolding take_response
  take_stranger p r other = ground (arith, other)

  -- Where the first message that comes is a response with another id, `pop_msg` panics. No read
  -- fails but for want of data, and the messages leave room for a header and a read in a `u32`.
  pub pop_msg-stranger :
      (rounds : ℕ) (p : Popping) (header : List ℕ) (r : CommandResponse) (more : List (List ℕ))
      → p.phase ≡ awaiting
      → codec.rpc_from_slice header ≡ decoded (command_response r)
      → r.reply_id ≢ reply_id
      → Delivers p.in_flight_message p.stream.reads (header ∷ more)
      → work_left p.in_flight_message p.stream.reads ≤ rounds
      → (pop_msg codec reply_id rounds p).0 ≡ returned panic
  pop_msg-stranger zero p header r more at e other d enough =
      cc (no_work_left p.in_flight_message p.stream.reads _ d enough)
  pop_msg-stranger (suc rounds) p header r more at e other d enough =
      elim (PopRound-cases codec reply_id p (header ∷ more) d) [
        | took msg rest m es eq q d' less ↦
            let p' : Popping = at_state codec reply_id p m es in
            let taken : msg ≡ header = cc in
            ap (λ x. x.0)
              (pop_return codec reply_id rounds p p' (
                q
                ∙ ap (λ t. take_message codec reply_id p' t msg) at
                ∙ ap (take_message codec reply_id p' awaiting) taken
                ∙ take_header codec reply_id p' r header e
                ∙ take_stranger p' r other))
        | waited m es q d' less ↦
            let p' : Popping = at_state codec reply_id p m es in
            ap (λ x. x.0) (pop_step codec reply_id rounds p p' q)
            ∙ pop_msg-stranger rounds p' header r more at e other d' (omega arith)
      ]
