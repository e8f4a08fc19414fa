-- ===== src/Client/Lost.antt =====
-- A reply of which something is missing.
use exfiltrate.Common.{
  ℕ, suc, zero, ◌≤◌, List, [], ◌∷◌, ◌++◌, length, arith, ◌≡◌, ◌≢◌, refl, ap, ◌∙◌,
}
use exfiltrate.Wire.Delivery.{Delivers}
use exfiltrate.Rpc.{Codec, decoded, command_response, CommandResponse}
use exfiltrate.Client.{awaiting, attaching, Popping, pending, take_message, pop_msg}
use exfiltrate.Client.Replies.{
  at_state, pop_step, took, waited, PopRound-cases, take_header, take_first, take_next,
}

module _ (codec : Codec) (reply_id : ℕ) where
  no_rounds : (p : Popping) → (pop_msg codec reply_id zero p).0 ≡ pending
  unfolding pop_msg
  no_rounds p = refl

  -- Where nothing comes, `pop_msg` goes on waiting.
  pub pop_msg-nothing :
      (rounds : ℕ) (p : Popping)
      → Delivers p.in_flight_message p.stream.reads []
      → (pop_msg codec reply_id rounds p).0 ≡ pending
  pop_msg-nothing zero p d = no_rounds p
  pop_msg-nothing (suc rounds) p d = elim (PopRound-cases codec reply_id p [] d) [
    | took msg rest m es e q d' less ↦ absurd (no_message e)
    | waited m es q d' less ↦
        ap (λ x. x.0) (pop_step codec reply_id rounds p (at_state codec reply_id p m es) q)
        ∙ pop_msg-nothing rounds (at_state codec reply_id p m es) d'
  ]
    where
      no_message : {msg : List ℕ} {rest : List (List ℕ)} → [] ≢ msg ∷ rest
      no_message e = cc

  attaching-short :
      (rounds : ℕ) (p : Popping) (r : CommandResponse) (n : ℕ) (acc parts : List (List ℕ))
      → p.phase ≡ attaching r (suc n) acc
      → Delivers p.in_flight_message p.stream.reads parts
      → length parts ≤ n
      → (pop_msg codec reply_id rounds p).0 ≡ pending
  attaching-short zero p r n acc parts at d few = no_rounds p
  attaching-short (suc rounds) p r zero acc parts at d few =
      elim (PopRound-cases codec reply_id p parts d) [
        | took msg rest m es e q d' less ↦ absurd (omega (arith, ap length e))
        | waited m es q d' less ↦
            ap (λ x. x.0) (pop_step codec reply_id rounds p (at_state codec reply_id p m es) q)
            ∙ attaching-short rounds (at_state codec reply_id p m es) r zero acc parts at d' few
      ]
  attaching-short (suc rounds) p r (suc n) acc parts at d few =
      elim (PopRound-cases codec reply_id p parts d) [
        | took msg rest m es e q d' less ↦
            let p' : Popping = record (at_state codec reply_id p m es) {
              phase = attaching r (suc n) (acc ++ msg ∷ []);
            } in
            ap (λ x. x.0)
              (pop_step codec reply_id rounds p p' (
                q
                ∙ ap (λ t. take_message codec reply_id (at_state codec reply_id p m es) t msg) at
                ∙ take_next codec reply_id (at_state codec reply_id p m es) r n acc msg))
            ∙ attaching-short rounds p' r n (acc ++ msg ∷ []) rest refl d'
                (omega (arith, ap length e))
        | waited m es q d' less ↦
            ap (λ x. x.0) (pop_step codec reply_id rounds p (at_state codec reply_id p m es) q)
            ∙ attaching-short rounds (at_state codec reply_id p m es) r (suc n) acc parts at d' few
      ]

  -- Where fewer messages follow the response than it announces attachments, `pop_msg` never
  -- returns, however many rounds it runs.
  pub pop_msg-short :
      (rounds : ℕ) (p : Popping) (header : List ℕ) (r : CommandResponse) (n : ℕ)
      (parts : List (List ℕ))
      → p.phase ≡ awaiting
      → codec.rpc_from_slice header ≡ decoded (command_response r)
      → r.reply_id ≡ reply_id
      → r.num_attachments ≡ suc n
      → length parts ≤ n
      → Delivers p.in_flight_message p.stream.reads (header ∷ parts)
      → (pop_msg codec reply_id rounds p).0 ≡ pending
  pop_msg-short zero p header r n parts at e same count few d = no_rounds p
  pop_msg-short (suc rounds) p header r n parts at e same count few d =
      elim (PopRound-cases codec reply_id p (header ∷ parts) d) [
        | took msg rest m es eq q d' less ↦
            let p' : Popping = at_state codec reply_id p m es in
            let p'' : Popping = record p' { phase = attaching r (suc n) [] } in
            let taken : msg ≡ header = cc in
            ap (λ x. x.0)
              (pop_step codec reply_id rounds p p'' (
                q
                ∙ ap (λ t. take_message codec reply_id p' t msg) at
                ∙ ap (take_message codec reply_id p' awaiting) taken
                ∙ take_header codec reply_id p' r header e
                ∙ take_first codec reply_id p' r n same count))
            ∙ attaching-short rounds p'' r n [] rest refl d' (omega (arith, ap length eq))
        | waited m es q d' less ↦
            ap (λ x. x.0) (pop_step codec reply_id rounds p (at_state codec reply_id p m es) q)
            ∙ pop_msg-short rounds (at_state codec reply_id p m es) header r n parts at e same count
                few d'
      ]
