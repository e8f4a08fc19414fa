-- ===== src/Client/Replies.antt =====
-- `pop_msg` returns the response to its request, whole.
use exfiltrate.Common.{
  ℕ, suc, zero, ◌-◌, ◌≤◌, ◌<◌, List, [], ◌∷◌, ◌++◌, length, arith, ◌≡◌, refl, ap, subst, ◌∙◌,
}
use exfiltrate.Common.{append_assoc}
use exfiltrate.Stream.{Outcome, ok, ReadEvent}
use exfiltrate.Wire.{InFlightMessage}
use exfiltrate.Wire.Delivery.{Delivers, work_left, no_work_left}
use exfiltrate.Wire.Reading.{
  delivered, made_progress, found_nothing, read_status-Round, read_stream_lem,
}
use exfiltrate.Rpc.{Codec, decoded, command_response, CommandResponse}
use exfiltrate.Client.{
  awaiting, attaching, Popping, Answer, pending, returned, reassemble, take_response, take_rpc,
  take_message, after_read, pop_round, keep_popping, pop_msg,
}

-- The response with its attachments; where there are none it is left as it is.
abbrev pub whole : CommandResponse → List (List ℕ) → CommandResponse
whole r [] = r
whole r (part ∷ parts) = reassemble r (part ∷ parts)

module _ (codec : Codec) (reply_id : ℕ) where
  abbrev pub at_state : Popping → InFlightMessage → List ReadEvent → Popping
  at_state p m es = record p { in_flight_message = m; stream = record p.stream { reads = es } }

  pub pop_step :
      (rounds : ℕ) (p p' : Popping)
      → pop_round codec reply_id p ≡ (pending, p')
      → pop_msg codec reply_id (suc rounds) p ≡ pop_msg codec reply_id rounds p'
  unfolding pop_msg
  pop_step rounds p p' e = ap (keep_popping codec reply_id (pop_msg codec reply_id rounds)) e

  pub pop_return :
      (rounds : ℕ) (p p' : Popping) {r : Outcome CommandResponse}
      → pop_round codec reply_id p ≡ (returned r, p')
      → pop_msg codec reply_id (suc rounds) p ≡ (returned r, p')
  unfolding pop_msg
  pop_return rounds p p' e = ap (keep_popping codec reply_id (pop_msg codec reply_id rounds)) e

  -- What one round does where whole frames are delivered: it takes the next message, or waits.
  pub data PopRound (p : Popping) (msgs : List (List ℕ)) : Type 0 where
    took :
        (msg : List ℕ) (rest : List (List ℕ)) (m : InFlightMessage) (es : List ReadEvent)
        → msgs ≡ msg ∷ rest
        → pop_round codec reply_id p ≡ take_message codec reply_id (at_state p m es) p.phase msg
        → Delivers m es rest
        → work_left m es < work_left p.in_flight_message p.stream.reads
        → PopRound p msgs
    waited :
        (m : InFlightMessage) (es : List ReadEvent)
        → pop_round codec reply_id p ≡ (pending, at_state p m es)
        → Delivers m es msgs
        → work_left m es ≤ work_left p.in_flight_message p.stream.reads - 1
        → PopRound p msgs

  pub PopRound-cases :
      (p : Popping) (msgs : List (List ℕ))
      → Delivers p.in_flight_message p.stream.reads msgs
      → PopRound p msgs
  unfolding pop_round
  PopRound-cases p msgs d = elim (read_status-Round p.in_flight_message p.stream.reads msgs d) [
    | delivered msg rest m es e q d' less ↦
        took msg rest m es e
          (ap (after_read codec reply_id p.phase) (read_stream_lem p.in_flight_message p.stream q))
          d' less
    | made_progress m es q d' less ↦
        waited m es
          (ap (after_read codec reply_id p.phase) (read_stream_lem p.in_flight_message p.stream q))
          d' (omega arith)
    | found_nothing m es q d' less ↦
        waited m es
          (ap (after_read codec reply_id p.phase) (read_stream_lem p.in_flight_message p.stream q))
          d' less
  ]

  -- `pop_msg` returns the response, and what it leaves unread are the messages `more`.
  abbrev pub Returns : Answer × Popping → CommandResponse → List (List ℕ) → Type 0
  Returns x r more = (x.0 ≡ returned (ok r)) × Delivers x.1.in_flight_message x.1.stream.reads more

  take_last :
      (p : Popping) (r : CommandResponse) (acc : List (List ℕ)) (msg : List ℕ)
      → take_message codec reply_id p (attaching r 1 acc) msg
        ≡ (returned (ok (reassemble r (acc ++ msg ∷ []))), p)
  unfolding take_message
  take_last p r acc msg = refl

  pub take_next :
      (p : Popping) (r : CommandResponse) (n : ℕ) (acc : List (List ℕ)) (msg : List ℕ)
      → take_message codec reply_id p (attaching r (suc (suc n)) acc) msg
        ≡ (pending, record p { phase = attaching r (suc n) (acc ++ msg ∷ []) })
  unfolding take_message
  take_next p r n acc msg = refl

  attaching-Returns :
      (rounds : ℕ) (p : Popping) (r : CommandResponse) (part : List ℕ)
      (parts more acc : List (List ℕ))
      → p.phase ≡ attaching r (suc (length parts)) acc
      → Delivers p.in_flight_message p.stream.reads (part ∷ (parts ++ more))
      → work_left p.in_flight_message p.stream.reads ≤ rounds
      → Returns (pop_msg codec reply_id rounds p) (reassemble r (acc ++ (part ∷ parts))) more
  attaching-Returns zero p r part parts more acc at d enough =
      cc (no_work_left p.in_flight_message p.stream.reads _ d enough)
  attaching-Returns (suc rounds) p r part [] more acc at d enough =
      elim (PopRound-cases p (part ∷ more) d) [
        | took msg rest m es e q d' less ↦
            rw
              (pop_return rounds p (at_state p m es) (
                q
                ∙ ap (λ t. take_message codec reply_id (at_state p m es) t msg) at
                ∙ take_last (at_state p m es) r acc msg))
              (
                ap (λ t. returned (ok (reassemble r (acc ++ t ∷ [])))) cc,
                subst (λ t. Delivers m es t) (cc) d',
              )
        | waited m es q d' less ↦
            rw (pop_step rounds p (at_state p m es) q)
              (attaching-Returns rounds (at_state p m es) r part [] more acc at d' (omega arith))
      ]
  attaching-Returns (suc rounds) p r part (next ∷ parts) more acc at d enough =
      elim (PopRound-cases p (part ∷ next ∷ (parts ++ more)) d) [
        | took msg rest m es e q d' less ↦
            let p' : Popping = record (at_state p m es) {
              phase = attaching r (suc (length parts)) (acc ++ part ∷ []);
            } in
            let taken : msg ≡ part = cc in
            let stepped : pop_round codec reply_id p ≡ (pending, p') =
              q
              ∙ ap (λ t. take_message codec reply_id (at_state p m es) t msg) at
              ∙ take_next (at_state p m es) r (length parts) acc msg
              ∙ ap
                  (λ t. (
                    pending,
                    record (at_state p m es) {
                      phase = attaching r (suc (length parts)) (acc ++ t ∷ []);
                    },
                  ))
                  taken in
            rw (pop_step rounds p p' stepped, ← append_assoc acc (part ∷ []) (next ∷ parts))
              (attaching-Returns rounds p' r next parts more (acc ++ part ∷ []) refl
                (subst (λ t. Delivers m es t) (cc) d') (omega arith))
        | waited m es q d' less ↦ rw (pop_step rounds p (at_state p m es) q) (
            attaching-Returns rounds (at_state p m es) r part (next ∷ parts) more acc at d'
              (omega arith))
      ]

  pub take_header :
      (p : Popping) (r : CommandResponse) (header : List ℕ)
      → codec.rpc_from_slice header ≡ decoded (command_response r)
      → take_message codec reply_id p awaiting header ≡ take_response reply_id p r
  unfolding take_message
  take_header p r header e = ap (take_rpc reply_id p) e

  take_alone :
      (p : Popping) (r : CommandResponse)
      → r.reply_id ≡ reply_id
      → r.num_attachments ≡ 0
      → take_response reply_id p r ≡ (returned (ok r), p)
  unfolding take_response
  take_alone p r same none = simp (same, none) (ground arith)

  pub take_first :
      (p : Popping) (r : CommandResponse) (n : ℕ)
      → r.reply_id ≡ reply_id
      → r.num_attachments ≡ suc n
      → take_response reply_id p r ≡ (pending, record p { phase = attaching r (suc n) [] })
  unfolding take_response
  take_first p r n same some_left = ground arith

  -- Where the stream delivers a response to the request and then as many messages as it announces
  -- attachments, `pop_msg` returns that response with the attachments merged into it in their
  -- order, and leaves the messages behind them for the next call, however the bytes are cut into
  -- reads: once it has run as many rounds as there is work. No read fails but for want of data, and
  -- the messages leave room for a header and a read in a `u32`.
  pub pop_msg-whole :
      (rounds : ℕ) (p : Popping) (header : List ℕ) (r : CommandResponse)
      (parts more : List (List ℕ))
      → p.phase ≡ awaiting
      → codec.rpc_from_slice header ≡ decoded (command_response r)
      → r.reply_id ≡ reply_id
      → r.num_attachments ≡ length parts
      → Delivers p.in_flight_message p.stream.reads (header ∷ (parts ++ more))
      → work_left p.in_flight_message p.stream.reads ≤ rounds
      → Returns (pop_msg codec reply_id rounds p) (whole r parts) more
  pop_msg-whole zero p header r parts more at e same count d enough =
      cc (no_work_left p.in_flight_message p.stream.reads _ d enough)
  pop_msg-whole (suc rounds) p header r parts more at e same count d enough =
      elim (PopRound-cases p (header ∷ (parts ++ more)) d) [
        | took msg rest m es eq q d' less ↦
            let p' : Popping = at_state p m es in
            let taken : msg ≡ header = cc in
            header_taken parts p' count
              (q
                ∙ ap (λ t. take_message codec reply_id p' t msg) at
                ∙ ap (take_message codec reply_id p' awaiting) taken
                ∙ take_header p' r header e)
              (subst (λ t. Delivers m es t) (cc) d') (omega arith)
        | waited m es q d' less ↦ rw (pop_step rounds p (at_state p m es) q) (
            pop_msg-whole rounds (at_state p m es) header r parts more at e same count d'
              (omega arith))
      ]
    where
      header_taken :
          (ps : List (List ℕ)) (p' : Popping)
          → r.num_attachments ≡ length ps
          → pop_round codec reply_id p ≡ take_response reply_id p' r
          → Delivers p'.in_flight_message p'.stream.reads (ps ++ more)
          → work_left p'.in_flight_message p'.stream.reads ≤ rounds
          → Returns (pop_msg codec reply_id (suc rounds) p) (whole r ps) more
      header_taken [] p' none q d' room =
          rw (pop_return rounds p p' (q ∙ take_alone p' r same none)) (refl, d')
      header_taken (part ∷ ps) p' some_left q d' room =
          let p'' : Popping = record p' { phase = attaching r (suc (length ps)) [] } in
          rw (pop_step rounds p p'' (q ∙ take_first p' r (length ps) same some_left))
            (attaching-Returns rounds p'' r part ps more [] refl d' room)
