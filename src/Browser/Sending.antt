-- ===== src/Browser/Sending.antt =====
-- exfiltrate/src/wire/server/wasm32.rs: the callback `onmessage` with what the socket makes of each
-- `send_with_array_buffer(..).unwrap()`.
use exfiltrate.Common.{
  ℕ, suc, ◌<◌, ◌^◌, List, [], ◌∷◌, ◌++◌, length, length-append, Bool, true, false, arith, ◌≡◌, ◌≢◌,
  refl, sym, ap, subst, ◌∙◌,
}
use native.Mathlib.Nat.{mod-eq_of_lt}
use exfiltrate.Stream.{Outcome, ok, err, panic}
use exfiltrate.Wire.Delivery.{Delivers}
use exfiltrate.Response.{split_data}
use exfiltrate.Rpc.{Codec, decoded, command, command_response, CommandInvocation, CommandResponse}
use exfiltrate.Server.{Host, do_command}
use exfiltrate.Server.Dispatch.{do_command_id}
use exfiltrate.Client.{Popping, awaiting, pending, pop_msg}
use exfiltrate.Client.Lost.{pop_msg-nothing, pop_msg-short}
use exfiltrate.Browser.{on_message}
use exfiltrate.Browser.Reassembly.{attachments, header_of, on_message_header}

-- An event's data: an `ArrayBuffer`, or anything else.
pub data MessageEvent : Type 0 where
  array_buffer : List ℕ → MessageEvent
  non_binary : MessageEvent

-- Whether the callback has returned or panicked.
pub data Callback : Type 0 where
  returned panicked : Callback

unfoldable pub and_sent : List ℕ → Callback × List (List ℕ) → Callback × List (List ℕ)
and_sent message (ended, sent) = (ended, message ∷ sent)

-- The sends in their order: each succeeds or fails as given, and past the given ones they succeed.
-- What was sent before a failed one stays sent.
unfoldable pub send_each : List Bool → List (List ℕ) → Callback × List (List ℕ)
unfolding and_sent
send_each outcomes [] = (returned, [])
send_each [] (message ∷ messages) = and_sent message (send_each [] messages)
send_each (true ∷ outcomes) (message ∷ messages) = and_sent message (send_each outcomes messages)
send_each (false ∷ outcomes) (message ∷ messages) = (panicked, [])

-- A panic of the handler or of the serializer comes before anything is sent.
unfoldable pub send_outcome : List Bool → Outcome (List (List ℕ)) → Callback × List (List ℕ)
send_outcome outcomes (ok messages) = send_each outcomes messages
send_outcome outcomes (err e) = (panicked, [])
send_outcome outcomes panic = (panicked, [])

-- The callback: what it has sent. A message that is not binary panics at `unimplemented!`.
unfoldable pub onmessage : Codec → Host → List Bool → MessageEvent → Callback × List (List ℕ)
unfolding send_outcome
onmessage codec h outcomes (array_buffer message) =
    send_outcome outcomes (on_message codec h message)
onmessage codec h outcomes non_binary = (panicked, [])

-- What is sent is a first part: all of it where the callback returns, and less where it panics.
pub record CutShort (messages : List (List ℕ)) (x : Callback × List (List ℕ)) : Type 0 where
  pub lost : List (List ℕ)
  pub split : x.1 ++ lost ≡ messages
  pub whole : x.0 ≡ returned → lost ≡ []
  pub less : x.0 ≡ panicked → lost ≢ []

sent_first :
    (message : List ℕ) (messages : List (List ℕ)) (x : Callback × List (List ℕ))
    → CutShort messages x
    → CutShort (message ∷ messages) (and_sent message x)
unfolding and_sent
sent_first message messages (ended, sent) c = record {
  lost = c.lost;
  split = ap (λ t. message ∷ t) c.split;
  whole = c.whole;
  less = c.less;
}

pub send_each-CutShort :
    (outcomes : List Bool) (messages : List (List ℕ))
    → CutShort messages (send_each outcomes messages)
unfolding send_each
send_each-CutShort outcomes [] = record {
  lost = [];
  split = refl;
  whole = λ e. refl;
  less = λ e. absurd (ended e);
}
  where
    ended : returned ≢ panicked
    ended e = cc
send_each-CutShort [] (message ∷ messages) =
    sent_first message messages (send_each [] messages) (send_each-CutShort [] messages)
send_each-CutShort (true ∷ outcomes) (message ∷ messages) =
    sent_first message messages (send_each outcomes messages) (send_each-CutShort outcomes messages)
send_each-CutShort (false ∷ outcomes) (message ∷ messages) = record {
  lost = message ∷ messages;
  split = refl;
  whole = λ e. absurd (ended e);
  less = λ e. λ n. cc;
}
  where
    ended : panicked ≢ returned
    ended e = cc

module _ (codec : Codec) (h : Host) (c : CommandInvocation) (r : CommandResponse)
    (request : List ℕ) where
  -- A send that fails leaves the tool waiting: where the callback panics in the middle of a
  -- response that could be serialized, the client that asked never gets an answer from `pop_msg`,
  -- neither the response nor an error, however many rounds it runs on a stream that delivers what was
  -- sent.
  pub pop_msg-cut_short :
      (outcomes : List Bool) (rounds : ℕ) (p : Popping) (msgs sent : List (List ℕ))
      → codec.rpc_from_slice request ≡ decoded (command c)
      → do_command codec h c ≡ ok r
      → on_message codec h request ≡ ok msgs
      → length (split_data r.response).1 < 2 ^ 32
      → onmessage codec h outcomes (array_buffer request) ≡ (panicked, sent)
      → p.phase ≡ awaiting
      → Delivers p.in_flight_message p.stream.reads sent
      → (pop_msg codec c.reply_id rounds p).0 ≡ pending
  unfolding onmessage send_outcome
  pop_msg-cut_short outcomes rounds p msgs sent asked done answered few cut at d =
      let cut_off : send_each outcomes msgs ≡ (panicked, sent) =
        sym (ap (send_outcome outcomes) answered) ∙ cut in
      let short : CutShort msgs (panicked, sent) =
        subst (CutShort msgs) cut_off (send_each-CutShort outcomes msgs) in
      let (header, e, same) = on_message_header codec h c r request msgs asked done answered in
      go sent short.lost header (codec.rpc_round_trip _ header e) (short.split ∙ same)
        (short.less refl) d
    where
      go :
          (sent lost : List (List ℕ)) (header : List ℕ)
          → codec.rpc_from_slice header ≡ decoded (command_response (header_of r))
          → sent ++ lost ≡ header ∷ attachments r
          → lost ≢ []
          → Delivers p.in_flight_message p.stream.reads sent
          → (pop_msg codec c.reply_id rounds p).0 ≡ pending
      go [] lost header e split less d = pop_msg-nothing codec c.reply_id rounds p d
      go (first ∷ parts) [] header e split less d = absurd (less refl)
      go (first ∷ parts) (next ∷ lost) header e split less d =
          let n : ℕ = length (parts ++ lost) in
          let rest : parts ++ next ∷ lost ≡ attachments r = cc in
          let counted : length (attachments r) ≡ suc n =
            omega (
              arith,
              ap length rest,
              length-append parts (next ∷ lost),
              length-append parts lost,
            ) in
          pop_msg-short codec c.reply_id rounds p header (header_of r) n parts at e
            (do_command_id codec h c r done).0 (mod-eq_of_lt few ∙ counted)
            (omega (arith, length-append parts lost))
            (subst (λ t. Delivers p.in_flight_message p.stream.reads (t ∷ parts)) (cc) d)
