-- ===== src/System/Replies.antt =====
-- From the browser to every tool that is connected.
use exfiltrate.Common.{
  ℕ, ◌≤◌, ◌<◌, ◌^◌, List, [], ◌++◌, length, ◌==◌, if◌then◌else◌, some, arith, ◌≡◌, ◌≢◌, sym, ap,
  subst, ◌∙◌, append-nil, inl, inr,
}
use exfiltrate.Common.Table.{same_or_not}
use exfiltrate.Stream.{ok, panic, ReadEvent, available}
use exfiltrate.Wire.{InFlightMessage}
use exfiltrate.Wire.Framing.{frames}
use exfiltrate.Wire.Delivery.{Delivers, work_left}
use exfiltrate.Response.{split_data}
use exfiltrate.Rpc.{Codec, decoded, command, CommandInvocation, CommandResponse}
use exfiltrate.Server.{Host, do_command}
use exfiltrate.Server.Dispatch.{do_command_id}
use exfiltrate.Client.{Popping, awaiting, pop_msg, returned}
use exfiltrate.Client.Strangers.{pop_msg-stranger}
use exfiltrate.Browser.{on_message}
use exfiltrate.Browser.Reassembly.{
  attachments, header_of, numbered, on_message_header, pop_msg-on_message,
}
use exfiltrate.Proxy.Tcp.Clients.{live}
use exfiltrate.Proxy.Bridge.{Bridge, Label, Run}
use exfiltrate.Proxy.Bridge.Down.{heard_messages, Run-Served}
use exfiltrate.System.{ReachesClient}

no_queue : {q : List (List ℕ)} → some (live q) ≡ some (live []) → q ≡ []
no_queue e = cc

-- Every registered client is delivered everything that was heard from the browsers.
pub heard_delivered :
    (tag : ℕ) {b b' : Bridge} {ls : List Label} (m : InFlightMessage) (reads : List ReadEvent)
    → Run b ls b'
    → ReachesClient tag b b' ls m reads
    → Delivers m reads (heard_messages ls)
heard_delivered tag {b} {b'} {ls} m reads run w =
    let s = Run-Served tag [] run w.registered w.stays in
    let idle : s.waiting ≡ [] = no_queue (sym s.registered ∙ w.all_taken) in
    let all : s.written ≡ heard_messages ls =
      sym (append-nil s.written)
      ∙ ap (λ t. s.written ++ t) (sym w.all_distributed)
      ∙ ap (λ t. s.written ++ (t ++ b'.from_websocket)) (sym idle)
      ∙ s.in_order
      ∙ ap (λ t. t ++ heard_messages ls) w.none_heard in
    record {
      split =
          ap (λ t. t ++ available reads) w.fresh
          ∙ w.comes
          ∙ s.on_stream
          ∙ ap (λ t. t ++ frames s.written) w.none_sent
          ∙ ap frames all;
      small = omega (arith, ap length w.fresh);
      fits = w.fits;
      quiet = w.quiet;
    }

chosen : {A : Type 0} (x y : A) (i j : ℕ) → i ≢ j → y ≡ (if i == j then x else y)
chosen x y i j ne = ground (arith, ne)

own : {A : Type 0} (x y : A) (i : ℕ) → x ≡ (if i == i then x else y)
own x y i = ground arith

module _ (codec : Codec) (h : Host) (c : CommandInvocation) (r : CommandResponse)
    (request : List ℕ) where
  -- The proxy sends what the browser answers to one request to every client that is registered, not
  -- only to the one that asked. Where that answer is the first thing that is heard, a client that
  -- waits for the reply to a request of its own, `id`, takes the response for that reply if the ids
  -- happen to be the same, and panics if they are not, once `pop_msg` has run as many rounds as
  -- there is work. Nothing was written to this client before, everything heard is written to it at
  -- the end, its reads do not fail, and the messages fit; the command does not panic and has fewer
  -- than 2 ^ 32 attachments.
  pub pop_msg-any_client :
      (id rounds tag : ℕ) {b b' : Bridge} {ls : List Label} (p : Popping)
      (msgs more : List (List ℕ))
      → codec.rpc_from_slice request ≡ decoded (command c)
      → do_command codec h c ≡ ok r
      → on_message codec h request ≡ ok msgs
      → length (split_data r.response).1 < 2 ^ 32
      → Run b ls b'
      → ReachesClient tag b b' ls p.in_flight_message p.stream.reads
      → heard_messages ls ≡ msgs ++ more
      → p.phase ≡ awaiting
      → work_left p.in_flight_message p.stream.reads ≤ rounds
      → (pop_msg codec id rounds p).0
        ≡ (if c.reply_id == id then returned (ok (numbered r)) else returned panic)
  pop_msg-any_client id rounds tag p msgs more asked done sent few run w heard at enough =
      let d : Delivers p.in_flight_message p.stream.reads (msgs ++ more) =
        subst (Delivers p.in_flight_message p.stream.reads) heard
          (heard_delivered tag p.in_flight_message p.stream.reads run w) in
      elim (same_or_not c.reply_id id) [
        | inl e ↦
            subst
              (λ i.
                (pop_msg codec i rounds p).0
                ≡ (if c.reply_id == i then returned (ok (numbered r)) else returned panic))
              e
              (pop_msg-on_message codec h c r request rounds p msgs more asked done sent few at d
                  enough
                ∙ own _ _ c.reply_id)
        | inr other ↦
            let (header, e, same) = on_message_header codec h c r request msgs asked done sent in
            pop_msg-stranger codec id rounds p header (header_of r) (attachments r ++ more) at
              (codec.rpc_round_trip _ header e)
              (λ t. other (sym (do_command_id codec h c r done).0 ∙ t))
              (subst (λ t. Delivers p.in_flight_message p.stream.reads (t ++ more)) same d) enough
            ∙ chosen _ _ c.reply_id id other
      ]
