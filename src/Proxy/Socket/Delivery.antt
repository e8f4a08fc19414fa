-- ===== src/Proxy/Socket/Delivery.antt =====
-- `Websocket::read` returns the browser's messages one by one, however their bytes come in.
use exfiltrate.Common.{ℕ, ◌+◌, ◌<◌, List, [], ◌∷◌, ◌++◌, length, All, Bool, ltb, take, drop}
use exfiltrate.Common.{
  arith, ◌≡◌, ◌≢◌, refl, sym, ap, subst, ◌∙◌, append_assoc, append-nil, length-append, length-drop,
  ltb→lt, take-append-drop, Bool-cases, inl, inr,
}
use exfiltrate.Stream.{
  ReadEvent, ready, failed, mode_failed, available, read_events, read_events_long,
  read_events_short,
}
use exfiltrate.Stream.{
  interrupted, would_block, timed_out, write_zero, connection_refused, permission_denied, other,
}
use exfiltrate.Proxy.Frame.{
  WebsocketFrameParser, complete, failed as unparsed, too_short, parse, parse_loop, next_frame,
  send_data,
}
use exfiltrate.Proxy.Socket.{
  Websocket, judge, try_parse_frame, waiting, returned, take_read, after_try, read_round,
}

-- The browser sends, or takes its time.
abbrev pub IsPatient : ReadEvent → Type 0
IsPatient (ready bs) = Unit
IsPatient (failed would_block) = Unit
IsPatient (failed timed_out) = Unit
IsPatient _ = ⊥

-- What `parse` makes of the parser's bytes are these messages, one call after the other, and none of
-- them is empty; behind them there is nothing.
abbrev pub Gives : WebsocketFrameParser → List (List ℕ) → Type 0
Gives p [] = p.unparsed_data ≡ []
Gives p (message ∷ messages) =
    (mask : Bool) × (q : WebsocketFrameParser) × (parse p
      ≡ (complete (record { payload = message; mask = mask }), q))
    × (message ≢ [])
    × Gives q messages

-- The messages that are buffered or still to come.
pub record Delivers (w : Websocket) (messages : List (List ℕ)) : Type 0 where
  pub gives : Gives (send_data (available w.reads) w.frame_parser) messages
  pub patient : All IsPatient w.reads

abbrev pub work_left : Websocket → ℕ
work_left w = length (available w.reads) + length w.reads

-- One round of `read` where messages are delivered.
pub data Round (w : Websocket) (messages : List (List ℕ)) : Type 0 where
  got :
      (message : List ℕ) (rest : List (List ℕ)) (w' : Websocket)
      → messages ≡ message ∷ rest
      → read_round w ≡ (returned message, w')
      → Delivers w' rest
      → Round w messages
  waits :
      (w' : Websocket)
      → read_round w ≡ (waiting, w')
      → Delivers w' messages
      → (messages ≢ [] → work_left w' < work_left w)
      → Round w messages

pub parse_nothing :
    (p : WebsocketFrameParser) → p.unparsed_data ≡ [] → parse p ≡ (unparsed too_short, p)
unfolding parse parse_loop next_frame
parse_nothing p e =
    ap (λ t. parse (record p { unparsed_data = t })) e
    ∙ ap (λ t. (unparsed too_short, record p { unparsed_data = t })) (sym e)

pub send_data_nil : (p : WebsocketFrameParser) → send_data [] p ≡ p
unfolding send_data
send_data_nil p = ap (λ t. record p { unparsed_data = t }) (append-nil p.unparsed_data)

send_data_twice :
    (bs cs : List ℕ) (p : WebsocketFrameParser)
    → send_data cs (send_data bs p) ≡ send_data (bs ++ cs) p
unfolding send_data
send_data_twice bs cs p =
    ap (λ t. record p { unparsed_data = t }) (append_assoc p.unparsed_data bs cs)

-- A frame that is not empty is returned.
pub try_returned :
    (w : Websocket) (message : List ℕ) (mask : Bool) (q : WebsocketFrameParser)
    → parse w.frame_parser ≡ (complete (record { payload = message; mask = mask }), q)
    → message ≢ []
    → read_round w ≡ (returned message, record w { frame_parser = q })
unfolding read_round try_parse_frame judge after_try
try_returned w [] mask q e ne = absurd (ne refl)
try_returned w (b ∷ bs) mask q e ne = ap (λ t. after_try (judge w t)) e

try_short :
    (w : Websocket) (p : WebsocketFrameParser)
    → parse w.frame_parser ≡ (unparsed too_short, p)
    → read_round w ≡ take_read (record w { frame_parser = p }) (read_events 1024 w.reads)
unfolding read_round try_parse_frame judge after_try
try_short w p e = ap (λ t. after_try (judge w t)) e

work_falls :
    (w : Websocket) (es : List ReadEvent) (n : ℕ)
    → w.reads ≡ es
    → n < length (available es) + length es
    → n < work_left w
work_falls w es n e less = omega (arith, less, ap (λ t. length (available t) + length t) e)

-- The round where the buffered bytes are too few: it reads.
pub after_short :
    (w : Websocket) (es : List ReadEvent) (p : WebsocketFrameParser) (messages : List (List ℕ))
    → w.reads ≡ es
    → parse w.frame_parser ≡ (unparsed too_short, p)
    → Gives (send_data (available es) p) messages
    → All IsPatient es
    → (es ≡ [] → messages ≡ [])
    → Round w messages
unfolding take_read read_events
after_short w [] p messages e short g ps all =
    waits (record { frame_parser = p; reads = [] })
      (try_short w p short
        ∙ ap (λ t. take_read (record w { frame_parser = p }) (read_events 1024 t)) e)
      (record { gives = g; patient = tt }) (λ some_left. absurd (some_left (all refl)))
after_short w (ready bs ∷ es) p messages e short g ps all =
    elim (Bool-cases (ltb 1024 (length bs))) [
      | inl long ↦
          let start : List ℕ = take 1024 bs in
          let left : List ℕ = drop 1024 bs in
          waits (record { frame_parser = send_data start p; reads = ready left ∷ es })
            (try_short w p short
              ∙ ap (λ t. take_read (record w { frame_parser = p }) (read_events 1024 t)) e
              ∙ ap (take_read (record w { frame_parser = p })) (read_events_long 1024 bs es long))
            (record {
              gives =
                  subst (λ t. Gives t messages)
                    (ap (λ t. send_data t p)
                        (ap (λ t. t ++ available es) (sym (take-append-drop 1024 bs))
                          ∙ append_assoc start left (available es))
                      ∙ sym (send_data_twice start (left ++ available es) p))
                    g;
              patient = ps;
            })
            (λ some_left. work_falls w (ready bs ∷ es) _ e (
              omega (
                arith,
                length-drop 1024 bs,
                ltb→lt _ _ long,
                length-append bs (available es),
                length-append left (available es),
              )))
      | inr fits ↦
          waits (record { frame_parser = send_data bs p; reads = es })
            (try_short w p short
              ∙ ap (λ t. take_read (record w { frame_parser = p }) (read_events 1024 t)) e
              ∙ ap (take_read (record w { frame_parser = p })) (read_events_short 1024 bs es fits))
            (record {
              gives = subst (λ t. Gives t messages) (sym (send_data_twice bs (available es) p)) g;
              patient = ps.1;
            })
            (λ some_left.
              work_falls w (ready bs ∷ es) _ e (omega (arith, length-append bs (available es))))
    ]
after_short w (failed would_block ∷ es) p messages e short g ps all =
    waits (record { frame_parser = p; reads = es })
      (try_short w p short
        ∙ ap (λ t. take_read (record w { frame_parser = p }) (read_events 1024 t)) e)
      (record { gives = g; patient = ps.1 })
      (λ some_left. work_falls w (failed would_block ∷ es) _ e (omega arith))
after_short w (failed timed_out ∷ es) p messages e short g ps all =
    waits (record { frame_parser = p; reads = es })
      (try_short w p short
        ∙ ap (λ t. take_read (record w { frame_parser = p }) (read_events 1024 t)) e)
      (record { gives = g; patient = ps.1 })
      (λ some_left. work_falls w (failed timed_out ∷ es) _ e (omega arith))
after_short w (failed interrupted ∷ es) p messages e short g ps all = absurd ps.0
after_short w (failed write_zero ∷ es) p messages e short g ps all = absurd ps.0
after_short w (failed connection_refused ∷ es) p messages e short g ps all = absurd ps.0
after_short w (failed permission_denied ∷ es) p messages e short g ps all = absurd ps.0
after_short w (failed (other n) ∷ es) p messages e short g ps all = absurd ps.0
after_short w (mode_failed f ∷ es) p messages e short g ps all = absurd ps.0
