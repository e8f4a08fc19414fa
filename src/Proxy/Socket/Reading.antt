-- ===== src/Proxy/Socket/Reading.antt =====
-- What `Websocket::read` returns, and when it never does.
use exfiltrate.Common.{
  ℕ, zero, suc, ◌≤◌, List, [], ◌∷◌, ◌++◌, length, All, length-append, Bool-cases, inl, inr, ltb,
  take, drop, arith, ◌≡◌, ◌≢◌, refl, ap, subst, ◌∙◌,
}
use exfiltrate.Stream.{
  Outcome, ok, err, panic, ReadEvent, ready, failed, mode_failed, read_events, read_events_long,
  read_events_short,
}
use exfiltrate.Stream.{
  interrupted, would_block, timed_out, write_zero, connection_refused, permission_denied, other,
}
use exfiltrate.Wire.Delivery.{IsQuiet}
use exfiltrate.Proxy.Frame.Closing.{fails_closed, opcode_front, parse_failed, unparsed-send_data}
use exfiltrate.Proxy.Frame.{closed, next_frame, fails, send_data, opcode}
use exfiltrate.Proxy.Socket.{
  Websocket, Tried, data_of, refused, died, judge, try_parse_frame, Progress, waiting, crashed,
  returned, failed_with, take_read, after_try, read_round, go_on_reading, read,
}

abbrev Solid : Progress → Type 0
Solid (returned bs) = bs ≢ []
Solid _ = Unit

take_read-Solid : (w : Websocket) (x : Outcome (List ℕ) × List ReadEvent) → Solid (take_read w x).0
unfolding take_read
take_read-Solid w (ok bs, es) = tt
take_read-Solid w (err would_block, es) = tt
take_read-Solid w (err e, es) = tt
take_read-Solid w (panic, es) = tt

after_try-Solid : (x : Tried × Websocket) → Solid (after_try x).0
unfolding after_try
after_try-Solid (data_of (b ∷ bs), w) = λ e. cc
after_try-Solid (data_of [], w) = take_read-Solid w (read_events 1024 w.reads)
after_try-Solid (refused e, w) = take_read-Solid w (read_events 1024 w.reads)
after_try-Solid (died, w) = tt

go_on_Solid :
    (next : Websocket → Progress × Websocket) (x : Progress × Websocket)
    → Solid x.0
    → ((w : Websocket) → Solid (next w).0)
    → Solid (go_on_reading next x).0
unfolding go_on_reading
go_on_Solid next (waiting, w) s ih = ih w
go_on_Solid next (crashed, w) s ih = tt
go_on_Solid next (returned bs, w) s ih = s
go_on_Solid next (failed_with e, w) s ih = tt

read-Solid : (rounds : ℕ) (w : Websocket) → Solid (read rounds w).0
unfolding read read_round
read-Solid zero w = tt
read-Solid (suc rounds) w =
    go_on_Solid (read rounds) (read_round w) (after_try-Solid (try_parse_frame w))
      (read-Solid rounds)

-- `Websocket::read` never returns an empty message: whatever the browser sends, an attachment
-- without bytes does not get through the proxy.
pub read-ne-nil :
    (rounds : ℕ) (w : Websocket) {message : List ℕ}
    → (read rounds w).0 ≡ returned message
    → message ≢ []
read-ne-nil rounds w e = subst Solid e (read-Solid rounds w)

-- The parser stands before a close frame.
pub record AtClose (w : Websocket) : Type 0 where
  pub two : 2 ≤ length w.frame_parser.unparsed_data
  pub close : opcode w.frame_parser.unparsed_data ≡ 8

next_frame-close : (bs : List ℕ) → 2 ≤ length bs → opcode bs ≡ 8 → next_frame bs ≡ fails closed
next_frame-close bs two close = fails_closed bs two close

opcode-append : (bs more : List ℕ) → 2 ≤ length bs → opcode (bs ++ more) ≡ opcode bs
opcode-append [] more h = absurd (omega arith)
opcode-append (b ∷ bs) more h = opcode_front b (bs ++ more) bs

parse_close : (w : Websocket) → AtClose w → try_parse_frame w ≡ (refused closed, w)
unfolding try_parse_frame
parse_close w c =
    ap (judge w)
      (parse_failed w.frame_parser (next_frame-close w.frame_parser.unparsed_data c.two c.close))

-- One round before a close frame goes on waiting, still before it.
data Waits (w : Websocket) : Type 0 where
  waits :
      (w' : Websocket) → read_round w ≡ (waiting, w') → AtClose w' → All IsQuiet w'.reads → Waits w

received_close :
    (w : Websocket) (bs : List ℕ) (es : List ReadEvent)
    → AtClose w
    → AtClose (record { frame_parser = send_data bs w.frame_parser; reads = es })
received_close w bs es c = record {
  two =
      rw (unparsed-send_data bs w.frame_parser)
        (omega (arith, c.two, length-append w.frame_parser.unparsed_data bs));
  close =
      rw (unparsed-send_data bs w.frame_parser)
        (opcode-append w.frame_parser.unparsed_data bs c.two ∙ c.close);
}

read_from :
    (w : Websocket) (es : List ReadEvent)
    → w.reads ≡ es
    → AtClose w
    → read_round w ≡ take_read w (read_events 1024 es)
unfolding read_round after_try
read_from w es e c = ap after_try (parse_close w c) ∙ ap (λ t. take_read w (read_events 1024 t)) e

round_close :
    (w : Websocket) (es : List ReadEvent) → w.reads ≡ es → AtClose w → All IsQuiet es → Waits w
unfolding take_read read_events
round_close w [] e c q =
    waits (record w { reads = [] }) (read_from w [] e c) (record { two = c.two; close = c.close })
      tt
round_close w (ready bs ∷ es) e c q = elim (Bool-cases (ltb 1024 (length bs))) [
  | inl long ↦
      waits _ (read_from w _ e c ∙ ap (take_read w) (read_events_long 1024 bs es long))
        (received_close w (take 1024 bs) (ready (drop 1024 bs) ∷ es) c) (tt, q.1)
  | inr fits ↦
      waits _ (read_from w _ e c ∙ ap (take_read w) (read_events_short 1024 bs es fits))
        (received_close w bs es c) q.1
]
round_close w (failed would_block ∷ es) e c q =
    waits (record w { reads = es }) (read_from w _ e c) (record { two = c.two; close = c.close })
      q.1
round_close w (failed interrupted ∷ es) e c q = absurd q.0
round_close w (failed timed_out ∷ es) e c q = absurd q.0
round_close w (failed write_zero ∷ es) e c q = absurd q.0
round_close w (failed connection_refused ∷ es) e c q = absurd q.0
round_close w (failed permission_denied ∷ es) e c q = absurd q.0
round_close w (failed (other n) ∷ es) e c q = absurd q.0
round_close w (mode_failed x ∷ es) e c q = absurd q.0

-- After a close frame `Websocket::read` never returns, neither with a message nor with an error,
-- whatever data still comes in: the parser keeps the close frame in front, and the error is passed over.
pub read_after_close :
    (rounds : ℕ) (w : Websocket) → AtClose w → All IsQuiet w.reads → (read rounds w).0 ≡ waiting
unfolding read
read_after_close zero w c q = refl
read_after_close (suc rounds) w c q = elim (round_close w w.reads refl c q) [
  | waits w' e c' q' ↦
      ap (λ t. (go_on_reading (read rounds) t).0) e ∙ read_after_close rounds w' c' q'
]
