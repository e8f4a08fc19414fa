-- ===== src/Proxy/Bridge/Serving.antt =====
-- The thread that accepts browsers, while it goes on and after a handshake has made it panic.
use exfiltrate.Common.{◌≡◌, refl, sym, ap, ◌∙◌, true, false, true-false, List, [], ◌∷◌, ◌++◌}
use exfiltrate.Loop.{Thread}
use exfiltrate.Proxy.Tcp.{Channel, Reader}
use exfiltrate.Proxy.Tcp.Relay.{reader_round_closed}
use exfiltrate.Proxy.Bridge.Rounds.{longer}
use exfiltrate.Proxy.Bridge.Up.{forwarded_messages, forwarded_first}
use exfiltrate.Proxy.Bridge.{
  Bridge, Label, heard, forwarded, came, gone, broke, connected, halted, inner, reader_of, Step,
  joins, stops_accepting, cannot_join, reads, stops_listening, stops_reading, distributes,
  writes_client, fails_client, waits, forwards, writes_browser, fails_browser, opens, halts, Run,
  here, next,
}

-- The thread that accepts browsers does not panic.
abbrev pub Serves : List Label → Type 0
Serves [] = Unit
Serves (halted ∷ ls) = ⊥
Serves (l ∷ ls) = Serves ls

pub Step-serving :
    {b b' : Bridge} {l : Label}
    → Step b l b'
    → Serves (l ∷ [])
    → b.serving ≡ true
    → b'.serving ≡ true
Step-serving (joins t stream running_on fresh free) lasts alive = alive
Step-serving (stops_accepting e going) lasts alive = alive
Step-serving (cannot_join t going fresh free) lasts alive = alive
Step-serving (reads k rounds going e) lasts alive = alive
Step-serving (stops_listening k rounds going e over) lasts alive = alive
Step-serving (distributes message rest e) lasts alive = alive
Step-serving (writes_client t message rest h e) lasts alive = alive
Step-serving (fails_client t message rest h e bad) lasts alive = alive
Step-serving (waits t r going e same) lasts alive = alive
Step-serving (forwards t message r going e more) lasts alive = alive
Step-serving (stops_reading t r going e over) lasts alive = alive
Step-serving (writes_browser message bytes rest going next_one frame_of put) lasts alive = alive
Step-serving (fails_browser message bytes rest going next_one frame_of put) lasts alive = alive
Step-serving (opens sha n s going closed done) lasts alive = alive
Step-serving (halts sha n s going closed done why) lasts alive = absurd lasts

pub Serves-split : (l : Label) (ls : List Label) → Serves (l ∷ ls) → Serves (l ∷ []) × Serves ls
Serves-split (heard j message) ls k = (tt, k)
Serves-split (forwarded t message) ls k = (tt, k)
Serves-split (came t) ls k = (tt, k)
Serves-split (gone t) ls k = (tt, k)
Serves-split broke ls k = (tt, k)
Serves-split connected ls k = (tt, k)
Serves-split halted ls k = absurd k
Serves-split inner ls k = (tt, k)

-- Where that thread has ended, nothing reaches a browser any more.
pub record IsHalted (b : Bridge) (ls : List Label) (b' : Bridge) : Type 0 where
  pub down : b'.serving ≡ false
  pub nothing_forwarded : forwarded_messages ls ≡ []
  pub no_browser : b'.opened ≡ b.opened

Step-IsHalted :
    {b b' : Bridge} {l : Label} → Step b l b' → b.serving ≡ false → IsHalted b (l ∷ []) b'
Step-IsHalted (joins t stream running_on fresh free) gone_down = record {
  down = gone_down;
  nothing_forwarded = refl;
  no_browser = refl;
}
Step-IsHalted (stops_accepting e going) gone_down = record {
  down = gone_down;
  nothing_forwarded = refl;
  no_browser = refl;
}
Step-IsHalted (cannot_join t going fresh free) gone_down = record {
  down = gone_down;
  nothing_forwarded = refl;
  no_browser = refl;
}
Step-IsHalted (reads k rounds going e) gone_down = record {
  down = gone_down;
  nothing_forwarded = refl;
  no_browser = refl;
}
Step-IsHalted (stops_listening k rounds going e over) gone_down = record {
  down = gone_down;
  nothing_forwarded = refl;
  no_browser = refl;
}
Step-IsHalted (distributes message rest e) gone_down = record {
  down = gone_down;
  nothing_forwarded = refl;
  no_browser = refl;
}
Step-IsHalted (writes_client t message rest h e) gone_down = record {
  down = gone_down;
  nothing_forwarded = refl;
  no_browser = refl;
}
Step-IsHalted (fails_client t message rest h e bad) gone_down = record {
  down = gone_down;
  nothing_forwarded = refl;
  no_browser = refl;
}
Step-IsHalted (waits t r going e same) gone_down = record {
  down = gone_down;
  nothing_forwarded = refl;
  no_browser = refl;
}
Step-IsHalted {b} (forwards t message r going e more) gone_down = absurd (
    longer b.to_websocket message (
      sym more
      ∙ ap (λ (y : Thread × Reader). y.1.to_websocket.queue) (sym e)
      ∙ ap (λ (c : Channel). c.queue) (reader_round_closed (reader_of b t) gone_down)))
Step-IsHalted (stops_reading t r going e over) gone_down = record {
  down = gone_down;
  nothing_forwarded = refl;
  no_browser = refl;
}
Step-IsHalted (writes_browser message bytes rest going next_one frame_of put) gone_down = record {
  down = gone_down;
  nothing_forwarded = refl;
  no_browser = refl;
}
Step-IsHalted (fails_browser message bytes rest going next_one frame_of put) gone_down = record {
  down = gone_down;
  nothing_forwarded = refl;
  no_browser = refl;
}
Step-IsHalted (opens sha n s going closed done) gone_down =
    absurd (true-false (sym going ∙ gone_down))
Step-IsHalted (halts sha n s going closed done why) gone_down =
    absurd (true-false (sym going ∙ gone_down))

-- Once the thread that accepts browsers has panicked, whatever the other threads do and whatever the
-- clients send: no message is forwarded any more, and no browser is ever connected again.
pub Run-IsHalted :
    {b b' : Bridge} {ls : List Label} → Run b ls b' → b.serving ≡ false → IsHalted b ls b'
Run-IsHalted here gone_down = record {
  down = gone_down;
  nothing_forwarded = refl;
  no_browser = refl;
}
Run-IsHalted (next {l = l} {ls} st run) gone_down =
    let first = Step-IsHalted st gone_down in
    let later = Run-IsHalted run first.down in
    record {
      down = later.down;
      nothing_forwarded =
          sym (forwarded_first l ls)
          ∙ ap (λ t. t ++ forwarded_messages ls) first.nothing_forwarded
          ∙ later.nothing_forwarded;
      no_browser = later.no_browser ∙ first.no_browser;
    }
