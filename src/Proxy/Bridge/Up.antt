-- ===== src/Proxy/Bridge/Up.antt =====
-- From the proxy to the browser: what the clients' reader threads forward is written to the
-- browser's stream in that order, whatever the threads do in between.
use exfiltrate.Common.{true-false, ℕ, suc, zero, List, [], ◌∷◌, ◌++◌, true, take, drop}
use exfiltrate.Common.{append_assoc, append-nil, take-append-drop, ◌≡◌, refl, sym, ap, subst, ◌∙◌}
use exfiltrate.Stream.{
  Outcome, ok, err, panic, WriteEvent, takes, refuses, interrupted, would_block, timed_out,
  write_zero, connection_refused, permission_denied, other,
}
use exfiltrate.Loop.{Thread}
use exfiltrate.Proxy.Tcp.{Channel, Reader}
use exfiltrate.Proxy.Tcp.Relay.{reader_round_queue}
use exfiltrate.Proxy.Socket.{ws_frame}
use exfiltrate.Proxy.Frame.Fragments.{wire}
use exfiltrate.Proxy.Frame.Messages.{whole_frame, to_bytes-wire}
use exfiltrate.Proxy.Handshake.{write_all}
use exfiltrate.Proxy.Bridge.{
  Bridge, Label, heard, forwarded, came, gone, broke, connected, halted, inner, reader_of, Step,
  joins, stops_accepting, cannot_join, reads, stops_listening, stops_reading, distributes,
  writes_client, fails_client, waits, forwards, writes_browser, fails_browser, opens, halts, Run,
  here, next,
}

-- The messages that the clients' threads forward, among what is shown.
abbrev pub forwarded_messages : List Label → List (List ℕ)
forwarded_messages [] = []
forwarded_messages (forwarded t msg ∷ ls) = msg ∷ forwarded_messages ls
forwarded_messages (l ∷ ls) = forwarded_messages ls

-- The browser's stream does not fail.
abbrev pub Lasts : List Label → Type 0
Lasts [] = Unit
Lasts (broke ∷ ls) = ⊥
Lasts (l ∷ ls) = Lasts ls

-- The frames of messages, one behind the other.
abbrev pub ws_frames : List (List ℕ) → List ℕ
ws_frames [] = []
ws_frames (message ∷ messages) = wire (whole_frame message) ++ ws_frames messages

-- The write loop does not panic: each message becomes one final frame.
pub ws_frame-wire : (message : List ℕ) → ws_frame message ≡ ok (wire (whole_frame message))
unfolding ws_frame
ws_frame-wire message = to_bytes-wire message

frame_bytes :
    (message : List ℕ) {bytes : List ℕ}
    → ws_frame message ≡ ok bytes
    → bytes ≡ wire (whole_frame message)
frame_bytes message {bytes} e = same (sym e ∙ ws_frame-wire message)
  where
    same : {x y : List ℕ} → ◌≡◌ {A = Outcome (List ℕ)} (ok x) (ok y) → x ≡ y
    same p = cc

ws_frames-append : (ms ns : List (List ℕ)) → ws_frames (ms ++ ns) ≡ ws_frames ms ++ ws_frames ns
ws_frames-append [] ns = refl
ws_frames-append (m ∷ ms) ns =
    ap (λ t. wire (whole_frame m) ++ t) (ws_frames-append ms ns)
    ∙ sym (append_assoc (wire (whole_frame m)) (ws_frames ms) (ws_frames ns))

-- A `write_all` that returns `Ok` has written everything.
write_all_ok :
    (es : List WriteEvent) (buf : List ℕ) {ws : List WriteEvent} {written : List ℕ}
    → write_all es buf ≡ (ok tt, ws, written)
    → written ≡ buf
unfolding write_all
write_all_ok [] buf e = cc
write_all_ok (w ∷ es) [] e = cc
write_all_ok (takes zero ∷ es) (b ∷ bs) e = cc
write_all_ok (takes (suc n) ∷ es) (b ∷ bs) {ws} {written} e =
    rest_written (write_all es (drop n bs)) (λ es' sent p. write_all_ok es (drop n bs) p) refl e
  where
    rest_written :
        (x : Outcome (Unit {0}) × List WriteEvent × List ℕ)
        → ((es' : List WriteEvent) (sent : List ℕ)
            → write_all es (drop n bs) ≡ (ok tt, es', sent)
            → sent ≡ drop n bs)
        → write_all es (drop n bs) ≡ x
        → ◌≡◌ {A = Outcome (Unit {0}) × List WriteEvent × List ℕ}
            (x.0, x.1, b ∷ (take n bs ++ x.2))
            (ok tt, ws, written)
        → written ≡ b ∷ bs
    rest_written (ok _, es', sent) ih p q =
        sym (ap (λ (y : Outcome (Unit {0}) × List WriteEvent × List ℕ). y.2) q)
        ∙ ap (λ t. b ∷ (take n bs ++ t)) (ih es' sent p)
        ∙ ap (λ t. b ∷ t) (take-append-drop n bs)
    rest_written (err o, es', sent) ih p q = cc
    rest_written (panic, es', sent) ih p q = cc
write_all_ok (refuses interrupted ∷ es) (b ∷ bs) e = write_all_ok es (b ∷ bs) e
write_all_ok (refuses would_block ∷ es) (b ∷ bs) e = cc
write_all_ok (refuses timed_out ∷ es) (b ∷ bs) e = cc
write_all_ok (refuses write_zero ∷ es) (b ∷ bs) e = cc
write_all_ok (refuses connection_refused ∷ es) (b ∷ bs) e = cc
write_all_ok (refuses permission_denied ∷ es) (b ∷ bs) e = cc
write_all_ok (refuses (other n) ∷ es) (b ∷ bs) e = cc

-- What went to the browser from one state to another: the frames written to its stream, and then
-- what waits in the channel, are what waited before and what was forwarded since, in order.
pub record Posted (b : Bridge) (messages : List (List ℕ)) (b' : Bridge) : Type 0 where
  pub still_writing : b'.writing ≡ true
  pub written : List (List ℕ)
  pub on_stream : b'.sent ≡ b.sent ++ ws_frames written
  pub in_order : written ++ b'.to_websocket ≡ b.to_websocket ++ messages

Posted-trans :
    (b b' b'' : Bridge) (ms ns : List (List ℕ))
    → Posted b ms b'
    → Posted b' ns b''
    → Posted b (ms ++ ns) b''
Posted-trans b b' b'' ms ns s t = record {
  still_writing = t.still_writing;
  written = s.written ++ t.written;
  on_stream =
      t.on_stream
      ∙ ap (λ x. x ++ ws_frames t.written) s.on_stream
      ∙ append_assoc b.sent (ws_frames s.written) (ws_frames t.written)
      ∙ ap (λ x. b.sent ++ x) (sym (ws_frames-append s.written t.written));
  in_order =
      append_assoc s.written t.written b''.to_websocket
      ∙ ap (λ x. s.written ++ x) t.in_order
      ∙ sym (append_assoc s.written b'.to_websocket ns)
      ∙ ap (λ x. x ++ ns) s.in_order
      ∙ append_assoc b.to_websocket ms ns;
}

-- A step that writes nothing to the browser.
queued :
    (b b' : Bridge) (messages : List (List ℕ))
    → b'.writing ≡ true
    → b'.sent ≡ b.sent
    → b'.to_websocket ≡ b.to_websocket ++ messages
    → Posted b messages b'
queued b b' messages w s q = record {
  still_writing = w;
  written = [];
  on_stream = s ∙ sym (append-nil b.sent);
  in_order = q;
}

idle :
    (b b' : Bridge)
    → b'.writing ≡ true
    → b'.sent ≡ b.sent
    → b'.to_websocket ≡ b.to_websocket
    → Posted b [] b'
idle b b' w s q = queued b b' [] w s (q ∙ sym (append-nil b.to_websocket))

Step-Posted :
    {b b' : Bridge} {l : Label}
    → Step b l b'
    → b.writing ≡ true
    → Lasts (l ∷ [])
    → Posted b (forwarded_messages (l ∷ [])) b'
Step-Posted {b} (joins t stream running_on fresh free) w k = idle b _ w refl refl
Step-Posted {b} (stops_accepting e going) w k = idle b _ w refl refl
Step-Posted {b} (cannot_join t going fresh free) w k = idle b _ w refl refl
Step-Posted {b} (reads j rounds going e) w k = idle b _ w refl refl
Step-Posted {b} (stops_listening j rounds going e over) w k = idle b _ w refl refl
Step-Posted {b} (distributes message rest e) w k = idle b _ w refl refl
Step-Posted {b} (writes_client t message rest h e) w k = idle b _ w refl refl
Step-Posted {b} (fails_client t message rest h e bad) w k = idle b _ w refl refl
Step-Posted {b} (waits t r going e same) w k = idle b _ w refl same
Step-Posted {b} (forwards t message r going e more) w k = queued b _ (message ∷ []) w refl more
Step-Posted {b} (stops_reading t r going e over) w k =
    let quiet = reader_round_queue (reader_of b t) (λ p. over (ap (λ y. y.0) (sym e) ∙ p)) in
    idle b _ w refl (
      ap (λ (y : Thread × Reader). y.1.to_websocket.queue) (sym e)
      ∙ ap (λ (c : Channel). c.queue) quiet)
Step-Posted {b} (writes_browser message bytes rest going next_one frame_of put) w k = record {
  still_writing = w;
  written = message ∷ [];
  on_stream =
      ap (λ x. b.sent ++ x)
        (write_all_ok b.writes bytes put
          ∙ frame_bytes message frame_of
          ∙ sym (append-nil (wire (whole_frame message))));
  in_order = sym next_one ∙ sym (append-nil b.to_websocket);
}
Step-Posted {b} (fails_browser message bytes rest going next_one frame_of put) w k = absurd k
Step-Posted {b} (halts sha n s alive closed done why) w k = absurd (true-false (sym w ∙ closed))
Step-Posted {b} (opens sha n s alive closed done) w k = absurd (true-false (sym w ∙ closed))

pub forwarded_first :
    (l : Label) (ls : List Label)
    → forwarded_messages (l ∷ []) ++ forwarded_messages ls ≡ forwarded_messages (l ∷ ls)
forwarded_first (heard j message) ls = refl
forwarded_first (forwarded t message) ls = refl
forwarded_first (came t) ls = refl
forwarded_first (gone t) ls = refl
forwarded_first broke ls = refl
forwarded_first connected ls = refl
forwarded_first halted ls = refl
forwarded_first inner ls = refl

Lasts-split : (l : Label) (ls : List Label) → Lasts (l ∷ ls) → Lasts (l ∷ []) × Lasts ls
Lasts-split (heard j message) ls k = (tt, k)
Lasts-split (forwarded t message) ls k = (tt, k)
Lasts-split (came t) ls k = (tt, k)
Lasts-split (gone t) ls k = (tt, k)
Lasts-split broke ls k = absurd k
Lasts-split connected ls k = (tt, k)
Lasts-split halted ls k = (tt, k)
Lasts-split inner ls k = (tt, k)

pub Run-Posted :
    {b b' : Bridge} {ls : List Label}
    → Run b ls b'
    → b.writing ≡ true
    → Lasts ls
    → Posted b (forwarded_messages ls) b'
Run-Posted (here {b}) w k = idle b b w refl refl
Run-Posted (next {b} {b'} {b''} {l} {ls} st run) w k =
    let (now, later) = Lasts-split l ls k in
    let first = Step-Posted st w now in
    subst (λ ms. Posted b ms b'') (forwarded_first l ls)
      (Posted-trans b b' b'' (forwarded_messages (l ∷ [])) (forwarded_messages ls) first
        (Run-Posted run first.still_writing later))
