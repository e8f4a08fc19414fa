-- ===== src/Proxy/Bridge/Flush.antt =====
-- What clients have sent can always be brought to the browser.
use exfiltrate.Common.{ℕ, zero, suc, ◌≤◌, List, [], ◌∷◌, ◌++◌, All, true}
use exfiltrate.Common.{arith, ◌≡◌, refl, sym, ap, subst, ◌∙◌, append_assoc, append-nil}
use exfiltrate.Common.Table.{update_self}
use exfiltrate.Stream.{ReadEvent, TcpStream, WriteEvent}
use exfiltrate.Wire.{InFlightMessage}
use exfiltrate.Wire.Delivery.{work_left, no_work_left}
use exfiltrate.Wire.Reading.{delivered, made_progress, found_nothing, read_status-Round}
use exfiltrate.Proxy.Tcp.{Reader}
use exfiltrate.Proxy.Tcp.Relay.{round_completed, round_progress, round_blocked}
use exfiltrate.Proxy.Frame.Fragments.{wire}
use exfiltrate.Proxy.Frame.Messages.{whole_frame}
use exfiltrate.Proxy.Handshake.Opening.{IsTaken, write_all-IsTaken}
use exfiltrate.Proxy.Bridge.{
  Bridge, Label, Step, forwarded, inner, reader_of, after_reader, waits, forwards, writes_browser,
  Run, here, next,
}
use exfiltrate.Proxy.Bridge.Rounds.{Owes, seen_self}
use exfiltrate.Proxy.Bridge.Up.{ws_frames, ws_frame-wire}

-- The reader thread of the client forwards a message, or nothing is to be seen.
abbrev pub IsForwarding : ℕ → Label → Type 0
IsForwarding tag (forwarded t msg) = t ≡ tag
IsForwarding tag inner = Unit
IsForwarding tag _ = ⊥

-- The state in which nothing waits for the browser.
abbrev pub flushed :
    Bridge → (ℕ → TcpStream) → (ℕ → InFlightMessage) → List WriteEvent → List ℕ → Bridge
flushed b streams in_flight writes sent = record b {
  streams = streams;
  in_flight = in_flight;
  to_websocket = [];
  writes = writes;
  sent = sent;
}

-- Steps that lead to a state in which nothing waits for the browser, the messages have been written
-- to its stream, and the client's stream has been read to its end; of all else, only the buffers
-- and streams of clients have changed, and nothing was written to the client.
pub record Written (tag : ℕ) (b : Bridge) (messages : List (List ℕ)) : Type 0 where
  pub streams : ℕ → TcpStream
  pub in_flight : ℕ → InFlightMessage
  pub writes : List WriteEvent
  pub shown : List Label
  pub run : Run b shown (flushed b streams in_flight writes (b.sent ++ ws_frames messages))
  pub only : All (IsForwarding tag) shown
  pub all_read : work_left (in_flight tag) (streams tag).reads ≡ 0
  pub none_sent : (streams tag).sent ≡ (b.streams tag).sent
  pub same_writes : (streams tag).writes ≡ (b.streams tag).writes

-- The write loop alone, from the first message on.
written_out :
    (tag : ℕ) (messages : List (List ℕ)) (b : Bridge)
    → b.to_websocket ≡ messages
    → b.writing ≡ true
    → All IsTaken b.writes
    → work_left (b.in_flight tag) (b.streams tag).reads ≡ 0
    → Written tag b messages
written_out tag [] b e w t none = record {
  streams = b.streams;
  in_flight = b.in_flight;
  writes = b.writes;
  shown = [];
  run =
      subst (Run b [])
        (ap (λ q. record b { to_websocket = q }) e
          ∙ ap (flushed b b.streams b.in_flight b.writes) (sym (append-nil b.sent)))
        here;
  only = tt;
  all_read = none;
  none_sent = refl;
  same_writes = refl;
}
written_out tag (message ∷ messages) b e w t none =
    let (ws, put, left) = write_all-IsTaken b.writes (wire (whole_frame message)) t in
    let b' : Bridge = record b {
      to_websocket = messages;
      writes = ws;
      sent = b.sent ++ wire (whole_frame message);
    } in
    let later = written_out tag messages b' refl w left none in
    record {
      streams = later.streams;
      in_flight = later.in_flight;
      writes = later.writes;
      shown = inner ∷ later.shown;
      run =
          next
            (writes_browser message (wire (whole_frame message)) messages w e
              (ws_frame-wire message) put)
            (subst
              (λ x. Run b' later.shown (flushed b later.streams later.in_flight later.writes x))
              (append_assoc b.sent (wire (whole_frame message)) (ws_frames messages)) later.run);
      only = (tt, later.only);
      all_read = later.all_read;
      none_sent = later.none_sent;
      same_writes = later.same_writes;
    }

abbrev left_of : ℕ → Bridge → ℕ
left_of tag b = work_left (b.in_flight tag) (b.streams tag).reads

abbrev read_on : Bridge → ℕ → InFlightMessage → List ReadEvent → List (List ℕ) → Reader
read_on b tag m es queue = record {
  in_flight_message = m;
  stream = record (b.streams tag) { reads = es };
  to_websocket = record { queue = queue; connected = b.serving };
}

-- A round of the reader thread first.
Step-Written :
    {b : Bridge} {l : Label} (tag : ℕ) (m : InFlightMessage) (es : List ReadEvent)
    (queue messages : List (List ℕ))
    → Step b l (after_reader b tag (read_on b tag m es queue))
    → IsForwarding tag l
    → Written tag (after_reader b tag (read_on b tag m es queue)) messages
    → Written tag b messages
Step-Written {b} {l} tag m es queue messages st own w =
    let seen = update_self b.streams tag (record (b.streams tag) { reads = es }) in
    record {
      streams = w.streams;
      in_flight = w.in_flight;
      writes = w.writes;
      shown = l ∷ w.shown;
      run = next st w.run;
      only = (own, w.only);
      all_read = w.all_read;
      none_sent = w.none_sent ∙ ap (λ s. s.sent) seen;
      same_writes = w.same_writes ∙ ap (λ s. s.writes) seen;
    }

left_after :
    (tag n : ℕ) (b : Bridge) (r : Reader)
    → work_left r.in_flight_message r.stream.reads ≤ n
    → left_of tag (after_reader b tag r) ≤ n
left_after tag n b r h =
    rw (update_self b.in_flight tag r.in_flight_message, update_self b.streams tag r.stream) h

-- First the client's reader thread forwards everything, then the write loop writes everything.
passed_on :
    (n tag : ℕ) (msgs : List (List ℕ)) (b : Bridge)
    → left_of tag b ≤ n
    → Owes tag b msgs
    → b.reading tag ≡ true
    → b.serving ≡ true
    → b.writing ≡ true
    → All IsTaken b.writes
    → Written tag b (b.to_websocket ++ msgs)
passed_on zero tag msgs b h d reading on w t =
    let none : msgs ≡ [] = no_work_left (b.in_flight tag) (b.streams tag).reads msgs d h in
    subst (Written tag b) (sym (ap (λ x. b.to_websocket ++ x) none ∙ append-nil b.to_websocket))
      (written_out tag b.to_websocket b refl w t (omega (arith, h)))
passed_on (suc n) tag msgs b h d reading on w t =
    elim (read_status-Round (b.in_flight tag) (b.streams tag).reads msgs d) [
      | delivered msg rest m es e p d' less ↦
          let r : Reader = read_on b tag m es (b.to_websocket ++ msg ∷ []) in
          subst (Written tag b)
            (append_assoc b.to_websocket (msg ∷ []) rest ∙ ap (λ x. b.to_websocket ++ x) (sym e))
            (Step-Written tag m es (b.to_websocket ++ msg ∷ [])
              ((b.to_websocket ++ msg ∷ []) ++ rest)
              (forwards tag msg r reading (round_completed (reader_of b tag) msg p on) refl) refl
              (passed_on n tag rest (after_reader b tag r) (left_after tag n b r (omega arith))
                (seen_self tag b r rest d') reading on w t))
      | made_progress m es p d' less ↦
          let r : Reader = read_on b tag m es b.to_websocket in
          Step-Written tag m es b.to_websocket (b.to_websocket ++ msgs)
            (waits tag r reading (round_progress (reader_of b tag) p) refl) tt
            (passed_on n tag msgs (after_reader b tag r) (left_after tag n b r (omega arith))
              (seen_self tag b r msgs d') reading on w t)
      | found_nothing m es p d' less ↦
          let r : Reader = read_on b tag m es b.to_websocket in
          Step-Written tag m es b.to_websocket (b.to_websocket ++ msgs)
            (waits tag r reading (round_blocked (reader_of b tag) p) refl) tt
            (passed_on n tag msgs (after_reader b tag r) (left_after tag n b r (omega arith))
              (seen_self tag b r msgs d') reading on w t)
    ]

-- No state of the proxy is stuck on its way to the browser: from any state with a connected browser
-- whose stream takes what is written, the reader thread of an accepted client and the write loop
-- alone can take turns until nothing waits for the browser and the client's stream is read to its
-- end, and then the frames of all that waited and of all messages that this stream delivers are on
-- the browser's stream, in order. No read of the client's stream fails but for want of data, and its messages fit.
pub Run-Written :
    (tag : ℕ) (msgs : List (List ℕ)) (b : Bridge)
    → Owes tag b msgs
    → b.reading tag ≡ true
    → b.serving ≡ true
    → b.writing ≡ true
    → All IsTaken b.writes
    → Written tag b (b.to_websocket ++ msgs)
Run-Written tag msgs b d reading on w t =
    passed_on (left_of tag b) tag msgs b (omega arith) d reading on w t
