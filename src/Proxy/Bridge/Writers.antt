-- ===== src/Proxy/Bridge/Writers.antt =====
-- What the writer thread of a client makes of its channel and its stream.
use exfiltrate.Common.{ℕ, List, [], ◌∷◌, ◌++◌, ◌==◌, none, some}
use exfiltrate.Common.{
  arith, ◌≡◌, ◌≢◌, refl, sym, ap, ◌∙◌, append_assoc, append-nil, Bool-cases, inl, inr,
}
use exfiltrate.Common.Table.{update, update_self}
use exfiltrate.Stream.{ok, TcpStream}
use exfiltrate.Wire.{send_socket_frame}
use exfiltrate.Wire.Framing.{frame, frames}
use exfiltrate.Wire.Writing.{send_socket_frame_ok}
use exfiltrate.Proxy.Tcp.{Channel, Client}
use exfiltrate.Proxy.Tcp.Clients.{find, live}
use exfiltrate.Proxy.Bridge.{Bridge, behind_first, take_front}

pub find-take_front :
    (tag : ℕ) (cs : List Client) {msg : List ℕ} {queue : List (List ℕ)}
    → find tag cs ≡ some (live (msg ∷ queue))
    → find tag (take_front tag cs) ≡ some (live queue)
unfolding find take_front
find-take_front tag [] h = cc
find-take_front tag (c ∷ cs) {msg} {queue} h = elim (Bool-cases (c.tag == tag)) [
  | inl e ↦
      let held : c.channel ≡ live (msg ∷ queue) = found c.channel (rw e at h) in
      rw e (rw e (ap (λ (ch : Channel). some (record ch { queue = behind_first ch.queue })) held))
  | inr e ↦ rw e (rw e (find-take_front tag cs (rw e at h)))
]
  where
    found : (ch : Channel) {ch' : Channel} → some ch ≡ some ch' → ch ≡ ch'
    found ch e = cc

pub find-take_front_other :
    (tag t : ℕ) (cs : List Client) → t ≢ tag → find tag (take_front t cs) ≡ find tag cs
unfolding find take_front
find-take_front_other tag t [] ne = refl
find-take_front_other tag t (c ∷ cs) ne = ground (arith, find-take_front_other tag t cs ne)

-- What the client has been served from one state to another: it is still registered, and what was
-- written to its stream, what waits in its channel and what the distributor still has is what was
-- there and what has been heard since, in order.
pub record Served (tag : ℕ) (b : Bridge) (queue : List (List ℕ)) (messages : List (List ℕ))
    (b' : Bridge) : Type 0 where
  pub written : List (List ℕ)
  pub waiting : List (List ℕ)
  pub registered : find tag b'.clients ≡ some (live waiting)
  pub on_stream : (b'.streams tag).sent ≡ (b.streams tag).sent ++ frames written
  pub in_order : written ++ (waiting ++ b'.from_websocket) ≡ queue ++ (b.from_websocket ++ messages)

frames-append : (ms ns : List (List ℕ)) → frames (ms ++ ns) ≡ frames ms ++ frames ns
frames-append [] ns = refl
frames-append (m ∷ ms) ns =
    ap (λ t. frame m ++ t) (frames-append ms ns)
    ∙ sym (append_assoc (frame m) (frames ms) (frames ns))

pub Served-trans :
    (tag : ℕ) (b b' b'' : Bridge) (queue ms ns : List (List ℕ)) (s : Served tag b queue ms b')
    → Served tag b' s.waiting ns b''
    → Served tag b queue (ms ++ ns) b''
Served-trans tag b b' b'' queue ms ns s t = record {
  written = s.written ++ t.written;
  waiting = t.waiting;
  registered = t.registered;
  on_stream =
      t.on_stream
      ∙ ap (λ x. x ++ frames t.written) s.on_stream
      ∙ append_assoc (b.streams tag).sent (frames s.written) (frames t.written)
      ∙ ap (λ x. (b.streams tag).sent ++ x) (sym (frames-append s.written t.written));
  in_order =
      append_assoc s.written t.written (t.waiting ++ b''.from_websocket)
      ∙ ap (λ x. s.written ++ x) t.in_order
      ∙ ap (λ x. s.written ++ x) (sym (append_assoc s.waiting b'.from_websocket ns))
      ∙ sym (append_assoc s.written (s.waiting ++ b'.from_websocket) ns)
      ∙ ap (λ x. x ++ ns) s.in_order
      ∙ append_assoc queue (b.from_websocket ++ ms) ns
      ∙ ap (λ x. queue ++ x) (append_assoc b.from_websocket ms ns);
}

-- A step that leaves the client's channel, its stream and the distributor's channel as they are.
pub untouched :
    (tag : ℕ) (b b' : Bridge) (queue : List (List ℕ))
    → find tag b'.clients ≡ some (live queue)
    → (b'.streams tag).sent ≡ (b.streams tag).sent
    → b'.from_websocket ≡ b.from_websocket
    → Served tag b queue [] b'
untouched tag b b' queue r o f = record {
  written = [];
  waiting = queue;
  registered = r;
  on_stream = o ∙ sym (append-nil (b.streams tag).sent);
  in_order = ap (λ x. queue ++ x) (f ∙ sym (append-nil b.from_websocket));
}

-- A new value for one tag, seen at a tag.
pub update_sent :
    (streams : ℕ → TcpStream) (t tag : ℕ) (s : TcpStream)
    → s.sent ≡ (streams t).sent
    → (update streams t s tag).sent ≡ (streams tag).sent
update_sent streams t tag s e = ground (arith, e)

pub differs :
    (cs : List Client) (t tag : ℕ) {c : Channel} → find t cs ≡ none → find tag cs ≡ some c → t ≢ tag
differs cs t tag n s = λ e. absurd (none_some (sym n ∙ ap (λ k. find k cs) e ∙ s))
  where
    none_some : {c : Channel} → none ≡ some c → ⊥
    none_some e = cc

-- The client's own writer thread.
pub own_write :
    (tag : ℕ) (b : Bridge) (queue : List (List ℕ)) (message : List ℕ) (rest : List (List ℕ))
    {s : TcpStream}
    → find tag b.clients ≡ some (live queue)
    → find tag b.clients ≡ some (live (message ∷ rest))
    → send_socket_frame message (b.streams tag) ≡ (ok tt, s)
    → Served tag b queue []
        (record b { clients = take_front tag b.clients; streams = update b.streams tag s })
own_write tag b queue message rest {s} r h e = record {
  written = message ∷ [];
  waiting = rest;
  registered = find-take_front tag b.clients h;
  on_stream =
      ap (λ x. x.sent) (update_self b.streams tag s)
      ∙ send_socket_frame_ok (b.streams tag) message e
      ∙ ap (λ x. (b.streams tag).sent ++ x) (sym (append-nil (frame message)));
  in_order =
      ap (λ x. x ++ b.from_websocket) (same_queue (sym h ∙ r))
      ∙ ap (λ x. queue ++ x) (sym (append-nil b.from_websocket));
}
  where
    same_queue : {q q' : List (List ℕ)} → some (live q) ≡ some (live q') → q ≡ q'
    same_queue p = cc
