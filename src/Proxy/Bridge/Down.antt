-- ===== src/Proxy/Bridge/Down.antt =====
-- From the browsers to a client: the messages arrive in order, whatever the threads do in between.
use exfiltrate.Common.{ℕ, List, [], ◌∷◌, ◌++◌, some}
use exfiltrate.Common.{◌≡◌, ◌≢◌, refl, sym, ap, subst, ◌∙◌, append_assoc, append-nil, inl, inr}
use exfiltrate.Common.Table.{update, update_other, same_or_not}
use exfiltrate.Stream.{ok}
use exfiltrate.Wire.{send_socket_frame}
use exfiltrate.Proxy.Tcp.{register}
use exfiltrate.Proxy.Tcp.Relay.{reader_round_sent}
use exfiltrate.Proxy.Tcp.Clients.{find, live, find-broadcast, find-register, find-hang_up}
use exfiltrate.Proxy.Bridge.{
  Bridge, Label, heard, forwarded, came, gone, broke, connected, halted, inner, take_front,
  reader_of, Step, joins, stops_accepting, cannot_join, reads, stops_listening, stops_reading,
  distributes, writes_client, fails_client, waits, forwards, writes_browser, fails_browser, opens,
  halts, Run, here, next,
}
use exfiltrate.Proxy.Bridge.Writers.{
  find-take_front_other, Served, Served-trans, untouched, update_sent, differs, own_write,
}

-- The messages of the browsers among what is shown.
abbrev pub heard_messages : List Label → List (List ℕ)
heard_messages [] = []
heard_messages (heard j msg ∷ ls) = msg ∷ heard_messages ls
heard_messages (l ∷ ls) = heard_messages ls

-- The client does not leave.
abbrev pub Remains : ℕ → List Label → Type 0
Remains tag [] = Unit
Remains tag (gone t ∷ ls) = (t ≢ tag) × Remains tag ls
Remains tag (l ∷ ls) = Remains tag ls

-- Every step keeps the order.
Step-Served :
    (tag : ℕ) (queue : List (List ℕ)) {b b' : Bridge} {l : Label}
    → Step b l b'
    → find tag b.clients ≡ some (live queue)
    → Remains tag (l ∷ [])
    → Served tag b queue (heard_messages (l ∷ [])) b'
Step-Served tag queue {b} (joins t stream running_on fresh free) r k =
    untouched tag b _ queue (find-register tag t b.clients _ r)
      (ap (λ x. x.sent) (update_other b.streams t tag stream (differs b.clients t tag free r))) refl
Step-Served tag queue {b} (stops_accepting e going) r k = untouched tag b _ queue r refl refl
Step-Served tag queue {b} (cannot_join t going fresh free) r k =
    untouched tag b _ queue
      (find-hang_up tag t (register t b.clients) _ (differs b.clients t tag free r)
        (find-register tag t b.clients _ r))
      refl refl
Step-Served tag queue {b} (reads j rounds {message} {w} open_before e) r k = record {
  written = [];
  waiting = queue;
  registered = r;
  on_stream = sym (append-nil (b.streams tag).sent);
  in_order = refl;
}
Step-Served tag queue {b} (distributes message rest e) r k = record {
  written = [];
  waiting = queue ++ message ∷ [];
  registered = find-broadcast tag message b.clients queue r;
  on_stream = sym (append-nil (b.streams tag).sent);
  in_order =
      append_assoc queue (message ∷ []) rest
      ∙ ap (λ x. queue ++ x) (sym e ∙ sym (append-nil b.from_websocket));
}
Step-Served tag queue {b} (writes_client t message rest {s} h e) r k = elim (same_or_not t tag) [
  | inl same ↦
      subst
        (λ u.
          find u b.clients ≡ some (live (message ∷ rest))
          → send_socket_frame message (b.streams u) ≡ (ok tt, s)
          → Served tag b queue []
              (record b { clients = take_front u b.clients; streams = update b.streams u s }))
        (sym same) (own_write tag b queue message rest r) h e
  | inr other ↦
      untouched tag b _ queue (find-take_front_other tag t b.clients other ∙ r)
        (ap (λ x. x.sent) (update_other b.streams t tag s other)) refl
]
Step-Served tag queue {b} (fails_client t message rest {r = o} {s} h e bad) r k =
    untouched tag b _ queue
      (find-hang_up tag t (take_front t b.clients) _ k.0
        (find-take_front_other tag t b.clients k.0 ∙ r))
      (ap (λ x. x.sent) (update_other b.streams t tag s k.0)) refl
Step-Served tag queue {b} (waits t x known e same) r k =
    untouched tag b _ queue r
      (update_sent b.streams t tag x.stream
        (sym (ap (λ y. y.1.stream.sent) e) ∙ reader_round_sent (reader_of b t)))
      refl
Step-Served tag queue {b} (forwards t message x known e more) r k =
    untouched tag b _ queue r
      (update_sent b.streams t tag x.stream
        (sym (ap (λ y. y.1.stream.sent) e) ∙ reader_round_sent (reader_of b t)))
      refl
Step-Served tag queue {b} (stops_listening j rounds going e over) r k =
    untouched tag b _ queue r refl refl
Step-Served tag queue {b} (stops_reading t x going e over) r k =
    untouched tag b _ queue r
      (update_sent b.streams t tag x.stream
        (sym (ap (λ y. y.1.stream.sent) e) ∙ reader_round_sent (reader_of b t)))
      refl
Step-Served tag queue {b} (writes_browser message bytes rest going next_one frame_of put) r k =
    untouched tag b _ queue r refl refl
Step-Served tag queue {b} (fails_browser message bytes rest going next_one frame_of put) r k =
    untouched tag b _ queue r refl refl
Step-Served tag queue {b} (halts sha n s alive closed done why) r k =
    untouched tag b _ queue r refl refl
Step-Served tag queue {b} (opens sha n s alive closed done) r k =
    untouched tag b _ queue r refl refl

heard_first :
    (l : Label) (ls : List Label)
    → heard_messages (l ∷ []) ++ heard_messages ls ≡ heard_messages (l ∷ ls)
heard_first (heard j message) ls = refl
heard_first (forwarded t message) ls = refl
heard_first (came t) ls = refl
heard_first (gone t) ls = refl
heard_first broke ls = refl
heard_first connected ls = refl
heard_first halted ls = refl
heard_first inner ls = refl

Remains-split :
    (tag : ℕ) (l : Label) (ls : List Label)
    → Remains tag (l ∷ ls)
    → Remains tag (l ∷ []) × Remains tag ls
Remains-split tag (heard j message) ls k = (tt, k)
Remains-split tag (forwarded t message) ls k = (tt, k)
Remains-split tag (came t) ls k = (tt, k)
Remains-split tag (gone t) ls k = ((k.0, tt), k.1)
Remains-split tag broke ls k = (tt, k)
Remains-split tag connected ls k = (tt, k)
Remains-split tag halted ls k = (tt, k)
Remains-split tag inner ls k = (tt, k)

-- Whatever the order in which the threads of the proxy take their turns, and whoever else connects,
-- fails or leaves: as long as a registered client's writer thread does not fail, the frames written
-- to its stream, then what waits in its channel, then what the distributor has not taken yet, are
-- together what was waiting at the beginning followed by the messages of the browsers since, each
-- once and in the order they were read.
pub Run-Served :
    (tag : ℕ) (queue : List (List ℕ)) {b b' : Bridge} {ls : List Label}
    → Run b ls b'
    → find tag b.clients ≡ some (live queue)
    → Remains tag ls
    → Served tag b queue (heard_messages ls) b'
Run-Served tag queue (here {b}) r k = untouched tag b b queue r refl refl
Run-Served tag queue (next {b} {b'} {b''} {l} {ls} st run) r k =
    let (now, later) = Remains-split tag l ls k in
    let first = Step-Served tag queue st r now in
    subst (λ ms. Served tag b queue ms b'') (heard_first l ls)
      (Served-trans tag b b' b'' queue (heard_messages (l ∷ [])) (heard_messages ls) first
        (Run-Served tag first.waiting run first.registered later))
