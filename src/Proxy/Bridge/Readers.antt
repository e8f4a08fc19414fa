-- ===== src/Proxy/Bridge/Readers.antt =====
-- From a client to the proxy: the messages that its stream delivers are forwarded in order, whatever
-- the other threads do in between.
use exfiltrate.Common.{true-false, ℕ, List, [], ◌∷◌, ◌++◌, Bool, true, false}
use exfiltrate.Common.{arith, append_assoc, ◌≡◌, ◌≢◌, refl, sym, ap, subst, ◌∙◌, inl, inr}
use exfiltrate.Stream.{Outcome, TcpStream}
use exfiltrate.Loop.{running}
use exfiltrate.Wire.{new, send_socket_frame}
use exfiltrate.Wire.Writing.{send_socket_frame_reads}
use exfiltrate.Common.Table.{update, update_other, same_or_not}
use exfiltrate.Wire.Delivery.{Delivers}
use exfiltrate.Proxy.Tcp.{reader_round}
use exfiltrate.Proxy.Bridge.{
  Bridge, Label, heard, forwarded, came, gone, broke, connected, halted, inner, reader_of,
  after_reader, Step, joins, stops_accepting, cannot_join, reads, stops_listening, stops_reading,
  distributes, writes_client, fails_client, waits, forwards, writes_browser, fails_browser, opens,
  halts, Run, here, next,
}
use exfiltrate.Proxy.Bridge.Serving.{Serves, Step-serving, Serves-split}
use exfiltrate.Proxy.Bridge.Rounds.{
  forwarded_by, Owes, round_taken, Keeps, seen_other, own_wait, own_forward,
}

wrote :
    (tag t : ℕ) (b : Bridge) (message : List ℕ) (msgs : List (List ℕ)) {o : Outcome (Unit {0})}
    {s : TcpStream}
    → send_socket_frame message (b.streams t) ≡ (o, s)
    → Owes tag b msgs
    → Delivers (b.in_flight tag) (update b.streams t s tag).reads msgs
wrote tag t b message msgs {o} {s} e d =
    let same : s.reads ≡ (b.streams t).reads =
      ap (λ (x : Outcome (Unit {0}) × TcpStream). x.1.reads) (sym e)
      ∙ send_socket_frame_reads message (b.streams t) in
    subst (λ es. Delivers (b.in_flight tag) es msgs) (sym (unread same)) d
  where
    unread :
        s.reads ≡ (b.streams t).reads → (update b.streams t s tag).reads ≡ (b.streams tag).reads
    unread same = ground (arith, same)

not_fresh : (f : ℕ → Bool) (t tag : ℕ) → f t ≡ false → f tag ≡ true → t ≢ tag
not_fresh f t tag n y = λ e. absurd (true-false (sym y ∙ ap f (sym e) ∙ n))

-- The client's reader thread does not end, while the receiver of the channel is there.
Step-Keeps :
    (tag : ℕ) (msgs : List (List ℕ)) {b b' : Bridge} {l : Label}
    → Step b l b'
    → b.serving ≡ true
    → b.accepted tag ≡ true
    → Owes tag b msgs
    → Keeps tag b' msgs (l ∷ [])
Step-Keeps tag msgs {b} (joins t stream running_on fresh free) alive a d =
    let ne : t ≢ tag = not_fresh b.accepted t tag fresh a in
    (
      msgs,
      rw (update_other b.in_flight t tag new ne, update_other b.streams t tag stream ne) d,
      refl,
    )
Step-Keeps tag msgs (stops_accepting e going) alive a d = (msgs, d, refl)
Step-Keeps tag msgs (cannot_join t going fresh free) alive a d = (msgs, d, refl)
Step-Keeps tag msgs (reads k rounds going e) alive a d = (msgs, d, refl)
Step-Keeps tag msgs (stops_listening k rounds going e over) alive a d = (msgs, d, refl)
Step-Keeps tag msgs (distributes message rest e) alive a d = (msgs, d, refl)
Step-Keeps tag msgs {b} (writes_client t message rest h e) alive a d =
    (msgs, wrote tag t b message msgs e d, refl)
Step-Keeps tag msgs {b} (fails_client t message rest h e bad) alive a d =
    (msgs, wrote tag t b message msgs e d, refl)
Step-Keeps tag msgs {b} (waits t r going e same) alive a d = elim (same_or_not t tag) [
  | inl own ↦
      subst
        (λ u.
          reader_round (reader_of b u) ≡ (running, r)
          → Keeps tag (after_reader b u r) msgs (inner ∷ []))
        (sym own) (λ p. own_wait tag b msgs r (round_taken tag b msgs alive d p).1 same) e
  | inr other ↦ (msgs, seen_other tag t b r msgs other d, refl)
]
Step-Keeps tag msgs {b} (forwards t message r going e more) alive a d = elim (same_or_not t tag) [
  | inl own ↦
      subst
        (λ u.
          reader_round (reader_of b u) ≡ (running, r)
          → Keeps tag (after_reader b u r) msgs (forwarded u message ∷ []))
        (sym own) (λ p. own_forward tag b msgs message r (round_taken tag b msgs alive d p).1 more)
        e
  | inr other ↦ (msgs, seen_other tag t b r msgs other d, ground arith)
]
Step-Keeps tag msgs {b} (stops_reading t r {end} going e over) alive a d =
    elim (same_or_not t tag) [
      | inl own ↦ absurd (
          over
            (round_taken tag b msgs alive d
              (subst (λ u. reader_round (reader_of b u) ≡ (end, r)) own e)).0)
      | inr other ↦ (msgs, seen_other tag t b r msgs other d, refl)
    ]
Step-Keeps tag msgs (writes_browser message bytes rest going next_one frame_of put) alive a d =
    (msgs, d, refl)
Step-Keeps tag msgs (fails_browser message bytes rest going next_one frame_of put) alive a d =
    (msgs, d, refl)
Step-Keeps tag msgs (opens sha n s going closed done) alive a d = (msgs, d, refl)
Step-Keeps tag msgs (halts sha n s going closed done why) alive a d = (msgs, d, refl)

-- Nobody is forgotten.
Step-accepted :
    (tag : ℕ) {b b' : Bridge} {l : Label}
    → Step b l b'
    → b.accepted tag ≡ true
    → b'.accepted tag ≡ true
Step-accepted tag {b} (joins t stream running_on fresh free) a = ground (arith, a)
Step-accepted tag (stops_accepting e going) a = a
Step-accepted tag (cannot_join t going fresh free) a = a
Step-accepted tag (reads k rounds going e) a = a
Step-accepted tag (stops_listening k rounds going e over) a = a
Step-accepted tag (distributes message rest e) a = a
Step-accepted tag (writes_client t message rest h e) a = a
Step-accepted tag (fails_client t message rest h e bad) a = a
Step-accepted tag (waits t r going e same) a = a
Step-accepted tag (forwards t message r going e more) a = a
Step-accepted tag (stops_reading t r going e over) a = a
Step-accepted tag (writes_browser message bytes rest going next_one frame_of put) a = a
Step-accepted tag (fails_browser message bytes rest going next_one frame_of put) a = a
Step-accepted tag (halts sha n s going closed done why) a = a
Step-accepted tag (opens sha n s going closed done) a = a

forwarded_first :
    (tag : ℕ) (l : Label) (ls : List Label)
    → forwarded_by tag (l ∷ []) ++ forwarded_by tag ls ≡ forwarded_by tag (l ∷ ls)
forwarded_first tag (heard j message) ls = refl
forwarded_first tag (forwarded t message) ls = ground arith
forwarded_first tag (came t) ls = refl
forwarded_first tag (gone t) ls = refl
forwarded_first tag broke ls = refl
forwarded_first tag connected ls = refl
forwarded_first tag halted ls = refl
forwarded_first tag inner ls = refl

-- Whatever the order in which the threads of the proxy take their turns, while the thread that
-- accepts browsers does not panic: of the messages that an accepted client's stream delivers, those
-- forwarded to the WebSocket are a first part, in order and each once, and its buffer and stream
-- still deliver exactly the others. The stream delivers whole frames that leave room for a header
-- and a read in a `u32`, and no read of it fails but for want of data.
pub Run-Keeps :
    (tag : ℕ) (msgs : List (List ℕ)) {b b' : Bridge} {ls : List Label}
    → Run b ls b'
    → b.serving ≡ true
    → Serves ls
    → b.accepted tag ≡ true
    → Owes tag b msgs
    → Keeps tag b' msgs ls
Run-Keeps tag msgs here alive k a d = (msgs, d, refl)
Run-Keeps tag msgs (next {b} {b'} {b''} {l} {ls} st run) alive k a d =
    let (now, later) = Serves-split l ls k in
    let (left, d', e) = Step-Keeps tag msgs st alive a d in
    let (rest, d'', e') =
      Run-Keeps tag left run (Step-serving st now alive) later (Step-accepted tag st a) d' in
    (
      rest,
      d'',
      ap (λ t. t ++ rest) (sym (forwarded_first tag l ls))
          ∙ append_assoc (forwarded_by tag (l ∷ [])) (forwarded_by tag ls) rest
          ∙ ap (λ t. forwarded_by tag (l ∷ []) ++ t) e'
          ∙ e,
    )
