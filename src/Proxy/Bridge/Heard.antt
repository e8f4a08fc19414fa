-- ===== src/Proxy/Bridge/Heard.antt =====
-- From a browser to the proxy: the messages that its stream delivers are read in order, whatever the
-- other threads do in between.
use exfiltrate.Common.{ℕ, ◌<◌, List, [], ◌∷◌, ◌++◌, ◌==◌, if◌then◌else◌}
use exfiltrate.Common.{arith, append_assoc, ◌≡◌, ◌≢◌, refl, sym, ap, subst, ◌∙◌, inl, inr}
use exfiltrate.Common.Table.{update, update_other, update_self, same_or_not}
use exfiltrate.Proxy.Socket.{Websocket, Progress, waiting, crashed, returned, failed_with, read}
use exfiltrate.Proxy.Socket.Delivery.{Delivers}
use exfiltrate.Proxy.Socket.Messages.{Next, read-Next}
use exfiltrate.Proxy.Bridge.{
  Bridge, Label, heard, forwarded, came, gone, broke, connected, halted, inner, IsEnd, Step, joins,
  stops_accepting, cannot_join, reads, stops_listening, stops_reading, distributes, writes_client,
  fails_client, waits, forwards, writes_browser, fails_browser, opens, halts, Run, here, next,
}

-- The messages of one browser among what is shown.
abbrev pub heard_by : ℕ → List Label → List (List ℕ)
heard_by k [] = []
heard_by k (heard j msg ∷ ls) = let rest = heard_by k ls in if j == k then msg ∷ rest else rest
heard_by k (l ∷ ls) = heard_by k ls

-- What is left after a step, and what the step has read of it.
abbrev pub Hears : ℕ → Bridge → List (List ℕ) → List Label → Type 0
Hears k b' msgs ls =
    (rest : List (List ℕ)) × Delivers (b'.browsers k) rest × (heard_by k ls ++ rest ≡ msgs)

own_read :
    (k rounds : ℕ) (b : Bridge) (msgs : List (List ℕ)) {message : List ℕ} {w : Websocket}
    → Delivers (b.browsers k) msgs
    → read rounds (b.browsers k) ≡ (returned message, w)
    → (rest : List (List ℕ)) × (msgs ≡ message ∷ rest) × Delivers (update b.browsers k w k) rest
own_read k rounds b msgs {message} {w} d e =
    let (rest, same, d') = subst (λ x. Next x msgs) e (read-Next rounds (b.browsers k) msgs d) in
    (rest, same, subst (λ x. Delivers x rest) (sym (update_self b.browsers k w)) d')

never_ends :
    (k rounds : ℕ) (b : Bridge) (msgs : List (List ℕ)) (p : Progress) {w : Websocket}
    → Delivers (b.browsers k) msgs
    → read rounds (b.browsers k) ≡ (p, w)
    → IsEnd p
    → ⊥
never_ends k rounds b msgs waiting d e over = over
never_ends k rounds b msgs crashed d e over =
    subst (λ x. Next x msgs) e (read-Next rounds (b.browsers k) msgs d)
never_ends k rounds b msgs (returned message) d e over = over
never_ends k rounds b msgs (failed_with f) d e over =
    subst (λ x. Next x msgs) e (read-Next rounds (b.browsers k) msgs d)

others :
    (k j : ℕ) (b : Bridge) (w : Websocket) (msgs : List (List ℕ))
    → j ≢ k
    → Delivers (b.browsers k) msgs
    → Delivers (update b.browsers j w k) msgs
others k j b w msgs ne d = subst (λ x. Delivers x msgs) (sym (update_other b.browsers j k w ne)) d

Step-Hears :
    (k : ℕ) (msgs : List (List ℕ)) {b b' : Bridge} {l : Label}
    → Step b l b'
    → k < b.opened
    → Delivers (b.browsers k) msgs
    → Hears k b' msgs (l ∷ [])
Step-Hears k msgs (joins t stream running_on fresh free) there d = (msgs, d, refl)
Step-Hears k msgs (stops_accepting e going) there d = (msgs, d, refl)
Step-Hears k msgs (cannot_join t going fresh free) there d = (msgs, d, refl)
Step-Hears k msgs {b} (reads j rounds {message} {w} going e) there d = elim (same_or_not j k) [
  | inl own ↦
      subst
        (λ i.
          read rounds (b.browsers i) ≡ (returned message, w)
          → (rest : List (List ℕ)) × Delivers (update b.browsers i w k) rest
            × (heard_by k (heard i message ∷ []) ++ rest ≡ msgs))
        (sym own)
        (λ p.
          let (rest, same, d') = own_read k rounds b msgs d p in (rest, d', ground (arith, same)))
        e
  | inr other ↦ (msgs, others k j b w msgs other d, ground (arith, other))
]
Step-Hears k msgs {b} (stops_listening j rounds {p} {w} going e over) there d =
    elim (same_or_not j k) [
      | inl own ↦ absurd (
          never_ends k rounds b msgs p d (subst (λ i. read rounds (b.browsers i) ≡ (p, w)) own e)
            over)
      | inr other ↦ (msgs, others k j b w msgs other d, refl)
    ]
Step-Hears k msgs (distributes message rest e) there d = (msgs, d, refl)
Step-Hears k msgs (writes_client t message rest h e) there d = (msgs, d, refl)
Step-Hears k msgs (fails_client t message rest h e bad) there d = (msgs, d, refl)
Step-Hears k msgs (waits t r going e same) there d = (msgs, d, refl)
Step-Hears k msgs (forwards t message r going e more) there d = (msgs, d, refl)
Step-Hears k msgs (stops_reading t r going e over) there d = (msgs, d, refl)
Step-Hears k msgs (writes_browser message bytes rest going next_one frame_of put) there d =
    (msgs, d, refl)
Step-Hears k msgs (fails_browser message bytes rest going next_one frame_of put) there d =
    (msgs, d, refl)
Step-Hears k msgs {b} (opens sha n s {w = w} going closed done) there d =
    (msgs, others k b.opened b w msgs (λ e. absurd (omega (arith, e, there))) d, refl)
Step-Hears k msgs (halts sha n s going closed done why) there d = (msgs, d, refl)

-- No browser is forgotten.
Step-opened : (k : ℕ) {b b' : Bridge} {l : Label} → Step b l b' → k < b.opened → k < b'.opened
Step-opened k (joins t stream running_on fresh free) a = a
Step-opened k (stops_accepting e going) a = a
Step-opened k (cannot_join t going fresh free) a = a
Step-opened k (reads j rounds going e) a = a
Step-opened k (stops_listening j rounds going e over) a = a
Step-opened k (distributes message rest e) a = a
Step-opened k (writes_client t message rest h e) a = a
Step-opened k (fails_client t message rest h e bad) a = a
Step-opened k (waits t r going e same) a = a
Step-opened k (forwards t message r going e more) a = a
Step-opened k (stops_reading t r going e over) a = a
Step-opened k (writes_browser message bytes rest going next_one frame_of put) a = a
Step-opened k (fails_browser message bytes rest going next_one frame_of put) a = a
Step-opened k (halts sha n s going closed done why) a = a
Step-opened k (opens sha n s going closed done) a = omega (arith, a)

heard_by_first :
    (k : ℕ) (l : Label) (ls : List Label)
    → heard_by k (l ∷ []) ++ heard_by k ls ≡ heard_by k (l ∷ ls)
heard_by_first k (heard j message) ls = ground arith
heard_by_first k (forwarded t message) ls = refl
heard_by_first k (came t) ls = refl
heard_by_first k (gone t) ls = refl
heard_by_first k broke ls = refl
heard_by_first k connected ls = refl
heard_by_first k halted ls = refl
heard_by_first k inner ls = refl

-- Whatever the order in which the threads of the proxy take their turns, and whether the browser is
-- still the one that is written to: of the messages that a connected browser's stream delivers, those
-- that are read are a first part, in order and each once, and its parser and stream still deliver
-- exactly the others. Its stream delivers whole messages, none of them empty, and no read of it
-- fails but for want of data.
pub Run-Hears :
    (k : ℕ) (msgs : List (List ℕ)) {b b' : Bridge} {ls : List Label}
    → Run b ls b'
    → k < b.opened
    → Delivers (b.browsers k) msgs
    → Hears k b' msgs ls
Run-Hears k msgs here there d = (msgs, d, refl)
Run-Hears k msgs (next {b} {b'} {b''} {l} {ls} st run) there d =
    let (left, d', e) = Step-Hears k msgs st there d in
    let (rest, d'', e') = Run-Hears k left run (Step-opened k st there) d' in
    (
      rest,
      d'',
      ap (λ t. t ++ rest) (sym (heard_by_first k l ls))
          ∙ append_assoc (heard_by k (l ∷ [])) (heard_by k ls) rest
          ∙ ap (λ t. heard_by k (l ∷ []) ++ t) e'
          ∙ e,
    )
