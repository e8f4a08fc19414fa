-- ===== src/Proxy/Bridge/Rounds.antt =====
-- The rounds of the reader thread of a client whose stream delivers whole messages.
use exfiltrate.Common.{ℕ, List, [], ◌∷◌, ◌++◌, true, ◌==◌, if◌then◌else◌}
use exfiltrate.Common.{arith, length, length-append, ◌≡◌, ◌≢◌, refl, sym, ap, subst, ◌∙◌}
use exfiltrate.Loop.{Thread, running}
use exfiltrate.Common.Table.{update_other, update_self}
use exfiltrate.Wire.Delivery.{Delivers}
use exfiltrate.Wire.Reading.{delivered, made_progress, found_nothing, read_status-Round}
use exfiltrate.Proxy.Tcp.{Reader, reader_round}
use exfiltrate.Proxy.Tcp.Relay.{round_completed, round_progress, round_blocked}
use exfiltrate.Proxy.Bridge.{Bridge, Label, forwarded, inner, reader_of, after_reader}

-- The messages of one client among what is shown.
abbrev pub forwarded_by : ℕ → List Label → List (List ℕ)
forwarded_by tag [] = []
forwarded_by tag (forwarded t msg ∷ ls) =
    let rest = forwarded_by tag ls in if t == tag then msg ∷ rest else rest
forwarded_by tag (l ∷ ls) = forwarded_by tag ls

-- The client's stream and the buffer of its reader thread still deliver `msgs`.
abbrev pub Owes : ℕ → Bridge → List (List ℕ) → Type 0
Owes tag b msgs = Delivers (b.in_flight tag) (b.streams tag).reads msgs

-- What a round of a reader thread does where the stream delivers whole messages: it goes on, and
-- either forwards the next message or leaves the channel as it is.
pub data Turn (tag : ℕ) (b : Bridge) (msgs : List (List ℕ)) (r : Reader) : Type 0 where
  passed :
      (msg : List ℕ) (rest : List (List ℕ))
      → msgs ≡ msg ∷ rest
      → r.to_websocket.queue ≡ b.to_websocket ++ msg ∷ []
      → Delivers r.in_flight_message r.stream.reads rest
      → Turn tag b msgs r
  waited :
      r.to_websocket.queue ≡ b.to_websocket
      → Delivers r.in_flight_message r.stream.reads msgs
      → Turn tag b msgs r

reader_round-Turn :
    (tag : ℕ) (b : Bridge) (msgs : List (List ℕ))
    → b.serving ≡ true
    → Owes tag b msgs
    → (r : Reader) × (reader_round (reader_of b tag) ≡ (running, r)) × Turn tag b msgs r
reader_round-Turn tag b msgs on d =
    elim (read_status-Round (b.in_flight tag) (b.streams tag).reads msgs d) [
      | delivered msg rest m' es' e p d' less ↦
          (_, round_completed (reader_of b tag) msg p on, passed msg rest e refl d')
      | made_progress m' es' p d' less ↦ (_, round_progress (reader_of b tag) p, waited refl d')
      | found_nothing m' es' p d' less ↦ (_, round_blocked (reader_of b tag) p, waited refl d')
    ]

-- A round that has been taken is that one.
pub round_taken :
    (tag : ℕ) (b : Bridge) (msgs : List (List ℕ)) {end : Thread} {r : Reader}
    → b.serving ≡ true
    → Owes tag b msgs
    → reader_round (reader_of b tag) ≡ (end, r)
    → (end ≡ running) × Turn tag b msgs r
round_taken tag b msgs {end} {r} on d e =
    let (x, p, turn) = reader_round-Turn tag b msgs on d in
    (
      ap (λ y. y.0) (sym e ∙ p),
      subst (Turn tag b msgs) (ap (λ (y : Thread × Reader). y.1) (sym p ∙ e)) turn,
    )

pub longer : (q : List (List ℕ)) (msg : List ℕ) → q ++ msg ∷ [] ≢ q
longer q msg = λ e. absurd (omega (arith, ap length e, length-append q (msg ∷ [])))

last_same : (q : List (List ℕ)) (m n : List ℕ) → q ++ m ∷ [] ≡ q ++ n ∷ [] → m ≡ n
last_same [] m n e = cc
last_same (x ∷ q) m n e = last_same q m n cc

-- What is owed after a step, and what the step forwarded of it.
abbrev pub Keeps : ℕ → Bridge → List (List ℕ) → List Label → Type 0
Keeps tag b' msgs ls =
    (rest : List (List ℕ)) × Owes tag b' rest × (forwarded_by tag ls ++ rest ≡ msgs)

pub seen_self :
    (tag : ℕ) (b : Bridge) (r : Reader) (msgs : List (List ℕ))
    → Delivers r.in_flight_message r.stream.reads msgs
    → Owes tag (after_reader b tag r) msgs
seen_self tag b r msgs d =
    rw (update_self b.in_flight tag r.in_flight_message, update_self b.streams tag r.stream) d

pub seen_other :
    (tag t : ℕ) (b : Bridge) (r : Reader) (msgs : List (List ℕ))
    → t ≢ tag
    → Owes tag b msgs
    → Owes tag (after_reader b t r) msgs
seen_other tag t b r msgs ne d =
    rw
      (
        update_other b.in_flight t tag r.in_flight_message ne,
        update_other b.streams t tag r.stream ne,
      )
      d

pub own_wait :
    (tag : ℕ) (b : Bridge) (msgs : List (List ℕ)) (r : Reader)
    → Turn tag b msgs r
    → r.to_websocket.queue ≡ b.to_websocket
    → Keeps tag (after_reader b tag r) msgs (inner ∷ [])
own_wait tag b msgs r (passed msg rest e more d) same =
    absurd (longer b.to_websocket msg (sym more ∙ same))
own_wait tag b msgs r (waited q d) same = (msgs, seen_self tag b r msgs d, refl)

pub own_forward :
    (tag : ℕ) (b : Bridge) (msgs : List (List ℕ)) (message : List ℕ) (r : Reader)
    → Turn tag b msgs r
    → r.to_websocket.queue ≡ b.to_websocket ++ message ∷ []
    → Keeps tag (after_reader b tag r) msgs (forwarded tag message ∷ [])
own_forward tag b msgs message r (passed msg rest e more d) sent =
    let one : message ≡ msg = last_same b.to_websocket message msg (sym sent ∙ more) in
    (rest, seen_self tag b r rest d, ground (arith, one, e))
own_forward tag b msgs message r (waited q d) sent =
    absurd (longer b.to_websocket message (sym sent ∙ q))
