-- ===== src/Server/Listener/Turns.antt =====
-- Each connection as if it were alone.
use exfiltrate.Common.{ℕ, zero, suc, ◌≤◌, List, [], ◌∷◌, ◌++◌, ◌==◌, if◌then◌else◌}
use exfiltrate.Common.{
  Option, none, some, All, ◌≡◌, ◌≢◌, refl, sym, subst, ap, ◌∙◌, arith, inl, inr,
}
use exfiltrate.Common.Table.{same_or_not}
use exfiltrate.Loop.{Thread, running, returned, crashed, go_on, loop}
use exfiltrate.Wire.Framing.{frames}
use exfiltrate.Wire.Delivery.{Delivers, work_left}
use exfiltrate.Wire.Writing.{IsTolerated}
use exfiltrate.Rpc.{Codec}
use exfiltrate.Server.{Host, Connection, do_stream}
use exfiltrate.Server.Serving.{Exchange, IsServed, requests, replies, Replies, do_stream_serves}
use exfiltrate.Server.Listener.{
  Incoming, accepted, refused, Listener, Event, incoming, turn, accept, accept_while, take_turn,
  turn_at, handle, run,
}

-- The connection with a number.
abbrev pub get : ℕ → List (Thread × Connection) → Option (Thread × Connection)
get i [] = none
get zero (x ∷ xs) = some x
get (suc i) (x ∷ xs) = get i xs

-- How many turns a connection has among the events.
abbrev pub turns : ℕ → List Event → ℕ
turns i [] = 0
turns i (incoming x ∷ es) = turns i es
turns i (turn j ∷ es) = let rest = turns i es in if j == i then suc rest else rest

turns_own : (i : ℕ) (es : List Event) → turns i (turn i ∷ es) ≡ suc (turns i es)
turns_own i es = ground arith

turns_other : (i j : ℕ) (es : List Event) → j ≢ i → turns i (turn j ∷ es) ≡ turns i es
turns_other i j es ne = ground arith

get-append :
    (i : ℕ) (xs ys : List (Thread × Connection)) {x : Thread × Connection}
    → get i xs ≡ some x
    → get i (xs ++ ys) ≡ some x
get-append i [] ys e = cc
get-append zero (y ∷ xs) ys e = e
get-append (suc i) (y ∷ xs) ys e = get-append i xs ys e

accept_keeps :
    (t : Thread) (a : Incoming) (i : ℕ) (xs : List (Thread × Connection)) {x : Thread × Connection}
    → get i xs ≡ some x
    → get i (accept_while t a xs).connections ≡ some x
unfolding accept_while accept
accept_keeps running (accepted s) i xs e = get-append i xs _ e
accept_keeps running (refused f) i xs e = e
accept_keeps returned a i xs e = e
accept_keeps crashed a i xs e = e

module _ (codec : Codec) (h : Host) where
  turn_own :
      (i : ℕ) (xs : List (Thread × Connection)) {x : Thread × Connection}
      → get i xs ≡ some x
      → get i (turn_at codec h i xs) ≡ some (take_turn codec h x)
  unfolding turn_at
  turn_own i [] e = cc
  turn_own zero (y ∷ xs) e = cc
  turn_own (suc i) (y ∷ xs) e = turn_own i xs e

  turn_other :
      (i j : ℕ) (xs : List (Thread × Connection)) → j ≢ i → get i (turn_at codec h j xs) ≡ get i xs
  unfolding turn_at
  turn_other i j [] ne = refl
  turn_other zero zero (y ∷ xs) ne = absurd (ne refl)
  turn_other (suc i) zero (y ∷ xs) ne = refl
  turn_other zero (suc j) (y ∷ xs) ne = refl
  turn_other (suc i) (suc j) (y ∷ xs) ne = turn_other i j xs (λ e. ne (ap suc e))

  -- A turn and then some rounds are one round more.
  go_on_turn :
      (n : ℕ) (x : Thread × Connection)
      → go_on (do_stream codec h n) (take_turn codec h x) ≡ go_on (do_stream codec h (suc n)) x
  unfolding do_stream take_turn go_on loop
  go_on_turn n (running, c) = refl
  go_on_turn n (returned, c) = refl
  go_on_turn n (crashed, c) = refl

  no_turn : (x : Thread × Connection) → go_on (do_stream codec h zero) x ≡ x
  unfolding do_stream go_on loop
  no_turn (running, c) = refl
  no_turn (returned, c) = refl
  no_turn (crashed, c) = refl

  -- Whatever else is accepted and whichever connections take their turns in between, a connection is
  -- where its own rounds alone have brought it.
  pub get-run :
      (i : ℕ) (es : List Event) (l : Listener) {x : Thread × Connection}
      → get i l.connections ≡ some x
      → get i (run codec h l es).connections ≡ some (go_on (do_stream codec h (turns i es)) x)
  unfolding run handle
  get-run i [] l {x} e = e ∙ ap some (sym (no_turn x))
  get-run i (incoming a ∷ es) l e =
      get-run i es (handle codec h l (incoming a)) (accept_keeps l.accepting a i l.connections e)
  get-run i (turn j ∷ es) l {x} e = elim (same_or_not j i) [
    | inl own ↦
        subst
          (λ k.
            get i (run codec h (handle codec h l (turn k)) es).connections
            ≡ some (go_on (do_stream codec h (turns i (turn k ∷ es))) x))
          (sym own)
          (get-run i es (handle codec h l (turn i)) (turn_own i l.connections e)
            ∙ ap some (go_on_turn (turns i es) x)
            ∙ ap (λ n. some (go_on (do_stream codec h n) x)) (sym (turns_own i es)))
    | inr other ↦
        get-run i es (handle codec h l (turn j)) (turn_other i j l.connections other ∙ e)
        ∙ ap (λ n. some (go_on (do_stream codec h n) x)) (sym (turns_other i j es other))
  ]

  -- Each connection that has been accepted gets its replies, whatever else happens: once its thread
  -- has had as many turns as there is work, it still runs, and exactly the frames of the replies to
  -- its own requests are on its stream, in order, whichever other connections are accepted, served,
  -- fail or panic in between, and also after the listener itself has ended. The conditions are those
  -- of one thread alone: its commands do not panic, its messages can be serialized and fit, no read
  -- fails but for want of data, and every write takes something or may be tried again.
  pub run_serves :
      (i : ℕ) (es : List Event) (l : Listener) (c : Connection) (xs : List Exchange)
      → get i l.connections ≡ some (running, c)
      → All (IsServed codec h) xs
      → Delivers c.in_flight_message c.stream.reads (requests xs)
      → All IsTolerated c.stream.writes
      → work_left c.in_flight_message c.stream.reads ≤ turns i es
      → (x : Thread × Connection) × (get i (run codec h l es).connections ≡ some x)
        × Replies codec h x (c.stream.sent ++ frames (replies xs))
  run_serves i es l c xs e s d t enough = (
    do_stream codec h (turns i es) c,
    get-run i es l e ∙ (unfold go_on in refl),
    do_stream_serves codec h (turns i es) c xs s d t enough,
  )
