-- ===== src/Browser/Events.antt =====
-- The one-shot sender and the worker thread under every sequence of events.
use exfiltrate.Common.{◌+◌, List, [], ◌∷◌, Bool, true, false, some, ◌≡◌, refl}
use exfiltrate.Browser.{OneShot, new_one_shot, send_if_needed, Worker, run_worker}

unfoldable pub send_all {ℓ} : {T : Type ℓ} → List T → OneShot T → OneShot T
send_all [] o = o
send_all (v ∷ vs) o = send_all vs (send_if_needed v o)

used_up {ℓ} : {T : Type ℓ} (vs : List T) (o : OneShot T) → o.unused ≡ false → send_all vs o ≡ o
unfolding send_all send_if_needed
used_up [] o u = refl
used_up (v ∷ vs) o u = simp u (used_up vs o u)

-- Whatever is sent to a one-shot after the first value, by whichever clone, the first value is
-- what it has delivered.
send_if_needed_first {ℓ} :
    {T : Type ℓ} (first : T) (later : List T)
    → (send_all later (send_if_needed first new_one_shot)).delivered ≡ some first
unfolding send_if_needed new_one_shot
send_if_needed_first first later =
    rw (used_up later (record { unused = false; delivered = some first }) refl)

pub connected_for_good :
    (messages : List Bool) (w : Worker) → w.has_socket ≡ true → run_worker messages w ≡ w
unfolding run_worker
connected_for_good [] w h = refl
connected_for_good (s ∷ messages) w h = simp h (connected_for_good messages w h)

-- Once the worker has connected, no `Reconnect` message makes it connect again, also not those that
-- the closing of its socket sends: it calls `create_web_socket` no more.
run_worker_connected :
    (messages : List Bool) (w : Worker)
    → w.has_socket ≡ false
    → run_worker (true ∷ messages) w ≡ record { has_socket = true; attempts = w.attempts + 1 }
unfolding run_worker
run_worker_connected messages w h =
    rw h
      (connected_for_good messages (record { has_socket = true; attempts = w.attempts + 1 }) refl)
