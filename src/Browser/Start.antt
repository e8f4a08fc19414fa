-- ===== src/Browser/Start.antt =====
-- exfiltrate/src/wire/server/wasm32.rs: `wasm32_go`, which starts the thread of the worker.
use exfiltrate.Common.{ℕ, zero, suc, ◌+◌, ◌≤◌, List, [], ◌∷◌, Bool, true, false, if◌then◌else◌}
use exfiltrate.Common.{arith, ◌≡◌, refl}

-- Whether the receiver in `SEND_WORKER_MESSAGE` is there; the threads that have not run yet, the
-- worker loops that were entered, and the threads and calls that have panicked.
pub record Starts : Type 0 where
  pub receiver : Bool
  pub spawned : ℕ
  pub workers : ℕ
  pub panics : ℕ

abbrev pub not_started : Starts
not_started = record { receiver = true; spawned = 0; workers = 0; panics = 0 }

-- `wasm32_go`, where the thread can be spawned or not.
unfoldable pub wasm32_go : Bool → Starts → Starts
wasm32_go succeeds s =
    if succeeds then record s { spawned = s.spawned + 1 } else record s { panics = s.panics + 1 }

-- The thread takes the receiver, and panics if that is gone.
unfoldable pub start_worker : Starts → Starts
start_worker s =
    if s.receiver
    then record s { receiver = false; workers = s.workers + 1 }
    else record s { panics = s.panics + 1 }

unfoldable pub run_thread : ℕ → Starts → Starts
unfolding start_worker
run_thread zero s = s
run_thread (suc n) s = start_worker (record s { spawned = n })

pub data Event : Type 0 where
  go : Bool → Event
  thread_runs : Event

unfoldable pub handle : Event → Starts → Starts
unfolding wasm32_go run_thread
handle (go succeeds) s = wasm32_go succeeds s
handle thread_runs s = run_thread s.spawned s

unfoldable pub run : List Event → Starts → Starts
unfolding handle
run [] s = s
run (e ∷ es) s = run es (handle e s)

-- The receiver is there, or one worker has it.
abbrev IsSingle : Starts → Type 0
IsSingle s = s.workers + (if s.receiver then 1 else 0) ≡ 1

start_worker-IsSingle : (s : Starts) → IsSingle s → IsSingle (start_worker s)
unfolding start_worker
start_worker-IsSingle s h = ground (arith, h)

handle-IsSingle : (e : Event) (s : Starts) → IsSingle s → IsSingle (handle e s)
unfolding handle wasm32_go run_thread
handle-IsSingle (go true) s h = h
handle-IsSingle (go false) s h = h
handle-IsSingle thread_runs s h = threads s.spawned s h
  where
    threads : (n : ℕ) (x : Starts) → IsSingle x → IsSingle (run_thread n x)
    threads zero x k = k
    threads (suc n) x k = start_worker-IsSingle (record x { spawned = n }) k

run-IsSingle : (es : List Event) (s : Starts) → IsSingle s → IsSingle (run es s)
unfolding run
run-IsSingle [] s h = h
run-IsSingle (e ∷ es) s h = run-IsSingle es (handle e s) (handle-IsSingle e s h)

-- However often `wasm32_go` is called, and whichever of its threads run, one worker loop at most is
-- entered.
run-workers : (es : List Event) → (run es not_started).workers ≤ 1
run-workers es = omega (arith, run-IsSingle es not_started refl)
