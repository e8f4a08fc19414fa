-- ===== src/Browser/Page/Settled.antt =====
-- The events of the sockets add up to what `reconnect` says of each message.
use exfiltrate.Common.{ℕ, ◌+◌, Bool, true, false, Option, none, some, List, [], ◌∷◌}
use exfiltrate.Common.{subst, ◌≡◌, ◌≢◌, ◌∙◌, refl, sym, ap}
use exfiltrate.Browser.{Worker, reconnect, run_worker}
use exfiltrate.Browser.Events.{connected_for_good}
use exfiltrate.Browser.Page.{
  Opening, connected, cannot_connect, WorkerState, idle, awaiting, Page, create_web_socket, onopen,
  onerror, onclose, resume, is_connected, Label, quiet, refused, answered, Step, ignores, creates,
  refuses, opens, fails, closes, resumes, Run, here, next,
}
use exfiltrate.Browser.Page.Lifetime.{IsSound, Step-IsSound}

-- How each `Reconnect` that has been dealt with ended.
abbrev pub answers : List Label → List Bool
answers [] = []
answers (quiet ∷ ls) = answers ls
answers (refused ∷ ls) = false ∷ answers ls
answers (answered b ∷ ls) = b ∷ answers ls

abbrev pub Shows : WorkerState → Option ℕ → ℕ → Worker → Type 0
Shows idle none n w = w ≡ record { has_socket = false; attempts = n }
Shows idle (some k) n w = w ≡ record { has_socket = true; attempts = n }
Shows (awaiting k) s n w = (w.has_socket ≡ false) × (w.attempts + 1 ≡ n)

-- A page seen as a worker: while it waits for a socket, the call under way does not count yet.
abbrev pub Refines : Page → Worker → Type 0
Refines p w = Shows p.worker p.socket p.attempts w

resume-Refines :
    (opening : Opening) (k : ℕ) (p : Page) (w : Worker)
    → p.worker ≡ awaiting k
    → p.socket ≡ none
    → Refines p w
    → Refines (resume opening k p) (reconnect (is_connected opening) w)
unfolding resume reconnect
resume-Refines connected k p w e n r = let (free, count) = (rw e at r) in rw (free, count) refl
resume-Refines cannot_connect k p w e n r =
    let (free, count) = (rw e at r) in rw (n, free, count) refl

Step-Refines :
    {p p' : Page} {l : Label} (w : Worker)
    → Step p l p'
    → IsSound p
    → Refines p w
    → Refines p' (run_worker (answers (l ∷ [])) w)
unfolding run_worker reconnect onopen onerror onclose create_web_socket
Step-Refines {p} w (ignores k left e i h) s r = rw (e, h) (ap (reconnect false) (rw (e, h) at r))
Step-Refines {p} w (creates left e i n) s r =
    let free : w ≡ record { has_socket = false; attempts = p.attempts } = rw (e, n) at r in
    (ap (λ x. x.has_socket) free, ap (λ x. x.attempts + 1) free)
Step-Refines {p} w (refuses left e i n) s r = rw (e, n) (ap (reconnect false) (rw (e, n) at r))
Step-Refines {p} w (opens k u) s r = r
Step-Refines {p} w (fails k u) s r = r
Step-Refines {p} w (closes k u) s r = r
Step-Refines {p} w (resumes k opening e d) s r =
    resume-Refines opening k p w e (rw e at s.waits).0 r

run_worker_first :
    (l : Label) (ls : List Label) (w : Worker)
    → run_worker (answers ls) (run_worker (answers (l ∷ [])) w) ≡ run_worker (answers (l ∷ ls)) w
unfolding run_worker
run_worker_first quiet ls w = refl
run_worker_first refused ls w = refl
run_worker_first (answered b) ls w = refl

-- A run of the sockets' events from a sound page that shows a worker ends in a page that shows what
-- `reconnect` makes of that worker, for each `Reconnect` that has been dealt with in turn.
pub Run-Refines :
    {p p' : Page} {ls : List Label} (w : Worker)
    → Run p ls p'
    → IsSound p
    → Refines p w
    → Refines p' (run_worker (answers ls) w)
unfolding run_worker
Run-Refines w here s r = r
Run-Refines {p} {p'} w (next {l = l} {ls} st run) s r =
    subst (Refines p') (run_worker_first l ls w) (
      Run-Refines (run_worker (answers (l ∷ [])) w) run (Step-IsSound st s) (Step-Refines w st s r))

false-true : false ≡ true → ⊥
false-true e = cc

shown_connected :
    (k : WorkerState) (s : Option ℕ) (n : ℕ) (w : Worker)
    → Shows k s n w
    → w.has_socket ≡ true
    → (k ≡ idle) × (s ≢ none) × (n ≡ w.attempts)
shown_connected idle none n w r h = absurd (false-true (sym (ap (λ x. x.has_socket) r) ∙ h))
shown_connected idle (some k) n w r h = (refl, λ e. cc, sym (ap (λ x. x.attempts) r))
shown_connected (awaiting k) s n w r h = absurd (false-true (sym r.0 ∙ h))

-- Once the worker of a sound page waits for messages and holds a socket, nothing that happens makes
-- it call `create_web_socket` again: not the closing of that socket, nor the `Reconnect` that its
-- close handler sends. The worker goes on holding a socket and waiting for messages.
pub Run-Settled :
    {p p' : Page} {ls : List Label} {k : ℕ}
    → Run p ls p'
    → IsSound p
    → p.worker ≡ idle
    → p.socket ≡ some k
    → (p'.worker ≡ idle) × (p'.socket ≢ none) × (p'.attempts ≡ p.attempts)
Run-Settled {p} {p'} {ls} run s e h =
    let w : Worker = record { has_socket = true; attempts = p.attempts } in
    let r : Refines p w = rw (e, h) refl in
    let same : run_worker (answers ls) w ≡ w = connected_for_good (answers ls) w refl in
    shown_connected p'.worker p'.socket p'.attempts w
      (subst (Refines p') same (Run-Refines w run s r)) refl
