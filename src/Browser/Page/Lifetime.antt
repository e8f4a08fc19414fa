-- ===== src/Browser/Page/Lifetime.antt =====
-- The worker thread and its sockets under every order of events.
use exfiltrate.Common.{ℕ, ◌+◌, ◌<◌, Bool, true, false, Option, none, some, List, [], ◌∷◌}
use exfiltrate.Common.{◌≡◌, ◌⊎◌, inl, inr, sym, ap, subst, ◌∙◌, arith, Bool-cases}
use exfiltrate.Common.Table.{update, update_self, update_other, same_or_not}
use exfiltrate.Browser.{OneShot, new_one_shot, send_if_needed}
use exfiltrate.Browser.Page.{
  Opening, connected, cannot_connect, WorkerState, idle, awaiting, Page, new_page,
  create_web_socket, onopen, onerror, onclose, resume, Label, quiet, refused, answered, Step,
  ignores, creates, refuses, opens, fails, closes, resumes, Run, here, next,
}

-- A one-shot that has delivered is used up.
abbrev pub IsUsed : OneShot Opening → Type 0
IsUsed o = (r : Opening) → o.delivered ≡ some r → o.unused ≡ false

abbrev pub HoldsOpened : Option ℕ → (ℕ → OneShot Opening) → ℕ → Type 0
HoldsOpened none o n = Unit
HoldsOpened (some k) o n = ((o k).delivered ≡ some connected) × ((o k).unused ≡ false) × (k < n)

abbrev pub WaitsAlone : WorkerState → Option ℕ → ℕ → Type 0
WaitsAlone idle s n = Unit
WaitsAlone (awaiting k) s n = (s ≡ none) × (k < n)

-- The socket in the variable is one that was made and whose first event was that it opened; while
-- the worker waits for a socket it has none.
pub record IsSound (p : Page) : Type 0 where
  pub used : (k : ℕ) → IsUsed (p.one_shots k)
  pub holds : HoldsOpened p.socket p.one_shots p.attempts
  pub waits : WaitsAlone p.worker p.socket p.attempts

send_used : (v : Opening) (o : OneShot Opening) → o.unused ≡ false → send_if_needed v o ≡ o
unfolding send_if_needed
send_used v o h = rw h

send-IsUsed : (v : Opening) (o : OneShot Opening) → IsUsed (send_if_needed v o)
unfolding send_if_needed
send-IsUsed v o r d = elim (Bool-cases o.unused) [
  | inl e ↦ rw e
  | inr e ↦ ap (λ x. x.unused) (send_used v o e) ∙ e
]

-- A new value in a table of one-shots.
update-IsUsed :
    (f : ℕ → OneShot Opening) (k : ℕ) (o : OneShot Opening)
    → ((j : ℕ) → IsUsed (f j))
    → IsUsed o
    → (j : ℕ) → IsUsed (update f k o j)
update-IsUsed f k o all one j = elim (same_or_not k j) [
  | inl e ↦ subst (λ i. IsUsed (update f k o i)) e (rw (update_self f k o) one)
  | inr e ↦ rw (update_other f k j o e) (all j)
]

used_stays :
    (f : ℕ → OneShot Opening) (v : Opening) (k j : ℕ)
    → (f j).unused ≡ false
    → update f k (send_if_needed v (f k)) j ≡ f j
used_stays f v k j h = elim (same_or_not k j) [
  | inl e ↦
      subst (λ i. update f i (send_if_needed v (f i)) j ≡ f j) (sym e)
        (update_self f j (send_if_needed v (f j)) ∙ send_used v (f j) h)
  | inr e ↦ update_other f k j (send_if_needed v (f k)) e
]

holds_on :
    (s : Option ℕ) (f : ℕ → OneShot Opening) (n k : ℕ) (v : Opening)
    → HoldsOpened s f n
    → HoldsOpened s (update f k (send_if_needed v (f k))) n
holds_on none f n k v h = tt
holds_on (some j) f n k v h =
    let same = used_stays f v k j h.1 in
    (ap (λ o. o.delivered) same ∙ h.0, ap (λ o. o.unused) same ∙ h.1, h.2)

-- An event of a socket that goes to its one-shot.
event-IsSound :
    (v : Opening) (k : ℕ) (p : Page)
    → IsSound p
    → IsSound (record p { one_shots = update p.one_shots k (send_if_needed v (p.one_shots k)) })
event-IsSound v k p s = record {
  used =
      update-IsUsed p.one_shots k (send_if_needed v (p.one_shots k)) s.used
        (send-IsUsed v (p.one_shots k));
  holds = holds_on p.socket p.one_shots p.attempts k v s.holds;
  waits = s.waits;
}

resume-IsSound :
    (opening : Opening) (k : ℕ) (p : Page)
    → p.worker ≡ awaiting k
    → (p.one_shots k).delivered ≡ some opening
    → IsSound p
    → IsSound (resume opening k p)
unfolding resume
resume-IsSound connected k p w d s = record {
  used = s.used;
  holds = (d, s.used k connected d, (rw w at s.waits).1);
  waits = tt;
}
resume-IsSound cannot_connect k p w d s = record { used = s.used; holds = s.holds; waits = tt }

create-IsSound :
    (succeeds : Bool) (p : Page)
    → p.worker ≡ idle
    → p.socket ≡ none
    → IsSound p
    → IsSound (create_web_socket succeeds p)
unfolding create_web_socket new_one_shot
create-IsSound true p w n s = record {
  used = update-IsUsed p.one_shots p.attempts new_one_shot s.used (λ r d. cc);
  holds = rw n tt;
  waits = (n, omega arith);
}
create-IsSound false p w n s = record { used = s.used; holds = rw n tt; waits = rw w tt }

pub Step-IsSound : {p p' : Page} {l : Label} → Step p l p' → IsSound p → IsSound p'
unfolding onopen onerror onclose
Step-IsSound {p} (ignores k left w i h) s = record {
  used = s.used;
  holds = s.holds;
  waits = s.waits;
}
Step-IsSound {p} (creates left w i n) s =
    create-IsSound true (record p { inbox = left }) w n
      (record { used = s.used; holds = s.holds; waits = s.waits })
Step-IsSound {p} (refuses left w i n) s =
    create-IsSound false (record p { inbox = left }) w n
      (record { used = s.used; holds = s.holds; waits = s.waits })
Step-IsSound {p} (opens k u) s = event-IsSound connected k p s
Step-IsSound {p} (fails k u) s = event-IsSound cannot_connect k p s
Step-IsSound {p} (closes k u) s = record { used = s.used; holds = s.holds; waits = s.waits }
Step-IsSound {p} (resumes k opening w d) s = resume-IsSound opening k p w d s

pub Run-IsSound : {p p' : Page} {ls : List Label} → Run p ls p' → IsSound p → IsSound p'
Run-IsSound here s = s
Run-IsSound (next st run) s = Run-IsSound run (Step-IsSound st s)

pub new_page-IsSound : IsSound new_page
unfolding new_page new_one_shot
new_page-IsSound = record { used = λ k r d. cc; holds = tt; waits = tt }

-- Without a socket, a `Reconnect` waits in the channel or a socket will still close and send one.
abbrev pub WillTry : Option ℕ → ℕ → (ℕ → Bool) → Type 0
WillTry none inbox unclosed = (0 < inbox) ⊎ ((k : ℕ) × (unclosed k ≡ true))
WillTry (some k) inbox unclosed = Unit

-- `WebSocket::new` does not refuse.
abbrev pub Accepts : List Label → Type 0
Accepts [] = Unit
Accepts (refused ∷ ls) = ⊥
Accepts (l ∷ ls) = Accepts ls

message_waits : (s : Option ℕ) (inbox : ℕ) (unclosed : ℕ → Bool) → WillTry s (inbox + 1) unclosed
message_waits none inbox unclosed = inl (omega arith)
message_waits (some k) inbox unclosed = tt

resume-WillTry :
    (opening : Opening) (k : ℕ) (p : Page)
    → WillTry p.socket p.inbox p.unclosed
    → WillTry (resume opening k p).socket (resume opening k p).inbox (resume opening k p).unclosed
unfolding resume
resume-WillTry connected k p t = tt
resume-WillTry cannot_connect k p t = t

Step-WillTry :
    {p p' : Page} {l : Label}
    → Step p l p'
    → Accepts (l ∷ [])
    → WillTry p.socket p.inbox p.unclosed
    → WillTry p'.socket p'.inbox p'.unclosed
unfolding onopen onerror onclose create_web_socket
Step-WillTry {p} (ignores k left w i h) a t = rw h tt
Step-WillTry {p} (creates left w i n) a t =
    rw n (inr (p.attempts, update_self p.unclosed p.attempts true))
Step-WillTry {p} (refuses left w i n) a t = absurd a
Step-WillTry {p} (opens k u) a t = t
Step-WillTry {p} (fails k u) a t = t
Step-WillTry {p} (closes k u) a t = message_waits p.socket p.inbox (update p.unclosed k false)
Step-WillTry {p} (resumes k opening w d) a t = resume-WillTry opening k p t

Accepts-split : (l : Label) (ls : List Label) → Accepts (l ∷ ls) → Accepts (l ∷ []) × Accepts ls
Accepts-split quiet ls a = (tt, a)
Accepts-split refused ls a = absurd a
Accepts-split (answered b) ls a = (tt, a)

Run-WillTry :
    {p p' : Page} {ls : List Label}
    → Run p ls p'
    → Accepts ls
    → WillTry p.socket p.inbox p.unclosed
    → WillTry p'.socket p'.inbox p'.unclosed
Run-WillTry here a t = t
Run-WillTry (next {l = l} {ls} st run) a t =
    let (now, later) = Accepts-split l ls a in Run-WillTry run later (Step-WillTry st now t)

-- From the start of the worker thread, in whatever order the events come: a socket that the worker
-- holds is one it made and whose first event was that it opened, and while it waits for a socket it
-- holds none; as long as `WebSocket::new` refuses nothing, a worker without a socket will hear of
-- another `Reconnect`: one waits in its channel, or a socket of its own has yet to close.
pub Run-new_page :
    {p : Page} {ls : List Label}
    → Run new_page ls p
    → IsSound p × (Accepts ls → WillTry p.socket p.inbox p.unclosed)
Run-new_page run = (
  Run-IsSound run new_page-IsSound,
  λ a. Run-WillTry run a (unfold new_page in inl (omega arith)),
)
