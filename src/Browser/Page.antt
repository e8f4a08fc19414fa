-- ===== src/Browser/Page.antt =====
-- exfiltrate/src/wire/server/wasm32.rs: `worker_thread`, `create_web_socket` and the callbacks of the
-- sockets that it makes, as an event machine. The browser decides which event comes next.
mod Tests
pub mod Lifetime
pub mod Settled
use exfiltrate.Common.{ℕ, ◌+◌, Bool, true, false, Option, none, some, List, [], ◌∷◌, ◌≡◌}
use exfiltrate.Common.Table.{update}
use exfiltrate.Browser.{OneShot, new_one_shot, send_if_needed}

-- What the future of a socket yields: `Ok(())` or "Cannot connect to server".
pub data Opening : Type 0 where
  connected cannot_connect : Opening

-- What the worker waits for: a message, or the future of the socket with a number.
pub data WorkerState : Type 0 where
  idle : WorkerState
  awaiting : ℕ → WorkerState

-- The `Reconnect` messages that wait in the channel, where the worker is, the number of the socket
-- in its variable `socket`, how often it has called `create_web_socket`, and for each socket by the
-- number of that call its one-shot and whether its close event is still to come.
pub record Page : Type 0 where
  pub inbox : ℕ
  pub worker : WorkerState
  pub socket : Option ℕ
  pub attempts : ℕ
  pub one_shots : ℕ → OneShot Opening
  pub unclosed : ℕ → Bool

-- `worker_thread` sends itself the first `Reconnect`.
unfoldable pub new_page : Page
new_page = record {
  inbox = 1;
  worker = idle;
  socket = none;
  attempts = 0;
  one_shots = λ k. new_one_shot;
  unclosed = λ k. false;
}

-- `create_web_socket` up to its `await`, where `WebSocket::new` succeeds or fails as given.
unfoldable pub create_web_socket : Bool → Page → Page
create_web_socket true p = record p {
  worker = awaiting p.attempts;
  attempts = p.attempts + 1;
  one_shots = update p.one_shots p.attempts new_one_shot;
  unclosed = update p.unclosed p.attempts true;
}
create_web_socket false p = record p { attempts = p.attempts + 1 }

-- The three callbacks of a socket.
unfoldable pub onopen : ℕ → Page → Page
onopen k p = record p {
  one_shots = update p.one_shots k (send_if_needed connected (p.one_shots k));
}

unfoldable pub onerror : ℕ → Page → Page
onerror k p = record p {
  one_shots = update p.one_shots k (send_if_needed cannot_connect (p.one_shots k));
}

unfoldable pub onclose : ℕ → Page → Page
onclose k p = record p { inbox = p.inbox + 1; unclosed = update p.unclosed k false }

-- The worker goes on after the `await`.
unfoldable pub resume : Opening → ℕ → Page → Page
resume connected k p = record p { worker = idle; socket = some k }
resume cannot_connect k p = record p { worker = idle }

abbrev pub is_connected : Opening → Bool
is_connected connected = true
is_connected cannot_connect = false

-- What a step shows of a `Reconnect`: `WebSocket::new` refused it, or it has been dealt with and
-- `create_web_socket` yielded a socket or not.
pub data Label : Type 0 where
  quiet refused : Label
  answered : Bool → Label

-- The worker takes a `Reconnect` off the channel, with a socket or without one; a socket that is not
-- closed has an event; or the worker goes on with what the one-shot delivered.
pub data Step (p : Page) : Label → Page → Type 0 where
  ignores :
      (k left : ℕ)
      → p.worker ≡ idle
      → p.inbox ≡ left + 1
      → p.socket ≡ some k
      → Step p (answered false) (record p { inbox = left })
  creates :
      (left : ℕ)
      → p.worker ≡ idle
      → p.inbox ≡ left + 1
      → p.socket ≡ none
      → Step p quiet (create_web_socket true (record p { inbox = left }))
  refuses :
      (left : ℕ)
      → p.worker ≡ idle
      → p.inbox ≡ left + 1
      → p.socket ≡ none
      → Step p refused (create_web_socket false (record p { inbox = left }))
  opens : (k : ℕ) → p.unclosed k ≡ true → Step p quiet (onopen k p)
  fails : (k : ℕ) → p.unclosed k ≡ true → Step p quiet (onerror k p)
  closes : (k : ℕ) → p.unclosed k ≡ true → Step p quiet (onclose k p)
  resumes :
      (k : ℕ) (opening : Opening)
      → p.worker ≡ awaiting k
      → (p.one_shots k).delivered ≡ some opening
      → Step p (answered (is_connected opening)) (resume opening k p)

pub data Run : Page → List Label → Page → Type 0 where
  here : {p : Page} → Run p [] p
  next :
      {p p' p'' : Page} {l : Label} {ls : List Label}
      → Step p l p'
      → Run p' ls p''
      → Run p (l ∷ ls) p''
