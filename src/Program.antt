-- ===== src/Program.antt =====
-- exfiltrate/src/lib.rs: `begin`, and exfiltrate/src/wire/server.rs: the static `SERVER`, which the
-- first `begin` initialises, with `Server::new` for a native program and for one in the browser.
use exfiltrate.Common.{Bool, true, false, ◌≡◌, ◌≢◌, refl}
use exfiltrate.Common.Text.{Text}
use exfiltrate.Stream.{IoError}
use exfiltrate.Server.{Host, begin}
use exfiltrate.Server.Listener.{Bound, Listener, Started, listening, panicked, new_tcp}
use exfiltrate.Browser.Start.{Starts, not_started, wasm32_go}

-- What the program runs on, with what the system answers there: to the bind of the listener, or
-- whether a thread can be spawned.
pub data Site : Type 0 where
  native : Bound → Site
  web : Bool → Site

pub is_web : Site → Bool
is_web (native answer) = false
is_web (web answer) = true

-- The `LazyLock`: not yet used, initialised, or poisoned by a panic.
pub data ServerCell : Type 0 where
  unused poisoned : ServerCell
  serves_tcp : Listener → ServerCell
  serves_web : Starts → ServerCell

of_started : Started → ServerCell
of_started (listening l) = serves_tcp l
of_started (panicked message) = poisoned

-- `Server::new`: `new_tcp` or `new_web`.
pub new_server : (IoError → Text) → Site → ServerCell
unfolding of_started
new_server debug (native answer) = of_started (new_tcp debug answer)
new_server debug (web true) = serves_web (wasm32_go true not_started)
new_server debug (web false) = poisoned

-- `SERVER.deref()`
pub deref : (IoError → Text) → Site → ServerCell → ServerCell
unfolding new_server
deref debug site unused = new_server debug site
deref debug site poisoned = poisoned
deref debug site (serves_tcp l) = serves_tcp l
deref debug site (serves_web s) = serves_web s

pub record Program : Type 0 where
  pub host : Host
  pub server : ServerCell

-- `begin`, with the feature `logwise` or without it.
pub begin_program : (IoError → Text) → Bool → Site → Program → Program
unfolding deref
begin_program debug logwise site p = record {
  host = begin logwise (is_web site) p.host;
  server = deref debug site p.server;
}

is_used : (debug : IoError → Text) (site : Site) (c : ServerCell) → deref debug site c ≢ unused
unfolding deref of_started
is_used debug (native answer) unused = go (new_tcp debug answer)
  where
    go : (x : Started) → of_started x ≢ unused
    go (listening l) = λ e. cc
    go (panicked message) = λ e. cc
is_used debug (web true) unused = λ e. cc
is_used debug (web false) unused = λ e. cc
is_used debug site poisoned = λ e. cc
is_used debug site (serves_tcp l) = λ e. cc
is_used debug site (serves_web s) = λ e. cc

deref_used :
    (debug : IoError → Text) (site : Site) (c : ServerCell) → c ≢ unused → deref debug site c ≡ c
unfolding deref
deref_used debug site unused ne = absurd (ne refl)
deref_used debug site poisoned ne = refl
deref_used debug site (serves_tcp l) ne = refl
deref_used debug site (serves_web s) ne = refl

-- A program that calls `begin` again keeps the server that it has, whatever the system would answer
-- now: there is one listener or one worker at most, and a server that could not be started is not
-- tried again.
begin_program_again :
    (debug : IoError → Text) (logwise logwise' : Bool) (site site' : Site) (p : Program)
    → (begin_program debug logwise' site' (begin_program debug logwise site p)).server
      ≡ (begin_program debug logwise site p).server
unfolding begin_program
begin_program_again debug logwise logwise' site site' p =
    deref_used debug site' (deref debug site p.server) (is_used debug site p.server)
