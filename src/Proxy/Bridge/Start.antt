-- ===== src/Proxy/Bridge/Start.antt =====
-- exfiltrate_proxy/src/main.rs: the state in which the threads begin, and what holds in every state
-- that they come to.
use exfiltrate.Common.{ℕ, ◌<◌, List, [], Bool, true, false, Option, none, some}
use exfiltrate.Common.{if◌then◌else◌, ◌≡◌, refl, sym, subst}
use exfiltrate.Wire.{new}
use exfiltrate.Proxy.Frame.{new as new_parser}
use exfiltrate.Proxy.Bridge.{Bridge, Label, reads, Run}
use exfiltrate.Proxy.Bridge.Serving.{Run-IsHalted}
use exfiltrate.Proxy.Bridge.Up.{forwarded_messages}

-- The two servers, where the port of the WebSocket server could be bound or not: if not, its thread
-- panics, and the channel to the WebSocket has no receiver.
abbrev pub new_bridge : Bool → Bridge
new_bridge bound = record {
  accepting = true;
  serving = bound;
  clients = [];
  accepted = λ t. false;
  streams = λ t. record { reads = []; writes = []; sent = [] };
  in_flight = λ t. new;
  reading = λ t. false;
  browsers = λ k. record { frame_parser = new_parser; reads = [] };
  opened = 0;
  listening = λ k. false;
  from_websocket = [];
  to_websocket = [];
  writing = false;
  writes = [];
  sent = [];
}

-- `main`: where the port of the TCP server cannot be bound it panics, and the process ends.
unfoldable pub main : Bool → Bool → Option Bridge
main websocket_bound tcp_bound = if tcp_bound then some (new_bridge websocket_bound) else none

-- A browser that is written to is served by the thread that accepts browsers; the browsers that are
-- read have connected; and the threads that read clients are those of accepted ones.
pub record IsSound (b : Bridge) : Type 0 where
  pub served : b.writing ≡ true → b.serving ≡ true
  pub known : (k : ℕ) → b.listening k ≡ true → k < b.opened
  pub joined : (tag : ℕ) → b.reading tag ≡ true → b.accepted tag ≡ true

started_as : {x y : Bridge} → some x ≡ some y → x ≡ y
started_as e = cc

from_start :
    (bound : Bool) {b b' : Bridge} {ls : List Label}
    → main bound true ≡ some b
    → Run b ls b'
    → Run (new_bridge bound) ls b'
unfolding main
from_start bound {b} {b'} {ls} started run = subst (λ x. Run x ls b') (sym (started_as started)) run

-- Where the port of the WebSocket server could not be bound, the proxy goes on as if nothing had
-- happened, but no browser is ever connected and no message ever forwarded.
Run-unbound :
    {b b' : Bridge} {ls : List Label}
    → main false true ≡ some b
    → Run b ls b'
    → (b'.opened ≡ 0) × (forwarded_messages ls ≡ [])
Run-unbound started run =
    let h = Run-IsHalted (from_start false started run) refl in (h.no_browser, h.nothing_forwarded)
