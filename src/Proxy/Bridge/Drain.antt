-- ===== src/Proxy/Bridge/Drain.antt =====
-- What has come from the browsers can always be brought to a client.
use exfiltrate.Common.{ℕ, ◌^◌, ◌<◌, List, [], ◌∷◌, ◌++◌, length, some, All}
use exfiltrate.Common.{◌≡◌, refl, sym, ap, subst, ◌∙◌, append_assoc, append-nil}
use exfiltrate.Common.Table.{update, update_self}
use exfiltrate.Stream.{TcpStream}
use exfiltrate.Wire.Framing.{frame, frames}
use exfiltrate.Wire.Writing.{IsTolerated, send_socket_frame-IsTolerated}
use exfiltrate.Proxy.Tcp.{Client, broadcast}
use exfiltrate.Proxy.Tcp.Clients.{find, live, find-broadcast}
use exfiltrate.Proxy.Bridge.{
  Bridge, Label, heard, inner, take_front, distributes, writes_client, Run, here, next,
}
use exfiltrate.Proxy.Bridge.Writers.{find-take_front}

abbrev pub IsShort : List ℕ → Type 0
IsShort msg = length msg < 2 ^ 32

-- A message of that browser is read, or nothing is to be seen.
abbrev pub IsHearing : ℕ → Label → Type 0
IsHearing k (heard j message) = j ≡ k
IsHearing k inner = Unit
IsHearing k _ = ⊥

-- The state in which nothing waits at the distributor.
abbrev pub drained : Bridge → List Client → (ℕ → TcpStream) → Bridge
drained b clients streams = record b { clients = clients; streams = streams; from_websocket = [] }

-- Steps that lead to a state in which nothing waits for the client and `messages` are on its stream
-- behind what was there; of all else, only the channels and the streams of clients have changed, and
-- nothing was read.
pub record Drained (tag : ℕ) (b : Bridge) (messages : List (List ℕ)) : Type 0 where
  pub clients : List Client
  pub streams : ℕ → TcpStream
  pub shown : List Label
  pub run : Run b shown (drained b clients streams)
  pub only : (k : ℕ) → All (IsHearing k) shown
  pub empty : find tag clients ≡ some (live [])
  pub on_stream : (streams tag).sent ≡ (b.streams tag).sent ++ frames messages
  pub same_reads : (streams tag).reads ≡ (b.streams tag).reads

written_out :
    (tag : ℕ) (queue : List (List ℕ)) (b : Bridge)
    → find tag b.clients ≡ some (live queue)
    → b.from_websocket ≡ []
    → All IsShort queue
    → All IsTolerated (b.streams tag).writes
    → Drained tag b queue
written_out tag [] b r f short t = record {
  clients = b.clients;
  streams = b.streams;
  shown = [];
  run = subst (Run b []) (ap (λ q. record b { from_websocket = q }) f) here;
  only = λ k. tt;
  empty = r;
  on_stream = sym (append-nil (b.streams tag).sent);
  same_reads = refl;
}
written_out tag (message ∷ queue) b r f short t =
    let (rest, e, quiet) = send_socket_frame-IsTolerated (b.streams tag) message short.0 t in
    let s : TcpStream = record (b.streams tag) {
      writes = rest;
      sent = (b.streams tag).sent ++ frame message;
    } in
    let b' : Bridge = record b {
      clients = take_front tag b.clients;
      streams = update b.streams tag s;
    } in
    let seen : b'.streams tag ≡ s = update_self b.streams tag s in
    let d =
      written_out tag queue b' (find-take_front tag b.clients r) f short.1
        (subst (λ x. All IsTolerated x.writes) (sym seen) quiet) in
    record {
      clients = d.clients;
      streams = d.streams;
      shown = inner ∷ d.shown;
      run = next (writes_client tag message queue r e) d.run;
      only = λ k. (tt, d.only k);
      empty = d.empty;
      on_stream =
          d.on_stream
          ∙ ap (λ x. x.sent ++ frames queue) seen
          ∙ append_assoc (b.streams tag).sent (frame message) (frames queue);
      same_reads = d.same_reads ∙ ap (λ x. x.reads) seen;
    }

-- First the distributor passes everything on, then the client's writer thread writes everything.
passed_on :
    (tag : ℕ) (messages queue : List (List ℕ)) (b : Bridge)
    → find tag b.clients ≡ some (live queue)
    → b.from_websocket ≡ messages
    → All IsShort (queue ++ messages)
    → All IsTolerated (b.streams tag).writes
    → Drained tag b (queue ++ messages)
passed_on tag [] queue b r f short t =
    subst (Drained tag b) (sym (append-nil queue))
      (written_out tag queue b r f (subst (All IsShort) (append-nil queue) short) t)
passed_on tag (message ∷ messages) queue b r f short t =
    let b' : Bridge = record b {
      clients = broadcast message b.clients;
      from_websocket = messages;
    } in
    let same = append_assoc queue (message ∷ []) messages in
    let d =
      passed_on tag messages (queue ++ message ∷ []) b'
        (find-broadcast tag message b.clients queue r) refl (subst (All IsShort) (sym same) short)
        t in
    record {
      clients = d.clients;
      streams = d.streams;
      shown = inner ∷ d.shown;
      run = next (distributes message messages f) d.run;
      only = λ k. (tt, d.only k);
      empty = d.empty;
      on_stream = d.on_stream ∙ ap (λ x. (b.streams tag).sent ++ frames x) same;
      same_reads = d.same_reads;
    }

-- No state of the proxy is stuck on its way to a client: from any state with a registered client
-- whose stream tolerates writes, the distributor and the client's writer thread alone can take turns
-- until nothing waits for the client, neither in its channel nor at the distributor, and then the
-- frames of all that waited are on its stream, in order. The messages that wait are shorter than
-- 2 ^ 32 bytes.
pub Run-Drained :
    (tag : ℕ) (queue : List (List ℕ)) (b : Bridge)
    → find tag b.clients ≡ some (live queue)
    → All IsShort (queue ++ b.from_websocket)
    → All IsTolerated (b.streams tag).writes
    → Drained tag b (queue ++ b.from_websocket)
Run-Drained tag queue b r short t = passed_on tag b.from_websocket queue b r refl short t
