-- ===== src/Proxy/Bridge/Gather.antt =====
-- What a browser sends can always be brought to a client.
use exfiltrate.Common.{ℕ, suc, List, [], ◌∷◌, ◌++◌, some, true, All}
use exfiltrate.Common.{arith, ◌≡◌, refl, sym, ap, subst, ◌∙◌, append_assoc, append-nil}
use exfiltrate.Common.Table.{update, update_self}
use exfiltrate.Wire.Framing.{frames}
use exfiltrate.Wire.Writing.{IsTolerated}
use exfiltrate.Proxy.Tcp.{Client}
use exfiltrate.Proxy.Tcp.Clients.{find, live}
use exfiltrate.Stream.{TcpStream}
use exfiltrate.Proxy.Socket.{Websocket}
use exfiltrate.Proxy.Socket.Delivery.{Delivers, work_left}
use exfiltrate.Proxy.Socket.Arrivals.{returns_in_time}
use exfiltrate.Proxy.Bridge.{Bridge, Label, heard, reads, Run, next}
use exfiltrate.Proxy.Bridge.Drain.{IsShort, IsHearing, drained, Drained, Run-Drained}

-- Steps that lead to a state in which nothing waits for the client, the browser's stream is read to
-- its end and `messages` are on the client's stream behind what was there; of all else, only the
-- channels and streams of clients have changed, and nothing was read from them.
pub record Gathered (tag k : ℕ) (b : Bridge) (messages : List (List ℕ)) : Type 0 where
  pub clients : List Client
  pub streams : ℕ → TcpStream
  pub browsers : ℕ → Websocket
  pub shown : List Label
  pub run : Run b shown (record (drained b clients streams) { browsers = browsers })
  pub only : All (IsHearing k) shown
  pub empty : find tag clients ≡ some (live [])
  pub on_stream : (streams tag).sent ≡ (b.streams tag).sent ++ frames messages
  pub same_reads : (streams tag).reads ≡ (b.streams tag).reads
  pub all_read : Delivers (browsers k) []

-- Where the browser's stream is at its end.
nothing_heard :
    {b : Bridge} {messages : List (List ℕ)} (tag k : ℕ)
    → Delivers (b.browsers k) []
    → Drained tag b messages
    → Gathered tag k b messages
nothing_heard {b} tag k over d = record {
  clients = d.clients;
  streams = d.streams;
  browsers = b.browsers;
  shown = d.shown;
  run = d.run;
  only = d.only k;
  empty = d.empty;
  on_stream = d.on_stream;
  same_reads = d.same_reads;
  all_read = over;
}

-- No state of the proxy is stuck on the way from a browser to a client: from any state with a
-- registered client whose stream tolerates writes and a browser whose stream delivers `messages` and
-- is read, the thread that reads the browser, the distributor and the client's writer thread alone
-- can take turns until nothing waits for the client and the browser's stream is read to its end,
-- and then the frames of what was in its channel,
-- of what was at the distributor and of all those messages are on its stream, in this order. All of
-- them are shorter than 2 ^ 32 bytes.
pub Run-Gathered :
    (tag k : ℕ) (queue messages : List (List ℕ)) (b : Bridge)
    → find tag b.clients ≡ some (live queue)
    → b.listening k ≡ true
    → Delivers (b.browsers k) messages
    → All IsShort (queue ++ (b.from_websocket ++ messages))
    → All IsTolerated (b.streams tag).writes
    → Gathered tag k b (queue ++ (b.from_websocket ++ messages))
Run-Gathered tag k queue [] b r on d short t =
    let same = append-nil b.from_websocket in
    subst (λ ms. Gathered tag k b (queue ++ ms)) (sym same)
      (nothing_heard tag k d
        (Run-Drained tag queue b r (subst (λ ms. All IsShort (queue ++ ms)) same short) t))
Run-Gathered tag k queue (message ∷ messages) b r on d short t =
    let (w, e, left) =
      returns_in_time (suc (work_left (b.browsers k))) (b.browsers k) message messages d
        (omega arith) in
    let b' : Bridge = record b {
      browsers = update b.browsers k w;
      from_websocket = b.from_websocket ++ message ∷ [];
    } in
    let same = append_assoc b.from_websocket (message ∷ []) messages in
    let rest =
      Run-Gathered tag k queue messages b' r on
        (subst (λ x. Delivers x messages) (sym (update_self b.browsers k w)) left)
        (subst (λ ms. All IsShort (queue ++ ms)) (sym same) short) t in
    record {
      clients = rest.clients;
      streams = rest.streams;
      browsers = rest.browsers;
      shown = heard k message ∷ rest.shown;
      run = next (reads k (suc (work_left (b.browsers k))) on e) rest.run;
      only = (refl, rest.only);
      empty = rest.empty;
      on_stream = rest.on_stream ∙ ap (λ ms. (b.streams tag).sent ++ frames (queue ++ ms)) same;
      same_reads = rest.same_reads;
      all_read = rest.all_read;
    }
