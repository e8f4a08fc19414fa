-- ===== src/Proxy/Tcp/Clients.antt =====
-- The list of clients under every interleaving of clients that join, messages that arrive and
-- clients that leave.
use exfiltrate.Common.{ℕ, List, [], ◌∷◌, ◌++◌, true, ◌==◌, Option, none, some, if◌then◌else◌}
use exfiltrate.Common.{arith, ◌≡◌, ◌≢◌, refl, All, append_assoc, append-nil, Bool-cases, inl, inr}
use exfiltrate.Proxy.Tcp.{
  Channel, send, Client, broadcast, register, hang_up, Event, joined, received, left, handle, run,
}

-- The channel of the first client with a tag.
unfoldable pub find : ℕ → List Client → Option Channel
find tag [] = none
find tag (c ∷ cs) = if c.tag == tag then some c.channel else find tag cs

-- The messages among the events.
abbrev pub messages : List Event → List (List ℕ)
messages [] = []
messages (received msg ∷ es) = msg ∷ messages es
messages (joined t ∷ es) = messages es
messages (left t ∷ es) = messages es

-- The client with the tag does not leave.
abbrev pub Stays : ℕ → List Event → Type 0
Stays tag [] = Unit
Stays tag (left t ∷ es) = (t ≢ tag) × Stays tag es
Stays tag (joined t ∷ es) = Stays tag es
Stays tag (received msg ∷ es) = Stays tag es

abbrev pub live : List (List ℕ) → Channel
live queue = record { queue = queue; connected = true }

pub find-broadcast :
    (tag : ℕ) (msg : List ℕ) (cs : List Client) (queue : List (List ℕ))
    → find tag cs ≡ some (live queue)
    → find tag (broadcast msg cs) ≡ some (live (queue ++ msg ∷ []))
unfolding find broadcast send
find-broadcast tag msg [] queue h = cc
find-broadcast tag msg (c ∷ cs) queue h = ground (arith, find-broadcast tag msg cs queue)

pub find-register :
    (tag t : ℕ) (cs : List Client) (c : Channel)
    → find tag cs ≡ some c
    → find tag (register t cs) ≡ some c
unfolding find register
find-register tag t [] c h = cc
find-register tag t (x ∷ cs) c h = ground (arith, find-register tag t cs c)

find-register_new :
    (tag : ℕ) (cs : List Client) → find tag cs ≡ none → find tag (register tag cs) ≡ some (live [])
unfolding find register
find-register_new tag [] h = ground arith
find-register_new tag (x ∷ cs) h = ground (arith, find-register_new tag cs)

pub find-hang_up :
    (tag t : ℕ) (cs : List Client) (c : Channel)
    → t ≢ tag
    → find tag cs ≡ some c
    → find tag (hang_up t cs) ≡ some c
unfolding find hang_up
find-hang_up tag t [] c ne h = cc
find-hang_up tag t (x ∷ cs) c ne h = ground (arith, find-hang_up tag t cs c ne)

find-run :
    (tag : ℕ) (es : List Event) (cs : List Client) (queue : List (List ℕ))
    → find tag cs ≡ some (live queue)
    → Stays tag es
    → find tag (run cs es) ≡ some (live (queue ++ messages es))
unfolding run handle
find-run tag [] cs queue h stays = rw append-nil h
find-run tag (joined t ∷ es) cs queue h stays =
    find-run tag es (register t cs) queue (find-register tag t cs _ h) stays
find-run tag (received msg ∷ es) cs queue h stays =
    rw (← append_assoc queue (msg ∷ []) (messages es)) (
      find-run tag es (broadcast msg cs) (queue ++ msg ∷ []) (find-broadcast tag msg cs queue h)
        stays)
find-run tag (left t ∷ es) cs queue h stays =
    find-run tag es (hang_up t cs) queue (find-hang_up tag t cs _ stays.0 h) stays.1

-- From the moment a client is registered until it leaves, its queue holds exactly the messages
-- that the distributor has received since, in order, whoever else joins or leaves in between.
run-register :
    (tag : ℕ) (cs : List Client) (es : List Event)
    → find tag cs ≡ none
    → Stays tag es
    → find tag (run (register tag cs) es) ≡ some (live (messages es))
run-register tag cs es fresh stays =
    find-run tag es (register tag cs) [] (find-register_new tag cs fresh) stays

abbrev pub IsLive : Client → Type 0
IsLive c = c.channel.connected ≡ true

-- A broadcast leaves no client whose receiver is gone.
pub broadcast-IsLive : (msg : List ℕ) (cs : List Client) → All IsLive (broadcast msg cs)
unfolding broadcast send
broadcast-IsLive msg [] = tt
broadcast-IsLive msg (c ∷ cs) = elim (Bool-cases c.channel.connected) [
  | inl e ↦ rw e (refl, broadcast-IsLive msg cs)
  | inr e ↦ rw e (broadcast-IsLive msg cs)
]
