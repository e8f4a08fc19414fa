-- ===== src/Proxy/Bridge/Carrying.antt =====
-- Runs in which messages of one client and of one browser are carried, and nothing else is to be seen.
use exfiltrate.Common.{ℕ, List, [], ◌∷◌, ◌++◌, All, ◌==◌, if◌then◌else◌}
use exfiltrate.Common.{arith, ◌≡◌, refl, ap, ◌∙◌}
use exfiltrate.Proxy.Bridge.{
  Bridge, Label, heard, forwarded, came, gone, broke, connected, halted, inner, Run, here, next,
}
use exfiltrate.Proxy.Bridge.Rounds.{forwarded_by}
use exfiltrate.Proxy.Bridge.Serving.{Serves}
use exfiltrate.Proxy.Bridge.Up.{forwarded_messages, Lasts}
use exfiltrate.Proxy.Bridge.Down.{heard_messages, Remains}
use exfiltrate.Proxy.Bridge.Heard.{heard_by}
use exfiltrate.Proxy.Bridge.Flush.{IsForwarding}
use exfiltrate.Proxy.Bridge.Drain.{IsHearing}

-- One run behind the other.
pub Run-trans :
    {b b' b'' : Bridge} {ls ms : List Label} → Run b ls b' → Run b' ms b'' → Run b (ls ++ ms) b''
Run-trans here later = later
Run-trans (next st run) later = next st (Run-trans run later)

-- Nothing breaks or panics, the client stays, and no other client or browser takes part.
pub record IsCalm (tag k : ℕ) (ls : List Label) : Type 0 where
  pub serves : Serves ls
  pub lasts : Lasts ls
  pub stays : Remains tag ls
  pub one_client : forwarded_messages ls ≡ forwarded_by tag ls
  pub one_browser : heard_messages ls ≡ heard_by k ls

forwarded_first :
    (tag t : ℕ) (msg : List ℕ) (rest rest' : List (List ℕ))
    → t ≡ tag
    → rest ≡ rest'
    → msg ∷ rest ≡ (if t == tag then msg ∷ rest' else rest')
forwarded_first tag t msg rest rest' own e = ap (λ r. msg ∷ r) e ∙ ground (arith, own)

nothing_shown : (tag k : ℕ) → IsCalm tag k []
nothing_shown tag k = record {
  serves = tt;
  lasts = tt;
  stays = tt;
  one_client = refl;
  one_browser = refl;
}

step_unseen : {tag k : ℕ} {ls : List Label} → IsCalm tag k ls → IsCalm tag k (inner ∷ ls)
step_unseen c = record {
  serves = c.serves;
  lasts = c.lasts;
  stays = c.stays;
  one_client = c.one_client;
  one_browser = c.one_browser;
}

hearing-IsCalm : (tag k : ℕ) (ls : List Label) → All (IsHearing k) ls → IsCalm tag k ls
hearing-IsCalm tag k [] hs = nothing_shown tag k
hearing-IsCalm tag k (heard j msg ∷ ls) hs =
    let c = hearing-IsCalm tag k ls hs.1 in
    record {
      serves = c.serves;
      lasts = c.lasts;
      stays = c.stays;
      one_client = c.one_client;
      one_browser = forwarded_first k j msg _ _ hs.0 c.one_browser;
    }
hearing-IsCalm tag k (inner ∷ ls) hs = step_unseen (hearing-IsCalm tag k ls hs.1)
hearing-IsCalm tag k (forwarded t msg ∷ ls) hs = absurd hs.0
hearing-IsCalm tag k (came t ∷ ls) hs = absurd hs.0
hearing-IsCalm tag k (gone t ∷ ls) hs = absurd hs.0
hearing-IsCalm tag k (broke ∷ ls) hs = absurd hs.0
hearing-IsCalm tag k (connected ∷ ls) hs = absurd hs.0
hearing-IsCalm tag k (halted ∷ ls) hs = absurd hs.0

-- First the client's messages are forwarded, then the browser's are heard.
pub carrying-IsCalm :
    (tag k : ℕ) (ls ms : List Label)
    → All (IsForwarding tag) ls
    → All (IsHearing k) ms
    → IsCalm tag k (ls ++ ms)
carrying-IsCalm tag k [] ms fs hs = hearing-IsCalm tag k ms hs
carrying-IsCalm tag k (forwarded t msg ∷ ls) ms fs hs =
    let c = carrying-IsCalm tag k ls ms fs.1 hs in
    record {
      serves = c.serves;
      lasts = c.lasts;
      stays = c.stays;
      one_client = forwarded_first tag t msg _ _ fs.0 c.one_client;
      one_browser = c.one_browser;
    }
carrying-IsCalm tag k (inner ∷ ls) ms fs hs = step_unseen (carrying-IsCalm tag k ls ms fs.1 hs)
carrying-IsCalm tag k (heard j msg ∷ ls) ms fs hs = absurd fs.0
carrying-IsCalm tag k (came t ∷ ls) ms fs hs = absurd fs.0
carrying-IsCalm tag k (gone t ∷ ls) ms fs hs = absurd fs.0
carrying-IsCalm tag k (broke ∷ ls) ms fs hs = absurd fs.0
carrying-IsCalm tag k (connected ∷ ls) ms fs hs = absurd fs.0
carrying-IsCalm tag k (halted ∷ ls) ms fs hs = absurd fs.0
