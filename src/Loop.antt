-- ===== src/Loop.antt =====
-- Threads that run a `loop { .. }`: the model runs a number of rounds, or until the thread ends.
use exfiltrate.Common.{ℕ, zero, suc, ◌≡◌, ap}

pub data Thread : Type 0 where
  running returned crashed : Thread

module _ {ℓ} {S : Type ℓ} where
  -- The next round, if the thread goes on.
  unfoldable pub go_on : (S → Thread × S) → Thread × S → Thread × S
  go_on next (running, s) = next s
  go_on next (returned, s) = (returned, s)
  go_on next (crashed, s) = (crashed, s)

  unfoldable pub loop : (S → Thread × S) → ℕ → S → Thread × S
  unfolding go_on
  loop round zero s = (running, s)
  loop round (suc rounds) s = go_on (loop round rounds) (round s)

  pub loop_step :
      (round : S → Thread × S) (rounds : ℕ) (s : S) {s' : S}
      → round s ≡ (running, s')
      → loop round (suc rounds) s ≡ loop round rounds s'
  unfolding loop
  loop_step round rounds s p = ap (go_on (loop round rounds)) p
