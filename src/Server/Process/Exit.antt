-- ===== src/Server/Process/Exit.antt =====
-- The process ends by `terminate` only, and serves until then.
use exfiltrate.Common.{ℕ, List, [], ◌∷◌, ◌++◌, true, none, some}
use exfiltrate.Common.{◌≡◌, refl, ap, ◌∙◌, ◌⊎◌}
use exfiltrate.Rpc.{Codec}
use exfiltrate.Server.{Host}
use exfiltrate.Server.Listener.{Event as Occurrence, turn, run}
use exfiltrate.Server.Process.{
  Process, Event, happens, wakes, turn_ends, while_alive, step, run_process,
}

-- What happens to the listener and its connections.
abbrev pub occurrences : List Event → List Occurrence
occurrences [] = []
occurrences (happens e ∷ es) = e ∷ occurrences es
occurrences (wakes ∷ es) = occurrences es

module _ (codec : Codec) (h : Host) where
  -- Among the events is the turn of a connection in which its thread executes `terminate`.
  pub record AskedToEnd (p : Process) (es : List Event) : Type 0 where
    pub before : List Event
    pub connection : ℕ
    pub after : List Event
    pub split : es ≡ before ++ happens (turn connection) ∷ after
    pub asked :
        turn_ends codec h connection (run_process codec h p before).listener.connections ≡ true

  ended :
      (p : Process) (es : List Event) {status : ℕ}
      → p.exited ≡ some status
      → run_process codec h p es ≡ p
  unfolding run_process step while_alive
  ended p [] e = refl
  ended p (ev ∷ es) e =
      ap (λ t. run_process codec h (while_alive codec h t p ev) es) e ∙ ended p es e

  abbrev pub GoesOn : Process → List Event → Type 0
  GoesOn p es =
      ((run_process codec h p es).exited ≡ none)
      × ((run_process codec h p es).listener ≡ run codec h p.listener (occurrences es))

  -- What has become of the process: `terminate` was asked for before or among the events.
  abbrev Fate : Process → List Event → Type 0
  Fate p es =
      GoesOn p es
      ⊎ (((run_process codec h p es).exited ≡ some 70) × ((p.terminating ≡ true) ⊎ AskedToEnd p es))
