-- ===== src/Browser/Page/Tests.antt =====
-- A first socket that fails, a second one that opens, and a `Reconnect` that comes too late.
use exfiltrate.Common.{true, false, none, List, [], ◌∷◌}
use exfiltrate.Common.{◌≡◌, ◌≢◌, refl}
use exfiltrate.Browser.{new_one_shot, send_if_needed}
use exfiltrate.Browser.Page.{
  Page, idle, connected, cannot_connect, new_page, create_web_socket, onopen, onerror, onclose,
  resume, Label, quiet, answered, ignores, creates, opens, fails, closes, resumes, Run, here, next,
}
use exfiltrate.Browser.Page.Lifetime.{IsSound, Accepts, WillTry, Run-new_page, Run-IsSound}
use exfiltrate.Browser.Page.Settled.{Run-Settled}

abbrev asked_again : Page
asked_again =
    onclose 0
      (resume cannot_connect 0 (onerror 0 (create_web_socket true (record new_page { inbox = 0 }))))

abbrev failed_once : List Label
failed_once = quiet ∷ quiet ∷ answered false ∷ quiet ∷ []

run_failing : Run new_page failed_once asked_again
unfolding new_page create_web_socket onerror onclose resume new_one_shot send_if_needed
run_failing =
    next (creates 0 refl refl refl)
      (next (fails 0 refl) (next (resumes 0 cannot_connect refl refl) (next (closes 0 refl) here)))

abbrev settled : Page
settled = resume connected 1 (onopen 1 (create_web_socket true (record asked_again { inbox = 0 })))

run_opening : Run asked_again (quiet ∷ quiet ∷ answered true ∷ []) settled
unfolding new_page create_web_socket onerror onclose onopen resume new_one_shot send_if_needed
run_opening =
    next (creates 0 refl refl refl)
      (next (opens 1 refl) (next (resumes 1 connected refl refl) here))

abbrev closed : Page
closed = record (onclose 1 settled) { inbox = 0 }

run_closing : Run settled (quiet ∷ answered false ∷ []) closed
unfolding new_page create_web_socket onerror onclose onopen resume new_one_shot send_if_needed
run_closing = next (closes 1 refl) (next (ignores 1 0 refl refl refl) here)

Run-new_page_example :
    IsSound asked_again
    × (Accepts failed_once → WillTry asked_again.socket asked_again.inbox asked_again.unclosed)
Run-new_page_example = Run-new_page run_failing

settled-IsSound : IsSound settled
settled-IsSound = Run-IsSound run_opening (Run-new_page run_failing).0

Run-Settled_example :
    (closed.worker ≡ idle) × (closed.socket ≢ none) × (closed.attempts ≡ settled.attempts)
Run-Settled_example =
    Run-Settled {k = 1} run_closing settled-IsSound (unfold resume in refl) (unfold resume in refl)
