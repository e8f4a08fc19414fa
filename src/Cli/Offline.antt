-- ===== src/Cli/Offline.antt =====
-- The tool without a connection.
use exfiltrate.Common.{List, [], ◌∷◌, Option, none, some, ◌≡◌, refl}
use exfiltrate.Common.Text.{Text}
use exfiltrate.Cli.Session.{Link, offline}
use exfiltrate.Cli.Topics.{help_topic}
use exfiltrate.Cli.Local.{
  Setting, LocalCommand, LocalBody, list, status, help, local_commands, Ran, execute_local,
  execute_list, execute_status, execute_local_help, help_any, help_command, remote_help, find_local,
}
use exfiltrate.Cli.Saving.{World, Disk}
use exfiltrate.Cli.Dispatch.{
  Dispatched, shown, complained, panicked, hanging, of_ran, of_executed, remote, dispatch_found,
  dispatch,
}

-- A result or an error message, with the disk and the connection as they were.
abbrev pub Answers : Dispatched × Disk × Link → Disk → Link → Type 0
Answers (shown t, d', link') d link = (d' ≡ d) × (link' ≡ link)
Answers (complained t, d', link') d link = (d' ≡ d) × (link' ≡ link)
Answers (panicked, d', link') d link = ⊥
Answers (hanging, d', link') d link = ⊥

abbrev AnswersLocally : Ran × Link → Disk → Link → Type 0
AnswersLocally (r, link') d link = Answers (of_ran r, d, link') d link

module _ (s : Setting) (e : Text) (d : Disk) where
  help_command-Answers :
      (found : Option LocalCommand) (args : List Text)
      → AnswersLocally (help_command s found args (offline e)) d (offline e)
  unfolding help_command remote_help of_ran of_executed
  help_command-Answers none args = (refl, refl)
  help_command-Answers (some c) args = (refl, refl)

  help_any-Answers :
      (topic : Option Text) (requested : Text) (args : List Text)
      → AnswersLocally (help_any s topic requested args (offline e)) d (offline e)
  unfolding help_any of_ran of_executed
  help_any-Answers (some t) requested args = (refl, refl)
  help_any-Answers none requested args =
      help_command-Answers (find_local s local_commands requested) args

  execute_local-Answers :
      (body : LocalBody) (args : List Text)
      → AnswersLocally (execute_local s body args (offline e)) d (offline e)
  unfolding execute_local execute_list execute_status execute_local_help of_ran of_executed
  execute_local-Answers list args = (refl, refl)
  execute_local-Answers status args = (refl, refl)
  execute_local-Answers help [] = (refl, refl)
  execute_local-Answers help (requested ∷ more) =
      help_any-Answers (help_topic s.guides requested) requested (requested ∷ more)

  found-Answers :
      (w : World) (found : Option LocalCommand) (name : Text) (args : List Text)
      → Answers (dispatch_found s w found name args (offline e) d) d (offline e)
  unfolding dispatch_found remote
  found-Answers w none name args = (refl, refl)
  found-Answers w (some c) name args = execute_local-Answers c.body args

  -- Without a connection every invocation is answered, with a result or an error message: the tool
  -- neither panics nor waits, and writes nothing to the disk.
  pub dispatch-Answers :
      (w : World) (name : Text) (args : List Text)
      → Answers (dispatch s w name args (offline e) d) d (offline e)
  unfolding dispatch
  dispatch-Answers w name args = found-Answers w (find_local s local_commands name) name args
