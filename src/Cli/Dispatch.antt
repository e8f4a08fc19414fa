-- ===== src/Cli/Dispatch.antt =====
-- exfiltrate_cli/src/main.rs: `main` and `dispatch`.
use exfiltrate.Common.{ℕ, List, [], ◌∷◌, ◌++◌, ◌||◌, Bool, false, Option, none, some, if◌then◌else◌}
use exfiltrate.Common.Text.{Text, text, text_eq}
use exfiltrate.Response.{Response, string, bytes, files, images, display}
use exfiltrate.Rpc.{CommandResponse}
use exfiltrate.Server.{Executed, success, failure, crash}
use exfiltrate.Cli.Session.{
  Link, offline, online, Asked, unsent, unread, replied, died, waiting, ask,
}
use exfiltrate.Cli.Topics.{help_topics, brief_help}
use exfiltrate.Cli.Local.{
  Setting, LocalCommand, local_commands, Ran, ran, stalled, execute_local, execute_list, find_local,
}
use exfiltrate.Cli.Saving.{
  World, Disk, Saved, saved, not_saved, save_panic, save_files, save_images,
}

-- `Result<String, String>`, or a panic, or a wait for a reply.
pub data Dispatched : Type 0 where
  shown complained : Text → Dispatched
  panicked hanging : Dispatched

pub data Exit : Type 0 where
  exits : (status : ℕ) → (stdout stderr : Text) → Exit
  aborted hangs : Exit

-- The result of a local command.
unfoldable pub of_executed : Executed → Dispatched
of_executed (success r) = shown (display r)
of_executed (failure r) = complained (display r)
of_executed crash = panicked

unfoldable pub of_ran : Ran → Dispatched
of_ran (ran e) = of_executed e
of_ran stalled = hanging

unfoldable pub of_saved : Saved × Disk → Dispatched × Disk
of_saved (saved output, d) = (shown output, d)
of_saved (not_saved e, d) = (complained e, d)
of_saved (save_panic, d) = (panicked, d)

-- `args[0] == "help" && args.len() == 1`
unfoldable pub lone_help : Text → List Text → Bool
lone_help t [] = text_eq t (text "help")
lone_help t (a ∷ more) = false

module _ (s : Setting) (w : World) where
  -- A text is printed, files and images are saved; other data is `todo!()`.
  unfoldable pub present_response : Response → Disk → Dispatched × Disk
  present_response (string t) d = (shown t, d)
  present_response (files fs) d = of_saved (save_files w fs d)
  present_response (images is) d = of_saved (save_images w is d)
  present_response (bytes bs) d = (panicked, d)

  unfoldable pub present : CommandResponse → Disk → Dispatched × Disk
  present r d =
      if r.success then present_response r.response d else (complained (display r.response), d)

  unfoldable pub present_asked : Asked → Disk → Dispatched × Disk
  present_asked (unsent e) d = (complained (s.io_text e), d)
  present_asked (unread e) d = (complained (s.io_text e), d)
  present_asked (replied r) d = present r d
  present_asked died d = (panicked, d)
  present_asked waiting d = (hanging, d)

  -- A command that is not local.
  unfoldable pub remote : Text → List Text → Link → Disk → Dispatched × Disk × Link
  remote name args (offline e) d = (complained e, d, offline e)
  remote name args (online session) d =
      let (asked, session') = ask s.codec s.rounds session name args in
      let (r, d') = present_asked asked d in (r, d', online session')

  unfoldable pub dispatch_found :
      Option LocalCommand → Text → List Text → Link → Disk → Dispatched × Disk × Link
  dispatch_found (some c) name args link d =
      let (r, link') = execute_local s c.body args link in (of_ran r, d, link')
  dispatch_found none name args link d = remote name args link d

  -- `dispatch`, on the first argument and the others.
  unfoldable pub dispatch : Text → List Text → Link → Disk → Dispatched × Disk × Link
  dispatch name args link d = dispatch_found (find_local s local_commands name) name args link d

  -- `help` of main.rs, on stderr; `list` panics at `unwrap` where the command `list` fails.
  unfoldable pub usage : Text → Text
  usage list =
      text "A tool to debug running Rust programs\n\n"
      ++ (text "Usage: exfiltrate [COMMAND] [OPTIONS]\n"
          ++ (text "Help: exfiltrate help\n"
              ++ (text "Command-specific help: exfiltrate help [COMMAND]\n\n"
                  ++ (text "Commands:\n"
                      ++ (list
                          ++ (text "\nAdditional help topics: "
                              ++ (text "(use exfiltrate [TOPIC] to display the topic)\n"
                                  ++ brief_help (help_topics s.guides))))))))

  unfoldable pub show_help : Ran × Link → Exit × Link
  show_help (ran (success list), link) = (exits 0 [] (usage (display list)), link)
  show_help (ran (failure e), link) = (aborted, link)
  show_help (ran crash, link) = (aborted, link)
  show_help (stalled, link) = (hangs, link)

  unfoldable pub finish : Dispatched → Exit
  finish (shown t) = exits 0 (t ++ text "\n") []
  finish (complained t) = exits 1 [] (t ++ text "\n")
  finish panicked = aborted
  finish hanging = hangs

  -- `main`: `-h`, `--help`, a lone `help` and no argument at all ask for the overview.
  unfoldable pub main : List Text → Link → Disk → Exit × Disk × Link
  main [] link d = let (e, link') = show_help (execute_list s link) in (e, d, link')
  main (name ∷ args) link d =
      let overview = show_help (execute_list s link) in
      let (r, d', link') = dispatch name args link d in
      if text_eq name (text "-h") || (text_eq name (text "--help") || lone_help name args)
      then (overview.0, d, overview.1)
      else (finish r, d', link')
