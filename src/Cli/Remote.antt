-- ===== src/Cli/Remote.antt =====
-- What the tool prints for a command of a native program, against the command run in place.
use exfiltrate.Common.{ℕ, List, ◌∷◌, ◌++◌, true, none, ◌≡◌, refl, sym, ap, ◌∙◌}
use exfiltrate.Common.Text.{Text, text}
use exfiltrate.Stream.{Outcome, ok, err, panic}
use exfiltrate.Response.{string}
use exfiltrate.Rpc.{CommandResponse, new_invocation, new_response}
use exfiltrate.Server.{
  Host, Command, Help, Executed, success, failure, do_command, execute_help, reply_to, Connection,
}
use exfiltrate.Server
use exfiltrate.Server.Dispatch.{Unnamed, do_command_first, execute_help_first}
use exfiltrate.Server.Serving.{Exchange, IsServed}
use exfiltrate.Cli.Session.{Session, online}
use exfiltrate.Cli.Topics.{help_topic}
use exfiltrate.Cli.Local.{
  Setting, local_commands, ran, execute_local_help, help_any, help_command, remote_help, help_asked,
  find_local,
}
use exfiltrate.Cli.Saving.{World, Disk}
use exfiltrate.Cli.Dispatch.{Dispatched, hanging, present}
use exfiltrate.Cli.Call.{IsWired, ask_replied}

-- The command run in place: no connection, and its reply is presented. A panic leaves the tool
-- waiting.
abbrev pub in_place : Setting → World → Outcome CommandResponse → Disk → Dispatched × Disk
in_place s w (ok r) d = present s w r d
in_place s w (err e) d = (hanging, d)
in_place s w panic d = (hanging, d)

replied_response : {r r' : CommandResponse} → ok r ≡ ok r' → r ≡ r'
replied_response e = cc

module _ (s : Setting) (h : Host) (session : Session) (c : Connection) (served : ℕ) (x : Exchange)
    (serves : IsServed s.codec h x) (w : IsWired s.codec h session c s.rounds served x) where
  -- `help` of the tool, asked for a name that is neither a topic nor a local command, prints the
  -- full description of the program's first command of that name, where the first command named
  -- `help` in its registry is the built-in one.
  pub execute_local_help_remote :
      (before rest before' rest' : List Command) (cmd : Command) (requested : Text)
      (more : List Text)
      → help_topic s.guides requested ≡ none
      → find_local s local_commands requested ≡ none
      → h.commands ≡ before ++ (Help ∷ rest)
      → Unnamed (text "help") before
      → h.commands ≡ before' ++ (cmd ∷ rest')
      → Unnamed requested before'
      → cmd.name ≡ requested
      → x.invocation ≡ new_invocation (text "help") (requested ∷ more) session.last_reply_id
      → (execute_local_help s (requested ∷ more) (online session)).0
        ≡ ran (success (string cmd.full_description))
  unfolding execute_local_help help_any help_command remote_help new_invocation
  execute_local_help_remote before rest before' rest' cmd requested more topic foreign split unnamed
        split' unnamed' named same =
      let got =
        ask_replied s.codec h session c s.rounds served x serves w (text "help") (requested ∷ more)
          same in
      let answer : x.response
          ≡ new_response true (string cmd.full_description) session.last_reply_id =
        replied_response (
          sym serves.executed
          ∙ ap (do_command s.codec h) same
          ∙ do_command_first s.codec h
              (new_invocation (text "help") (requested ∷ more) session.last_reply_id) before Help
              rest split unnamed refl
          ∙ unfold Server.execute reply_to in
            ap (reply_to s.codec session.last_reply_id) (
              ap (λ t. Server.execute_help t (requested ∷ more)) split'
              ∙ execute_help_first before' cmd rest' requested more unnamed' named)) in
      rw (topic, foreign, got, answer) (unfold help_asked new_response in refl)
