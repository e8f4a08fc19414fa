-- ===== src/Cli/Local.antt =====
-- exfiltrate_cli/src/local_commands.rs and local_commands/: the commands of the tool itself.
use exfiltrate.Common.{ℕ, List, [], ◌∷◌, ◌++◌, Bool, false, ◌||◌, Option, none, some}
use exfiltrate.Common.{if◌then◌else◌}
use exfiltrate.Common.Text.{Text, text, text_eq}
use exfiltrate.Stream.{IoError}
use exfiltrate.Response.{Response, string, bytes, display}
use exfiltrate.Rpc.{Codec, Decoded, decoded, malformed, CommandResponse, ListItem}
use exfiltrate.Server.{Executed, success, failure, crash}
use exfiltrate.Cli.Descriptions.{
  help_short, help_full, list_short, list_full, status_short, status_full,
}
use exfiltrate.Cli.Session.{
  Link, offline, online, Asked, unsent, unread, replied, died, waiting, ask,
}
use exfiltrate.Cli.Topics.{Guides, help_topic}

-- What the code takes from outside: the codec, the guides, the texts of I/O errors, and the bound
-- on the rounds of a `pop_msg`.
pub record Setting : Type 0 where
  pub codec : Codec
  pub guides : Guides
  pub io_text : IoError → Text
  pub rounds : ℕ

pub data LocalBody : Type 0 where
  list status help : LocalBody

pub record LocalCommand : Type 0 where
  pub name : Text
  pub short_description : Text
  pub full_description : Text
  pub body : LocalBody

-- `COMMANDS`
abbrev pub local_commands : List LocalCommand
local_commands =
    record {
      name = text "list";
      short_description = list_short;
      full_description = list_full;
      body = LocalBody.list;
    }
    ∷ record {
      name = text "status";
      short_description = status_short;
      full_description = status_full;
      body = LocalBody.status;
    }
    ∷ record {
      name = text "help";
      short_description = help_short;
      full_description = help_full;
      body = LocalBody.help;
    }
    ∷ []

-- A command has returned or panicked, or it waits for a reply.
pub data Ran : Type 0 where
  ran : Executed → Ran
  stalled : Ran

-- One line of `list`.
unfoldable pub line_of : Text → Text → Text
line_of name short_description = name ++ (text ": " ++ (short_description ++ text "\n"))

unfoldable pub local_lines : List LocalCommand → Text
local_lines [] = []
local_lines (c ∷ cs) = line_of c.name c.short_description ++ local_lines cs

-- `seen_commands.contains(name)`
unfoldable pub seen : List LocalCommand → Text → Bool
seen [] name = false
seen (c ∷ cs) name = text_eq c.name name || seen cs name

-- The lines of the remote commands that no local one overrides.
unfoldable pub remote_lines : List LocalCommand → List ListItem → Text
remote_lines cs [] = []
remote_lines cs (item ∷ items) =
    let rest = remote_lines cs items in
    if seen cs item.name then rest else line_of item.name item.short_description ++ rest

-- The bytes of a reply to `list`.
unfoldable pub merge_items : Decoded (List ListItem) → Executed
merge_items (malformed e) = failure (string e)
merge_items (decoded items) =
    success (string (local_lines local_commands ++ remote_lines local_commands items))

module _ (s : Setting) where
  unfoldable pub list_response : Response → Executed
  list_response (bytes bs) = merge_items (s.codec.items_from_slice bs)
  list_response _ = failure (string (text "Expected Bytes response from list command"))

  unfoldable pub list_reply : CommandResponse → Executed
  list_reply msg =
      if msg.success then list_response msg.response else failure (string (display msg.response))

  -- A failed sending panics at `unwrap`.
  unfoldable pub list_asked : Asked → Ran
  list_asked (unsent e) = ran crash
  list_asked (unread e) = ran (failure (string (s.io_text e)))
  list_asked (replied msg) = ran (list_reply msg)
  list_asked died = ran crash
  list_asked waiting = stalled

  unfoldable pub execute_list : Link → Ran × Link
  execute_list (online session) =
      let (asked, session') = ask s.codec s.rounds session (text "list") [] in
      (list_asked asked, online session')
  execute_list (offline error) = (
    ran (
        success (
          string (
            local_lines local_commands
            ++ (text "\nNot connected to remote application so remote commands are not available: "
                ++ (error ++ text "\n"))))),
    offline error,
  )

  unfoldable pub execute_status : Link → Executed
  execute_status (online session) = success (string (text "Status: connected"))
  execute_status (offline e) = success (string (text "Status: failed (" ++ (e ++ text ")")))

  unfoldable pub find_local : List LocalCommand → Text → Option LocalCommand
  find_local [] name = none
  find_local (c ∷ cs) name =
      let rest = find_local cs name in if text_eq c.name name then some c else rest

  -- The reply to a remote `help` is returned whether it is a success or not.
  unfoldable pub help_asked : Asked → Ran
  help_asked (unsent e) = ran (failure (string (s.io_text e)))
  help_asked (unread e) = ran (failure (string (s.io_text e)))
  help_asked (replied r) = ran (success r.response)
  help_asked died = ran crash
  help_asked waiting = stalled

  unfoldable pub remote_help : List Text → Link → Ran × Link
  remote_help args (offline e) =
      (ran (failure (string (text "Can't connect to application: " ++ e))), offline e)
  remote_help args (online session) =
      let (asked, session') = ask s.codec s.rounds session (text "help") args in
      (help_asked asked, online session')

  unfoldable pub help_command : Option LocalCommand → List Text → Link → Ran × Link
  help_command (some c) args link = (ran (success (string c.full_description)), link)
  help_command none args link = remote_help args link

  -- A topic, a local command, a remote command.
  unfoldable pub help_any : Option Text → Text → List Text → Link → Ran × Link
  help_any (some topic) requested args link = (ran (success (string topic)), link)
  help_any none requested args link = help_command (find_local local_commands requested) args link

  unfoldable pub execute_local_help : List Text → Link → Ran × Link
  execute_local_help [] link = (ran (failure (string (text "No command provided"))), link)
  execute_local_help (requested ∷ more) link =
      help_any (help_topic s.guides requested) requested (requested ∷ more) link

  unfoldable pub execute_local : LocalBody → List Text → Link → Ran × Link
  unfolding execute_list execute_status execute_local_help
  execute_local list args link = execute_list link
  execute_local status args link = (ran (execute_status link), link)
  execute_local help args link = execute_local_help args link
