-- ===== src/Server/Dispatch.antt =====
-- Which command answers an invocation, and what the built-in commands answer.
use exfiltrate.Common.{
  List, [], ◌∷◌, ◌++◌, true, false, arith, ◌≡◌, ◌≢◌, refl, sym, ap, append-nil, ◌∙◌, All,
  Bool-cases, inl, inr,
}
use exfiltrate.Common.Text.{Text, text, text_eq, text_eq-eq, text_eq_refl}
use exfiltrate.Stream.{ok}
use exfiltrate.Response.{string}
use exfiltrate.Rpc.{Codec, CommandInvocation, CommandResponse, new_response}
use exfiltrate.Server.{
  Host, Command, Executed, success, failure, crash, execute, execute_help, reply_to,
  find_and_execute, do_command,
}

-- No command of the list has the name.
abbrev pub Unnamed : Text → List Command → Type 0
Unnamed name cs = All (λ c. c.name ≢ name) cs

text_eq_ne : (s t : Text) → s ≢ t → text_eq s t ≡ false
text_eq_ne s t ne = elim (Bool-cases (text_eq s t)) [
  | inl e ↦ absurd (ne (text_eq-eq s t e))
  | inr e ↦ e
]

module _ (codec : Codec) (h : Host) (c : CommandInvocation) where
  skip-Unnamed :
      (before rest : List Command)
      → Unnamed c.name before
      → find_and_execute codec h (before ++ rest) c ≡ find_and_execute codec h rest c
  unfolding find_and_execute
  skip-Unnamed [] rest u = refl
  skip-Unnamed (x ∷ before) rest u =
      rw (text_eq_ne x.name c.name u.0) (skip-Unnamed before rest u.1)

  found :
      (matcher : Command) (rest : List Command)
      → text_eq matcher.name c.name ≡ true
      → find_and_execute codec h (matcher ∷ rest) c
        ≡ reply_to codec c.reply_id (execute codec h matcher.body c.args)
  unfolding find_and_execute
  found matcher rest e = rw e

  -- The first command of the registry with the name is executed, with the arguments of the
  -- invocation; what stands behind it is not asked. Its result or its error is the reply, under the
  -- invocation's id, and a panic of the command is one of `do_command`.
  pub do_command_first :
      (before : List Command) (matcher : Command) (rest : List Command)
      → h.commands ≡ before ++ (matcher ∷ rest)
      → Unnamed c.name before
      → matcher.name ≡ c.name
      → do_command codec h c ≡ reply_to codec c.reply_id (execute codec h matcher.body c.args)
  unfolding do_command
  do_command_first before matcher rest split u named =
      ap (λ cs. find_and_execute codec h cs c) split
      ∙ skip-Unnamed before (matcher ∷ rest) u
      ∙ found matcher rest (ap (λ t. text_eq t c.name) named ∙ text_eq_refl c.name)

  -- An invocation that no command answers to gets a failure that names it, under its id.
  pub do_command_not_found :
      Unnamed c.name h.commands
      → do_command codec h c
        ≡ ok (new_response false (string (text "command not found: " ++ c.name)) c.reply_id)
  unfolding do_command
  do_command_not_found u =
      ap (λ cs. find_and_execute codec h cs c) (sym (append-nil h.commands))
      ∙ skip-Unnamed h.commands [] u
      ∙ unfold find_and_execute in refl

module _ (codec : Codec) (h : Host) (c : CommandInvocation) (r : CommandResponse) where
  reply_to_id :
      (x : Executed)
      → reply_to codec c.reply_id x ≡ ok r
      → (r.reply_id ≡ c.reply_id) × (r.num_attachments ≡ 0)
  unfolding reply_to new_response
  reply_to_id (success x) p = ground arith
  reply_to_id (failure x) p = ground arith
  reply_to_id crash p = ground arith

  find_and_execute_id :
      (cs : List Command)
      → find_and_execute codec h cs c ≡ ok r
      → (r.reply_id ≡ c.reply_id) × (r.num_attachments ≡ 0)
  unfolding find_and_execute
  find_and_execute_id [] p = ground arith
  find_and_execute_id (m ∷ cs) p = elim (Bool-cases (text_eq m.name c.name)) [
    | inl e ↦ reply_to_id (execute codec h m.body c.args) (rw e at p)
    | inr e ↦ find_and_execute_id cs (rw e at p)
  ]

  -- Every reply of `do_command` carries the id of its invocation and announces no attachments.
  pub do_command_id :
      do_command codec h c ≡ ok r → (r.reply_id ≡ c.reply_id) × (r.num_attachments ≡ 0)
  unfolding do_command
  do_command_id e = find_and_execute_id h.commands e

-- The remote `help` answers an argument with the full description of the first command of that
-- name, whatever stands behind it.
pub execute_help_first :
    (before : List Command) (c : Command) (rest : List Command) (arg : Text) (args : List Text)
    → Unnamed arg before
    → c.name ≡ arg
    → execute_help (before ++ (c ∷ rest)) (arg ∷ args) ≡ success (string c.full_description)
unfolding execute_help
execute_help_first [] c rest arg args u e = rw (ap (λ t. text_eq t arg) e ∙ text_eq_refl arg)
execute_help_first (x ∷ before) c rest arg args u e =
    rw (text_eq_ne x.name arg u.0) (execute_help_first before c rest arg args u.1 e)
