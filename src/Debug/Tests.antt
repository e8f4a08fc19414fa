-- ===== src/Debug/Tests.antt =====
-- The example's commands in its registry.
use exfiltrate.Common.{[], ◌∷◌, List, true, false, ◌≡◌, refl}
use exfiltrate.Common.Text.{Text, text}
use exfiltrate.Server.{Command, begin, add_command, register_commands}
use exfiltrate.Debug.{main}

abbrev names : List Command → List Text
names [] = []
names (c ∷ cs) = c.name ∷ names cs

registered :
    names (main false true (record { commands = []; logs = [] })).commands
    ≡ text "help"
      ∷ text "list"
      ∷ text "hello_world"
      ∷ text "image_gen"
      ∷ text "multi_image_gen"
      ∷ text "multi_file_gen"
      ∷ []
unfolding main begin register_commands add_command
registered = refl
