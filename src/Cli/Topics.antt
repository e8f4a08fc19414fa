-- ===== src/Cli/Topics.antt =====
-- exfiltrate_cli/src/help.rs and help/: the help topics.
use exfiltrate.Common.{List, [], ◌∷◌, ◌++◌, Option, none, some, if◌then◌else◌}
use exfiltrate.Common.Text.{Text, text, text_eq}

pub record HelpTopic : Type 0 where
  pub name : Text
  pub short : Text
  pub full : Text

-- The texts of integration.md and custom_commands.md, which the build includes.
pub record Guides : Type 0 where
  pub integration : Text
  pub custom_commands : Text

abbrev pub Integration : Guides → HelpTopic
Integration g = record {
  name = text "integration";
  short = text "Use this to learn how to integrate exfiltrate into a new project.";
  full = g.integration;
}

abbrev pub CustomCommands : Guides → HelpTopic
CustomCommands g = record {
  name = text "custom_commands";
  short =
      text "Provides information about writing custom commands.  Use this topic to understand "
      ++ text "how to create custom commands.";
  full = g.custom_commands;
}

-- `HELP_TOPICS`
abbrev pub help_topics : Guides → List HelpTopic
help_topics g = Integration g ∷ CustomCommands g ∷ []

-- The lines that `brief_help` prints.
unfoldable pub brief_help : List HelpTopic → Text
brief_help [] = []
brief_help (t ∷ ts) = t.name ++ (text ": " ++ (t.short ++ (b'\n' ∷ brief_help ts)))

unfoldable pub find_topic : List HelpTopic → Text → Option Text
find_topic [] requested_topic = none
find_topic (t ∷ ts) requested_topic =
    let rest = find_topic ts requested_topic in
    if text_eq t.name requested_topic then some (t.name ++ (text " help:\n" ++ t.full)) else rest

unfoldable pub help_topic : Guides → Text → Option Text
help_topic g = find_topic (help_topics g)
