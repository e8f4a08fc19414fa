-- ===== src/Cli/Descriptions.antt =====
-- The descriptions of the CLI's commands, from exfiltrate_cli/src/local_commands/.
use exfiltrate.Common.{◌++◌}
use exfiltrate.Common.Text.{Text, text}

-- `short_description` of `help`.
unfoldable pub help_short : Text
help_short =
    text "Provides detailed help for a command or help topic.  Use this to learn how to "
    ++ text "use a command or display a help topic."

-- `full_description` of `help`.
unfoldable pub help_full : Text
help_full =
    text "Provides detailed help for a command or help topic.\nUsage: exfiltrate help [C"
    ++ text "OMMAND] (or topic)"

-- `short_description` of `list`.
unfoldable pub list_short : Text
list_short =
    text "List the currently available commands.  Use this command to list currently ava"
    ++ (text "ilable commands, which change depending on whether or not the debugged program"
        ++ text " is currently running.")

-- `full_description` of `list`.
unfoldable pub list_full : Text
list_full =
    text "List all available commands.\n\nThis CLI program debugs a remote application. "
    ++ (text " Some commands are only available when the remote application is running.\n   "
        ++ text "     ")

-- `short_description` of `status`.
unfoldable pub status_short : Text
status_short =
    text "Displays if the debugged application is connected or not; use this to determin"
    ++ text "e if it's running."

-- `full_description` of `status`.
unfoldable pub status_full : Text
status_full =
    text "Displays if the debugged application is connected or not.\n\nexfiltrate is des"
    ++ (text "igned to debug a remote application, but it may be crashed or not running.\nTh"
        ++ text "is tool can detect if we can connect.\n        ")
