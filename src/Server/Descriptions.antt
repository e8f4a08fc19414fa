-- ===== src/Server/Descriptions.antt =====
-- The descriptions of the server's commands, from exfiltrate/src/commands/ and exfiltrate/src/logwise.rs.
use exfiltrate.Common.{◌++◌}
use exfiltrate.Common.Text.{Text, text}

-- `short_description` of `help`.
unfoldable pub help_short : Text
help_short =
    text "Provides detailed help for a command.  Use this to learn more about an individ"
    ++ text "ual command."

-- `full_description` of `help`.
unfoldable pub help_full : Text
help_full = text "Provides detailed help for a command.\nUsage: exfiltrate help [COMMAND]"

-- `short_description` of `list`.
unfoldable pub list_short : Text
list_short =
    text "List the currently available commands.  Use this command to list currently ava"
    ++ (text "ilable commands, which change depending on whether or not the debugged program"
        ++ text " is currently running.")

-- `full_description` of `list`.
unfoldable pub list_full : Text
list_full =
    text "List all available commands.\n\nThis CLI program debugs a remote application. "
    ++ (text " Some commands are only available when the remote application is running.\n   "
        ++ text "     ")

-- `short_description` of `terminate`.
unfoldable pub terminate_short : Text
terminate_short =
    text "Terminates the program being debugged.  Use this to kill programs that stay re"
    ++ text "sident."

-- `full_description` of `terminate`.
unfoldable pub terminate_full : Text
terminate_full =
    text "Terminates the program being debugged.  Use this to kill programs that stay re"
    ++ (text "sident.\n\nA common debugging workflow is:\n1.  build/run\n2.  examine the pro"
        ++ (text "gram interactively\n3.  quit the program\n\nHowever step 3 may be difficult in"
            ++ (text
                  " a sandbox, or require PID tracking, etc.\n\nThis command will remotely exit t"
                ++ text "he program we are debugging, with exit code 70 (EX_SOFTWARE).")))

-- `short_description` of `logwise_logs`.
unfoldable pub logwise_logs_short : Text
logwise_logs_short =
    text "Shows logwise logs.  Use this to stream logs from a running Rust program.  ALW"
    ++ (text "AYS use this to read\n        logs on wasm32-unknown-unknown, since other meth"
        ++ text "ods are broken.")

-- `full_description` of `logwise_logs`.
unfoldable pub logwise_logs_full : Text
logwise_logs_full =
    text "Shows logwise logs.\n\nIn some cases, logs may be difficult to access.  For ex"
    ++ (text "ample we may be debugging WASM code, running in a browser, or a remote compute"
        ++ (text "r.\n\nLog files may be very large.  Consider examining only part of them with "
            ++ (text
                  "your tools, or searching them with grep.\n\nOften, on wasm, only the main thre"
                ++ (text
                      "ad's logs are printed.  So if you are reading stdout, you are missing many log"
                    ++ (text
                          "s that are being written by other threads.  So the output from other sources m"
                        ++ (text
                              "ay be HIGHLY misleading.\n\n\nUsing this command ensures you get all the logwi"
                            ++ (text
                                  "se logs from all threads, that are prior to `exfiltrate::begin`.  (Logs prior "
                                ++ (text
                                      "to this call are not captured; so users are instructed to make this call early"
                                    ++ (text
                                          " in their program).\n\nFor more information on using logwise, try building the"
                                        ++ (text
                                              " latest documentation for it.  Alternatively, some resources are\n        * ht"
                                            ++ (text
                                                  "tps://sealedabstract.com/code/logwise\n        * https://docs.rs/logwise/lates"
                                                ++ text "t/logwise/\n")))))))))))
