-- ===== src/Cli/Tests.antt =====
-- Runs of the tool, and the theorems about it at concrete inputs.
use exfiltrate.Common.{ℕ, zero, suc, List, [], ◌∷◌, ◌++◌, true, some, ◌≡◌, refl}
use exfiltrate.Common.Text.{Text, text, text_eq, decimal}
use exfiltrate.Stream.{ok, IoError, other, ReadEvent, ready, failed, would_block}
use exfiltrate.Response.{FileInfo, string, bytes}
use exfiltrate.Rpc.{CommandInvocation}
use exfiltrate.Samples.{small_codec, stream_of}
use exfiltrate.Wire.{new}
use exfiltrate.Client.Race.{listening, silence}
use exfiltrate.Cli.Beside.{came, ask_beside, ask_beside-silence}
use exfiltrate.Server.{Host, Command, Body, Executed, success, ListCommands}
use exfiltrate.Server.Descriptions.{list_short}
use exfiltrate.Server.Serving.{Exchange}
use exfiltrate.Cli.Session.{Session, ask, Link, offline}
use exfiltrate.Cli.Topics.{help_topic, find_topic}
use exfiltrate.Cli.Local.{Setting, ran, execute_local_help, help_any}
use exfiltrate.Cli.Saving.{
  World, Disk, DiskAnswer, saves, stops, trim_dots, path_of, remark_line, file_line,
}
use exfiltrate.Cli.Dispatch.{dispatch}
use exfiltrate.Cli.Offline.{Answers, dispatch-Answers}
use exfiltrate.Cli.Files.{report}

abbrev no_text : IoError → Text
no_text e = text "i/o"

abbrev setting : Setting
setting = record {
  codec = small_codec;
  guides = record { integration = text "Add it."; custom_commands = text "Write them." };
  io_text = no_text;
  rounds = 2000;
}

-- The third file cannot be written to its end.
abbrev third_stops : ℕ → DiskAnswer
third_stops (suc (suc zero)) = stops 1 (other 28)
third_stops _ = saves

abbrev world : World
world = record {
  names = λ n. text "abcd" ++ ((97 ∷ []));
  answers = third_stops;
  io_text = no_text;
  encode_lossless = λ bs width height. ok bs;
}

abbrev empty_disk : Disk
empty_disk = record { made = 0; files = [] }

greet : List Text → Executed
greet args = success (string (text "hi"))

abbrev Greeting : Command
Greeting = record {
  name = text "greet";
  short_description = [];
  full_description = text "Greets.";
  body = Body.custom greet;
}

-- A command run on a host.
abbrev invoked : Text → List Text → CommandInvocation
invoked name args = record { name = name; args = args; reply_id = 7 }

abbrev greeting_host : Host
greeting_host = record { commands = Greeting ∷ []; logs = [] }

abbrev greeting : Exchange
greeting = record {
  invocation = invoked (text "greet") [];
  response = record {
    success = true;
    response = string (text "hi");
    reply_id = 7;
    num_attachments = 0;
  };
  request = 0 ∷ 7 ∷ text "greet";
  reply = 1 ∷ 7 ∷ 0 ∷ text "hi";
}

-- A host with the command `list` alone.
abbrev listing_host : Host
listing_host = record { commands = ListCommands ∷ []; logs = [] }

abbrev listing : Exchange
listing = record {
  invocation = invoked (text "list") [];
  response = record {
    success = true;
    response = bytes (4 ∷ (text "list" ++ list_short));
    reply_id = 7;
    num_attachments = 0;
  };
  request = 0 ∷ 7 ∷ text "list";
  reply = 3 ∷ 7 ∷ 0 ∷ 4 ∷ (text "list" ++ list_short);
}

-- The connection was refused.
abbrev refused_link : Link
refused_link = offline (text "refused")

dispatch-Answers_example :
    Answers
      (dispatch setting world (text "greet") [] refused_link empty_disk)
      empty_disk
      refused_link
dispatch-Answers_example =
    dispatch-Answers setting (text "refused") empty_disk world (text "greet") []

abbrev note : List ℕ → FileInfo
note contents = record {
  proposed_extension = text ".txt";
  remark = some (text "n");
  contents = contents;
}

-- The dots in front of the extension are taken off, and the remark stands before the report.
reported : report world 0 (note (1 ∷ 2 ∷ []) ∷ []) ≡ text "n\nWrote 2 bytes to ./abcda.txt\n"
unfolding trim_dots path_of remark_line file_line decimal
reported = refl

topic_shown :
    execute_local_help setting (text "integration" ∷ []) refused_link
    ≡ (ran (success (string (text "integration help:\nAdd it."))), refused_link)
unfolding execute_local_help help_topic find_topic text_eq help_any
topic_shown = refl

-- The other thread finds nothing, twice before the command is sent and once before the reply is
-- awaited, which then comes in pieces.
abbrev pieces : List ReadEvent
pieces = ready (0 ∷ 0 ∷ 0 ∷ 5 ∷ 1 ∷ []) ∷ failed would_block ∷ ready (7 ∷ 0 ∷ text "hi") ∷ []

abbrev eighth : Session
eighth = record {
  last_reply_id = 7;
  in_flight_message = record { bytes = [] };
  stream = stream_of (silence 2 (silence 1 pieces));
}

ask_beside-silence_example :
    ask_beside small_codec 2 1 50 listening new eighth (text "greet") []
    ≡ came ((ask small_codec 50 (record eighth { stream = stream_of pieces }) (text "greet") []).0)
ask_beside-silence_example =
    ask_beside-silence small_codec 2 1 50 eighth pieces (text "greet") [] refl
