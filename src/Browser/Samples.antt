-- ===== src/Browser/Samples.antt =====
-- Concrete data for the tests: a program in the browser with one command, and what it answers.
use exfiltrate.Common.{List, [], ◌∷◌, true, ◌≡◌, refl}
use exfiltrate.Common.Text.{Text, text}
use exfiltrate.Stream.{ok}
use exfiltrate.Response.{bytes, split_data}
use exfiltrate.Rpc.{CommandInvocation, CommandResponse, new_response}
use exfiltrate.Samples.{small_codec}
use exfiltrate.Server.{Host, Body, Executed, success, execute, reply_to, do_command}
use exfiltrate.Server.Dispatch.{do_command_first}
use exfiltrate.Browser.{on_message, send_parts}
use exfiltrate.Browser.Reassembly.{on_message_parts}

unfoldable pub dump : List Text → Executed
dump args = success (bytes (5 ∷ 6 ∷ []))

abbrev pub host : Host
host = record {
  commands =
      record {
        name = text "dump";
        short_description = [];
        full_description = [];
        body = Body.custom dump;
      }
      ∷ [];
  logs = [];
}

abbrev pub dumping : CommandInvocation
dumping = record { name = text "dump"; args = []; reply_id = 7 }

abbrev pub dumped : CommandResponse
dumped = record { success = true; response = bytes (5 ∷ 6 ∷ []); reply_id = 7; num_attachments = 0 }

pub dumping_done : do_command small_codec host dumping ≡ ok dumped
unfolding reply_to execute dump new_response
dumping_done =
    do_command_first small_codec host dumping []
      (record {
        name = text "dump";
        short_description = [];
        full_description = [];
        body = Body.custom dump;
      })
      [] refl tt refl

pub two_messages :
    on_message small_codec host (0 ∷ 7 ∷ text "dump") ≡ ok ((3 ∷ 7 ∷ 1 ∷ []) ∷ (5 ∷ 6 ∷ []) ∷ [])
unfolding send_parts split_data
two_messages =
    on_message_parts small_codec host dumping dumped (0 ∷ 7 ∷ text "dump") _ refl refl dumping_done
