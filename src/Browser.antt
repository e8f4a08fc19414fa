-- ===== src/Browser.antt =====
-- exfiltrate/src/wire/server/wasm32.rs: the server inside the browser, which talks to the proxy.
-- The JavaScript objects, the fetch for debugging and the console are not modelled.
mod Tests
pub mod Samples
pub mod Reassembly
pub mod Sending
pub mod Start
pub mod Events
pub mod Page
pub mod Handshake
use exfiltrate.Common.{
  ℕ, ◌+◌, ◌%◌, ◌^◌, List, [], ◌∷◌, ◌++◌, length, Bool, true, false, Option, none, some,
  if◌then◌else◌,
}
use exfiltrate.Common.Text.{Text, text}
use exfiltrate.Stream.{Outcome, ok, err, panic}
use exfiltrate.Response.{Response, split_data}
use exfiltrate.Rpc.{
  Codec, Encoded, encoded, refused, Decoded, decoded, malformed, Rpc, command, command_response,
  CommandInvocation, CommandResponse,
}
use exfiltrate.Server.{Host, do_command}

-- The `Result<RPC, String>` of `handle_msg`; the text of an error is only logged.
pub data Handled : Type 0 where
  reply : Rpc → Handled
  rejected : Handled

handle_command : Outcome CommandResponse → Outcome Handled
handle_command (ok r) = ok (reply (command_response r))
handle_command (err e) = err e
handle_command panic = panic

handle_rpc : Codec → Host → Decoded Rpc → Outcome Handled
unfolding handle_command
handle_rpc codec h (decoded (command c)) = handle_command (do_command codec h c)
handle_rpc codec h (decoded (command_response r)) = ok rejected
handle_rpc codec h (malformed e) = ok rejected

pub handle_msg : Codec → Host → List ℕ → Outcome Handled
unfolding handle_rpc
handle_msg codec h message = handle_rpc codec h (codec.rpc_from_slice message)

-- A response leaves its data to the attachments; `attachments.len() as u32` wraps around.
unfoldable pub detach : Rpc → Rpc × List (List ℕ)
detach (command c) = (command c, [])
detach (command_response r) =
    let (response, attachments) = split_data r.response in
    (
      command_response
          (record r { response = response; num_attachments = length attachments % 2 ^ 32 }),
      attachments,
    )

-- `send_with_array_buffer` for the message and then for each attachment.
unfoldable pub send_parts : Encoded → List (List ℕ) → Outcome (List (List ℕ))
send_parts (encoded msgpack_reply) attachments = ok (msgpack_reply ∷ attachments)
send_parts (refused e) attachments = panic

send_reply : Codec → Outcome Handled → Outcome (List (List ℕ))
unfolding detach send_parts
send_reply codec (ok (reply rpc)) =
    let (rpc', attachments) = detach rpc in send_parts (codec.rpc_to_vec rpc') attachments
send_reply codec (ok rejected) = ok []
send_reply codec (err e) = err e
send_reply codec panic = panic

-- The `onmessage` callback on a binary message: the messages that it sends. The sends succeed.
pub on_message : Codec → Host → List ℕ → Outcome (List (List ℕ))
unfolding handle_msg send_reply
on_message codec h message = send_reply codec (handle_msg codec h message)

-- `OneShot`: the sender inside, until it is used. The clones share it.
pub record OneShot {ℓ} (T : Type ℓ) : Type ℓ where
  pub unused : Bool
  pub delivered : Option T

module _ {ℓ} {T : Type ℓ} where
  pub new_one_shot : OneShot T
  new_one_shot = record { unused = true; delivered = none }

  pub send_if_needed : T → OneShot T → OneShot T
  send_if_needed value o = if o.unused then record { unused = false; delivered = some value } else o

-- `worker_thread`: whether it holds a socket, and how often it has called `create_web_socket`.
pub record Worker : Type 0 where
  pub has_socket : Bool
  pub attempts : ℕ

pub new_worker : Worker
new_worker = record { has_socket = false; attempts = 0 }

-- A `Reconnect` message, where `create_web_socket` would succeed or fail as given. A socket that
-- has been closed is still held: nothing sets `socket` back to `None`.
pub reconnect : Bool → Worker → Worker
reconnect succeeds w =
    if w.has_socket then w else record { has_socket = succeeds; attempts = w.attempts + 1 }

pub run_worker : List Bool → Worker → Worker
unfolding reconnect
run_worker [] w = w
run_worker (succeeds ∷ messages) w = run_worker messages (reconnect succeeds w)
