-- ===== src/Rpc.antt =====
-- exfiltrate_internal/src/rpc.rs and commands/list.rs: the messages between client and server, and
-- the MessagePack codec (the crate rmp_serde), which is a parameter.
use exfiltrate.Common.{ℕ, List, [], ◌∷◌, ◌++◌, Bool, true, false, ◌≡◌, if◌then◌else◌}
use exfiltrate.Common.Text.{Text, text, decimal}
use exfiltrate.Response.{Response, display}

pub record CommandInvocation : Type 0 where
  pub name : Text
  pub args : List Text
  pub reply_id : ℕ

pub record CommandResponse : Type 0 where
  pub success : Bool
  pub response : Response
  pub reply_id : ℕ
  pub num_attachments : ℕ

pub data Rpc : Type 0 where
  command : CommandInvocation → Rpc
  command_response : CommandResponse → Rpc

-- `CommandInvocation::new`
unfoldable pub new_invocation : Text → List Text → ℕ → CommandInvocation
new_invocation name args reply_id = record { name = name; args = args; reply_id = reply_id }

-- `CommandResponse::new`
unfoldable pub new_response : Bool → Response → ℕ → CommandResponse
new_response success response reply_id = record {
  success = success;
  response = response;
  reply_id = reply_id;
  num_attachments = 0;
}

unfoldable is_empty : List Text → Bool
is_empty [] = true
is_empty (arg ∷ args) = false

-- `Display` of a response.
pub display_response : CommandResponse → Text
display_response r =
    text "[id="
    ++ (decimal r.reply_id
        ++ (text "] "
            ++ ((if r.success then text "ok" else text "err")
                ++ (text ": " ++ display r.response))))

-- `Display` of an invocation and of an RPC; `debug` is the `{:?}` of a `Vec<String>`.
pub display_invocation : (List Text → Text) → CommandInvocation → Text
display_invocation debug c =
    let id = text " [id=" ++ (decimal c.reply_id ++ text "]") in
    c.name ++ (if is_empty c.args then id else text " " ++ (debug c.args ++ id))

pub display_rpc : (List Text → Text) → Rpc → Text
unfolding display_invocation display_response
display_rpc debug (command c) = text "Command(" ++ (display_invocation debug c ++ text ")")
display_rpc debug (command_response r) = text "CommandResponse(" ++ (display_response r ++ text ")")

pub record ListItem : Type 0 where
  pub name : Text
  pub short_description : Text

-- The answer of a serializer: bytes, or the text of its error.
pub data Encoded : Type 0 where
  encoded : List ℕ → Encoded
  refused : Text → Encoded

pub data Decoded {ℓ} (A : Type ℓ) : Type ℓ where
  decoded : A → Decoded A
  malformed : Text → Decoded A

-- `rmp_serde::to_vec` and `rmp_serde::from_slice` at the two types that are sent. What has been
-- serialized is read back as it was: the codec's round trip.
pub record Codec : Type 0 where
  pub rpc_to_vec : Rpc → Encoded
  pub rpc_from_slice : List ℕ → Decoded Rpc
  pub items_to_vec : List ListItem → Encoded
  pub items_from_slice : List ℕ → Decoded (List ListItem)
  pub rpc_round_trip :
      (m : Rpc) (bs : List ℕ) → rpc_to_vec m ≡ encoded bs → rpc_from_slice bs ≡ decoded m
  pub items_round_trip :
      (items : List ListItem) (bs : List ℕ)
      → items_to_vec items ≡ encoded bs
      → items_from_slice bs ≡ decoded items
