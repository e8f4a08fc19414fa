-- ===== src/Browser/Reassembly.antt =====
-- A response of the browser reaches the caller of `pop_msg` as the command returned it.
use exfiltrate.Common.{
  ℕ, ◌%◌, ◌^◌, ◌≤◌, ◌<◌, List, [], ◌∷◌, ◌++◌, length, ◌≡◌, refl, sym, ap, subst, ◌∙◌,
}
use native.Mathlib.Nat.{mod-eq_of_lt}
use exfiltrate.Stream.{ok}
use exfiltrate.Wire.Delivery.{Delivers, work_left}
use exfiltrate.Response.{split_data, merge_data}
use exfiltrate.Response.Parts.{merge_data-split_data, merge_data-nil}
use exfiltrate.Rpc.{
  Codec, Encoded, encoded, refused, decoded, command, command_response, CommandInvocation,
  CommandResponse,
}
use exfiltrate.Server.{Host, do_command}
use exfiltrate.Server.Dispatch.{do_command_id}
use exfiltrate.Client.{Popping, awaiting, pop_msg, returned, reassemble}
use exfiltrate.Client.Replies.{whole, pop_msg-whole}
use exfiltrate.Browser.{handle_rpc, handle_command, send_reply, send_parts, on_message}

-- The response as it travels, and its attachments.
abbrev pub attachments : CommandResponse → List (List ℕ)
attachments r = (split_data r.response).1

abbrev pub header_of : CommandResponse → CommandResponse
header_of r = record r {
  response = (split_data r.response).0;
  num_attachments = length (attachments r) % 2 ^ 32;
}

-- What the caller gets: the response of the command, and the number of its attachments.
abbrev pub numbered : CommandResponse → CommandResponse
numbered r = record r { num_attachments = length (split_data r.response).1 }

whole_merged :
    (r : CommandResponse) (parts : List (List ℕ))
    → whole r parts ≡ record r { response = merge_data r.response parts }
whole_merged r [] = ap (λ t. record r { response = t }) (sym (merge_data-nil r.response))
whole_merged r (part ∷ parts) = unfold reassemble in refl

-- What arrives is the command's response with the number of its attachments.
arrives :
    (r : CommandResponse)
    → length (attachments r) < 2 ^ 32
    → whole (header_of r) (attachments r) ≡ numbered r
arrives r few =
    whole_merged (header_of r) (attachments r)
    ∙ ap (λ t. record (header_of r) { response = t }) (merge_data-split_data r.response)
    ∙ ap (λ t. record r { num_attachments = t }) (mod-eq_of_lt few)

module _ (codec : Codec) (h : Host) (c : CommandInvocation) (r : CommandResponse)
    (request : List ℕ) where
  -- The messages that `on_message` sends, by what the serializer makes of the response.
  pub on_message_parts :
      (x : Encoded)
      → codec.rpc_to_vec (command_response (header_of r)) ≡ x
      → codec.rpc_from_slice request ≡ decoded (command c)
      → do_command codec h c ≡ ok r
      → on_message codec h request ≡ send_parts x (attachments r)
  unfolding on_message
  on_message_parts x e asked done =
      ap (λ t. send_reply codec (handle_rpc codec h t)) asked
      ∙ ap (λ t. send_reply codec (handle_command t)) done
      ∙ ap (λ t. send_parts t (attachments r)) e

  -- What `on_message` sends is the response as it travels and then its attachments.
  pub on_message_header :
      (msgs : List (List ℕ))
      → codec.rpc_from_slice request ≡ decoded (command c)
      → do_command codec h c ≡ ok r
      → on_message codec h request ≡ ok msgs
      → (header : List ℕ) × (codec.rpc_to_vec (command_response (header_of r)) ≡ encoded header)
        × (msgs ≡ header ∷ attachments r)
  unfolding send_parts
  on_message_header msgs asked done sent =
      go (codec.rpc_to_vec (command_response (header_of r))) refl
    where
      go :
          (x : Encoded)
          → codec.rpc_to_vec (command_response (header_of r)) ≡ x
          → (header : List ℕ) × (codec.rpc_to_vec (command_response (header_of r)) ≡ encoded header)
            × (msgs ≡ header ∷ attachments r)
      go (refused t) e = cc (sent, on_message_parts (refused t) e asked done)
      go (encoded header) e = (header, e, cc (sent, on_message_parts (encoded header) e asked done))

  -- Through the browser's server, the proxy's frames and `pop_msg` a response arrives as the
  -- command returned it: data that was split off is merged back into the same places. The caller
  -- gets it under its own id, whatever the kind of the response and however the bytes are cut into
  -- reads, once `pop_msg` has run as many rounds as there is work; `msgs` are the messages that
  -- `on_message` sends, if the message can be serialized, and fewer than 2 ^ 32 are attachments.
  -- No read fails but for want of data, and the messages leave room for a header and a read.
  pub pop_msg-on_message :
      (rounds : ℕ) (p : Popping) (msgs more : List (List ℕ))
      → codec.rpc_from_slice request ≡ decoded (command c)
      → do_command codec h c ≡ ok r
      → on_message codec h request ≡ ok msgs
      → length (split_data r.response).1 < 2 ^ 32
      → p.phase ≡ awaiting
      → Delivers p.in_flight_message p.stream.reads (msgs ++ more)
      → work_left p.in_flight_message p.stream.reads ≤ rounds
      → ((pop_msg codec c.reply_id rounds p).0 ≡ returned (ok (numbered r)))
  pop_msg-on_message rounds p msgs more asked done sent few at d enough =
      let (header, e, same) = on_message_header msgs asked done sent in
      (pop_msg-whole codec c.reply_id rounds p header (header_of r) (attachments r) more at
        (codec.rpc_round_trip _ header e) (do_command_id codec h c r done).0 (mod-eq_of_lt few)
        (subst (λ t. Delivers p.in_flight_message p.stream.reads (t ++ more)) same d) enough).0
      ∙ ap (λ t. returned (ok t)) (arrives r few)
