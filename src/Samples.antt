-- ===== src/Samples.antt =====
-- Concrete data for the tests: a small codec with its laws, and streams.
use exfiltrate.Common.{length, take, drop, ◌++◌, take-append_length, drop-append_length}
use exfiltrate.Common.{ℕ, zero, suc, List, [], ◌∷◌, Bool, true, false, ◌≡◌, refl, subst}
use exfiltrate.Common.Text.{Text}
use exfiltrate.Stream.{
  TcpStream, ReadEvent, WriteEvent, ready, failed, would_block, takes, refuses, interrupted,
}
use exfiltrate.Response.{Response, string, bytes, files, images}
use exfiltrate.Rpc.{
  Codec, Encoded, encoded, refused, Decoded, decoded, malformed, Rpc, command, command_response,
  ListItem,
}

-- Commands with one argument at most, texts and data, after a byte for the kind.
abbrev encode_command : Text → List Text → ℕ → Encoded
encode_command name [] reply_id = encoded (0 ∷ reply_id ∷ name)
encode_command name (a ∷ []) reply_id = encoded (4 ∷ reply_id ∷ length name ∷ (name ++ a))
encode_command name (a ∷ b ∷ more) reply_id = refused []

abbrev encode_response : Bool → Response → ℕ → ℕ → Encoded
encode_response true (string s) reply_id parts = encoded (1 ∷ reply_id ∷ parts ∷ s)
encode_response false (string s) reply_id parts = encoded (2 ∷ reply_id ∷ parts ∷ s)
encode_response true (bytes bs) reply_id parts = encoded (3 ∷ reply_id ∷ parts ∷ bs)
encode_response _ _ reply_id parts = refused []

abbrev to_vec : Rpc → Encoded
to_vec (command c) = encode_command c.name c.args c.reply_id
to_vec (command_response r) = encode_response r.success r.response r.reply_id r.num_attachments

abbrev response : Bool → Response → ℕ → ℕ → Decoded Rpc
response success r reply_id parts = decoded (
    command_response
      (record { success = success; response = r; reply_id = reply_id; num_attachments = parts }))

abbrev from_slice : List ℕ → Decoded Rpc
from_slice (zero ∷ reply_id ∷ name) =
    decoded (command (record { name = name; args = []; reply_id = reply_id }))
from_slice (suc zero ∷ reply_id ∷ parts ∷ s) = response true (string s) reply_id parts
from_slice (suc (suc zero) ∷ reply_id ∷ parts ∷ s) = response false (string s) reply_id parts
from_slice (suc (suc (suc zero)) ∷ reply_id ∷ parts ∷ bs) = response true (bytes bs) reply_id parts
from_slice (suc (suc (suc (suc zero))) ∷ reply_id ∷ n ∷ rest) =
    decoded (command (record { name = take n rest; args = drop n rest ∷ []; reply_id = reply_id }))
from_slice _ = malformed []

encoded_bytes : {x y : List ℕ} → encoded x ≡ encoded y → x ≡ y
encoded_bytes e = cc

from_slice-to_vec_command :
    (name : Text) (args : List Text) (reply_id : ℕ) (bs : List ℕ)
    → encode_command name args reply_id ≡ encoded bs
    → from_slice bs ≡ decoded (command (record { name = name; args = args; reply_id = reply_id }))
from_slice-to_vec_command name [] reply_id bs e =
    subst
      (λ t.
        from_slice t ≡ decoded (command (record { name = name; args = []; reply_id = reply_id })))
      (encoded_bytes e) refl
from_slice-to_vec_command name (a ∷ []) reply_id bs e =
    subst
      (λ t.
        from_slice t
        ≡ decoded (command (record { name = name; args = a ∷ []; reply_id = reply_id })))
      (encoded_bytes e) (cc (take-append_length name a, drop-append_length name a))
from_slice-to_vec_command name (a ∷ b ∷ more) reply_id bs e = cc

from_slice-to_vec_response :
    (success : Bool) (r : Response) (reply_id parts : ℕ) (bs : List ℕ)
    → encode_response success r reply_id parts ≡ encoded bs
    → from_slice bs ≡ response success r reply_id parts
from_slice-to_vec_response true (string s) reply_id parts bs e =
    subst (λ t. from_slice t ≡ response true (string s) reply_id parts) (encoded_bytes e) refl
from_slice-to_vec_response false (string s) reply_id parts bs e =
    subst (λ t. from_slice t ≡ response false (string s) reply_id parts) (encoded_bytes e) refl
from_slice-to_vec_response true (bytes bs') reply_id parts bs e =
    subst (λ t. from_slice t ≡ response true (bytes bs') reply_id parts) (encoded_bytes e) refl
from_slice-to_vec_response false (bytes bs') reply_id parts bs e = cc
from_slice-to_vec_response true (files fs) reply_id parts bs e = cc
from_slice-to_vec_response false (files fs) reply_id parts bs e = cc
from_slice-to_vec_response true (images is) reply_id parts bs e = cc
from_slice-to_vec_response false (images is) reply_id parts bs e = cc

pub from_slice-to_vec : (m : Rpc) (bs : List ℕ) → to_vec m ≡ encoded bs → from_slice bs ≡ decoded m
from_slice-to_vec (command c) bs e = from_slice-to_vec_command c.name c.args c.reply_id bs e
from_slice-to_vec (command_response r) bs e =
    from_slice-to_vec_response r.success r.response r.reply_id r.num_attachments bs e

-- The small codec takes one item at most.
abbrev items_to_vec : List ListItem → Encoded
items_to_vec [] = encoded []
items_to_vec (i ∷ []) = encoded (length i.name ∷ (i.name ++ i.short_description))
items_to_vec (i ∷ j ∷ is) = refused []

abbrev items_from_slice : List ℕ → Decoded (List ListItem)
items_from_slice [] = decoded []
items_from_slice (n ∷ bs) =
    decoded (record { name = take n bs; short_description = drop n bs } ∷ [])

pub items_round_trip :
    (items : List ListItem) (bs : List ℕ)
    → items_to_vec items ≡ encoded bs
    → items_from_slice bs ≡ decoded items
items_round_trip [] bs e = subst (λ t. items_from_slice t ≡ decoded []) (encoded_bytes e) refl
items_round_trip (i ∷ []) bs e =
    subst (λ t. items_from_slice t ≡ decoded (i ∷ [])) (encoded_bytes e)
      (cc (
        take-append_length i.name i.short_description,
        drop-append_length i.name i.short_description,
      ))
items_round_trip (i ∷ j ∷ is) bs e = cc

abbrev pub small_codec : Codec
small_codec = record {
  rpc_to_vec = to_vec;
  rpc_from_slice = from_slice;
  items_to_vec = items_to_vec;
  items_from_slice = items_from_slice;
  rpc_round_trip = from_slice-to_vec;
  items_round_trip = items_round_trip;
}

-- The frames of `1 2` and of `3`, cut inside both headers.
abbrev pub two_frames : List ReadEvent
two_frames =
    ready (0 ∷ 0 ∷ [])
    ∷ failed would_block
    ∷ ready (0 ∷ 2 ∷ 1 ∷ 2 ∷ 0 ∷ [])
    ∷ ready (0 ∷ 0 ∷ 1 ∷ 3 ∷ [])
    ∷ []

abbrev pub slow_writes : List WriteEvent
slow_writes = takes 3 ∷ refuses interrupted ∷ takes 2 ∷ refuses would_block ∷ []

abbrev pub stream_of : List ReadEvent → TcpStream
stream_of reads = record { reads = reads; writes = slow_writes; sent = [] }
