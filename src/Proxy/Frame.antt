-- ===== src/Proxy/Frame.antt =====
-- exfiltrate_proxy/src/websocket.rs: WebSocket frames. `usize` has 64 bits, and arithmetic is
-- checked as in a debug build: the sum of an offset and a length that overflows panics.
mod Tests
pub mod Header
pub mod Masking
pub mod Fragments
pub mod Messages
pub mod Agreement
pub mod Prefixes
pub mod Pieces
pub mod Closing
use Prim.Native.Nat.{bit_and, bit_or, bit_xor}
use exfiltrate.Common.{
  ℕ, zero, suc, ◌+◌, ◌%◌, ◌^◌, List, [], ◌∷◌, ◌++◌, length, take, drop, get_or, Bool, true, false,
  ◌||◌, ◌==◌, ltb, leb, Option, none, some, if◌then◌else◌,
}
use exfiltrate.Common.Bytes.{to_be_bytes, from_be_bytes}
use exfiltrate.Stream.{Outcome, ok, panic}

-- `Rejected` carries the opcode that its message names.
pub data FrameError : Type 0 where
  too_short closed : FrameError
  rejected : ℕ → FrameError

pub record WebsocketFrame : Type 0 where
  pub payload : List ℕ
  pub mask : Bool

-- `parsed_data` is `Some` whenever `parse` is not running.
pub record WebsocketFrameParser : Type 0 where
  pub parsed_data : List ℕ
  pub unparsed_data : List ℕ
  pub frames_received : ℕ

pub new : WebsocketFrameParser
new = record { parsed_data = []; unparsed_data = []; frames_received = 0 }

unfoldable pub send_data : List ℕ → WebsocketFrameParser → WebsocketFrameParser
send_data bs p = record p { unparsed_data = p.unparsed_data ++ bs }

-- `bytes[i]`, read where the index is in range.
abbrev pub byte_at : List ℕ → ℕ → ℕ
byte_at bs i = get_or bs i 0

unfoldable pub is_fin : List ℕ → Bool
is_fin bs = if bit_and (byte_at bs 0) 0b1000_0000 == 0 then false else true

unfoldable pub opcode : List ℕ → ℕ
opcode bs = bit_and (byte_at bs 0) 0b0111_1111

unfoldable pub is_masked : List ℕ → Bool
is_masked bs = if bit_and (byte_at bs 1) 0b1000_0000 == 0 then false else true

-- `mask_begin` and `len`; `none` where the bytes of the length are not in yet.
unfoldable pub length_field : List ℕ → Option (ℕ × ℕ)
length_field bs =
    let payload_length = bit_and (byte_at bs 1) 0b0111_1111 in
    if ltb payload_length 126
    then some (2, payload_length)
    else if payload_length == 126
    then (if ltb (length bs) 4 then none else some (4, from_be_bytes (take 2 (drop 2 bs))))
    else (if ltb (length bs) 10 then none else some (10, from_be_bytes (take 8 (drop 2 bs))))

-- `data_region[i] ^= masking_key[i % 4]`, from the index `i` on.
unfoldable pub unmask_from : ℕ → List ℕ → List ℕ → List ℕ
unmask_from i key [] = []
unmask_from i key (d ∷ ds) = bit_xor d (byte_at key (i % 4)) ∷ unmask_from (i + 1) key ds

-- What one round of either parser's loop finds at the front of the bytes: an error, an overflow, or
-- a frame with the number of its bytes.
pub data Found : Type 0 where
  fails : FrameError → Found
  overflows : Found
  found : (fin mask : Bool) → (payload : List ℕ) → (used : ℕ) → Found

-- The payload, from where its masking key or it begins.
unfoldable pub take_payload : List ℕ → ℕ → ℕ → Found
unfolding unmask_from
take_payload bs mask_begin len =
    let mask = is_masked bs in
    let data_begin = mask_begin + (if mask then 4 else 0) in
    let region = take len (drop data_begin bs) in
    let key = take 4 (drop mask_begin bs) in
    if leb (2 ^ 64) (data_begin + len)
    then overflows
    else if ltb (length bs) (data_begin + len)
    then fails too_short
    else found (is_fin bs) mask (if mask then unmask_from 0 key region else region)
        (data_begin + len)

take_frame : List ℕ → Option (ℕ × ℕ) → Found
take_frame bs none = fails too_short
take_frame bs (some (mask_begin, len)) = take_payload bs mask_begin len

-- One round of `WebsocketFrame::from_bytes`, which knows no close frame.
unfoldable pub first_frame : List ℕ → Found
unfolding take_frame
first_frame bs =
    if ltb (length bs) 2
    then fails too_short
    else if (opcode bs == 2) || (opcode bs == 0)
    then take_frame bs (length_field bs)
    else fails (rejected (opcode bs))

-- One round of `WebsocketFrameParser::parse`.
unfoldable pub next_frame : List ℕ → Found
unfolding first_frame
next_frame bs =
    if ltb (length bs) 2
    then fails too_short
    else if opcode bs == 8
    then fails closed
    else first_frame bs

-- What `parse` returns; `stuck` is no value of the program: the model's loop ran out of rounds.
pub data Parsed : Type 0 where
  complete : WebsocketFrame → Parsed
  failed : FrameError → Parsed
  panicked stuck : Parsed

-- A frame's payload joins the data of the frames before it; the last frame ends the message.
continue_parse :
    (WebsocketFrameParser → Parsed × WebsocketFrameParser)
    → WebsocketFrameParser
    → Found
    → Parsed × WebsocketFrameParser
continue_parse next p (fails e) = (failed e, p)
continue_parse next p overflows = (panicked, p)
continue_parse next p (found true mask payload used) = (
  complete (record { payload = p.parsed_data ++ payload; mask = mask }),
  record { parsed_data = []; unparsed_data = drop used p.unparsed_data; frames_received = 0 },
)
continue_parse next p (found false mask payload used) = next (record {
  parsed_data = p.parsed_data ++ payload;
  unparsed_data = drop used p.unparsed_data;
  frames_received = p.frames_received + 1;
})

unfoldable pub parse_loop : ℕ → WebsocketFrameParser → Parsed × WebsocketFrameParser
unfolding continue_parse
parse_loop zero p = (stuck, p)
parse_loop (suc rounds) p = continue_parse (parse_loop rounds) p (next_frame p.unparsed_data)

-- Every round but the last takes two bytes at least.
unfoldable pub parse : WebsocketFrameParser → Parsed × WebsocketFrameParser
parse p = parse_loop (length p.unparsed_data + 1) p

-- `WebsocketFrame::to_bytes`: masking is `todo!()`.
pub to_bytes : WebsocketFrame → Outcome (List ℕ)
to_bytes f =
    let mask_current = if f.mask then 0b1000_0000 else 0 in
    let size = length f.payload in
    let head =
      if leb size 125
      then bit_or size mask_current ∷ []
      else if leb size 65535
      then bit_or 126 mask_current ∷ to_be_bytes 2 size
      else bit_or 127 mask_current ∷ to_be_bytes 8 size in
    if f.mask then panic else ok (0b1000_0010 ∷ (head ++ f.payload))

-- What `from_bytes` returns: the frame and the number of bytes that it used.
pub data Read : Type 0 where
  complete : WebsocketFrame → ℕ → Read
  failed : FrameError → Read
  panicked stuck : Read

continue_read : (List ℕ → ℕ → Read) → List ℕ → ℕ → Found → Read
continue_read next out used_bytes (fails e) = failed e
continue_read next out used_bytes overflows = panicked
continue_read next out used_bytes (found true mask payload used) =
    complete (record { payload = out ++ payload; mask = mask }) (used_bytes + used)
continue_read next out used_bytes (found false mask payload used) =
    next (out ++ payload) (used_bytes + used)

read_loop : ℕ → List ℕ → List ℕ → ℕ → Read
unfolding continue_read
read_loop zero orig_bytes out used_bytes = stuck
read_loop (suc rounds) orig_bytes out used_bytes =
    continue_read (read_loop rounds orig_bytes) out used_bytes
      (first_frame (drop used_bytes orig_bytes))

-- `WebsocketFrame::from_bytes`
pub from_bytes : List ℕ → Read
unfolding read_loop
from_bytes orig_bytes = read_loop (length orig_bytes + 1) orig_bytes [] 0
