-- ===== src/Proxy/Frame/Messages.antt =====
-- A message of several frames through `parse`, and what `to_bytes` writes.
use exfiltrate.Common.{
  ℕ, zero, suc, ◌+◌, ◌^◌, ◌≤◌, ◌<◌, List, [], ◌∷◌, ◌++◌, length, Bool, true, false, leb,
}
use exfiltrate.Common.{
  arith, ◌≡◌, refl, sym, ap, ◌∙◌, All, append_assoc, append-nil, drop-append_length, length-append,
  Bool-cases, inl, inr,
}
use exfiltrate.Common.Bytes.{IsByte, or_zero}
use native.Mathlib.Numerals.{add-one}
use exfiltrate.Stream.{ok, panic}
use exfiltrate.Proxy.Frame.{
  WebsocketFrameParser, complete, next_frame, found, parse_loop, parse, continue_parse, to_bytes,
  send_data, new,
}
use exfiltrate.Proxy.Frame.Header.{size_bytes}
use exfiltrate.Proxy.Frame.Fragments.{Fragment, IsFragment, wire, frame_found}

abbrev pub wires : List Fragment → List ℕ
wires [] = []
wires (f ∷ fs) = wire f ++ wires fs

abbrev pub payloads : List Fragment → List ℕ
payloads [] = []
payloads (f ∷ fs) = f.payload ++ payloads fs

-- Frames that are followed by others of their message.
abbrev pub IsOpen : Fragment → Type 0
IsOpen f = IsFragment f × (f.fin ≡ false)

parse_step :
    (rounds : ℕ) (p : WebsocketFrameParser) {fin mask : Bool} {payload : List ℕ} {used : ℕ}
    → next_frame p.unparsed_data ≡ found fin mask payload used
    → parse_loop (suc rounds) p ≡ continue_parse (parse_loop rounds) p (found fin mask payload used)
unfolding parse_loop
parse_step rounds p e = ap (continue_parse (parse_loop rounds) p) e

abbrev pub finished : List ℕ → WebsocketFrameParser
finished rest = record { parsed_data = []; unparsed_data = rest; frames_received = 0 }

last_frame :
    (rounds : ℕ) (out rest : List ℕ) (n : ℕ) (f : Fragment)
    → IsFragment f
    → f.fin ≡ true
    → parse_loop
        (suc rounds)
        (record { parsed_data = out; unparsed_data = wire f ++ rest; frames_received = n })
      ≡ (complete (record { payload = out ++ f.payload; mask = f.masked }), finished rest)
unfolding continue_parse
last_frame rounds out rest n f h fin =
    parse_step rounds _
      ((frame_found f rest h).0 ∙ ap (λ b. found b f.masked f.payload (length (wire f))) fin)
    ∙ ap (λ t. (complete (record { payload = out ++ f.payload; mask = f.masked }), finished t))
        (drop-append_length (wire f) rest)

open_frame :
    (rounds : ℕ) (out rest : List ℕ) (n : ℕ) (f : Fragment)
    → IsOpen f
    → parse_loop
        (suc rounds)
        (record { parsed_data = out; unparsed_data = wire f ++ rest; frames_received = n })
      ≡ parse_loop rounds
          (record { parsed_data = out ++ f.payload; unparsed_data = rest; frames_received = n + 1 })
unfolding continue_parse
open_frame rounds out rest n f h =
    parse_step rounds _
      ((frame_found f rest h.0).0 ∙ ap (λ b. found b f.masked f.payload (length (wire f))) h.1)
    ∙ ap
        (λ t.
          parse_loop rounds
            (record { parsed_data = out ++ f.payload; unparsed_data = t; frames_received = n + 1 }))
        (drop-append_length (wire f) rest)

message_parsed :
    (rounds : ℕ) (out rest : List ℕ) (n : ℕ) (fs : List Fragment) (last : Fragment)
    → All IsOpen fs
    → IsFragment last
    → last.fin ≡ true
    → length fs ≤ rounds
    → parse_loop (suc rounds) (record {
      parsed_data = out;
      unparsed_data = wires fs ++ (wire last ++ rest);
      frames_received = n;
    })
      ≡ (
        complete (record { payload = out ++ (payloads fs ++ last.payload); mask = last.masked }),
        finished rest,
      )
message_parsed rounds out rest n [] last hs h fin enough = last_frame rounds out rest n last h fin
message_parsed zero out rest n (f ∷ fs) last hs h fin enough = absurd (omega arith)
message_parsed (suc rounds) out rest n (f ∷ fs) last hs h fin enough =
    ap
      (λ t.
        parse_loop (suc (suc rounds))
          (record { parsed_data = out; unparsed_data = t; frames_received = n }))
      (append_assoc (wire f) (wires fs) (wire last ++ rest))
    ∙ open_frame (suc rounds) out (wires fs ++ (wire last ++ rest)) n f hs.0
    ∙ message_parsed rounds (out ++ f.payload) rest (n + 1) fs last hs.1 h fin (omega arith)
    ∙ ap (λ t. (complete (record { payload = t; mask = last.masked }), finished rest))
        (append_assoc out f.payload (payloads fs ++ last.payload)
          ∙ ap (λ t. out ++ t) (sym (append_assoc f.payload (payloads fs) last.payload)))

length-wires : (fs : List Fragment) → length fs ≤ length (wires fs)
length-wires [] = omega arith
length-wires (f ∷ fs) = omega (arith, length-wires fs, length-append (wire f) (wires fs))

-- A message that has come in whole, in any number of frames, masked or not, is returned with the
-- payloads joined and unmasked, behind the data of frames that were parsed before; what follows the
-- message stays for the next call, and the parser begins anew.
pub parse_message :
    (p : WebsocketFrameParser) (fs : List Fragment) (last : Fragment) (rest : List ℕ)
    → All IsOpen fs
    → IsFragment last
    → last.fin ≡ true
    → p.unparsed_data ≡ wires fs ++ (wire last ++ rest)
    → parse p ≡ (
      complete
          (record { payload = p.parsed_data ++ (payloads fs ++ last.payload); mask = last.masked }),
      finished rest,
    )
unfolding parse
parse_message p fs last rest hs h fin e =
    ap (λ t. parse_loop t p) (add-one (length p.unparsed_data))
    ∙ ap (λ t. parse_loop (suc (length p.unparsed_data)) (record p { unparsed_data = t })) e
    ∙ message_parsed (length p.unparsed_data) p.parsed_data rest p.frames_received fs last hs h fin
        (omega (arith, ap length e, length-append (wires fs) (wire last ++ rest), length-wires fs))

-- The frame that `to_bytes` writes for a payload, as a fragment.
abbrev pub whole_frame : List ℕ → Fragment
whole_frame data_bytes = record {
  fin = true;
  continuation = false;
  masked = false;
  key = 0 ∷ 0 ∷ 0 ∷ 0 ∷ [];
  payload = data_bytes;
}

-- Without a mask `to_bytes` writes one final frame, and does not panic.
pub to_bytes-wire :
    (data_bytes : List ℕ)
    → to_bytes (record { payload = data_bytes; mask = false }) ≡ ok (wire (whole_frame data_bytes))
unfolding to_bytes size_bytes
to_bytes-wire data_bytes = elim (Bool-cases (leb (length data_bytes) 125)) [
  | inl short ↦ rw short (
      ap (λ t. ok (130 ∷ t ∷ data_bytes))
        (or_zero (length data_bytes) (ground arith) ∙ omega arith))
  | inr long ↦ elim (Bool-cases (leb (length data_bytes) 65535)) [
    | inl medium ↦ rw (long, medium)
    | inr huge ↦ rw (long, huge)
  ]
]

-- What `to_bytes` writes without a mask, `parse` reads back, and leaves nothing; with a mask
-- `to_bytes` panics.
pub parse-to_bytes :
    (data_bytes : List ℕ)
    → All IsByte data_bytes
    → length data_bytes < 2 ^ 63
    → (bs : List ℕ) × (to_bytes (record { payload = data_bytes; mask = false }) ≡ ok bs)
      × (parse (send_data bs new) ≡ (complete (record { payload = data_bytes; mask = false }), new))
      × (to_bytes (record { payload = data_bytes; mask = true }) ≡ panic)
unfolding send_data new
parse-to_bytes data_bytes hb size = (
  wire (whole_frame data_bytes),
  to_bytes-wire data_bytes,
  parse_message
      (record {
        parsed_data = [];
        unparsed_data = wire (whole_frame data_bytes);
        frames_received = 0;
      })
      [] (whole_frame data_bytes) [] tt
      (record { key_size = refl; key_bytes = omega arith; bytes = hb; size = size }) refl
      (sym (append-nil (wire (whole_frame data_bytes)))),
  unfold to_bytes in refl,
)
