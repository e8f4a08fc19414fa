-- ===== src/Proxy/Frame/Fragments.antt =====
-- Whole messages of the browser, as RFC 6455 writes them, through `parse`.
use exfiltrate.Common.{
  ℕ, ◌+◌, ◌^◌, ◌≤◌, ◌<◌, List, ◌∷◌, ◌++◌, length, Bool, true, false, some, if◌then◌else◌,
}
use exfiltrate.Common.{
  arith, ◌≡◌, sym, ap, ◌∙◌, All, Bool-cases, inl, inr, append_assoc, length-append, le→ltb_false,
}
use exfiltrate.Common.Bytes.{IsByte}
use exfiltrate.Proxy.Frame.{
  found, first_frame, next_frame, opcode, is_masked, length_field, unmask_from, take_payload,
}
use exfiltrate.Proxy.Frame.Header.{
  size_bytes, is_masked-size_bytes, length_field-size_bytes, take_payload_plain,
  take_payload_masked,
}
use exfiltrate.Proxy.Frame.Masking.{
  is_fin_first, opcode_first, unmask_from_twice, length-unmask_from,
}

-- A frame as its sender means it: the last of its message or not, the first (binary) or a
-- continuation, its masking key if it is masked, and its payload.
pub record Fragment : Type 0 where
  pub fin : Bool
  pub continuation : Bool
  pub masked : Bool
  pub key : List ℕ
  pub payload : List ℕ

pub record IsFragment (f : Fragment) : Type 0 where
  pub key_size : length f.key ≡ 4
  pub key_bytes : All IsByte f.key
  pub bytes : All IsByte f.payload
  pub size : length f.payload < 2 ^ 63

abbrev pub first_byte : Fragment → ℕ
first_byte f = (if f.fin then 128 else 0) + (if f.continuation then 0 else 2)

-- The masking of RFC 6455, section 5.3, is its own inverse.
abbrev pub body : Fragment → List ℕ
body f = if f.masked then f.key ++ unmask_from 0 f.key f.payload else f.payload

abbrev pub wire : Fragment → List ℕ
wire f = first_byte f ∷ (size_bytes f.masked (length f.payload) ++ body f)

length-size_bytes : (masked : Bool) (n : ℕ) → length (size_bytes masked n) ≤ 9
unfolding size_bytes
length-size_bytes masked n = ground arith

size_bytes-pos : (masked : Bool) (n : ℕ) → 1 ≤ length (size_bytes masked n)
unfolding size_bytes
size_bytes-pos masked n = ground arith

-- With a supported opcode and a whole length both loops go on to the payload.
frame_taken :
    (bs : List ℕ) (continuation : Bool) {mask_begin len : ℕ}
    → 2 ≤ length bs
    → opcode bs ≡ (if continuation then 0 else 2)
    → length_field bs ≡ some (mask_begin, len)
    → (next_frame bs ≡ take_payload bs mask_begin len)
      × (first_frame bs ≡ take_payload bs mask_begin len)
unfolding next_frame first_frame
frame_taken bs true two op field =
    (rw (le→ltb_false (length bs) 2 two, op, field), rw (le→ltb_false (length bs) 2 two, op, field))
frame_taken bs false two op field =
    (rw (le→ltb_false (length bs) 2 two, op, field), rw (le→ltb_false (length bs) 2 two, op, field))

module _ (f : Fragment) (rest : List ℕ) (h : IsFragment f) where
  abbrev header : List ℕ
  header = first_byte f ∷ size_bytes f.masked (length f.payload)

  room : length header + 4 + length f.payload < 2 ^ 64
  room = omega (arith, length-size_bytes f.masked (length f.payload), h.size)

  no_mask : is_masked (wire f ++ rest) ≡ f.masked
  no_mask =
      ap (λ t. is_masked (first_byte f ∷ t))
        (append_assoc (size_bytes f.masked (length f.payload)) (body f) rest)
      ∙ is_masked-size_bytes f.masked (length f.payload) (first_byte f) (body f ++ rest)

  payload_plain :
      f.masked ≡ false
      → take_payload (wire f ++ rest) (length header) (length f.payload)
        ≡ found f.fin f.masked f.payload (length (wire f))
  payload_plain plain =
      take_payload_plain (wire f ++ rest) header f.payload rest room (no_mask ∙ plain) split
      ∙ cc (
        is_fin_first f.fin f.continuation
            (size_bytes f.masked (length f.payload) ++ body f ++ rest),
        used,
      )
    where
      no_body : body f ≡ f.payload
      no_body = ap (λ b. if b then f.key ++ unmask_from 0 f.key f.payload else f.payload) plain

      split : wire f ++ rest ≡ header ++ (f.payload ++ rest)
      split =
          ap (λ t. first_byte f ∷ t)
            (append_assoc (size_bytes f.masked (length f.payload)) (body f) rest
              ∙ ap (λ t. size_bytes f.masked (length f.payload) ++ (t ++ rest)) no_body)

      used : length header + 0 + length f.payload ≡ length (wire f)
      used = omega (
        arith,
        length-append (size_bytes f.masked (length f.payload)) (body f),
        ap length no_body,
      )

  payload_masked :
      f.masked ≡ true
      → take_payload (wire f ++ rest) (length header) (length f.payload)
        ≡ found f.fin f.masked f.payload (length (wire f))
  payload_masked masked =
      ap (take_payload (wire f ++ rest) (length header)) (sym same_size)
      ∙ take_payload_masked (wire f ++ rest) header hidden rest (omega (arith, room, same_size))
          f.key h.key_size (no_mask ∙ masked) split
      ∙ cc (
        is_fin_first f.fin f.continuation
            (size_bytes f.masked (length f.payload) ++ body f ++ rest),
        used,
        unmask_from_twice 0 f.key f.payload h.key_bytes h.bytes,
      )
    where
      hidden : List ℕ
      hidden = unmask_from 0 f.key f.payload

      same_size : length hidden ≡ length f.payload
      same_size = length-unmask_from 0 f.key f.payload

      key_and_body : body f ≡ f.key ++ hidden
      key_and_body =
          ap (λ b. if b then f.key ++ unmask_from 0 f.key f.payload else f.payload) masked

      split : wire f ++ rest ≡ header ++ (f.key ++ (hidden ++ rest))
      split =
          ap (λ t. first_byte f ∷ t)
            (append_assoc (size_bytes f.masked (length f.payload)) (body f) rest
              ∙ ap (λ t. size_bytes f.masked (length f.payload) ++ (t ++ rest)) key_and_body
              ∙ ap (λ t. size_bytes f.masked (length f.payload) ++ t)
                  (append_assoc f.key hidden rest))

      used : length header + 4 + length hidden ≡ length (wire f)
      used = omega (
        arith,
        length-append (size_bytes f.masked (length f.payload)) (body f),
        ap length key_and_body,
        length-append f.key hidden,
        h.key_size,
      )

  payload_taken :
      take_payload (wire f ++ rest) (length header) (length f.payload)
      ≡ found f.fin f.masked f.payload (length (wire f))
  payload_taken = elim (Bool-cases f.masked) [ inl e ↦ payload_masked e | inr e ↦ payload_plain e ]

  -- A frame at the front of the bytes is found by both parsers, its payload unmasked, and all its
  -- bytes are used.
  pub frame_found :
      (next_frame (wire f ++ rest) ≡ found f.fin f.masked f.payload (length (wire f)))
      × (first_frame (wire f ++ rest) ≡ found f.fin f.masked f.payload (length (wire f)))
  frame_found = (taken.0 ∙ payload_taken, taken.1 ∙ payload_taken)
    where
      field : length_field (wire f ++ rest) ≡ some (length header, length f.payload)
      field =
          ap (λ t. length_field (first_byte f ∷ t))
            (append_assoc (size_bytes f.masked (length f.payload)) (body f) rest)
          ∙ length_field-size_bytes f.masked (length f.payload) (first_byte f) (body f ++ rest)
              (omega (arith, h.size))

      taken :
          (next_frame (wire f ++ rest)
            ≡ take_payload (wire f ++ rest) (length header) (length f.payload))
          × (first_frame (wire f ++ rest)
              ≡ take_payload (wire f ++ rest) (length header) (length f.payload))
      taken =
          frame_taken (wire f ++ rest) f.continuation
            (omega (
              arith,
              length-append (size_bytes f.masked (length f.payload)) (body f),
              length-append (size_bytes f.masked (length f.payload) ++ body f) rest,
              size_bytes-pos f.masked (length f.payload),
            ))
            (opcode_first f.fin f.continuation
              (size_bytes f.masked (length f.payload) ++ body f ++ rest))
            field
