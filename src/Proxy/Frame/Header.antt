-- ===== src/Proxy/Frame/Header.antt =====
-- What the parsers read off the front of a frame that is written as RFC 6455 says.
use Prim.Native.Nat.{bit_and}
use exfiltrate.Common.{
  ℕ, suc, ◌+◌, ◌^◌, ◌≤◌, ◌<◌, List, [], ◌∷◌, ◌++◌, length, take, drop, Bool, true, false, leb, some,
  if◌then◌else◌,
}
use exfiltrate.Common.{
  arith, ◌≡◌, sym, ap, ◌∙◌, Bool-cases, inl, inr, drop-append_length, take-append_length, drop-add,
  length-append, lt→ltb, le→ltb_false, lt→leb_false,
}
use exfiltrate.Common.Bytes.{
  to_be_bytes, low_seven_bits, high_bit, from_be_bytes-to_be_bytes_u16,
  from_be_bytes-to_be_bytes_u64,
}
use exfiltrate.Proxy.Frame.{found, is_fin, is_masked, length_field, unmask_from, take_payload}

-- The bytes of a payload's length, the highest bit of the first saying that there is a mask.
unfoldable pub size_bytes : Bool → ℕ → List ℕ
size_bytes masked n =
    let bit = if masked then 128 else 0 in
    if leb n 125
    then (bit + n) ∷ []
    else if leb n 65535
    then (bit + 126) ∷ to_be_bytes 2 n
    else (bit + 127) ∷ to_be_bytes 8 n

abbrev mask_bit : Bool → ℕ
mask_bit masked = if masked then 128 else 0

data Sized (masked : Bool) (n : ℕ) : Type 0 where
  short : n ≤ 125 → size_bytes masked n ≡ (mask_bit masked + n) ∷ [] → Sized masked n
  medium :
      125 < n
      → n ≤ 65535
      → size_bytes masked n ≡ (mask_bit masked + 126) ∷ to_be_bytes 2 n
      → Sized masked n
  long :
      65535 < n → size_bytes masked n ≡ (mask_bit masked + 127) ∷ to_be_bytes 8 n → Sized masked n

size_cases : (masked : Bool) (n : ℕ) → Sized masked n
unfolding size_bytes
size_cases masked n = elim (Bool-cases (leb n 125)) [
  | inl a ↦ short (ground arith) (rw a)
  | inr a ↦ elim (Bool-cases (leb n 65535)) [
    | inl b ↦ medium (ground arith) (ground arith) (rw (a, b))
    | inr b ↦ long (ground arith) (rw (a, b))
  ]
]

is_masked_byte :
    (masked : Bool) (m first : ℕ) (tail : List ℕ)
    → m < 128
    → is_masked (first ∷ (mask_bit masked + m) ∷ tail) ≡ masked
unfolding is_masked
is_masked_byte true m first tail h = ground (arith, high_bit (128 + m))
is_masked_byte false m first tail h = ground (arith, high_bit (0 + m))

low_bits_byte : (masked : Bool) (m : ℕ) → m < 128 → bit_and (mask_bit masked + m) 0b0111_1111 ≡ m
low_bits_byte true m h = omega (arith, low_seven_bits (128 + m))
low_bits_byte false m h = omega (arith, low_seven_bits (0 + m))

pub is_masked-size_bytes :
    (masked : Bool) (n first : ℕ) (tail : List ℕ)
    → is_masked (first ∷ (size_bytes masked n ++ tail)) ≡ masked
is_masked-size_bytes masked n first tail = elim (size_cases masked n) [
  | short a e ↦ rw e (is_masked_byte masked n first tail (omega arith))
  | medium a b e ↦ rw e (is_masked_byte masked 126 first _ (omega arith))
  | long a e ↦ rw e (is_masked_byte masked 127 first _ (omega arith))
]

module _ (masked : Bool) (first : ℕ) (n : ℕ) (tail : List ℕ) where
  length_field_short : n ≤ 125 → length_field (first ∷ (mask_bit masked + n) ∷ tail) ≡ some (2, n)
  unfolding length_field
  length_field_short h = rw (low_bits_byte masked n (omega arith), lt→ltb n 126 (omega arith))

  length_field_medium :
      n < 2 ^ 16
      → length_field (first ∷ (mask_bit masked + 126) ∷ (to_be_bytes 2 n ++ tail)) ≡ some (4, n)
  unfolding length_field
  length_field_medium h = rw (low_bits_byte masked 126 (omega arith)) (
      rw
        (le→ltb_false (length (first ∷ (mask_bit masked + 126) ∷ (to_be_bytes 2 n ++ tail))) 4
          (omega arith))
        (ap (λ t. some (4, t)) (from_be_bytes-to_be_bytes_u16 n h)))

  length_field_long :
      n < 2 ^ 64
      → length_field (first ∷ (mask_bit masked + 127) ∷ (to_be_bytes 8 n ++ tail)) ≡ some (10, n)
  unfolding length_field
  length_field_long h = rw (low_bits_byte masked 127 (omega arith)) (
      rw
        (le→ltb_false (length (first ∷ (mask_bit masked + 127) ∷ (to_be_bytes 8 n ++ tail))) 10
          (omega arith))
        (ap (λ t. some (10, t)) (from_be_bytes-to_be_bytes_u64 n h)))

pub length_field-size_bytes :
    (masked : Bool) (n first : ℕ) (tail : List ℕ)
    → n < 2 ^ 64
    → length_field (first ∷ (size_bytes masked n ++ tail))
      ≡ some (suc (length (size_bytes masked n)), n)
length_field-size_bytes masked n first tail h = elim (size_cases masked n) [
  | short a e ↦ rw e (length_field_short masked first n tail a)
  | medium a b e ↦ rw e (length_field_medium masked first n tail (omega arith))
  | long a e ↦ rw e (length_field_long masked first n tail h)
]

-- The payload behind a header `pre`, without a masking key and with one.
module _ (bs pre body rest : List ℕ) (fits : length pre + 4 + length body < 2 ^ 64) where
  pub take_payload_plain :
      is_masked bs ≡ false
      → bs ≡ pre ++ (body ++ rest)
      → take_payload bs (length pre) (length body)
        ≡ found (is_fin bs) false body (length pre + 0 + length body)
  unfolding take_payload
  take_payload_plain plain split = rw (
    plain,
    region,
    lt→leb_false (2 ^ 64) (length pre + 0 + length body) (omega arith),
    le→ltb_false (length bs) (length pre + 0 + length body) enough,
  )
    where
      region : take (length body) (drop (length pre + 0) bs) ≡ body
      region =
          ap (λ t. take (length body) t)
            (ap (drop (length pre + 0)) split
              ∙ drop-add (length pre) 0 (pre ++ (body ++ rest))
              ∙ drop-append_length pre (body ++ rest))
          ∙ take-append_length body rest

      enough : length pre + 0 + length body ≤ length bs
      enough =
          omega (arith, ap length split, length-append pre (body ++ rest), length-append body rest)

  pub take_payload_masked :
      (key : List ℕ)
      → length key ≡ 4
      → is_masked bs ≡ true
      → bs ≡ pre ++ (key ++ (body ++ rest))
      → take_payload bs (length pre) (length body)
        ≡ found (is_fin bs) true (unmask_from 0 key body) (length pre + 4 + length body)
  unfolding take_payload
  take_payload_masked key four masked split = rw (
    masked,
    region,
    the_key,
    lt→leb_false (2 ^ 64) (length pre + 4 + length body) fits,
    le→ltb_false (length bs) (length pre + 4 + length body) enough,
  )
    where
      behind_header : drop (length pre) bs ≡ key ++ (body ++ rest)
      behind_header = ap (drop (length pre)) split ∙ drop-append_length pre (key ++ (body ++ rest))

      the_key : take 4 (drop (length pre) bs) ≡ key
      the_key =
          ap (take 4) behind_header
          ∙ ap (λ t. take t (key ++ (body ++ rest))) (sym four)
          ∙ take-append_length key (body ++ rest)

      region : take (length body) (drop (length pre + 4) bs) ≡ body
      region =
          ap (take (length body)) (
            drop-add (length pre) 4 bs
            ∙ ap (drop 4) behind_header
            ∙ ap (λ t. drop t (key ++ (body ++ rest))) (sym four)
            ∙ drop-append_length key (body ++ rest))
          ∙ take-append_length body rest

      enough : length pre + 4 + length body ≤ length bs
      enough = omega (
        arith,
        ap length split,
        length-append pre (key ++ (body ++ rest)),
        length-append key (body ++ rest),
        length-append body rest,
      )
