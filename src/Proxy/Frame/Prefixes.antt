-- ===== src/Proxy/Frame/Prefixes.antt =====
-- What one round of `parse` finds at the front of the bytes, it finds whatever follows.
use exfiltrate.Common.{
  ℕ, zero, suc, ◌+◌, ◌≤◌, ◌<◌, List, [], ◌∷◌, ◌++◌, length, take, drop, Bool, Option, none, some,
  if◌then◌else◌,
}
use exfiltrate.Common.{
  arith, ◌≢◌, ◌≡◌, refl, ap, ◌∙◌, length-append, length-drop, drop-append_le, take-append_le,
}
use exfiltrate.Proxy.Frame.{
  fails, overflows, found, next_frame, first_frame, length_field, take_frame, take_payload, is_fin,
  opcode, is_masked, byte_at, closed, rejected,
}

byte_at-append : (i : ℕ) (bs more : List ℕ) → i < length bs → byte_at (bs ++ more) i ≡ byte_at bs i
byte_at-append i [] more h = absurd (omega arith)
byte_at-append zero (b ∷ bs) more h = refl
byte_at-append (suc i) (b ∷ bs) more h = byte_at-append i bs more (omega arith)

-- A range inside the first bytes.
range-append :
    (from n : ℕ) (bs more : List ℕ)
    → from + n ≤ length bs
    → take n (drop from (bs ++ more)) ≡ take n (drop from bs)
range-append from n bs more h =
    ap (take n) (drop-append_le from bs more (omega arith))
    ∙ take-append_le n (drop from bs) more (omega (arith, length-drop from bs))

module _ (bs more : List ℕ) (two : 2 ≤ length bs) where
  is_fin-append : is_fin (bs ++ more) ≡ is_fin bs
  unfolding is_fin
  is_fin-append = rw (byte_at-append 0 bs more (omega arith)) refl

  opcode-append : opcode (bs ++ more) ≡ opcode bs
  unfolding opcode
  opcode-append = rw (byte_at-append 0 bs more (omega arith)) refl

  is_masked-append : is_masked (bs ++ more) ≡ is_masked bs
  unfolding is_masked
  is_masked-append = rw (byte_at-append 1 bs more (omega arith)) refl

  length_field-append :
      (b n : ℕ) → length_field bs ≡ some (b, n) → length_field (bs ++ more) ≡ some (b, n)
  unfolding length_field
  length_field-append b n e =
      rw (byte_at-append 1 bs more (omega arith))
        (grind (arith, length-append bs more, range-append 2 2 bs more, range-append 2 8 bs more))

  take_payload-append :
      (b n : ℕ) {fin mask : Bool} {payload : List ℕ} {used : ℕ}
      → take_payload bs b n ≡ found fin mask payload used
      → take_payload (bs ++ more) b n ≡ found fin mask payload used
  unfolding take_payload
  take_payload-append b n e =
      rw (is_masked-append, is_fin-append)
        (grind (
          arith,
          e,
          length-append bs more,
          range-append b 4 bs more,
          range-append (b + (if is_masked bs then 4 else 0)) n bs more,
        ))

  take_frame-append :
      (o : Option (ℕ × ℕ)) {fin mask : Bool} {payload : List ℕ} {used : ℕ}
      → length_field bs ≡ o
      → take_frame bs o ≡ found fin mask payload used
      → take_frame (bs ++ more) (length_field (bs ++ more)) ≡ found fin mask payload used
  unfolding take_frame
  take_frame-append none l e = cc
  take_frame-append (some (b, n)) l e =
      ap (take_frame (bs ++ more)) (length_field-append b n l) ∙ take_payload-append b n e

  first_frame-append :
      {fin mask : Bool} {payload : List ℕ} {used : ℕ}
      → first_frame bs ≡ found fin mask payload used
      → first_frame (bs ++ more) ≡ found fin mask payload used
  unfolding first_frame
  first_frame-append e =
      rw opcode-append
        (grind (arith, length-append bs more, take_frame-append (length_field bs) refl))

-- A frame that is found is found whatever follows.
pub next_frame-append :
    (bs more : List ℕ) {fin mask : Bool} {payload : List ℕ} {used : ℕ}
    → next_frame bs ≡ found fin mask payload used
    → next_frame (bs ++ more) ≡ found fin mask payload used
unfolding next_frame
next_frame-append bs more {fin} {mask} {payload} {used} e =
    let two : 2 ≤ length bs = ground (arith, e) in
    rw (opcode-append bs more two) (
      grind (
        arith,
        e,
        length-append bs more,
        first_frame-append bs more two {fin = fin} {mask = mask} {payload = payload} {used = used},
      ))

take_payload-closed : (bs : List ℕ) (b n : ℕ) → take_payload bs b n ≢ fails closed
unfolding take_payload
take_payload-closed bs b n = λ e. ground (arith, e)

take_payload-rejected : (bs : List ℕ) (b n k : ℕ) → take_payload bs b n ≢ fails (rejected k)
unfolding take_payload
take_payload-rejected bs b n k = λ e. ground (arith, e)

take_payload_overflows :
    (bs more : List ℕ) (b n : ℕ)
    → 2 ≤ length bs
    → take_payload bs b n ≡ overflows
    → take_payload (bs ++ more) b n ≡ overflows
unfolding take_payload
take_payload_overflows bs more b n two e = rw (is_masked-append bs more two) (ground (arith, e))

take_frame-closed : (bs : List ℕ) (o : Option (ℕ × ℕ)) → take_frame bs o ≢ fails closed
unfolding take_frame
take_frame-closed bs none = λ e. cc
take_frame-closed bs (some (b, n)) = take_payload-closed bs b n

take_frame-rejected :
    (bs : List ℕ) (o : Option (ℕ × ℕ)) (k : ℕ) → take_frame bs o ≢ fails (rejected k)
unfolding take_frame
take_frame-rejected bs none k = λ e. cc
take_frame-rejected bs (some (b, n)) k = take_payload-rejected bs b n k

take_frame_overflows :
    (bs more : List ℕ) (o : Option (ℕ × ℕ))
    → 2 ≤ length bs
    → length_field bs ≡ o
    → take_frame bs o ≡ overflows
    → take_frame (bs ++ more) (length_field (bs ++ more)) ≡ overflows
unfolding take_frame
take_frame_overflows bs more none two l e = cc
take_frame_overflows bs more (some (b, n)) two l e =
    ap (take_frame (bs ++ more)) (length_field-append bs more two b n l)
    ∙ take_payload_overflows bs more b n two e

-- A close frame is found whatever follows.
pub next_closed :
    (bs more : List ℕ) → next_frame bs ≡ fails closed → next_frame (bs ++ more) ≡ fails closed
unfolding next_frame first_frame
next_closed bs more e =
    let two : 2 ≤ length bs = ground (arith, e) in
    rw (opcode-append bs more two)
      (grind (arith, e, length-append bs more, take_frame-closed bs (length_field bs)))

-- So is an opcode that is not supported.
pub next_rejected :
    (bs more : List ℕ) (k : ℕ)
    → next_frame bs ≡ fails (rejected k)
    → next_frame (bs ++ more) ≡ fails (rejected k)
unfolding next_frame first_frame
next_rejected bs more k e =
    let two : 2 ≤ length bs = ground (arith, e) in
    rw (opcode-append bs more two)
      (grind (arith, e, length-append bs more, take_frame-rejected bs (length_field bs) k))

-- So is a length that overflows.
pub next_overflows :
    (bs more : List ℕ) → next_frame bs ≡ overflows → next_frame (bs ++ more) ≡ overflows
unfolding next_frame first_frame
next_overflows bs more e =
    let two : 2 ≤ length bs = ground (arith, e) in
    rw (opcode-append bs more two) (
      grind
        (arith, e, length-append bs more, take_frame_overflows bs more (length_field bs) two refl))
