-- ===== src/Proxy/Frame/Closing.antt =====
-- Errors at the front of the bytes, and lengths that overflow.
use exfiltrate.Common.{
  ℕ, ◌+◌, ◌^◌, ◌≤◌, ◌<◌, List, ◌∷◌, ◌++◌, length, arith, ◌≡◌, refl, ap, ◌∙◌, le→ltb_false, Bool,
  some, length-append,
}
use exfiltrate.Proxy.Frame.{
  WebsocketFrameParser, FrameError, closed, fails, overflows, failed, panicked, next_frame,
  first_frame, length_field, opcode, take_payload, parse, parse_loop, continue_parse, send_data,
}
use exfiltrate.Proxy.Frame.Header.{size_bytes, length_field-size_bytes}
use native.Mathlib.Numerals.{add-one}

pub fails_closed : (bs : List ℕ) → 2 ≤ length bs → opcode bs ≡ 8 → next_frame bs ≡ fails closed
unfolding next_frame
fails_closed bs two close = rw (le→ltb_false (length bs) 2 two, close)

-- The opcode stands in the first byte.
pub opcode_front : (b : ℕ) (bs cs : List ℕ) → opcode (b ∷ bs) ≡ opcode (b ∷ cs)
unfolding opcode
opcode_front b bs cs = refl

pub unparsed-send_data :
    (bs : List ℕ) (p : WebsocketFrameParser)
    → (send_data bs p).unparsed_data ≡ p.unparsed_data ++ bs
unfolding send_data
unparsed-send_data bs p = refl

-- An error in the first frame is the result of `parse`, which then changes nothing.
pub parse_failed :
    (p : WebsocketFrameParser) {e : FrameError}
    → next_frame p.unparsed_data ≡ fails e
    → parse p ≡ (failed e, p)
unfolding parse parse_loop continue_parse
parse_failed p e =
    ap (λ t. parse_loop t p) (add-one (length p.unparsed_data))
    ∙ ap (continue_parse (parse_loop (length p.unparsed_data)) p) e

take_payload_overflows :
    (bs : List ℕ) (mask_begin len : ℕ)
    → 2 ^ 64 ≤ mask_begin + len
    → take_payload bs mask_begin len ≡ overflows
unfolding take_payload
take_payload_overflows bs mask_begin len h = ground arith

header_overflows :
    (bs : List ℕ) (mask_begin len : ℕ)
    → 2 ≤ length bs
    → opcode bs ≡ 2
    → length_field bs ≡ some (mask_begin, len)
    → 2 ^ 64 ≤ mask_begin + len
    → next_frame bs ≡ overflows
unfolding next_frame first_frame
header_overflows bs mask_begin len two op field h =
    rw (le→ltb_false (length bs) 2 two, op, field) (take_payload_overflows bs mask_begin len h)

length-size_bytes_long : (masked : Bool) (n : ℕ) → 65535 < n → length (size_bytes masked n) ≡ 9
unfolding size_bytes
length-size_bytes_long masked n h = ground arith

opcode_binary : (tail : List ℕ) → opcode (0b1000_0010 ∷ tail) ≡ 2
unfolding opcode
opcode_binary tail = refl

-- A binary frame whose 64-bit length field leaves no room for the header panics the parser, whatever
-- follows: the bytes of the payload need not come in.
pub parse_overflow :
    (p : WebsocketFrameParser) (masked : Bool) (len : ℕ) (rest : List ℕ)
    → len < 2 ^ 64
    → 2 ^ 64 ≤ len + 10
    → p.unparsed_data ≡ 0b1000_0010 ∷ (size_bytes masked len ++ rest)
    → parse p ≡ (panicked, p)
unfolding parse parse_loop continue_parse
parse_overflow p masked len rest small large e =
    ap (λ t. parse_loop t p) (add-one (length p.unparsed_data))
    ∙ ap (continue_parse (parse_loop (length p.unparsed_data)) p) (
        ap next_frame e
        ∙ header_overflows _ _ len (omega (arith, length-append (size_bytes masked len) rest, nine))
            (opcode_binary (size_bytes masked len ++ rest))
            (length_field-size_bytes masked len 0b1000_0010 rest small) (omega (arith, nine)))
  where
    nine : length (size_bytes masked len) ≡ 9
    nine = length-size_bytes_long masked len (omega arith)
