-- ===== src/Proxy/Frame/Agreement.antt =====
-- The incremental parser against `from_bytes`, on any bytes, and the rounds of its loop.
use exfiltrate.Common.{
  ℕ, zero, suc, ◌+◌, ◌≤◌, ◌<◌, List, [], ◌++◌, length, drop, Bool, true, false, Option, none, some,
}
use exfiltrate.Common.{arith, ◌≡◌, ◌≢◌, refl, length-drop, drop-add}
use exfiltrate.Proxy.Frame.{
  WebsocketFrameParser, WebsocketFrame, Found, fails, overflows, found, Parsed, stuck, Read,
  next_frame, first_frame, length_field, take_frame, take_payload, parse_loop, parse,
  continue_parse, continue_read, read_loop, from_bytes, new, send_data,
}

-- Where `from_bytes` finds a frame, `parse` finds the same.
first-next :
    (bs : List ℕ) {fin mask : Bool} {payload : List ℕ} {used : ℕ}
    → first_frame bs ≡ found fin mask payload used
    → next_frame bs ≡ found fin mask payload used
unfolding first_frame next_frame
first-next bs e = ground arith

take_payload_used :
    (bs : List ℕ) (b n : ℕ) {fin mask : Bool} {payload : List ℕ} {used : ℕ}
    → take_payload bs b n ≡ found fin mask payload used
    → (b ≤ used) × (used ≤ length bs)
unfolding take_payload
take_payload_used bs b n e = ground arith

length_field-ge : (bs : List ℕ) (b n : ℕ) → length_field bs ≡ some (b, n) → 2 ≤ b
unfolding length_field
length_field-ge bs b n e = ground arith

take_frame_used :
    (bs : List ℕ) (o : Option (ℕ × ℕ)) {fin mask : Bool} {payload : List ℕ} {used : ℕ}
    → length_field bs ≡ o
    → take_frame bs o ≡ found fin mask payload used
    → (2 ≤ used) × (used ≤ length bs)
unfolding take_frame
take_frame_used bs none l e = cc
take_frame_used bs (some (b, n)) l e =
    omega (arith, length_field-ge bs b n l, take_payload_used bs b n e)

-- A frame takes two bytes at least, and no more than there are.
pub found_used :
    (bs : List ℕ) {fin mask : Bool} {payload : List ℕ} {used : ℕ}
    → next_frame bs ≡ found fin mask payload used
    → (2 ≤ used) × (used ≤ length bs)
unfolding next_frame first_frame
found_used bs {fin} {mask} {payload} {used} e =
    take_frame_used bs (length_field bs) {fin = fin} {mask = mask} {payload = payload} refl
      (ground arith)

not_stuck_next :
    (next : WebsocketFrameParser → Parsed × WebsocketFrameParser) (p : WebsocketFrameParser)
    (x : Found)
    → next_frame p.unparsed_data ≡ x
    → ((q : WebsocketFrameParser)
        → length q.unparsed_data < length p.unparsed_data
        → (next q).0 ≢ stuck)
    → (continue_parse next p x).0 ≢ stuck
unfolding continue_parse
not_stuck_next next p (fails t) e ih = λ q. cc
not_stuck_next next p overflows e ih = λ q. cc
not_stuck_next next p (found true mask payload used) e ih = λ q. cc
not_stuck_next next p (found false mask payload used) e ih =
    ih _ (omega (arith, found_used p.unparsed_data e, length-drop used p.unparsed_data))

not_stuck :
    (rounds : ℕ) (p : WebsocketFrameParser)
    → length p.unparsed_data < rounds
    → (parse_loop rounds p).0 ≢ stuck
unfolding parse_loop
not_stuck zero p h = absurd (omega arith)
not_stuck (suc rounds) p h =
    not_stuck_next (parse_loop rounds) p (next_frame p.unparsed_data) refl
      (λ q less. not_stuck rounds q (omega arith))

-- `parse` ends on every input: its loop takes no more rounds than there are bytes, and one.
pub parse-ne-stuck : (p : WebsocketFrameParser) → (parse p).0 ≢ stuck
unfolding parse
parse-ne-stuck p = not_stuck (length p.unparsed_data + 1) p (omega arith)

-- The loop of `from_bytes` at an offset, and that of `parse` on the bytes behind it.
module _ (orig : List ℕ) (f : WebsocketFrame) (total : ℕ) where
  abbrev at_offset : List ℕ → ℕ → ℕ → WebsocketFrameParser
  at_offset out used n = record {
    parsed_data = out;
    unparsed_data = drop used orig;
    frames_received = n;
  }

  abbrev Agrees : Parsed × WebsocketFrameParser → Type 0
  Agrees x = x ≡ (
    Parsed.complete f,
    record { parsed_data = []; unparsed_data = drop total orig; frames_received = 0 },
  )

  agree_next :
      (read : List ℕ → ℕ → Read) (next : WebsocketFrameParser → Parsed × WebsocketFrameParser)
      (out : List ℕ) (used n : ℕ) (x : Found)
      → first_frame (drop used orig) ≡ x
      → continue_read read out used x ≡ Read.complete f total
      → ((out' : List ℕ) (used' n' : ℕ)
          → read out' used' ≡ Read.complete f total
          → Agrees (next (at_offset out' used' n')))
      → Agrees (continue_parse next (at_offset out used n) (next_frame (drop used orig)))
  unfolding continue_read continue_parse
  agree_next read next out used n (fails t) q e ih = cc
  agree_next read next out used n overflows q e ih = cc
  agree_next read next out used n (found true mask payload u) q e ih =
      rw (first-next (drop used orig) q) (cc (drop-add used u orig))
  agree_next read next out used n (found false mask payload u) q e ih =
      rw (first-next (drop used orig) q, ← drop-add used u orig)
        (ih (out ++ payload) (used + u) (n + 1) e)

  loops_agree :
      (rounds : ℕ) (out : List ℕ) (used n : ℕ)
      → read_loop rounds orig out used ≡ Read.complete f total
      → Agrees (parse_loop rounds (at_offset out used n))
  unfolding read_loop parse_loop
  loops_agree zero out used n e = cc
  loops_agree (suc rounds) out used n e =
      agree_next (read_loop rounds orig) (parse_loop rounds) out used n
        (first_frame (drop used orig)) refl e
        (λ out' used' n' e'. loops_agree rounds out' used' n' e')

  -- The incremental parser agrees with `from_bytes`: on any bytes from which `from_bytes` reads a
  -- frame, a new parser that is sent these bytes returns the same frame, and keeps exactly the bytes
  -- that `from_bytes` did not use.
  pub parse-from_bytes :
      from_bytes orig ≡ Read.complete f total → Agrees (parse (send_data orig new))
  unfolding from_bytes parse send_data new
  parse-from_bytes e = loops_agree (length orig + 1) [] 0 0 e
