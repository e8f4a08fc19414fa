-- ===== src/Wire/Delivery.antt =====
-- Streams of whole frames: what is buffered and what is still to be read, together.
use exfiltrate.Common.{ℕ, ◌+◌, ◌*◌, ◌^◌, ◌≤◌, ◌<◌, List, [], ◌∷◌, ◌++◌, length, drop}
use exfiltrate.Common.{some, none, ltb, arith, ◌≡◌, refl, ap, inl, inr, All}
use exfiltrate.Common.{Bool-cases, ltb→lt, ltb_false→le, length-append, length-drop}
use exfiltrate.Stream.{ok, ReadEvent, ready, failed, available, would_block}
use exfiltrate.Wire.{InFlightMessage, pop_msg}
use exfiltrate.Wire.Framing.{frames, pop_msg_complete, pop_msg_partial, drop_body}

-- Nothing but data and empty reads.
abbrev pub IsQuiet : ReadEvent → Type 0
IsQuiet (ready bs) = Unit
IsQuiet (failed would_block) = Unit
IsQuiet _ = ⊥

-- A message that leaves room for its header and one read in a `u32`.
abbrev pub FitsBuffer : List ℕ → Type 0
FitsBuffer msg = length msg + 1028 ≤ 2 ^ 32

-- `msgs` are what is still to be delivered.
pub record Delivers (m : InFlightMessage) (es : List ReadEvent) (msgs : List (List ℕ))
    : Type 0 where
  pub split : m.bytes ++ available es ≡ frames msgs
  pub small : length m.bytes < 2 ^ 32
  pub fits : All FitsBuffer msgs
  pub quiet : All IsQuiet es

-- Falls with every call that does something.
abbrev pub work_left : InFlightMessage → List ReadEvent → ℕ
work_left m es = length m.bytes + 2 * length (available es) + length es

abbrev pub Short : InFlightMessage → List (List ℕ) → Type 0
Short m [] = length m.bytes ≡ 0
Short m (msg ∷ msgs) = length m.bytes < length msg + 4

-- What `pop_msg` finds at the front of the bytes.
pub data Popped (m : InFlightMessage) (later : List ℕ) (msgs : List (List ℕ)) : Type 0 where
  whole :
      (msg : List ℕ) (rest : List (List ℕ)) (m' : InFlightMessage)
      → msgs ≡ msg ∷ rest
      → pop_msg m ≡ ok (some msg, m')
      → m'.bytes ++ later ≡ frames rest
      → length m'.bytes < length m.bytes
      → Popped m later msgs
  short : pop_msg m ≡ ok (none, m) → Short m msgs → Popped m later msgs

pub pop_frames :
    (m : InFlightMessage) (later : List ℕ) (msgs : List (List ℕ))
    → m.bytes ++ later ≡ frames msgs
    → length m.bytes < 2 ^ 32
    → All FitsBuffer msgs
    → Popped m later msgs
pop_frames m later [] split small fits =
    let empty : length m.bytes ≡ 0 = omega (arith, ap length split, length-append m.bytes later) in
    short (unfold pop_msg in ground arith) empty
pop_frames m later (msg ∷ msgs) split small fits =
    elim (Bool-cases (ltb (length m.bytes) (length msg + 4))) [
      | inl less ↦
          short
            (pop_msg_partial m later msg (frames msgs) split (omega arith) small (ltb→lt _ _ less))
            (ltb→lt _ _ less)
      | inr enough ↦
          let long : length msg + 4 ≤ length m.bytes = ltb_false→le _ _ enough in
          whole msg msgs _ refl
            (pop_msg_complete m later msg (frames msgs) split (omega arith) (omega arith) small
              long)
            (drop_body m later msg (frames msgs) split (omega arith) (omega arith) long)
            (omega (arith, length-drop 4 m.bytes, length-drop (length msg) (drop 4 m.bytes)))
    ]

-- With no work left, every message has been delivered.
pub no_work_left :
    (m : InFlightMessage) (es : List ReadEvent) (msgs : List (List ℕ))
    → Delivers m es msgs
    → work_left m es ≤ 0
    → msgs ≡ []
no_work_left m es [] d h = refl
no_work_left m es (msg ∷ msgs) d h =
    absurd (omega (arith, ap length d.split, length-append m.bytes (available es)))
