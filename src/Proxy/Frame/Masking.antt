-- ===== src/Proxy/Frame/Masking.antt =====
-- The masking of RFC 6455, section 5.3, and the first byte of a frame.
use exfiltrate.Common.{
  ℕ, zero, suc, ◌+◌, ◌%◌, List, [], ◌∷◌, length, Bool, true, false, if◌then◌else◌,
}
use exfiltrate.Common.{arith, ◌≡◌, refl, ap, All}
use exfiltrate.Common.Bytes.{IsByte, xor_twice}
use exfiltrate.Proxy.Frame.{is_fin, opcode, unmask_from, byte_at}
use exfiltrate.Proxy.Frame.Header.{}

-- Whatever the index, a byte of the key is a byte.
byte_at-IsByte : (key : List ℕ) (i : ℕ) → All IsByte key → IsByte (byte_at key i)
byte_at-IsByte [] i h = omega arith
byte_at-IsByte (k ∷ ks) zero h = h.0
byte_at-IsByte (k ∷ ks) (suc i) h = byte_at-IsByte ks i h.1

-- The masking is its own inverse.
pub unmask_from_twice :
    (i : ℕ) (key bs : List ℕ)
    → All IsByte key
    → All IsByte bs
    → unmask_from i key (unmask_from i key bs) ≡ bs
unfolding unmask_from
unmask_from_twice i key [] hk hb = refl
unmask_from_twice i key (b ∷ bs) hk hb =
    rw (xor_twice b (byte_at key (i % 4)) hb.0 (byte_at-IsByte key (i % 4) hk))
      (ap (λ t. b ∷ t) (unmask_from_twice (i + 1) key bs hk hb.1))

-- Masking keeps the length.
pub length-unmask_from : (i : ℕ) (key bs : List ℕ) → length (unmask_from i key bs) ≡ length bs
unfolding unmask_from
length-unmask_from i key [] = refl
length-unmask_from i key (b ∷ bs) = ap suc (length-unmask_from (i + 1) key bs)

-- The first byte of a frame.
abbrev pub first_of : Bool → Bool → ℕ
first_of fin continuation = (if fin then 128 else 0) + (if continuation then 0 else 2)

pub is_fin_first :
    (fin continuation : Bool) (tail : List ℕ) → is_fin (first_of fin continuation ∷ tail) ≡ fin
unfolding is_fin
is_fin_first true true tail = refl
is_fin_first true false tail = refl
is_fin_first false true tail = refl
is_fin_first false false tail = refl

pub opcode_first :
    (fin continuation : Bool) (tail : List ℕ)
    → opcode (first_of fin continuation ∷ tail) ≡ (if continuation then 0 else 2)
unfolding opcode
opcode_first true true tail = refl
opcode_first true false tail = refl
opcode_first false true tail = refl
opcode_first false false tail = refl
