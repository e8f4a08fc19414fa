-- ===== src/Common/Bytes.antt =====
-- Bytes as numbers below 256: the big-endian conversions of the standard library, and the masks
-- on one byte that the WebSocket code uses.
use Prim.Native.Nat.{ℕ, zero, suc, ◌+◌, ◌*◌, ◌/◌, ◌%◌, ◌^◌, ◌-◌, ◌<◌, bit_and, bit_or, bit_xor}
use mathlib.Core.Path.{◌≡◌, refl}
use mathlib.Core.Bool.{Bool, true, false, ◌&&◌}
use mathlib.Core.List.{List, [], ◌∷◌}
use mathlib.Core.Logic.{ite}
use native.Mathlib.Decide.{ℕ_discrete, dec_lt}
use native.Mathlib.Omega.{arith}
use package.exfiltrate.Common.Lists.{length}

abbrev pub IsByte : ℕ → Type 0
IsByte b = b < 256

abbrev pub u32_max : ℕ
u32_max = 2 ^ 32 - 1

-- `to_be_bytes` of a word of `width` bytes, the highest byte first.
abbrev pub to_be_bytes : ℕ → ℕ → List ℕ
to_be_bytes zero n = []
to_be_bytes (suc width) n = (n / 256 ^ width % 256) ∷ to_be_bytes width n

abbrev pub be_bytes_from : ℕ → List ℕ → ℕ
be_bytes_from acc [] = acc
be_bytes_from acc (b ∷ bs) = be_bytes_from (acc * 256 + b) bs

-- `from_be_bytes`
abbrev pub from_be_bytes : List ℕ → ℕ
from_be_bytes = be_bytes_from 0

pub length-to_be_bytes : (width n : ℕ) → length (to_be_bytes width n) ≡ width
length-to_be_bytes zero n = refl
length-to_be_bytes (suc width) n = omega (arith, length-to_be_bytes width n)

pub from_be_bytes-to_be_bytes_u16 : (n : ℕ) → n < 2 ^ 16 → from_be_bytes (to_be_bytes 2 n) ≡ n
from_be_bytes-to_be_bytes_u16 n h = omega arith

pub from_be_bytes-to_be_bytes_u32 : (n : ℕ) → n < 2 ^ 32 → from_be_bytes (to_be_bytes 4 n) ≡ n
from_be_bytes-to_be_bytes_u32 n h = omega arith

pub from_be_bytes-to_be_bytes_u64 : (n : ℕ) → n < 2 ^ 64 → from_be_bytes (to_be_bytes 8 n) ≡ n
from_be_bytes-to_be_bytes_u64 n h = omega arith

-- Facts about masks, by evaluation at every byte.
module _ (f g : ℕ → ℕ) where
  equal_below : ℕ → Bool
  unfolding ℕ_discrete
  equal_below zero = true
  equal_below (suc n) = ite (ℕ_discrete (f n) (g n)) (equal_below n) false

  equal_below_sound : (n : ℕ) → equal_below n ≡ true → (i : ℕ) → i < n → f i ≡ g i
  unfolding equal_below
  equal_below_sound zero e i h = absurd (omega arith)
  equal_below_sound (suc n) e i h = ground (arith, equal_below_sound n (ground arith) i)

pub low_seven_bits : (b : ℕ) → b < 256 → bit_and b 0b0111_1111 ≡ b % 128
unfolding equal_below
low_seven_bits = equal_below_sound _ _ 256 refl

pub high_bit : (b : ℕ) → b < 256 → bit_and b 0b1000_0000 ≡ b / 128 * 128
unfolding equal_below
high_bit = equal_below_sound _ _ 256 refl

pub set_high_bit : (b : ℕ) → b < 128 → bit_or b 0b1000_0000 ≡ b + 128
unfolding equal_below
set_high_bit = equal_below_sound _ _ 128 refl

pub or_zero : (b : ℕ) → b < 128 → bit_or b 0 ≡ b
unfolding equal_below
or_zero = equal_below_sound _ _ 128 refl

-- Every byte with every byte as its key.
toggles_below : ℕ → Bool
unfolding equal_below
toggles_below zero = true
toggles_below (suc k) = equal_below (λ b. bit_xor (bit_xor b k) k) (λ b. b) 256 && toggles_below k

toggles_below_sound :
    (n : ℕ) → toggles_below n ≡ true → (k b : ℕ) → k < n → b < 256 → bit_xor (bit_xor b k) k ≡ b
unfolding toggles_below
toggles_below_sound zero e k b hk hb = absurd (omega arith)
toggles_below_sound (suc n) e k b hk hb = elim (dec_lt k n) [
  | yes less ↦ toggles_below_sound n (ground arith) k b less hb
  | no other ↦
      let same : k ≡ n = omega arith in
      rw same (equal_below_sound (λ c. bit_xor (bit_xor c n) n) (λ c. c) 256 (ground arith) b hb)
]

pub xor_twice : (b k : ℕ) → b < 256 → k < 256 → bit_xor (bit_xor b k) k ≡ b
unfolding toggles_below
xor_twice b k hb hk = toggles_below_sound 256 refl k b hk hb
