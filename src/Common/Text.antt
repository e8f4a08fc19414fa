-- ===== src/Common/Text.antt =====
-- Rust strings as the lists of their UTF-8 bytes. Every literal of the program that stands in the
-- model is ASCII, so that its code points are its bytes.
use Prim.Native.Nat.{ℕ, zero, suc, ◌+◌, ◌/◌, ◌%◌}
use Prim.Native.Char.{code}
use Prim.Native.String.{String}
use mathlib.Core.Path.{◌≡◌, refl}
use mathlib.Core.Bool.{Bool, true, false, ◌&&◌}
use mathlib.Core.List.{List, [], ◌∷◌}
use native.Mathlib.Omega.{arith}
use package.exfiltrate.Common.Tests.{◌==◌, ltb, if◌then◌else◌}

abbrev pub Text : Type 0
Text = List ℕ

-- A literal.
abbrev pub text : String → Text
text String.[] = []
text (String.◌∷◌ c s) = code c ∷ text s

-- The `==` of strings.
unfoldable pub text_eq : Text → Text → Bool
text_eq [] [] = true
text_eq [] (c ∷ t) = false
text_eq (c ∷ s) [] = false
text_eq (c ∷ s) (d ∷ t) = c == d && text_eq s t

pub text_eq-eq : (s t : Text) → text_eq s t ≡ true → s ≡ t
unfolding text_eq
text_eq-eq [] [] h = refl
text_eq-eq [] (c ∷ t) h = cc
text_eq-eq (c ∷ s) [] h = cc
text_eq-eq (c ∷ s) (d ∷ t) h = ground (arith, text_eq-eq s t)

pub text_eq_refl : (s : Text) → text_eq s s ≡ true
unfolding text_eq
text_eq_refl [] = refl
text_eq_refl (c ∷ s) = ground (arith, text_eq_refl s)

-- `n.to_string()`: the last digit is written last; a number has at most as many digits as `fuel`.
decimal_digits : ℕ → ℕ → Text → Text
decimal_digits zero n tail = tail
decimal_digits (suc fuel) n tail =
    let tail' = (b'0' + n % 10) ∷ tail in
    let more = decimal_digits fuel (n / 10) tail' in if ltb n 10 then tail' else more

-- Twenty digits are enough for every number below 2 ^ 64.
unfoldable pub decimal : ℕ → Text
unfolding decimal_digits
decimal n = decimal_digits 20 n []

decimal_test : decimal 65535 ≡ text "65535"
unfolding decimal
decimal_test = refl
