-- ===== src/Crypt/Hex.antt =====
-- lualib-src/lua-crypt.c: what `lfromhex` makes of the text that `ltohex` gives.
use ctkjserver.Base.{
  ℕ, ◌*◌, ◌/◌, ◌%◌, ◌^◌, ◌<◌, ◌≡◌, refl, ap, ◌∙◌, none, some, List, [], ◌∷◌, length, All, bit_and,
  ◌==◌, if◌then◌else◌, arith, le→ltb, ne→==,
}
use ctkjserver.Base.Bits.{bit_and_mask, bit_or_fields, bit_and_step}
use native.Mathlib.Decide.{ℕ_discrete}
use ctkjserver.Crypt.{hex, hex_value, tohex, hex_byte, from_pairs, fromhex}

-- A string of bytes.
abbrev pub Bytes : List ℕ → Type 0
Bytes = All (λ x. x < 256)

hex_value-hex : (n : ℕ) → n < 16 → hex_value (hex n) ≡ n
hex_value-hex n l = ground arith

hex_byte-hex : (x : ℕ) → x < 256 → hex_byte (hex (x / 2 ^ 4)) (hex (bit_and x 0xf)) ≡ some x
unfolding hex_byte
hex_byte-hex x l =
    let hi = hex_value-hex (x / 2 ^ 4) (omega arith) in
    let low : hex_value (hex (bit_and x 0xf)) ≡ x % 2 ^ 4 =
      ap (λ t. hex_value (hex t)) (bit_and_mask 4 x) ∙ hex_value-hex (x % 2 ^ 4) (omega arith) in
    rw (hex_byte, hi, low, le→ltb 16 (x / 2 ^ 4) (omega arith), le→ltb 16 (x % 2 ^ 4) (omega arith))
      (ap (λ t. some (t % 2 ^ 8)) (bit_or_fields (x / 2 ^ 4) 4 (x % 2 ^ 4) (omega arith))
        ∙ ap some (omega arith))

from_pairs-tohex : (xs : List ℕ) → Bytes xs → from_pairs (tohex xs) ≡ some xs
unfolding from_pairs tohex
from_pairs-tohex [] b = refl
from_pairs-tohex (x ∷ xs) (l, b) = rw (hex_byte-hex x l, from_pairs-tohex xs b) refl

length-tohex : (xs : List ℕ) → length (tohex xs) ≡ 2 * length xs
unfolding tohex
length-tohex [] = refl
length-tohex (x ∷ xs) = omega (arith, length-tohex xs)

-- Bit 1 of a number.
bit_one : (n : ℕ) → bit_and (2 * n) 2 ≡ 2 * (n % 2)
bit_one n =
    let half : bit_and (2 * n / 2) (2 / 2) ≡ bit_and n 1 =
      ap (λ t. bit_and t 1) {x = 2 * n / 2} {y = n} (omega arith) in
    omega (arith, bit_and_step (2 * n) 2, half, bit_and_mask 1 n)

-- `lfromhex` gives the bytes of a text of `ltohex` back when their number is even, and raises an
-- error when it is odd.
pub fromhex-tohex :
    (xs : List ℕ) → Bytes xs → fromhex (tohex xs) ≡ (if length xs % 2 == 0 then some xs else none)
unfolding fromhex
fromhex-tohex xs b =
    let two : bit_and (length (tohex xs)) 2 ≡ 2 * (length xs % 2) =
      ap (λ n. bit_and n 2) (length-tohex xs) ∙ bit_one (length xs) in
    elim (ℕ_discrete (length xs % 2) 0) [
      | yes e ↦ rw (fromhex, two, e) (from_pairs-tohex xs b)
      | no ne ↦
          rw
            (
              fromhex,
              two,
              ne→== (length xs % 2) 0 ne,
              ne→== (2 * (length xs % 2)) 0 (λ z. absurd (omega arith)),
            )
            refl
    ]
