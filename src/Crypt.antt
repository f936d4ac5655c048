-- ===== src/Crypt.antt =====
-- lualib-src/lua-crypt.c: the text forms of bytes, hexadecimal and base64.
--
-- A Lua string is the list of its bytes; an error that is raised is `none`. The tables of
-- characters are written as ranges. The buffers, on the stack or allocated, are left out.
pub mod Hex
pub mod Base64
mod Tests
use ctkjserver.Base.{
  ℕ, zero, suc, ◌+◌, ◌-◌, ◌*◌, ◌/◌, ◌%◌, ◌^◌, Bool, true, false, Option, none, some, List, [], ◌∷◌,
  ◌++◌, length, bit_and, bit_or, ltb, ◌==◌, if◌then◌else◌, ◌&&◌,
}

infixl 5 ◌>>=◌
abbrev pub ◌>>=◌ {ℓ κ} : {A : Type ℓ} {B : Type κ} → Option A → (A → Option B) → Option B
none >>= f = none
some a >>= f = f a

-- `hex[n]`, of "0123456789abcdef"
abbrev pub hex : ℕ → ℕ
hex n = if ltb n 10 then 48 + n else 87 + n

-- `ltohex`
pub tohex : List ℕ → List ℕ
tohex [] = []
tohex (x ∷ text) = hex (x / 2 ^ 4) ∷ hex (bit_and x 0xf) ∷ tohex text

-- `HEX`, into a `uint8_t`
abbrev pub hex_value : ℕ → ℕ
hex_value c =
    if ltb c 48 then (c + 169) % 2 ^ 8 else (if ltb 57 c then (c + 169) % 2 ^ 8 else c - 48)

-- One byte of `lfromhex`
pub hex_byte : ℕ → ℕ → Option ℕ
hex_byte a b =
    let hi = hex_value a in
    let low = hex_value b in
    if ltb 16 hi
    then none
    else (if ltb 16 low then none else some (bit_or (hi * 2 ^ 4) low % 2 ^ 8))

-- The loop of `lfromhex`: behind the last character stands a zero.
pub from_pairs : List ℕ → Option (List ℕ)
from_pairs [] = some []
from_pairs (a ∷ []) = hex_byte a 0 >>= λ x. some (x ∷ [])
from_pairs (a ∷ b ∷ text) = hex_byte a b >>= λ x. from_pairs text >>= λ rest. some (x ∷ rest)

-- `lfromhex`, with the test of the size as it stands there
pub fromhex : List ℕ → Option (List ℕ)
fromhex text = if bit_and (length text) 2 == 0 then from_pairs text else none

-- `encoding[n]`, of "A…Za…z0…9+/"
abbrev pub encoding : ℕ → ℕ
encoding n =
    if ltb n 26
    then n + 65
    else (if ltb n 52 then n + 71 else (if ltb n 62 then n - 4 else (if n == 62 then 43 else 47)))

-- The characters that the loop and the switch of `lb64encode` write
pub encoded : List ℕ → List ℕ
encoded [] = []
encoded (a ∷ []) = encoding (a / 2 ^ 2) ∷ encoding (bit_and a 3 * 2 ^ 4) ∷ 61 ∷ 61 ∷ []
encoded (a ∷ b ∷ []) =
    let v = bit_or (a * 2 ^ 8) b in
    encoding (v / 2 ^ 10)
    ∷ encoding (bit_and (v / 2 ^ 4) 0x3f)
    ∷ encoding (bit_and v 0xf * 2 ^ 2)
    ∷ 61
    ∷ []
encoded (a ∷ b ∷ c ∷ text) =
    let v = bit_or (bit_or (a * 2 ^ 16) (b * 2 ^ 8)) c in
    encoding (v / 2 ^ 18)
    ∷ encoding (bit_and (v / 2 ^ 12) 0x3f)
    ∷ encoding (bit_and (v / 2 ^ 6) 0x3f)
    ∷ encoding (bit_and v 0x3f)
    ∷ encoded text

-- `(sz + 2)/3*4`
abbrev pub encode_sz : ℕ → ℕ
encode_sz sz = (sz + 2) / 3 * 4

-- `lb64encode`: `encode_sz` and `i` are of type `int`, and when the size of the text does not fit there
-- the buffer and the loop are wrong, which is `none`.
pub b64encode : List ℕ → Option (List ℕ)
unfolding encoded
b64encode text = if ltb (encode_sz (length text)) (2 ^ 31) then some (encoded text) else none

-- What `b64index` gives: a digit, -2 for "=", and -1 for a character that is skipped.
pub data Index : Type 0 where
  digit : ℕ → Index
  pad : Index
  skip : Index

-- `b64index`
pub b64index : ℕ → Index
b64index c =
    if ltb c 43
    then Index.skip
    else (if c == 43
        then Index.digit 62
        else (if c == 47
            then Index.digit 63
            else (if ltb c 48
                then Index.skip
                else (if ltb c 58
                    then Index.digit (c + 4)
                    else (if c == 61
                        then Index.pad
                        else (if ltb c 65
                            then Index.skip
                            else (if ltb c 91
                                then Index.digit (c - 65)
                                else (if ltb c 97
                                    then Index.skip
                                    else (if ltb c 123
                                        then Index.digit (c - 71)
                                        else Index.skip)))))))))

-- The inner loop of `lb64decode`: the next `left` characters that are not skipped.
pub collect : List ℕ → ℕ → Option (List Index × List ℕ)
collect text zero = some ([], text)
collect [] (suc left) = none
collect (t ∷ text) (suc left) = elim (b64index t) [
  | Index.skip ↦ collect text (suc left)
  | Index.pad ↦ collect text left >>= λ r. some (Index.pad ∷ r.0, r.1)
  | Index.digit n ↦ collect text left >>= λ r. some (Index.digit n ∷ r.0, r.1)
]

-- The bytes of four characters; "=" stands only at the end, and the bits cut off are 0.
pub decode_quad : List Index → Option (List ℕ)
decode_quad (Index.digit c0 ∷ Index.digit c1 ∷ Index.digit c2 ∷ Index.digit c3 ∷ []) =
    let v = bit_or (bit_or (bit_or (c0 * 2 ^ 18) (c1 * 2 ^ 12)) (c2 * 2 ^ 6)) c3 in
    some (v / 2 ^ 16 ∷ bit_and (v / 2 ^ 8) 0xff ∷ bit_and v 0xff ∷ [])
decode_quad (Index.digit c0 ∷ Index.digit c1 ∷ Index.digit c2 ∷ Index.pad ∷ []) =
    let v = bit_or (bit_or (c0 * 2 ^ 10) (c1 * 2 ^ 4)) (c2 / 2 ^ 2) in
    if bit_and c2 3 == 0 then some (v / 2 ^ 8 ∷ bit_and v 0xff ∷ []) else none
decode_quad (Index.digit c0 ∷ Index.digit c1 ∷ Index.pad ∷ Index.pad ∷ []) =
    let v = bit_or (c0 * 2 ^ 2) (c1 / 2 ^ 4) in
    if bit_and c1 0xf == 0 then some (v % 2 ^ 8 ∷ []) else none
decode_quad quad = none

-- The loop of `lb64decode`, on fuel, as `none` when it runs out.
pub decode_loop : ℕ → List ℕ → Option (List ℕ)
decode_loop zero text = none
decode_loop (suc f) [] = some []
decode_loop (suc f) (t ∷ text) = collect (t ∷ text) 4 >>= λ r.
    decode_quad (r.0) >>= λ bytes. decode_loop f (r.1) >>= λ rest. some (bytes ++ rest)

-- `lb64decode`: when the text is too long for the `int` index, `none`.
pub b64decode : List ℕ → Option (List ℕ)
b64decode text = if ltb (length text) (2 ^ 31) then decode_loop (length text + 1) text else none
