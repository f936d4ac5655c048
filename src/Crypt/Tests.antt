-- ===== src/Crypt/Tests.antt =====
-- Runs of the text forms on "foob" and "foobar", and the theorems at them.
use ctkjserver.Base.{
  ℕ, ◌%◌, ◌≡◌, refl, none, some, List, [], ◌∷◌, length, ◌==◌, if◌then◌else◌, arith,
}
use ctkjserver.Crypt.{
  tohex, hex_byte, from_pairs, fromhex, encoded, encode_sz, b64encode, b64index, collect,
  decode_quad, decode_loop, b64decode,
}
use ctkjserver.Crypt.Hex.{Bytes, fromhex-tohex}
use ctkjserver.Crypt.Base64.{b64decode-b64encode}

-- "foob"
abbrev foob : List ℕ
foob = 102 ∷ 111 ∷ 111 ∷ 98 ∷ []

-- "Zm9vYg=="
b64encode_runs : b64encode foob ≡ some (90 ∷ 109 ∷ 57 ∷ 118 ∷ 89 ∷ 103 ∷ 61 ∷ 61 ∷ [])
unfolding b64encode encoded
b64encode_runs = refl

-- A line break in the text is skipped.
b64decode_runs : b64decode (90 ∷ 109 ∷ 57 ∷ 118 ∷ 10 ∷ 89 ∷ 103 ∷ 61 ∷ 61 ∷ []) ≡ some foob
unfolding b64decode decode_loop decode_quad collect b64index
b64decode_runs = refl

-- The text of one byte is refused.
fromhex_runs : fromhex (52 ∷ 49 ∷ []) ≡ none
unfolding fromhex from_pairs hex_byte
fromhex_runs = refl

foob-Bytes : Bytes foob
foob-Bytes = (omega arith, (omega arith, (omega arith, (omega arith, tt))))

fromhex-tohex_example : fromhex (tohex foob) ≡ (if length foob % 2 == 0 then some foob else none)
fromhex-tohex_example = fromhex-tohex foob foob-Bytes

b64decode-b64encode_example :
    (text : List ℕ) × (b64encode foob ≡ some text)
    × (length text ≡ encode_sz (length foob))
    × (b64decode text ≡ some foob)
b64decode-b64encode_example = b64decode-b64encode foob foob-Bytes (omega arith)
