-- ===== src/Crypt/Base64.antt =====
-- lualib-src/lua-crypt.c: `lb64decode` of what `lb64encode` gives.
use ctkjserver.Base.{
  ℕ, zero, suc, ◌+◌, ◌*◌, ◌/◌, ◌%◌, ◌^◌, ◌<◌, ◌≡◌, refl, sym, ap, ap₂, ◌∙◌, some, List, [], ◌∷◌,
  length, lt→ltb, if_true, bit_and, bit_or, arith,
}
use ctkjserver.Base.Bits.{bit_and_mask, bit_or_fields}
use ctkjserver.Crypt.{
  encoding, encoded, encode_sz, b64encode, Index, digit, pad, b64index, collect, decode_quad,
  decode_loop, b64decode,
}
use ctkjserver.Crypt.Hex.{Bytes}

b64index-encoding : (n : ℕ) → n < 64 → b64index (encoding n) ≡ Index.digit n
unfolding b64index
b64index-encoding n l = ground arith

-- Four digits in a row.
collect_digits :
    (a b c d : ℕ) (text : List ℕ)
    → a < 64
    → b < 64
    → c < 64
    → d < 64
    → collect (encoding a ∷ encoding b ∷ encoding c ∷ encoding d ∷ text) 4
      ≡ some (digit a ∷ digit b ∷ digit c ∷ digit d ∷ [], text)
unfolding collect
collect_digits a b c d text p q r s =
    rw
      (
        collect,
        b64index-encoding a p,
        collect,
        b64index-encoding b q,
        collect,
        b64index-encoding c r,
        collect,
        b64index-encoding d s,
      )
      refl

-- `|` of a number with the low bits clear.
or_sum : (k high x low : ℕ) → x ≡ high * 2 ^ k → low < 2 ^ k → bit_or x low ≡ x + low
or_sum k high x low e l =
    ap (λ t. bit_or t low) e ∙ bit_or_fields high k low l ∙ ap (λ t. t + low) (sym e)

-- The word of three bytes, and of two.
word3 :
    (a b c : ℕ)
    → b < 256
    → c < 256
    → bit_or (bit_or (a * 2 ^ 16) (b * 2 ^ 8)) c ≡ a * 2 ^ 16 + b * 2 ^ 8 + c
word3 a b c p q =
    ap (λ t. bit_or t c) (bit_or_fields a 16 (b * 2 ^ 8) (omega arith))
    ∙ or_sum 8 (a * 2 ^ 8 + b) (a * 2 ^ 16 + b * 2 ^ 8) c (omega arith) q

-- The word of four digits.
word4 :
    (c0 c1 c2 c3 : ℕ)
    → c1 < 64
    → c2 < 64
    → c3 < 64
    → bit_or (bit_or (bit_or (c0 * 2 ^ 18) (c1 * 2 ^ 12)) (c2 * 2 ^ 6)) c3
      ≡ c0 * 2 ^ 18 + c1 * 2 ^ 12 + c2 * 2 ^ 6 + c3
word4 c0 c1 c2 c3 p q r =
    ap (λ t. bit_or (bit_or t (c2 * 2 ^ 6)) c3) (bit_or_fields c0 18 (c1 * 2 ^ 12) (omega arith))
    ∙ ap (λ t. bit_or t c3)
        (or_sum 12 (c0 * 2 ^ 6 + c1) (c0 * 2 ^ 18 + c1 * 2 ^ 12) (c2 * 2 ^ 6) (omega arith)
          (omega arith))
    ∙ or_sum 6 (c0 * 2 ^ 12 + c1 * 2 ^ 6 + c2) (c0 * 2 ^ 18 + c1 * 2 ^ 12 + c2 * 2 ^ 6) c3
        (omega arith) r

-- The digits of a word of 24 bits give its bytes.
decode_digits :
    (v : ℕ)
    → v < 2 ^ 24
    → decode_quad (
        digit (v / 2 ^ 18) ∷ digit (v / 2 ^ 12 % 64) ∷ digit (v / 2 ^ 6 % 64) ∷ digit (v % 64) ∷ [])
      ≡ some (v / 2 ^ 16 ∷ v / 2 ^ 8 % 256 ∷ v % 256 ∷ [])
unfolding decode_quad
decode_digits v l =
    let same : bit_or
          (bit_or (bit_or (v / 2 ^ 18 * 2 ^ 18) (v / 2 ^ 12 % 64 * 2 ^ 12))
            (v / 2 ^ 6 % 64 * 2 ^ 6))
          (v % 64)
        ≡ v =
      word4 (v / 2 ^ 18) (v / 2 ^ 12 % 64) (v / 2 ^ 6 % 64) (v % 64) (omega arith) (omega arith)
        (omega arith)
      ∙ omega arith in
    ap (λ t. some (t / 2 ^ 16 ∷ bit_and (t / 2 ^ 8) 0xff ∷ bit_and t 0xff ∷ [])) same
    ∙ ap₂ (λ (s : ℕ) (t : ℕ). some (v / 2 ^ 16 ∷ s ∷ t ∷ [])) (bit_and_mask 8 (v / 2 ^ 8))
        (bit_and_mask 8 v)

collect_one :
    (c0 c1 : ℕ)
    → c0 < 64
    → c1 < 64
    → collect (encoding c0 ∷ encoding c1 ∷ 61 ∷ 61 ∷ []) 4
      ≡ some (digit c0 ∷ digit c1 ∷ pad ∷ pad ∷ [], [])
unfolding collect b64index
collect_one c0 c1 p q = rw (collect, b64index-encoding c0 p, collect, b64index-encoding c1 q) refl

collect_two :
    (c0 c1 c2 : ℕ)
    → c0 < 64
    → c1 < 64
    → c2 < 64
    → collect (encoding c0 ∷ encoding c1 ∷ encoding c2 ∷ 61 ∷ []) 4
      ≡ some (digit c0 ∷ digit c1 ∷ digit c2 ∷ pad ∷ [], [])
unfolding collect b64index
collect_two c0 c1 c2 p q r =
    rw
      (
        collect,
        b64index-encoding c0 p,
        collect,
        b64index-encoding c1 q,
        collect,
        b64index-encoding c2 r,
      )
      refl

decode_one :
    (a : ℕ)
    → a < 256
    → decode_quad (digit (a / 2 ^ 2) ∷ digit (a % 4 * 2 ^ 4) ∷ pad ∷ pad ∷ []) ≡ some (a ∷ [])
unfolding decode_quad
decode_one a l =
    let cut : bit_and (a % 4 * 2 ^ 4) 0xf ≡ 0 = bit_and_mask 4 (a % 4 * 2 ^ 4) ∙ omega arith in
    let same : bit_or (a / 2 ^ 2 * 2 ^ 2) (a % 4 * 2 ^ 4 / 2 ^ 4) ≡ a =
      bit_or_fields (a / 2 ^ 2) 2 (a % 4 * 2 ^ 4 / 2 ^ 4) (omega arith) ∙ omega arith in
    rw (decode_quad, cut)
      (ap (λ t. some (t % 2 ^ 8 ∷ [])) same ∙ ap (λ t. some (t ∷ [])) {x = a % 2 ^ 8} (omega arith))

decode_two :
    (v : ℕ)
    → v < 2 ^ 16
    → decode_quad (digit (v / 2 ^ 10) ∷ digit (v / 2 ^ 4 % 64) ∷ digit (v % 16 * 2 ^ 2) ∷ pad ∷ [])
      ≡ some (v / 2 ^ 8 ∷ v % 256 ∷ [])
unfolding decode_quad
decode_two v l =
    let cut : bit_and (v % 16 * 2 ^ 2) 3 ≡ 0 = bit_and_mask 2 (v % 16 * 2 ^ 2) ∙ omega arith in
    let same : bit_or (bit_or (v / 2 ^ 10 * 2 ^ 10) (v / 2 ^ 4 % 64 * 2 ^ 4))
          (v % 16 * 2 ^ 2 / 2 ^ 2)
        ≡ v =
      ap (λ t. bit_or t (v % 16 * 2 ^ 2 / 2 ^ 2))
        (bit_or_fields (v / 2 ^ 10) 10 (v / 2 ^ 4 % 64 * 2 ^ 4) (omega arith))
      ∙ or_sum 4 (v / 2 ^ 10 * 2 ^ 6 + v / 2 ^ 4 % 64)
          (v / 2 ^ 10 * 2 ^ 10 + v / 2 ^ 4 % 64 * 2 ^ 4) (v % 16 * 2 ^ 2 / 2 ^ 2) (omega arith)
          (omega arith)
      ∙ omega arith in
    rw (decode_quad, cut)
      (ap (λ t. some (t / 2 ^ 8 ∷ bit_and t 0xff ∷ [])) same
        ∙ ap (λ (t : ℕ). some (v / 2 ^ 8 ∷ t ∷ [])) (bit_and_mask 8 v))

length-encoded : (xs : List ℕ) → length xs < length (encoded xs) + 1
unfolding encoded
length-encoded [] = omega arith
length-encoded (a ∷ []) = omega arith
length-encoded (a ∷ b ∷ []) = omega arith
length-encoded (a ∷ b ∷ c ∷ text) = omega (arith, length-encoded text)

-- The digits that stand for three bytes, as remainders of their word.
encode_three :
    (a b c : ℕ) (text : List ℕ)
    → b < 256
    → c < 256
    → let v = a * 2 ^ 16 + b * 2 ^ 8 + c in
      encoded (a ∷ b ∷ c ∷ text)
      ≡ encoding (v / 2 ^ 18)
        ∷ encoding (v / 2 ^ 12 % 64)
        ∷ encoding (v / 2 ^ 6 % 64)
        ∷ encoding (v % 64)
        ∷ encoded text
unfolding encoded
encode_three a b c text p q =
    let v = a * 2 ^ 16 + b * 2 ^ 8 + c in
    ap
      (λ (w : ℕ).
        encoding (w / 2 ^ 18)
        ∷ encoding (bit_and (w / 2 ^ 12) 0x3f)
        ∷ encoding (bit_and (w / 2 ^ 6) 0x3f)
        ∷ encoding (bit_and w 0x3f)
        ∷ encoded text)
      (word3 a b c p q)
    ∙ ap₂
        (λ (s : ℕ) (t : ℕ).
          encoding (v / 2 ^ 18)
          ∷ encoding s
          ∷ encoding t
          ∷ encoding (bit_and v 0x3f)
          ∷ encoded text)
        (bit_and_mask 6 (v / 2 ^ 12)) (bit_and_mask 6 (v / 2 ^ 6))
    ∙ ap
        (λ (s : ℕ).
          encoding (v / 2 ^ 18)
          ∷ encoding (v / 2 ^ 12 % 64)
          ∷ encoding (v / 2 ^ 6 % 64)
          ∷ encoding s
          ∷ encoded text)
        (bit_and_mask 6 v)

encode_two :
    (a b : ℕ)
    → b < 256
    → let v = a * 2 ^ 8 + b in
      encoded (a ∷ b ∷ [])
      ≡ encoding (v / 2 ^ 10) ∷ encoding (v / 2 ^ 4 % 64) ∷ encoding (v % 16 * 2 ^ 2) ∷ 61 ∷ []
unfolding encoded
encode_two a b p =
    let v = a * 2 ^ 8 + b in
    ap
      (λ (w : ℕ).
        encoding (w / 2 ^ 10)
        ∷ encoding (bit_and (w / 2 ^ 4) 0x3f)
        ∷ encoding (bit_and w 0xf * 2 ^ 2)
        ∷ 61
        ∷ [])
      (bit_or_fields a 8 b p)
    ∙ ap₂ (λ (s : ℕ) (t : ℕ). encoding (v / 2 ^ 10) ∷ encoding s ∷ encoding (t * 2 ^ 2) ∷ 61 ∷ [])
        (bit_and_mask 6 (v / 2 ^ 4)) (bit_and_mask 4 v)

encode_one :
    (a : ℕ) → encoded (a ∷ []) ≡ encoding (a / 2 ^ 2) ∷ encoding (a % 4 * 2 ^ 4) ∷ 61 ∷ 61 ∷ []
unfolding encoded
encode_one a =
    ap (λ (s : ℕ). encoding (a / 2 ^ 2) ∷ encoding (s * 2 ^ 4) ∷ 61 ∷ 61 ∷ []) (bit_and_mask 2 a)

encode_nil : encoded [] ≡ []
unfolding encoded
encode_nil = refl

decode_loop_lem :
    (f : ℕ) (xs : List ℕ) → Bytes xs → length xs < f → decode_loop f (encoded xs) ≡ some xs
unfolding decode_loop
decode_loop_lem zero xs b l = absurd (omega arith)
decode_loop_lem (suc f) [] b l = ap (decode_loop (suc f)) encode_nil
decode_loop_lem (suc zero) (a ∷ xs) b l = absurd (omega arith)
decode_loop_lem (suc (suc f)) (a ∷ []) (p, _) l =
    ap (decode_loop (suc (suc f))) (encode_one a)
    ∙ rw
        (
          decode_loop,
          collect_one (a / 2 ^ 2) (a % 4 * 2 ^ 4) (omega arith) (omega arith),
          decode_one a p,
        )
        refl
decode_loop_lem (suc (suc f)) (a ∷ b ∷ []) (p, (q, _)) l =
    let v = a * 2 ^ 8 + b in
    ap (decode_loop (suc (suc f))) (encode_two a b q)
    ∙ rw
        (
          decode_loop,
          collect_two (v / 2 ^ 10) (v / 2 ^ 4 % 64) (v % 16 * 2 ^ 2) (omega arith) (omega arith)
              (omega arith),
          decode_two v (omega arith),
        )
        (ap₂ (λ (s : ℕ) (t : ℕ). some (s ∷ t ∷ [])) {x = v / 2 ^ 8} (omega arith) (omega arith))
decode_loop_lem (suc f) (a ∷ b ∷ c ∷ xs) (p, (q, (r, rest))) l =
    let v = a * 2 ^ 16 + b * 2 ^ 8 + c in
    ap (decode_loop (suc f)) (encode_three a b c xs q r)
    ∙ rw
        (
          decode_loop,
          collect_digits (v / 2 ^ 18) (v / 2 ^ 12 % 64) (v / 2 ^ 6 % 64) (v % 64) (encoded xs)
              (omega arith) (omega arith) (omega arith) (omega arith),
          decode_digits v (omega arith),
          decode_loop_lem f xs rest (omega arith),
        )
        (ap₂ (λ (s : ℕ) (t : ℕ). some (s ∷ t ∷ v % 256 ∷ xs)) {x = v / 2 ^ 16} (omega arith)
            (omega arith)
          ∙ ap (λ (t : ℕ). some (a ∷ b ∷ t ∷ xs)) {x = v % 256} (omega arith))

-- The number of characters is `encode_sz`.
encoded-encode_sz : (xs : List ℕ) → length (encoded xs) ≡ encode_sz (length xs)
unfolding encoded
encoded-encode_sz [] = omega arith
encoded-encode_sz (a ∷ []) = omega arith
encoded-encode_sz (a ∷ b ∷ []) = omega arith
encoded-encode_sz (a ∷ b ∷ c ∷ text) = omega (arith, encoded-encode_sz text)

-- Bytes of which `encode_sz`, four characters for each three bytes that are begun, is less than 2 ^ 31
-- are encoded, in so many characters, and `lb64decode` gives them back.
pub b64decode-b64encode :
    (xs : List ℕ)
    → Bytes xs
    → encode_sz (length xs) < 2 ^ 31
    → (text : List ℕ) × (b64encode xs ≡ some text)
      × (length text ≡ encode_sz (length xs))
      × (b64decode text ≡ some xs)
unfolding b64encode b64decode
b64decode-b64encode xs b l = (
  encoded xs,
  if_true _ _ (lt→ltb _ _ l),
  encoded-encode_sz xs,
  if_true _ _ (lt→ltb (length (encoded xs)) (2 ^ 31) (omega (arith, l, encoded-encode_sz xs)))
      ∙ decode_loop_lem (length (encoded xs) + 1) xs b (length-encoded xs),
)
