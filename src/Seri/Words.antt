-- ===== src/Seri/Words.antt =====
-- lualib-src/lua-seri.c: the bytes of a word in memory, and `rb_read`.
use native.Mathlib.Nat.{pow-suc}
use ctkjserver.Base.{
  ℕ, zero, suc, ◌+◌, ◌*◌, ◌/◌, ◌%◌, ◌^◌, ◌<◌, ◌≡◌, refl, sym, ap, ap₂, ◌∙◌, Option, none, some,
  List, [], ◌∷◌, ◌++◌, length, length-append, take, take-append, drop, drop-append, ltb, le→ltb,
  if◌then◌else◌, if_false, arith,
}

-- The low `n` bytes of a number, lowest first.
unfoldable pub bytes_of : ℕ → ℕ → List ℕ
bytes_of zero v = []
bytes_of (suc n) v = v % 256 ∷ bytes_of n (v / 256)

-- The number of some bytes, lowest first.
unfoldable pub number_of : List ℕ → ℕ
number_of [] = 0
number_of (b ∷ bytes) = b + 256 * number_of bytes

-- `rb_read`
unfoldable pub rb_read : List ℕ → ℕ → Option (List ℕ × List ℕ)
rb_read rb sz = if ltb (length rb) sz then none else some (take sz rb, drop sz rb)

pub length-bytes_of : (n v : ℕ) → length (bytes_of n v) ≡ n
unfolding bytes_of
length-bytes_of zero v = refl
length-bytes_of (suc n) v = ap suc (length-bytes_of n (v / 256))

pow_step : (n : ℕ) → 256 ^ suc n ≡ 256 ^ n * 256
pow_step n = pow-suc 256 n

pub number_of-bytes_of : (n v : ℕ) → v < 256 ^ n → number_of (bytes_of n v) ≡ v
unfolding bytes_of number_of
number_of-bytes_of zero v l = omega arith
number_of-bytes_of (suc n) v l =
    let small : v / 256 < 256 ^ n = omega (arith, pow_step n, l) in
    omega (arith, number_of-bytes_of n (v / 256) small)

pub rb_read-append :
    (bytes rest : List ℕ) (n : ℕ)
    → length bytes ≡ n
    → rb_read (bytes ++ rest) n ≡ some (bytes, rest)
unfolding rb_read
rb_read-append bytes rest n e =
    if_false none _ (le→ltb (length (bytes ++ rest)) n (omega (arith, e, length-append bytes rest)))
    ∙ ap (λ k. some (take k (bytes ++ rest), drop k (bytes ++ rest))) (sym e)
    ∙ ap₂ (λ a b. some (a, b)) (take-append bytes rest) (drop-append bytes rest)
