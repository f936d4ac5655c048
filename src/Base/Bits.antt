-- ===== src/Base/Bits.antt =====
-- `&` with a low mask and `|` with a low mask or of disjoint fields, as arithmetic, at every width.
use Prim.Native.Nat.{
  ℕ, zero, suc, ◌+◌, ◌-◌, ◌*◌, ◌/◌, ◌%◌, ◌^◌, ◌<◌, ◌≤◌, min, max, digits, bit_and, bit_or, bitwise,
  bit_and-bitwise, bit_or-bitwise,
}
use mathlib.Core.Path.{◌≡◌, refl, ap, ◌∙◌}
use native.Mathlib.Decide.{dec_lt}
use native.Mathlib.Nat.{pow-suc, one-le-pow}
use native.Mathlib.Omega.{arith}

-- The fuel of `digits` does not matter once it reaches the first number.
module _ (rest : ℕ → ℕ) (op : ℕ → ℕ → ℕ) where
  one_more : (fuel x y : ℕ) → x ≤ fuel → digits rest op (suc fuel) x y ≡ digits rest op fuel x y
  one_more zero zero y le = refl
  one_more (suc fuel) zero y le = refl
  one_more zero (suc x) y le = absurd (omega arith)
  one_more (suc fuel) (suc x) y le = rw (one_more fuel (suc x / 2) (y / 2) (omega arith))

  enough : (fuel x y : ℕ) → x ≤ fuel → digits rest op fuel x y ≡ digits rest op x x y
  enough zero x y le = ap (λ n. digits rest op n x y) {x = 0} (omega arith)
  enough (suc fuel) x y le = elim (dec_lt fuel x) [
    | yes above ↦ ap (λ n. digits rest op n x y) {x = suc fuel} (omega arith)
    | no within ↦ one_more fuel x y (omega arith) ∙ enough fuel x y (omega arith)
  ]

  lowest_digit :
      (x y : ℕ)
      → bitwise rest op (suc x) y ≡ bitwise rest op (suc x / 2) (y / 2) * 2 + op (suc x % 2) (y % 2)
  lowest_digit x y =
      ap (λ d. d * 2 + op (suc x % 2) (y % 2)) (enough x (suc x / 2) (y / 2) (omega arith))

-- `|` digit by digit.
pub bit_or_step : (x y : ℕ) → bit_or x y ≡ max (x % 2) (y % 2) + 2 * bit_or (x / 2) (y / 2)
bit_or_step zero y = simp bit_or-bitwise (omega arith)
bit_or_step (suc x) y = simp bit_or-bitwise (omega (arith, lowest_digit (λ d. d) max x y))

-- `&` digit by digit.
pub bit_and_step : (x y : ℕ) → bit_and x y ≡ min (x % 2) (y % 2) + 2 * bit_and (x / 2) (y / 2)
bit_and_step zero y = simp bit_and-bitwise (omega arith)
bit_and_step (suc x) y = simp bit_and-bitwise (omega (arith, lowest_digit (λ _. 0) min x y))

bit_and-zero_below : (n a : ℕ) → a ≤ n → bit_and a 0 ≡ 0
bit_and-zero_below n zero h = refl
bit_and-zero_below zero (suc a) h = absurd (omega arith)
bit_and-zero_below (suc n) (suc a) h =
    omega (arith, bit_and_step (suc a) 0, bit_and-zero_below n (suc a / 2) (omega arith))

bit_or-zero_below : (n a : ℕ) → a ≤ n → bit_or a 0 ≡ a
bit_or-zero_below n zero h = refl
bit_or-zero_below zero (suc a) h = absurd (omega arith)
bit_or-zero_below (suc n) (suc a) h =
    omega (arith, bit_or_step (suc a) 0, bit_or-zero_below n (suc a / 2) (omega arith))

pub bit_and-zero : (a : ℕ) → bit_and a 0 ≡ 0
bit_and-zero a = bit_and-zero_below a a (omega arith)

pub bit_or-zero : (a : ℕ) → bit_or a 0 ≡ a
bit_or-zero a = bit_or-zero_below a a (omega arith)

-- A high part shifted by one more place.
pub shift_more : (k high : ℕ) → high * 2 ^ suc k ≡ (high * 2 ^ k) * 2
shift_more k high = omega (arith, ap (λ (t : ℕ). t * high) (pow-suc 2 k))

module _ (high : ℕ) where
  bit_and_low : (k low : ℕ) → low < 2 ^ k → bit_and (high * 2 ^ k + low) (2 ^ k - 1) ≡ low
  bit_and_low zero low small = rw bit_and-zero (omega arith)
  bit_and_low (suc k) low small =
      let below = bit_and_low k (low / 2) (omega arith) in
      let digit = bit_and_step (high * 2 ^ suc k + low) (2 ^ suc k - 1) in
      ground (arith, digit, below, shift_more k high, pow-suc 2 k)

  bit_or_low :
      (k low : ℕ) → low < 2 ^ k → bit_or (high * 2 ^ k + low) (2 ^ k - 1) + 1 ≡ (high + 1) * 2 ^ k
  bit_or_low zero low small = rw bit_or-zero (omega arith)
  bit_or_low (suc k) low small =
      let below = bit_or_low k (low / 2) (omega arith) in
      let digit = bit_or_step (high * 2 ^ suc k + low) (2 ^ suc k - 1) in
      ground (arith, digit, below, shift_more k high, pow-suc 2 k)

  -- A low part of `k` bits beside a shifted high part is a sum.
  pub bit_or_fields : (k low : ℕ) → low < 2 ^ k → bit_or (high * 2 ^ k) low ≡ high * 2 ^ k + low
  bit_or_fields zero low small = ground (arith, bit_or-zero high)
  bit_or_fields (suc k) low small =
      let below = bit_or_fields k (low / 2) (omega arith) in
      let digit = bit_or_step (high * 2 ^ suc k) low in
      ground (arith, digit, below, shift_more k high, pow-suc 2 k)

-- `x & (2^k - 1)` is the remainder by `2^k`.
pub bit_and_mask : (k x : ℕ) → bit_and x (2 ^ k - 1) ≡ x % 2 ^ k
bit_and_mask k x = ground (arith, one-le-pow k 2, bit_and_low (x / 2 ^ k) k (x % 2 ^ k))

-- `x | (2^k - 1)` sets the low bits.
pub bit_or_mask : (k x : ℕ) → bit_or x (2 ^ k - 1) ≡ x / 2 ^ k * 2 ^ k + (2 ^ k - 1)
bit_or_mask k x = ground (arith, one-le-pow k 2, bit_or_low (x / 2 ^ k) k (x % 2 ^ k))

-- `|` commutes: the digits do.
bit_or_comm_below : (n a b : ℕ) → a ≤ n → b ≤ n → bit_or a b ≡ bit_or b a
bit_or_comm_below zero zero zero p q = refl
bit_or_comm_below zero (suc a) b p q = absurd (omega arith)
bit_or_comm_below zero zero (suc b) p q = absurd (omega arith)
bit_or_comm_below (suc n) a b p q = omega (
  arith,
  bit_or_step a b,
  bit_or_step b a,
  bit_or_comm_below n (a / 2) (b / 2) (omega arith) (omega arith),
)

pub bit_or_comm : (a b : ℕ) → bit_or a b ≡ bit_or b a
bit_or_comm a b = bit_or_comm_below (a + b) a b (omega arith) (omega arith)
