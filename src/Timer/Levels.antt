-- ===== src/Timer/Levels.antt =====
-- skynet-src/skynet_timer.c: which slot a node belongs to, at a time of the wheel.
use ctkjserver.Base.{
  ℕ, zero, suc, ◌/◌, ◌%◌, ◌^◌, ◌≤◌, ◌<◌, ◌≡◌, ◌≢◌, ◌⊎◌, bit_or, ◌==◌, if◌then◌else◌, arith,
}
use ctkjserver.Base.Bits.{bit_or_mask}
use ctkjserver.Timer.{find_level}

-- The node of a near slot `j`: the same block of 256 ticks, and not past.
abbrev pub NearAt : ℕ → ℕ → ℕ → Type 0
NearAt time j e = (e / 256 ≡ time / 256) × (e % 256 ≡ j) × (time ≤ e) × (e < 2 ^ 32)

-- The node of slot `j` of a level: a later block of the level's size, in the same block of the next
-- level's size. On the last level a later block may lie behind the wrap of the clock.
abbrev pub LevelAt : ℕ → ℕ → ℕ → ℕ → Type 0
LevelAt zero time j e =
    (e / 2 ^ 14 ≡ time / 2 ^ 14) × (time / 2 ^ 8 < e / 2 ^ 8) × (e / 2 ^ 8 % 64 ≡ j) × (e < 2 ^ 32)
LevelAt (suc zero) time j e =
    (e / 2 ^ 20 ≡ time / 2 ^ 20)
    × (time / 2 ^ 14 < e / 2 ^ 14)
    × (e / 2 ^ 14 % 64 ≡ j)
    × (e < 2 ^ 32)
LevelAt (suc (suc zero)) time j e =
    (e / 2 ^ 26 ≡ time / 2 ^ 26)
    × (time / 2 ^ 20 < e / 2 ^ 20)
    × (e / 2 ^ 20 % 64 ≡ j)
    × (e < 2 ^ 32)
LevelAt (suc (suc (suc zero))) time j e =
    (e / 2 ^ 26 ≢ time / 2 ^ 26) × (e / 2 ^ 26 % 64 ≡ j) × (e < 2 ^ 32)
LevelAt (suc (suc (suc (suc i)))) time j e = ⊥

-- A node that can be placed: not past, or far enough behind to lie behind the wrap of the clock.
abbrev pub Due : ℕ → ℕ → Type 0
Due time e = ((time ≤ e) ⊎ (e / 2 ^ 26 ≢ time / 2 ^ 26)) × (e < 2 ^ 32)

-- `(a | (2^k - 1)) == (b | (2^k - 1))` compares the blocks of 2^k.
pub same_block_8 : (a b : ℕ) → (bit_or a 255 == bit_or b 255) ≡ (a / 256 == b / 256)
same_block_8 a b = ground (arith, bit_or_mask 8 a, bit_or_mask 8 b)

same_block_14 : (a b : ℕ) → (bit_or a 16383 == bit_or b 16383) ≡ (a / 2 ^ 14 == b / 2 ^ 14)
same_block_14 a b = ground (arith, bit_or_mask 14 a, bit_or_mask 14 b)

same_block_20 : (a b : ℕ) → (bit_or a 1048575 == bit_or b 1048575) ≡ (a / 2 ^ 20 == b / 2 ^ 20)
same_block_20 a b = ground (arith, bit_or_mask 20 a, bit_or_mask 20 b)

same_block_26 : (a b : ℕ) → (bit_or a 67108863 == bit_or b 67108863) ≡ (a / 2 ^ 26 == b / 2 ^ 26)
same_block_26 a b = ground (arith, bit_or_mask 26 a, bit_or_mask 26 b)

-- The level that `add_node` chooses, as a test of the blocks.
pub find_level_blocks :
    (e time : ℕ)
    → find_level 3 0 (2 ^ 14) e time ≡ (
        if e / 2 ^ 14 == time / 2 ^ 14
        then 0
        else (if e / 2 ^ 20 == time / 2 ^ 20
            then 1
            else (if e / 2 ^ 26 == time / 2 ^ 26 then 2 else 3)))
unfolding find_level
find_level_blocks e time = rw (same_block_14 e time, same_block_20 e time, same_block_26 e time)
