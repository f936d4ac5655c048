-- ===== src/Base/Words.antt =====
-- The fixed widths of C, written out as remainders.
use Prim.Native.Nat.{ℕ, ◌%◌, ◌^◌}

-- A `uint8_t`, `uint32_t` and `uint64_t` conversion.
abbrev pub u8 : ℕ → ℕ
u8 n = n % 2 ^ 8

abbrev pub u32 : ℕ → ℕ
u32 n = n % 2 ^ 32

abbrev pub u64 : ℕ → ℕ
u64 n = n % 2 ^ 64
