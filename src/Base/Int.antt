-- ===== src/Base/Int.antt =====
-- Signed integers, for the C variables that take a negative value.
use Prim.Native.Nat.{ℕ, ◌-◌, ◌%◌, ◌^◌, ◌<◌}
use mathlib.Core.Path.{◌≡◌, ap, ◌∙◌}
use native.Mathlib.Omega.{arith}
use ctkjserver.Base.Tests.{ltb, lt→ltb, if_true, if◌then◌else◌}

-- `negsuc n` is -(n + 1).
pub data ℤ : Type 0 where
  pos : ℕ → ℤ
  negsuc : ℕ → ℤ

-- The cast of a `size_t` to `int`, of 32 bits
abbrev pub to_int32 : ℕ → ℤ
to_int32 n =
    if ltb (n % 2 ^ 32) (2 ^ 31) then pos (n % 2 ^ 32) else negsuc (2 ^ 32 - 1 - n % 2 ^ 32)

pub to_int32-pos : (n : ℕ) → n < 2 ^ 31 → to_int32 n ≡ pos n
to_int32-pos n l =
    if_true _ _ (lt→ltb (n % 2 ^ 32) (2 ^ 31) (omega (arith, l))) ∙ ap pos (omega (arith, l))
