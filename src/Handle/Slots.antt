-- ===== src/Handle/Slots.antt =====
-- skynet-src/skynet_handle.c: a slot holds the context whose handle has the index as its low bits.
use ctkjserver.Base.{
  ℕ, zero, suc, ◌+◌, ◌-◌, ◌*◌, ◌/◌, ◌%◌, ◌^◌, ◌≤◌, ◌≡◌, sym, ap, ◌∙◌, bit_and, u32, arith,
}
use ctkjserver.Base.Bits.{bit_and_mask}
use ctkjserver.Base.Rounds.{mul-add-mod}
use native.Mathlib.Nat.{div-add-mod', pow-suc, mod-mod}

-- The remainder by twice a number, by that number.
pub mod-mod_twice : (n x : ℕ) → x % (n * 2) % n ≡ x % n
mod-mod_twice n x =
    let whole : x / (n * 2) * 2 * n + x % (n * 2) ≡ x = ground (arith, div-add-mod' x (n * 2)) in
    sym (mul-add-mod (x / (n * 2) * 2) n (x % (n * 2))) ∙ ap (λ t. t % n) whole

-- The low bits of the low bits.
mod-mod_pow : (k d x : ℕ) → x % 2 ^ (d + k) % 2 ^ k ≡ x % 2 ^ k
mod-mod_pow k zero x =
    ap (λ e. x % 2 ^ e % 2 ^ k) {x = 0 + k} {y = k} (omega arith) ∙ mod-mod x (2 ^ k)
mod-mod_pow k (suc d) x =
    let more : 2 ^ (suc d + k) ≡ 2 ^ (d + k) * 2 =
      ap (λ e. 2 ^ e) {x = suc d + k} {y = suc (d + k)} (omega arith) ∙ pow-suc 2 (d + k) in
    let y = x % 2 ^ (suc d + k) in
    sym (mod-mod_pow k d y)
    ∙ ap (λ t. t % 2 ^ k) (ap (λ n. x % n % 2 ^ (d + k)) more ∙ mod-mod_twice (2 ^ (d + k)) x)
    ∙ mod-mod_pow k d x

-- The low bits of a handle without its harbor.
pub low_of_handle : (k x : ℕ) → k ≤ 24 → x % 2 ^ 24 % 2 ^ k ≡ x % 2 ^ k
low_of_handle k x le =
    ap (λ e. x % 2 ^ e % 2 ^ k) {x = 24} {y = 24 - k + k} (omega arith) ∙ mod-mod_pow k (24 - k) x

-- The slot of the `i`-th handle from `index` on, for at most 2^24 slots.
pub slot_of :
    (k i index : ℕ)
    → k ≤ 24
    → bit_and (bit_and (u32 (i + index)) (2 ^ 24 - 1)) (2 ^ k - 1) ≡ (i + index) % 2 ^ k
slot_of k i index le =
    let y = u32 (i + index) in
    rw (bit_and_mask 24 y, bit_and_mask k (y % 2 ^ 24))
      (ap (λ e. y % 2 ^ e % 2 ^ k) {x = 24} {y = 24 - k + k} (omega arith)
        ∙ mod-mod_pow k (24 - k) y
        ∙ ap (λ e. (i + index) % 2 ^ e % 2 ^ k) {x = 32} {y = 32 - k + k} (omega arith)
        ∙ mod-mod_pow k (32 - k) (i + index))
