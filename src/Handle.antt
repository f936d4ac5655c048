-- ===== src/Handle.antt =====
-- skynet-src/skynet_handle.c: the slots that map a handle to its context.
-- `Handle.Names` has the names of handles.
--
-- A context is its address, and 0 is NULL; `handle_of` is what skynet_context_handle reads at an
-- address. The slots are a function of the index, with `slot_size` of them in use.
pub mod Slots
pub mod Expand
pub mod Register
pub mod Names
pub mod All
mod Tests
use ctkjserver.Base.{
  ℕ, zero, suc, ◌+◌, ◌-◌, ◌*◌, ◌%◌, ◌^◌, Bool, true, false, ◌&&◌, Option, none, some, List, [],
  bit_and, bit_or, u32, ltb, ◌==◌, if◌then◌else◌,
}
use ctkjserver.Base.Arrays.{update}

abbrev pub handle_mask : ℕ
handle_mask = 2 ^ 24 - 1

abbrev pub default_slot_size : ℕ
default_slot_size = 4

-- `struct handle_name`
pub record HandleName : Type 0 where
  pub name : List ℕ
  pub handle : ℕ

-- `struct handle_storage`
pub record HandleStorage : Type 0 where
  pub harbor : ℕ
  pub handle_index : ℕ
  pub slot_size : ℕ
  pub slot : ℕ → ℕ
  pub name_cap : ℕ
  pub name_count : ℕ
  pub names : ℕ → HandleName

-- `skynet_handle_init`; what malloc leaves in `name` is never read.
abbrev pub init : ℕ → HandleStorage
init harbor = record {
  harbor = bit_and harbor 255 * 2 ^ 24;
  handle_index = 1;
  slot_size = default_slot_size;
  slot = λ _. 0;
  name_cap = 2;
  name_count = 0;
  names = λ _. record { name = []; handle = 0 };
}

infixl 5 ◌>>=◌
abbrev pub ◌>>=◌ {ℓ κ} : {A : Type ℓ} {B : Type κ} → Option A → (A → Option B) → Option B
none >>= f = none
some a >>= f = f a

-- The scan of `skynet_handle_register` for an empty slot, from `i` on with `left` slots to go.
pub scan : ℕ → HandleStorage → ℕ → Option ℕ
scan zero s i = none
scan (suc left) s i =
    let handle = bit_and (u32 (i + s.handle_index)) handle_mask in
    let next = scan left s (i + 1) in
    if s.slot (bit_and handle (s.slot_size - 1)) == 0 then some handle else next

-- The loop that moves the contexts of the first `n` slots to the new array, of twice the size. A
-- failed assert and an empty slot, whose handle the code would read through NULL, are `none`.
pub rehash : (ℕ → ℕ) → HandleStorage → ℕ → Option (ℕ → ℕ)
rehash handle_of s zero = some (λ _. 0)
rehash handle_of s (suc i) = do
  new_slot ← rehash handle_of s i
  let hash = bit_and (handle_of (s.slot i)) (s.slot_size * 2 - 1)
  if s.slot i == 0
      then none
      else (if new_slot hash == 0 then some (update new_slot hash (s.slot i)) else none)

-- The array is doubled, unless the handles would not do for it.
pub expand : (ℕ → ℕ) → HandleStorage → Option HandleStorage
unfolding rehash
expand handle_of s = if ltb handle_mask (s.slot_size * 2 - 1) then none else do
  new_slot ← rehash handle_of s s.slot_size
  some (record s { slot = new_slot; slot_size = s.slot_size * 2 })

-- `skynet_handle_register`: the outer loop on fuel, as `none` when it runs out.
pub register : ℕ → (ℕ → ℕ) → HandleStorage → ℕ → Option (ℕ × HandleStorage)
unfolding scan expand
register zero handle_of s ctx = none
register (suc f) handle_of s ctx = elim (scan s.slot_size s 0) [
  | some handle ↦ some (
    bit_or handle s.harbor,
    record s {
      slot = update s.slot (bit_and handle (s.slot_size - 1)) ctx;
      handle_index = handle + 1;
    },
  )
  | none ↦ expand handle_of s >>= λ s'. register f handle_of s' ctx
]

-- `skynet_handle_grab`: the context, 0 when there is none.
pub grab : (ℕ → ℕ) → HandleStorage → ℕ → ℕ
grab handle_of s handle =
    let ctx = s.slot (bit_and handle (s.slot_size - 1)) in
    if ctx == 0 then 0 else (if handle_of ctx == handle then ctx else 0)
