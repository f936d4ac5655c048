-- ===== src/Handle/Tests.antt =====
-- Runs of the handle storage on four full slots, and the theorems at them.
use ctkjserver.Base.{ℕ, ◌+◌, ◌-◌, ◌^◌, ◌≡◌, refl, ◌≢◌, ◌⊎◌, Option, none, some, arith}
use ctkjserver.Handle.{HandleStorage, register, grab, init, scan, expand, rehash}
use ctkjserver.Handle.Expand.{Valid}
use ctkjserver.Handle.Register.{Registered, register_lem}
use ctkjserver.Handle.Names.{retire}
use ctkjserver.Handle.Names.Retire.{Retired, retire_lem}
use ctkjserver.Handle.All.{retireall, retireall_lem}

-- Contexts 10 to 13 with the handles 0 to 3 of harbor 1.
abbrev four : HandleStorage
four = record (init 1) { slot = λ i. i + 10; handle_index = 4 }

abbrev four_handles : ℕ → ℕ
four_handles c = 2 ^ 24 + (c - 10)

four-Valid : Valid four_handles four
four-Valid = record {
  bits = 2;
  bits_most = omega arith;
  size = refl;
  harbor = (1, refl);
  placed = λ i l ne. omega arith;
}

abbrev handle_given : Option (ℕ × HandleStorage) → ℕ
handle_given none = 0
handle_given (some r) = r.0

register_runs : handle_given (register 2 four_handles four 99) ≡ 2 ^ 24 + 4
unfolding register scan expand rehash
register_runs = refl

grab_runs : grab four_handles four (2 ^ 24 + 2) ≡ 12
unfolding grab
grab_runs = refl

register_lem_example :
    (handle : ℕ) × (s' : HandleStorage) × (register 2 four_handles four 99 ≡ some (handle, s'))
    × Registered four_handles four 99 handle s'
register_lem_example =
    register_lem four_handles four 99 four-Valid (λ e. absurd (omega arith))
      (λ j l e. absurd (omega arith)) (omega arith)

retire_lem_example :
    ((grab four_handles four (2 ^ 24 + 2) ≢ 0)
      × ((s' : HandleStorage) × (retire four_handles four (2 ^ 24 + 2)
            ≡ (1, grab four_handles four (2 ^ 24 + 2), s'))
          × Retired four_handles four (2 ^ 24 + 2) s'))
    ⊎ ((grab four_handles four (2 ^ 24 + 2) ≡ 0)
        × (retire four_handles four (2 ^ 24 + 2) ≡ (0, 0, four)))
retire_lem_example = retire_lem four_handles four (2 ^ 24 + 2) four-Valid

retireall_lem_example :
    (s' : HandleStorage) × (retireall 2 four_handles four ≡ some s')
    × Valid four_handles s'
    × ((x : ℕ) → x ≢ 0 → grab four_handles s' x ≡ 0)
retireall_lem_example = retireall_lem four_handles four four-Valid
