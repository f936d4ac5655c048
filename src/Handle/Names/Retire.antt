-- ===== src/Handle/Names/Retire.antt =====
-- skynet-src/skynet_handle.c: `skynet_handle_retire` takes one handle away, with its names.
use ctkjserver.Base.{
  ℕ, ◌-◌, ◌%◌, ◌≡◌, refl, sym, ap, ◌∙◌, ◌≢◌, ◌⊎◌, inl, inr, bit_and, ◌==◌, eq→==, ne→==,
  if◌then◌else◌,
}
use ctkjserver.Base.Arrays.{update, update_self, update_ne}
use native.Mathlib.Decide.{ℕ_discrete}
use ctkjserver.Handle.{HandleName, HandleStorage, grab}
use ctkjserver.Handle.Names.{compact, retire}
use ctkjserver.Handle.Names.Compact.{listed, kept, compact_all}
use ctkjserver.Handle.Expand.{Valid}

-- The storage without `handle`.
pub record Retired (handle_of : ℕ → ℕ) (s : HandleStorage) (handle : ℕ) (s' : HandleStorage)
    : Type 0 where
  pub valid : Valid handle_of s'
  pub same_size : s'.slot_size ≡ s.slot_size
  pub answers : (x : ℕ) → grab handle_of s' x ≡ (if x == handle then 0 else grab handle_of s x)
  pub names : listed s'.names 0 s'.name_count ≡ kept handle (listed s.names 0 s.name_count)

module _ (handle_of : ℕ → ℕ) (s : HandleStorage) (v : Valid handle_of s) (handle : ℕ) where
  abbrev home : ℕ
  home = bit_and handle (s.slot_size - 1)

  abbrev rest : ℕ × (ℕ → HandleName)
  rest = compact s.name_count s.names 0 0 handle

  abbrev after : HandleStorage
  after = record s { slot = update s.slot home 0; name_count = rest.0; names = rest.1 }

  module _ (own : handle_of (s.slot home) ≡ handle) where
    after-grab : (x : ℕ) → grab handle_of after x ≡ (if x == handle then 0 else grab handle_of s x)
    unfolding grab
    after-grab x = elim (ℕ_discrete x handle) [
      | yes e ↦
          rw
            (
              eq→== x handle e,
              eq→== home (bit_and x (s.slot_size - 1))
                  (ap (λ t. bit_and t (s.slot_size - 1)) (sym e)),
            )
            refl
      | no ne ↦ elim (ℕ_discrete home (bit_and x (s.slot_size - 1))) [
        | yes q ↦
            rw (ne→== x handle ne, eq→== home _ q, ← q, own, ne→== handle x (λ w. ne (sym w)))
              (elim (ℕ_discrete (s.slot home) 0) [
                | yes z ↦ rw (eq→== _ 0 z) refl
                | no z ↦ rw (ne→== _ 0 z) refl
              ])
        | no q ↦ rw (ne→== x handle ne, ne→== home _ q) refl
      ]
    ]

    after-Retired : Retired handle_of s handle after
    after-Retired = record {
      same_size = refl;
      valid = record {
        bits = v.bits;
        bits_most = v.bits_most;
        size = v.size;
        harbor = v.harbor;
        placed = λ i l ne. elim (ℕ_discrete home i) [
          | yes e ↦ absurd (ne (ap (update s.slot home 0) (sym e) ∙ update_self s.slot home 0))
          | no q ↦
              let same = update_ne s.slot home i 0 q in
              ap (λ c. handle_of c % s.slot_size) same ∙ v.placed i l (λ z. ne (same ∙ z))
        ];
      };
      answers = after-grab;
      names = compact_all s.name_count s.names handle;
    }

-- `skynet_handle_retire`, on valid slots, of a handle that a context has: it gives back the
-- context to release and takes the handle and its names away, and keeps the other handles and
-- names, the names in their order, and the slots valid. Of any other handle it changes nothing.
pub retire_lem :
    (handle_of : ℕ → ℕ) (s : HandleStorage) (handle : ℕ)
    → Valid handle_of s
    → ((grab handle_of s handle ≢ 0)
        × ((s' : HandleStorage) × (retire handle_of s handle ≡ (1, grab handle_of s handle, s'))
            × Retired handle_of s handle s'))
      ⊎ ((grab handle_of s handle ≡ 0) × (retire handle_of s handle ≡ (0, 0, s)))
unfolding retire grab
retire_lem handle_of s handle v =
    let home = bit_and handle (s.slot_size - 1) in
    elim (ℕ_discrete (s.slot home) 0) [
      | yes z ↦ inr (rw (eq→== (s.slot home) 0 z) refl, rw (eq→== (s.slot home) 0 z) refl)
      | no nz ↦ elim (ℕ_discrete (handle_of (s.slot home)) handle) [
        | no ne ↦ inr (
          rw (ne→== (s.slot home) 0 nz, ne→== (handle_of (s.slot home)) handle ne) refl,
          rw (ne→== (s.slot home) 0 nz, ne→== (handle_of (s.slot home)) handle ne) refl,
        )
        | yes own ↦ inl (
          rw (ne→== (s.slot home) 0 nz, eq→== (handle_of (s.slot home)) handle own) nz,
          (
            after handle_of s v handle,
            rw (ne→== (s.slot home) 0 nz, eq→== (handle_of (s.slot home)) handle own) refl,
            after-Retired handle_of s v handle own,
          ),
        )
      ]
    ]
