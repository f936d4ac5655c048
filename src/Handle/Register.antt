-- ===== src/Handle/Register.antt =====
-- skynet-src/skynet_handle.c: `skynet_handle_register` gives a context a handle of its own.
use ctkjserver.Base.{
  ℕ, suc, ◌+◌, ◌-◌, ◌*◌, ◌%◌, ◌^◌, ◌≤◌, ◌<◌, ◌≡◌, refl, sym, ap, ◌∙◌, ◌≢◌, inl, inr, some,
  Option-cases, bit_and, bit_or, ◌==◌, eq→==, ne→==, if◌then◌else◌, arith,
}
use ctkjserver.Base.Arrays.{update, update_ne}
use ctkjserver.Base.Bits.{bit_or_fields, bit_or_comm}
use native.Mathlib.Decide.{ℕ_discrete}
use native.Mathlib.Nat.{mod-lt}
use ctkjserver.Handle.{HandleStorage, scan, register, grab}
use ctkjserver.Handle.Slots.{low_of_handle}
use ctkjserver.Handle.Expand.{Valid, slot_mod, size-positive, scan-some, full, expand_lem}

-- `ctx` gets `handle`, which no context had: once it is set, a lookup of it gives `ctx`, and of any
-- other handle what it gave before.
pub record Registered (handle_of : ℕ → ℕ) (s : HandleStorage) (ctx handle : ℕ) (s' : HandleStorage)
    : Type 0 where
  pub unused : grab handle_of s handle ≡ 0
  pub later :
      (handle_of' : ℕ → ℕ)
      → handle_of' ctx ≡ handle
      → ((c : ℕ) → c ≢ ctx → handle_of' c ≡ handle_of c)
      → Valid handle_of' s'
        × ((x : ℕ) → grab handle_of' s' x ≡ (if x == handle then ctx else grab handle_of s x))

module _ (handle_of : ℕ → ℕ) (s : HandleStorage) (ctx : ℕ) (v : Valid handle_of s) (real : ctx ≢ 0)
    (absent : (j : ℕ) → j < s.slot_size → s.slot j ≢ ctx) where
  module _ (low : ℕ) (small : low < 2 ^ 24)
      (free : s.slot (bit_and low (s.slot_size - 1)) ≡ 0) where
    abbrev handle : ℕ
    handle = bit_or low s.harbor

    abbrev home : ℕ
    home = bit_and low (s.slot_size - 1)

    abbrev filled : HandleStorage
    filled = record s { slot = update s.slot home ctx; handle_index = low + 1 }

    handle_low : handle % 2 ^ 24 ≡ low
    handle_low =
        let (h, e) = v.harbor in
        rw (e, bit_or_comm low (h * 2 ^ 24), bit_or_fields h 24 low small) (omega arith)

    handle_home : handle % s.slot_size ≡ home
    handle_home =
        rw
          (
            slot_mod handle_of s v low,
            v.size,
            ← low_of_handle v.bits handle v.bits_most,
            handle_low,
          )
          refl

    module _ (handle_of' : ℕ → ℕ) (own : handle_of' ctx ≡ handle)
        (same : (c : ℕ) → c ≢ ctx → handle_of' c ≡ handle_of c) where
      filled-Valid : Valid handle_of' filled
      filled-Valid = record {
        bits = v.bits;
        bits_most = v.bits_most;
        size = v.size;
        harbor = v.harbor;
        placed = λ i l ne. elim (ℕ_discrete home i) [
          | yes e ↦ rw (eq→== home i e, own) (handle_home ∙ e)
          | no other ↦ rw (ne→== home i other) (
              ap (λ h. h % s.slot_size) (same (s.slot i) (absent i l))
              ∙ v.placed i l (λ z. ne (update_ne s.slot home i ctx other ∙ z)))
        ];
      }

      filled-grab :
          (x : ℕ) → grab handle_of' filled x ≡ (if x == handle then ctx else grab handle_of s x)
      unfolding grab
      filled-grab x = elim (ℕ_discrete home (bit_and x (s.slot_size - 1))) [
        | yes e ↦
            let z : s.slot (bit_and x (s.slot_size - 1)) ≡ 0 = ap s.slot (sym e) ∙ free in
            rw (eq→== home _ e, ne→== ctx 0 real, own, z)
              (elim (ℕ_discrete x handle) [
                | yes q ↦ rw (eq→== x handle q, eq→== handle x (sym q)) refl
                | no q ↦ rw (ne→== x handle q, ne→== handle x (λ w. q (sym w))) refl
              ])
        | no ne ↦
            let other : x ≢ handle = λ q. ne (
              sym handle_home
              ∙ sym (slot_mod handle_of s v handle)
              ∙ ap (λ t. bit_and t (s.slot_size - 1)) (sym q)) in
            let inside : bit_and x (s.slot_size - 1) < s.slot_size =
              rw (slot_mod handle_of s v x) (mod-lt x (size-positive handle_of s v)) in
            rw (ne→== home _ ne, ne→== x handle other, same _ (absent _ inside)) refl
      ]

    filled_lem : Registered handle_of s ctx handle filled
    unfolding grab
    filled_lem = record {
      unused = rw (slot_mod handle_of s v handle, handle_home, free) refl;
      later = λ handle_of' own same.
          (filled-Valid handle_of' own same, filled-grab handle_of' own same);
    }

  -- A scan that finds an empty slot.
  found :
      (fuel low : ℕ)
      → scan s.slot_size s 0 ≡ some low
      → (handle : ℕ) × (s' : HandleStorage) × (register (suc fuel) handle_of s ctx
          ≡ some (handle, s'))
        × Registered handle_of s ctx handle s'
  unfolding register
  found fuel low e =
      let (free, small) = scan-some s.slot_size s 0 low e in
      (
        handle low small free,
        filled low small free,
        rw (register, e) refl,
        filled_lem low small free,
      )

-- `skynet_handle_register`, of a context that is in no slot, on valid slots that can still double:
-- it returns within two rounds of its loop, with a handle that no context had. Once the context
-- has that handle, the slots are valid, a lookup of the handle gives the context, and a lookup of
-- any other handle gives what it gave before.
pub register_lem :
    (handle_of : ℕ → ℕ) (s : HandleStorage) (ctx : ℕ)
    → Valid handle_of s
    → ctx ≢ 0
    → ((j : ℕ) → j < s.slot_size → s.slot j ≢ ctx)
    → s.slot_size * 2 ≤ 2 ^ 24
    → (handle : ℕ) × (s' : HandleStorage) × (register 2 handle_of s ctx ≡ some (handle, s'))
      × Registered handle_of s ctx handle s'
unfolding register
register_lem handle_of s ctx v real absent fits = elim (Option-cases (scan s.slot_size s 0)) [
  | inr (low, e) ↦ found handle_of s ctx v real absent 1 low e
  | inl e ↦
      let (s1, done, v1, same, (j, l, room), absent1) =
        expand_lem handle_of s v (full handle_of s v e) fits in
      elim (Option-cases (scan s1.slot_size s1 0)) [
        | inl e1 ↦ absurd (full handle_of s1 v1 e1 j l room)
        | inr (low, e1) ↦
            let (handle, s', returns, r) =
              found handle_of s1 ctx v1 real (λ i _. absent1 ctx real absent i) 0 low e1 in
            (
              handle,
              s',
              rw (register, e, done) returns,
              record {
                unused = sym (same handle) ∙ r.unused;
                later = λ handle_of' own others.
                    let (valid, answers) = r.later handle_of' own others in
                    (
                      valid,
                      λ x. answers x ∙ ap (λ (c : ℕ). if x == handle then ctx else c) (same x),
                    );
              },
            )
      ]
]
