-- ===== src/Handle/All.antt =====
-- skynet-src/skynet_handle.c: `skynet_handle_retireall`, which goes round the slots until a round
-- finds no handle to retire. No other thread registers meanwhile.
use ctkjserver.Base.{
  ℕ, zero, suc, ◌+◌, ◌%◌, ◌≤◌, ◌<◌, ◌≡◌, refl, sym, ap, ◌∙◌, ◌≢◌, inl, inr, true, false, Option,
  none, some, ◌==◌, eq→==, ne→==, if◌then◌else◌, arith,
}
use native.Mathlib.Decide.{ℕ_discrete}
use native.Mathlib.Nat.{mod-lt}
use ctkjserver.Handle.{HandleStorage, grab}
use ctkjserver.Handle.Expand.{Valid, slot_mod, size-positive}
use ctkjserver.Handle.Names.{retire}
use ctkjserver.Handle.Names.Retire.{retire_lem}

-- The handle that a slot's context has, 0 for an empty slot.
abbrev pub handle_at : (ℕ → ℕ) → HandleStorage → ℕ → ℕ
handle_at handle_of s i = if s.slot i == 0 then 0 else handle_of (s.slot i)

-- One slot of a round: whether a handle was retired, and the storage.
abbrev pub retire_slot : (ℕ → ℕ) → HandleStorage → ℕ → ℕ × HandleStorage
retire_slot handle_of s i =
    let handle = handle_at handle_of s i in
    let r = retire handle_of s handle in if handle == 0 then (0, s) else (r.0, r.2)

-- A round over `left` slots from `i` on, with the number of retired handles.
pub retire_round : ℕ → (ℕ → ℕ) → HandleStorage → ℕ → ℕ × HandleStorage
retire_round zero handle_of s i = (0, s)
retire_round (suc left) handle_of s i =
    let now = retire_slot handle_of s i in
    let rest = retire_round left handle_of now.1 (i + 1) in
    ((if now.0 == 0 then 0 else 1) + rest.0, rest.1)

-- `skynet_handle_retireall`: the outer loop on fuel, as `none` when it runs out.
pub retireall : ℕ → (ℕ → ℕ) → HandleStorage → Option HandleStorage
unfolding retire_round
retireall zero handle_of s = none
retireall (suc f) handle_of s =
    let r = retire_round s.slot_size handle_of s 0 in
    elim (r.0 == 0) [ true ↦ some r.1 | false ↦ retireall f handle_of r.1 ]

module _ (handle_of : ℕ → ℕ) where
  -- What a step from `s` to `s'` keeps: no handle comes back.
  record Fewer (s s' : HandleStorage) : Type 0 where
    valid : Valid handle_of s'
    same_size : s'.slot_size ≡ s.slot_size
    gone : (x : ℕ) → grab handle_of s x ≡ 0 → grab handle_of s' x ≡ 0

  grab_elsewhere :
      (s : HandleStorage) (v : Valid handle_of s) (x : ℕ)
      → x ≢ 0
      → x ≢ handle_at handle_of s (x % s.slot_size)
      → grab handle_of s x ≡ 0
  unfolding grab
  grab_elsewhere s v x nz ne = elim (ℕ_discrete (s.slot (x % s.slot_size)) 0) [
    | yes z ↦ rw (slot_mod handle_of s v x, eq→== _ 0 z) refl
    | no some_ctx ↦
        rw
          (
            slot_mod handle_of s v x,
            ne→== _ 0 some_ctx,
            ne→== _ x (λ e. ne (sym (rw (ne→== _ 0 some_ctx) e))),
          )
          refl
  ]

  kept_all : (s : HandleStorage) → Valid handle_of s → Fewer s s
  kept_all s v = record { valid = v; same_size = refl; gone = λ x z. z }

  -- `retire` of a handle, by either branch.
  retire-Fewer :
      (s : HandleStorage) (handle : ℕ)
      → Valid handle_of s
      → Fewer s (retire handle_of s handle).2
        × (grab handle_of (retire handle_of s handle).2 handle ≡ 0)
  retire-Fewer s handle v = elim (retire_lem handle_of s handle v) [
    | inr (none_there, e) ↦ rw e (kept_all s v, none_there)
    | inl (there, (s', e, r)) ↦ rw e (
      record { valid = r.valid; same_size = r.same_size; gone = λ x z. r.answers x ∙ ground arith },
      rw (r.answers handle, eq→== handle handle refl) refl,
    )
  ]

  retire_slot_lem :
      (s : HandleStorage) (i : ℕ)
      → Valid handle_of s
      → Fewer s (retire_slot handle_of s i).1
        × ((x : ℕ)
            → x ≢ 0
            → x % s.slot_size ≡ i
            → grab handle_of (retire_slot handle_of s i).1 x ≡ 0)
  retire_slot_lem s i v = elim (ℕ_discrete (handle_at handle_of s i) 0) [
    | yes z ↦ rw (eq→== _ 0 z) (
      kept_all s v,
      λ x nz e. grab_elsewhere s v x nz (λ q. nz (q ∙ ap (handle_at handle_of s) e ∙ z)),
    )
    | no some_handle ↦
        let (fewer, at_handle) = retire-Fewer s (handle_at handle_of s i) v in
        rw (ne→== _ 0 some_handle) (
          fewer,
          λ x nz e. elim (ℕ_discrete x (handle_at handle_of s i)) [
            | yes q ↦ rw q at_handle
            | no q ↦
                fewer.gone x (grab_elsewhere s v x nz (λ w. q (w ∙ ap (handle_at handle_of s) e)))
          ],
        )
  ]

  -- After a round no handle of its slots is left.
  retire_round_lem :
      (left : ℕ) (s : HandleStorage) (i : ℕ)
      → Valid handle_of s
      → let s' = (retire_round left handle_of s i).1 in
        Fewer s s'
        × ((x : ℕ)
            → x ≢ 0
            → i ≤ x % s.slot_size
            → x % s.slot_size < i + left
            → grab handle_of s' x ≡ 0)
  unfolding retire_round
  retire_round_lem zero s i v = (kept_all s v, λ x nz a b. absurd (omega arith))
  retire_round_lem (suc left) s i v =
      let (now, here) = retire_slot_lem s i v in
      let s1 = (retire_slot handle_of s i).1 in
      let (rest, there) = retire_round_lem left s1 (i + 1) now.valid in
      (
        record {
          valid = rest.valid;
          same_size = rest.same_size ∙ now.same_size;
          gone = λ x z. rest.gone x (now.gone x z);
        },
        λ x nz a b. elim (ℕ_discrete (x % s.slot_size) i) [
          | yes e ↦ rest.gone x (here x nz e)
          | no ne ↦
              let same = ap (λ n. x % n) now.same_size in there x nz (omega arith) (omega arith)
        ],
      )

  -- A round that finds no handle counts none and changes nothing.
  idle_round :
      (left : ℕ) (s : HandleStorage) (i : ℕ)
      → Valid handle_of s
      → ((x : ℕ) → x ≢ 0 → grab handle_of s x ≡ 0)
      → retire_round left handle_of s i ≡ (0, s)
  unfolding retire_round
  idle_round zero s i v none_left = refl
  idle_round (suc left) s i v none_left =
      let now : retire_slot handle_of s i ≡ (0, s) = elim (ℕ_discrete (handle_at handle_of s i) 0) [
        | yes z ↦ rw (eq→== _ 0 z) refl
        | no nz ↦ rw (ne→== _ 0 nz) (elim (retire_lem handle_of s (handle_at handle_of s i) v) [
          | inl (there, _) ↦ absurd (there (none_left (handle_at handle_of s i) nz))
          | inr (_, e) ↦ rw e refl
        ])
      ] in
      ap
        (λ (r : ℕ × HandleStorage).
          let rest = retire_round left handle_of r.1 (i + 1) in
          ((if r.0 == 0 then 0 else 1) + rest.0, rest.1))
        now
      ∙ rw (idle_round left s (i + 1) v none_left) refl

  -- So the loop ends with it.
  settled :
      (s : HandleStorage)
      → Valid handle_of s
      → ((x : ℕ) → x ≢ 0 → grab handle_of s x ≡ 0)
      → retireall 1 handle_of s ≡ some s
  unfolding retireall
  settled s v none_left =
      let idle = idle_round s.slot_size s 0 v none_left in
      rw (retireall, idle) (ap (λ (r : ℕ × HandleStorage). some r.1) idle)

-- `skynet_handle_retireall`, on valid slots and without a register of another thread, ends after
-- at most two rounds, with valid slots in which no handle but 0 has a context.
pub retireall_lem :
    (handle_of : ℕ → ℕ) (s : HandleStorage)
    → Valid handle_of s
    → (s' : HandleStorage) × (retireall 2 handle_of s ≡ some s')
      × Valid handle_of s'
      × ((x : ℕ) → x ≢ 0 → grab handle_of s' x ≡ 0)
unfolding retireall
retireall_lem handle_of s v =
    let r = retire_round s.slot_size handle_of s 0 in
    let (all, none_left) = retire_round_lem handle_of s.slot_size s 0 v in
    let empty : (x : ℕ) → x ≢ 0 → grab handle_of r.1 x ≡ 0 = λ x nz.
      none_left x nz (omega arith) (omega (arith, mod-lt x (size-positive handle_of s v))) in
    elim (ℕ_discrete r.0 0) [
      | yes z ↦ (r.1, rw (retireall, eq→== r.0 0 z) refl, all.valid, empty)
      | no nz ↦ (
        r.1,
        rw (retireall, ne→== r.0 0 nz) (settled handle_of r.1 all.valid empty),
        all.valid,
        empty,
      )
    ]
