-- ===== src/Timer/Shift.antt =====
-- skynet-src/skynet_timer.c: `timer_shift` moves the clock by one tick, and the nodes of the slot
-- whose block begins there one level down. No node is lost, and each is where it belongs.
use ctkjserver.Base.{
  ℕ, zero, suc, ◌+◌, ◌/◌, ◌%◌, ◌^◌, ◌<◌, ◌≡◌, refl, sym, ap, subst, ◌∙◌, ◌≢◌, inl, Bool, [], eq→==,
  ne→==, All, All-map, u32, arith,
}
use ctkjserver.Base.Bits.{bit_and_mask}
use native.Mathlib.Decide.{ℕ_discrete}
use ctkjserver.Timer.{Timer, TimerNode, clear_level, move_list, shift_loop, timer_shift}
use ctkjserver.Timer.Levels.{NearAt, LevelAt, Due}
use ctkjserver.Timer.Place.{Placed, add_nodes-Placed, time-add_nodes}
use ctkjserver.Timer.Count.{total, level_change, total-add_nodes}

-- The tick `ct` begins a block of level `i`, and no larger one; its slot is `idx`.
abbrev pub Boundary : ℕ → ℕ → ℕ → Type 0
Boundary zero idx ct = (ct % 2 ^ 8 ≡ 0) × (ct / 2 ^ 8 % 64 ≡ idx) × (idx ≢ 0)
Boundary (suc zero) idx ct = (ct % 2 ^ 14 ≡ 0) × (ct / 2 ^ 14 % 64 ≡ idx) × (idx ≢ 0)
Boundary (suc (suc zero)) idx ct = (ct % 2 ^ 20 ≡ 0) × (ct / 2 ^ 20 % 64 ≡ idx) × (idx ≢ 0)
Boundary (suc (suc (suc zero))) idx ct = (ct % 2 ^ 26 ≡ 0) × (ct / 2 ^ 26 ≡ idx)
Boundary (suc (suc (suc (suc i)))) idx ct = ⊥

module _ (t : ℕ) (in_range : t < 2 ^ 32) where
  abbrev next : ℕ
  next = u32 (t + 1)

  -- A near node that is not due at `t` stays where it is.
  near_next : (j e : ℕ) → j ≢ t % 256 → NearAt t j e → NearAt next j e
  near_next j e ne at = omega arith

  -- Between two blocks every node stays.
  level_inside : (i j e : ℕ) → next % 2 ^ 8 ≢ 0 → LevelAt i t j e → LevelAt i next j e
  level_inside zero j e ne at = omega arith
  level_inside (suc zero) j e ne at = omega arith
  level_inside (suc (suc zero)) j e ne at = omega arith
  level_inside (suc (suc (suc zero))) j e ne at = omega arith
  level_inside (suc (suc (suc (suc i)))) j e ne at = at

  -- At the beginning of a block every node outside its slot stays.
  level_outside :
      (i i' idx j e : ℕ)
      → Boundary i idx next
      → (i ≡ i' → idx ≢ j)
      → LevelAt i' t j e
      → LevelAt i' next j e
  level_outside zero zero idx j e b ne at = let n = ne refl in omega arith
  level_outside zero (suc zero) idx j e b ne at = omega arith
  level_outside zero (suc (suc zero)) idx j e b ne at = omega arith
  level_outside zero (suc (suc (suc zero))) idx j e b ne at = omega arith
  level_outside (suc zero) zero idx j e b ne at = omega arith
  level_outside (suc zero) (suc zero) idx j e b ne at = let n = ne refl in omega arith
  level_outside (suc zero) (suc (suc zero)) idx j e b ne at = omega arith
  level_outside (suc zero) (suc (suc (suc zero))) idx j e b ne at = omega arith
  level_outside (suc (suc zero)) zero idx j e b ne at = omega arith
  level_outside (suc (suc zero)) (suc zero) idx j e b ne at = omega arith
  level_outside (suc (suc zero)) (suc (suc zero)) idx j e b ne at = let n = ne refl in omega arith
  level_outside (suc (suc zero)) (suc (suc (suc zero))) idx j e b ne at = omega arith
  level_outside (suc (suc (suc zero))) zero idx j e b ne at = omega arith
  level_outside (suc (suc (suc zero))) (suc zero) idx j e b ne at = omega arith
  level_outside (suc (suc (suc zero))) (suc (suc zero)) idx j e b ne at = omega arith
  level_outside (suc (suc (suc zero))) (suc (suc (suc zero))) idx j e b ne at =
      let n = ne refl in omega arith
  level_outside (suc (suc (suc (suc i)))) i' idx j e b ne at = absurd b
  level_outside i (suc (suc (suc (suc i')))) idx j e b ne at = absurd at

  -- The nodes of its slot begin at this tick or later.
  level_moves : (i idx e : ℕ) → Boundary i idx next → LevelAt i t idx e → Due next e
  level_moves zero idx e b at = (inl (omega arith), omega arith)
  level_moves (suc zero) idx e b at = (inl (omega arith), omega arith)
  level_moves (suc (suc zero)) idx e b at = (inl (omega arith), omega arith)
  level_moves (suc (suc (suc zero))) idx e b at = (inl (omega arith), omega arith)
  level_moves (suc (suc (suc (suc i)))) idx e b at = absurd b

-- What the loop of `timer_shift` does at the tick `ct`.
data Move (T : Timer) (ct : ℕ) (result : Timer) : Type 0 where
  inside : ct % 2 ^ 8 ≢ 0 → result ≡ T → Move T ct result
  boundary :
      (i idx : ℕ)
      → Boundary i idx ct
      → i < 4
      → idx < 64
      → result ≡ move_list T i idx
      → Move T ct result

-- Four rounds are enough: a tick other than 0 has digits other than 0.
shift_loop_lem :
    (T : Timer) (ct : ℕ)
    → ct < 2 ^ 32
    → ct ≢ 0
    → Move T ct (shift_loop 4 T ct (2 ^ 8) (ct / 2 ^ 8) 0)
unfolding shift_loop
shift_loop_lem T ct l nz = elim (ℕ_discrete (ct % 2 ^ 8) 0) [
  | no a ↦ rw (bit_and_mask 8 ct, ne→== (ct % 2 ^ 8) 0 a) (inside a refl)
  | yes a ↦
      rw (bit_and_mask 8 ct, eq→== (ct % 2 ^ 8) 0 a, bit_and_mask 6 (ct / 2 ^ 8))
        (elim (ℕ_discrete (ct / 2 ^ 8 % 2 ^ 6) 0) [
          | no b ↦
              rw (ne→== (ct / 2 ^ 8 % 2 ^ 6) 0 b)
                (boundary 0 (ct / 2 ^ 8 % 2 ^ 6) (omega arith) (omega arith) (omega arith) refl)
          | yes b ↦
              rw
                (
                  eq→== (ct / 2 ^ 8 % 2 ^ 6) 0 b,
                  bit_and_mask 14 ct,
                  eq→== (ct % 2 ^ 14) 0 (omega arith),
                  bit_and_mask 6 (ct / 2 ^ 8 / 2 ^ 6),
                )
                (elim (ℕ_discrete (ct / 2 ^ 8 / 2 ^ 6 % 2 ^ 6) 0) [
                  | no c ↦ rw (ne→== (ct / 2 ^ 8 / 2 ^ 6 % 2 ^ 6) 0 c) (
                      boundary 1 (ct / 2 ^ 8 / 2 ^ 6 % 2 ^ 6) (omega arith) (omega arith)
                        (omega arith) refl)
                  | yes c ↦
                      rw
                        (
                          eq→== (ct / 2 ^ 8 / 2 ^ 6 % 2 ^ 6) 0 c,
                          bit_and_mask 20 ct,
                          eq→== (ct % 2 ^ 20) 0 (omega arith),
                          bit_and_mask 6 (ct / 2 ^ 8 / 2 ^ 6 / 2 ^ 6),
                        )
                        (elim (ℕ_discrete (ct / 2 ^ 8 / 2 ^ 6 / 2 ^ 6 % 2 ^ 6) 0) [
                          | no d ↦ rw (ne→== (ct / 2 ^ 8 / 2 ^ 6 / 2 ^ 6 % 2 ^ 6) 0 d) (
                              boundary 2 (ct / 2 ^ 8 / 2 ^ 6 / 2 ^ 6 % 2 ^ 6) (omega arith)
                                (omega arith) (omega arith) refl)
                          | yes d ↦
                              rw
                                (
                                  eq→== (ct / 2 ^ 8 / 2 ^ 6 / 2 ^ 6 % 2 ^ 6) 0 d,
                                  bit_and_mask 26 ct,
                                  eq→== (ct % 2 ^ 26) 0 (omega arith),
                                  bit_and_mask 6 (ct / 2 ^ 8 / 2 ^ 6 / 2 ^ 6 / 2 ^ 6),
                                  ne→== (ct / 2 ^ 8 / 2 ^ 6 / 2 ^ 6 / 2 ^ 6 % 2 ^ 6) 0
                                      (omega arith),
                                )
                                (boundary 3 (ct / 2 ^ 8 / 2 ^ 6 / 2 ^ 6 / 2 ^ 6 % 2 ^ 6)
                                  (omega arith) (omega arith) (omega arith) refl)
                        ])
                ])
        ])
]

-- What a move of the clock to `next` must keep.
pub record Shifted (T result : Timer) : Type 0 where
  pub placed : Placed result
  pub ticked : result.time ≡ u32 (T.time + 1)
  pub kept : (p : TimerNode → Bool) → total p result ≡ total p T

module _ (T : Timer) (placed : Placed T) (done : T.near (T.time % 256) ≡ []) where
  abbrev ct : ℕ
  ct = u32 (T.time + 1)

  -- The wheel at the new tick, before any move.
  abbrev ticked : Timer
  ticked = record T { time = ct }

  near_kept : (j : ℕ) → All (λ n. NearAt ct j n.expire) (T.near j)
  near_kept j = elim (ℕ_discrete j (T.time % 256)) [
    | yes e ↦ subst (All (λ n. NearAt ct j n.expire)) (sym (ap T.near e ∙ done)) tt
    | no ne ↦
        All-map _ _ (λ (n : TimerNode). near_next T.time placed.now j n.expire ne) (T.near j)
          (placed.near j)
  ]

  shift_inside : ct % 2 ^ 8 ≢ 0 → Shifted T ticked
  shift_inside ne = record {
    placed = record {
      now = omega arith;
      near = near_kept;
      levels = λ i j.
          All-map _ _ (λ (n : TimerNode). level_inside T.time placed.now i j n.expire ne) (T.t i j)
            (placed.levels i j);
    };
    ticked = refl;
    kept = λ p. unfold total in refl;
  }

  module _ (i idx : ℕ) (b : Boundary i idx ct) where
    level_kept :
        (i' j : ℕ) → All (λ n. LevelAt i' ct j n.expire) ((clear_level ticked i idx).t i' j)
    level_kept i' j = elim (ℕ_discrete i i') [
      | yes e ↦ elim (ℕ_discrete idx j) [
        | yes f ↦ rw (eq→== i i' e, eq→== idx j f) tt
        | no f ↦ rw (eq→== i i' e, ne→== idx j f) (rw e (stay i' j (λ _. f)))
      ]
      | no e ↦ rw (ne→== i i' e) (stay i' j (λ x. absurd (e x)))
    ]
      where
        stay : (i' j : ℕ) → (i ≡ i' → idx ≢ j) → All (λ n. LevelAt i' ct j n.expire) (T.t i' j)
        stay i' j ne =
            All-map _ _
              (λ (n : TimerNode). level_outside T.time placed.now i i' idx j n.expire b ne)
              (T.t i' j) (placed.levels i' j)

    moved-Due : All (λ n. Due ct n.expire) (T.t i idx)
    moved-Due =
        All-map _ _ (λ (n : TimerNode). level_moves T.time placed.now i idx n.expire b) (T.t i idx)
          (placed.levels i idx)

    shift_move : i < 4 → idx < 64 → Shifted T (move_list ticked i idx)
    unfolding move_list
    shift_move li lj = record {
      placed =
          add_nodes-Placed (T.t i idx) (clear_level ticked i idx)
            (record { now = omega arith; near = near_kept; levels = level_kept }) moved-Due;
      ticked = time-add_nodes (T.t i idx) (clear_level ticked i idx);
      kept = λ p.
          total-add_nodes p (T.t i idx) (clear_level ticked i idx) moved-Due
          ∙ unfold total in omega (arith, level_change p T.t i idx [] li lj);
    }

  -- `timer_shift`, on a wheel with each node in its slot and once the slot of the old tick is
  -- empty, moves the clock by one tick, modulo 2 ^ 32, loses and repeats no node, and leaves each
  -- in its slot.
  pub timer_shift-Shifted : Shifted T (timer_shift T)
  unfolding timer_shift
  timer_shift-Shifted = elim (ℕ_discrete ct 0) [
    | yes z ↦ rw (eq→== ct 0 z) (shift_move 3 0 (omega arith) (omega arith) (omega arith))
    | no nz ↦ rw (ne→== ct 0 nz) (moved (shift_loop_lem ticked ct (omega arith) nz))
  ]
    where
      moved : {result : Timer} → Move ticked ct result → Shifted T result
      moved (inside ne e) = subst (Shifted T) (sym e) (shift_inside ne)
      moved (boundary i idx b li lj e) = subst (Shifted T) (sym e) (shift_move i idx b li lj)
