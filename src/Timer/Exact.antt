-- ===== src/Timer/Exact.antt =====
-- skynet-src/skynet_timer.c: a timer fires at the tick that its delay says, once.
use ctkjserver.Base.{
  ℕ, zero, suc, ◌+◌, ◌-◌, ◌/◌, ◌%◌, ◌^◌, ◌<◌, ◌≡◌, refl, sym, ap, ap₂, subst, ◌∙◌, ◌≢◌, ◌⊎◌, inl,
  inr, Bool, true, false, ◌&&◌, List, [], ◌∷◌, ◌++◌, map, ltb, lt→ltb, le→ltb, All, All-map, u32,
  arith,
}
use ctkjserver.Base.Arrays.{sum_below, sum_below_ext, sum_below_zero}
use native.Mathlib.Decide.{ℕ_discrete}
use ctkjserver.Timer.{Timer, TimerNode, Request, timer_update, timer_execute, timer_shift, updates}
use ctkjserver.Timer.Levels.{NearAt, LevelAt}
use ctkjserver.Timer.Place.{Placed}
use ctkjserver.Timer.Count.{total, count, count-append}
use ctkjserver.Timer.Shift.{timer_shift-Shifted}
use ctkjserver.Timer.Update.{IsRequest, request_node, timer_execute-Executed, execute_empty}

-- Between two ticks: all nodes are in their slots, and none is due.
pub record Ready (T : Timer) : Type 0 where
  pub placed : Placed T
  pub empty : T.near (T.time % 256) ≡ []

-- What a tick leaves and gives.
pub record Updated (T : Timer) (before after : List Request) (result : List TimerNode × Timer)
    : Type 0 where
  pub ready : Ready result.1
  pub ticked : result.1.time ≡ u32 (T.time + 1)
  pub late : List TimerNode
  pub fired : List TimerNode
  pub parts : result.0 ≡ late ++ fired
  pub late_at : All (λ n. n.expire ≡ T.time) late
  pub fired_at : All (λ n. n.expire ≡ result.1.time) fired
  pub none_late : T.near (T.time % 256) ≡ [] → late ≡ []
  pub added_before : List TimerNode
  pub added_after : List TimerNode
  pub asked_before : (added_before ≡ []) ⊎ (added_before ≡ map (request_node T.time) before)
  pub asked_after : (added_after ≡ []) ⊎ (added_after ≡ map (request_node result.1.time) after)
  pub kept :
      (p : TimerNode → Bool)
      → total p result.1 + count p result.0 ≡ total p T + count p added_before + count p added_after

-- `timer_update` on a wheel with each node in its slot, with requests of other threads of 1 to 2 ^
-- 31 - 1 ticks: what was still due at the old tick (nothing, if the slot of that tick was empty),
-- and then just nodes that expire at the new tick, are dispatched; every other node and what other
-- threads add is kept, each in its slot, and the new slot is empty.
pub timer_update-Updated :
    (T : Timer) (before after : List Request)
    → Placed T
    → All IsRequest before
    → All IsRequest after
    → Updated T before after (timer_update T before after)
unfolding timer_update
timer_update-Updated T before after placed ok_before ok_after =
    let a = timer_execute-Executed T before placed ok_before in
    let T1 = (timer_execute T before).1 in
    let empty1 = subst (λ t. T1.near (t % 256) ≡ []) (sym a.same_time) a.empty in
    let s = timer_shift-Shifted T1 a.placed empty1 in
    let T2 = timer_shift T1 in
    let b = timer_execute-Executed T2 after s.placed ok_after in
    let T3 = (timer_execute T2 after).1 in
    record {
      ready = record {
        placed = b.placed;
        empty = subst (λ t. T3.near (t % 256) ≡ []) (sym b.same_time) b.empty;
      };
      ticked = b.same_time ∙ s.ticked ∙ ap (λ (t : ℕ). u32 (t + 1)) a.same_time;
      late = (timer_execute T before).0;
      fired = (timer_execute T2 after).0;
      parts = refl;
      late_at = a.on_time;
      fired_at =
          subst (λ t. All (λ n. n.expire ≡ t) (timer_execute T2 after).0) (sym b.same_time)
            b.on_time;
      none_late = λ e. ap (λ r. r.0) (execute_empty 1 T before e);
      added_before = a.added;
      added_after = b.added;
      asked_before = a.asked;
      asked_after =
          subst (λ t. (b.added ≡ []) ⊎ (b.added ≡ map (request_node t) after)) (sym b.same_time)
            b.asked;
      kept = λ p. omega (
        arith,
        a.kept p,
        s.kept p,
        b.kept p,
        count-append p (timer_execute T before).0 (timer_execute T2 after).0,
      );
    }

-- The ticks until a node fires: from 1 to 2^32.
abbrev pub delay : ℕ → TimerNode → ℕ
delay time n = (n.expire + 2 ^ 32 - time - 1) % 2 ^ 32 + 1

count_ext :
    (p q : TimerNode → Bool) (ns : List TimerNode)
    → All (λ n. p n ≡ q n) ns
    → count p ns ≡ count q ns
count_ext p q [] e = refl
count_ext p q (n ∷ ns) e = rw (e.0, count_ext p q ns e.1)

-- Tests that agree on what a ready wheel can hold count the same.
total_ext :
    (p q : TimerNode → Bool) (T : Timer)
    → Ready T
    → ((n : TimerNode) → n.expire < 2 ^ 32 → n.expire ≢ T.time → p n ≡ q n)
    → total p T ≡ total q T
unfolding total
total_ext p q T r e =
    ap₂ ◌+◌ (sum_below_ext 256 _ _ (λ j _. count_ext p q (T.near j) (near j))) (
      sum_below_ext 4 _ _
        (λ i _. sum_below_ext 64 _ _ (λ j _. count_ext p q (T.t i j) (level i j))))
  where
    near_at : (j : ℕ) → j ≢ T.time % 256 → (n : TimerNode) → NearAt T.time j n.expire → p n ≡ q n
    near_at j ne n at = e n (omega arith) (omega arith)

    near : (j : ℕ) → All (λ n. p n ≡ q n) (T.near j)
    near j = elim (ℕ_discrete j (T.time % 256)) [
      | yes x ↦ subst (All (λ n. p n ≡ q n)) (sym (ap T.near x ∙ r.empty)) tt
      | no x ↦ All-map _ _ (near_at j x) (T.near j) (r.placed.near j)
    ]

    level_at : (i j : ℕ) (n : TimerNode) → LevelAt i T.time j n.expire → p n ≡ q n
    level_at zero j n at = e n (omega arith) (omega arith)
    level_at (suc zero) j n at = e n (omega arith) (omega arith)
    level_at (suc (suc zero)) j n at = e n (omega arith) (omega arith)
    level_at (suc (suc (suc zero))) j n at =
        e n (omega arith) (λ x. at.0 (ap (λ (t : ℕ). t / 2 ^ 26) x))
    level_at (suc (suc (suc (suc i)))) j n at = absurd at

    level : (i j : ℕ) → All (λ n. p n ≡ q n) (T.t i j)
    level i j = All-map _ _ (level_at i j) (T.t i j) (r.placed.levels i j)

-- The test that the node fires within `n` ticks and has the property.
abbrev pub within : ℕ → ℕ → (TimerNode → Bool) → TimerNode → Bool
within time n p m = p m && ltb (delay time m) (n + 1)

and_true : (b : Bool) → b && true ≡ b
and_true true = refl
and_true false = refl

and_false : (b : Bool) → b && false ≡ false
and_false true = refl
and_false false = refl

ltb_step : (a n : ℕ) → ltb (a + 1) (suc n + 1) ≡ ltb a (n + 1)
ltb_step a n = ground arith

within_now :
    (t t1 n : ℕ) (p : TimerNode → Bool) (m : TimerNode)
    → t < 2 ^ 32
    → t1 ≡ u32 (t + 1)
    → m.expire ≡ t1
    → p m ≡ within t (suc n) p m
within_now t t1 n p m l e at =
    let one : delay t m ≡ 1 = omega arith in
    rw (one, lt→ltb 1 (suc n + 1) (omega arith)) (sym (and_true (p m)))

within_later :
    (t t1 n : ℕ) (p : TimerNode → Bool) (m : TimerNode)
    → t < 2 ^ 32
    → t1 ≡ u32 (t + 1)
    → m.expire < 2 ^ 32
    → m.expire ≢ t1
    → within t (suc n) p m ≡ within t1 n p m
within_later t t1 n p m l e small ne =
    let step : delay t m ≡ delay t1 m + 1 = omega arith in
    ap (λ b. p m && b) (rw step (ltb_step (delay t1 m) n))

none_within : (t : ℕ) (p : TimerNode → Bool) (m : TimerNode) → within t 0 p m ≡ false
none_within t p m = rw (le→ltb (delay t m) 1 (omega arith)) (and_false (p m))

count_none :
    (p : TimerNode → Bool)
    → ((m : TimerNode) → p m ≡ false)
    → (ns : List TimerNode) → count p ns ≡ 0
count_none p e [] = refl
count_none p e (n ∷ ns) = rw (e n) (omega (arith, count_none p e ns))

total_none : (p : TimerNode → Bool) (T : Timer) → ((m : TimerNode) → p m ≡ false) → total p T ≡ 0
unfolding total
total_none p T e = omega (
  arith,
  sum_below_ext 256 (λ j. count p (T.near j)) (λ _. 0) (λ j _. count_none p e (T.near j)),
  sum_below_zero 256,
  sum_below_ext 4 (λ i. sum_below 64 (λ j. count p (T.t i j))) (λ _. 0)
      (λ i _.
        sum_below_ext 64 (λ j. count p (T.t i j)) (λ _. 0) (λ j _. count_none p e (T.t i j))
        ∙ sum_below_zero 64),
  sum_below_zero 4,
)

-- What `n` ticks leave and give.
pub record Ran (T : Timer) (n : ℕ) (result : List TimerNode × Timer) : Type 0 where
  pub ready : Ready result.1
  pub time : result.1.time ≡ u32 (T.time + n)
  pub exact : (p : TimerNode → Bool) → count p result.0 ≡ total (within T.time n p) T
  pub kept : (p : TimerNode → Bool) → total p result.1 + count p result.0 ≡ total p T

no_requests :
    (time : ℕ) (added : List TimerNode) (p : TimerNode → Bool)
    → (added ≡ []) ⊎ (added ≡ map (request_node time) [])
    → count p added ≡ 0
no_requests time added p (inl e) = ap (count p) e
no_requests time added p (inr e) = ap (count p) e

-- A tick of a ready wheel without requests dispatches nodes that expire at the new tick.
tick_fires :
    (T : Timer) (n : ℕ) (p : TimerNode → Bool)
    → Ready T
    → count p (timer_update T [] []).0 ≡ count (within T.time (suc n) p) (timer_update T [] []).0
tick_fires T n p r =
    let u = timer_update-Updated T [] [] r.placed tt tt in
    let fired_only : (timer_update T [] []).0 ≡ u.fired =
      u.parts ∙ ap (λ l. l ++ u.fired) (u.none_late r.empty) in
    ap (count p) fired_only
    ∙ count_ext p (within T.time (suc n) p) u.fired (
        All-map _ _
          (λ m. within_now T.time (timer_update T [] []).1.time n p m r.placed.now u.ticked) u.fired
          u.fired_at)
    ∙ ap (count (within T.time (suc n) p)) (sym fired_only)

-- On a ready wheel (each node in its slot, and the slot of the present tick empty) and without a
-- request of another thread, `n` ticks dispatch just the nodes whose delay is at most `n`, each as
-- often as the wheel holds it, keep the others, and leave the wheel ready at the time `n` later,
-- modulo 2 ^ 32.
pub updates-Ran : (n : ℕ) (T : Timer) → Ready T → Ran T n (updates n T)
unfolding updates
updates-Ran zero T r = record {
  ready = r;
  time = omega (arith, r.placed.now);
  exact = λ p. sym (total_none (within T.time 0 p) T (none_within T.time p));
  kept = λ p. omega arith;
}
updates-Ran (suc n) T r =
    let u = timer_update-Updated T [] [] r.placed tt tt in
    let T1 = (timer_update T [] []).1 in
    let rest = updates-Ran n T1 u.ready in
    record {
      ready = rest.ready;
      time = omega (arith, rest.time, u.ticked);
      exact = λ p. omega (
        arith,
        count-append p (timer_update T [] []).0 (updates n T1).0,
        rest.exact p,
        total_ext (within T.time (suc n) p) (within T1.time n p) T1 u.ready
            (λ m. within_later T.time T1.time n p m r.placed.now u.ticked),
        tick_fires T n p r,
        no_requests T.time u.added_before (within T.time (suc n) p) u.asked_before,
        no_requests T1.time u.added_after (within T.time (suc n) p) u.asked_after,
        u.kept (within T.time (suc n) p),
      );
      kept = λ p. omega (
        arith,
        count-append p (timer_update T [] []).0 (updates n T1).0,
        rest.kept p,
        u.kept p,
        no_requests T.time u.added_before p u.asked_before,
        no_requests T1.time u.added_after p u.asked_after,
      );
    }
