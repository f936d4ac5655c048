-- ===== src/Timer/Count.antt =====
-- skynet-src/skynet_timer.c: how many nodes with a property the wheel holds, and that `add_node`
-- adds one and a cleared slot takes its own away.
use ctkjserver.Base.{
  ℕ, ◌+◌, ◌<◌, ◌≡◌, sym, ap, subst, ◌∙◌, Bool, List, [], ◌∷◌, ◌++◌, if◌then◌else◌, All, arith,
}
use ctkjserver.Base.Arrays.{update, update_self, update_ne, sum_below, sum_below_change}
use ctkjserver.Timer.{Timer, TimerNode, add_node, add_nodes}
use ctkjserver.Timer.Levels.{Due}
use ctkjserver.Timer.Place.{Linked, in_near, in_level, add_node-Linked, time-add_node}

module _ (p : TimerNode → Bool) where
  abbrev pub count : List TimerNode → ℕ
  count [] = 0
  count (n ∷ ns) = (if p n then 1 else 0) + count ns

  pub count-append : (ns ms : List TimerNode) → count (ns ++ ms) ≡ count ns + count ms
  count-append [] ms = omega arith
  count-append (n ∷ ns) ms = omega (arith, count-append ns ms)

  abbrev pub near_total : (ℕ → List TimerNode) → ℕ
  near_total f = sum_below 256 (λ j. count (f j))

  abbrev pub level_total : (ℕ → ℕ → List TimerNode) → ℕ
  level_total t = sum_below 4 (λ i. sum_below 64 (λ j. count (t i j)))

  -- The nodes of the wheel that have the property.
  unfoldable pub total : Timer → ℕ
  total T = near_total T.near + level_total T.t

  pub near_change :
      (f : ℕ → List TimerNode) (j : ℕ) (ns : List TimerNode)
      → j < 256
      → near_total (update f j ns) + count (f j) ≡ near_total f + count ns
  near_change f j ns l =
      sum_below_change 256 j (λ k. count (f k)) (λ k. count (update f j ns k)) l
        (λ k _ ne. ap count (sym (update_ne f j k ns ne)))
      ∙ ap (λ (m : ℕ). near_total f + m) (ap count (update_self f j ns))

  row_change :
      (f : ℕ → List TimerNode) (j : ℕ) (ns : List TimerNode)
      → j < 64
      → sum_below 64 (λ k. count (update f j ns k)) + count (f j)
        ≡ sum_below 64 (λ k. count (f k)) + count ns
  row_change f j ns l =
      sum_below_change 64 j (λ k. count (f k)) (λ k. count (update f j ns k)) l
        (λ k _ ne. ap count (sym (update_ne f j k ns ne)))
      ∙ ap (λ (m : ℕ). sum_below 64 (λ k. count (f k)) + m) (ap count (update_self f j ns))

  abbrev row : (ℕ → List TimerNode) → ℕ
  row f = sum_below 64 (λ j. count (f j))

  pub level_change :
      (t : ℕ → ℕ → List TimerNode) (i j : ℕ) (ns : List TimerNode)
      → i < 4
      → j < 64
      → level_total (update t i (update (t i) j ns)) + count (t i j) ≡ level_total t + count ns
  level_change t i j ns li lj = omega (
    arith,
    sum_below_change 4 i (λ k. row (t k)) (λ k. row (update t i (update (t i) j ns) k)) li
        (λ k _ ne. ap row (sym (update_ne t i k (update (t i) j ns) ne))),
    ap row (update_self t i (update (t i) j ns)),
    row_change (t i) j ns lj,
  )

  -- `add_node` adds its node, once.
  pub total-add_node :
      (T : Timer) (n : TimerNode)
      → Due T.time n.expire
      → total (add_node T n) ≡ total T + count (n ∷ [])
  unfolding total
  total-add_node T n due = linked (add_node-Linked T n due)
    where
      linked : {result : Timer} → Linked T n result → total result ≡ total T + count (n ∷ [])
      linked (in_near j small e at) =
          ap total e
          ∙ omega (
            arith,
            near_change T.near j (T.near j ++ (n ∷ [])) small,
            count-append (T.near j) (n ∷ []),
          )
      linked (in_level i j a b e at) =
          ap total e
          ∙ omega (
            arith,
            level_change T.t i j (T.t i j ++ (n ∷ [])) a b,
            count-append (T.t i j) (n ∷ []),
          )

  pub total-add_nodes :
      (ns : List TimerNode) (T : Timer)
      → All (λ n. Due T.time n.expire) ns
      → total (add_nodes T ns) ≡ total T + count ns
  unfolding add_nodes
  total-add_nodes [] T due = omega arith
  total-add_nodes (n ∷ ns) T due = omega (
    arith,
    total-add_node T n due.0,
    total-add_nodes ns (add_node T n)
        (subst (λ t. All (λ m. Due t m.expire) ns) (sym (time-add_node T n)) due.1),
  )
