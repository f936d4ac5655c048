-- ===== src/Timer/Place.antt =====
-- skynet-src/skynet_timer.c: `add_node` puts every node where it belongs.
use ctkjserver.Base.{
  ℕ, ◌+◌, ◌*◌, ◌/◌, ◌%◌, ◌^◌, ◌<◌, ◌≡◌, refl, sym, subst, ◌∙◌, ◌≢◌, List, [], ◌∷◌, ◌++◌, eq→==,
  ne→==, All, All-append, arith,
}
use ctkjserver.Base.Arrays.{update, update_all}
use ctkjserver.Base.Bits.{bit_and_mask}
use native.Mathlib.Decide.{ℕ_discrete}
use ctkjserver.Timer.{Timer, TimerNode, add_node, add_nodes, link_near, link_level, find_level}
use ctkjserver.Timer.Levels.{NearAt, LevelAt, Due, same_block_8, find_level_blocks}

-- Every node is in the slot that its expiry and the wheel's time give.
pub record Placed (T : Timer) : Type 0 where
  pub now : T.time < 2 ^ 32
  pub near : (j : ℕ) → All (λ n. NearAt T.time j n.expire) (T.near j)
  pub levels : (i j : ℕ) → All (λ n. LevelAt i T.time j n.expire) (T.t i j)

-- Where `add_node` links a node.
pub data Linked (T : Timer) (n : TimerNode) (result : Timer) : Type 0 where
  in_near :
      (j : ℕ) → j < 256 → result ≡ link_near T j n → NearAt T.time j n.expire → Linked T n result
  in_level :
      (i j : ℕ)
      → i < 4
      → j < 64
      → result ≡ link_level T i j n
      → LevelAt i T.time j n.expire
      → Linked T n result

module _ (T : Timer) (n : TimerNode) (due : Due T.time n.expire) where
  far :
      (i : ℕ)
      → i < 4
      → (n.expire / 256 ≢ T.time / 256)
      → find_level 3 0 (2 ^ 14) n.expire T.time ≡ i
      → LevelAt i T.time (n.expire / 2 ^ (8 + i * 6) % 64) n.expire
      → Linked T n (add_node T n)
  unfolding add_node
  far i small other level at =
      rw
        (
          same_block_8 n.expire T.time,
          ne→== _ _ other,
          level,
          bit_and_mask 6 (n.expire / 2 ^ (8 + i * 6)),
        )
        (in_level i (n.expire / 2 ^ (8 + i * 6) % 64) small (omega arith) refl at)

  pub add_node-Linked : Linked T n (add_node T n)
  unfolding add_node
  add_node-Linked = elim (ℕ_discrete (n.expire / 256) (T.time / 256)) [
    | yes e ↦
        rw (same_block_8 n.expire T.time, eq→== _ _ e, bit_and_mask 8 n.expire)
          (in_near (n.expire % 2 ^ 8) (omega arith) refl (omega arith))
    | no e ↦ elim (ℕ_discrete (n.expire / 2 ^ 14) (T.time / 2 ^ 14)) [
      | yes e0 ↦
          far 0 (omega arith) e (find_level_blocks n.expire T.time ∙ rw (eq→== _ _ e0))
            (omega arith)
      | no e0 ↦ elim (ℕ_discrete (n.expire / 2 ^ 20) (T.time / 2 ^ 20)) [
        | yes e1 ↦
            far 1 (omega arith) e
              (find_level_blocks n.expire T.time ∙ rw (ne→== _ _ e0, eq→== _ _ e1)) (omega arith)
        | no e1 ↦ elim (ℕ_discrete (n.expire / 2 ^ 26) (T.time / 2 ^ 26)) [
          | yes e2 ↦
              far 2 (omega arith) e
                (find_level_blocks n.expire T.time ∙ rw (ne→== _ _ e0, ne→== _ _ e1, eq→== _ _ e2))
                (omega arith)
          | no e2 ↦
              far 3 (omega arith) e
                (find_level_blocks n.expire T.time ∙ rw (ne→== _ _ e0, ne→== _ _ e1, ne→== _ _ e2))
                (omega arith)
        ]
      ]
    ]
  ]

near-link :
    (T : Timer) (j : ℕ) (n : TimerNode)
    → Placed T
    → NearAt T.time j n.expire
    → Placed (link_near T j n)
near-link T j n p at = record {
  now = p.now;
  near =
      update_all (λ k. All (λ m. NearAt T.time k m.expire)) T.near j (T.near j ++ (n ∷ [])) p.near
        (All-append _ (T.near j) (n ∷ []) (p.near j) (at, tt));
  levels = p.levels;
}

-- A write to one slot of a level of nodes that belong there.
pub write_level :
    (T : Timer) (i j : ℕ) (ns : List TimerNode)
    → Placed T
    → All (λ m. LevelAt i T.time j m.expire) ns
    → (i' j' : ℕ)
    → All (λ m. LevelAt i' T.time j' m.expire) (update T.t i (update (T.t i) j ns) i' j')
write_level T i j ns p at =
    update_all
      (λ i' (row : ℕ → List TimerNode).
        (j' : ℕ) → All (λ m. LevelAt i' T.time j' m.expire) (row j'))
      T.t i (update (T.t i) j ns) p.levels
      (update_all (λ j'. All (λ m. LevelAt i T.time j' m.expire)) (T.t i) j ns (p.levels i) at)

level-link :
    (T : Timer) (i j : ℕ) (n : TimerNode)
    → Placed T
    → LevelAt i T.time j n.expire
    → Placed (link_level T i j n)
level-link T i j n p at = record {
  now = p.now;
  near = p.near;
  levels =
      write_level T i j (T.t i j ++ (n ∷ [])) p
        (All-append _ (T.t i j) (n ∷ []) (p.levels i j) (at, tt));
}

pub add_node-Placed :
    (T : Timer) (n : TimerNode) → Placed T → Due T.time n.expire → Placed (add_node T n)
add_node-Placed T n p due = placed (add_node-Linked T n due)
  where
    placed : {result : Timer} → Linked T n result → Placed result
    placed (in_near j small e at) = subst Placed (sym e) (near-link T j n p at)
    placed (in_level i j a b e at) = subst Placed (sym e) (level-link T i j n p at)

pub time-add_node : (T : Timer) (n : TimerNode) → (add_node T n).time ≡ T.time
unfolding add_node
time-add_node T n = ground arith

pub time-add_nodes : (ns : List TimerNode) (T : Timer) → (add_nodes T ns).time ≡ T.time
unfolding add_nodes
time-add_nodes [] T = refl
time-add_nodes (n ∷ ns) T = time-add_nodes ns (add_node T n) ∙ time-add_node T n

pub add_nodes-Placed :
    (ns : List TimerNode) (T : Timer)
    → Placed T
    → All (λ n. Due T.time n.expire) ns
    → Placed (add_nodes T ns)
unfolding add_nodes
add_nodes-Placed [] T p due = p
add_nodes-Placed (n ∷ ns) T p due =
    add_nodes-Placed ns (add_node T n) (add_node-Placed T n p due.0)
      (subst (λ t. All (λ m. Due t m.expire) ns) (sym (time-add_node T n)) due.1)
