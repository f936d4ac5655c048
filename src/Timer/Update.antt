-- ===== src/Timer/Update.antt =====
-- skynet-src/skynet_timer.c: `timer_execute` dispatches the nodes that are due at the wheel's time
-- and no others, whatever other threads add meanwhile.
use ctkjserver.Base.{
  ℕ, suc, ◌+◌, ◌%◌, ◌^◌, ◌<◌, ◌≡◌, refl, sym, ap, subst, ◌∙◌, ◌≢◌, ◌⊎◌, inl, inr, Bool, List, [],
  ◌∷◌, ◌++◌, map, append-nil, All, All-map, u32, arith,
}
use ctkjserver.Base.Arrays.{update, update_self, update_ne, update_all}
use ctkjserver.Base.Bits.{bit_and_mask}
use native.Mathlib.Decide.{ℕ_discrete}
use ctkjserver.Timer.{
  Timer, TimerNode, Request, add_node, timer_add, add_requests, execute_loop, timer_execute,
  slot_round,
}
use ctkjserver.Timer.Levels.{NearAt, Due}
use ctkjserver.Timer.Place.{
  Placed, Linked, in_near, in_level, add_node-Linked, add_node-Placed, time-add_node,
}
use ctkjserver.Timer.Count.{total, count, near_change, total-add_node}

-- The delay of a request is a positive `int`.
abbrev pub IsRequest : Request → Type 0
IsRequest r = (0 < r.1) × (r.1 < 2 ^ 31)

abbrev pub request_node : ℕ → Request → TimerNode
request_node time r = record { expire = u32 (r.1 + time); event = r.0 }

pub request-Due :
    (time : ℕ) (r : Request) → time < 2 ^ 32 → IsRequest r → Due time (u32 (r.1 + time))
request-Due time (event, d) l h = elim (native.Mathlib.Decide.dec_lt (d + time) (2 ^ 32)) [
  | yes below ↦ (inl (omega arith), omega arith)
  | no wraps ↦ (inr (omega arith), omega arith)
]

-- A node that is not due now is not put where the due ones are.
pub slot_stays :
    (T : Timer) (n : TimerNode)
    → Due T.time n.expire
    → n.expire ≢ T.time
    → T.near (T.time % 256) ≡ []
    → (add_node T n).near (T.time % 256) ≡ []
slot_stays T n due ne empty = linked (add_node-Linked T n due)
  where
    linked : {result : Timer} → Linked T n result → result.near (T.time % 256) ≡ []
    linked (in_near j small e at) =
        ap (λ (S : Timer). S.near (T.time % 256)) e
        ∙ update_ne T.near j (T.time % 256) _ (omega arith)
        ∙ empty
    linked (in_level i j a b e at) = ap (λ (S : Timer). S.near (T.time % 256)) e ∙ empty

-- The wheel after requests, which leave the slot of the current tick empty.
record Requested (T : Timer) (requests : List Request) (result : Timer) : Type 0 where
  placed : Placed result
  same_time : result.time ≡ T.time
  empty : result.near (T.time % 256) ≡ []
  added :
      (p : TimerNode → Bool)
      → total p result ≡ total p T + count p (map (request_node T.time) requests)

add_requests-Requested :
    (requests : List Request) (T : Timer)
    → Placed T
    → T.near (T.time % 256) ≡ []
    → All IsRequest requests
    → Requested T requests (add_requests T requests)
unfolding add_requests timer_add
add_requests-Requested [] T placed empty ok = record {
  placed = placed;
  same_time = refl;
  empty = empty;
  added = λ p. omega arith;
}
add_requests-Requested ((event, d) ∷ requests) T placed empty ok =
    let n = request_node T.time (event, d) in
    let due = request-Due T.time (event, d) placed.now ok.0 in
    let later : n.expire ≢ T.time = omega (arith, placed.now, ok.0) in
    let same = time-add_node T n in
    let rest =
      add_requests-Requested requests (add_node T n) (add_node-Placed T n placed due)
        (subst (λ t. (add_node T n).near (t % 256) ≡ []) (sym same)
          (slot_stays T n due later empty))
        ok.1 in
    let result = add_requests (add_node T n) requests in
    record {
      placed = rest.placed;
      same_time = rest.same_time ∙ same;
      empty = subst (λ t. result.near (t % 256) ≡ []) same rest.empty;
      added = λ p. omega (
        arith,
        subst
            (λ t. total p result ≡ total p (add_node T n) + count p (map (request_node t) requests))
            same (rest.added p),
        total-add_node p T n due,
      );
    }

-- What `timer_execute` leaves and gives: the nodes that expire now, all of them, and no others.
pub record Executed (T : Timer) (requests : List Request) (result : List TimerNode × Timer)
    : Type 0 where
  pub on_time : All (λ n. n.expire ≡ T.time) result.0
  pub placed : Placed result.1
  pub same_time : result.1.time ≡ T.time
  pub empty : result.1.near (T.time % 256) ≡ []
  pub added : List TimerNode
  pub asked : (added ≡ []) ⊎ (added ≡ map (request_node T.time) requests)
  pub kept :
      (p : TimerNode → Bool) → total p result.1 + count p result.0 ≡ total p T + count p added

-- The wheel after the slot of the tick is taken off.
abbrev cleared : Timer → Timer
cleared T = record T { near = update T.near (T.time % 256) [] }

cleared-Placed : (T : Timer) → Placed T → Placed (cleared T)
cleared-Placed T placed = record {
  now = placed.now;
  near =
      update_all (λ k. All (λ m. NearAt T.time k m.expire)) T.near (T.time % 256) [] placed.near tt;
  levels = placed.levels;
}

total-cleared :
    (p : TimerNode → Bool) (T : Timer)
    → total p (cleared T) + count p (T.near (T.time % 256)) ≡ total p T
unfolding total
total-cleared p T = omega (arith, near_change p T.near (T.time % 256) [] (omega arith))

-- The nodes of the slot of the tick expire now.
slot_on_time : (T : Timer) → Placed T → All (λ n. n.expire ≡ T.time) (T.near (T.time % 256))
slot_on_time T placed =
    All-map _ _
      (λ (n : TimerNode) (at : NearAt T.time (T.time % 256) n.expire). expires n.expire at)
      (T.near (T.time % 256)) (placed.near (T.time % 256))
  where
    expires : (e : ℕ) → NearAt T.time (T.time % 256) e → e ≡ T.time
    expires e at = omega arith

pub execute_empty :
    (f : ℕ) (T : Timer) (requests : List Request)
    → T.near (T.time % 256) ≡ []
    → execute_loop (suc f) T requests ≡ ([], T)
unfolding execute_loop
execute_empty f T requests e = rw (bit_and_mask 8 T.time, e)

execute_suc :
    (f : ℕ) (T : Timer) (requests : List Request)
    → execute_loop (suc f) T requests
      ≡ slot_round (T.near (T.time % 256)) T (execute_loop f (add_requests (cleared T) requests) [])
unfolding execute_loop
execute_suc f T requests = rw (bit_and_mask 8 T.time)

-- `timer_execute`, on a wheel with each node in its slot and with requests of other threads of 1
-- to 2 ^ 31 - 1 ticks, dispatches just nodes that expire at the time of the wheel, and leaves that
-- slot empty. The other nodes, and the requests if a round of the loop let them in, are kept, each
-- in its slot; no node is lost or repeated.
pub timer_execute-Executed :
    (T : Timer) (requests : List Request)
    → Placed T
    → All IsRequest requests
    → Executed T requests (timer_execute T requests)
timer_execute-Executed T requests placed ok = slot (T.near (T.time % 256)) refl
  where
    filled : Timer
    filled = add_requests (cleared T) requests

    asked : Requested (cleared T) requests (add_requests (cleared T) requests)
    asked =
        add_requests-Requested requests (cleared T) (cleared-Placed T placed)
          (update_self T.near (T.time % 256) []) ok

    still_empty : filled.near (filled.time % 256) ≡ []
    still_empty = subst (λ t. filled.near (t % 256) ≡ []) (sym asked.same_time) asked.empty

    ran :
        (n : TimerNode) (ns : List TimerNode)
        → T.near (T.time % 256) ≡ n ∷ ns
        → timer_execute T requests ≡ (n ∷ ns, filled)
    ran n ns e =
        execute_suc 1 T requests
        ∙ ap (λ l. slot_round l T (execute_loop 1 filled [])) e
        ∙ ap (λ r. ((n ∷ ns) ++ r.0, r.1)) (execute_empty 0 filled [] still_empty)
        ∙ ap (λ l. (l, filled)) (append-nil (n ∷ ns))

    slot :
        (l : List TimerNode)
        → T.near (T.time % 256) ≡ l
        → Executed T requests (timer_execute T requests)
    slot [] e = rw (execute_empty 1 T requests e) record {
      on_time = tt;
      placed = placed;
      same_time = refl;
      empty = e;
      added = [];
      asked = inl refl;
      kept = λ p. omega arith;
    }
    slot (n ∷ ns) e = rw (ran n ns e) record {
      on_time = subst (All (λ m. m.expire ≡ T.time)) e (slot_on_time T placed);
      placed = asked.placed;
      same_time = asked.same_time;
      empty = asked.empty;
      added = map (request_node T.time) requests;
      asked = inr refl;
      kept = λ p. omega (arith, asked.added p, total-cleared p T, ap (count p) e);
    }
