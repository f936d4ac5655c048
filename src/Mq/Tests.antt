-- ===== src/Mq/Tests.antt =====
-- Runs of the queue on concrete inputs, and the theorems at them.
use ctkjserver.Base.{ℕ, ◌*◌, ◌<◌, ◌≤◌, ◌≡◌, refl, ◌≢◌, none, some, List, [], ◌∷◌, ◌++◌, map, arith}
use ctkjserver.Base.Arrays.{update}
use ctkjserver.Base.Window.{copy_round}
use ctkjserver.Mq
use ctkjserver.Mq.{MessageQueue, Message, create, enqueue, pop, raise, used_after}
use ctkjserver.Mq.Refine.{Op, push, take, pushed, got, run, fifo, Holds, run_refines, length-Holds}
use ctkjserver.Mq.Overload.{pop-overload}
use ctkjserver.Mq.Global
use ctkjserver.Mq.Global.{Store}
use ctkjserver.Mq.Global.Linked.{IsGlobal, globalmq_push-append, globalmq_pop-cons}
use ctkjserver.Mq.Global.Schedule.{push_idle, Pushed}
use ctkjserver.Mq.Global.Release.{release_marked, mark_release_idle}

abbrev msg : ℕ → Message
msg n = record { source = n; session = 0; body = 0; sz = 0 }

-- Three of four cells used, round the end of the array: a push makes it double.
abbrev wrapped : MessageQueue
wrapped = record {
  handle = 7;
  cap = 4;
  head = 2;
  tail = 1;
  release = 0;
  in_global = 0;
  overload = 0;
  overload_threshold = 1;
  queue = some (msg 3) ∷ none ∷ some (msg 1) ∷ some (msg 2) ∷ [];
  next = 0;
}

abbrev held : List Message
held = msg 1 ∷ msg 2 ∷ msg 3 ∷ []

wrapped-Holds : Holds wrapped held
wrapped-Holds = record {
  valid = record {
    storage = refl;
    head_in = omega arith;
    tail_in = omega arith;
    threshold = omega arith;
  };
  cells = refl;
}

abbrev script : List Op
script = push (msg 4) ∷ take ∷ push (msg 5) ∷ take ∷ take ∷ take ∷ take ∷ take ∷ []

run-wrapped :
    run wrapped script
    ≡ pushed
      ∷ got 0 (some (msg 1))
      ∷ pushed
      ∷ got 0 (some (msg 2))
      ∷ got 0 (some (msg 3))
      ∷ got 0 (some (msg 4))
      ∷ got 0 (some (msg 5))
      ∷ got 1 none
      ∷ []
unfolding run enqueue pop raise used_after copy_round
run-wrapped = refl

doubles : (enqueue wrapped (msg 4)).cap ≡ 8
unfolding enqueue
doubles = refl

run_refines_example : run wrapped script ≡ fifo held script
run_refines_example = run_refines script wrapped held wrapped-Holds

length-Holds_example : Mq.length wrapped ≡ 3
length-Holds_example = length-Holds wrapped held wrapped-Holds

-- Two messages are left over a threshold of one.
pop-overload_example :
    let q' = (pop wrapped).2 in
    (Mq.length q' ≤ q'.overload_threshold)
    × (Mq.length q' ≤ 1 → (q'.overload ≡ 0) × (q'.overload_threshold ≡ 1))
    × (1 < Mq.length q' → (q'.overload ≡ Mq.length q') × (q'.overload_threshold < Mq.length q' * 2))
pop-overload_example = pop-overload wrapped wrapped-Holds.valid (omega arith)

-- Queues at 1 and 2; the first waits in the global queue.
abbrev first : MessageQueue
first = record wrapped { in_global = 1 }

abbrev store : Store
store = record {
  queues = update (update (λ _. none) 1 (some first)) 2 (some wrapped);
  head = 1;
  tail = 1;
}

store-IsGlobal : IsGlobal store (1 ∷ [])
store-IsGlobal = record {
  chain = (refl, omega arith, (first, refl, refl));
  ends = refl;
  distinct = (tt, tt);
}

globalmq_push-append_example :
    (s' : Store) × (Global.globalmq_push store 2 ≡ some s')
    × IsGlobal s' (1 ∷ 2 ∷ [])
    × (s'.queues 2 ≡ some wrapped)
globalmq_push-append_example =
    globalmq_push-append store (1 ∷ []) 2 wrapped store-IsGlobal refl refl (omega arith)
      (omega arith, tt)

globalmq_pop-cons_example :
    (s' : Store) × (Global.globalmq_pop store ≡ some (1, s'))
    × IsGlobal s' []
    × ((q : MessageQueue) × (s'.queues 1 ≡ some q) × (q.next ≡ 0))
globalmq_pop-cons_example = globalmq_pop-cons store 1 [] store-IsGlobal

push_idle_example :
    (s' : Store) × (Global.push store 2 (msg 4) ≡ some s')
    × IsGlobal s' (1 ∷ 2 ∷ [])
    × Pushed s' 2 (held ++ (msg 4 ∷ []))
push_idle_example =
    push_idle store (1 ∷ []) 2 wrapped held (msg 4) store-IsGlobal refl wrapped-Holds refl refl
      (omega arith) (omega arith, tt)

mark_release_idle_example :
    (s' : Store) × (Global.mark_release store 2 ≡ some s')
    × IsGlobal s' (1 ∷ 2 ∷ [])
    × (s'.queues 2 ≡ some (record wrapped { release = 1 }))
mark_release_idle_example =
    mark_release_idle store (1 ∷ []) 2 wrapped store-IsGlobal refl refl refl (omega arith) refl
      (omega arith, tt)

abbrev marked : MessageQueue
marked = record wrapped { release = 1 }

abbrev marked_store : Store
marked_store = record { queues = update (λ _. none) 2 (some marked); head = 0; tail = 0 }

release_marked_example :
    (s' : Store) × (Global.release marked_store 2 ≡ some (map some held, s'))
    × (s'.queues 2 ≡ none)
    × ((k : ℕ) → 2 ≢ k → s'.queues k ≡ marked_store.queues k)
release_marked_example =
    release_marked marked_store 2 marked held refl
      (record {
        valid = record {
          storage = refl;
          head_in = omega arith;
          tail_in = omega arith;
          threshold = omega arith;
        };
        cells = refl;
      })
      (omega arith) refl
