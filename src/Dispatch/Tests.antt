-- ===== src/Dispatch/Tests.antt =====
-- Runs of the dispatch of skynet_server.c and of skynet_monitor.c, and instances of the theorems: the
-- service 1 has the queue at 16, and sends a message to the service 2, whose queue is at 32, for
-- every message that it gets.
use ctkjserver.Base.{
  ℕ, ◌+◌, ◌^◌, ◌<◌, ◌≡◌, refl, sym, inl, inr, Bool, true, false, Option, none, some, List, [], ◌∷◌,
  ap, ◌∙◌, take, ◌==◌, ==→eq, Bool-cases, if◌then◌else◌, arith,
}
use ctkjserver.Base.Int.{pos, negsuc}
use mathlib.Core.Option.{some-injective}
use ctkjserver.Base.Arrays.{update}
use ctkjserver.Mq.{MessageQueue, Message, create, enqueue}
use ctkjserver.Mq.Refine.{Holds, create-Holds, enqueue-Holds}
use ctkjserver.Mq.Global.{Store}
use ctkjserver.Dispatch.{
  Node, Context, Services, monitor_new, monitor_check, monitor_trigger, message_dispatch, post,
  rounds_of,
}
use ctkjserver.Dispatch.Schedule.{IsScheduled}
use ctkjserver.Dispatch.Post.{IsLinked, Holds-flag}
use ctkjserver.Mq.Global.Step.{next-enqueue, in_global-enqueue, handle-enqueue, create_lem}
use ctkjserver.Dispatch.Order.{Dispatched, batch, message_dispatch_lem}
use ctkjserver.Dispatch.Waiting.{Reached, Passed, post_lem, message_dispatch-empty}
use ctkjserver.Dispatch.Watch.{triggers, reported, monitor_check_lem}

abbrev message : ℕ → Message
message n = record { source = 7; session = n; body = 0; sz = 0 }

abbrev serve : Services
serve calls call = (2, message (call.session + 100)) ∷ []

abbrev contexts : ℕ → Option Context
contexts handle =
    if handle == 1
    then some (record { queue = 16; cb = true; init = true })
    else (if handle == 2 then some (record { queue = 32; cb = true; init = true }) else none)

abbrev quiet : MessageQueue
quiet = record (create 2) { in_global = 0 }

abbrev queues : MessageQueue → ℕ → Option MessageQueue
queues q = update (update (λ _. none) 32 (some quiet)) 16 (some q)

abbrev node : MessageQueue → Node
node q = record {
  store = record { queues = queues q; head = 0; tail = 0 };
  contexts = contexts;
  monitor = monitor_new;
  calls = [];
}

abbrev held : ℕ → Bool
held k = if 16 == k then true else false

abbrev three : MessageQueue
three = enqueue (enqueue (enqueue (create 1) (message 1)) (message 2)) (message 3)

three-Holds : Holds three (message 1 ∷ message 2 ∷ message 3 ∷ [])
three-Holds =
    enqueue-Holds _ _ (message 3)
      (enqueue-Holds _ _ (message 2) (enqueue-Holds _ _ (message 1) (create-Holds 1)))

node-IsScheduled :
    (q : MessageQueue) (ms : List Message)
    → Holds q ms
    → q.next ≡ 0
    → q.in_global ≡ 1
    → IsScheduled (node q).store held []
node-IsScheduled q ms h loose flag = record {
  global = record { chain = refl; ends = refl; distinct = tt };
  fine = λ k. elim (Bool-cases (16 == k)) [
    | inl t ↦ rw t ((λ z. omega (arith, z, ==→eq 16 k t)), (ms, h, (loose, flag)))
    | inr f ↦ rw f (elim (Bool-cases (32 == k)) [
      | inl t ↦ rw t (
        (λ z. omega (arith, z, ==→eq 32 k t)),
        ([], Holds-flag (create 2) [] 0 (create-Holds 2), ((create_lem 2).1, refl, refl)),
      )
      | inr g ↦ rw g (refl, refl)
    ])
  ];
}

node-IsLinked : (q : MessageQueue) → IsLinked contexts (node q).store
node-IsLinked q handle ctx at = elim (Bool-cases (handle == 1)) [
  | inl t ↦ (q, ap (λ c. queues q c.queue) (sym (some-injective _ _ (rw t at at))))
  | inr f ↦ elim (Bool-cases (handle == 2)) [
    | inl t ↦ (quiet, ap (λ c. queues q c.queue) (sym (some-injective _ _ (rw (f, t) at at))))
    | inr g ↦ absurd (cc (rw (f, g) at at))
  ]
]

three_lem : (three.handle ≡ 1) × (three.next ≡ 0) × (three.in_global ≡ 1)
three_lem = (
  handle-enqueue _ (message 3)
      ∙ handle-enqueue _ (message 2)
      ∙ handle-enqueue _ (message 1)
      ∙ (create_lem 1).0,
  next-enqueue _ (message 3)
      ∙ next-enqueue _ (message 2)
      ∙ next-enqueue _ (message 1)
      ∙ (create_lem 1).1,
  in_global-enqueue _ (message 3)
      ∙ in_global-enqueue _ (message 2)
      ∙ in_global-enqueue _ (message 1)
      ∙ (create_lem 1).2,
)

live_lem :
    (q : MessageQueue)
    → q.handle ≡ 1
    → contexts q.handle ≡ some (record { queue = 16; cb = true; init = true })
live_lem q e = rw e refl

three-IsScheduled : IsScheduled (node three).store held []
three-IsScheduled =
    node-IsScheduled three (message 1 ∷ message 2 ∷ message 3 ∷ []) three-Holds three_lem.1
      three_lem.2

-- Of six messages that are left, the weight 1 gives three, the weight 3 none but the first, and a
-- negative weight the first too.
rounds_of_runs :
    (rounds_of (pos 1) 6 ≡ 3) × (rounds_of (pos 3) 6 ≡ 0) × (rounds_of (negsuc 0) 6 ≡ 1)
unfolding rounds_of
rounds_of_runs = (refl, refl, refl)

-- A message that is in work over two checks is reported by the second, and one that is done is not.
monitor_runs :
    ((monitor_check (monitor_check (monitor_trigger monitor_new 7 1)).1).0 ≡ some (7, 1))
    × ((monitor_check (monitor_check (monitor_trigger (monitor_trigger monitor_new 7 1) 0 0)).1).0
        ≡ none)
unfolding monitor_check monitor_trigger monitor_new
monitor_runs = (refl, refl)

message_dispatch_lem_example :
    Dispatched serve
      (node three)
      held
      []
      16
      (pos 0)
      three.handle
      (record { queue = 16; cb = true; init = true })
      (take (batch (pos 0) 2) (message 1 ∷ message 2 ∷ message 3 ∷ []))
message_dispatch_lem_example =
    message_dispatch_lem serve (node three) held [] 16 three
      (record { queue = 16; cb = true; init = true }) (pos 0) three-IsScheduled
      (node-IsLinked three) refl refl (live_lem three three_lem.0) refl refl (message 1)
      (message 2 ∷ message 3 ∷ []) three-Holds

post_lem_example :
    Reached
      (node three)
      held
      []
      ((2, message 4) ∷ (1, message 5) ∷ (3, message 6) ∷ [])
      (post (node three) ((2, message 4) ∷ (1, message 5) ∷ (3, message 6) ∷ []))
post_lem_example =
    post_lem (node three) held [] ((2, message 4) ∷ (1, message 5) ∷ (3, message 6) ∷ [])
      three-IsScheduled (node-IsLinked three)

message_dispatch-empty_example :
    (next : ℕ) × ((s : Store) × (message_dispatch serve (node (create 1)) 16 (pos 0)
        ≡ some (next, record (node (create 1)) { store = s }))
      × Passed (update held 16 false) [] next s)
message_dispatch-empty_example =
    message_dispatch-empty serve (node (create 1)) held [] 16 (create 1)
      (record { queue = 16; cb = true; init = true }) (pos 0)
      (node-IsScheduled (create 1) [] (create-Holds 1) (create_lem 1).1 (create_lem 1).2) refl refl
      (live_lem (create 1) (create_lem 1).0) (create-Holds 1)

version_small : (monitor_trigger monitor_new 7 1).version < 2 ^ 32
unfolding monitor_trigger monitor_new
version_small = omega arith

monitor_check_lem_example :
    (monitor_check (triggers (monitor_check (monitor_trigger monitor_new 7 1)).1 [])).0
    ≡ reported (monitor_trigger monitor_new 7 1) []
monitor_check_lem_example =
    monitor_check_lem (monitor_trigger monitor_new 7 1) [] version_small (omega arith)
