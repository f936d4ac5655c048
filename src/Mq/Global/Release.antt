-- ===== src/Mq/Global/Release.antt =====
-- skynet-src/skynet_mq.c: how a queue is given up. `skynet_mq_mark_release` sees to it that a worker
-- meets the queue again, and `skynet_mq_release` then drops its messages and frees it.
use ctkjserver.Base.{
  ℕ, zero, suc, ◌≡◌, refl, sym, ap, ◌∙◌, ◌≢◌, Option, none, some, List, [], ◌∷◌, ◌++◌, map, ◌==◌,
  eq→==, ne→==, inl, inr, Bool-cases, if◌then◌else◌, arith,
}
use ctkjserver.Base
use ctkjserver.Base.Arrays.{update, update_self, update_ne}
use ctkjserver.Mq
use ctkjserver.Mq.{MessageQueue, Message}
use ctkjserver.Mq.Refine.{Holds, length-Holds, pop_empty, pop_first}
use ctkjserver.Mq.Global.{Store, write, mark_release, release, drop_messages, free}
use ctkjserver.Mq.Global.Step.{next-pop}
use ctkjserver.Mq.Global.Linked.{IsGlobal, Absent, globalmq_push-append}
use ctkjserver.Mq.Global.Schedule.{IsGlobal-same}

-- `_drop_queue` gives every message to `drop_func`, in order, and ends with an empty queue.
pub drop_messages_all :
    (ms : List Message) (q : MessageQueue)
    → Holds q ms
    → ((drop_messages (Base.length ms) q).0 ≡ map some ms)
      × Holds (drop_messages (Base.length ms) q).1 []
unfolding drop_messages
drop_messages_all [] q h = (refl, (pop_empty q h).2)
drop_messages_all (m ∷ ms) q h =
    let (ret, message, rest) = pop_first q m ms h in
    let (dropped, end) = drop_messages_all ms (Mq.pop q).2 rest in
    rw (ret, message) (ap (◌∷◌ (some m)) dropped, end)

next-drop : (f : ℕ) (q : MessageQueue) → (drop_messages f q).1.next ≡ q.next
unfolding drop_messages
next-drop zero q = next-pop q
next-drop (suc f) q = elim (Bool-cases ((Mq.pop q).0 == 0)) [
  | inl e ↦ rw e (next-drop f (Mq.pop q).2 ∙ next-pop q)
  | inr e ↦ rw e (next-pop q)
]

-- `skynet_mq_release` of a queue that is marked and in no list gives its messages to `drop_func`,
-- oldest first, frees it, and touches no other queue.
pub release_marked :
    (s : Store) (p : ℕ) (q : MessageQueue) (ms : List Message)
    → s.queues p ≡ some q
    → Holds q ms
    → q.release ≢ 0
    → q.next ≡ 0
    → (s' : Store) × (release s p ≡ some (map some ms, s'))
      × (s'.queues p ≡ none)
      × ((k : ℕ) → p ≢ k → s'.queues k ≡ s.queues k)
unfolding release free
release_marked s p q ms at h marked end =
    let (dropped, rest) = drop_messages_all ms q h in
    let q' = (drop_messages (Base.length ms) q).1 in
    (
      record s { queues = update (write s p q').queues p none },
      rw (
        at,
        ne→== _ _ marked,
        length-Holds q ms h,
        eq→== p p refl,
        eq→== _ _ (next-drop (Base.length ms) q ∙ end),
        dropped,
      ),
      update_self (write s p q').queues p none,
      λ k ne. update_ne (write s p q').queues p k none ne ∙ update_ne s.queues p k (some q') ne,
    )

-- `skynet_mq_mark_release` of a queue that is not marked, whose flag says that it is not in the
-- global queue, and which is not, marks it and appends it to the global queue.
pub mark_release_idle :
    (s : Store) (ps : List ℕ) (p : ℕ) (q : MessageQueue)
    → IsGlobal s ps
    → s.queues p ≡ some q
    → q.release ≡ 0
    → q.next ≡ 0
    → p ≢ 0
    → q.in_global ≡ 0
    → Absent p ps
    → (s' : Store) × (mark_release s p ≡ some s')
      × IsGlobal s' (ps ++ (p ∷ []))
      × (s'.queues p ≡ some (record q { release = 1 }))
unfolding mark_release
mark_release_idle s ps p q g at unmarked end real idle a =
    let q' : MessageQueue = record q { release = 1 } in
    let (s', done, g', at') =
      globalmq_push-append (write s p q') ps p q' (IsGlobal-same s ps p q q' g at refl)
        (update_self s.queues p _) end real a in
    (s', rw (at, eq→== _ _ unmarked, ne→== q.in_global 1 (omega arith)) done, g', at')
