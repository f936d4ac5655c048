-- ===== src/Mq/Global/Step.antt =====
-- skynet-src/skynet_mq.c: `skynet_mq_push`, `skynet_mq_pop` and `skynet_mq_overload` as writes to one
-- queue, for the workers of skynet_server.c.
use ctkjserver.Base.{
  ℕ, ◌≡◌, refl, ◌∙◌, ◌≢◌, inl, inr, some, List, ◌==◌, eq→==, ne→==, Bool-cases, arith,
}
use ctkjserver.Mq
use ctkjserver.Mq.{MessageQueue, Message, Cell, take_overload, enqueue}
use ctkjserver.Mq.Refine.{Holds}
use ctkjserver.Mq.Global.{Store, write, globalmq_push, push, pop}

pub next-enqueue : (q : MessageQueue) (m : Message) → (enqueue q m).next ≡ q.next
unfolding enqueue Mq.expand_queue
next-enqueue q m = ground arith

pub in_global-enqueue : (q : MessageQueue) (m : Message) → (enqueue q m).in_global ≡ q.in_global
unfolding enqueue Mq.expand_queue
in_global-enqueue q m = ground arith

pub next-pop : (q : MessageQueue) → (Mq.pop q).2.next ≡ q.next
unfolding Mq.pop
next-pop q = ground arith

-- `skynet_mq_pop` clears the flag when there is no message, and keeps it when there is one.
pub in_global-popped : (q : MessageQueue) → (Mq.pop q).0 ≡ 0 → (Mq.pop q).2.in_global ≡ q.in_global
unfolding Mq.pop
in_global-popped q e = ground arith

pub in_global-ended : (q : MessageQueue) → (Mq.pop q).0 ≡ 1 → (Mq.pop q).2.in_global ≡ 0
unfolding Mq.pop
in_global-ended q e = ground arith

pub next-overload : (q : MessageQueue) → (take_overload q).1.next ≡ q.next
unfolding take_overload
next-overload q = ground arith

pub in_global-overload : (q : MessageQueue) → (take_overload q).1.in_global ≡ q.in_global
unfolding take_overload
in_global-overload q = ground arith

pub overload-Holds :
    (q : MessageQueue) (ms : List Message) → Holds q ms → Holds (take_overload q).1 ms
unfolding take_overload
overload-Holds q ms h = elim (Bool-cases (q.overload == 0)) [
  | inl e ↦ rw e h
  | inr e ↦ rw e (record {
    valid = record {
      storage = h.valid.storage;
      head_in = h.valid.head_in;
      tail_in = h.valid.tail_in;
      threshold = h.valid.threshold;
    };
    cells = h.cells;
  })
]

module _ (s : Store) (p : ℕ) (q : MessageQueue) (at : s.queues p ≡ some q) where
  pub pop_at : pop s p ≡ some ((Mq.pop q).0, (Mq.pop q).1, write s p (Mq.pop q).2)
  unfolding pop
  pop_at = rw at refl

  pub push_at_idle :
      (m : Message)
      → q.in_global ≡ 0
      → push s p m ≡ globalmq_push (write s p (record (enqueue q m) { in_global = 1 })) p
  unfolding push
  push_at_idle m e = rw (at, eq→== _ _ (in_global-enqueue q m ∙ e)) refl

  pub push_at_busy : (m : Message) → q.in_global ≢ 0 → push s p m ≡ some (write s p (enqueue q m))
  unfolding push
  push_at_busy m e = rw (at, ne→== (enqueue q m).in_global 0 (rw (in_global-enqueue q m) e)) refl

pub handle-enqueue : (q : MessageQueue) (m : Message) → (enqueue q m).handle ≡ q.handle
unfolding enqueue Mq.expand_queue
handle-enqueue q m = ground arith

-- A new queue is flagged as being in the global queue, and is not linked into it.
pub create_lem :
    (handle : ℕ)
    → ((Mq.create handle).handle ≡ handle)
      × ((Mq.create handle).next ≡ 0)
      × ((Mq.create handle).in_global ≡ 1)
unfolding Mq.create
create_lem handle = (refl, refl, refl)
