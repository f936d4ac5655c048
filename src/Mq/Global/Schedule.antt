-- ===== src/Mq/Global/Schedule.antt =====
-- skynet-src/skynet_mq.c: a queue is in the global queue from its first message on, and
-- one that is flagged is not put there again.
use ctkjserver.Base.{
  ℕ, ◌≡◌, sym, ap, ◌∙◌, ◌≢◌, Option, some, List, [], ◌∷◌, ◌++◌, eq→==, ne→==, arith,
}
use ctkjserver.Base.Arrays.{update, update_self, update_ne}
use ctkjserver.Mq.{MessageQueue, Message, enqueue}
use ctkjserver.Mq.Refine.{Holds, enqueue-Holds}
use ctkjserver.Mq.Global.{Store, write, push}
use ctkjserver.Mq.Global.Step.{next-enqueue, in_global-enqueue}
use ctkjserver.Mq.Global.Linked.{Chain, IsGlobal, Absent, globalmq_push-append}

-- A write that keeps a queue's `next` keeps the list.
Chain-same :
    (m : ℕ → Option MessageQueue) (h k : ℕ) (q q' : MessageQueue) (ps : List ℕ)
    → m k ≡ some q
    → q'.next ≡ q.next
    → Chain m h ps
    → Chain (update m k (some q')) h ps
Chain-same m h k q q' [] at e c = c
Chain-same m h k q q' (p ∷ ps) at e (a, ne, (r, at_p, rest)) =
    elim (native.Mathlib.Decide.ℕ_discrete k p) [
      | yes x ↦ (
        a,
        ne,
        (
          q',
          rw x (update_self m p _),
          rw (e, ap (λ r. r.next) (same x)) (Chain-same m r.next k q q' ps at e rest),
        ),
      )
      | no x ↦ (a, ne, (r, update_ne m k p _ x ∙ at_p, Chain-same m r.next k q q' ps at e rest))
    ]
  where
    same : k ≡ p → q ≡ r
    same x = cc

pub IsGlobal-same :
    (s : Store) (ps : List ℕ) (p : ℕ) (q q' : MessageQueue)
    → IsGlobal s ps
    → s.queues p ≡ some q
    → q'.next ≡ q.next
    → IsGlobal (write s p q') ps
IsGlobal-same s ps p q q' g at e = record {
  chain = Chain-same s.queues s.head p q q' ps at e g.chain;
  ends = g.ends;
  distinct = g.distinct;
}

-- The queue that `skynet_mq_push` leaves at an address.
pub record Pushed (s : Store) (p : ℕ) (ms : List Message) : Type 0 where
  pub queue : MessageQueue
  pub at : s.queues p ≡ some queue
  pub holds : Holds queue ms
  pub flagged : queue.in_global ≢ 0

module _ (s : Store) (ps : List ℕ) (p : ℕ) (q : MessageQueue) (ms : List Message) (m : Message)
    (g : IsGlobal s ps) (at : s.queues p ≡ some q) (h : Holds q ms) where
  -- `skynet_mq_push` to a queue whose flag says that it is not in the global queue, and which is
  -- not, appends the message to it, and the queue to the global queue.
  pub push_idle :
      q.in_global ≡ 0
      → q.next ≡ 0
      → p ≢ 0
      → Absent p ps
      → (s' : Store) × (push s p m ≡ some s')
        × IsGlobal s' (ps ++ (p ∷ []))
        × Pushed s' p (ms ++ (m ∷ []))
  unfolding push
  push_idle idle end real a =
      let q' : MessageQueue = record (enqueue q m) { in_global = 1 } in
      let (s', done, g', at') =
        globalmq_push-append (write s p q') ps p q'
          (IsGlobal-same s ps p q q' g at (next-enqueue q m)) (update_self s.queues p _)
          (next-enqueue q m ∙ end) real a in
      let k = enqueue-Holds q ms m h in
      (
        s',
        rw (at, eq→== _ _ (in_global-enqueue q m ∙ idle)) done,
        g',
        record {
          queue = q';
          at = at';
          holds = record {
            valid = record {
              storage = k.valid.storage;
              head_in = k.valid.head_in;
              tail_in = k.valid.tail_in;
              threshold = k.valid.threshold;
            };
            cells = k.cells;
          };
          flagged = omega arith;
        },
      )

  -- To a queue that is flagged as being there it appends the message alone.
  pub push_scheduled :
      q.in_global ≢ 0
      → (s' : Store) × (push s p m ≡ some s') × IsGlobal s' ps × Pushed s' p (ms ++ (m ∷ []))
  unfolding push
  push_scheduled busy = (
    write s p (enqueue q m),
    rw (at, ne→== _ _ (λ e. busy (sym (in_global-enqueue q m) ∙ e))),
    IsGlobal-same s ps p q (enqueue q m) g at (next-enqueue q m),
    record {
      queue = enqueue q m;
      at = update_self s.queues p _;
      holds = enqueue-Holds q ms m h;
      flagged = λ e. busy (sym (in_global-enqueue q m) ∙ e);
    },
  )
