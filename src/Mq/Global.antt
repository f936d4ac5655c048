-- ===== src/Mq/Global.antt =====
-- skynet-src/skynet_mq.c: the global queue, a linked list through the queues' `next` pointers, and
-- the operations on a queue that put it there.
--
-- A store holds the live queues by address (0 is NULL). `none` as a result is a failed `assert` or
-- an access to a queue that was freed.
pub mod Linked
pub mod Step
pub mod Frame
pub mod Schedule
pub mod Release
use ctkjserver.Base.{ℕ, zero, suc, Option, none, some, List, [], ◌∷◌, ◌==◌, if◌then◌else◌}
use ctkjserver.Base.Arrays.{update}
use ctkjserver.Mq
use ctkjserver.Mq.{MessageQueue, Message, Cell, mq_in_global}

-- The heap of queues with `struct global_queue`.
pub record Store : Type 0 where
  pub queues : ℕ → Option MessageQueue
  pub head : ℕ
  pub tail : ℕ

infixl 5 ◌>>=◌
abbrev pub ◌>>=◌ {ℓ κ} : {A : Type ℓ} {B : Type κ} → Option A → (A → Option B) → Option B
none >>= f = none
some a >>= f = f a

abbrev pub write : Store → ℕ → MessageQueue → Store
write s p q = record s { queues = update s.queues p (some q) }

-- `skynet_mq_init`
pub init : Store
init = record { queues = λ _. none; head = 0; tail = 0 }

-- `q->tail->next = queue; q->tail = queue;`, or the first queue of the list
pub link_at : Store → ℕ → Option Store
link_at s p = if s.tail == 0 then some (record s { head = p; tail = p }) else do
  last ← s.queues s.tail
  some (record (write s s.tail (record last { next = p })) { tail = p })

-- `skynet_globalmq_push`
pub globalmq_push : Store → ℕ → Option Store
unfolding link_at
globalmq_push s p = do q ← s.queues p; if q.next == 0 then link_at s p else none

-- `skynet_globalmq_pop`: the address, 0 when the list is empty.
pub globalmq_pop : Store → Option (ℕ × Store)
globalmq_pop s = if s.head == 0 then some (0, s) else do
  mq ← s.queues s.head
  let rest = write s s.head (record mq { next = 0 })
  if mq.next == 0
      then (if s.head == s.tail then some (s.head, record rest { head = 0; tail = 0 }) else none)
      else some (s.head, record rest { head = mq.next })

-- `skynet_mq_push`
pub push : Store → ℕ → Message → Option Store
push s p message = do
  q ← s.queues p
  let q' = Mq.enqueue q message
  if q'.in_global == 0
      then globalmq_push (write s p (record q' { in_global = mq_in_global })) p
      else some (write s p q')

-- `skynet_mq_pop`
pub pop : Store → ℕ → Option (ℕ × Cell × Store)
pop s p = do q ← s.queues p; let (ret, message, q') = Mq.pop q; some (ret, message, write s p q')

-- `skynet_mq_mark_release`
pub mark_release : Store → ℕ → Option Store
mark_release s p = do
  q ← s.queues p
  let marked = write s p (record q { release = 1 })
  if q.release == 0
      then (if q.in_global == mq_in_global then some marked else globalmq_push marked p)
      else none

-- The loop of `_drop_queue`: what is given to `drop_func`, in order, and the queue at the end.
-- Each round takes a cell, so the length is fuel enough: see `Schedule`.
pub drop_messages : ℕ → MessageQueue → List Cell × MessageQueue
drop_messages zero q = ([], (Mq.pop q).2)
drop_messages (suc f) q =
    let (ret, message, q') = Mq.pop q in
    let rest = drop_messages f q' in if ret == 0 then (message ∷ rest.0, rest.1) else ([], q')

-- `_release`
pub free : Store → ℕ → Option Store
free s p = do
  q ← s.queues p
  if q.next == 0 then some (record s { queues = update s.queues p none }) else none

-- `skynet_mq_release`
pub release : Store → ℕ → Option (List Cell × Store)
release s p = do
  q ← s.queues p
  if q.release == 0 then (do s' ← globalmq_push s p; some ([], s')) else (do
    let (dropped, q') = drop_messages (Mq.length q) q
    s' ← free (write s p q') p
    some (dropped, s'))
