-- ===== src/Mq.antt =====
-- skynet-src/skynet_mq.c: the queue of one service, a circular array that doubles when it is full.
-- `Mq.Global` has the operations that also touch the global queue.
--
-- An `int` is a number: head, tail, cap and the thresholds are never negative, and are taken to
-- fit. The spin lock makes each operation one step.
pub mod Ring
pub mod Refine
pub mod Overload
pub mod Global
mod Tests
use ctkjserver.Base.{
  ℕ, zero, suc, ◌+◌, ◌-◌, ◌*◌, ◌%◌, Bool, true, false, Option, none, some, List, set, get_or,
  replicate, ltb, ◌==◌, if◌then◌else◌,
}
use ctkjserver.Base.Window.{copy_round, step}

-- `struct skynet_message`; `body` is the pointer `data`, which is only passed on.
pub record Message : Type 0 where
  pub source : ℕ
  pub session : ℕ
  pub body : ℕ
  pub sz : ℕ

-- A cell of a `malloc`ed array holds nothing until it is written.
abbrev pub Cell : Type 0
Cell = Option Message

-- `struct message_queue`, with the address of the next queue in the global list (0 is NULL).
pub record MessageQueue : Type 0 where
  pub handle : ℕ
  pub cap : ℕ
  pub head : ℕ
  pub tail : ℕ
  pub release : ℕ
  pub in_global : ℕ
  pub overload : ℕ
  pub overload_threshold : ℕ
  pub queue : List Cell
  pub next : ℕ

abbrev pub default_queue_size : ℕ
default_queue_size = 64

abbrev pub mq_in_global : ℕ
mq_in_global = 1

abbrev pub mq_overload : ℕ
mq_overload = 1024

-- `skynet_mq_create`
pub create : ℕ → MessageQueue
create handle = record {
  handle = handle;
  cap = default_queue_size;
  head = 0;
  tail = 0;
  release = 0;
  in_global = mq_in_global;
  overload = 0;
  overload_threshold = mq_overload;
  queue = replicate default_queue_size none;
  next = 0;
}

-- `skynet_mq_length`; the sum is taken before the difference, as in the source.
pub length : MessageQueue → ℕ
length q = if ltb q.tail q.head then q.tail + q.cap - q.head else q.tail - q.head

-- `skynet_mq_overload`: the number seen last, which is reset.
pub take_overload : MessageQueue → ℕ × MessageQueue
take_overload q = if q.overload == 0 then (0, q) else (q.overload, record q { overload = 0 })

-- `while (length > q->overload_threshold)` in `skynet_mq_pop`: the new overload and threshold.
-- The fuel is `length`: see `Overload.raise_ends`.
pub raise : ℕ → ℕ → ℕ → ℕ → ℕ × ℕ
raise zero len overload threshold = (overload, threshold)
raise (suc f) len overload threshold =
    let rest = raise f len len (threshold * 2) in
    if ltb threshold len then rest else (overload, threshold)

-- `int length = tail - head; if (length < 0) length += cap;`
pub used_after : ℕ → ℕ → ℕ → ℕ
used_after cap head tail = if ltb tail head then tail + cap - head else tail - head

-- `skynet_mq_pop`: what it returns (0 is success), `*message`, and the queue.
pub pop : MessageQueue → ℕ × Cell × MessageQueue
pop q =
    if q.head == q.tail
    then (1, none, record q { overload_threshold = mq_overload; in_global = 0 })
    else let message = get_or q.queue q.head none in
      let head = step q.cap q.head in
      let len = used_after q.cap head q.tail in
      let (overload, threshold) = raise len len q.overload q.overload_threshold in
      (0, message, record q { head = head; overload = overload; overload_threshold = threshold })

-- `expand_queue`
pub expand_queue : MessageQueue → MessageQueue
expand_queue q = record q {
  head = 0;
  tail = q.cap;
  cap = q.cap * 2;
  queue = copy_round none q.queue q.head q.cap q.cap 0 (replicate (q.cap * 2) none);
}

-- The first part of `skynet_mq_push`, up to the test of `in_global`.
pub enqueue : MessageQueue → Message → MessageQueue
unfolding expand_queue
enqueue q message =
    let tail = step q.cap q.tail in
    let q' : MessageQueue = record q { queue = set q.queue q.tail (some message); tail = tail } in
    if q.head == tail then expand_queue q' else q'
