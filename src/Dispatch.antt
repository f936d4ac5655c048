-- ===== src/Dispatch.antt =====
-- skynet-src/skynet_server.c: how a worker serves one queue of the global queue, and how a message
-- is sent to a service; skynet-src/skynet_monitor.c.
--
-- A `Node` is what the workers share, with the calls of the callbacks so far. `none` as a result is
-- a failed `assert`, an access to a queue that was freed, or a message that was never written.
pub mod Schedule
pub mod Adds
pub mod Post
pub mod Contents
pub mod Batch
pub mod Turns
pub mod Order
pub mod Waiting
pub mod Watch
mod Tests
use ctkjserver.Base.{
  ℕ, zero, suc, ◌+◌, ◌-◌, ◌*◌, ◌/◌, ◌%◌, ◌^◌, Bool, true, false, Option, none, some, List, [], ◌∷◌,
  ◌++◌, ◌==◌, if◌then◌else◌,
}
use ctkjserver.Base.Int.{ℤ, pos, negsuc}
use ctkjserver.Mq
use ctkjserver.Mq.{MessageQueue, Message, Cell, take_overload}
use ctkjserver.Mq.Global.{Store, write, push, pop, globalmq_push, globalmq_pop, release, ◌>>=◌}

-- `struct skynet_monitor`
pub record Monitor : Type 0 where
  pub version : ℕ
  pub check_version : ℕ
  pub source : ℕ
  pub destination : ℕ

-- `skynet_monitor_new`
pub monitor_new : Monitor
monitor_new = record { version = 0; check_version = 0; source = 0; destination = 0 }

-- `skynet_monitor_trigger`
pub monitor_trigger : Monitor → ℕ → ℕ → Monitor
monitor_trigger sm source destination = record sm {
  source = source;
  destination = destination;
  version = (sm.version + 1) % 2 ^ 32;
}

-- `skynet_monitor_check`: the source and the destination that are reported, and the monitor.
pub monitor_check : Monitor → Option (ℕ × ℕ) × Monitor
monitor_check sm =
    if sm.version == sm.check_version
    then (if sm.destination == 0 then (none, sm) else (some (sm.source, sm.destination), sm))
    else (none, record sm { check_version = sm.version })

-- A call of `ctx->cb`, less `ctx` and `cb_ud`, which the handle names.
pub record Call : Type 0 where
  pub handle : ℕ
  pub type : ℕ
  pub session : ℕ
  pub source : ℕ
  pub body : ℕ
  pub sz : ℕ

-- `MESSAGE_TYPE_SHIFT`, of a `size_t` of 64 bits
abbrev pub message_type_shift : ℕ
message_type_shift = 56

-- The call that `dispatch_message` makes.
abbrev pub call_of : ℕ → Message → Call
call_of handle msg = record {
  handle = handle;
  type = msg.sz / 2 ^ message_type_shift;
  session = msg.session;
  source = msg.source;
  body = msg.body;
  sz = msg.sz % 2 ^ message_type_shift;
}

-- The fields `cb != NULL`, `queue` and `init` of `struct skynet_context`.
pub record Context : Type 0 where
  pub queue : ℕ
  pub cb : Bool
  pub init : Bool

-- The queues, the contexts by handle, the monitor of the worker, and the calls made.
pub record Node : Type 0 where
  pub store : Store
  pub contexts : ℕ → Option Context
  pub monitor : Monitor
  pub calls : List Call

-- `skynet_context_push`; it returns -1, and does nothing, for a handle without a context.
pub context_push : Node → ℕ → Message → Option Node
context_push n handle message = elim (n.contexts handle) [
  | none ↦ some n
  | some ctx ↦ do s ← push n.store ctx.queue message; some (record n { store = s })
]

-- The messages of a callback, sent one after the other.
pub post : Node → List (ℕ × Message) → Option Node
post n [] = some n
post n ((handle, message) ∷ sends) = do n' ← context_push n handle message; post n' sends

-- `PTYPE_ERROR`
abbrev pub ptype_error : ℕ
ptype_error = 7

-- The message that `drop_message` sends to the source of a message that is dropped.
abbrev pub drop_reply : ℕ → Message
drop_reply handle = record {
  source = handle;
  session = 0;
  body = 0;
  sz = ptype_error * 2 ^ message_type_shift;
}

-- `drop_message`, for each message; its `assert(source)` is about the handle of the queue.
pub drop_replies : ℕ → List Cell → Option (List (ℕ × Message))
drop_replies handle [] = some []
drop_replies handle (none ∷ cells) = none
drop_replies handle (some m ∷ cells) = do
  rest ← drop_replies handle cells
  if handle == 0
      then none
      else some (if m.source == 0 then rest else ((m.source, drop_reply handle) ∷ rest))

-- `n = skynet_mq_length(q); n >>= weight;`, or the first value of `n`
pub rounds_of : ℤ → ℕ → ℕ
rounds_of (pos weight) len = len / 2 ^ weight
rounds_of (negsuc w) len = 1

-- What comes of a round: there was no message, or the length of the queue after it was taken.
pub data Round : Type 0 where
  ended : Node → Round
  served : ℕ → Node → Round

abbrev pub triggered : Node → ℕ → ℕ → Node
triggered n source destination = record n { monitor = monitor_trigger n.monitor source destination }

-- The messages that the callback of a service sends, given the calls made before.
abbrev pub Services : Type 0
Services = List Call → Call → List (ℕ × Message)

module _ (serve : Services) where
  -- `dispatch_message`, with `assert(ctx->init)`
  pub dispatch_message : Node → ℕ → Context → Message → Option Node
  dispatch_message n handle ctx msg =
      let call = call_of handle msg in
      if ctx.init
      then post (record n { calls = n.calls ++ (call ∷ []) }) (serve n.calls call)
      else none

  -- The body of the loop, from `skynet_monitor_trigger` on; a message for a context without a
  -- callback is freed.
  pub handle_message : Node → ℕ → Context → Message → Option Node
  handle_message n handle ctx msg = do
    n' ←
        (if ctx.cb
          then dispatch_message (triggered n msg.source handle) handle ctx msg
          else some (triggered n msg.source handle))
    some (triggered n' 0 0)

  -- The body of the loop of `skynet_context_message_dispatch`.
  pub round : Node → ℕ → ℕ → Context → Option Round
  round n p handle ctx = do
    (ret, cell, s) ← pop n.store p
    if ret == 0
        then (do
          msg ← cell
          q ← s.queues p
          n' ← handle_message (record n { store = write s p (take_overload q).1 }) handle ctx msg
          some (served (Mq.length q) n'))
        else some (ended (record n { store = s }))

  -- The rounds after the first.
  pub more_rounds : ℕ → Node → ℕ → ℕ → Context → Option Round
  more_rounds zero n p handle ctx = some (served 0 n)
  more_rounds (suc f) n p handle ctx = do
    r ← round n p handle ctx
    elim r [ ended n' ↦ some (ended n') | served len n' ↦ more_rounds f n' p handle ctx ]

  -- `return skynet_globalmq_pop();`
  pub next_queue : Node → Option (ℕ × Node)
  next_queue n = do (p, s) ← globalmq_pop n.store; some (p, record n { store = s })

  -- What follows the loop.
  pub hand_on : Node → ℕ → Option (ℕ × Node)
  hand_on n p = do
    (nq, s) ← globalmq_pop n.store
    if nq == 0
        then some (p, record n { store = s })
        else (do s' ← globalmq_push s p; some (nq, record n { store = s' }))

  -- After the loop, `assert(q == ctx->queue)`
  pub finish : Round → ℕ → Context → Option (ℕ × Node)
  finish (ended n) p ctx = next_queue n
  finish (served len n) p ctx = if p == ctx.queue then hand_on n p else none

  -- The loop, and what follows it.
  pub serve_queue : Node → ℕ → ℕ → Context → ℤ → Option (ℕ × Node)
  serve_queue n p handle ctx weight = do
    first ← round n p handle ctx
    r ← elim first [
      | ended n' ↦ some (ended n')
      | served len n' ↦ more_rounds (rounds_of weight len - 1) n' p handle ctx
    ]
    finish r p ctx

  -- The queue of a handle without a context is released.
  pub drop_queue : Node → ℕ → ℕ → Option (ℕ × Node)
  drop_queue n p handle = do
    (dropped, s) ← release n.store p
    replies ← drop_replies handle dropped
    n' ← post (record n { store = s }) replies
    next_queue n'

  -- `skynet_context_message_dispatch`, from `skynet_mq_handle` on
  pub dispatch_queue : Node → ℕ → ℤ → Option (ℕ × Node)
  dispatch_queue n p weight = do
    q ← n.store.queues p
    elim (n.contexts q.handle) [
      | none ↦ drop_queue n p q.handle
      | some ctx ↦ serve_queue n p q.handle ctx weight
    ]

  -- `skynet_context_message_dispatch`: the queue to serve next (0 is NULL).
  pub message_dispatch : Node → ℕ → ℤ → Option (ℕ × Node)
  message_dispatch n q weight = do
    (p, s) ← (if q == 0 then globalmq_pop n.store else some (q, n.store))
    if p == 0
        then some (0, record n { store = s })
        else dispatch_queue (record n { store = s }) p weight
