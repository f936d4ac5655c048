-- ===== src/Mq/Ring.antt =====
-- The representation invariant of a message queue, and the cells that it holds in order.
use ctkjserver.Base.{
  ℕ, zero, suc, ◌+◌, ◌*◌, ◌≤◌, ◌<◌, ◌≡◌, refl, sym, ap, ◌∙◌, ◌≢◌, none, some, List, [], ◌∷◌, ◌++◌,
  set, get_or, length-set, length-replicate, replicate, ltb, ◌==◌, if◌then◌else◌, ltb→lt,
  Bool-cases, inl, inr, eq→==, ne→==, arith,
}
use ctkjserver.Base
use ctkjserver.Base.Window.{
  window, used, step, end_at, used-lt, used-step, used_full, used_pop, used_same, window_push,
  window_pop, copy_round, length-copy_round, window-copy_round,
}
use native.Mathlib.Decide.{ℕ_discrete}
use ctkjserver.Mq
use ctkjserver.Mq.{MessageQueue, Message, Cell, create, expand_queue, enqueue, pop, raise}

pub record IsValid (q : MessageQueue) : Type 0 where
  pub storage : Base.length q.queue ≡ q.cap
  pub head_in : q.head < q.cap
  pub tail_in : q.tail < q.cap
  pub threshold : 0 < q.overload_threshold

-- The cells from `head` up to `tail`.
abbrev pub contents : MessageQueue → List Cell
contents q = window none q.queue q.cap q.head (used q.cap q.head q.tail)

pub create-IsValid : (handle : ℕ) → IsValid (create handle)
unfolding create
create-IsValid handle = record {
  storage = refl;
  head_in = omega arith;
  tail_in = omega arith;
  threshold = omega arith;
}

pub raise-pos : (f len o t : ℕ) → 0 < t → 0 < (raise f len o t).1
unfolding raise
raise-pos zero len o t h = h
raise-pos (suc f) len o t h = ground (arith, raise-pos f len len (t * 2))

-- The queue after the write and the step of `tail`, before the test for a full array.
abbrev pub stored : MessageQueue → Message → MessageQueue
stored q m = record q { queue = set q.queue q.tail (some m); tail = step q.cap q.tail }

pub stored-IsValid : (q : MessageQueue) (m : Message) → IsValid q → IsValid (stored q m)
stored-IsValid q m v = ground (arith, length-set q.queue q.tail (some m))

pub expand-IsValid : (q : MessageQueue) → IsValid q → IsValid (expand_queue q)
unfolding expand_queue
expand-IsValid q v = record {
  storage =
      length-copy_round none q.queue q.head q.cap q.cap 0 (replicate (q.cap * 2) none)
      ∙ length-replicate (q.cap * 2) none;
  head_in = omega arith;
  tail_in = omega arith;
  threshold = v.threshold;
}

-- `skynet_mq_push` keeps the invariant.
pub enqueue-IsValid : (q : MessageQueue) (m : Message) → IsValid q → IsValid (enqueue q m)
unfolding enqueue
enqueue-IsValid q m v = elim (ℕ_discrete q.head (step q.cap q.tail)) [
  | yes e ↦ rw (eq→== _ _ e) (expand-IsValid (stored q m) (stored-IsValid q m v))
  | no ne ↦ rw (ne→== _ _ ne) (stored-IsValid q m v)
]

-- The queue after a message is taken.
abbrev pub popped : MessageQueue → MessageQueue
popped q =
    let len = Mq.used_after q.cap (step q.cap q.head) q.tail in
    let r = raise len len q.overload q.overload_threshold in
    record q { head = step q.cap q.head; overload = r.0; overload_threshold = r.1 }

pub pop_some :
    (q : MessageQueue) → q.head ≢ q.tail → pop q ≡ (0, get_or q.queue q.head none, popped q)
unfolding pop
pop_some q ne = rw (ne→== _ _ ne)

pub pop-none :
    (q : MessageQueue)
    → q.head ≡ q.tail
    → pop q ≡ (1, none, record q { overload_threshold = Mq.mq_overload; in_global = 0 })
unfolding pop
pop-none q e = rw (eq→== _ _ e)

-- `skynet_mq_pop` keeps the invariant.
pub pop-IsValid : (q : MessageQueue) → IsValid q → IsValid (pop q).2
pop-IsValid q v = elim (ℕ_discrete q.head q.tail) [
  | yes e ↦ rw (pop-none q e) record {
    storage = v.storage;
    head_in = v.head_in;
    tail_in = v.tail_in;
    threshold = omega arith;
  }
  | no ne ↦ rw (pop_some q ne) record {
    storage = v.storage;
    head_in = ground arith;
    tail_in = v.tail_in;
    threshold = raise-pos _ _ _ _ v.threshold;
  }
]

-- The window that ends with the new message, whatever `tail` is then.
grown :
    (q : MessageQueue) (m : Message)
    → IsValid q
    → window none (set q.queue q.tail (some m)) q.cap q.head (suc (used q.cap q.head q.tail))
      ≡ contents q ++ (some m ∷ [])
grown q m v =
    window_push none q.queue q.cap q.head q.tail (used q.cap q.head q.tail) (some m) (omega arith)
      v.tail_in (used-lt q.cap q.head q.tail v.head_in v.tail_in)
      (end_at q.cap q.head q.tail v.head_in v.tail_in)

abbrev copied : MessageQueue → Message → List Cell
copied q m =
    copy_round none (set q.queue q.tail (some m)) q.head q.cap q.cap 0 (replicate (q.cap * 2) none)

-- `skynet_mq_push` appends the message, through an expansion of the array too.
pub contents-enqueue :
    (q : MessageQueue) (m : Message)
    → IsValid q
    → contents (enqueue q m) ≡ contents q ++ (some m ∷ [])
unfolding enqueue expand_queue
contents-enqueue q m v = elim (ℕ_discrete q.head (step q.cap q.tail)) [
  | yes e ↦ rw (eq→== _ _ e) (
      ap (window none (copied q m) (q.cap * 2) 0) (ground arith)
      ∙ window-copy_round none (set q.queue q.tail (some m)) q.head q.cap (q.cap * 2)
          (replicate (q.cap * 2) none) (omega arith) (sym (length-replicate (q.cap * 2) none))
      ∙ ap (window none (set q.queue q.tail (some m)) q.cap q.head)
          (sym (used_full q.cap q.head q.tail v.head_in v.tail_in e))
      ∙ grown q m v)
  | no ne ↦ rw (ne→== _ _ ne) (
      ap (window none (set q.queue q.tail (some m)) q.cap q.head)
        (used-step q.cap q.head q.tail v.head_in v.tail_in ne)
      ∙ grown q m v)
]

pub contents_empty : (q : MessageQueue) → q.head ≡ q.tail → contents q ≡ []
contents_empty q e = ap (window none q.queue q.cap q.head) (used_same q.cap q.head q.tail e)

-- `skynet_mq_pop` takes the first cell off.
pub contents-popped :
    (q : MessageQueue)
    → IsValid q
    → q.head ≢ q.tail
    → contents q ≡ get_or q.queue q.head none ∷ contents (popped q)
contents-popped q v ne =
    ap (window none q.queue q.cap q.head) (used_pop q.cap q.head q.tail v.head_in v.tail_in ne)
    ∙ window_pop none q.queue q.cap q.head (used q.cap (step q.cap q.head) q.tail) v.head_in
