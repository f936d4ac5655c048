-- ===== src/Mq/Refine.antt =====
-- skynet-src/skynet_mq.c against an unbounded first-in-first-out queue of messages.
use ctkjserver.Base.{
  ℕ, ◌<◌, ◌≡◌, refl, sym, ap, ◌∙◌, ◌≢◌, Option, none, some, List, [], ◌∷◌, ◌++◌, map, map-append,
  get_or, length-map, arith,
}
use ctkjserver.Base
use ctkjserver.Base.Window.{used, used_empty, length-window}
use ctkjserver.Mq
use ctkjserver.Mq.{MessageQueue, Message, enqueue, pop}
use ctkjserver.Mq.Ring.{
  IsValid, contents, create-IsValid, enqueue-IsValid, pop-IsValid, contents-enqueue, popped,
  pop_some, pop-none, contents_empty, contents-popped,
}

-- A client's calls on a queue.
pub data Op : Type 0 where
  push : Message → Op
  take : Op

-- What the calls give: of `skynet_mq_pop` the return value and the message.
pub data Reply : Type 0 where
  pushed : Reply
  got : ℕ → Option Message → Reply

unfoldable pub run : MessageQueue → List Op → List Reply
run q [] = []
run q (push m ∷ ops) = pushed ∷ run (enqueue q m) ops
run q (take ∷ ops) = let (ret, message, q') = pop q in got ret message ∷ run q' ops

-- The specification: a list, oldest first.
pub fifo : List Message → List Op → List Reply
fifo ms [] = []
fifo ms (push m ∷ ops) = pushed ∷ fifo (ms ++ (m ∷ [])) ops
fifo [] (take ∷ ops) = got 1 none ∷ fifo [] ops
fifo (m ∷ ms) (take ∷ ops) = got 0 (some m) ∷ fifo ms ops

-- A valid queue that holds just the messages `ms`.
pub record Holds (q : MessageQueue) (ms : List Message) : Type 0 where
  pub valid : IsValid q
  pub cells : contents q ≡ map some ms

pub enqueue-Holds :
    (q : MessageQueue) (ms : List Message) (m : Message)
    → Holds q ms
    → Holds (enqueue q m) (ms ++ (m ∷ []))
enqueue-Holds q ms m h = record {
  valid = enqueue-IsValid q m h.valid;
  cells = contents-enqueue q m h.valid ∙ rw h.cells (sym (map-append some ms (m ∷ [])));
}

-- `skynet_mq_length` is the number of messages.
pub length-Holds :
    (q : MessageQueue) (ms : List Message) → Holds q ms → Mq.length q ≡ Base.length ms
unfolding Mq.length
length-Holds q ms h =
    sym (length-window none q.queue q.cap q.head (used q.cap q.head q.tail))
    ∙ ap Base.length h.cells
    ∙ length-map ms some

-- An empty queue has equal indices, and one with a message has not.
ends_meet : (q : MessageQueue) → Holds q [] → q.head ≡ q.tail
ends_meet q h = used_empty q.cap q.head q.tail h.valid.head_in h.valid.tail_in (
    sym (length-window none q.queue q.cap q.head (used q.cap q.head q.tail))
    ∙ ap Base.length h.cells)

ends_differ :
    (q : MessageQueue) (m : Message) (ms : List Message) → Holds q (m ∷ ms) → q.head ≢ q.tail
ends_differ q m ms h e = cc (sym (contents_empty q e) ∙ h.cells)

pub pop_empty :
    (q : MessageQueue) → Holds q [] → ((pop q).0 ≡ 1) × ((pop q).1 ≡ none) × Holds (pop q).2 []
pop_empty q h = (
  ap (λ r. r.0) gone,
  ap (λ r. r.1) gone,
  record { valid = pop-IsValid q h.valid; cells = rw gone h.cells },
)
  where
    gone : pop q ≡ (1, none, record q { overload_threshold = Mq.mq_overload; in_global = 0 })
    gone = pop-none q (ends_meet q h)

pub pop_first :
    (q : MessageQueue) (m : Message) (ms : List Message)
    → Holds q (m ∷ ms)
    → ((pop q).0 ≡ 0) × ((pop q).1 ≡ some m) × Holds (pop q).2 ms
pop_first q m ms h = (
  ap (λ r. r.0) gone,
  ap (λ r. r.1) gone ∙ cc (split, h.cells),
  record { valid = pop-IsValid q h.valid; cells = rw gone (cc (split, h.cells)) },
)
  where
    gone : pop q ≡ (0, get_or q.queue q.head none, popped q)
    gone = pop_some q (ends_differ q m ms h)

    split : contents q ≡ get_or q.queue q.head none ∷ contents (popped q)
    split = contents-popped q h.valid (ends_differ q m ms h)

-- Through any sequence of pushes and pops, a queue that holds `ms` answers as the list `ms` does.
pub run_refines :
    (ops : List Op) (q : MessageQueue) (ms : List Message) → Holds q ms → run q ops ≡ fifo ms ops
unfolding run fifo
run_refines [] q ms h = refl
run_refines (push m ∷ ops) q ms h =
    ap (◌∷◌ pushed) (run_refines ops (enqueue q m) (ms ++ (m ∷ [])) (enqueue-Holds q ms m h))
run_refines (take ∷ ops) q [] h =
    let (a, b, k) = pop_empty q h in
    rw (a, b) (ap (◌∷◌ (got 1 none)) (run_refines ops (pop q).2 [] k))
run_refines (take ∷ ops) q (m ∷ ms) h =
    let (a, b, k) = pop_first q m ms h in
    rw (a, b) (ap (◌∷◌ (got 0 (some m))) (run_refines ops (pop q).2 ms k))

-- A new queue is empty.
pub create-Holds : (handle : ℕ) → Holds (Mq.create handle) []
unfolding Mq.create
create-Holds handle = record { valid = create-IsValid handle; cells = refl }
