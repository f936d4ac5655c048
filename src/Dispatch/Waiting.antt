-- ===== src/Dispatch/Waiting.antt =====
-- skynet-src/skynet_server.c: no message is left in a queue that no worker has and that does not wait
-- in the global queue, whatever is sent, and a worker gives up an empty queue only.
use ctkjserver.Base.{
  ℕ, ◌≡◌, refl, sym, ap, All, ◌∙◌, ◌⊎◌, inl, inr, Bool, true, false, Option, some, List, [], ◌∷◌,
  ◌++◌, ne→==, if_false, arith, ◌≢◌,
}
use mathlib.Core.Option.{some-injective}
use ctkjserver.Base.Int.{ℤ}
use ctkjserver.Base.Arrays.{update, update_self}
use ctkjserver.Mq
use ctkjserver.Mq.{MessageQueue, Message}
use ctkjserver.Mq.Refine.{Holds, pop_empty, length-Holds}
use ctkjserver.Mq.Global.{Store, write}
use ctkjserver.Mq.Global.Frame.{listed}
use ctkjserver.Mq.Global.Linked.{globalmq_pop-empty}
use ctkjserver.Mq.Global.Step.{pop_at, next-pop, in_global-ended}
use ctkjserver.Dispatch.{
  Node, Context, Services, round, next_queue, finish, serve_queue, message_dispatch, post,
}
use ctkjserver.Dispatch.Schedule.{
  Fine, Fine-at, Fine-place, IsScheduled, held_queue, write_at, pop_head,
}
use ctkjserver.Dispatch.Adds.{Adds, Adds-Grows}
use ctkjserver.Dispatch.Post.{sent_to, IsLinked, post-Posted, Grows-IsLinked}
use ctkjserver.Dispatch.Order.{message_dispatch-queue}

-- A queue with a message is in the hands of a worker or in the global queue.
abbrev pub IsWaiting : Store → (ℕ → Bool) → List ℕ → Type 0
IsWaiting s held ps =
    (k : ℕ) (q : MessageQueue) (m : Message) (ms : List Message)
    → s.queues k ≡ some q
    → Holds q (m ∷ ms)
    → (held k ≡ true) ⊎ (listed ps k ≡ true)

cons-length :
    (q : MessageQueue) (m : Message) (ms : List Message) → Holds q (m ∷ ms) → Holds q [] → ⊥
cons-length q m ms h k = absurd (omega (arith, length-Holds q (m ∷ ms) h, length-Holds q [] k))

Fine-waits :
    (k : ℕ) (h l : Bool) (q : MessageQueue) (m : Message) (ms : List Message)
    → Fine k h l (some q)
    → Holds q (m ∷ ms)
    → (h ≡ true) ⊎ (l ≡ true)
Fine-waits k true l q m ms f h = inl refl
Fine-waits k false true q m ms f h = inr refl
Fine-waits k false false q m ms (real, (none_left, empty, p)) h =
    absurd (cons-length q m ms h (rw (sym (p.2)) empty))

pub IsScheduled-IsWaiting :
    (s : Store) (held : ℕ → Bool) (ps : List ℕ) → IsScheduled s held ps → IsWaiting s held ps
IsScheduled-IsWaiting s held ps i k q m ms at h =
    Fine-waits k (held k) (listed ps k) q m ms (Fine-at k refl refl (sym at) (i.fine k)) h

-- What comes of the messages of a callback.
pub record Reached (n : Node) (held : ℕ → Bool) (ps : List ℕ) (sends : List (ℕ × Message))
    (o : Option Node) : Type 0 where
  pub after : Store
  pub woken : List ℕ
  pub done : o ≡ some (record n { store = after })
  pub scheduled : IsScheduled after held (ps ++ woken)
  pub waiting : IsWaiting after held (ps ++ woken)
  pub adds : Adds (sent_to n.contexts sends) n.store after
  pub only_woken : All (λ k. sent_to n.contexts sends k ≢ []) woken
  pub linked : IsLinked n.contexts after

-- When the queues are in order (`IsScheduled`) and every context has a live queue, the messages of a
-- callback, to any handles, are sent without a failed `assert`. Each queue then has, behind what it
-- held, just the messages for the handles of which it is the queue, in order; those for a handle
-- without a context reach none. The global queue keeps its order, and only queues that got a
-- message follow in it. Afterwards the queues are in order, so that every queue with a message is in
-- the hands of a worker or in the global queue.
pub post_lem :
    (n : Node) (held : ℕ → Bool) (ps : List ℕ) (sends : List (ℕ × Message))
    → IsScheduled n.store held ps
    → IsLinked n.contexts n.store
    → Reached n held ps sends (post n sends)
post_lem n held ps sends i l =
    let sent = post-Posted sends n held ps i l in
    record {
      after = sent.after;
      woken = sent.woken;
      done = sent.done;
      scheduled = sent.scheduled;
      waiting = IsScheduled-IsWaiting sent.after held (ps ++ sent.woken) sent.scheduled;
      adds = sent.adds;
      only_woken = sent.only_woken;
      linked =
          Grows-IsLinked n.contexts n.store sent.after
            (Adds-Grows (sent_to n.contexts sends) n.store sent.after sent.adds) l;
    }

-- The worker has the first queue of the global queue, or none.
abbrev pub Passed : (ℕ → Bool) → List ℕ → ℕ → Store → Type 0
Passed held [] next s = (next ≡ 0) × IsScheduled s held []
Passed held (x ∷ xs) next s = (next ≡ x) × IsScheduled s (update held x true) xs

next_queue-Passed :
    (serve : Services) (n : Node) (held : ℕ → Bool) (ps : List ℕ)
    → IsScheduled n.store held ps
    → (next : ℕ) × ((s : Store) × (next_queue serve n ≡ some (next, record n { store = s }))
        × Passed held ps next s)
unfolding next_queue
next_queue-Passed serve n held [] i =
    (0, (n.store, rw (globalmq_pop-empty n.store i.global) refl, (refl, i)))
next_queue-Passed serve n held (x ∷ xs) i =
    let (s, popped, j) = pop_head n.store held x xs i in (x, (s, rw popped refl, (refl, j)))

serve_queue-ended :
    (serve : Services) (n : Node) (p : ℕ) (q : MessageQueue) (handle : ℕ) (ctx : Context)
    (weight : ℤ)
    → n.store.queues p ≡ some q
    → (Mq.pop q).0 ≡ 1
    → serve_queue serve n p handle ctx weight
      ≡ next_queue serve (record n { store = write n.store p (Mq.pop q).2 })
unfolding serve_queue round finish
serve_queue-ended serve n p q handle ctx weight at e = rw (pop_at n.store p q at, e) refl

-- When the queues are in order (`IsScheduled`), a worker that has the queue of a context, without a
-- message, gives it up, so that the next message puts it into the global queue again, and takes
-- the first queue of the global queue, or none.
pub message_dispatch-empty :
    (serve : Services) (n : Node) (held : ℕ → Bool) (ps : List ℕ) (p : ℕ) (q : MessageQueue)
    (ctx : Context) (weight : ℤ)
    → IsScheduled n.store held ps
    → held p ≡ true
    → n.store.queues p ≡ some q
    → n.contexts q.handle ≡ some ctx
    → Holds q []
    → (next : ℕ) × ((s : Store) × (message_dispatch serve n p weight
          ≡ some (next, record n { store = s }))
        × Passed (update held p false) ps next s)
message_dispatch-empty serve n held ps p q ctx weight i mine at live h =
    let fine : Fine p false false (some (Mq.pop q).2) = (
      have.1.2.0,
      ([], (pop_empty q h).2, (next-pop q ∙ loose, in_global-ended q (pop_empty q h).0, refl)),
    ) in
    let left =
      write_at n.store held (update held p false) p q (Mq.pop q).2 ps i at (next-pop q)
        (λ k ne. if_false _ _ (ne→== p k ne))
        (Fine-place p (Mq.pop q).2 (update_self held p false) have.0 fine) in
    let (next, (s, done, passed)) =
      next_queue-Passed serve (record n { store = write n.store p (Mq.pop q).2 })
        (update held p false) ps left in
    (
      next,
      (
        s,
        message_dispatch-queue serve n p weight q ctx (ne→== p 0 have.1.2.0) at live
            ∙ serve_queue-ended serve n p q q.handle ctx weight at (pop_empty q h).0
            ∙ done,
        passed,
      ),
    )
  where
    have :
        (listed ps p ≡ false)
        × ((q : MessageQueue) × (n.store.queues p ≡ some q) × Fine p true false (some q))
    have = held_queue n.store held p ps i mine

    loose : q.next ≡ 0
    loose = ap (λ q. q.next) (some-injective _ _ (sym at ∙ have.1.1)) ∙ ((have.1.2).1.2).0
