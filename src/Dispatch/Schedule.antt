-- ===== src/Dispatch/Schedule.antt =====
-- skynet-src/skynet_server.c and skynet_mq.c: which queues the workers have in their hands, and
-- which ones wait in the global queue.
use ctkjserver.Base.{
  ℕ, ◌≡◌, refl, sym, ap, ◌∙◌, subst, ◌≢◌, inl, inr, Bool, true, false, Option, none, some, List, [],
  ◌∷◌, ◌++◌, ◌==◌, ==→eq, ==→ne, eq→==, ne→==, Bool-cases, if_true, if_false,
}
use ctkjserver.Base.Arrays.{update, update_self}
use ctkjserver.Mq.{MessageQueue, Message, mq_in_global}
use ctkjserver.Mq.Refine.{Holds}
use ctkjserver.Mq.Global.{Store, write, globalmq_push, globalmq_pop}
use ctkjserver.Mq.Global.Linked.{IsGlobal, globalmq_push-append, globalmq_pop-cons}
use ctkjserver.Mq.Global.Schedule.{IsGlobal-same}
use ctkjserver.Mq.Global.Frame.{
  listed, listed-Absent, Absent-listed, listed-append, Kept, same, relinked, globalmq_push-Kept,
  globalmq_pop-Kept,
}

-- The flag and the link of a queue, by where it is: in the hands of a worker, in the global queue,
-- or, when it has no message, in neither.
abbrev pub Place : Bool → Bool → MessageQueue → List Message → Type 0
Place true true q ms = ⊥
Place true false q ms = (q.next ≡ 0) × (q.in_global ≡ mq_in_global)
Place false true q ms = q.in_global ≡ mq_in_global
Place false false q ms = (q.next ≡ 0) × (q.in_global ≡ 0) × (ms ≡ [])

-- What is true of a queue at an address.
abbrev pub Fine : ℕ → Bool → Bool → Option MessageQueue → Type 0
Fine k held waits none = (held ≡ false) × (waits ≡ false)
Fine k held waits (some q) = (k ≢ 0) × ((ms : List Message) × Holds q ms × Place held waits q ms)

-- `ps` is the global queue, and `held` says which queues the workers have.
pub record IsScheduled (s : Store) (held : ℕ → Bool) (ps : List ℕ) : Type 0 where
  pub global : IsGlobal s ps
  pub fine : (k : ℕ) → Fine k (held k) (listed ps k) (s.queues k)

pub Holds-next :
    (q : MessageQueue) (ms : List Message) (n : ℕ) → Holds q ms → Holds (record q { next = n }) ms
Holds-next q ms n h = record {
  valid = record {
    storage = h.valid.storage;
    head_in = h.valid.head_in;
    tail_in = h.valid.tail_in;
    threshold = h.valid.threshold;
  };
  cells = h.cells;
}

pub Fine-at :
    (k : ℕ) {a a' b b' : Bool} {o o' : Option MessageQueue}
    → a' ≡ a
    → b' ≡ b
    → o' ≡ o
    → Fine k a b o
    → Fine k a' b' o'
Fine-at k p q r f = rw (p, q, r) f

-- The same for a live queue.
pub Fine-place :
    (k : ℕ) (q : MessageQueue) {a a' b b' : Bool}
    → a' ≡ a
    → b' ≡ b
    → Fine k a b (some q)
    → Fine k a' b' (some q)
Fine-place k q p r f = rw (p, r) f

Fine-relinked :
    (k n : ℕ) (q : MessageQueue) (held : Bool)
    → Fine k held true (some q)
    → Fine k held true (some (record q { next = n }))
Fine-relinked k n q true (real, (ms, h, p)) = absurd p
Fine-relinked k n q false (real, (ms, h, p)) = (real, (ms, Holds-next q ms n h, p))

Fine-taken :
    (k : ℕ) (q : MessageQueue) (held : Bool)
    → Fine k held true (some q)
    → Fine k true false (some (record q { next = 0 }))
Fine-taken k q true (real, (ms, h, p)) = absurd p
Fine-taken k q false (real, (ms, h, p)) = (real, (ms, Holds-next q ms 0 h, (refl, p)))

gone : (s : Store) (ps : List ℕ) (x : ℕ) → IsGlobal s (x ∷ ps) → listed ps x ≡ false
gone s ps x g = Absent-listed ps x g.distinct.0

-- A worker takes the first queue of the global queue.
pub pop_head :
    (s : Store) (held : ℕ → Bool) (x : ℕ) (ps : List ℕ)
    → IsScheduled s held (x ∷ ps)
    → (s' : Store) × (globalmq_pop s ≡ some (x, s')) × IsScheduled s' (update held x true) ps
pop_head s held x ps i =
    let (s', done, g, (q, at, loose)) = globalmq_pop-cons s x ps i.global in
    (
      s',
      done,
      record {
        global = g;
        fine = λ k. elim (globalmq_pop-Kept s s' k x ps i.global done) [
          | inl (f, e) ↦
              Fine-at k (if_false _ _ (ne→== x k f)) (sym (if_false _ _ (ne→== x k f))) e (i.fine k)
          | inr (t, (q, before, after)) ↦
              Fine-at k (if_true _ _ (eq→== x k t)) (ap (listed ps) (sym t) ∙ gone s ps x i.global)
                after
                (Fine-taken k q (held k)
                  (Fine-at k refl (sym (if_true _ _ (eq→== x k t))) (sym before) (i.fine k)))
        ];
      },
    )

Fine-kept :
    (s s' : Store) (ps : List ℕ) (k : ℕ) (held : Bool)
    → Kept ps s s' k
    → Fine k held (listed ps k) (s.queues k)
    → Fine k held (listed ps k) (s'.queues k)
Fine-kept s s' ps k held (same e) f = Fine-at k refl refl e f
Fine-kept s s' ps k held (relinked q n l before after) f =
    Fine-at k refl l after (Fine-relinked k n q held (Fine-at k refl (sym l) (sym before) f))

Fine-held :
    (k : ℕ) (waits : Bool) (o : Option MessageQueue)
    → Fine k true waits o
    → (waits ≡ false) × ((q : MessageQueue) × (o ≡ some q) × Fine k true false (some q))
Fine-held k waits none f = absurd (cc f.0)
Fine-held k true (some q) (real, (ms, h, p)) = absurd p
Fine-held k false (some q) f = (refl, (q, refl, f))

-- A queue in the hands of a worker is live, and not in the global queue.
pub held_queue :
    (s : Store) (held : ℕ → Bool) (p : ℕ) (ps : List ℕ)
    → IsScheduled s held ps
    → held p ≡ true
    → (listed ps p ≡ false)
      × ((q : MessageQueue) × (s.queues p ≡ some q) × Fine p true false (some q))
held_queue s held p ps i mine =
    Fine-held p (listed ps p) (s.queues p) (Fine-at p (sym mine) refl refl (i.fine p))

-- A worker puts a queue back that it has.
pub put_back :
    (s : Store) (held : ℕ → Bool) (p : ℕ) (ps : List ℕ)
    → IsScheduled s held ps
    → held p ≡ true
    → (s' : Store) × (globalmq_push s p ≡ some s')
      × IsScheduled s' (update held p false) (ps ++ (p ∷ []))
put_back s held p ps i mine =
    let (waits, (q, at, f)) = held_queue s held p ps i mine in
    let (s', done, g, after) =
      globalmq_push-append s ps p q i.global at ((f.1).2).0 f.0 (listed-Absent ps p waits) in
    (
      s',
      done,
      record {
        global = g;
        fine = λ k. elim (Bool-cases (p == k)) [
          | inl t ↦
              Fine-at k (if_true _ _ t) (listed-append ps p k ∙ if_true _ _ t)
                (ap s'.queues (sym (==→eq p k t)) ∙ after)
                (subst (λ k. Fine k false true (some q)) (==→eq p k t)
                  (f.0, ((f.1).0, (f.1).1, ((f.1).2).1)))
          | inr n ↦ Fine-at k (if_false _ _ n) (listed-append ps p k ∙ if_false _ _ n) refl (
              Fine-kept s s' ps k (held k) (globalmq_push-Kept s s' p k ps i.global done)
                (i.fine k))
        ];
      },
    )

-- A write to one queue that keeps its `next` and leaves it where it should be.
pub write_at :
    (s : Store) (held held' : ℕ → Bool) (p : ℕ) (q q' : MessageQueue) (ps : List ℕ)
    → IsScheduled s held ps
    → s.queues p ≡ some q
    → q'.next ≡ q.next
    → ((k : ℕ) → p ≢ k → held' k ≡ held k)
    → Fine p (held' p) (listed ps p) (some q')
    → IsScheduled (write s p q') held' ps
write_at s held held' p q q' ps i at e others f = record {
  global = IsGlobal-same s ps p q q' i.global at e;
  fine = λ k. elim (Bool-cases (p == k)) [
    | inl t ↦
        subst (λ k. Fine k (held' k) (listed ps k) (update s.queues p (some q') k)) (==→eq p k t)
          (Fine-at p refl refl (update_self s.queues p (some q')) f)
    | inr n ↦ Fine-at k (others k (==→ne p k n)) refl (if_false _ _ n) (i.fine k)
  ];
}
