-- ===== src/Dispatch/Post.antt =====
-- skynet-src/skynet_server.c: a message that is sent reaches the queue of its service, which waits in
-- the global queue from then on, and no other queue loses anything.
use ctkjserver.Base.{
  All, All-append, All-map, none, some, eq→==, ℕ, ◌≡◌, refl, sym, ap, ◌∙◌, ◌≢◌, inl, inr, Bool,
  true, false, Option, List, [], ◌∷◌, ◌++◌, append-nil, append_assoc, ◌==◌, ==→eq, ==→ne, ne→==,
  Bool-cases, Option-cases, if_true, if_false, arith,
}
use ctkjserver.Base.Arrays.{update, update_self}
use ctkjserver.Mq.{MessageQueue, Message, enqueue}
use ctkjserver.Mq.Refine.{Holds, enqueue-Holds}
use ctkjserver.Mq.Global.{Store, write, push}
use ctkjserver.Mq.Global.Frame.{listed, globalmq_push-Kept}
use ctkjserver.Mq.Global.Step.{next-enqueue, in_global-enqueue, push_at_idle, push_at_busy}
use ctkjserver.Dispatch.Adds.{
  Grows, Adds, Adds-Grows, Adds-none, Adds-trans, Adds-same, only, write-Adds, Kept-Adds,
}
use ctkjserver.Dispatch.{Node, Context, context_push, post}
use ctkjserver.Dispatch.Schedule.{Fine, Fine-at, Fine-place, IsScheduled, put_back, write_at}

pub Holds-flag :
    (q : MessageQueue) (ms : List Message) (n : ℕ)
    → Holds q ms
    → Holds (record q { in_global = n }) ms
Holds-flag q ms n h = record {
  valid = record {
    storage = h.valid.storage;
    head_in = h.valid.head_in;
    tail_in = h.valid.tail_in;
    threshold = h.valid.threshold;
  };
  cells = h.cells;
}

-- A queue whose flag is clear is in nobody's hands, waits nowhere, and is empty.
Fine-idle :
    (k : ℕ) (h l : Bool) (q : MessageQueue)
    → Fine k h l (some q)
    → q.in_global ≡ 0
    → (h ≡ false) × (l ≡ false) × (q.next ≡ 0) × Holds q []
Fine-idle k true true q (real, (ms, h, p)) e = absurd p
Fine-idle k true false q (real, (ms, h, p)) e = absurd (omega (arith, p.1, e))
Fine-idle k false true q (real, (ms, h, p)) e = absurd (omega (arith, p, e))
Fine-idle k false false q (real, (ms, h, p)) e = (refl, refl, p.0, rw (sym (p.2)) h)

Fine-enqueue :
    (k : ℕ) (h l : Bool) (q : MessageQueue) (m : Message)
    → Fine k h l (some q)
    → q.in_global ≢ 0
    → Fine k h l (some (enqueue q m))
Fine-enqueue k true true q m (real, (ms, h, p)) b = absurd p
Fine-enqueue k true false q m (real, (ms, h, p)) b = (
  real,
  (ms ++ (m ∷ []), enqueue-Holds q ms m h, (next-enqueue q m ∙ p.0, in_global-enqueue q m ∙ p.1)),
)
Fine-enqueue k false true q m (real, (ms, h, p)) b =
    (real, (ms ++ (m ∷ []), enqueue-Holds q ms m h, in_global-enqueue q m ∙ p))
Fine-enqueue k false false q m (real, (ms, h, p)) b = absurd (b p.1)

same_held :
    (s : Store) (held held' : ℕ → Bool) (ps : List ℕ)
    → ((k : ℕ) → held' k ≡ held k)
    → IsScheduled s held ps
    → IsScheduled s held' ps
same_held s held held' ps e i = record {
  global = i.global;
  fine = λ k. Fine-at k (e k) refl refl (i.fine k);
}

-- What comes of sending `m` to the queue at `p`: it is added there, the queues of the global queue
-- keep their order, and this one follows if it did not wait.
pub record Sent (s : Store) (held : ℕ → Bool) (ps : List ℕ) (p : ℕ) (m : Message) (o : Option Store)
    : Type 0 where
  pub after : Store
  pub woken : List ℕ
  pub done : o ≡ some after
  pub scheduled : IsScheduled after held (ps ++ woken)
  pub adds : Adds (only p m) s after
  pub only_woken : All (λ k. p ≡ k) woken

-- `skynet_mq_push` to a live queue
pub push-Sent :
    (s : Store) (held : ℕ → Bool) (ps : List ℕ) (p : ℕ) (q : MessageQueue) (m : Message)
    → IsScheduled s held ps
    → s.queues p ≡ some q
    → Sent s held ps p m (push s p m)
push-Sent s held ps p q m i at = elim (Bool-cases (q.in_global == 0)) [
  | inl idle ↦
      let (h, l, next, empty) = Fine-idle p _ _ q fine (==→eq _ _ idle) in
      let q' : MessageQueue = record (enqueue q m) { in_global = 1 } in
      let held_now : Fine p true false (some q') = (
        fine.0,
        (
          m ∷ [],
          Holds-flag (enqueue q m) _ 1 (enqueue-Holds q [] m empty),
          (next-enqueue q m ∙ next, refl),
        ),
      ) in
      let taken =
        write_at s held (update held p true) p q q' ps i at (next-enqueue q m)
          (λ k ne. if_false _ _ (ne→== p k ne))
          (Fine-place p q' (update_self held p true) l held_now) in
      let (s', done, back) =
        put_back (write s p q') (update held p true) p ps taken (update_self held p true) in
      record {
        after = s';
        woken = p ∷ [];
        done = push_at_idle s p q at m (==→eq _ _ idle) ∙ done;
        scheduled = same_held s' _ held _ (λ k. restored k h) back;
        adds =
            Adds-same (λ k. only p m k ++ []) (only p m) s s' (λ k. sym (append-nil (only p m k)))
              (Adds-trans (only p m) (λ k. []) s (write s p q') s'
                (write-Adds s p q q' m at
                  (λ ms k. Holds-flag (enqueue q m) _ 1 (enqueue-Holds q ms m k)))
                (Kept-Adds (write s p q') s' ps
                  (λ k. globalmq_push-Kept (write s p q') s' p k ps taken.global done)));
        only_woken = (refl, tt);
      }
  | inr busy ↦ record {
    after = write s p (enqueue q m);
    woken = [];
    done = push_at_busy s p q at m (==→ne _ _ busy);
    scheduled = rw (append-nil ps) (
        write_at s held held p q (enqueue q m) ps i at (next-enqueue q m) (λ k ne. refl)
          (Fine-enqueue p _ _ q m fine (==→ne _ _ busy)));
    adds = write-Adds s p q (enqueue q m) m at (λ ms k. enqueue-Holds q ms m k);
    only_woken = tt;
  }
]
  where
    fine : Fine p (held p) (listed ps p) (some q)
    fine = Fine-at p refl refl (sym at) (i.fine p)

    restored : (k : ℕ) → held p ≡ false → held k ≡ update (update held p true) p false k
    restored k h = elim (Bool-cases (p == k)) [
      | inl t ↦ ap held (sym (==→eq p k t)) ∙ h ∙ sym (if_true _ _ t)
      | inr n ↦ sym (if_false _ _ n ∙ if_false _ _ n)
    ]

-- Every context has a live queue.
abbrev pub IsLinked : (ℕ → Option Context) → Store → Type 0
IsLinked contexts s =
    (handle : ℕ) (ctx : Context)
    → contexts handle ≡ some ctx
    → (q : MessageQueue) × (s.queues ctx.queue ≡ some q)

pub Grows-IsLinked :
    (contexts : ℕ → Option Context) (s s' : Store)
    → Grows s s'
    → IsLinked contexts s
    → IsLinked contexts s'
Grows-IsLinked contexts s s' g l handle ctx at =
    let (q, here) = l handle ctx at in let (q', there, grow) = g ctx.queue q here in (q', there)

-- The messages for the queue at `k`, of those that are sent, in order; a handle without a context has
-- no queue.
unfoldable pub sent_to : (ℕ → Option Context) → List (ℕ × Message) → ℕ → List Message
sent_to contexts [] k = []
sent_to contexts ((handle, m) ∷ sends) k = elim (contexts handle) [
  | none ↦ sent_to contexts sends k
  | some ctx ↦ only ctx.queue m k ++ sent_to contexts sends k
]

-- The same for the messages of a callback; nothing but the store changes.
pub record Posted (n : Node) (held : ℕ → Bool) (ps : List ℕ) (sends : List (ℕ × Message))
    (o : Option Node) : Type 0 where
  pub after : Store
  pub woken : List ℕ
  pub done : o ≡ some (record n { store = after })
  pub scheduled : IsScheduled after held (ps ++ woken)
  pub adds : Adds (sent_to n.contexts sends) n.store after
  pub only_woken : All (λ k. sent_to n.contexts sends k ≢ []) woken

pub sent_to-cons :
    (contexts : ℕ → Option Context) (send : ℕ × Message) (sends : List (ℕ × Message)) (k : ℕ)
    → sent_to contexts (send ∷ sends) k ≡ sent_to contexts (send ∷ []) k ++ sent_to contexts sends k
unfolding sent_to
sent_to-cons contexts (handle, m) sends k = elim (Option-cases (contexts handle)) [
  | inl e ↦ rw (e, sent_to) refl
  | inr (ctx, e) ↦
      rw (e, sent_to)
        (ap (λ ms. ms ++ sent_to contexts sends k) (sym (append-nil (only ctx.queue m k))))
]

append-empty : (xs ys : List Message) → xs ++ ys ≡ [] → (xs ≡ []) × (ys ≡ [])
append-empty [] ys e = (refl, e)
append-empty (x ∷ xs) ys e = absurd (cc e)

push-Posted :
    (n : Node) (held : ℕ → Bool) (ps : List ℕ) (handle : ℕ) (m : Message)
    → IsScheduled n.store held ps
    → IsLinked n.contexts n.store
    → Posted n held ps ((handle, m) ∷ []) (context_push n handle m)
unfolding context_push sent_to
push-Posted n held ps handle m i l = elim (Option-cases (n.contexts handle)) [
  | inl e ↦ record {
    after = n.store;
    woken = [];
    done = rw (e, context_push) refl;
    scheduled = rw (append-nil ps) i;
    adds =
        Adds-same (λ k. []) (sent_to n.contexts ((handle, m) ∷ [])) n.store n.store
          (λ k. rw (sent_to, e) refl) (Adds-none n.store);
    only_woken = tt;
  }
  | inr (ctx, e) ↦
      let (q, at) = l handle ctx e in
      let sent = push-Sent n.store held ps ctx.queue q m i at in
      let alone : (k : ℕ) → sent_to n.contexts ((handle, m) ∷ []) k ≡ only ctx.queue m k =
        λ k. rw (sent_to, e) (append-nil (only ctx.queue m k)) in
      record {
        after = sent.after;
        woken = sent.woken;
        done = rw (e, sent.done, context_push) refl;
        scheduled = sent.scheduled;
        adds =
            Adds-same (only ctx.queue m) (sent_to n.contexts ((handle, m) ∷ [])) n.store sent.after
              alone sent.adds;
        only_woken =
            All-map (λ k. ctx.queue ≡ k) (λ k. sent_to n.contexts ((handle, m) ∷ []) k ≢ [])
              (λ k here empty.
                some_sent m (sym (if_true (m ∷ []) [] (eq→== _ _ here)) ∙ sym (alone k) ∙ empty))
              sent.woken sent.only_woken;
      }
]
  where
    some_sent : (m : Message) → m ∷ [] ≢ []
    some_sent m e = cc e

pub post-Posted :
    (sends : List (ℕ × Message)) (n : Node) (held : ℕ → Bool) (ps : List ℕ)
    → IsScheduled n.store held ps
    → IsLinked n.contexts n.store
    → Posted n held ps sends (post n sends)
unfolding post sent_to
post-Posted [] n held ps i l = record {
  after = n.store;
  woken = [];
  done = refl;
  scheduled = rw (append-nil ps) i;
  adds = Adds-none n.store;
  only_woken = tt;
}
post-Posted ((handle, m) ∷ sends) n held ps i l =
    let first = push-Posted n held ps handle m i l in
    let grows = Adds-Grows (sent_to n.contexts ((handle, m) ∷ [])) n.store first.after first.adds in
    let rest =
      post-Posted sends (record n { store = first.after }) held (ps ++ first.woken) first.scheduled
        (Grows-IsLinked n.contexts n.store first.after grows l) in
    let whole = sent_to n.contexts ((handle, m) ∷ sends) in
    let one = sent_to n.contexts ((handle, m) ∷ []) in
    let others = sent_to n.contexts sends in
    record {
      after = rest.after;
      woken = first.woken ++ rest.woken;
      done = rw first.done rest.done;
      scheduled = rw (sym (append_assoc ps first.woken rest.woken)) rest.scheduled;
      adds =
          Adds-same (λ k. one k ++ others k) whole n.store rest.after
            (sent_to-cons n.contexts (handle, m) sends)
            (Adds-trans one others n.store first.after rest.after first.adds rest.adds);
      only_woken =
          All-append (λ k. whole k ≢ []) first.woken rest.woken
            (All-map (λ k. one k ≢ []) (λ k. whole k ≢ [])
              (λ k some_sent e.
                some_sent
                  (append-empty (one k) (others k)
                    (sym (sent_to-cons n.contexts (handle, m) sends k) ∙ e)).0)
              first.woken first.only_woken)
            (All-map (λ k. others k ≢ []) (λ k. whole k ≢ [])
              (λ k some_sent e.
                some_sent
                  (append-empty (one k) (others k)
                    (sym (sent_to-cons n.contexts (handle, m) sends k) ∙ e)).1)
              rest.woken rest.only_woken);
    }
