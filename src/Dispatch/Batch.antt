-- ===== src/Dispatch/Batch.antt =====
-- skynet-src/skynet_server.c: the rounds that skynet_context_message_dispatch gives a queue.
use ctkjserver.Base.{
  ℕ, ◌≡◌, refl, sym, ◌∙◌, inl, inr, Bool, true, false, Option, some, List, [], ◌∷◌, ◌++◌,
  append-nil, length, map, ◌==◌, Bool-cases, if_true, if_false, if◌then◌else◌, ap,
}
use mathlib.Core.Option.{some-injective}
use ctkjserver.Base.Arrays.{update_self, update_ne}
use ctkjserver.Mq
use ctkjserver.Mq.{MessageQueue, Message, take_overload, mq_in_global}
use ctkjserver.Mq.Refine.{Holds, pop_first, length-Holds}
use ctkjserver.Mq.Global.{Store, write}
use ctkjserver.Mq.Global.Frame.{listed}
use ctkjserver.Mq.Global.Step.{
  pop_at, next-pop, in_global-popped, next-overload, in_global-overload, overload-Holds,
}
use ctkjserver.Dispatch.{
  Node, Context, Call, Services, Round, served, call_of, triggered, dispatch_message,
  handle_message, round,
}
use ctkjserver.Dispatch.Schedule.{Fine, Fine-place, IsScheduled, held_queue, write_at}
use ctkjserver.Dispatch.Contents.{replies, Serves, Serves-trans, Adds-Serves, first-Serves}
use ctkjserver.Dispatch.Adds.{Adds, Adds-same, Adds-none, Adds-Grows, Grows, Grows-refl}
use ctkjserver.Dispatch.Post.{sent_to, post-Posted, IsLinked, Grows-IsLinked}

-- The calls that the messages lead to: none when the context has no callback.
abbrev pub calls_of : ℕ → Context → List Message → List Call
calls_of handle ctx ms = if ctx.cb then map (call_of handle) ms else []

-- What comes of a message that is given to its service.
record Handled (serve : Services) (n : Node) (held : ℕ → Bool) (ps : List ℕ) (calls : List Call)
    (o : Option Node) : Type 0 where
  after : Node
  woken : List ℕ
  done : o ≡ some after
  called : after.calls ≡ n.calls ++ calls
  contexts : after.contexts ≡ n.contexts
  scheduled : IsScheduled after.store held (ps ++ woken)
  grows : Grows n.store after.store
  adds : Adds (sent_to n.contexts (replies serve n.calls calls)) n.store after.store

-- A queue that a worker has, and its messages.
pub record Has (s : Store) (p : ℕ) (ms : List Message) : Type 0 where
  pub queue : MessageQueue
  pub at : s.queues p ≡ some queue
  pub holds : Holds queue ms

pub write-IsLinked :
    (contexts : ℕ → Option Context) (s : Store) (p : ℕ) (q : MessageQueue)
    → IsLinked contexts s
    → IsLinked contexts (write s p q)
write-IsLinked contexts s p q l handle ctx at = elim (Bool-cases (p == ctx.queue)) [
  | inl t ↦ (q, if_true _ _ t)
  | inr f ↦ ((l handle ctx at).0, if_false _ _ f ∙ (l handle ctx at).1)
]

-- The queue after a message is taken, after the overload is read, and the store then.
abbrev popped_rest : MessageQueue → MessageQueue
popped_rest q = (Mq.pop q).2

abbrev overloaded : MessageQueue → MessageQueue
overloaded q = (take_overload (popped_rest q)).1

abbrev taken : Store → ℕ → MessageQueue → Store
taken s p q = write (write s p (popped_rest q)) p (overloaded q)

module _ (serve : Services) (handle : ℕ) (ctx : Context) (held : ℕ → Bool)
    (inited : ctx.init ≡ true) where
  handle-Handled :
      (n : Node) (ps : List ℕ) (m : Message)
      → IsScheduled n.store held ps
      → IsLinked n.contexts n.store
      → Handled serve n held ps (calls_of handle ctx (m ∷ [])) (handle_message serve n handle ctx m)
  unfolding handle_message dispatch_message replies sent_to
  handle-Handled n ps m i l = elim (Bool-cases ctx.cb) [
    | inl e ↦
        let call = call_of handle m in
        let n' : Node = record (triggered n m.source handle) { calls = n.calls ++ (call ∷ []) } in
        let sent = post-Posted (serve n.calls call) n' held ps i l in
        record {
          after = triggered (record n' { store = sent.after }) 0 0;
          woken = sent.woken;
          done = rw (e, inited, sent.done) refl;
          called = rw e refl;
          contexts = refl;
          scheduled = sent.scheduled;
          grows = Adds-Grows (sent_to n.contexts (serve n.calls call)) n.store sent.after sent.adds;
          adds =
              Adds-same (sent_to n.contexts (serve n.calls call))
                (sent_to n.contexts (replies serve n.calls (calls_of handle ctx (m ∷ [])))) n.store
                sent.after
                (λ k.
                  ap (λ sends. sent_to n.contexts sends k)
                    (ap (replies serve n.calls) (if_true _ _ e) ∙ append-nil (serve n.calls call)))
                sent.adds;
        }
    | inr e ↦ record {
      after = triggered (triggered n m.source handle) 0 0;
      woken = [];
      done = rw e refl;
      called = rw e (sym (append-nil n.calls));
      contexts = refl;
      scheduled = rw (append-nil ps) i;
      grows = Grows-refl n.store;
      adds =
          Adds-same (λ k. [])
            (sent_to n.contexts (replies serve n.calls (calls_of handle ctx (m ∷ [])))) n.store
            n.store
            (λ k. ap (λ calls. sent_to n.contexts (replies serve n.calls calls) k) (if_false _ _ e))
            (Adds-none n.store);
    }
  ]

  module _ (p : ℕ) (mine : held p ≡ true) where
    -- What a round leaves of a queue with a message.
    pub record Served (n : Node) (ps : List ℕ) (calls : List Call) (m : Message) (ms : List Message)
        (len : ℕ) (o : Option Round) : Type 0 where
      pub after : Node
      pub woken : List ℕ
      pub more : List Message
      pub done : o ≡ some (served len after)
      pub called : after.calls ≡ n.calls ++ calls
      pub contexts : after.contexts ≡ n.contexts
      pub scheduled : IsScheduled after.store held (ps ++ woken)
      pub linked : IsLinked after.contexts after.store
      pub has : Has after.store p (ms ++ more)
      pub serves :
          Serves p (m ∷ []) (sent_to n.contexts (replies serve n.calls calls)) n.store after.store

    pub waits : (s : Store) (ps : List ℕ) → IsScheduled s held ps → listed ps p ≡ false
    waits s ps i = (held_queue s held p ps i mine).0

    pub Has-Fine :
        (s : Store) (ps : List ℕ) (ms : List Message)
        → IsScheduled s held ps
        → (h : Has s p ms) → Fine p true false (some h.queue)
    Has-Fine s ps ms i h =
        let (w, (q, at, f)) = held_queue s held p ps i mine in
        rw (some-injective _ _ (sym h.at ∙ at)) f

    pub round-Served :
        (n : Node) (ps : List ℕ) (m : Message) (ms : List Message)
        → IsScheduled n.store held ps
        → IsLinked n.contexts n.store
        → Has n.store p (m ∷ ms)
        → Served n ps (calls_of handle ctx (m ∷ [])) m ms (length ms) (round serve n p handle ctx)
    unfolding round
    round-Served n ps m ms i l h = record {
      after = rest.after;
      woken = rest.woken;
      more = (left.2 ms (overload-Holds (popped_rest h.queue) ms (popped.2))).0;
      done =
          rw
            (
              pop_at n.store p h.queue h.at,
              popped.0,
              popped.1,
              update_self n.store.queues p (some (popped_rest h.queue)),
              length-Holds (popped_rest h.queue) ms popped.2,
              rest.done,
            )
            refl;
      called = rest.called;
      contexts = rest.contexts;
      scheduled = rest.scheduled;
      linked = rw rest.contexts (
          Grows-IsLinked n.contexts (taken n.store p h.queue) rest.after.store rest.grows (
            write-IsLinked n.contexts (write n.store p (popped_rest h.queue)) p (overloaded h.queue)
              (write-IsLinked n.contexts n.store p (popped_rest h.queue) l)));
      has = record {
        queue = left.0;
        at = left.1;
        holds = (left.2 ms (overload-Holds (popped_rest h.queue) ms popped.2)).1;
      };
      serves =
          Serves-trans p (m ∷ []) [] (λ k. [])
            (sent_to n.contexts (replies serve n.calls (calls_of handle ctx (m ∷ [])))) n.store
            (taken n.store p h.queue) rest.after.store
            (first-Serves n.store (taken n.store p h.queue) p h.queue (overloaded h.queue) m h.at
              (update_self (write n.store p (popped_rest h.queue)).queues p _)
              (λ k ne.
                update_ne (write n.store p (popped_rest h.queue)).queues p k _ ne
                ∙ update_ne n.store.queues p k _ ne)
              (λ ms k. overload-Holds (popped_rest h.queue) ms ((pop_first h.queue m ms k).2)))
            (Adds-Serves p
              (sent_to n.contexts (replies serve n.calls (calls_of handle ctx (m ∷ []))))
              (taken n.store p h.queue) rest.after.store rest.adds);
    }
      where
        popped :
            ((Mq.pop h.queue).0 ≡ 0)
            × ((Mq.pop h.queue).1 ≡ some m)
            × Holds (popped_rest h.queue) ms
        popped = pop_first h.queue m ms h.holds

        fine : Fine p true false (some h.queue)
        fine = Has-Fine n.store ps (m ∷ ms) i h

        fine₁ : Fine p true false (some (popped_rest h.queue))
        fine₁ = (
          fine.0,
          (
            ms,
            popped.2,
            (next-pop h.queue ∙ ((fine.1).2).0, in_global-popped h.queue popped.0 ∙ ((fine.1).2).1),
          ),
        )

        fine₂ : Fine p true false (some (overloaded h.queue))
        fine₂ = (
          fine.0,
          (
            ms,
            overload-Holds (popped_rest h.queue) ms popped.2,
            (
              next-overload (popped_rest h.queue) ∙ ((fine₁.1).2).0,
              in_global-overload (popped_rest h.queue) ∙ ((fine₁.1).2).1,
            ),
          ),
        )

        scheduled₁ : IsScheduled (write n.store p (popped_rest h.queue)) held ps
        scheduled₁ =
            write_at n.store held held p h.queue (popped_rest h.queue) ps i h.at (next-pop h.queue)
              (λ k ne. refl) (Fine-place p (popped_rest h.queue) mine (waits n.store ps i) fine₁)

        scheduled₂ : IsScheduled (taken n.store p h.queue) held ps
        scheduled₂ =
            write_at (write n.store p (popped_rest h.queue)) held held p (popped_rest h.queue)
              (overloaded h.queue) ps scheduled₁ (update_self n.store.queues p _)
              (next-overload (popped_rest h.queue)) (λ k ne. refl)
              (Fine-place p (overloaded h.queue) mine (waits n.store ps i) fine₂)

        rest :
            Handled serve
              (record n { store = (taken n.store p h.queue) })
              held
              ps
              (calls_of handle ctx (m ∷ []))
              (handle_message serve (record n { store = (taken n.store p h.queue) }) handle ctx m)
        rest =
            handle-Handled (record n { store = (taken n.store p h.queue) }) ps m scheduled₂
              (write-IsLinked n.contexts (write n.store p (popped_rest h.queue)) p
                (overloaded h.queue) (write-IsLinked n.contexts n.store p (popped_rest h.queue) l))

        left :
            (q' : MessageQueue) × (rest.after.store.queues p ≡ some q')
            × ((ms : List Message)
                → Holds (overloaded h.queue) ms
                → (more : List Message) × Holds q' (ms ++ more))
        left =
            rest.grows p (overloaded h.queue)
              (update_self (write n.store p (popped_rest h.queue)).queues p _)
