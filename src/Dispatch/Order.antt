-- ===== src/Dispatch/Order.antt =====
-- skynet-src/skynet_server.c: skynet_context_message_dispatch serves the first messages of a queue,
-- in order, and the workers lose no queue.
use ctkjserver.Base.{
  ℕ, suc, ◌-◌, ◌^◌, ◌≤◌, ◌≡◌, refl, sym, ap, ◌∙◌, subst, Bool, true, false, some, List, [], ◌∷◌,
  ◌++◌, append-nil, append_assoc, length, take, drop, length-take, take-append-drop, ◌==◌, ne→==,
  if_true, arith, eq→==,
}
use ctkjserver.Base.Int.{ℤ, pos, negsuc}
use ctkjserver.Mq.{MessageQueue, Message}
use ctkjserver.Mq.Refine.{Holds}
use ctkjserver.Mq.Global.{Store}
use ctkjserver.Dispatch.{
  Node, Context, Services, served, round, more_rounds, rounds_of, hand_on, finish, serve_queue,
  dispatch_queue, message_dispatch,
}
use ctkjserver.Dispatch.Schedule.{IsScheduled, held_queue}
use ctkjserver.Dispatch.Adds.{Adds}
use ctkjserver.Dispatch.Post.{IsLinked}
use ctkjserver.Dispatch.Contents.{Serves, Serves-same, Serves-trans, Adds-Serves}
use ctkjserver.Dispatch.Batch.{round-Served, calls_of}
use ctkjserver.Dispatch.Turns.{
  calls_of-append, Turn, answers, serve_more, more_rounds-Rounded, hand_on-Turn,
}

-- How many messages the queue is given: those that were left after the first was taken, shifted by
-- the weight, and one at least.
abbrev pub batch : ℤ → ℕ → ℕ
batch weight len = suc (rounds_of weight len - 1)

rounds_of-le : (weight : ℤ) (len : ℕ) → rounds_of weight len - 1 ≤ len
unfolding rounds_of
rounds_of-le (pos w) len = omega (arith, native.Mathlib.Nat.div-le_self len (2 ^ w))
rounds_of-le (negsuc w) len = omega arith

-- What comes of serving the queue of `ctx`.
pub record Dispatched (serve : Services) (n : Node) (held : ℕ → Bool) (ps : List ℕ) (p : ℕ)
    (weight : ℤ) (handle : ℕ) (ctx : Context) (first : List Message) : Type 0 where
  pub next : ℕ
  pub after : Node
  pub woken : List ℕ
  pub done : message_dispatch serve n p weight ≡ some (next, after)
  pub called : after.calls ≡ n.calls ++ calls_of handle ctx first
  pub linked : IsLinked after.contexts after.store
  pub serves : Serves p first (answers serve n (calls_of handle ctx first)) n.store after.store
  pub turn : Turn held p (ps ++ woken) next after.store

after_turn :
    (p : ℕ) (ms : List Message) (f : ℕ → List Message) (a b c : Store)
    → Serves p ms f a b
    → Adds (λ k. []) b c
    → Serves p ms f a c
after_turn p ms f a b c x kept =
    Serves-same p (ms ++ []) ms (λ k. f k ++ []) f a c (append-nil ms) (λ k. append-nil (f k))
      (Serves-trans p ms [] f (λ k. []) a b c x (Adds-Serves p (λ k. []) b c kept))

pub message_dispatch-queue :
    (serve : Services) (n : Node) (p : ℕ) (weight : ℤ) (q : MessageQueue) (ctx : Context)
    → (p == 0) ≡ false
    → n.store.queues p ≡ some q
    → n.contexts q.handle ≡ some ctx
    → message_dispatch serve n p weight ≡ serve_queue serve n p q.handle ctx weight
unfolding message_dispatch dispatch_queue
message_dispatch-queue serve n p weight q ctx real at live = rw (real, real, at, live) refl

serve_queue-done :
    (serve : Services) (n n' n'' : Node) (p handle : ℕ) (ctx : Context) (weight : ℤ) (len len' : ℕ)
    → p ≡ ctx.queue
    → round serve n p handle ctx ≡ some (served len n')
    → more_rounds serve (rounds_of weight len - 1) n' p handle ctx ≡ some (served len' n'')
    → serve_queue serve n p handle ctx weight ≡ hand_on serve n'' p
unfolding serve_queue finish
serve_queue-done serve n n' n'' p handle ctx weight len len' own first rest =
    rw (first, rest) (if_true _ _ (eq→== _ _ own))

module _ (serve : Services) (n : Node) (held : ℕ → Bool) (ps : List ℕ) (p : ℕ) (q : MessageQueue)
    (ctx : Context) (weight : ℤ) (i : IsScheduled n.store held ps) (l : IsLinked n.contexts n.store)
    (mine : held p ≡ true) (at : n.store.queues p ≡ some q) (live : n.contexts q.handle ≡ some ctx)
    (own : ctx.queue ≡ p) (inited : ctx.init ≡ true) where
  -- When the queues are in order (`IsScheduled`) and every context has a live queue, a worker that
  -- has the queue of a context, which is set up (`init`) and has this as its `queue`, with the
  -- message `m` and then `ms`, calls the callback with the first `batch` of them, once each and in
  -- order (without a callback they are freed). They leave the queue, and each queue gets, behind what
  -- it still holds, just what the callbacks sent to its service, in order. Then the first queue of
  -- the global queue has the turn, and the one that was served goes to the end, behind those that
  -- were woken; when none waits, it has the turn again. No `assert` fails, whatever the callbacks
  -- send, and the queues are in order again.
  pub message_dispatch_lem :
      (m : Message) (ms : List Message)
      → Holds q (m ∷ ms)
      → Dispatched serve n held ps p weight q.handle ctx (take (batch weight (length ms)) (m ∷ ms))
  message_dispatch_lem m ms h =
      let one =
        round-Served serve q.handle ctx held inited p mine n ps m ms i l
          (record { queue = q; at = at; holds = h }) in
      let k = rounds_of weight (length ms) - 1 in
      let all =
        more_rounds-Rounded serve q.handle ctx held p mine inited (take k ms) one.after
          (ps ++ one.woken) (drop k ms ++ one.more)
          (record {
            scheduled = one.scheduled;
            linked = one.linked;
            has =
                rw (sym (append_assoc (take k ms) (drop k ms) one.more), take-append-drop k ms)
                  one.has;
          }) in
      let (next, (s, handed, turn, kept)) =
        hand_on-Turn serve q.handle ctx held p mine inited all.after
          ((ps ++ one.woken) ++ all.woken) all.ready.scheduled in
      record {
        next = next;
        after = record all.after { store = s };
        woken = one.woken ++ all.woken;
        done =
            message_dispatch-queue serve n p weight q ctx real at live
            ∙ serve_queue-done serve n one.after all.after p q.handle ctx weight (length ms) all.len
                (sym own) one.done
                (subst
                  (λ f.
                    more_rounds serve f one.after p q.handle ctx ≡ some (served all.len all.after))
                  full all.done)
            ∙ handed;
        called =
            all.called
            ∙ ap (λ c. c ++ calls_of q.handle ctx (take k ms)) one.called
            ∙ append_assoc n.calls (calls_of q.handle ctx (m ∷ []))
                (calls_of q.handle ctx (take k ms))
            ∙ ap (◌++◌ n.calls) (sym (calls_of-append q.handle ctx (m ∷ []) (take k ms)));
        linked = λ handle c e.
            let (r, here) = all.ready.linked handle c e in
            let (r', there, holds) = kept c.queue r here in (r', there);
        serves =
            serve_more serve q.handle ctx held p mine inited n one.after m (take k ms) s one.called
              one.contexts one.serves
              (after_turn p (take k ms)
                (answers serve one.after (calls_of q.handle ctx (take k ms))) one.after.store
                all.after.store s all.serves kept);
        turn = rw (sym (append_assoc ps one.woken all.woken)) turn;
      }
    where
      real : (p == 0) ≡ false
      real = ne→== p 0 (held_queue n.store held p ps i mine).1.2.0

      full : length (take (rounds_of weight (length ms) - 1) ms) ≡ rounds_of weight (length ms) - 1
      full = omega (
        arith,
        length-take (rounds_of weight (length ms) - 1) ms,
        rounds_of-le weight (length ms),
      )
