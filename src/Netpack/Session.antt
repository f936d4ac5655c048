-- ===== src/Netpack/Session.antt =====
-- lualib-src/lua-netpack.c with its client, lualib/snax/gateserver.lua: a package that `filter` hands
-- over is dispatched, and at "more" the queue is popped until it is empty.
use ctkjserver.Base.{
  ℕ, zero, suc, ◌≤◌, ◌≡◌, refl, sym, ap, ◌∙◌, ◌≢◌, Option, none, some, List, [], ◌∷◌, ◌++◌, map,
  length, eq→==, ne→==, get_or, arith,
}
use ctkjserver.Base.Window.{
  window, used, used_empty, used_pop, used_same, window_pop, length-window, step,
}
use ctkjserver.Netpack.{Pack, Queue, get_queue, lpop}
use ctkjserver.Netpack.Filter.{Event, more, ◌>>=◌, filter_data}
use ctkjserver.Netpack.State.{Holds, contents}
use ctkjserver.Netpack.Reassemble.{given}

-- One round of `for fd, msg, sz in netpack.pop, queue do dispatch_msg(fd, msg, sz) end`, with what
-- the later rounds give.
abbrev pop_round :
    Option (Option Pack)
    → Option Queue
    → List (Option Pack) × Option Queue
    → List (Option Pack) × Option Queue
pop_round none q rest = ([], q)
pop_round (some p) q rest = (p ∷ rest.0, rest.1)

-- That loop, with fuel.
unfoldable pub drain : ℕ → Option Queue → List (Option Pack) × Option Queue
drain zero q = ([], q)
drain (suc f) q =
    let popped = lpop q in let rest = drain f popped.1 in pop_round popped.0 popped.1 rest

-- What is given to `dispatch_msg` for an event, which then drops the packages of a connection that it
-- does not know; the queue never holds more than its capacity.
unfoldable pub dispatch : Event → Option Queue → List (Option Pack) × Option Queue
unfolding drain
dispatch more q = drain (get_queue q).cap q
dispatch event q = (map some (given event), q)

-- One socket message: the packages given to `dispatch_msg`, and the queue.
unfoldable pub receive : Option Queue → ℕ → List ℕ → Option (List (Option Pack) × Option Queue)
unfolding dispatch
receive q fd bytes = do (q', event) ← filter_data q fd bytes; some (dispatch event q')

-- The socket messages of all connections, in the order of their arrival.
unfoldable pub feed : Option Queue → List (ℕ × List ℕ) → Option (List (Option Pack) × Option Queue)
unfolding receive
feed q [] = some ([], q)
feed q ((fd, bytes) ∷ messages) = do
  (out, q') ← receive q fd bytes
  (later, q'') ← feed q' messages
  some (out ++ later, q'')

-- `lpop` on a queue where nothing waits
lpop_empty : (q : Queue) (r : ℕ → List ℕ) → Holds q [] r → lpop (some q) ≡ (none, some q)
unfolding lpop
lpop_empty q r h = rw (eq→== _ _ meet)
  where
    meet : q.head ≡ q.tail
    meet = used_empty q.cap q.head q.tail h.ring.head_in h.ring.tail_in (
        sym (length-window none q.queue q.cap q.head (used q.cap q.head q.tail))
        ∙ ap length h.waiting)

abbrev popped : Queue → Queue
popped q = record q { head = step q.cap q.head }

lpop_first :
    (q : Queue) (p : Pack) (packs : List Pack) (r : ℕ → List ℕ)
    → Holds q (p ∷ packs) r
    → (lpop (some q) ≡ (some (some p), some (popped q))) × Holds (popped q) packs r
unfolding lpop
lpop_first q p packs r h = (
  rw (ne→== _ _ differ, ap (λ c. c) first),
  record {
    ring = record { storage = h.ring.storage; head_in = ground arith; tail_in = h.ring.tail_in };
    waiting = cc (split, h.waiting);
    pending = h.pending;
  },
)
  where
    differ : q.head ≢ q.tail
    differ e =
        cc (
          sym (ap (window none q.queue q.cap q.head) (used_same q.cap q.head q.tail e)) ∙ h.waiting)

    split : contents q ≡ get_or q.queue q.head none ∷ contents (popped q)
    split =
        ap (window none q.queue q.cap q.head)
          (used_pop q.cap q.head q.tail h.ring.head_in h.ring.tail_in differ)
        ∙ window_pop none q.queue q.cap q.head (used q.cap (step q.cap q.head) q.tail)
            h.ring.head_in

    first : get_or q.queue q.head none ≡ some p
    first = cc (split, h.waiting)

-- Popping until nothing is left gives all that waits, in order.
pub drain_all :
    (packs : List Pack) (f : ℕ) (q : Queue) (r : ℕ → List ℕ)
    → Holds q packs r
    → length packs ≤ f
    → (q' : Queue) × (drain f (some q) ≡ (map some packs, some q')) × Holds q' [] r
unfolding drain
drain_all [] zero q r h l = (q, refl, h)
drain_all [] (suc f) q r h l = (q, rw (lpop_empty q r h), h)
drain_all (p ∷ packs) zero q r h l = absurd (omega arith)
drain_all (p ∷ packs) (suc f) q r h l =
    let (first, rest) = lpop_first q p packs r h in
    let (q', popped_all, done) = drain_all packs f (popped q) r rest (omega arith) in
    (q', rw (first, popped_all), done)
