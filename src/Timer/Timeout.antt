-- ===== src/Timer/Timeout.antt =====
-- skynet-src/skynet_timer.c: `skynet_timeout` with a positive delay, from the request to the message.
use ctkjserver.Base.{
  ℕ, ◌+◌, ◌%◌, ◌≡◌, sym, ap, subst, ◌∙◌, Bool, [], ltb, if◌then◌else◌, ◌&&◌, arith,
}
use native.Mathlib.Nat.{add-zero}
use ctkjserver.Timer.{Timer, TimerNode, TimerEvent, timer_add, updates}
use ctkjserver.Timer.Place.{add_node-Placed, time-add_node}
use ctkjserver.Timer.Count.{total, count, total-add_node}
use ctkjserver.Timer.Update.{IsRequest, request_node, request-Due, slot_stays}
use ctkjserver.Timer.Exact.{Ready, delay, within, updates-Ran}

module _ (T : Timer) (event : TimerEvent) (d : ℕ) (ready : Ready T)
    (ok : IsRequest (event, d)) where
  abbrev node : TimerNode
  node = request_node T.time (event, d)

  pub timer_add-Ready : Ready (timer_add T event d)
  unfolding timer_add
  timer_add-Ready =
      let due = request-Due T.time (event, d) ready.placed.now ok in
      record {
        placed = add_node-Placed T node ready.placed due;
        empty =
            subst (λ t. (timer_add T event d).near (t % 256) ≡ []) (sym (time-add_node T node))
              (slot_stays T node due (omega (arith, ready.placed.now, ok)) ready.empty);
      }

  time-timer_add : (timer_add T event d).time ≡ T.time
  unfolding timer_add
  time-timer_add = time-add_node T node

  -- A request for `d` ticks has a delay of `d`, through the wrap of the clock too.
  delay_of_request : delay T.time node ≡ d
  delay_of_request = omega (arith, ready.placed.now, ok)

  total-timer_add :
      (p : TimerNode → Bool) → total p (timer_add T event d) ≡ total p T + (if p node then 1 else 0)
  unfolding timer_add
  total-timer_add p =
      total-add_node p T node (request-Due T.time (event, d) ready.placed.now ok)
      ∙ ap (λ (k : ℕ). total p T + k) (add-zero (if p node then 1 else 0))

  -- On a ready wheel (each node in its slot, and the slot of the present tick empty), and for a
  -- delay `d` of at least 1 and below 2 ^ 31: the message of a request for `d` ticks is among
  -- those of the first `n` ticks just when `d` is at most `n`, and then once; the request changes
  -- nothing for the timers that were there.
  pub timeout_exact :
      (n : ℕ) (p : TimerNode → Bool)
      → count p (updates n (timer_add T event d)).0
        ≡ total (within T.time n p) T + (if p node && ltb d (n + 1) then 1 else 0)
  timeout_exact n p =
      (updates-Ran n (timer_add T event d) timer_add-Ready).exact p
      ∙ ap (λ t. total (within t n p) (timer_add T event d)) time-timer_add
      ∙ total-timer_add (within T.time n p)
      ∙ ap (λ k. total (within T.time n p) T + (if p node && ltb k (n + 1) then 1 else 0))
          delay_of_request
