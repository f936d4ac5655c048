-- ===== src/Mq/Overload.antt =====
-- The overload report of skynet-src/skynet_mq.c: when `skynet_mq_pop` records a length, and when
-- the threshold falls back.
use ctkjserver.Base.{
  ℕ, zero, suc, ◌+◌, ◌*◌, ◌≤◌, ◌<◌, ◌≡◌, refl, ap, ◌≢◌, inl, inr, ltb, ltb→lt, ltb→le, Bool-cases,
  arith,
}
use native.Mathlib.Decide.{dec_lt}
use ctkjserver.Base.Window.{step}
use ctkjserver.Mq
use ctkjserver.Mq.{raise, MessageQueue, pop, take_overload, used_after, mq_overload}
use ctkjserver.Mq.Ring.{IsValid, pop_some, popped}

-- With fuel for the difference the loop ends by its test. If the length was within the threshold
-- nothing changes; otherwise the length is recorded, and the new threshold is the first double at
-- or above it.
pub raise_ends :
    (f len o t : ℕ)
    → 0 < t
    → len ≤ f + t
    → (len ≤ (raise f len o t).1)
      × (len ≤ t → raise f len o t ≡ (o, t))
      × (t < len → ((raise f len o t).0 ≡ len) × ((raise f len o t).1 < len * 2))
unfolding raise
raise_ends zero len o t p h = ground arith
raise_ends (suc f) len o t p h = elim (Bool-cases (ltb t len)) [
  | inl e ↦ rw e (
      let (a, b, c) = raise_ends f len len (t * 2) (omega arith) (omega (arith, ltb→lt t len e)) in
      (
        a,
        λ k. absurd (omega (arith, ltb→lt t len e)),
        λ _. elim (dec_lt (t * 2) len) [
          | yes l ↦ c l
          | no l ↦ rw (b (omega arith)) (refl, omega (arith, ltb→lt t len e))
        ],
      ))
  | inr e ↦ rw e (ltb→le t len e, (λ _. refl), λ k. absurd (omega (arith, ltb→le t len e)))
]

-- `used_after` is the length of the queue that is left.
used_after-length :
    (q : MessageQueue)
    → used_after (popped q).cap (popped q).head (popped q).tail ≡ Mq.length (popped q)
unfolding used_after Mq.length
used_after-length q = refl

-- `skynet_mq_pop` on a valid queue that is not empty leaves a threshold that its length does not
-- pass. It records the length just when that was over the threshold, and then the new threshold is
-- less than twice the length.
pub pop-overload :
    (q : MessageQueue)
    → IsValid q
    → q.head ≢ q.tail
    → let q' = (pop q).2 in
      (Mq.length q' ≤ q'.overload_threshold)
      × (Mq.length q' ≤ q.overload_threshold
          → (q'.overload ≡ q.overload) × (q'.overload_threshold ≡ q.overload_threshold))
      × (q.overload_threshold < Mq.length q'
          → (q'.overload ≡ Mq.length q') × (q'.overload_threshold < Mq.length q' * 2))
pop-overload q v ne =
    let len = used_after q.cap (step q.cap q.head) q.tail in
    let (a, b, c) = raise_ends len len q.overload q.overload_threshold v.threshold (omega arith) in
    rw (pop_some q ne, ← used_after-length q)
      (a, (λ k. (ap (λ r. r.0) (b k), ap (λ r. r.1) (b k))), c)
