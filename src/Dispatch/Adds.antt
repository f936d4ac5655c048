-- ===== src/Dispatch/Adds.antt =====
-- skynet-src/skynet_mq.c, for the workers of skynet_server.c: which messages the queues get.
use ctkjserver.Base.{
  subst, some, if◌then◌else◌, ℕ, ◌≡◌, sym, ap, ◌∙◌, inl, inr, List, [], ◌∷◌, ◌++◌, append-nil,
  append_assoc, ◌==◌, ==→eq, Bool-cases, if_true, if_false,
}
use mathlib.Core.Option.{some-injective}
use ctkjserver.Mq.{MessageQueue, Message}
use ctkjserver.Mq.Refine.{Holds}
use ctkjserver.Mq.Global.{Store, write}
use ctkjserver.Mq.Global.Frame.{Kept, same, relinked}
use ctkjserver.Dispatch.Schedule.{Holds-next}

-- What a queue holds stays, in order, and something may follow.
abbrev pub Grows : Store → Store → Type 0
Grows s s' =
    (k : ℕ) (q : MessageQueue)
    → s.queues k ≡ some q
    → (q' : MessageQueue) × (s'.queues k ≡ some q')
      × ((ms : List Message) → Holds q ms → (more : List Message) × Holds q' (ms ++ more))

-- The queue at `k` gets just the messages `f k`, behind what it holds.
abbrev pub Adds : (ℕ → List Message) → Store → Store → Type 0
Adds f s s' =
    (k : ℕ) (q : MessageQueue)
    → s.queues k ≡ some q
    → (q' : MessageQueue) × (s'.queues k ≡ some q')
      × ((ms : List Message) → Holds q ms → Holds q' (ms ++ f k))

pub Adds-Grows : (f : ℕ → List Message) (s s' : Store) → Adds f s s' → Grows s s'
Adds-Grows f s s' a k q at = let (q', at', holds) = a k q at in (q', at', λ ms h. (f k, holds ms h))

pub Grows-refl : (s : Store) → Grows s s
Grows-refl s k q at = (q, at, λ ms h. ([], rw (append-nil ms) h))

pub Adds-none : (s : Store) → Adds (λ k. []) s s
Adds-none s k q at = (q, at, λ ms h. rw (append-nil ms) h)

pub Adds-trans :
    (f g : ℕ → List Message) (a b c : Store) → Adds f a b → Adds g b c → Adds (λ k. f k ++ g k) a c
Adds-trans f g a b c x y k q at =
    let (q', at', first) = x k q at in
    let (q'', at'', second) = y k q' at' in
    (q'', at'', λ ms h. rw (sym (append_assoc ms (f k) (g k))) (second (ms ++ f k) (first ms h)))

pub Adds-same :
    (f g : ℕ → List Message) (s s' : Store) → ((k : ℕ) → g k ≡ f k) → Adds f s s' → Adds g s s'
Adds-same f g s s' e a k q at =
    let (q', at', holds) = a k q at in
    (q', at', λ ms h. subst (λ more. Holds q' (ms ++ more)) (sym (e k)) (holds ms h))

-- `m` for the queue at `p` only
abbrev pub only : ℕ → Message → ℕ → List Message
only p m k = if p == k then m ∷ [] else []

-- A write of a queue that has one message more.
pub write-Adds :
    (s : Store) (p : ℕ) (q q' : MessageQueue) (m : Message)
    → s.queues p ≡ some q
    → ((ms : List Message) → Holds q ms → Holds q' (ms ++ (m ∷ [])))
    → Adds (only p m) s (write s p q')
write-Adds s p q q' m at f k r at_k = elim (Bool-cases (p == k)) [
  | inl t ↦ (
    q',
    if_true _ _ t,
    λ ms h.
        subst (λ more. Holds q' (ms ++ more)) (sym (if_true (m ∷ []) [] t))
          (f ms (rw (some-injective _ _ (sym at_k ∙ ap s.queues (sym (==→eq p k t)) ∙ at)) at h)),
  )
  | inr n ↦ (
    r,
    if_false _ _ n ∙ at_k,
    λ ms h.
        subst (λ more. Holds r (ms ++ more)) (sym (if_false (m ∷ []) [] n)) (rw (append-nil ms) h),
  )
]

pub Kept-Adds : (s s' : Store) (ps : List ℕ) → ((k : ℕ) → Kept ps s s' k) → Adds (λ k. []) s s'
Kept-Adds s s' ps f k q at = elim (f k) [
  | same e ↦ (q, e ∙ at, λ ms h. rw (append-nil ms) h)
  | relinked r n l before after ↦ (
    record r { next = n },
    after,
    λ ms h. rw (append-nil ms) (Holds-next r ms n (rw (some-injective _ _ (sym before ∙ at)) h)),
  )
]
