-- ===== src/Dispatch/Contents.antt =====
-- skynet-src/skynet_server.c: what the queues hold while one of them is served.
use ctkjserver.Base.{
  ℕ, ◌≡◌, refl, sym, ap, subst, ◌∙◌, ◌≢◌, ==→ne, inl, inr, Option, some, List, [], ◌∷◌, ◌++◌,
  append-nil, append_assoc, ◌==◌, ==→eq, if◌then◌else◌, if_true, if_false, Bool-cases,
}
use mathlib.Core.Option.{some-injective}
use ctkjserver.Mq.{MessageQueue, Message}
use ctkjserver.Mq.Refine.{Holds}
use ctkjserver.Mq.Global.{Store}
use ctkjserver.Dispatch.{Call, Context, Services}
use ctkjserver.Dispatch.Adds.{Adds}
use ctkjserver.Dispatch.Post.{sent_to, sent_to-cons}

-- What the services send for these calls, one after the other, when `made` were made before.
unfoldable pub replies : Services → List Call → List Call → List (ℕ × Message)
replies serve made [] = []
replies serve made (call ∷ calls) = serve made call ++ replies serve (made ++ (call ∷ [])) calls

pub replies-append :
    (serve : Services) (made calls later : List Call)
    → replies serve made (calls ++ later)
      ≡ replies serve made calls ++ replies serve (made ++ calls) later
unfolding replies
replies-append serve made [] later = ap (λ c. replies serve c later) (sym (append-nil made))
replies-append serve made (call ∷ calls) later =
    ap (◌++◌ (serve made call)) (
      replies-append serve (made ++ (call ∷ [])) calls later
      ∙ ap (λ c. replies serve (made ++ (call ∷ [])) calls ++ replies serve c later)
          (append_assoc made (call ∷ []) calls))
    ∙ sym (
        append_assoc (serve made call) (replies serve (made ++ (call ∷ [])) calls)
          (replies serve (made ++ (call ∷ calls)) later))

pub sent_to-append :
    (contexts : ℕ → Option Context) (sends later : List (ℕ × Message)) (k : ℕ)
    → sent_to contexts (sends ++ later) k ≡ sent_to contexts sends k ++ sent_to contexts later k
unfolding sent_to
sent_to-append contexts [] later k = refl
sent_to-append contexts (send ∷ sends) later k =
    sent_to-cons contexts send (sends ++ later) k
    ∙ ap (◌++◌ (sent_to contexts (send ∷ []) k)) (sent_to-append contexts sends later k)
    ∙ sym (
        append_assoc (sent_to contexts (send ∷ []) k) (sent_to contexts sends k)
          (sent_to contexts later k))
    ∙ ap (λ ms. ms ++ sent_to contexts later k) (sym (sent_to-cons contexts send sends k))

-- `ms` for the queue at `p`, nothing for the others
abbrev pub part : ℕ → List Message → ℕ → List Message
part p ms k = if p == k then ms else []

-- The queue at `p` loses its first messages, `ms`, and the one at each `k` gets `f k` behind what it
-- still holds.
abbrev pub Serves : ℕ → List Message → (ℕ → List Message) → Store → Store → Type 0
Serves p ms f s s' =
    (k : ℕ) (q : MessageQueue)
    → s.queues k ≡ some q
    → (q' : MessageQueue) × (s'.queues k ≡ some q')
      × ((rest : List Message) → Holds q (part p ms k ++ rest) → Holds q' (rest ++ f k))

part-append :
    (p k : ℕ) (ms more rest : List Message)
    → part p (ms ++ more) k ++ rest ≡ part p ms k ++ (part p more k ++ rest)
part-append p k ms more rest = elim (Bool-cases (p == k)) [
  | inl e ↦ rw e (append_assoc ms more rest)
  | inr e ↦ rw e refl
]

pub Adds-Serves : (p : ℕ) (f : ℕ → List Message) (s s' : Store) → Adds f s s' → Serves p [] f s s'
Adds-Serves p f s s' a k q at =
    let (q', at', holds) = a k q at in
    (q', at', λ rest h. holds rest (subst (λ ms. Holds q (ms ++ rest)) nothing h))
  where
    nothing : part p [] k ≡ []
    nothing = elim (Bool-cases (p == k)) [ inl e ↦ if_true _ _ e | inr e ↦ if_false _ _ e ]

pub Serves-trans :
    (p : ℕ) (ms more : List Message) (f g : ℕ → List Message) (a b c : Store)
    → Serves p ms f a b
    → Serves p more g b c
    → Serves p (ms ++ more) (λ k. f k ++ g k) a c
Serves-trans p ms more f g a b c x y k q at =
    let (q', at', first) = x k q at in
    let (q'', at'', second) = y k q' at' in
    (
      q'',
      at'',
      λ rest h. subst (Holds q'') (append_assoc rest (f k) (g k)) (
          second (rest ++ f k) (
            subst (Holds q') (append_assoc (part p more k) rest (f k))
              (first (part p more k ++ rest) (subst (Holds q) (part-append p k ms more rest) h)))),
    )

pub Serves-same :
    (p : ℕ) (ms ms' : List Message) (f g : ℕ → List Message) (s s' : Store)
    → ms ≡ ms'
    → ((k : ℕ) → f k ≡ g k)
    → Serves p ms f s s'
    → Serves p ms' g s s'
Serves-same p ms ms' f g s s' e d x k q at =
    let (q', at', holds) = x k q at in
    (
      q',
      at',
      λ rest h.
          subst (λ more. Holds q' (rest ++ more)) (d k)
            (holds rest (subst (λ ms. Holds q (part p ms k ++ rest)) (sym e) h)),
    )

-- The queue at `p` is replaced by one without its first message, and no other is changed.
pub first-Serves :
    (s s' : Store) (p : ℕ) (q q' : MessageQueue) (m : Message)
    → s.queues p ≡ some q
    → s'.queues p ≡ some q'
    → ((k : ℕ) → p ≢ k → s'.queues k ≡ s.queues k)
    → ((rest : List Message) → Holds q (m ∷ rest) → Holds q' rest)
    → Serves p (m ∷ []) (λ k. []) s s'
first-Serves s s' p q q' m at after others f k r at_k = elim (Bool-cases (p == k)) [
  | inl t ↦ (
    q',
    ap s'.queues (sym (==→eq p k t)) ∙ after,
    λ rest h. subst (Holds q') (sym (append-nil rest)) (
        f rest (
          subst (λ q. Holds q (m ∷ rest))
            (some-injective _ _ (sym at_k ∙ ap s.queues (sym (==→eq p k t)) ∙ at))
            (subst (λ ms. Holds r (ms ++ rest)) (if_true (m ∷ []) [] t) h))),
  )
  | inr n ↦ (
    r,
    others k (==→ne p k n) ∙ at_k,
    λ rest h.
        subst (Holds r) (sym (append-nil rest))
          (subst (λ ms. Holds r (ms ++ rest)) (if_false (m ∷ []) [] n) h),
  )
]
