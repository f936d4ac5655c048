-- ===== src/Mq/Global/Frame.antt =====
-- skynet-src/skynet_mq.c, for the workers of skynet_server.c: which queues the operations on the
-- global queue leave alone.
use ctkjserver.Base.{
  ℕ, ◌≡◌, refl, sym, ap, ◌∙◌, ◌≢◌, ◌⊎◌, inl, inr, Bool, true, false, Option, some, List, [], ◌∷◌,
  ◌++◌, ◌==◌, ==→eq, ==→ne, eq→==, ne→==, Bool-cases, Option-cases, if_true, if_false,
  if◌then◌else◌,
}
use mathlib.Core.Option.{some-injective}
use ctkjserver.Base.Arrays.{update}
use ctkjserver.Mq.{MessageQueue}
use ctkjserver.Mq.Global.{Store, globalmq_push, globalmq_pop, link_at}
use ctkjserver.Mq.Global.Linked.{IsGlobal, Absent, Chain, last_from}

-- Whether an address is in a list.
abbrev pub listed : List ℕ → ℕ → Bool
listed [] k = false
listed (p ∷ ps) k = if p == k then true else listed ps k

pub listed-Absent : (ps : List ℕ) (k : ℕ) → listed ps k ≡ false → Absent k ps
listed-Absent [] k e = tt
listed-Absent (p ∷ ps) k e = elim (Bool-cases (p == k)) [
  | inl t ↦ absurd (cc (sym (if_true true (listed ps k) t) ∙ e))
  | inr f ↦ (==→ne p k f, listed-Absent ps k (sym (if_false true (listed ps k) f) ∙ e))
]

pub Absent-listed : (ps : List ℕ) (k : ℕ) → Absent k ps → listed ps k ≡ false
Absent-listed [] k a = refl
Absent-listed (p ∷ ps) k a = rw (ne→== p k a.0) (Absent-listed ps k a.1)

pub listed-append :
    (ps : List ℕ) (p k : ℕ) → listed (ps ++ (p ∷ [])) k ≡ (if p == k then true else listed ps k)
listed-append [] p k = refl
listed-append (x ∷ ps) p k = elim (Bool-cases (x == k)) [
  | inl t ↦ rw t (elim (Bool-cases (p == k)) [ inl a ↦ rw a refl | inr a ↦ rw a refl ])
  | inr f ↦ rw f (listed-append ps p k)
]

listed-last : (p : ℕ) (ps : List ℕ) → listed (p ∷ ps) (last_from p ps) ≡ true
listed-last p [] = rw (eq→== p p refl) refl
listed-last p (x ∷ ps) = elim (Bool-cases (p == last_from x ps)) [
  | inl t ↦ rw t refl
  | inr f ↦ rw f (listed-last x ps)
]

last_real :
    (m : ℕ → Option MessageQueue) (h t x : ℕ) (xs : List ℕ)
    → Chain m h (x ∷ xs)
    → t ≡ last_from x xs
    → t ≢ 0
last_real m h t x [] c e z = c.1 (sym e ∙ z)
last_real m h t x (y ∷ xs) (a, ne, (q, at, c)) e z = last_real m q.next t y xs c e z

-- What an operation on the global queue does to a queue: nothing, or it is in the list, and its
-- `next` changes.
pub data Kept (ps : List ℕ) (s s' : Store) (k : ℕ) : Type 0 where
  same : s'.queues k ≡ s.queues k → Kept ps s s' k
  relinked :
      (q : MessageQueue) (next : ℕ)
      → listed ps k ≡ true
      → s.queues k ≡ some q
      → s'.queues k ≡ some (record q { next = next })
      → Kept ps s s' k

module _ (s s' : Store) (p k : ℕ) where
  link_at-Kept : (ps : List ℕ) → IsGlobal s ps → link_at s p ≡ some s' → Kept ps s s' k
  unfolding link_at
  link_at-Kept [] g e =
      same (ap (λ r. r.queues k) (sym (some-injective _ _ (rw (eq→== s.tail 0 g.ends) at e))))
  link_at-Kept (x ∷ xs) g e = elim (Option-cases (s.queues s.tail)) [
    | inl gone ↦ absurd (cc (rw (tail_real, gone) at e))
    | inr (last, at) ↦
        let done = some-injective _ _ (rw (tail_real, at) at e) in
        elim (Bool-cases (s.tail == k)) [
          | inl t ↦
              relinked last p (rw (sym (==→eq _ _ t), g.ends) (listed-last x xs))
                (ap s.queues (sym (==→eq _ _ t)) ∙ at)
                (ap (λ r. r.queues k) (sym done) ∙ if_true _ _ t)
          | inr f ↦ same (ap (λ r. r.queues k) (sym done) ∙ if_false _ _ f)
        ]
  ]
    where
      tail_real : (s.tail == 0) ≡ false
      tail_real = ne→== s.tail 0 (λ z. last_real s.queues s.head s.tail x xs g.chain g.ends z)

  -- `skynet_globalmq_push` changes the `next` of a queue of the list at most.
  pub globalmq_push-Kept :
      (ps : List ℕ) → IsGlobal s ps → globalmq_push s p ≡ some s' → Kept ps s s' k
  unfolding globalmq_push
  globalmq_push-Kept ps g e = elim (Option-cases (s.queues p)) [
    | inl gone ↦ absurd (cc (rw gone at e))
    | inr (q, at) ↦ elim (Bool-cases (q.next == 0)) [
      | inl t ↦ link_at-Kept ps g (rw (at, t) at e)
      | inr f ↦ absurd (cc (rw (at, f) at e))
    ]
  ]

module _ (s s' : Store) (k : ℕ) where
  taken :
      (x : ℕ) (q : MessageQueue)
      → s.head ≡ x
      → s.queues x ≡ some q
      → update s.queues x (some (record q { next = 0 })) ≡ s'.queues
      → ((x ≢ k) × (s'.queues k ≡ s.queues k))
        ⊎ ((x ≡ k)
            × ((q : MessageQueue) × (s.queues k ≡ some q)
                × (s'.queues k ≡ some (record q { next = 0 }))))
  taken x q h at e = elim (Bool-cases (x == k)) [
    | inl t ↦ inr (
      ==→eq x k t,
      (q, ap s.queues (sym (==→eq x k t)) ∙ at, ap (λ f. f k) (sym e) ∙ if_true _ _ t),
    )
    | inr f ↦ inl (==→ne x k f, ap (λ f. f k) (sym e) ∙ if_false _ _ f)
  ]

  -- `skynet_globalmq_pop` changes the first queue of the list only.
  pub globalmq_pop-Kept :
      (x : ℕ) (ps : List ℕ)
      → IsGlobal s (x ∷ ps)
      → globalmq_pop s ≡ some (x, s')
      → ((x ≢ k) × (s'.queues k ≡ s.queues k))
        ⊎ ((x ≡ k)
            × ((q : MessageQueue) × (s.queues k ≡ some q)
                × (s'.queues k ≡ some (record q { next = 0 }))))
  unfolding globalmq_pop
  globalmq_pop-Kept x [] g e =
      let (h, ne, (q, at, end)) = g.chain in
      taken x q h at (
        ap (λ r. r.1.queues)
          (some-injective _ _
            (rw (h, ne→== _ _ ne, at, eq→== _ _ end, eq→== x s.tail (sym g.ends)) at e)))
  globalmq_pop-Kept x (y ∷ ps) g e =
      let (h, ne, (q, at, rest)) = g.chain in
      taken x q h at (
        ap (λ r. r.1.queues)
          (some-injective _ _
            (rw (h, ne→== _ _ ne, at, ne→== q.next 0 (λ z. rest.1 (sym rest.0 ∙ z))) at e)))
