-- ===== src/Mq/Global/Linked.antt =====
-- The global queue of skynet-src/skynet_mq.c as a linked list: its `next` pointers spell a list of
-- distinct queues, `skynet_globalmq_push` appends to it, and `skynet_globalmq_pop` takes its head.
use ctkjserver.Base.{
  ℕ, ◌≡◌, refl, sym, ◌∙◌, ◌≢◌, Option, some, List, [], ◌∷◌, ◌++◌, eq→==, ne→==, All, All-append,
  arith,
}
use ctkjserver.Base.Arrays.{update, update_self, update_ne}
use ctkjserver.Mq.{MessageQueue}
use ctkjserver.Mq.Global.{Store, write, globalmq_push, globalmq_pop}

abbrev pub Heap : Type 0
Heap = ℕ → Option MessageQueue

-- The addresses reached from `h` through `next`, up to NULL.
abbrev pub Chain : Heap → ℕ → List ℕ → Type 0
Chain m h [] = h ≡ 0
Chain m h (p ∷ ps) = (h ≡ p) × (p ≢ 0) × ((q : MessageQueue) × (m p ≡ some q) × Chain m q.next ps)

abbrev pub Absent : ℕ → List ℕ → Type 0
Absent x ps = All (λ y. y ≢ x) ps

abbrev pub Distinct : List ℕ → Type 0
Distinct [] = Unit
Distinct (p ∷ ps) = Absent p ps × Distinct ps

abbrev pub last_from : ℕ → List ℕ → ℕ
last_from d [] = d
last_from d (p ∷ ps) = last_from p ps

-- The store's global queue is the list `ps`, first to be served first.
pub record IsGlobal (s : Store) (ps : List ℕ) : Type 0 where
  pub chain : Chain s.queues s.head ps
  pub ends : s.tail ≡ last_from 0 ps
  pub distinct : Distinct ps

-- A write to another address leaves the chain.
pub Chain-frame :
    (m : Heap) (h k : ℕ) (v : Option MessageQueue) (ps : List ℕ)
    → Absent k ps
    → Chain m h ps
    → Chain (update m k v) h ps
Chain-frame m h k v [] a c = c
Chain-frame m h k v (p ∷ ps) a (e, ne, (q, at, rest)) =
    (e, ne, (q, update_ne m k p v (λ x. a.0 (sym x)) ∙ at, Chain-frame m q.next k v ps a.1 rest))

last-ne : (x p : ℕ) (ps : List ℕ) → p ≢ x → Absent x ps → last_from p ps ≢ x
last-ne x p [] ne a = ne
last-ne x p (p' ∷ ps) ne a = last-ne x p' ps a.0 a.1

-- The addresses of a chain are not NULL.
Chain-real : (m : Heap) (h : ℕ) (ps : List ℕ) → Chain m h ps → Absent 0 ps
Chain-real m h [] c = tt
Chain-real m h (p ∷ ps) (e, ne, (q, at, rest)) = (ne, Chain-real m q.next ps rest)

Distinct-append : (ps : List ℕ) (x : ℕ) → Distinct ps → Absent x ps → Distinct (ps ++ (x ∷ []))
Distinct-append [] x d a = (tt, tt)
Distinct-append (p ∷ ps) x d a =
    (All-append (λ y. y ≢ p) ps (x ∷ []) d.0 ((λ e. a.0 (sym e)), tt), Distinct-append ps x d.1 a.1)

last_from-append : (d : ℕ) (ps : List ℕ) (x : ℕ) → last_from d (ps ++ (x ∷ [])) ≡ x
last_from-append d [] x = refl
last_from-append d (p ∷ ps) x = last_from-append p ps x

module _ (m : Heap) (x : ℕ) (qx : MessageQueue) (at_x : m x ≡ some qx) (ends_x : qx.next ≡ 0)
    (x_real : x ≢ 0) where
  -- Writing `x` into the last queue's `next` appends it.
  Chain-link :
      (h p : ℕ) (ps : List ℕ)
      → Chain m h (p ∷ ps)
      → Distinct (p ∷ ps)
      → Absent x (p ∷ ps)
      → (last : MessageQueue) × (m (last_from p ps) ≡ some last)
        × Chain
            (update m (last_from p ps) (some (record last { next = x })))
            h
            ((p ∷ ps) ++ (x ∷ []))
  Chain-link h p [] (e, ne, (q, at, end)) d a = (
    q,
    at,
    (
      e,
      ne,
      (
        record q { next = x },
        update_self m p _,
        (refl, x_real, (qx, update_ne m p x _ a.0 ∙ at_x, ends_x)),
      ),
    ),
  )
  Chain-link h p (p' ∷ ps) (e, ne, (q, at, rest)) d a =
      let (last, at_last, chain) = Chain-link q.next p' ps rest d.1 a.1 in
      (
        last,
        at_last,
        (e, ne, (q, update_ne m (last_from p' ps) p _ (last-ne p p' ps d.0.0 d.0.1) ∙ at, chain)),
      )

-- `skynet_globalmq_push` of a queue that is not in the list and has no `next` appends it.
pub globalmq_push-append :
    (s : Store) (ps : List ℕ) (x : ℕ) (qx : MessageQueue)
    → IsGlobal s ps
    → s.queues x ≡ some qx
    → qx.next ≡ 0
    → x ≢ 0
    → Absent x ps
    → (s' : Store) × (globalmq_push s x ≡ some s')
      × IsGlobal s' (ps ++ (x ∷ []))
      × (s'.queues x ≡ some qx)
unfolding globalmq_push
globalmq_push-append s [] x qx g at end real a = (
  record s { head = x; tail = x },
  ground arith,
  record { chain = (refl, real, (qx, at, end)); ends = refl; distinct = (tt, tt) },
  at,
)
globalmq_push-append s (p ∷ ps) x qx g at end real a =
    let (last, at_last, chain) =
      Chain-link s.queues x qx at end real s.head p ps g.chain g.distinct a in
    (
      record (write s (last_from p ps) (record last { next = x })) { tail = x },
      rw (
        at,
        eq→== _ _ end,
        g.ends,
        ne→== _ _ (last-ne 0 p ps real_p (Chain-real s.queues _ ps (g.chain.2).2)),
        at_last,
      ),
      record {
        chain = chain;
        ends = sym (last_from-append p ps x);
        distinct = Distinct-append (p ∷ ps) x g.distinct a;
      },
      update_ne s.queues (last_from p ps) x _ (last-ne x p ps a.0 a.1) ∙ at,
    )
  where
    real_p : p ≢ 0
    real_p = g.chain.1

-- `skynet_globalmq_pop` of an empty list gives NULL and changes nothing.
pub globalmq_pop-empty : (s : Store) → IsGlobal s [] → globalmq_pop s ≡ some (0, s)
unfolding globalmq_pop
globalmq_pop-empty s g = rw (eq→== s.head 0 g.chain)

-- `skynet_globalmq_pop`, on a global queue that is not empty, takes the first queue off the list
-- and clears its `next`.
pub globalmq_pop-cons :
    (s : Store) (p : ℕ) (ps : List ℕ)
    → IsGlobal s (p ∷ ps)
    → (s' : Store) × (globalmq_pop s ≡ some (p, s'))
      × IsGlobal s' ps
      × ((q : MessageQueue) × (s'.queues p ≡ some q) × (q.next ≡ 0))
unfolding globalmq_pop
globalmq_pop-cons s p [] g =
    let (e, ne, (q, at, end)) = g.chain in
    (
      record (write s p (record q { next = 0 })) { head = 0; tail = 0 },
      rw (e, ne→== _ _ ne, at, eq→== _ _ end, eq→== p s.tail (sym g.ends)),
      record { chain = refl; ends = refl; distinct = tt },
      (record q { next = 0 }, update_self s.queues p _, refl),
    )
globalmq_pop-cons s p (p' ∷ ps) g =
    let (e, ne, (q, at, rest)) = g.chain in
    (
      record (write s p (record q { next = 0 })) { head = q.next },
      rw (e, ne→== _ _ ne, at, ne→== q.next 0 (λ z. rest.1 (sym rest.0 ∙ z))),
      record {
        chain = Chain-frame s.queues q.next p _ (p' ∷ ps) g.distinct.0 rest;
        ends = g.ends;
        distinct = g.distinct.1;
      },
      (record q { next = 0 }, update_self s.queues p _, refl),
    )
