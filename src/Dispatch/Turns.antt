-- ===== src/Dispatch/Turns.antt =====
-- skynet-src/skynet_server.c: the rounds of skynet_context_message_dispatch after the first, and the
-- turn that follows them.
use ctkjserver.Base.{
  ℕ, ◌≡◌, refl, sym, ap, ◌∙◌, subst, inl, inr, Bool, true, false, Option, some, List, [], ◌∷◌, ◌++◌,
  append-nil, append_assoc, map-append, length, ◌==◌, ne→==, Bool-cases, if_true, if_false,
}
use ctkjserver.Base.Arrays.{update}
use ctkjserver.Mq.{Message}
use ctkjserver.Mq.Refine.{Holds}
use ctkjserver.Mq.Global.{Store, globalmq_push, globalmq_pop}
use ctkjserver.Mq.Global.Frame.{globalmq_push-Kept, globalmq_pop-Kept}
use ctkjserver.Mq.Global.Linked.{IsGlobal, globalmq_pop-empty}
use ctkjserver.Dispatch.{Node, Context, Call, Services, Round, served, more_rounds, hand_on}
use mathlib.Core.Option.{some-injective}
use ctkjserver.Dispatch.Schedule.{Holds-next, IsScheduled, pop_head, put_back}
use ctkjserver.Dispatch.Adds.{Adds, Adds-none, Adds-trans, Kept-Adds}
use ctkjserver.Dispatch.Post.{sent_to, IsLinked}
use ctkjserver.Dispatch.Contents.{
  replies, replies-append, sent_to-append, Serves, Serves-same, Serves-trans, Adds-Serves,
}
use ctkjserver.Dispatch.Batch.{Has, round-Served, calls_of}

pub calls_of-append :
    (handle : ℕ) (ctx : Context) (ms rest : List Message)
    → calls_of handle ctx (ms ++ rest) ≡ calls_of handle ctx ms ++ calls_of handle ctx rest
calls_of-append handle ctx ms rest = elim (Bool-cases ctx.cb) [
  | inl e ↦ rw e (map-append _ ms rest)
  | inr e ↦ rw e refl
]

-- A node whose worker holds its queue, which has the messages `ms`.
pub record Ready (n : Node) (held : ℕ → Bool) (ps : List ℕ) (p : ℕ) (ms : List Message)
    : Type 0 where
  pub scheduled : IsScheduled n.store held ps
  pub linked : IsLinked n.contexts n.store
  pub has : Has n.store p ms

-- The turn goes to the first queue of the global queue, and the one that was served goes to the
-- end of it; when none waits, it is served again.
abbrev pub Turn : (ℕ → Bool) → ℕ → List ℕ → ℕ → Store → Type 0
Turn held p [] next s = (next ≡ p) × IsScheduled s held []
Turn held p (x ∷ xs) next s =
    (next ≡ x) × IsScheduled s (update (update held x true) p false) (xs ++ (p ∷ []))

popped-Adds :
    (s s' : Store) (x : ℕ) (ps : List ℕ)
    → IsGlobal s (x ∷ ps)
    → globalmq_pop s ≡ some (x, s')
    → Adds (λ k. []) s s'
popped-Adds s s' x ps g done k q at = elim (globalmq_pop-Kept s s' k x ps g done) [
  | inl (ne, e) ↦ (q, e ∙ at, λ ms h. subst (Holds q) (sym (append-nil ms)) h)
  | inr (t, (r, before, after)) ↦ (
    record r { next = 0 },
    after,
    λ ms h.
        subst (Holds (record r { next = 0 })) (sym (append-nil ms))
          (Holds-next r ms 0 (subst (λ q. Holds q ms) (some-injective _ _ (sym at ∙ before)) h)),
  )
]

pushed-Adds :
    (s s' : Store) (p : ℕ) (ps : List ℕ)
    → IsGlobal s ps
    → globalmq_push s p ≡ some s'
    → Adds (λ k. []) s s'
pushed-Adds s s' p ps g done = Kept-Adds s s' ps (λ k. globalmq_push-Kept s s' p k ps g done)

-- The messages for each queue that the services send for these calls.
abbrev pub answers : Services → Node → List Call → ℕ → List Message
answers serve n calls = sent_to n.contexts (replies serve n.calls calls)

module _ (serve : Services) (handle : ℕ) (ctx : Context) (held : ℕ → Bool) (p : ℕ)
    (mine : held p ≡ true) (inited : ctx.init ≡ true) where
  -- Rounds, as many as there are messages in `ms`.
  pub record Rounded (n : Node) (ps : List ℕ) (ms rest : List Message) (o : Option Round)
      : Type 0 where
    pub after : Node
    pub woken : List ℕ
    pub more : List Message
    pub len : ℕ
    pub done : o ≡ some (served len after)
    pub called : after.calls ≡ n.calls ++ calls_of handle ctx ms
    pub contexts : after.contexts ≡ n.contexts
    pub ready : Ready after held (ps ++ woken) p (rest ++ more)
    pub serves : Serves p ms (answers serve n (calls_of handle ctx ms)) n.store after.store

  -- A message is served, and then more.
  pub serve_more :
      (n n' : Node) (m : Message) (ms : List Message) (s : Store)
      → n'.calls ≡ n.calls ++ calls_of handle ctx (m ∷ [])
      → n'.contexts ≡ n.contexts
      → Serves p (m ∷ []) (answers serve n (calls_of handle ctx (m ∷ []))) n.store n'.store
      → Serves p ms (answers serve n' (calls_of handle ctx ms)) n'.store s
      → Serves p (m ∷ ms) (answers serve n (calls_of handle ctx (m ∷ ms))) n.store s
  serve_more n n' m ms s called contexts first rest =
      let one = calls_of handle ctx (m ∷ []) in
      let others = calls_of handle ctx ms in
      let sent = sent_to n.contexts (replies serve (n.calls ++ one) others) in
      Serves-same p (m ∷ ms) (m ∷ ms) (λ k. answers serve n one k ++ sent k)
        (answers serve n (calls_of handle ctx (m ∷ ms))) n.store s refl
        (λ k.
          sym (
            sent_to-append n.contexts (replies serve n.calls one)
              (replies serve (n.calls ++ one) others) k)
          ∙ ap (λ sends. sent_to n.contexts sends k) (sym (replies-append serve n.calls one others))
          ∙ ap (λ calls. answers serve n calls k) (sym (calls_of-append handle ctx (m ∷ []) ms)))
        (Serves-trans p (m ∷ []) ms (answers serve n one) sent n.store n'.store s first (
          subst (λ calls. Serves p ms (sent_to n.contexts (replies serve calls others)) n'.store s)
            called
            (subst
              (λ contexts.
                Serves p ms (sent_to contexts (replies serve n'.calls others)) n'.store s)
              contexts rest)))

  pub more_rounds-Rounded :
      (ms : List Message) (n : Node) (ps : List ℕ) (rest : List Message)
      → Ready n held ps p (ms ++ rest)
      → Rounded n ps ms rest (more_rounds serve (length ms) n p handle ctx)
  unfolding more_rounds replies sent_to
  more_rounds-Rounded [] n ps rest r = record {
    after = n;
    woken = [];
    more = [];
    len = 0;
    done = refl;
    called = sym (elim (Bool-cases ctx.cb) [
      | inl e ↦ rw e (append-nil n.calls)
      | inr e ↦ rw e (append-nil n.calls)
    ]);
    contexts = refl;
    ready = rw (append-nil ps, append-nil rest) r;
    serves =
        Serves-same p [] [] (λ k. []) (answers serve n (calls_of handle ctx [])) n.store n.store
          refl
          (λ k.
            ap (λ calls. answers serve n calls k) {x = []}
              (elim (Bool-cases ctx.cb) [ inl e ↦ rw e refl | inr e ↦ rw e refl ]))
          (Adds-Serves p (λ k. []) n.store n.store (Adds-none n.store));
  }
  more_rounds-Rounded (m ∷ ms) n ps rest r =
      let one =
        round-Served serve handle ctx held inited p mine n ps m (ms ++ rest) r.scheduled r.linked
          r.has in
      let next = more_rounds-Rounded ms one.after (ps ++ one.woken) (rest ++ one.more) (record {
        scheduled = one.scheduled;
        linked = one.linked;
        has = rw (sym (append_assoc ms rest one.more)) one.has;
      }) in
      record {
        after = next.after;
        woken = one.woken ++ next.woken;
        more = one.more ++ next.more;
        len = next.len;
        done = rw (one.done, next.done) refl;
        called =
            next.called
            ∙ ap (λ c. c ++ calls_of handle ctx ms) one.called
            ∙ append_assoc n.calls (calls_of handle ctx (m ∷ [])) (calls_of handle ctx ms)
            ∙ ap (◌++◌ n.calls) (sym (calls_of-append handle ctx (m ∷ []) ms));
        ready =
            rw
              (
                sym (append_assoc ps one.woken next.woken),
                sym (append_assoc rest one.more next.more),
              )
              next.ready;
        contexts = next.contexts ∙ one.contexts;
        serves =
            serve_more n one.after m ms next.after.store one.called one.contexts one.serves
              next.serves;
      }

  pub hand_on-Turn :
      (n : Node) (ps : List ℕ)
      → IsScheduled n.store held ps
      → (next : ℕ) × ((s : Store) × (hand_on serve n p ≡ some (next, record n { store = s }))
          × Turn held p ps next s
          × Adds (λ k. []) n.store s)
  unfolding hand_on
  hand_on-Turn n [] i =
      (p, (n.store, rw (globalmq_pop-empty n.store i.global) refl, (refl, i), Adds-none n.store))
  hand_on-Turn n (x ∷ xs) i =
      let (s, popped, j) = pop_head n.store held x xs i in
      let (s', pushed, k) = put_back s (update held x true) p xs j still in
      (
        x,
        (
          s',
          rw (popped, x_real, pushed) refl,
          (refl, k),
          Adds-trans (λ k. []) (λ k. []) n.store s s' (popped-Adds n.store s x xs i.global popped)
              (pushed-Adds s s' p xs j.global pushed),
        ),
      )
    where
      x_real : (x == 0) ≡ false
      x_real = ne→== x 0 i.global.chain.1

      still : update held x true p ≡ true
      still = elim (Bool-cases (x == p)) [ inl e ↦ if_true _ _ e | inr e ↦ if_false _ _ e ∙ mine ]
