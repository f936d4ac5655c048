-- ===== src/Netpack/Dispatch.antt =====
-- lualib-src/lua-netpack.c with lualib/snax/gateserver.lua: what one
-- socket message makes the client dispatch.
use ctkjserver.Base.{
  ℕ, zero, suc, ◌≤◌, ◌<◌, ◌≡◌, refl, sym, ap, subst, ◌∙◌, ◌⊎◌, inl, inr, Option, none, some, List,
  [], ◌∷◌, ◌++◌, map, append-nil, length, length-map, arith,
}
use ctkjserver.Base.Arrays.{update}
use ctkjserver.Base.Window.{used, used-lt, length-window}
use ctkjserver.Netpack.{Pack, Queue, get_queue, new_queue, lpop}
use ctkjserver.Netpack.Filter.{Event, more}
use ctkjserver.Netpack.Spec.{Split}
use ctkjserver.Netpack.Table.{pack_of}
use ctkjserver.Netpack.State.{Holds}
use ctkjserver.Netpack.Reassemble.{given}
use ctkjserver.Netpack.Stream.{filter_data-Filtered}
use ctkjserver.Netpack.Session.{drain, dispatch, receive, drain_all}

waiting-lt :
    (q : Queue) (packs : List Pack) (r : ℕ → List ℕ) → Holds q packs r → length packs < q.cap
waiting-lt q packs r h = omega (
  arith,
  used-lt q.cap q.head q.tail h.ring.head_in h.ring.tail_in,
  length-window none q.queue q.cap q.head (used q.cap q.head q.tail),
  ap length h.waiting,
  length-map packs (λ (p : Pack). some p),
)

-- After a message, its packages are dispatched and nothing waits.
pub record Received (fd : ℕ) (xs : List ℕ) (r : ℕ → List ℕ)
    (result : Option (List (Option Pack) × Option Queue)) : Type 0 where
  pub queue : Option Queue
  pub ps : List (List ℕ)
  pub left : List ℕ
  pub returns : result ≡ some (map some (map (pack_of fd) ps), queue)
  pub split : Split xs ps left
  pub holds : Holds (get_queue queue) [] (update r fd left)

-- Nothing is popped where there is no queue.
drain-none : (f : ℕ) → drain f none ≡ ([], none)
unfolding drain lpop
drain-none zero = refl
drain-none (suc f) = refl

-- A queue that wakes its client is there.
more_queue :
    (q : Option Queue) (packs : List Pack) (r : ℕ → List ℕ)
    → Holds (get_queue q) packs r
    → (q' : Option Queue) × (dispatch more q ≡ (map some packs, q')) × Holds (get_queue q') [] r
unfolding dispatch
more_queue (some q) packs r h =
    let l : length packs ≤ q.cap = omega (arith, waiting-lt q packs r h) in
    let (q', all, done) = drain_all packs q.cap q r h l in (some q', all, done)
more_queue none [] r h = (none, drain-none new_queue.cap, h)
more_queue none (p ∷ packs) r h = absurd (nil-ne-cons h.waiting)
  where
    nil-ne-cons : {x : Option Pack} {xs : List (Option Pack)} → [] ≡ x ∷ xs → ⊥
    nil-ne-cons e = cc

-- Any event: what it hands over, or what waits.
dispatch_all :
    (event : Event) (q : Option Queue) (packs all : List Pack) (r : ℕ → List ℕ)
    → Holds (get_queue q) packs r
    → packs ++ given event ≡ all
    → (event ≡ more) ⊎ (packs ≡ [])
    → (q' : Option Queue) × (dispatch event q ≡ (map some all, q')) × Holds (get_queue q') [] r
unfolding dispatch
dispatch_all more q packs all r h e w =
    let (q', out, done) = more_queue q packs r h in
    (q', out ∙ ap (λ l. (map some l, q')) (sym (append-nil packs) ∙ e), done)
dispatch_all event q packs all r h e (inr w) = (
  q,
  ap (λ l. (map some l, q)) (ap (λ l. l ++ given event) (sym w) ∙ e),
  subst (λ l. Holds (get_queue q) l r) w h,
)
dispatch_all event q packs all r h e (inl w) = cc

pub receive-Received :
    (q : Option Queue) (r : ℕ → List ℕ) (fd : ℕ) (xs : List ℕ)
    → Holds (get_queue q) [] r
    → 0 < length xs
    → Received fd (r fd ++ xs) r (receive q fd xs)
unfolding receive
receive-Received q r fd xs h l =
    let f = filter_data-Filtered q [] r fd xs h l in
    let (q', out, done) =
      dispatch_all f.event f.queue f.waiting (map (pack_of fd) f.ps) (update r fd f.left) f.holds
        f.account f.woken in
    record {
      queue = q';
      ps = f.ps;
      left = f.left;
      returns = rw f.returns (ap some out);
      split = f.split;
      holds = done;
    }
