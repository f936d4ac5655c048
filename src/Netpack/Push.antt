-- ===== src/Netpack/Push.antt =====
-- lualib-src/lua-netpack.c: `push_data` appends one package, through an expansion of the array too.
use ctkjserver.Base.{
  ℕ, suc, ◌+◌, ◌-◌, ◌<◌, ◌≡◌, sym, ap, ◌∙◌, none, some, List, [], ◌∷◌, ◌++◌, map-append, length-set,
  length-replicate, set, replicate, ltb, eq→==, ne→==, if◌then◌else◌, arith,
}
use ctkjserver.Base.Window.{
  window, used, step, end_at, used-lt, used-step, used_full, window_push, copy_round,
  length-copy_round, window-copy_round,
}
use native.Mathlib.Decide.{ℕ_discrete}
use ctkjserver.Netpack.{Cell, Pack, Queue, queue_size, push_data, expand_queue}
use ctkjserver.Netpack.State.{IsRing, contents, Holds}

-- `if (++q->tail >= q->cap) q->tail -= q->cap;` resets to 0.
tail_step :
    (cap tail : ℕ)
    → tail < cap
    → (if ltb (tail + 1) cap then tail + 1 else tail + 1 - cap) ≡ step cap tail
tail_step cap tail h = ground arith

abbrev stored : Queue → Pack → Queue
stored q p = record q { queue = set q.queue q.tail (some p); tail = step q.cap q.tail }

stored-IsRing : (q : Queue) (p : Pack) → IsRing q → IsRing (stored q p)
stored-IsRing q p v = record {
  storage = length-set q.queue q.tail (some p) ∙ v.storage;
  head_in = v.head_in;
  tail_in = ground arith;
}

expand-IsRing : (q : Queue) → IsRing q → IsRing (expand_queue q)
unfolding expand_queue
expand-IsRing q v = record {
  storage =
      length-copy_round none q.queue q.head q.cap q.cap 0 (replicate (q.cap + queue_size) none)
      ∙ length-replicate (q.cap + queue_size) none;
  head_in = omega arith;
  tail_in = omega arith;
}

grown :
    (q : Queue) (p : Pack)
    → IsRing q
    → window none (set q.queue q.tail (some p)) q.cap q.head (suc (used q.cap q.head q.tail))
      ≡ contents q ++ (some p ∷ [])
grown q p v =
    window_push none q.queue q.cap q.head q.tail (used q.cap q.head q.tail) (some p) (omega arith)
      v.tail_in (used-lt q.cap q.head q.tail v.head_in v.tail_in)
      (end_at q.cap q.head q.tail v.head_in v.tail_in)

contents-expand :
    (q : Queue) (p : Pack)
    → IsRing q
    → q.head ≡ step q.cap q.tail
    → contents (expand_queue (stored q p)) ≡ contents q ++ (some p ∷ [])
unfolding expand_queue
contents-expand q p v e =
    let n : used (q.cap + queue_size) 0 q.cap ≡ q.cap = ground arith in
    let fresh = replicate (q.cap + queue_size) none in
    ap
      (window none (copy_round none (set q.queue q.tail (some p)) q.head q.cap q.cap 0 fresh)
        (q.cap + queue_size) 0)
      n
    ∙ window-copy_round none (set q.queue q.tail (some p)) q.head q.cap (q.cap + queue_size) fresh
        (omega arith) (sym (length-replicate (q.cap + queue_size) none))
    ∙ ap (window none (set q.queue q.tail (some p)) q.cap q.head)
        (sym (used_full q.cap q.head q.tail v.head_in v.tail_in e))
    ∙ grown q p v

pub push_data-Holds :
    (q : Queue) (packs : List Pack) (r : ℕ → List ℕ) (fd : ℕ) (buffer : List Cell) (size : ℕ)
    → Holds q packs r
    → Holds
        (push_data q fd buffer size)
        (packs ++ (record { id = fd; size = size; buffer = buffer } ∷ []))
        r
unfolding push_data expand_queue
push_data-Holds q packs r fd buffer size h =
    let p : Pack = record { id = fd; size = size; buffer = buffer } in
    let append =
      ap (λ cells. cells ++ (some p ∷ [])) h.waiting ∙ sym (map-append some packs (p ∷ [])) in
    rw (tail_step q.cap q.tail h.ring.tail_in) (elim (ℕ_discrete q.head (step q.cap q.tail)) [
      | yes e ↦ rw (eq→== _ _ e) record {
        ring = expand-IsRing (stored q p) (stored-IsRing q p h.ring);
        waiting = contents-expand q p h.ring e ∙ append;
        pending = h.pending;
      }
      | no ne ↦ rw (ne→== _ _ ne) record {
        ring = stored-IsRing q p h.ring;
        waiting =
            ap (window none (set q.queue q.tail (some p)) q.cap q.head)
              (used-step q.cap q.head q.tail h.ring.head_in h.ring.tail_in ne)
            ∙ grown q p h.ring
            ∙ append;
        pending = h.pending;
      }
    ])
