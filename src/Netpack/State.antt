-- ===== src/Netpack/State.antt =====
-- lualib-src/lua-netpack.c: what a queue stands for, the packages that wait in it and the unfinished
-- bytes of each connection, and how each step on it changes that.
use ctkjserver.Base.{
  ℕ, ◌<◌, ◌≡◌, refl, sym, subst, ◌∙◌, ◌⊎◌, inl, inr, Option, none, some, List, [], ◌∷◌, map, length,
  length-replicate, eq→==, ne→==, arith,
}
use ctkjserver.Base.Arrays.{update}
use ctkjserver.Base.Window.{window, used}
use ctkjserver.Netpack.{
  Pack, Uncomplete, Queue, queue_size, new_queue, hash_fd, find_uncomplete, link_uncomplete, unlink,
}
use ctkjserver.Netpack.Table.{keep, Header, Part, Entry, Pending, unlink_lem, Pending-update}

pub record IsRing (q : Queue) : Type 0 where
  pub storage : length q.queue ≡ q.cap
  pub head_in : q.head < q.cap
  pub tail_in : q.tail < q.cap

abbrev pub contents : Queue → List (Option Pack)
contents q = window none q.queue q.cap q.head (used q.cap q.head q.tail)

-- The queue holds the packages `packs`, and the bytes `r fd` of each connection.
pub record Holds (q : Queue) (packs : List Pack) (r : ℕ → List ℕ) : Type 0 where
  pub ring : IsRing q
  pub waiting : contents q ≡ map some packs
  pub pending : Pending q.hash r

pub Holds-same :
    (q : Queue) (packs : List Pack) (r r' : ℕ → List ℕ)
    → ((fd : ℕ) → r fd ≡ r' fd)
    → Holds q packs r
    → Holds q packs r'
Holds-same q packs r r' e h = record {
  ring = h.ring;
  waiting = h.waiting;
  pending = λ fd. subst (Entry fd (keep fd (q.hash (hash_fd fd)))) (e fd) (h.pending fd);
}

-- A new queue stands for nothing.
pub new_queue-Holds : Holds new_queue [] (λ _. [])
new_queue-Holds = record {
  ring = record {
    storage = length-replicate {A = Option Pack} queue_size none;
    head_in = omega arith;
    tail_in = omega arith;
  };
  waiting = refl;
  pending = λ fd. refl;
}

entries_nil : (fd : ℕ) (l : List Uncomplete) → Entry fd l [] → l ≡ []
entries_nil fd [] e = refl
entries_nil fd (uc ∷ []) (id, inl h) = absurd (nil-ne-cons h.bytes)
  where
    nil-ne-cons : {x : ℕ} → [] ≡ x ∷ [] → ⊥
    nil-ne-cons e = cc
entries_nil fd (uc ∷ []) (id, inr p) = absurd (nil-ne-cons p.bytes)
  where
    nil-ne-cons : {x : ℕ} {xs : List ℕ} → [] ≡ x ∷ xs → ⊥
    nil-ne-cons e = cc
entries_nil fd (uc ∷ _ ∷ _) e = absurd e

-- The new entry of a connection that has none.
pub link-Holds :
    (q : Queue) (packs : List Pack) (r : ℕ → List ℕ) (fd : ℕ) (uc : Uncomplete) (x : List ℕ)
    → Holds q packs r
    → r fd ≡ []
    → uc.pack.id ≡ fd
    → Header uc x ⊎ Part uc x
    → Holds (link_uncomplete q fd uc) packs (update r fd x)
unfolding link_uncomplete
link-Holds q packs r fd uc x h e id stands = record {
  ring = record { storage = h.ring.storage; head_in = h.ring.head_in; tail_in = h.ring.tail_in };
  waiting = h.waiting;
  pending =
      Pending-update q.hash r fd (uc ∷ q.hash (hash_fd fd)) x h.pending
        (rw (eq→== _ _ id, no_entry) (id, stands))
        (λ k ne. rw (ne→== uc.pack.id k (λ y. ne (sym id ∙ y))));
}
  where
    no_entry : keep fd (q.hash (hash_fd fd)) ≡ []
    no_entry = entries_nil fd _ (subst (Entry fd (keep fd (q.hash (hash_fd fd)))) e (h.pending fd))

pub record Found (q : Queue) (packs : List Pack) (r : ℕ → List ℕ) (fd : ℕ)
    (found : Option Uncomplete × Queue) : Type 0 where
  pub holds : Holds found.1 packs (update r fd [])
  pub entry :
      ((r fd ≡ []) × (found.0 ≡ none))
      ⊎ ((uc : Uncomplete) × (found.0 ≡ some uc)
          × (uc.pack.id ≡ fd)
          × (Header uc (r fd) ⊎ Part uc (r fd)))

-- `find_uncomplete` hands over the bytes of a connection.
pub find-Found :
    (q : Queue) (packs : List Pack) (r : ℕ → List ℕ) (fd : ℕ)
    → Holds q packs r
    → Found q packs r fd (find_uncomplete q fd)
unfolding find_uncomplete
find-Found q packs r fd h =
    let u = unlink_lem fd (q.hash (hash_fd fd)) (r fd) (h.pending fd) in
    record {
      holds = record {
        ring = record {
          storage = h.ring.storage;
          head_in = h.ring.head_in;
          tail_in = h.ring.tail_in;
        };
        waiting = h.waiting;
        pending =
            Pending-update q.hash r fd (unlink fd (q.hash (hash_fd fd))).1 [] h.pending
              (rw u.gone refl) u.others;
      };
      entry = u.entry;
    }
