-- ===== src/Netpack/Stream.antt =====
-- lualib-src/lua-netpack.c: `filter_data` on any chunk, and on all chunks of all connections.
use ctkjserver.Base.{
  ℕ, ◌-◌, ◌*◌, ◌^◌, ◌<◌, ◌≡◌, refl, sym, ap, subst, ◌⊎◌, inl, inr, Option, none, some, List, [],
  ◌∷◌, ◌++◌, append-nil, length, take, drop, bit_or, length-drop, lt→ltb, le→ltb, eq→==, ne→==,
  arith,
}
use ctkjserver.Base.Arrays.{update, update_self}
use ctkjserver.Base.Bits.{bit_or_comm}
use ctkjserver.Base.Int.{pos}
use native.Mathlib.Decide.{ℕ_discrete, dec_lt}
use ctkjserver.Netpack.{
  Pack, Uncomplete, Queue, get_queue, malloc, memcpy, save_header, save_part, read_size,
  find_uncomplete,
}
use ctkjserver.Netpack.Filter.{
  Event, nothing, data_of, continue_uncomplete, start_package, filter_data,
}
use ctkjserver.Netpack.Buffers.{filled, memcpy_whole}
use ctkjserver.Netpack.Table.{Header, Part}
use ctkjserver.Netpack.State.{Holds, Holds-same, find-Found}
use ctkjserver.Netpack.Packets.{
  push_clone-Holds, save_header-Holds, save_part-Holds, clear_same, Split-take,
}
use ctkjserver.Netpack.Reassemble.{Filtered, read_on, fill-Filtered}

-- A chunk of a connection that has no unfinished bytes.
start-Filtered :
    (q : Option Queue) (packs : List Pack) (r : ℕ → List ℕ) (fd : ℕ) (xs : List ℕ)
    → Holds (get_queue q) packs r
    → r fd ≡ []
    → 0 < length xs
    → Filtered fd xs packs r (start_package q fd xs)
unfolding start_package
start-Filtered q packs r fd [] h e l = absurd (omega arith)
start-Filtered q packs r fd (b ∷ []) h e l = record {
  queue = some (save_header (get_queue q) fd b);
  event = nothing;
  returns = refl;
  ps = [];
  left = b ∷ [];
  split = (refl, tt);
  waiting = packs;
  holds = save_header-Holds (get_queue q) packs r fd b h e;
  account = refl;
  woken = inr refl;
}
start-Filtered q packs r fd (b0 ∷ b1 ∷ xs) h e l = elim (dec_lt (length xs) (read_size b0 b1)) [
  | yes s ↦ rw (lt→ltb _ _ s) record {
    queue = some (save_part (get_queue q) fd (read_size b0 b1) xs);
    event = nothing;
    returns = refl;
    ps = [];
    left = b0 ∷ b1 ∷ xs;
    split = (refl, s);
    waiting = packs;
    holds = save_part-Holds (get_queue q) packs r fd b0 b1 xs h e s;
    account = refl;
    woken = inr refl;
  }
  | no s ↦
      rw (le→ltb (length xs) (read_size b0 b1) (omega arith))
        (elim (ℕ_discrete (length xs) (read_size b0 b1)) [
          | yes z ↦ rw (eq→== _ _ z) record {
            queue = q;
            event = data_of fd (memcpy (malloc (read_size b0 b1)) 0 xs) (read_size b0 b1);
            returns = refl;
            ps = xs ∷ [];
            left = [];
            split = (b0, b1, [], ap (λ ys. b0 ∷ b1 ∷ ys) (sym (append-nil xs)), z, (refl, tt));
            waiting = packs;
            holds = Holds-same (get_queue q) packs r (update r fd []) (clear_same r fd e) h;
            account =
                ap (λ (p : Pack). packs ++ (p ∷ []))
                  (λ i. record {
                    id = fd;
                    size = sym z i;
                    buffer = memcpy_whole [] xs (read_size b0 b1) z i;
                  });
            woken = inr refl;
          }
          | no z ↦ rw (ne→== _ _ z) (
              read_on (get_queue q) packs r fd h e (b0 ∷ b1 ∷ xs) (drop (read_size b0 b1) xs)
                (take (read_size b0 b1) xs) _
                (push_clone-Holds (get_queue q) packs r fd (read_size b0 b1) xs h (omega arith))
                (omega (arith, length-drop (read_size b0 b1) xs))
                (λ ps left. Split-take b0 b1 xs ps left (omega arith)))
        ])
]

-- A chunk of a connection with an entry, which is out of its chain.
continue-Filtered :
    (q : Queue) (packs : List Pack) (r : ℕ → List ℕ) (fd : ℕ) (uc : Uncomplete) (bytes xs : List ℕ)
    → Holds q packs r
    → r fd ≡ []
    → uc.pack.id ≡ fd
    → Header uc bytes ⊎ Part uc bytes
    → 0 < length xs
    → Filtered fd (bytes ++ xs) packs r (continue_uncomplete q fd uc uc.read xs)
unfolding continue_uncomplete
continue-Filtered q packs r fd uc bytes [] h e id s l = absurd (omega arith)
continue-Filtered q packs r fd uc bytes (b ∷ xs) h e id (inl s) l =
    let n = bit_or b (uc.header * 2 ^ 8) in
    let sized : Uncomplete = record uc {
      pack = record (uc.pack) { size = n; buffer = malloc n };
      read = pos 0;
    } in
    let room : n ≡ n - 0 = omega arith in
    subst
      (λ ys. Filtered fd (ys ++ (b ∷ xs)) packs r (continue_uncomplete q fd uc uc.read (b ∷ xs)))
      (sym s.bytes)
      (subst
        (λ z. Filtered fd (uc.header ∷ b ∷ xs) packs r (continue_uncomplete q fd uc z (b ∷ xs)))
        (sym s.state)
        (fill-Filtered q packs r fd h e sized uc.header b [] xs id
          (bit_or_comm b (uc.header * 2 ^ 8)) (omega arith) (ap (filled []) room)))
continue-Filtered q packs r fd uc bytes (b ∷ xs) h e id (inr s) l =
    subst
      (λ ys. Filtered fd (ys ++ (b ∷ xs)) packs r (continue_uncomplete q fd uc uc.read (b ∷ xs)))
      (sym s.bytes)
      (subst
        (λ z.
          Filtered fd (s.b0 ∷ s.b1 ∷ (s.got ++ (b ∷ xs))) packs r
            (continue_uncomplete q fd uc z (b ∷ xs)))
        (sym s.state)
        (fill-Filtered q packs r fd h e uc s.b0 s.b1 s.got (b ∷ xs) id s.size (omega arith)
          s.buffer))

update_twice :
    (r : ℕ → List ℕ) (fd : ℕ) (x y : List ℕ) (k : ℕ)
    → update (update r fd x) fd y k ≡ update r fd y k
update_twice r fd x y k = ground arith

-- The bytes of `fd` were set aside before.
Filtered-back :
    (fd : ℕ) (xs : List ℕ) (packs : List Pack) (r : ℕ → List ℕ) (x : List ℕ)
    (result : Option (Option Queue × Event))
    → Filtered fd xs packs (update r fd x) result
    → Filtered fd xs packs r result
Filtered-back fd xs packs r x result f = record {
  queue = f.queue;
  event = f.event;
  returns = f.returns;
  ps = f.ps;
  left = f.left;
  split = f.split;
  waiting = f.waiting;
  holds = Holds-same (get_queue f.queue) f.waiting _ _ (update_twice r fd x f.left) f.holds;
  account = f.account;
  woken = f.woken;
}

-- `filter_data`, with a queue or without one yet, on a chunk that is not empty, where the table
-- holds the unfinished bytes of each connection: it returns, the bytes of this connection, its
-- unfinished ones first, are split into frames and an unfinished rest, the frames are queued or
-- handed over, in order, behind the packages that waited, the rest is what the table then holds,
-- and a package is queued only with the event "more".
pub filter_data-Filtered :
    (q : Option Queue) (packs : List Pack) (r : ℕ → List ℕ) (fd : ℕ) (xs : List ℕ)
    → Holds (get_queue q) packs r
    → 0 < length xs
    → Filtered fd (r fd ++ xs) packs r (filter_data q fd xs)
unfolding filter_data
filter_data-Filtered none packs r fd xs h l =
    let idle : r fd ≡ [] = h.pending fd in
    subst (λ ys. Filtered fd (ys ++ xs) packs r (start_package none fd xs)) (sym idle)
      (start-Filtered none packs r fd xs h idle l)
filter_data-Filtered (some q) packs r fd xs h l =
    let found = find-Found q packs r fd h in
    let q' = (find_uncomplete q fd).1 in
    let cleared = update_self r fd [] in
    Filtered-back fd (r fd ++ xs) packs r [] _ (elim (found.entry) [
      | inl (idle, gone) ↦
          rw (gone, idle)
            (start-Filtered (some q') packs (update r fd []) fd xs found.holds cleared l)
      | inr (uc, there, id, stands) ↦ rw there (
          continue-Filtered q' packs (update r fd []) fd uc (r fd) xs found.holds cleared id stands
            l)
    ])
