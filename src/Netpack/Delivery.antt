-- ===== src/Netpack/Delivery.antt =====
-- lualib-src/lua-netpack.c with lualib/snax/gateserver.lua: however the bytes of the connections are
-- cut into chunks and interleaved, each connection's packages arrive, in order.
use ctkjserver.Base.{
  ℕ, ◌/◌, ◌%◌, ◌^◌, ◌<◌, ◌≡◌, refl, sym, ap, subst, ◌∙◌, ◌≢◌, Option, none, some, List, [], ◌∷◌,
  ◌++◌, map, append-nil, append_assoc, length, ◌==◌, eq→==, ne→==, if◌then◌else◌, lt→ltb, le→ltb,
  All, bit_and, arith,
}
use ctkjserver.Base.Arrays.{update}
use ctkjserver.Base.Bits.{bit_and_mask, bit_or_fields}
use native.Mathlib.Decide.{ℕ_discrete, dec_lt}
use ctkjserver.Netpack.{Pack, Queue, get_queue, lpack, read_size}
use ctkjserver.Netpack.Spec.{Split, Split-append, Split-unique}
use ctkjserver.Netpack.Table.{pack_of, Entry-IsShort}
use ctkjserver.Netpack.State.{Holds, new_queue-Holds}
use ctkjserver.Netpack.Session.{feed}
use ctkjserver.Netpack.Dispatch.{receive-Received}

-- What the messages of `fd` carry, in order; and the packages of `fd`.
abbrev pub of_connection : ℕ → List (ℕ × List ℕ) → List (List ℕ)
of_connection fd [] = []
of_connection fd ((k, xs) ∷ rest) =
    if k == fd then xs ∷ of_connection fd rest else of_connection fd rest

abbrev pub join : List (List ℕ) → List ℕ
join [] = []
join (xs ∷ rest) = xs ++ join rest

abbrev pub dispatched : ℕ × List ℕ → Option Pack
dispatched t = some (pack_of t.0 t.1)

-- After the messages: the packages dispatched, with their connections, and what is left of each
-- connection's bytes.
pub record Fed (r : ℕ → List ℕ) (messages : List (ℕ × List ℕ))
    (result : Option (List (Option Pack) × Option Queue)) : Type 0 where
  pub queue : Option Queue
  pub out : List (ℕ × List ℕ)
  pub left : ℕ → List ℕ
  pub returns : result ≡ some (map dispatched out, queue)
  pub split :
      (fd : ℕ) → Split (r fd ++ join (of_connection fd messages)) (of_connection fd out) (left fd)
  pub holds : Holds (get_queue queue) [] left

tag : ℕ → List (List ℕ) → List (ℕ × List ℕ)
tag fd [] = []
tag fd (p ∷ ps) = (fd, p) ∷ tag fd ps

dispatched-tag :
    (fd : ℕ) (ps : List (List ℕ)) (out : List (ℕ × List ℕ))
    → map dispatched (tag fd ps ++ out) ≡ map some (map (pack_of fd) ps) ++ map dispatched out
unfolding tag
dispatched-tag fd [] out = refl
dispatched-tag fd (p ∷ ps) out = ap (◌∷◌ (some (pack_of fd p))) (dispatched-tag fd ps out)

of-tag_self :
    (fd : ℕ) (ps : List (List ℕ)) (out : List (ℕ × List ℕ))
    → of_connection fd (tag fd ps ++ out) ≡ ps ++ of_connection fd out
unfolding tag
of-tag_self fd [] out = refl
of-tag_self fd (p ∷ ps) out = rw (eq→== fd fd refl) (ap (◌∷◌ p) (of-tag_self fd ps out))

of-tag_ne :
    (fd k : ℕ) (ps : List (List ℕ)) (out : List (ℕ × List ℕ))
    → fd ≢ k
    → of_connection k (tag fd ps ++ out) ≡ of_connection k out
unfolding tag
of-tag_ne fd k [] out ne = refl
of-tag_ne fd k (p ∷ ps) out ne = rw (ne→== fd k ne) (of-tag_ne fd k ps out ne)

-- Chunks of any connections in any order, none of them empty, from a state without waiting
-- packages: each connection's bytes, its unfinished ones before included, are the frames of the
-- packages dispatched for it, in order, and its unfinished bytes after.
pub feed-Fed :
    (messages : List (ℕ × List ℕ)) (q : Option Queue) (r : ℕ → List ℕ)
    → Holds (get_queue q) [] r
    → All (λ m. 0 < length m.1) messages
    → Fed r messages (feed q messages)
unfolding feed
feed-Fed [] q r h l = record {
  queue = q;
  out = [];
  left = r;
  returns = refl;
  split = λ fd. (append-nil (r fd), Entry-IsShort fd _ (r fd) (h.pending fd));
  holds = h;
}
feed-Fed ((fd, xs) ∷ messages) q r h l =
    let a = receive-Received q r fd xs h l.0 in
    let b = feed-Fed messages a.queue (update r fd a.left) a.holds l.1 in
    rw (a.returns, b.returns)
      record {
        queue = b.queue;
        out = tag fd a.ps ++ b.out;
        left = b.left;
        returns = ap (λ l. some (l, b.queue)) (sym (dispatched-tag fd a.ps b.out));
        split = λ k. elim (ℕ_discrete fd k) [
          | yes e ↦
              subst
                (λ j.
                  Split (r j ++ join (of_connection j ((fd, xs) ∷ messages)))
                    (of_connection j (tag fd a.ps ++ b.out)) (b.left j))
                e
                (rw (eq→== fd fd refl, of-tag_self fd a.ps b.out)
                  (subst (λ ys. Split ys (a.ps ++ of_connection fd b.out) (b.left fd))
                    (append_assoc (r fd) xs (join (of_connection fd messages)))
                    (Split-append (r fd ++ xs) (join (of_connection fd messages)) a.ps
                      (of_connection fd b.out) a.left (b.left fd) a.split
                      (rw (eq→== fd fd refl) at (b.split fd)))))
          | no ne ↦
              rw (ne→== fd k ne, of-tag_ne fd k a.ps b.out ne) (rw (ne→== fd k ne) at (b.split k))
        ];
        holds = b.holds;
      }

-- The bytes are the packages `ps`, each as `lpack` sends it.
abbrev pub Packed : List (List ℕ) → List ℕ → Type 0
Packed [] xs = xs ≡ []
Packed (p ∷ ps) xs =
    (sent : List ℕ) × (rest : List ℕ) × (lpack p ≡ some sent) × (xs ≡ sent ++ rest) × Packed ps rest

-- `lpack` writes a size that `read_size` reads, for every length that it takes.
size_back : (n : ℕ) → n < 0x10000 → n ≡ read_size (bit_and (n / 2 ^ 8) 0xff) (bit_and n 0xff)
size_back n h =
    rw
      (
        bit_and_mask 8 (n / 2 ^ 8),
        bit_and_mask 8 n,
        bit_or_fields (n / 2 ^ 8 % 2 ^ 8) 8 (n % 2 ^ 8) (omega arith),
      )
      (omega arith)

lpack-frame :
    (p sent : List ℕ)
    → lpack p ≡ some sent
    → (b0 : ℕ) × (b1 : ℕ) × (sent ≡ b0 ∷ b1 ∷ p) × (length p ≡ read_size b0 b1)
unfolding lpack
lpack-frame p sent e = elim (dec_lt (length p) 0x10000) [
  | yes l ↦ (
    bit_and (length p / 2 ^ 8) 0xff,
    bit_and (length p) 0xff,
    cc (rw (lt→ltb _ _ l) at e),
    size_back (length p) l,
  )
  | no l ↦ absurd (none-ne-some (rw (le→ltb (length p) 0x10000 (omega arith)) at e))
]
  where
    none-ne-some : none ≡ some sent → ⊥
    none-ne-some e = cc

Packed-Split : (ps : List (List ℕ)) (xs : List ℕ) → Packed ps xs → Split xs ps []
Packed-Split [] xs e = (e, tt)
Packed-Split (p ∷ ps) xs (sent, rest, packed, e, others) =
    let (b0, b1, frame, size) = lpack-frame p sent packed in
    (b0, b1, rest, e ∙ ap (λ l. l ++ rest) frame, size, Packed-Split ps rest others)

-- What one side packs with `lpack`, the other side dispatches: however the chunks of all
-- connections, none of them empty, are cut and interleaved, if the bytes of `fd` are the packages
-- `ps` as `lpack` sends them, then `ps` is what is dispatched for `fd`, in order.
pub lpack-feed :
    (messages : List (ℕ × List ℕ)) (fd : ℕ) (ps : List (List ℕ))
    → All (λ m. 0 < length m.1) messages
    → Packed ps (join (of_connection fd messages))
    → (queue : Option Queue) × (out : List (ℕ × List ℕ)) × (feed none messages
        ≡ some (map dispatched out, queue))
      × (of_connection fd out ≡ ps)
lpack-feed messages fd ps nonempty packed =
    let fed = feed-Fed messages none (λ _. []) new_queue-Holds nonempty in
    (
      fed.queue,
      fed.out,
      fed.returns,
      (Split-unique _ _ ps _ [] (fed.split fd) (Packed-Split ps _ packed)).0,
    )
