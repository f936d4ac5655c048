-- ===== src/Netpack/Packets.antt =====
-- lualib-src/lua-netpack.c: from any state, the bytes of one chunk give exactly the packages that
-- the stream of their connection completes.
use ctkjserver.Base.{
  ℕ, zero, suc, ◌≤◌, ◌<◌, ◌≡◌, refl, sym, ap, subst, ◌∙◌, inl, inr, Option, some, List, [], ◌∷◌,
  ◌++◌, map, append-nil, append_assoc, length, take, drop, length-take, length-drop,
  take-append-drop, ltb, lt→ltb, le→ltb, eq→==, ne→==, if◌then◌else◌, arith,
}
use ctkjserver.Base.Arrays.{update}
use native.Mathlib.Decide.{ℕ_discrete, dec_lt}
use ctkjserver.Netpack.{
  Pack, Queue, malloc, memcpy, save_header, save_part, push_clone, push_more, read_size,
}
use ctkjserver.Netpack.Buffers.{memcpy-filled, memcpy_whole}
use ctkjserver.Netpack.Spec.{Split}
use ctkjserver.Netpack.Table.{pack_of}
use ctkjserver.Netpack.State.{Holds, Holds-same, link-Holds}
use ctkjserver.Netpack.Push.{push_data-Holds}

pub save_header-Holds :
    (q : Queue) (packs : List Pack) (r : ℕ → List ℕ) (fd b : ℕ)
    → Holds q packs r
    → r fd ≡ []
    → Holds (save_header q fd b) packs (update r fd (b ∷ []))
unfolding save_header
save_header-Holds q packs r fd b h e =
    link-Holds q packs r fd _ (b ∷ []) h e refl (inl (record { state = refl; bytes = refl }))

pub save_part-Holds :
    (q : Queue) (packs : List Pack) (r : ℕ → List ℕ) (fd b0 b1 : ℕ) (buffer : List ℕ)
    → Holds q packs r
    → r fd ≡ []
    → length buffer < read_size b0 b1
    → Holds (save_part q fd (read_size b0 b1) buffer) packs (update r fd (b0 ∷ b1 ∷ buffer))
unfolding save_part
save_part-Holds q packs r fd b0 b1 buffer h e short =
    link-Holds q packs r fd _ (b0 ∷ b1 ∷ buffer) h e refl (
      inr (record {
        b0 = b0;
        b1 = b1;
        got = buffer;
        bytes = refl;
        size = refl;
        state = refl;
        short = short;
        buffer = memcpy-filled [] buffer (read_size b0 b1) (omega arith);
      }))

pub take_size : (n : ℕ) (xs : List ℕ) → n ≤ length xs → length (take n xs) ≡ n
take_size n xs h = omega (arith, length-take n xs)

-- A whole package is queued as it came.
pub push_clone-Holds :
    (q : Queue) (packs : List Pack) (r : ℕ → List ℕ) (fd n : ℕ) (xs : List ℕ)
    → Holds q packs r
    → n ≤ length xs
    → Holds (push_clone q fd (take n xs) n) (packs ++ (pack_of fd (take n xs) ∷ [])) r
push_clone-Holds q packs r fd n xs h le =
    subst (λ p. Holds (push_clone q fd (take n xs) n) (packs ++ (p ∷ [])) r) same
      (push_data-Holds q packs r fd (memcpy (malloc n) 0 (take n xs)) n h)
  where
    same :
        ◌≡◌ {A = Pack}
          (record { id = fd; size = n; buffer = memcpy (malloc n) 0 (take n xs) })
          (pack_of fd (take n xs))
    same = λ i. record {
      id = fd;
      size = sym (take_size n xs le) i;
      buffer = memcpy_whole [] (take n xs) n (take_size n xs le) i;
    }

-- A frame at the beginning of the bytes.
pub Split-take :
    (b0 b1 : ℕ) (xs : List ℕ) (ps : List (List ℕ)) (r : List ℕ)
    → read_size b0 b1 ≤ length xs
    → Split (drop (read_size b0 b1) xs) ps r
    → Split (b0 ∷ b1 ∷ xs) (take (read_size b0 b1) xs ∷ ps) r
Split-take b0 b1 xs ps r le s = (
  b0,
  b1,
  drop (read_size b0 b1) xs,
  ap (λ ys. b0 ∷ b1 ∷ ys) (sym (take-append-drop (read_size b0 b1) xs)),
  take_size (read_size b0 b1) xs le,
  s,
)

-- The queue after the bytes `xs` of `fd`: their packages are behind `packs`, and the rest is kept.
pub record Pushed (fd : ℕ) (xs : List ℕ) (packs : List Pack) (r : ℕ → List ℕ)
    (result : Option Queue) : Type 0 where
  pub queue : Queue
  pub returns : result ≡ some queue
  pub ps : List (List ℕ)
  pub left : List ℕ
  pub split : Split xs ps left
  pub holds : Holds queue (packs ++ map (pack_of fd) ps) (update r fd left)

-- No bytes are left of a connection that had none.
pub clear_same : (r : ℕ → List ℕ) (fd : ℕ) → r fd ≡ [] → (k : ℕ) → r k ≡ update r fd [] k
clear_same r fd e k = elim (ℕ_discrete fd k) [
  | yes x ↦ rw (eq→== fd k x) (ap r (sym x) ∙ e)
  | no x ↦ rw (ne→== fd k x)
]

pub nil_of_length : (xs : List ℕ) → length xs ≡ 0 → xs ≡ []
nil_of_length [] e = refl
nil_of_length (x ∷ xs) e = absurd (omega arith)

-- A whole package, and then what the rest gives.
Pushed-whole :
    (fd b0 b1 : ℕ) (xs : List ℕ) (packs : List Pack) (r : ℕ → List ℕ) (q : Queue)
    (result : Option Queue)
    → read_size b0 b1 ≤ length xs
    → r fd ≡ []
    → Holds q (packs ++ (pack_of fd (take (read_size b0 b1) xs) ∷ [])) r
    → (0 < length (drop (read_size b0 b1) xs)
        → Pushed fd
            (drop (read_size b0 b1) xs)
            (packs ++ (pack_of fd (take (read_size b0 b1) xs) ∷ []))
            r
            result)
    → Pushed fd
        (b0 ∷ b1 ∷ xs)
        packs
        r
        (if ltb 0 (length (drop (read_size b0 b1) xs)) then result else some q)
Pushed-whole fd b0 b1 xs packs r q result le e h more =
    elim (dec_lt 0 (length (drop (read_size b0 b1) xs))) [
      | yes l ↦
          let p = more l in
          rw (lt→ltb _ _ l) record {
            queue = p.queue;
            returns = p.returns;
            ps = take (read_size b0 b1) xs ∷ p.ps;
            left = p.left;
            split = Split-take b0 b1 xs p.ps p.left le p.split;
            holds =
                subst (λ ps. Holds p.queue ps (update r fd p.left))
                  (append_assoc packs (pack_of fd (take (read_size b0 b1) xs) ∷ [])
                    (map (pack_of fd) p.ps))
                  p.holds;
          }
      | no l ↦ rw (le→ltb 0 (length (drop (read_size b0 b1) xs)) (omega arith)) record {
        queue = q;
        returns = refl;
        ps = take (read_size b0 b1) xs ∷ [];
        left = [];
        split = Split-take b0 b1 xs [] [] le (nil_of_length _ (omega arith), tt);
        holds = Holds-same q _ r (update r fd []) (clear_same r fd e) h;
      }
    ]

-- `push_more` with a round of fuel for each byte finds every package, and keeps the rest.
pub push_more_split :
    (f : ℕ) (q : Queue) (packs : List Pack) (r : ℕ → List ℕ) (fd : ℕ) (xs : List ℕ)
    → Holds q packs r
    → r fd ≡ []
    → 0 < length xs
    → length xs ≤ f
    → Pushed fd xs packs r (push_more f q fd xs)
unfolding push_more
push_more_split zero q packs r fd xs h e some_byte le = absurd (omega arith)
push_more_split (suc f) q packs r fd [] h e some_byte le = absurd (omega arith)
push_more_split (suc f) q packs r fd (b ∷ []) h e some_byte le = record {
  queue = save_header q fd b;
  returns = refl;
  ps = [];
  left = b ∷ [];
  split = (refl, tt);
  holds = rw append-nil (save_header-Holds q packs r fd b h e);
}
push_more_split (suc f) q packs r fd (b0 ∷ b1 ∷ xs) h e some_byte le =
    elim (dec_lt (length xs) (read_size b0 b1)) [
      | yes l ↦ rw (lt→ltb _ _ l) record {
        queue = save_part q fd (read_size b0 b1) xs;
        returns = refl;
        ps = [];
        left = b0 ∷ b1 ∷ xs;
        split = (refl, l);
        holds = rw append-nil (save_part-Holds q packs r fd b0 b1 xs h e l);
      }
      | no l ↦ rw (le→ltb (length xs) (read_size b0 b1) (omega arith)) (
          Pushed-whole fd b0 b1 xs packs r
            (push_clone q fd (take (read_size b0 b1) xs) (read_size b0 b1))
            (push_more f (push_clone q fd (take (read_size b0 b1) xs) (read_size b0 b1)) fd
              (drop (read_size b0 b1) xs))
            (omega arith) e (push_clone-Holds q packs r fd (read_size b0 b1) xs h (omega arith))
            (λ l'.
              push_more_split f (push_clone q fd (take (read_size b0 b1) xs) (read_size b0 b1))
                (packs ++ (pack_of fd (take (read_size b0 b1) xs) ∷ [])) r fd
                (drop (read_size b0 b1) xs)
                (push_clone-Holds q packs r fd (read_size b0 b1) xs h (omega arith)) e l'
                (omega (arith, length-drop (read_size b0 b1) xs))))
    ]
