-- ===== src/Netpack/Reassemble.antt =====
-- lualib-src/lua-netpack.c: `filter_data` against the splitting of the stream into frames.
use ctkjserver.Base.{
  ℕ, ◌+◌, ◌-◌, ◌≤◌, ◌<◌, ◌≡◌, refl, sym, ap, subst, ◌∙◌, ◌⊎◌, inl, inr, Option, some, List, [], ◌∷◌,
  ◌++◌, map, append-nil, append_assoc, length, take, drop, length-append, take-append-drop, ◌==◌,
  lt→ltb, le→ltb, eq→==, ne→==, if◌then◌else◌, arith,
}
use ctkjserver.Base.Arrays.{update}
use ctkjserver.Base.Int.{pos}
use native.Mathlib.Decide.{ℕ_discrete, dec_lt}
use ctkjserver.Netpack.{
  Pack, Uncomplete, Queue, get_queue, memcpy, link_uncomplete, push_data, read_size,
}
use ctkjserver.Netpack.Filter.{Event, nothing, data_of, more, ◌>>=◌, fill, push_rest}
use ctkjserver.Netpack.Buffers.{filled, memcpy-filled, memcpy_whole}
use ctkjserver.Netpack.Spec.{Split}
use ctkjserver.Netpack.Table.{pack_of}
use ctkjserver.Netpack.State.{Holds, Holds-same, link-Holds}
use ctkjserver.Netpack.Push.{push_data-Holds}
use ctkjserver.Netpack.Packets.{push_more_split, take_size, nil_of_length, clear_same}

-- The package that an event hands over directly.
abbrev pub given : Event → List Pack
given (data_of fd buffer size) = record { id = fd; size = size; buffer = buffer } ∷ []
given _ = []

-- After the bytes `xs` of `fd`: the packages they complete are in the queue, behind those that
-- waited there, or handed over, and what is left of the bytes is kept.
pub record Filtered (fd : ℕ) (xs : List ℕ) (packs : List Pack) (r : ℕ → List ℕ)
    (result : Option (Option Queue × Event)) : Type 0 where
  pub queue : Option Queue
  pub event : Event
  pub returns : result ≡ some (queue, event)
  pub ps : List (List ℕ)
  pub left : List ℕ
  pub split : Split xs ps left
  pub waiting : List Pack
  pub holds : Holds (get_queue queue) waiting (update r fd left)
  pub account : waiting ++ given event ≡ packs ++ map (pack_of fd) ps
  pub woken : (event ≡ more) ⊎ (waiting ≡ packs)

module _ (q : Queue) (packs : List Pack) (r : ℕ → List ℕ) (fd : ℕ) (h : Holds q packs r)
    (e : r fd ≡ []) where
  -- The package `p` goes to the queue, and the bytes behind it are read on.
  pub read_on :
      (xs rest p : List ℕ) (next : Queue)
      → Holds next (packs ++ (pack_of fd p ∷ [])) r
      → 0 < length rest
      → ((ps : List (List ℕ)) (left : List ℕ) → Split rest ps left → Split xs (p ∷ ps) left)
      → Filtered fd xs packs r (push_rest next fd rest >>= λ q'. some (some q', more))
  read_on xs rest p next hn l frame =
      let pushed = push_more_split (length rest) next _ r fd rest hn e l (omega arith) in
      rw pushed.returns record {
        queue = some pushed.queue;
        event = more;
        returns = refl;
        ps = p ∷ pushed.ps;
        left = pushed.left;
        split = frame pushed.ps pushed.left pushed.split;
        waiting = (packs ++ (pack_of fd p ∷ [])) ++ map (pack_of fd) pushed.ps;
        holds = pushed.holds;
        account =
            append-nil _ ∙ append_assoc packs (pack_of fd p ∷ []) (map (pack_of fd) pushed.ps);
        woken = inl refl;
      }

  link_part :
      (uc : Uncomplete) (b0 b1 : ℕ) (got xs : List ℕ)
      → uc.pack.id ≡ fd
      → uc.pack.size ≡ read_size b0 b1
      → uc.pack.buffer ≡ filled got (uc.pack.size - length got)
      → length xs < uc.pack.size - length got
      → Holds
          (link_uncomplete q fd (record uc {
            pack = record (uc.pack) { buffer = memcpy uc.pack.buffer (length got) xs };
            read = pos (length got + length xs);
          }))
          packs
          (update r fd (b0 ∷ b1 ∷ (got ++ xs)))
  link_part uc b0 b1 got xs id size buffer l =
      link-Holds q packs r fd _ (b0 ∷ b1 ∷ (got ++ xs)) h e id (
        inr (record {
          b0 = b0;
          b1 = b1;
          got = got ++ xs;
          bytes = refl;
          size = size;
          state = ap pos (sym (length-append got xs));
          short = omega (arith, length-append got xs);
          buffer =
              ap (λ b. memcpy b (length got) xs) buffer
              ∙ memcpy-filled got xs (uc.pack.size - length got) (omega arith)
              ∙ ap (filled (got ++ xs)) room;
        }))
    where
      room : uc.pack.size - length got - length xs ≡ uc.pack.size - length (got ++ xs)
      room = omega (arith, length-append got xs)

  -- `filter_data_` from `int need` on, for an entry with the bytes `got`.
  pub fill-Filtered :
      (uc : Uncomplete) (b0 b1 : ℕ) (got xs : List ℕ)
      → uc.pack.id ≡ fd
      → uc.pack.size ≡ read_size b0 b1
      → length got ≤ uc.pack.size
      → uc.pack.buffer ≡ filled got (uc.pack.size - length got)
      → Filtered fd (b0 ∷ b1 ∷ (got ++ xs)) packs r (fill q fd uc (length got) xs)
  unfolding fill
  fill-Filtered uc b0 b1 got xs id size fits buffer =
      elim (dec_lt (length xs) (uc.pack.size - length got)) [
        | yes l ↦ rw (lt→ltb _ _ l) record {
          queue = some (
              link_uncomplete q fd (record uc {
                pack = record (uc.pack) { buffer = memcpy uc.pack.buffer (length got) xs };
                read = pos (length got + length xs);
              }));
          event = nothing;
          returns = refl;
          ps = [];
          left = b0 ∷ b1 ∷ (got ++ xs);
          split = (refl, omega (arith, length-append got xs));
          waiting = packs;
          holds = link_part uc b0 b1 got xs id size buffer l;
          account = refl;
          woken = inr refl;
        }
        | no l ↦
            rw (le→ltb (length xs) (uc.pack.size - length got) (omega arith)) (whole (omega arith))
      ]
    where
      n : ℕ
      n = uc.pack.size - length got

      p : List ℕ
      p = got ++ take n xs

      p_size : n ≤ length xs → length p ≡ uc.pack.size
      p_size l = omega (arith, length-append got (take n xs), take_size n xs l)

      copy : n ≤ length xs → memcpy uc.pack.buffer (length got) (take n xs) ≡ map some p
      copy l =
          ap (λ b. memcpy b (length got) (take n xs)) buffer
          ∙ memcpy_whole got (take n xs) n (take_size n xs l)

      frame :
          n ≤ length xs
          → (ps : List (List ℕ)) (left : List ℕ) → Split (drop n xs) ps left
          → Split (b0 ∷ b1 ∷ (got ++ xs)) (p ∷ ps) left
      frame l ps left s = (
        b0,
        b1,
        drop n xs,
        ap (λ ys. b0 ∷ b1 ∷ ys)
            (ap (◌++◌ got) (sym (take-append-drop n xs))
              ∙ sym (append_assoc got (take n xs) (drop n xs))),
        p_size l ∙ size,
        s,
      )

      same :
          n ≤ length xs
          → ◌≡◌ {A = Pack}
              (record {
                id = fd;
                size = uc.pack.size;
                buffer = memcpy uc.pack.buffer (length got) (take n xs);
              })
              (pack_of fd p)
      same l = λ i. record { id = fd; size = sym (p_size l) i; buffer = copy l i }

      queued :
          n ≤ length xs
          → Holds
              (push_data q fd (memcpy uc.pack.buffer (length got) (take n xs)) uc.pack.size)
              (packs ++ (pack_of fd p ∷ []))
              r
      queued l =
          subst
            (λ x.
              Holds (push_data q fd (memcpy uc.pack.buffer (length got) (take n xs)) uc.pack.size)
                (packs ++ (x ∷ [])) r)
            (same l) (push_data-Holds q packs r fd _ uc.pack.size h)

      whole :
          n ≤ length xs
          → Filtered fd (b0 ∷ b1 ∷ (got ++ xs)) packs r (
              if length (drop n xs) == 0
              then some
                  (some q, data_of fd (memcpy uc.pack.buffer (length got) (take n xs)) uc.pack.size)
              else (push_rest
                    (push_data q fd (memcpy uc.pack.buffer (length got) (take n xs)) uc.pack.size)
                    fd
                    (drop n xs)
                  >>= λ q'. some (some q', more)))
      whole l = elim (ℕ_discrete (length (drop n xs)) 0) [
        | yes z ↦ rw (eq→== _ _ z) record {
          queue = some q;
          event = data_of fd (memcpy uc.pack.buffer (length got) (take n xs)) uc.pack.size;
          returns = refl;
          ps = p ∷ [];
          left = [];
          split = frame l [] [] (nil_of_length _ z, tt);
          waiting = packs;
          holds = Holds-same q packs r (update r fd []) (clear_same r fd e) h;
          account = ap (λ x. packs ++ (x ∷ [])) (same l);
          woken = inr refl;
        }
        | no z ↦
            rw (ne→== _ _ z)
              (read_on (b0 ∷ b1 ∷ (got ++ xs)) (drop n xs) p _ (queued l) (omega arith) (frame l))
      ]
