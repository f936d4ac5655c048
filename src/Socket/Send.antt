-- ===== src/Socket/Send.antt =====
-- skynet-src/socket_server.c: what `send_list_tcp` writes of a list of write buffers.
use ctkjserver.Base.{
  ℕ, ◌+◌, ◌-◌, ◌≤◌, min, ◌≡◌, refl, sym, ap, ◌∙◌, subst, Bool, true, false, List, [], ◌∷◌, ◌++◌,
  map, append-nil, append_assoc, length, length-append, length-take, length-drop, take, drop, All,
  inl, inr, Bool-cases, ◌==◌, ==→eq, arith,
}
use ctkjserver.Base.Slices.{take-take, take-take-drop, take_all, joined}
use ctkjserver.Socket.{WriteBuffer, WriteReply, SentList, rest_of, send_list}

-- `ptr` and `sz` are the rest of the buffer.
abbrev pub IsRest : WriteBuffer → Type 0
IsRest wb = wb.ptr + wb.sz ≡ length wb.buffer

-- Nothing of the buffer was written.
abbrev pub IsFresh : WriteBuffer → Type 0
IsFresh wb = (wb.ptr ≡ 0) × IsRest wb

-- The buffer does not hold an object of the host.
abbrev pub IsPlain : WriteBuffer → Type 0
IsPlain wb = wb.userobject ≡ false

-- Of the first buffer only a part may have been written.
abbrev pub IsQueue : List WriteBuffer → Type 0
IsQueue [] = Unit
IsQueue (wb ∷ list) = IsRest wb × All IsFresh list

-- The packages of the buffers, as they were given.
abbrev pub packages : List WriteBuffer → List (List ℕ)
packages = map WriteBuffer.buffer

-- What was written of the first buffer.
abbrev pub begun : List WriteBuffer → List ℕ
begun [] = []
begun (wb ∷ list) = take wb.ptr wb.buffer

-- The bytes that are still to be written, counted.
abbrev pub total : List WriteBuffer → ℕ
total [] = 0
total (wb ∷ list) = wb.sz + total list

pub IsQueue-fresh : (list : List WriteBuffer) → All IsFresh list → IsQueue list
IsQueue-fresh [] h = tt
IsQueue-fresh (wb ∷ list) h = (h.0.1, h.1)

pub begun-fresh : (list : List WriteBuffer) → All IsFresh list → begun list ≡ []
begun-fresh [] h = refl
begun-fresh (wb ∷ list) h = ap (λ k. take k wb.buffer) h.0.0

pub total-append : (xs ys : List WriteBuffer) → total (xs ++ ys) ≡ total xs + total ys
total-append [] ys = omega arith
total-append (wb ∷ xs) ys = omega (arith, total-append xs ys)

-- What was written of a list, in terms of whole packages.
pub record IsSent (list : List WriteBuffer) (sent : SentList) : Type 0 where
  pub done : List (List ℕ)
  pub split : packages list ≡ done ++ packages sent.left
  pub stream : begun list ++ sent.bytes ≡ joined done ++ begun sent.left
  pub queue : IsQueue sent.left
  pub plain : All IsPlain list → All IsPlain sent.left
  pub count : length sent.bytes + total sent.left ≡ total list

unsent :
    (list : List WriteBuffer) (broken : Bool) (replies : List WriteReply)
    → IsQueue list
    → IsSent list (record { left = list; bytes = []; broken = broken; replies = replies })
unsent list broken replies h = record {
  done = [];
  split = refl;
  stream = append-nil (begun list);
  queue = h;
  plain = λ p. p;
  count = omega arith;
}

IsSent-part :
    (wb : WriteBuffer) (list : List WriteBuffer) (k : ℕ) (replies : List WriteReply)
    → IsQueue (wb ∷ list)
    → IsSent (wb ∷ list) (record {
      left = record wb { ptr = wb.ptr + min k wb.sz; sz = wb.sz - min k wb.sz } ∷ list;
      bytes = take (min k wb.sz) (rest_of wb);
      broken = false;
      replies = replies;
    })
IsSent-part wb list k replies h =
    let n = min k wb.sz in
    let low : n ≤ wb.sz = omega arith in
    record {
      done = [];
      split = refl;
      stream =
          ap (◌++◌ (take wb.ptr wb.buffer)) (take-take n wb.sz (drop wb.ptr wb.buffer) low)
          ∙ take-take-drop wb.ptr n wb.buffer;
      queue = (omega (arith, h.0), h.1);
      plain = λ p. p;
      count = omega (
        arith,
        h.0,
        length-take n (rest_of wb),
        length-take wb.sz (drop wb.ptr wb.buffer),
        length-drop wb.ptr wb.buffer,
      );
    }

IsSent-all :
    (wb : WriteBuffer) (list : List WriteBuffer) (sent : SentList)
    → IsQueue (wb ∷ list)
    → IsSent list sent
    → IsSent (wb ∷ list) (record sent { bytes = rest_of wb ++ sent.bytes })
IsSent-all wb list sent h next =
    let whole : take wb.ptr wb.buffer ++ rest_of wb ≡ wb.buffer =
      take-take-drop wb.ptr wb.sz wb.buffer ∙ ap (λ n. take n wb.buffer) h.0 ∙ take_all wb.buffer in
    let first : sent.bytes ≡ joined next.done ++ begun sent.left =
      ap (λ t. t ++ sent.bytes) (sym (begun-fresh list h.1)) ∙ next.stream in
    record {
      done = wb.buffer ∷ next.done;
      split = ap (◌∷◌ wb.buffer) next.split;
      stream =
          sym (append_assoc (take wb.ptr wb.buffer) (rest_of wb) sent.bytes)
          ∙ ap (λ t. t ++ sent.bytes) whole
          ∙ ap (◌++◌ wb.buffer) first
          ∙ sym (append_assoc wb.buffer (joined next.done) (begun sent.left));
      queue = next.queue;
      plain = λ p. next.plain p.1;
      count = omega (
        arith,
        h.0,
        next.count,
        length-append (rest_of wb) sent.bytes,
        length-take wb.sz (drop wb.ptr wb.buffer),
        length-drop wb.ptr wb.buffer,
      );
    }

-- Whatever `write` answers, `send_list_tcp` writes the list in order and keeps the rest of it.
pub send_list-IsSent :
    (replies : List WriteReply) (list : List WriteBuffer)
    → IsQueue list
    → IsSent list (send_list replies list)
unfolding send_list
send_list-IsSent replies [] h = unsent [] false replies h
send_list-IsSent [] (wb ∷ list) h = unsent (wb ∷ list) false [] h
send_list-IsSent (WriteReply.interrupted ∷ replies) (wb ∷ list) h =
    send_list-IsSent replies (wb ∷ list) h
send_list-IsSent (WriteReply.again ∷ replies) (wb ∷ list) h = unsent (wb ∷ list) false replies h
send_list-IsSent (WriteReply.failed ∷ replies) (wb ∷ list) h = unsent (wb ∷ list) true replies h
send_list-IsSent (WriteReply.wrote k ∷ replies) (wb ∷ list) h =
    elim (Bool-cases (min k wb.sz == wb.sz)) [
      | inl e ↦ rw e (
          subst
            (λ t.
              IsSent (wb ∷ list)
                (record (send_list replies list) { bytes = t ++ (send_list replies list).bytes }))
            (sym (
              ap (λ n. take n (rest_of wb)) (==→eq (min k wb.sz) wb.sz e)
              ∙ take-take wb.sz wb.sz (drop wb.ptr wb.buffer) (omega arith)))
            (IsSent-all wb list (send_list replies list) h
              (send_list-IsSent replies list (IsQueue-fresh list h.1))))
      | inr e ↦ rw e (IsSent-part wb list k replies h)
    ]
