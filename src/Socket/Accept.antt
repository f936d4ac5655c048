-- ===== src/Socket/Accept.antt =====
-- skynet-src/socket_server.c: `send_socket` and `close_socket` on a connection.
use ctkjserver.Base.{
  ℕ, ◌≤◌, min, ◌≡◌, inl, inr, refl, sym, ap, ap₂, ◌∙◌, subst, Bool, true, false, ◌&&◌, ◌||◌, some,
  List, [], ◌∷◌, ◌++◌, append-nil, append_assoc, map-append, length, take, All-append,
  if◌then◌else◌, if_true, if_false, Bool-cases, ◌==◌, ==→eq, arith,
}
use ctkjserver.Base.Slices.{take_all}
use ctkjserver.Socket.{WriteBuffer, Socket, WriteReply}
use ctkjserver.Socket.Request.{
  Request, new_buffer, append_sendbuffer, append_sendbuffer_low, is_nil, send_buffer_empty,
  is_closed_for_send, is_connected, quietly, wrote_part, send_direct, send_socket,
}
use ctkjserver.Socket.Send.{IsFresh, IsPlain, IsQueue, packages, begun, total-append}
use ctkjserver.Socket.Stream.{
  IsOrdered, IsUp, queued, Kept, Steps, IsStart-begun, close_with_lem, untouched, over, weaken-Kept,
  weaken,
}

-- Whether a package is refused: by a socket that is closing, and by one of another id.
abbrev pub refuses : Socket → Request → Bool
refuses s request = is_closed_for_send s.kind || (if s.id == request.id then false else true)

abbrev pub accepted : Socket → Request → List (List ℕ)
accepted s request = if refuses s request then [] else request.buffer ∷ []

IsQueue-append :
    (list : List WriteBuffer) (wb : WriteBuffer)
    → IsQueue list
    → IsFresh wb
    → IsQueue (list ++ (wb ∷ []))
IsQueue-append [] wb q f = (f.1, tt)
IsQueue-append (x ∷ list) wb q f = (q.0, All-append IsFresh list (wb ∷ []) q.1 (f, tt))

begun-append :
    (list : List WriteBuffer) (wb : WriteBuffer)
    → wb.ptr ≡ 0
    → begun list ≡ begun (list ++ (wb ∷ []))
begun-append [] wb e = sym (ap (λ n. take n wb.buffer) e)
begun-append (x ∷ list) wb e = refl

packages-nil : (low : List WriteBuffer) → low ≡ [] → packages low ≡ []
packages-nil low e = ap packages e

-- A package that is queued behind those of `high`.
queue_high :
    (s : Socket) (request : Request)
    → IsUp s
    → IsOrdered s
    → Kept false s (request.buffer ∷ []) [] (append_sendbuffer s request 0)
queue_high s request up h =
    let wb = new_buffer request 0 in
    let t = append_sendbuffer s request 0 in
    let begun_eq : begun s.high ≡ begun t.high = begun-append s.high wb refl in
    record {
      done = [];
      rest = queued t;
      part = begun t.high;
      before = packages s.high;
      after = packages s.low;
      old = refl;
      split =
          ap (λ l. l ++ packages s.low) (map-append WriteBuffer.buffer s.high (wb ∷ []))
          ∙ append_assoc (packages s.high) (request.buffer ∷ []) (packages s.low);
      last = packages-nil s.low;
      stream = append-nil (begun s.high) ∙ begun_eq;
      start = IsStart-begun t.high t.low;
      kept = inr (
        record {
          up = up;
          ordered = record {
            high = IsQueue-append s.high wb h.high (refl, omega arith);
            low = h.low;
            plain = h.plain;
            count = omega (arith, h.count, total-append s.high (wb ∷ []));
          };
          rest_eq = refl;
          part_eq = refl;
        },
        λ _ e. e,
        refl,
      );
    }

queue_low :
    (s : Socket) (request : Request)
    → request.userobject ≡ false
    → IsUp s
    → IsOrdered s
    → Kept true s (request.buffer ∷ []) [] (append_sendbuffer_low s request)
queue_low s request plain up h =
    let wb = new_buffer request 0 in
    let t = append_sendbuffer_low s request in
    record {
      done = [];
      rest = queued t;
      part = begun s.high;
      before = queued s;
      after = [];
      old = sym (append-nil (queued s));
      split =
          ap (◌++◌ (packages s.high)) (map-append WriteBuffer.buffer s.low (wb ∷ []))
          ∙ sym (append_assoc (packages s.high) (packages s.low) (request.buffer ∷ []));
      last = λ _. refl;
      stream = append-nil (begun s.high);
      start = IsStart-begun t.high t.low;
      kept = inr (
        record {
          up = up;
          ordered = record {
            high = h.high;
            low = All-append IsFresh s.low (wb ∷ []) h.low ((refl, omega arith), tt);
            plain = All-append IsPlain s.low (wb ∷ []) h.plain (plain, tt);
            count = omega (arith, h.count, total-append s.low (wb ∷ []));
          };
          rest_eq = refl;
          part_eq = refl;
        },
        λ e. cc,
        refl,
      );
    }

and_left : (a b : Bool) → (a && b) ≡ true → a ≡ true
and_left true b e = refl
and_left false b e = e

nil_lists :
    (high low : List WriteBuffer) → (is_nil high && is_nil low) ≡ true → (high ≡ []) × (low ≡ [])
nil_lists [] [] e = (refl, refl)
nil_lists [] (wb ∷ low) e = cc
nil_lists (wb ∷ high) low e = cc

-- A package of which `n` bytes were written at once.
wrote_part-Steps :
    (s : Socket) (request : Request) (n : ℕ) (replies : List WriteReply)
    → n ≤ length request.buffer
    → s.high ≡ []
    → s.low ≡ []
    → IsUp s
    → IsOrdered s
    → Steps false s (request.buffer ∷ []) [] (some (wrote_part s request n replies))
unfolding wrote_part
wrote_part-Steps s request n replies l hh hl up h =
    let p = request.buffer in
    let none_queued : queued s ≡ [] = ap₂ (λ h l. packages h ++ packages l) hh hl in
    let none_begun : begun s.high ≡ [] = ap begun hh in
    elim (Bool-cases (n == length p)) [
      | inl e ↦ record {
        step = _;
        runs = ap some (if_true _ _ e);
        out = take n p;
        wrote = append-nil (take n p);
        keeps = record {
          done = p ∷ [];
          rest = [];
          part = [];
          before = [];
          after = [];
          old = none_queued;
          split = refl;
          last = λ _. refl;
          stream =
              ap (λ l. l ++ take n p) none_begun
              ∙ ap (λ k. take k p) (==→eq n (length p) e)
              ∙ take_all p
              ∙ sym (ap (λ l. l ++ []) (append-nil p) ∙ append-nil p);
          start = refl;
          kept = inr (
            record { up = up; ordered = h; rest_eq = sym none_queued; part_eq = sym none_begun },
            λ _ e. e,
            refl,
          );
        };
        lives = λ _. up;
      }
      | inr e ↦
          let wb = new_buffer request n in
          record {
            step = _;
            runs = ap some (if_false _ _ e);
            out = take n p;
            wrote = append-nil (take n p);
            keeps = record {
              done = [];
              rest = p ∷ [];
              part = take n p;
              before = [];
              after = [];
              old = none_queued;
              split = refl;
              last = λ _. refl;
              stream = ap (λ l. l ++ take n p) none_begun;
              start = (n, refl);
              kept = inr (
                record {
                  up = up;
                  ordered = record {
                    high = subst (λ l. IsQueue (l ++ (wb ∷ []))) (sym hh) (omega arith, tt);
                    low = h.low;
                    plain = h.plain;
                    count = omega (arith, h.count, total-append s.high (wb ∷ []));
                  };
                  rest_eq = sym (ap₂ (λ h l. packages (h ++ (wb ∷ [])) ++ packages l) hh hl);
                  part_eq = sym (ap (λ h. begun (h ++ (wb ∷ []))) hh);
                },
                λ _ e. e,
                refl,
              );
            };
            lives = λ _. up;
          }
    ]

send_direct-Steps :
    (s : Socket) (request : Request) (replies : List WriteReply)
    → s.high ≡ []
    → s.low ≡ []
    → IsUp s
    → IsOrdered s
    → Steps false s (request.buffer ∷ []) [] (send_direct s request replies)
unfolding send_direct
send_direct-Steps s request [] hh hl up h = wrote_part-Steps s request 0 [] (omega arith) hh hl up h
send_direct-Steps s request (WriteReply.wrote k ∷ replies) hh hl up h =
    wrote_part-Steps s request (min k (length request.buffer)) replies (omega arith) hh hl up h
send_direct-Steps s request (WriteReply.interrupted ∷ replies) hh hl up h =
    wrote_part-Steps s request 0 replies (omega arith) hh hl up h
send_direct-Steps s request (WriteReply.again ∷ replies) hh hl up h =
    wrote_part-Steps s request 0 replies (omega arith) hh hl up h
send_direct-Steps s request (WriteReply.failed ∷ replies) hh hl up h =
    let c = close_with_lem s [] replies up in
    record {
      step = c.0;
      runs = c.1;
      out = [];
      wrote = c.4;
      keeps = record {
        done = [];
        rest = request.buffer ∷ [];
        part = [];
        before = [];
        after = [];
        old = ap₂ (λ h l. packages h ++ packages l) hh hl;
        split = refl;
        last = λ _. refl;
        stream = ap (λ l. begun l ++ []) hh;
        start = (0, refl);
        kept = inl c.3;
      };
      lives = over c.0.socket c.0.result c.2;
    }

quiet-Steps :
    (is_low : Bool) (s t : Socket) (news : List (List ℕ)) (replies : List WriteReply)
    → IsUp t
    → Kept is_low s news [] t
    → Steps is_low s news [] (some (quietly t [] replies))
quiet-Steps is_low s t news replies up k = record {
  step = quietly t [] replies;
  runs = refl;
  out = [];
  wrote = refl;
  keeps = k;
  lives = λ _. up;
}

queue_either :
    (s : Socket) (request : Request) (is_low : Bool) (replies : List WriteReply)
    → (is_low ≡ true → request.userobject ≡ false)
    → IsUp s
    → IsOrdered s
    → Steps is_low s (request.buffer ∷ []) [] (
        some (
          quietly
            (if is_low then append_sendbuffer_low s request else append_sendbuffer s request 0)
            []
            replies))
queue_either s request true replies plain up h =
    quiet-Steps true s _ _ replies up (queue_low s request (plain refl) up h)
queue_either s request false replies plain up h =
    quiet-Steps false s _ _ replies up (queue_high s request up h)

-- A package for a connection is taken whole or not at all, whatever `write` answers.
pub send_socket-Steps :
    (s : Socket) (request : Request) (is_low : Bool) (replies : List WriteReply)
    → (is_low ≡ true → request.userobject ≡ false)
    → IsUp s
    → IsOrdered s
    → Steps is_low s (accepted s request) [] (send_socket s request is_low replies)
unfolding send_socket
send_socket-Steps s request is_low replies plain up h = elim (Bool-cases (refuses s request)) [
  | inl e ↦
      subst (λ news. Steps is_low s news [] (send_socket s request is_low replies))
        (sym (if_true [] _ e))
        (subst (Steps is_low s [] []) (sym (if_true _ _ e)) (
          quiet-Steps is_low s s [] replies up
            (weaken-Kept is_low s [] [] s (untouched s s refl refl refl up h))))
  | inr e ↦
      subst (λ news. Steps is_low s news [] (send_socket s request is_low replies))
        (sym (if_false [] _ e))
        (subst (Steps is_low s (request.buffer ∷ []) []) (sym (if_false _ _ e))
          (elim (Bool-cases (send_buffer_empty s && is_connected s.kind)) [
            | inl idle ↦
                let lists =
                  nil_lists s.high s.low
                    (and_left (send_buffer_empty s) (is_connected s.kind) idle) in
                subst (Steps is_low s (request.buffer ∷ []) []) (sym (if_true _ _ idle)) (
                  weaken is_low s (request.buffer ∷ []) [] (send_direct s request replies)
                    (send_direct-Steps s request replies lists.0 lists.1 up h))
            | inr busy ↦
                subst (Steps is_low s (request.buffer ∷ []) []) (sym (if_false _ _ busy))
                  (queue_either s request is_low replies plain up h)
          ]))
]
