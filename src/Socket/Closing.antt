-- ===== src/Socket/Closing.antt =====
-- skynet-src/socket_server.c: `close_socket` on a connection.
use ctkjserver.Base.{
  ℕ, ◌≡◌, inl, inr, refl, sym, ap, ◌∙◌, subst, true, false, ◌||◌, Option, some, List, [],
  if◌then◌else◌, if_true, if_false, Bool-cases, ◌==◌,
}
use ctkjserver.Socket.{SocketType, Socket, WriteReply, ResultType, Step, send_buffer, ◌>>=◌}
use ctkjserver.Socket.Request.{
  is_quiet, send_buffer_empty, quietly, CloseRequest, finish_close, close_socket,
}
use ctkjserver.Socket.Stream.{
  IsOrdered, is_open, IsUp, open_lem, IsClosed, Kept, Steps, close_with_lem, untouched, over,
}
use ctkjserver.Socket.Flush.{send_buffer-Steps}

not_both : (t : Socket) → t.kind ≡ SocketType.invalid → IsUp t → ⊥
not_both t e up = let open_eq = ap is_open e in cc

-- A socket of which only the type changes.
retyped :
    (s t : Socket) (news : List (List ℕ)) (out : List ℕ)
    → Kept false s news out t
    → IsUp t
    → Kept false s news out (record t { kind = SocketType.halfclose })
retyped s t news out k up = record {
  done = k.done;
  rest = k.rest;
  part = k.part;
  before = k.before;
  after = k.after;
  old = k.old;
  split = k.split;
  last = k.last;
  stream = k.stream;
  start = k.start;
  kept = inr (elim k.kept [
    | inl e ↦ absurd (not_both t e.0 up)
    | inr live ↦ (
      record {
        up = refl;
        ordered = record {
          high = live.0.ordered.high;
          low = live.0.ordered.low;
          plain = live.0.ordered.plain;
          count = live.0.ordered.count;
        };
        rest_eq = live.0.rest_eq;
        part_eq = live.0.part_eq;
      },
      live.1,
      live.2,
    )
  ]);
}

killed :
    (s t u : Socket) (news : List (List ℕ)) (out : List ℕ)
    → Kept false s news out t
    → IsClosed t u
    → Kept false s news out u
killed s t u news out k e = record {
  done = k.done;
  rest = k.rest;
  part = k.part;
  before = k.before;
  after = k.after;
  old = k.old;
  split = k.split;
  last = k.last;
  stream = k.stream;
  start = k.start;
  kept = inl (e.0, e.1, e.2, e.3 ∙ elim k.kept [ inl c ↦ c.3 | inr live ↦ live.2 ]);
}

is_quiet-eq : (r : ResultType) → is_quiet r ≡ true → r ≡ ResultType.quiet
is_quiet-eq ResultType.quiet e = refl
is_quiet-eq ResultType.got_data e = cc
is_quiet-eq ResultType.got_close e = cc
is_quiet-eq ResultType.got_open e = cc
is_quiet-eq ResultType.got_accept e = cc
is_quiet-eq ResultType.got_error e = cc
is_quiet-eq ResultType.got_exit e = cc

-- What is done after `send_buffer`, or after nothing.
finish_close-Steps :
    (s : Socket) (request : CloseRequest) (o : Option Step)
    → Steps false s [] [] o
    → Steps false s [] [] (o >>= finish_close request)
unfolding finish_close
finish_close-Steps s request o r =
    subst (λ o. Steps false s [] [] (o >>= finish_close request)) (sym r.runs)
      (elim (Bool-cases (is_quiet r.step.result)) [
        | inr e ↦ subst (Steps false s [] []) (sym (if_false _ _ e)) (record {
          step = r.step;
          runs = refl;
          out = r.out;
          wrote = r.wrote;
          keeps = r.keeps;
          lives = r.lives;
        })
        | inl e ↦
            let up = r.lives (is_quiet-eq r.step.result e) in
            subst (Steps false s [] []) (sym (if_true _ _ e))
              (elim (Bool-cases (request.shutdown || send_buffer_empty r.step.socket)) [
                | inl f ↦
                    let c = close_with_lem r.step.socket r.step.effects r.step.replies up in
                    record {
                      step = c.0;
                      runs = if_true _ _ f ∙ c.1;
                      out = r.out;
                      wrote = c.4 ∙ r.wrote;
                      keeps = killed s r.step.socket c.0.socket [] r.out r.keeps c.3;
                      lives = over c.0.socket c.0.result c.2;
                    }
                | inr f ↦ record {
                  step = _;
                  runs = if_false _ _ f;
                  out = r.out;
                  wrote = r.wrote;
                  keeps = retyped s r.step.socket [] r.out r.keeps up;
                  lives = λ _. refl;
                }
              ])
      ])

-- `close_socket` on a connection: no assert fails, and what it writes is in order.
pub close_socket-Steps :
    (s : Socket) (request : CloseRequest) (replies : List WriteReply)
    → IsUp s
    → IsOrdered s
    → Steps false s [] [] (close_socket s request replies)
unfolding close_socket
close_socket-Steps s request replies up h =
    subst (Steps false s [] [])
      (ap
        (λ b.
          if b || (if s.id == request.id then false else true)
          then some (record {
            result = ResultType.got_close;
            socket = s;
            effects = [];
            replies = replies;
          })
          else (if send_buffer_empty s
              then finish_close request (quietly s [] replies)
              else (send_buffer s replies >>= finish_close request)))
        (sym (open_lem s.kind up).0))
      (elim (Bool-cases (s.id == request.id)) [
        | inr e ↦
            subst (Steps false s [] []) (sym (if_true _ _ (ap (λ t. if t then false else true) e)))
              (record {
                step = _;
                runs = refl;
                out = [];
                wrote = refl;
                keeps = untouched s s refl refl refl up h;
                lives = λ _. up;
              })
        | inl e ↦
            subst (Steps false s [] []) (sym (if_false _ _ (ap (λ t. if t then false else true) e)))
              (elim (Bool-cases (send_buffer_empty s)) [
                | inl f ↦ subst (Steps false s [] []) (sym (if_true _ _ f)) (
                    finish_close-Steps s request (some (quietly s [] replies)) (record {
                      step = _;
                      runs = refl;
                      out = [];
                      wrote = refl;
                      keeps = untouched s s refl refl refl up h;
                      lives = λ _. up;
                    }))
                | inr f ↦ subst (Steps false s [] []) (sym (if_false _ _ f)) (
                    finish_close-Steps s request (send_buffer s replies)
                      (send_buffer-Steps s replies up h))
              ])
      ])
