-- ===== src/Socket/Drained.antt =====
-- skynet-src/socket_server.c: a socket that is half closed writes what it has, and is closed.
use ctkjserver.Base.{
  ℕ, ◌+◌, ◌-◌, ◌≤◌, ◌<◌, ◌≡◌, ◌⊎◌, inl, inr, refl, sym, ap, ◌∙◌, subst, true, false, Option, none,
  some, List, [], ◌∷◌, ◌++◌, map, append-nil, append_assoc, length, length-append, All, if_false,
  arith,
}
use ctkjserver.Base.Slices.{joined, joined-append}
use ctkjserver.Socket.{
  SocketType, WriteBuffer, Socket, WriteReply, Effect, Step, SentList, send_list, is_invalid,
  send_buffer, ◌>>=◌,
}
use ctkjserver.Socket.Send.{packages, begun, IsSent, send_list-IsSent}
use ctkjserver.Socket.Stream.{
  written_of, IsOrdered, is_open, IsUp, queued, IsKept, Steps, written_of-append,
  list_uncomplete-fresh,
}
use ctkjserver.Socket.Life.{Event, handle, run, run-invalid}
use ctkjserver.Socket.Flush.{send_buffer-Steps}
use ctkjserver.Socket.Receive.{ReadReply, is_connecting, dispatch}
use ctkjserver.Socket.Reading.{stepped, stepped-silent}
use ctkjserver.Socket.Drain.{
  IsProgress, weight, weight_of, Moves, send_list-Moves, send_list-lt, IsProgress-IsFine,
  send_rest-Ends,
}

List-cases :
    (list : List WriteBuffer)
    → (list ≡ []) ⊎ ((wb : WriteBuffer) × (l : List WriteBuffer) × (list ≡ wb ∷ l))
List-cases [] = inl refl
List-cases (wb ∷ list) = inr (wb, list, refl)

send_list-nil :
    (replies : List WriteReply) (list : List WriteBuffer)
    → list ≡ []
    → send_list replies list ≡ record { left = []; bytes = []; broken = false; replies = replies }
unfolding send_list
send_list-nil replies list e = ap (send_list replies) e

-- What `send_buffer` does on a half-closed socket when `write` takes a byte.
record Drains (s : Socket) (o : Option Step) : Type 0 where
  step : Step
  runs : o ≡ some step
  end :
      ((step.socket.kind ≡ SocketType.invalid)
        × (begun s.high ++ written_of step.effects ≡ joined (queued s)))
      ⊎ ((step.socket.kind ≡ SocketType.halfclose) × (weight_of step.socket < weight_of s))

send_buffer-Drains :
    (s : Socket) (replies : List WriteReply)
    → s.kind ≡ SocketType.halfclose
    → IsOrdered s
    → IsProgress replies
    → Drains s (send_buffer s replies)
unfolding send_buffer
send_buffer-Drains s replies k h p =
    let sent = send_list replies s.high in
    let first : IsSent s.high sent = send_list-IsSent replies s.high h.high in
    let moves : Moves s.high sent = send_list-Moves replies s.high (IsProgress-IsFine replies p) in
    let s' : Socket = record s { high = sent.left; wb_size = s.wb_size - length sent.bytes } in
    let effects = Effect.written s.fd sent.bytes ∷ [] in
    let before : length (queued s) ≡ length (packages s.high) + length (packages s.low) =
      length-append (packages s.high) (packages s.low) in
    let now : length (queued s') ≡ length (packages sent.left) + length (packages s.low) =
      length-append (packages sent.left) (packages s.low) in
    let go : ((sent.left ≡ []) × IsProgress sent.replies × (weight_of s' ≤ weight_of s))
        ⊎ (weight_of s' < weight_of s) =
      elim (List-cases s.high) [
        | inl e ↦
            let same = send_list-nil replies s.high e in
            inl (
              ap SentList.left same,
              subst IsProgress (sym (ap SentList.replies same)) p,
              omega (arith, moves.le, before, now, h.count, first.count),
            )
        | inr e ↦
            let lt : weight sent.left < weight s.high =
              subst (λ l. weight (send_list replies l).left < weight l) (sym e.2)
                (send_list-lt replies e.0 e.1 p) in
            inr (omega (arith, lt, before, now, h.count, first.count))
      ] in
    let r =
      send_rest-Ends s' sent.left s.low effects sent.replies (weight_of s) k
        (record {
          high = first.queue;
          low = h.low;
          plain = h.plain;
          count = omega (arith, first.count, h.count);
        })
        refl refl moves.fine go in
    record {
      step = r.step;
      runs =
          if_false none _ (list_uncomplete-fresh s.low h.low h.plain)
          ∙ if_false _ _ moves.sound
          ∙ r.runs;
      end = elim r.end [
        | inr live ↦ inr live
        | inl over ↦ inl (
          over.0,
          ap (◌++◌ (begun s.high)) (over.3 ∙ append-nil sent.bytes)
              ∙ first.stream
              ∙ ap (λ l. joined first.done ++ begun l) over.1
              ∙ append-nil (joined first.done)
              ∙ ap joined (sym (append-nil first.done))
              ∙ ap (λ l. joined (first.done ++ packages l)) (sym over.1)
              ∙ ap joined (sym first.split ∙ sym (append-nil (packages s.high)))
              ∙ ap (λ l. joined (packages s.high ++ packages l)) (sym over.2),
        )
      ];
    }

kind_ne : (t : Socket) → t.kind ≡ SocketType.invalid → t.kind ≡ SocketType.halfclose → ⊥
kind_ne t e f = cc

some_inj : {a b : Step} → ◌≡◌ {A = Option Step} (some a) (some b) → a ≡ b
some_inj e = cc

live_of :
    {s : Socket} {o : Option Step} (r : Steps false s [] [] o)
    → r.step.socket.kind ≡ SocketType.halfclose
    → IsKept r.step.socket r.keeps.rest r.keeps.part
live_of r k = elim r.keeps.kept [ inl e ↦ absurd (kind_ne r.step.socket e.0 k) | inr live ↦ live.0 ]

-- The bytes of a step and of the steps after it.
drained :
    (s t : Socket) (done rest : List (List ℕ)) (part : List ℕ) (effects : List Effect)
    (out : List ℕ) (next : List Effect)
    → written_of effects ≡ out
    → IsKept t rest part
    → begun s.high ++ out ≡ joined done ++ part
    → done ++ rest ≡ queued s
    → begun t.high ++ written_of next ≡ joined (queued t)
    → begun s.high ++ written_of (effects ++ next) ≡ joined (queued s)
drained s t done rest part effects out next wrote kept stream split after =
    ap (◌++◌ (begun s.high)) (written_of-append effects next ∙ ap (λ l. l ++ written_of next) wrote)
    ∙ sym (append_assoc (begun s.high) out (written_of next))
    ∙ ap (λ l. l ++ written_of next) stream
    ∙ append_assoc (joined done) part (written_of next)
    ∙ ap (λ l. joined done ++ (l ++ written_of next)) kept.part_eq
    ∙ ap (◌++◌ (joined done)) (after ∙ ap joined (sym kept.rest_eq))
    ∙ sym (joined-append done rest)
    ∙ ap joined split

-- The event that the socket can be written.
abbrev pub writable : List WriteReply → Event
writable replies = Event.pool (record {
  is_read = false;
  is_write = true;
  ok = true;
  reply = ReadReply.again;
  replies = replies;
})

-- A half-closed socket that can be written as often as it has bytes and buffers, once more, and
-- each time takes a byte and does not fail, has written all that was queued and is closed.
pub run-drains :
    (s : Socket) (rounds : List (List WriteReply))
    → All IsProgress rounds
    → s.kind ≡ SocketType.halfclose
    → IsOrdered s
    → weight_of s < length rounds
    → (t : Socket) × (effects : List Effect) × (run s (map writable rounds) ≡ some (t, effects))
      × (t.kind ≡ SocketType.invalid)
      × (begun s.high ++ written_of effects ≡ joined (queued s))
unfolding run handle dispatch
run-drains s [] p k h l = absurd (omega arith)
run-drains s (replies ∷ rounds) p k h l =
    let up : IsUp s = ap is_open k in
    let next = map writable rounds in
    let r = send_buffer-Steps s replies up h in
    let d = send_buffer-Drains s replies k h p.0 in
    let same : d.step ≡ r.step = some_inj (sym d.runs ∙ r.runs) in
    let first : handle s (writable replies) ≡ some d.step =
      ap stepped (if_false _ _ (ap is_connecting k) ∙ if_false _ _ (ap is_invalid k))
      ∙ stepped-silent (send_buffer s replies)
      ∙ d.runs in
    let runs : (t : Socket) (effects : List Effect)
        → run d.step.socket next ≡ some (t, effects)
        → run s (writable replies ∷ next) ≡ some (t, d.step.effects ++ effects) =
      λ t effects e.
        ap (λ o. o >>= λ step. run step.socket next >>= λ r. some (r.0, step.effects ++ r.1)) first
        ∙ ap (λ o. o >>= λ q. some (q.0, d.step.effects ++ q.1)) e in
    elim d.end [
      | inl over ↦ (
        d.step.socket,
        d.step.effects ++ [],
        runs d.step.socket [] (run-invalid d.step.socket next over.0).0,
        over.0,
        ap (λ l. begun s.high ++ written_of l) (append-nil d.step.effects) ∙ over.1,
      )
      | inr live ↦
          let kept = live_of r (ap (λ q. q.socket.kind) (sym same) ∙ live.0) in
          let t = r.step.socket in
          let rest =
            run-drains t rounds p.1 (ap (λ q. q.socket.kind) (sym same) ∙ live.0) kept.ordered
              (omega (arith, ap (λ q. weight_of q.socket) same, live.1)) in
          (
            rest.0,
            d.step.effects ++ rest.1,
            runs rest.0 rest.1 (ap (λ q. run q.socket next) same ∙ rest.2),
            rest.3,
            ap (λ q. begun s.high ++ written_of (q.effects ++ rest.1)) same
                ∙ drained s t r.keeps.done r.keeps.rest r.keeps.part r.step.effects r.out rest.1
                    r.wrote kept r.keeps.stream (r.keeps.split ∙ sym r.keeps.old) rest.4,
          )
    ]
