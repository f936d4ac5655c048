-- ===== src/Socket/Flush.antt =====
-- skynet-src/socket_server.c: `send_buffer` on a connection, whatever `write` answers.
use ctkjserver.Base.{
  ◌-◌, ◌≡◌, ◌⊎◌, inl, inr, refl, sym, ap, ap₂, ◌∙◌, subst, true, false, Option, none, some, List,
  [], ◌∷◌, ◌++◌, append-nil, length, take, All, if◌then◌else◌, if_true, if_false, Bool-cases, ◌==◌,
  ==→eq, arith,
}
use ctkjserver.Base.Slices.{joined}
use ctkjserver.Socket.{
  WriteBuffer, Socket, WriteReply, Effect, ResultType, Step, send_list, list_uncomplete,
  raise_uncomplete, close_with, is_halfclose, send_low, send_idle, send_rest, send_buffer, ◌>>=◌,
}
use ctkjserver.Socket.Send.{
  IsPlain, IsQueue, packages, begun, total, IsQueue-fresh, begun-fresh, IsSent, send_list-IsSent,
}
use ctkjserver.Socket.Stream.{
  written_of, IsOrdered, is_open, IsUp, queued, IsStart, IsKept, IsClosed, StaysNil, Kept, Steps,
  written_of-append, IsStart-begun, list_uncomplete-fresh, close_with_lem, continue_with, closed,
  untouched, over,
}

IsUp-of : (s t : Socket) → IsUp s → t.kind ≡ s.kind → IsUp t
IsUp-of s t up e = ap is_open e ∙ up

-- A connection that is closed after `effects`.
close_with-Steps :
    (t : Socket) (effects : List Effect) (replies : List WriteReply)
    → IsUp t
    → Steps false t [] effects (close_with t effects replies)
close_with-Steps t effects replies up =
    let c = close_with_lem t effects replies up in
    record {
      step = c.0;
      runs = c.1;
      out = [];
      wrote = c.4 ∙ sym (append-nil (written_of effects));
      keeps = closed t c.0.socket c.3;
      lives = over c.0.socket c.0.result c.2;
    }

send_idle-Steps :
    (s : Socket) (effects : List Effect) (replies : List WriteReply)
    → IsUp s
    → IsOrdered s
    → Steps false s [] effects (send_idle s effects replies)
unfolding send_idle
send_idle-Steps s effects replies up h =
    let effects' = effects ++ Effect.poll_write s.fd false ∷ [] in
    let wrote : written_of effects' ≡ written_of effects ++ [] =
      written_of-append effects (Effect.poll_write s.fd false ∷ []) in
    elim (Bool-cases (is_halfclose s.kind)) [
      | inr e ↦ record {
        step = _;
        runs = if_false _ _ e;
        out = [];
        wrote = wrote;
        keeps = untouched s s refl refl refl up h;
        lives = λ _. up;
      }
      | inl e ↦
          let c = close_with_lem s effects' replies up in
          record {
            step = c.0;
            runs = if_true (close_with s effects' replies) _ e ∙ c.1;
            out = [];
            wrote = c.4 ∙ wrote;
            keeps = closed s c.0.socket c.3;
            lives = over c.0.socket c.0.result c.2;
          }
    ]

-- The low list after it was sent: its head is moved up if a part of it was written.
pub settle :
    (s : Socket) (left : List WriteBuffer) (step : Socket → Step)
    → IsQueue left
    → All IsPlain left
    → s.high ≡ []
    → s.low ≡ left
    → s.wb_size ≡ total left
    → (t : Socket) × ((if list_uncomplete left
          then (raise_uncomplete s s.high left >>= λ u. some (step u))
          else some (step s))
        ≡ some (step t))
      × IsOrdered t
      × (t.kind ≡ s.kind)
      × (packages left ≡ queued t)
      × (begun left ≡ begun t.high)
      × (left ≡ [] → t.low ≡ [])
      × (t.wb_size ≡ s.wb_size)
      × (t.id ≡ s.id)
unfolding raise_uncomplete
settle s [] step q p hh hl count = (
  s,
  refl,
  record {
    high = rw hh tt;
    low = rw hl tt;
    plain = rw hl tt;
    count = rw (hh, hl) (omega (arith, count));
  },
  refl,
  rw (hh, hl) refl,
  rw hh refl,
  λ _. hl,
  refl,
  refl,
)
settle s (wb ∷ list) step q p hh hl count = elim (Bool-cases (wb.ptr == 0)) [
  | inl e ↦
      let fresh : wb.ptr ≡ 0 = ==→eq wb.ptr 0 e in
      let start : list_uncomplete (wb ∷ list) ≡ false = rw (p.0, e) refl in
      (
        s,
        if_false _ _ start,
        record {
          high = rw hh tt;
          low = rw hl ((fresh, q.0), q.1);
          plain = rw hl p;
          count = rw (hh, hl) (omega (arith, count));
        },
        refl,
        ap₂ (λ h l. packages h ++ packages l) (sym hh) (sym hl),
        ap (λ n. take n wb.buffer) fresh ∙ sym (ap begun hh),
        λ e. hl ∙ e,
        refl,
        refl,
      )
  | inr e ↦
      let start : list_uncomplete (wb ∷ list) ≡ true = rw (p.0, e) refl in
      (
        record s { high = wb ∷ []; low = list },
        if_true _ _ start ∙ ap (λ l. raise_uncomplete s l (wb ∷ list) >>= λ u. some (step u)) hh,
        record { high = (q.0, tt); low = q.1; plain = p.1; count = omega (arith, count) },
        refl,
        refl,
        refl,
        λ e. cc,
        refl,
        refl,
      )
]

send_list-nil :
    (replies : List WriteReply) (list : List WriteBuffer)
    → list ≡ []
    → (send_list replies list).left ≡ []
unfolding send_list
send_list-nil replies list e = ap (λ l. (send_list replies l).left) e

send_low-Steps :
    (s : Socket) (effects : List Effect) (replies : List WriteReply)
    → IsUp s
    → IsOrdered s
    → s.high ≡ []
    → Steps false s [] effects (send_low s effects replies)
unfolding send_low
send_low-Steps s effects replies up h hh =
    let sent = send_list replies s.low in
    let first : IsSent s.low sent = send_list-IsSent replies s.low (IsQueue-fresh s.low h.low) in
    let s' : Socket = record s { low = sent.left; wb_size = s.wb_size - length sent.bytes } in
    let effects' = effects ++ (Effect.written s.fd sent.bytes ∷ []) in
    let wrote : written_of effects' ≡ written_of effects ++ sent.bytes =
      written_of-append effects (Effect.written s.fd sent.bytes ∷ [])
      ∙ ap (◌++◌ (written_of effects)) (append-nil sent.bytes) in
    let lists : queued s ≡ first.done ++ packages sent.left =
      ap (λ l. packages l ++ packages s.low) hh ∙ first.split in
    let stream : begun s.high ++ sent.bytes ≡ joined first.done ++ begun sent.left =
      ap (λ l. begun l ++ sent.bytes) hh
      ∙ ap (λ l. l ++ sent.bytes) (sym (begun-fresh s.low h.low))
      ∙ first.stream in
    let kept : (t : Socket)
        → IsClosed s t
          ⊎ (IsKept t (packages sent.left) (begun sent.left) × StaysNil false s t × (t.id ≡ s.id))
        → Kept false s [] sent.bytes t =
      λ t k. record {
        done = first.done;
        rest = packages sent.left;
        part = begun sent.left;
        before = queued s;
        after = [];
        old = sym (append-nil (queued s));
        split = sym lists ∙ sym (append-nil (queued s));
        last = λ _. refl;
        stream = stream;
        start =
            subst (IsStart (begun sent.left)) (append-nil (packages sent.left))
              (IsStart-begun sent.left []);
        kept = k;
      } in
    elim (Bool-cases sent.broken) [
      | inl e ↦
          let c = close_with_lem s' effects' sent.replies up in
          record {
            step = c.0;
            runs = if_true (close_with s' effects' sent.replies) _ e ∙ c.1;
            out = sent.bytes;
            wrote = c.4 ∙ wrote;
            keeps = kept c.0.socket (inl c.3);
            lives = over c.0.socket c.0.result c.2;
          }
      | inr e ↦
          let step : Socket → Step = λ t. record {
            result = ResultType.quiet;
            socket = t;
            effects = effects';
            replies = sent.replies;
          } in
          let t =
            settle s' sent.left step first.queue (first.plain h.plain) hh refl
              (omega (arith, first.count, h.count, ap total hh)) in
          record {
            step = step t.0;
            runs = if_false _ _ e ∙ t.1;
            out = sent.bytes;
            wrote = wrote;
            keeps = kept t.0 (
                inr (
                  record { up = IsUp-of s t.0 up t.3; ordered = t.2; rest_eq = t.4; part_eq = t.5 },
                  λ _ e. t.6 (send_list-nil replies s.low e),
                  t.8,
                ));
            lives = λ _. IsUp-of s t.0 up t.3;
          }
    ]

send_rest-Steps :
    (s : Socket) (high low : List WriteBuffer) (effects : List Effect) (replies : List WriteReply)
    → s.high ≡ high
    → IsUp s
    → IsOrdered s
    → Steps false s [] effects (send_rest s high low effects replies)
unfolding send_rest
send_rest-Steps s [] [] effects replies hh up h = send_idle-Steps s effects replies up h
send_rest-Steps s [] (wb ∷ low) effects replies hh up h = send_low-Steps s effects replies up h hh
send_rest-Steps s (wb ∷ high) low effects replies hh up h = record {
  step = _;
  runs = refl;
  out = [];
  wrote = sym (append-nil (written_of effects));
  keeps = untouched s s refl refl refl up h;
  lives = λ _. up;
}

-- `send_buffer` on a connection: no assert fails, and the packages stay as they were queued.
pub send_buffer-Steps :
    (s : Socket) (replies : List WriteReply)
    → IsUp s
    → IsOrdered s
    → Steps false s [] [] (send_buffer s replies)
unfolding send_buffer
send_buffer-Steps s replies up h =
    let sent = send_list replies s.high in
    let first : IsSent s.high sent = send_list-IsSent replies s.high h.high in
    let s' : Socket = record s { high = sent.left; wb_size = s.wb_size - length sent.bytes } in
    let effects = Effect.written s.fd sent.bytes ∷ [] in
    let start = if_false none _ (list_uncomplete-fresh s.low h.low h.plain) in
    let go_on : (o : Option Step) → Steps false s' [] effects o → Steps false s [] [] o = λ o r.
      record {
        step = r.step;
        runs = r.runs;
        out = sent.bytes ++ r.out;
        wrote = r.wrote ∙ ap (λ l. l ++ r.out) (append-nil sent.bytes);
        keeps = continue_with s s' r.step.socket sent r.out first refl refl refl r.keeps;
        lives = r.lives;
      } in
    subst (Steps false s [] []) (sym start) (elim (Bool-cases sent.broken) [
      | inl e ↦
          subst (Steps false s [] []) (sym (if_true _ _ e)) (
            go_on (close_with s' effects sent.replies)
              (close_with-Steps s' effects sent.replies up))
      | inr e ↦ subst (Steps false s [] []) (sym (if_false _ _ e)) (
          go_on (send_rest s' sent.left s.low effects sent.replies) (
            send_rest-Steps s' sent.left s.low effects sent.replies refl up (record {
              high = first.queue;
              low = h.low;
              plain = h.plain;
              count = omega (arith, first.count, h.count);
            })))
    ])
