-- ===== src/Socket/Delivery.antt =====
-- skynet-src/socket_server.c: the life of a connection, as the packages that go through it.
use mathlib.Core.List.{Perm, perm_append_comm}
use mathlib.Core.List.Perm
use ctkjserver.Base.{
  ℕ, ◌≡◌, ◌⊎◌, inl, inr, refl, sym, ap, ap₂, ◌∙◌, subst, false, some, List, [], ◌∷◌, ◌++◌,
  append-nil, append_assoc, All, All-map,
}
use ctkjserver.Base.Slices.{joined, joined-append}
use ctkjserver.Socket.{SocketType, Socket, Effect, ◌>>=◌}
use ctkjserver.Socket.Send.{begun}
use ctkjserver.Socket.Stream.{
  written_of, IsOrdered, IsUp, queued, IsStart, IsKept, StaysNil, Steps, written_of-append,
  IsStart-begun,
}
use ctkjserver.Socket.Life.{
  Event, handle, run, news, taken_after, taken, is_low, IsPlainEvent, handle-Steps, run-invalid,
}

-- What was written is the packages `done`, then a part of one more: with `rest` these are the
-- packages that were taken, up to `R`; if the socket is not closed, `rest` is what is queued.
pub record Delivered (R : List (List ℕ) → List (List ℕ) → Type 0) (accepted : List (List ℕ))
    (out : List ℕ) (t : Socket) : Type 0 where
  pub done : List (List ℕ)
  pub rest : List (List ℕ)
  pub part : List ℕ
  pub split : R (done ++ rest) accepted
  pub stream : out ≡ joined done ++ part
  pub start : IsStart part rest
  pub kept : (t.kind ≡ SocketType.invalid) ⊎ IsKept t rest part

-- Both forms, for the induction.
record Runs (s : Socket) (events : List Event) : Type 0 where
  end : Socket
  effects : List Effect
  runs : run s events ≡ some (end, effects)
  done : List (List ℕ)
  rest : List (List ℕ)
  part : List ℕ
  split : Perm (done ++ rest) (queued s ++ taken s events)
  fifo : s.low ≡ [] → All (λ e. is_low e ≡ false) events → done ++ rest ≡ queued s ++ taken s events
  stream : begun s.high ++ written_of effects ≡ joined done ++ part
  start : IsStart part rest
  kept : (end.kind ≡ SocketType.invalid) ⊎ IsKept end rest part

-- The lists of a step and of the steps after it.
regroup :
    (done rest before new after t : List (List ℕ))
    → done ++ rest ≡ before ++ (new ++ after)
    → done ++ (rest ++ t) ≡ before ++ (new ++ (after ++ t))
regroup done rest before new after t e =
    sym (append_assoc done rest t)
    ∙ ap (λ l. l ++ t) e
    ∙ append_assoc before (new ++ after) t
    ∙ ap (◌++◌ before) (append_assoc new after t)

regroup-Perm :
    (before new after t : List (List ℕ))
    → Perm (before ++ (new ++ (after ++ t))) ((before ++ after) ++ (new ++ t))
regroup-Perm before new after t =
    subst (λ l. Perm (before ++ (new ++ (after ++ t))) l)
      (sym (append_assoc before after (new ++ t)))
      (Perm.append_left before (
        subst (λ l. Perm (new ++ (after ++ t)) l) (append_assoc after new t)
          (subst (λ l. Perm l ((after ++ new) ++ t)) (append_assoc new after t)
            (Perm.append_right t (perm_append_comm new after)))))

-- A step that closed the connection, and events that find it closed.
end_with :
    (s : Socket) (e : Event) (events : List Event)
    → (r : Steps (is_low e) s (news s e) [] (handle s e)) → r.step.socket.kind ≡ SocketType.invalid
    → Runs s (e ∷ events)
unfolding run taken
end_with s e events r k =
    let t = r.step.socket in
    let over = run-invalid t events k in
    let none_taken : taken s (e ∷ events) ≡ news s e =
      ap (λ o. news s e ++ taken_after o (λ t. taken t events)) r.runs
      ∙ ap (◌++◌ (news s e)) over.1
      ∙ append-nil (news s e) in
    let joins : (done rest before new after : List (List ℕ))
        → done ++ rest ≡ before ++ (new ++ after)
        → done ++ rest ≡ before ++ (new ++ (after ++ [])) =
      λ done rest before new after e.
        ap (◌++◌ done) (sym (append-nil rest)) ∙ regroup done rest before new after [] e in
    record {
      end = t;
      effects = r.step.effects ++ [];
      runs =
          ap (λ o. o >>= λ step. run step.socket events >>= λ r. some (r.0, step.effects ++ r.1))
            r.runs
          ∙ ap (λ o. o >>= λ q. some (q.0, r.step.effects ++ q.1)) over.0;
      done = r.keeps.done;
      rest = r.keeps.rest;
      part = r.keeps.part;
      split =
          subst (λ l. Perm l (queued s ++ taken s (e ∷ events)))
            (sym (
              joins r.keeps.done r.keeps.rest r.keeps.before (news s e) r.keeps.after
                r.keeps.split))
            (subst (λ l. Perm (r.keeps.before ++ (news s e ++ (r.keeps.after ++ []))) l)
              (ap₂ (◌++◌) (sym r.keeps.old) (append-nil (news s e) ∙ sym none_taken))
              (regroup-Perm r.keeps.before (news s e) r.keeps.after []));
      fifo = λ low high.
          r.keeps.split
          ∙ ap (λ l. r.keeps.before ++ (news s e ++ l)) (r.keeps.last low)
          ∙ ap₂ (◌++◌)
              (sym (
                r.keeps.old
                ∙ ap (◌++◌ r.keeps.before) (r.keeps.last low)
                ∙ append-nil r.keeps.before))
              (append-nil (news s e) ∙ sym none_taken);
      stream =
          ap (λ l. begun s.high ++ l)
            (written_of-append r.step.effects [] ∙ append-nil (written_of r.step.effects) ∙ r.wrote)
          ∙ r.keeps.stream;
      start = r.keeps.start;
      kept = inl k;
    }

-- A step that leaves the connection open, and the events after it.
go_on :
    (s : Socket) (e : Event) (events : List Event)
    → (r : Steps (is_low e) s (news s e) [] (handle s e))
    → IsKept r.step.socket r.keeps.rest r.keeps.part
    → StaysNil (is_low e) s r.step.socket
    → Runs r.step.socket events
    → Runs s (e ∷ events)
unfolding run taken
go_on s e events r live stays next =
    let t = r.step.socket in
    let k = r.keeps in
    let T = taken t events in
    let taken_eq : taken s (e ∷ events) ≡ news s e ++ T =
      ap (λ o. news s e ++ taken_after o (λ t. taken t events)) r.runs in
    let middle : k.done ++ (queued t ++ T) ≡ k.before ++ (news s e ++ (k.after ++ T)) =
      ap (λ l. k.done ++ (l ++ T)) (sym live.rest_eq)
      ∙ regroup k.done k.rest k.before (news s e) k.after T k.split in
    let wrote : written_of (r.step.effects ++ next.effects) ≡ r.out ++ written_of next.effects =
      written_of-append r.step.effects next.effects
      ∙ ap (λ l. l ++ written_of next.effects) r.wrote in
    record {
      end = next.end;
      effects = r.step.effects ++ next.effects;
      runs =
          ap (λ o. o >>= λ step. run step.socket events >>= λ r. some (r.0, step.effects ++ r.1))
            r.runs
          ∙ ap (λ o. o >>= λ q. some (q.0, r.step.effects ++ q.1)) next.runs;
      done = k.done ++ next.done;
      rest = next.rest;
      part = next.part;
      split =
          subst (λ l. Perm l (queued s ++ taken s (e ∷ events)))
            (sym (append_assoc k.done next.done next.rest))
            (Perm.trans (Perm.append_left k.done next.split) (
              subst (λ l. Perm l (queued s ++ taken s (e ∷ events))) (sym middle)
                (subst (λ l. Perm (k.before ++ (news s e ++ (k.after ++ T))) l)
                  (ap₂ (◌++◌) (sym k.old) (sym taken_eq))
                  (regroup-Perm k.before (news s e) k.after T))));
      fifo = λ low high.
          append_assoc k.done next.done next.rest
          ∙ ap (◌++◌ k.done) (next.fifo (stays high.0 low) high.1)
          ∙ middle
          ∙ ap (λ l. k.before ++ (news s e ++ (l ++ T))) (k.last low)
          ∙ ap₂ (◌++◌) (sym (k.old ∙ ap (◌++◌ k.before) (k.last low) ∙ append-nil k.before))
              (sym taken_eq);
      stream =
          ap (◌++◌ (begun s.high)) wrote
          ∙ sym (append_assoc (begun s.high) r.out (written_of next.effects))
          ∙ ap (λ l. l ++ written_of next.effects) k.stream
          ∙ append_assoc (joined k.done) k.part (written_of next.effects)
          ∙ ap (λ l. joined k.done ++ (l ++ written_of next.effects)) live.part_eq
          ∙ ap (◌++◌ (joined k.done)) next.stream
          ∙ sym (append_assoc (joined k.done) (joined next.done) next.part)
          ∙ ap (λ l. l ++ next.part) (sym (joined-append k.done next.done));
      start = next.start;
      kept = next.kept;
    }

run-Runs :
    (s : Socket) (events : List Event)
    → All IsPlainEvent events
    → IsUp s
    → IsOrdered s
    → Runs s events
unfolding run taken
run-Runs s [] plain up h = record {
  end = s;
  effects = [];
  runs = refl;
  done = [];
  rest = queued s;
  part = begun s.high;
  split = subst (λ l. Perm (queued s) l) (sym (append-nil (queued s))) (Perm.refl (queued s));
  fifo = λ low high. sym (append-nil (queued s));
  stream = append-nil (begun s.high);
  start = IsStart-begun s.high s.low;
  kept = inr (record { up = up; ordered = h; rest_eq = refl; part_eq = refl });
}
run-Runs s (e ∷ events) plain up h =
    let r = handle-Steps s e plain.0 up h in
    elim r.keeps.kept [
      | inl k ↦ end_with s e events r k.0
      | inr live ↦
          go_on s e events r live.0 live.1
            (run-Runs r.step.socket events plain.1 live.0.up live.0.ordered)
    ]

-- Whatever `write` answers, the events of a connection run without a failed assert, and what was
-- written is whole packages and then a part of one more: with those that remain they are the
-- packages that were queued or taken, each once, provided that those of low priority are not
-- objects of the host.
pub run-Delivered :
    (s : Socket) (events : List Event)
    → All IsPlainEvent events
    → IsUp s
    → IsOrdered s
    → (t : Socket) × (effects : List Effect) × (run s events ≡ some (t, effects))
      × Delivered Perm (queued s ++ taken s events) (begun s.high ++ written_of effects) t
run-Delivered s events plain up h =
    let r = run-Runs s events plain up h in
    (
      r.end,
      r.effects,
      r.runs,
      record {
        done = r.done;
        rest = r.rest;
        part = r.part;
        split = r.split;
        stream = r.stream;
        start = r.start;
        kept = r.kept;
      },
    )

IsPlainEvent-high : (e : Event) → is_low e ≡ false → IsPlainEvent e
IsPlainEvent-high (Event.send request low replies) e = λ f. cc
IsPlainEvent-high (Event.pool p) e = tt
IsPlainEvent-high (Event.close request replies) e = tt

-- If every package has high priority, they are written in the order in which they were taken.
pub run-in_order :
    (s : Socket) (events : List Event)
    → All (λ e. is_low e ≡ false) events
    → s.low ≡ []
    → IsUp s
    → IsOrdered s
    → (t : Socket) × (effects : List Effect) × (run s events ≡ some (t, effects))
      × Delivered ◌≡◌ (queued s ++ taken s events) (begun s.high ++ written_of effects) t
run-in_order s events high low up h =
    let r = run-Runs s events (All-map _ _ IsPlainEvent-high events high) up h in
    (
      r.end,
      r.effects,
      r.runs,
      record {
        done = r.done;
        rest = r.rest;
        part = r.part;
        split = r.fifo low high;
        stream = r.stream;
        start = r.start;
        kept = r.kept;
      },
    )
