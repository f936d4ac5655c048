-- ===== src/Socket/Reading.antt =====
-- skynet-src/socket_server.c: the events of the pool on a connection.
use ctkjserver.Base.{
  ℕ, ◌≡◌, inl, inr, refl, sym, ap, ◌∙◌, subst, Bool, true, false, Option, none, some, List, [],
  length, take, if_true, if_false, Bool-cases, ◌==◌,
}
use ctkjserver.Socket.{
  SocketType, Socket, WriteReply, ResultType, Step, is_halfclose, send_buffer, ◌>>=◌,
}
use ctkjserver.Socket.Request.{send_buffer_empty, quietly}
use ctkjserver.Socket.Receive.{
  ReadReply, Forward, close_as, next_size, silent, forward_bytes, forward_message_tcp,
  report_connect, PoolEvent, is_connecting, dispatch,
}
use ctkjserver.Socket.Stream.{
  IsOrdered, IsUp, Kept, Steps, open_lem, force_close-open, written_of-close_effects, closed,
  untouched,
}
use ctkjserver.Socket.Flush.{send_buffer-Steps}

-- The step of an event, without the bytes that it hands on.
abbrev pub stepped : Option Forward → Option Step
stepped o = o >>= λ f. some f.step

pub stepped-silent : (o : Option Step) → stepped (o >>= λ step. some (silent step)) ≡ o
stepped-silent none = refl
stepped-silent (some step) = refl

-- A change of the type and of the size of the read buffer.
renewed :
    (s t : Socket)
    → t.high ≡ s.high
    → t.low ≡ s.low
    → t.wb_size ≡ s.wb_size
    → t.id ≡ s.id
    → IsUp t
    → IsOrdered s
    → Kept false s [] [] t
renewed s t hh hl hw hi up h = untouched s t hh hl hi up (record {
  high = rw hh h.high;
  low = rw hl h.low;
  plain = rw hl h.plain;
  count = rw (hw, hh, hl) h.count;
})

close_as-Steps :
    (result : ResultType) (s : Socket) (replies : List WriteReply)
    → (result ≡ ResultType.quiet → ⊥)
    → IsUp s
    → Steps false s [] [] (close_as result s replies)
unfolding close_as
close_as-Steps result s replies loud up = record {
  step = _;
  runs =
      ap
        (λ o. o >>= λ c.
          some (record { result = result; socket = c.0; effects = c.1; replies = replies }))
        (force_close-open s up);
  out = [];
  wrote = written_of-close_effects s;
  keeps = closed s _ (refl, refl, refl, refl);
  lives = λ e. absurd (loud e);
}

report_connect-Steps :
    (s : Socket) (ok : Bool) (replies : List WriteReply)
    → IsUp s
    → IsOrdered s
    → Steps false s [] [] (report_connect s ok replies)
unfolding report_connect
report_connect-Steps s false replies up h =
    close_as-Steps ResultType.got_error s replies (λ e. cc) up
report_connect-Steps s true replies up h = record {
  step = _;
  runs = refl;
  out = [];
  wrote = elim (Bool-cases (send_buffer_empty s)) [ inl e ↦ rw e refl | inr e ↦ rw e refl ];
  keeps = renewed s (record s { kind = SocketType.connected }) refl refl refl refl refl h;
  lives = λ e. refl;
}

-- Nothing is done.
quiet-Steps :
    (s : Socket) (replies : List WriteReply)
    → IsUp s
    → IsOrdered s
    → Steps false s [] [] (some (quietly s [] replies))
quiet-Steps s replies up h = record {
  step = _;
  runs = refl;
  out = [];
  wrote = refl;
  keeps = untouched s s refl refl refl up h;
  lives = λ _. up;
}

forward_bytes-Steps :
    (s : Socket) (bytes : List ℕ) (replies : List WriteReply)
    → IsUp s
    → IsOrdered s
    → Steps false s [] [] (some (forward_bytes s bytes replies).step)
unfolding forward_bytes
forward_bytes-Steps s bytes replies up h = elim (Bool-cases (is_halfclose s.kind)) [
  | inl e ↦ record {
    step = quietly s [] replies;
    runs = ap (λ f. some (Forward.step f)) (if_true _ _ e);
    out = [];
    wrote = refl;
    keeps = untouched s s refl refl refl up h;
    lives = λ _. up;
  }
  | inr e ↦ record {
    step = _;
    runs = ap (λ f. some (Forward.step f)) (if_false _ _ e);
    out = [];
    wrote = refl;
    keeps =
        renewed s (record s { size = next_size s.size (length bytes) }) refl refl refl refl up h;
    lives = λ _. up;
  }
]

forward-Steps :
    (s : Socket) (reply : ReadReply) (replies : List WriteReply)
    → IsUp s
    → IsOrdered s
    → Steps false s [] [] (stepped (forward_message_tcp s reply replies))
unfolding forward_message_tcp
forward-Steps s ReadReply.interrupted replies up h = quiet-Steps s replies up h
forward-Steps s ReadReply.again replies up h = quiet-Steps s replies up h
forward-Steps s ReadReply.failed replies up h =
    subst (Steps false s [] []) (sym (stepped-silent (close_as ResultType.got_error s replies)))
      (close_as-Steps ResultType.got_error s replies (λ e. cc) up)
forward-Steps s (ReadReply.received bytes) replies up h =
    let got = take s.size bytes in
    elim (Bool-cases (length got == 0)) [
      | inl e ↦
          subst (λ o. Steps false s [] [] (stepped o)) (sym (if_true _ _ e))
            (subst (Steps false s [] [])
              (sym (stepped-silent (close_as ResultType.got_close s replies)))
              (close_as-Steps ResultType.got_close s replies (λ e. cc) up))
      | inr e ↦
          subst (λ o. Steps false s [] [] (stepped o)) (sym (if_false _ _ e))
            (forward_bytes-Steps s got replies up h)
    ]

-- An event of the pool on a connection: no assert fails, and what it writes is in order.
pub dispatch-Steps :
    (s : Socket) (e : PoolEvent)
    → IsUp s
    → IsOrdered s
    → Steps false s [] [] (stepped (dispatch s e))
unfolding dispatch
dispatch-Steps s e up h = elim (Bool-cases (is_connecting s.kind)) [
  | inl c ↦
      subst (λ o. Steps false s [] [] (stepped o)) (sym (if_true _ _ c))
        (subst (Steps false s [] []) (sym (stepped-silent (report_connect s e.ok e.replies)))
          (report_connect-Steps s e.ok e.replies up h))
  | inr c ↦
      subst (λ o. Steps false s [] [] (stepped o))
        (sym (if_false _ _ c ∙ if_false _ _ (open_lem s.kind up).0))
        (elim (Bool-cases e.is_read) [
          | inl r ↦
              subst (λ o. Steps false s [] [] (stepped o)) (sym (if_true _ _ r))
                (forward-Steps s e.reply e.replies up h)
          | inr r ↦
              subst (λ o. Steps false s [] [] (stepped o)) (sym (if_false _ _ r))
                (elim (Bool-cases e.is_write) [
                  | inl w ↦
                      subst (λ o. Steps false s [] [] (stepped o)) (sym (if_true _ _ w))
                        (subst (Steps false s [] [])
                          (sym (stepped-silent (send_buffer s e.replies)))
                          (send_buffer-Steps s e.replies up h))
                  | inr w ↦
                      subst (λ o. Steps false s [] [] (stepped o)) (sym (if_false _ _ w))
                        (quiet-Steps s e.replies up h)
                ])
        ])
]
