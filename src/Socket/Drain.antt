-- ===== src/Socket/Drain.antt =====
-- skynet-src/socket_server.c: what is left of the lists after `write` took a byte.
use ctkjserver.Base.{
  ℕ, zero, suc, ◌+◌, ◌-◌, ◌≤◌, ◌<◌, min, ◌≡◌, ◌⊎◌, inl, inr, refl, sym, ap, ◌∙◌, subst, false,
  Option, some, List, [], ◌∷◌, ◌++◌, append-nil, length, All, if_true, if_false, Bool-cases, ◌==◌,
  ==→ne, arith,
}
use ctkjserver.Socket.{
  SocketType, WriteBuffer, Socket, WriteReply, Effect, ResultType, Step, SentList, send_list,
  is_halfclose, send_low, send_idle, send_rest,
}
use ctkjserver.Socket.Send.{packages, total, IsQueue-fresh, IsSent, send_list-IsSent}
use ctkjserver.Socket.Stream.{
  written_of, IsOrdered, is_open, queued, written_of-append, close_with_lem,
}
use ctkjserver.Socket.Flush.{settle}

abbrev pub IsFine : WriteReply → Type 0
IsFine WriteReply.failed = ⊥
IsFine _ = Unit

-- The first `write` takes a byte, and none fails.
abbrev pub IsProgress : List WriteReply → Type 0
IsProgress (WriteReply.wrote (suc k) ∷ replies) = All IsFine replies
IsProgress _ = ⊥

-- The bytes and the buffers that remain.
abbrev pub weight : List WriteBuffer → ℕ
weight list = total list + length (packages list)

abbrev pub weight_of : Socket → ℕ
weight_of s = s.wb_size + length (queued s)

-- No `write` failed, and no more is left than there was.
pub record Moves (list : List WriteBuffer) (sent : SentList) : Type 0 where
  pub sound : sent.broken ≡ false
  pub fine : All IsFine sent.replies
  pub le : weight sent.left ≤ weight list

pub send_list-Moves :
    (replies : List WriteReply) (list : List WriteBuffer)
    → All IsFine replies
    → Moves list (send_list replies list)
unfolding send_list
send_list-Moves replies [] f = record { sound = refl; fine = f; le = omega arith }
send_list-Moves [] (wb ∷ list) f = record { sound = refl; fine = tt; le = omega arith }
send_list-Moves (WriteReply.interrupted ∷ replies) (wb ∷ list) f =
    send_list-Moves replies (wb ∷ list) f.1
send_list-Moves (WriteReply.again ∷ replies) (wb ∷ list) f = record {
  sound = refl;
  fine = f.1;
  le = omega arith;
}
send_list-Moves (WriteReply.failed ∷ replies) (wb ∷ list) f = absurd f.0
send_list-Moves (WriteReply.wrote k ∷ replies) (wb ∷ list) f =
    let next = send_list-Moves replies list f.1 in
    elim (Bool-cases (min k wb.sz == wb.sz)) [
      | inl e ↦ rw e (record { sound = next.sound; fine = next.fine; le = omega (arith, next.le) })
      | inr e ↦ rw e (record { sound = refl; fine = f.1; le = omega arith })
    ]

-- A byte that is taken is progress.
pub send_list-lt :
    (replies : List WriteReply) (wb : WriteBuffer) (list : List WriteBuffer)
    → IsProgress replies
    → weight (send_list replies (wb ∷ list)).left < weight (wb ∷ list)
unfolding send_list
send_list-lt [] wb list p = absurd p
send_list-lt (WriteReply.wrote zero ∷ replies) wb list p = absurd p
send_list-lt (WriteReply.interrupted ∷ replies) wb list p = absurd p
send_list-lt (WriteReply.again ∷ replies) wb list p = absurd p
send_list-lt (WriteReply.failed ∷ replies) wb list p = absurd p
send_list-lt (WriteReply.wrote (suc k) ∷ replies) wb list p =
    let next = send_list-Moves replies list p in
    elim (Bool-cases (min (suc k) wb.sz == wb.sz)) [
      | inl e ↦ rw e (omega (arith, next.le))
      | inr e ↦ let ne = ==→ne (min (suc k) wb.sz) wb.sz e in rw e (ground arith)
    ]

pub IsProgress-IsFine : (replies : List WriteReply) → IsProgress replies → All IsFine replies
IsProgress-IsFine [] p = absurd p
IsProgress-IsFine (WriteReply.wrote zero ∷ replies) p = absurd p
IsProgress-IsFine (WriteReply.wrote (suc k) ∷ replies) p = (tt, p)
IsProgress-IsFine (WriteReply.interrupted ∷ replies) p = absurd p
IsProgress-IsFine (WriteReply.again ∷ replies) p = absurd p
IsProgress-IsFine (WriteReply.failed ∷ replies) p = absurd p

-- A step on a socket that is half closed: it is closed, and nothing was left, or it is not, and
-- the weight is less than `m`.
pub record Ends (s : Socket) (effects : List Effect) (m : ℕ) (o : Option Step) : Type 0 where
  pub step : Step
  pub runs : o ≡ some step
  pub end :
      ((step.socket.kind ≡ SocketType.invalid)
        × (s.high ≡ [])
        × (s.low ≡ [])
        × (written_of step.effects ≡ written_of effects))
      ⊎ ((step.socket.kind ≡ SocketType.halfclose) × (weight_of step.socket < m))

send_low-Ends :
    (s : Socket) (wb : WriteBuffer) (list : List WriteBuffer) (effects : List Effect)
    (replies : List WriteReply) (m : ℕ)
    → s.kind ≡ SocketType.halfclose
    → IsOrdered s
    → s.high ≡ []
    → s.low ≡ wb ∷ list
    → All IsFine replies
    → (IsProgress replies × (weight_of s ≤ m)) ⊎ (weight_of s < m)
    → Ends s effects m (send_low s effects replies)
unfolding send_low
send_low-Ends s wb list effects replies m k h hh hl f go =
    let sent = send_list replies s.low in
    let first : IsSent s.low sent = send_list-IsSent replies s.low (IsQueue-fresh s.low h.low) in
    let moves : Moves s.low sent = send_list-Moves replies s.low f in
    let s' : Socket = record s { low = sent.left; wb_size = s.wb_size - length sent.bytes } in
    let effects' = effects ++ (Effect.written s.fd sent.bytes ∷ []) in
    let step : Socket → Step = λ t. record {
      result = ResultType.quiet;
      socket = t;
      effects = effects';
      replies = sent.replies;
    } in
    let size : s.wb_size ≡ total s.low = omega (arith, h.count, ap total hh) in
    let t =
      settle s' sent.left step first.queue (first.plain h.plain) hh refl
        (omega (arith, first.count, size)) in
    let count : length (queued s) ≡ length (packages s.low) =
      ap (λ l. length (packages l ++ packages s.low)) hh in
    let less : weight sent.left < m = elim go [
      | inr l ↦ omega (arith, moves.le, size, count)
      | inl p ↦
          let lt : weight sent.left < weight s.low =
            subst (λ l. weight (send_list replies l).left < weight l) (sym hl)
              (send_list-lt replies wb list p.0) in
          omega (arith, lt, size, count, p.1)
    ] in
    record {
      step = step t.0;
      runs = if_false _ _ moves.sound ∙ t.1;
      end = inr (t.3 ∙ k, omega (arith, less, t.7, ap length t.4, first.count, size));
    }

pub send_rest-Ends :
    (s : Socket) (high low : List WriteBuffer) (effects : List Effect) (replies : List WriteReply)
    (m : ℕ)
    → s.kind ≡ SocketType.halfclose
    → IsOrdered s
    → s.high ≡ high
    → s.low ≡ low
    → All IsFine replies
    → ((high ≡ []) × IsProgress replies × (weight_of s ≤ m)) ⊎ (weight_of s < m)
    → Ends s effects m (send_rest s high low effects replies)
unfolding send_rest send_idle
send_rest-Ends s [] [] effects replies m k h hh hl f go =
    let effects' = effects ++ Effect.poll_write s.fd false ∷ [] in
    let c = close_with_lem s effects' replies (ap is_open k) in
    record {
      step = c.0;
      runs = if_true _ _ (ap is_halfclose k) ∙ c.1;
      end = inl (
        c.3.0,
        hh,
        hl,
        c.4
            ∙ written_of-append effects (Effect.poll_write s.fd false ∷ [])
            ∙ append-nil (written_of effects),
      );
    }
send_rest-Ends s [] (wb ∷ low) effects replies m k h hh hl f go =
    send_low-Ends s wb low effects replies m k h hh hl f
      (elim go [ inl p ↦ inl (p.1, p.2) | inr l ↦ inr l ])
send_rest-Ends s (wb ∷ high) low effects replies m k h hh hl f go = record {
  step = _;
  runs = refl;
  end = inr (k, elim go [ inl p ↦ cc | inr l ↦ l ]);
}
