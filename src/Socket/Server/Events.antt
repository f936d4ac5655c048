-- ===== src/Socket/Server/Events.antt =====
-- skynet-src/socket_server.c: every event of the pool keeps the table of the sockets in order.
use ctkjserver.Base.{
  ℕ, ◌<◌, ◌≡◌, ◌⊎◌, inl, inr, refl, sym, ap, ◌∙◌, subst, true, false, Option, none, some, List, [],
  length, if_true, if_false, Bool-cases,
}
use native.Mathlib.Nat.{mod-eq_of_lt}
use ctkjserver.Base.Arrays.{update_self}
use ctkjserver.Socket.{SocketType, Socket, WriteReply, Step, is_invalid, is_reserve, ◌>>=◌}
use ctkjserver.Socket.Receive.{Forward, PoolEvent, is_connecting, dispatch}
use ctkjserver.Socket.Stream.{is_open, open_lem}
use ctkjserver.Socket.Reading.{stepped, dispatch-Steps}
use ctkjserver.Socket.Server.{max_socket, no_fd, hash_id, Server, store, new_fd}
use ctkjserver.Socket.Server.Control.{
  outcome_of, AcceptReply, accept_as, accept_reserved, report_accept, is_listen, pool_event,
}
use ctkjserver.Socket.Server.Reserve.{reserved_at, reserve_id_cases}
use ctkjserver.Socket.Server.Slots.{
  is_pending, IsSlot, IsServer, IsFrame, store-IsServer, store-IsFrame, Steps-IsSlot,
}
use ctkjserver.Socket.Server.Open.{
  Serves, IsReserved, IsFrame-trans, store_new, new_fd-Places, after_new_fd, hash_id-lt,
}
use ctkjserver.Socket.Server.Commands.{stored, unchanged}

invalid-open : (k : SocketType) → is_invalid k ≡ true → is_open k ≡ false
invalid-open SocketType.invalid e = refl
invalid-open SocketType.reserve e = refl
invalid-open SocketType.plisten e = refl
invalid-open SocketType.listen e = refl
invalid-open SocketType.connecting e = sym e
invalid-open SocketType.connected e = sym e
invalid-open SocketType.halfclose e = sym e
invalid-open SocketType.paccept e = refl
invalid-open SocketType.bind e = sym e

-- The slot of an id that was just reserved.
pub reserved-IsServer :
    (ss : Server) (id : ℕ)
    → IsServer ss
    → is_invalid (ss.slot (hash_id id)).kind ≡ true
    → IsServer (reserved_at ss id)
reserved-IsServer ss id h free =
    let s = ss.slot (hash_id id) in
    let k = h (hash_id id) (hash_id-lt id) in
    let lists = k.bare (invalid-open s.kind free) in
    store-IsServer (record ss { alloc_id = id }) id
      (record s { kind = SocketType.reserve; id = id; fd = no_fd }) h
      (record { ordered = λ e. cc; bare = λ _. lists; count = λ e. cc; home = λ _. refl })

-- `report_accept` changes no slot but that of the id that it reserves.
report_accept-Serves :
    (ss : Server) (s : Socket) (reply : AcceptReply) (replies : List WriteReply)
    → IsServer ss
    → (j : ℕ) × Serves j ss (report_accept ss s reply replies)
unfolding report_accept
report_accept-Serves ss s AcceptReply.file_limit replies h = (0, unchanged 0 ss _ _ h refl refl)
report_accept-Serves ss s AcceptReply.failed replies h = (0, unchanged 0 ss _ _ h refl refl)
report_accept-Serves ss s (AcceptReply.accepted fd) replies h =
    let goal =
      λ (j : ℕ) (r : Option ℕ × Server). Serves j ss (accept_reserved r.1 s fd replies r.0) in
    elim (reserve_id_cases ss) [
      | inr m ↦ (
        0,
        subst (goal 0) (sym m.1)
            (record { outcome = _; runs = refl; serves = h; frame = λ i ne. refl }),
      )
      | inl f ↦
          let id = f.0 in
          let rs = reserved_at ss id in
          let first : IsFrame (hash_id id) ss rs =
            store-IsFrame (record ss { alloc_id = id }) id
              (record (ss.slot (hash_id id)) { kind = SocketType.reserve; id = id; fd = no_fd }) in
          let is_reserved : IsReserved rs id =
            ap (λ t. is_reserve (Socket.kind t)) (update_self ss.slot (hash_id id) _) in
          let r =
            after_new_fd rs id (new_fd rs id fd s.opaque false true) (accept_as s id fd replies)
              (new_fd-Places rs id fd s.opaque false true (reserved-IsServer ss id h f.2)
                (hash_id-lt id) is_reserved)
              (λ p h f bare. (h, f))
              (λ p t h f n.
                store_new rs p.server id (record t { kind = SocketType.paccept }) h f n) in
          (
            hash_id id,
            subst (goal (hash_id id)) (sym f.1) (record {
              outcome = r.outcome;
              runs = r.runs;
              serves = r.serves;
              frame = IsFrame-trans (hash_id id) ss rs r.outcome.server first r.frame;
            }),
          )
    ]

stepped_inv :
    (o : Option Forward) (step : Step)
    → stepped o ≡ some step
    → (f : Forward) × (o ≡ some f) × (f.step ≡ step)
stepped_inv none step e = cc
stepped_inv (some f) step e = (f, refl, cc)

-- The sockets that an event of the pool can be about: those in the pool, and those just closed.
abbrev pub IsPolled : SocketType → Type 0
IsPolled k = (is_pending k ≡ false) × (is_reserve k ≡ false)

polled_lem :
    (k : SocketType)
    → IsPolled k
    → is_listen k ≡ false
    → (is_open k ≡ true) ⊎ (k ≡ SocketType.invalid)
polled_lem SocketType.invalid p e = inr refl
polled_lem SocketType.reserve p e = let f = p.1 in cc
polled_lem SocketType.plisten p e = let f = p.0 in cc
polled_lem SocketType.listen p e = cc
polled_lem SocketType.connecting p e = inl refl
polled_lem SocketType.connected p e = inl refl
polled_lem SocketType.halfclose p e = inl refl
polled_lem SocketType.paccept p e = let f = p.0 in cc
polled_lem SocketType.bind p e = inl refl

-- Every event of the pool, whatever the system answers, runs without a failed assert, keeps the table
-- in order and changes one slot at most, provided that it is about a socket that is in the pool, or
-- was before it was closed.
pub pool_event-Serves :
    (ss : Server) (index : ℕ) (e : PoolEvent) (reply : AcceptReply)
    → IsServer ss
    → index < max_socket
    → IsPolled (ss.slot index).kind
    → (j : ℕ) × Serves j ss (pool_event ss index e reply)
unfolding pool_event dispatch
pool_event-Serves ss index e reply h l p =
    let s = ss.slot index in
    let k = h index l in
    let own : hash_id index ≡ index = mod-eq_of_lt l in
    let after = λ (o : Option Forward).
      o >>= λ f. some (outcome_of ss index s.id s.opaque (length f.data_of) f.step) in
    elim (Bool-cases (is_listen s.kind)) [
      | inl c ↦
          let r = report_accept-Serves ss s reply e.replies h in
          (r.0, subst (Serves r.0 ss) (sym (if_true _ _ c)) r.1)
      | inr c ↦ (
        hash_id index,
        elim (polled_lem s.kind p c) [
          | inl up ↦
              let r = dispatch-Steps s e up (k.ordered up) in
              let f = stepped_inv (dispatch s e) r.step r.runs in
              stored ss index r.step.socket _ _ h
                (Steps-IsSlot false (hash_id index) s [] [] _ r up
                  (k.home (open_lem s.kind up).0 ∙ sym own))
                (ap (λ q. store ss index (Step.socket q)) f.2) (if_false _ _ c ∙ ap after f.1)
          | inr gone ↦ stored ss index s _ _ h (subst (λ i. IsSlot i s) (sym own) k) refl (
              if_false _ _ c
              ∙ ap after (if_false _ _ (ap is_connecting gone) ∙ if_true _ _ (ap is_invalid gone)))
        ],
      )
    ]
