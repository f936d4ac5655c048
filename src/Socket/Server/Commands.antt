-- ===== src/Socket/Server/Commands.antt =====
-- skynet-src/socket_server.c: every request keeps the table of the sockets in order.
use ctkjserver.Base.{
  ℕ, ◌≡◌, ◌⊎◌, inl, inr, refl, sym, ap, ap₂, ◌∙◌, subst, Bool, true, false, ◌&&◌, ◌||◌, Option,
  none, some, List, [], if◌then◌else◌, if_true, if_false, Bool-cases, ◌==◌,
}
use ctkjserver.Socket.{
  SocketType, Socket, WriteReply, ResultType, Step, close_effects, is_invalid, is_reserve,
  force_close, close_with, ◌>>=◌,
}
use ctkjserver.Socket.Request.{
  Request, is_nil, send_buffer_empty, is_closed_for_send, is_connected, quietly, send_socket,
  CloseRequest, finish_close, close_socket,
}
use ctkjserver.Socket.Stream.{IsOrdered, is_open, open_lem}
use ctkjserver.Socket.Accept.{accepted, send_socket-Steps}
use ctkjserver.Socket.Closing.{close_socket-Steps}
use ctkjserver.Socket.Server.{
  hash_id, Server, store, Outcome, StartRequest, start_as, is_paccept, is_plisten, start_socket,
}
use ctkjserver.Socket.Server.Control.{
  Command, outcome_of, send_to, close_opaque, close_id, ctrl_cmd,
}
use ctkjserver.Socket.Server.Slots.{
  is_pending, IsSlot, IsServer, IsFrame, store-IsServer, store-IsFrame, Steps-IsSlot, fresh-IsSlot,
  invalid-IsSlot,
}
use ctkjserver.Socket.Server.Open.{
  Serves, IsReserved, hash_id-lt, listen_socket-Serves, bind_socket-Serves, open_socket-Serves,
}

-- The socket of an id is not one that is only reserved: its owner has no use of it yet.
abbrev pub IsUsable : Server → ℕ → Type 0
IsUsable ss id = let s = ss.slot (hash_id id) in (is_reserve s.kind && (s.id == id)) ≡ false

-- What a request relies on: an id that is opened is reserved, an id that is used is not, and a
-- package of low priority is not an object of the host.
abbrev pub IsValid : Server → Command → Type 0
IsValid ss (Command.start request added) = Unit
IsValid ss (Command.bind request added) = IsReserved ss request.id
IsValid ss (Command.listen request) = IsReserved ss request.id
IsValid ss (Command.close request) = IsUsable ss request.id
IsValid ss (Command.connect request added) = IsReserved ss request.id
IsValid ss Command.exit = Unit
IsValid ss (Command.send_high request) = IsUsable ss request.id
IsValid ss (Command.send_low request) = IsUsable ss request.id × (request.userobject ≡ false)
IsValid ss Command.set_option = Unit

-- The slot that a request may change; some change none.
abbrev pub slot_of : Command → ℕ
slot_of (Command.start request added) = hash_id request.id
slot_of (Command.bind request added) = hash_id request.id
slot_of (Command.listen request) = hash_id request.id
slot_of (Command.close request) = hash_id request.id
slot_of (Command.connect request added) = hash_id request.id
slot_of Command.exit = 0
slot_of (Command.send_high request) = hash_id request.id
slot_of (Command.send_low request) = hash_id request.id
slot_of Command.set_option = 0

-- An outcome that stores a socket.
pub stored :
    (ss : Server) (id : ℕ) (t : Socket) (outcome : Outcome) (o : Option Outcome)
    → IsServer ss
    → IsSlot (hash_id id) t
    → outcome.server ≡ store ss id t
    → o ≡ some outcome
    → Serves (hash_id id) ss o
stored ss id t outcome o h k e runs = record {
  outcome = outcome;
  runs = runs;
  serves = subst IsServer (sym e) (store-IsServer ss id t h k);
  frame = subst (IsFrame (hash_id id) ss) (sym e) (store-IsFrame ss id t);
}

-- An outcome that changes nothing.
pub unchanged :
    (j : ℕ) (ss : Server) (outcome : Outcome) (o : Option Outcome)
    → IsServer ss
    → outcome.server ≡ ss
    → o ≡ some outcome
    → Serves j ss o
unchanged j ss outcome o h e runs = record {
  outcome = outcome;
  runs = runs;
  serves = subst IsServer (sym e) h;
  frame = subst (IsFrame j ss) (sym e) (λ i ne. refl);
}

reordered :
    (s t : Socket)
    → t.high ≡ s.high
    → t.low ≡ s.low
    → t.wb_size ≡ s.wb_size
    → IsOrdered s
    → IsOrdered t
reordered s t hh hl hw h = record {
  high = rw hh h.high;
  low = rw hl h.low;
  plain = rw hl h.plain;
  count = rw (hw, hh, hl) h.count;
}

pending_lem :
    (k : SocketType)
    → (is_paccept k || is_plisten k) ≡ true
    → (is_pending k ≡ true) × (is_open k ≡ false) × (is_invalid k ≡ false)
pending_lem SocketType.invalid e = cc
pending_lem SocketType.reserve e = cc
pending_lem SocketType.plisten e = (refl, refl, refl)
pending_lem SocketType.listen e = cc
pending_lem SocketType.connecting e = cc
pending_lem SocketType.connected e = cc
pending_lem SocketType.halfclose e = cc
pending_lem SocketType.paccept e = (refl, refl, refl)
pending_lem SocketType.bind e = cc

start_as-Serves :
    (ss : Server) (request : StartRequest) (started : SocketType) (added : Bool)
    (replies : List WriteReply) (o : Option Outcome)
    → IsServer ss
    → ((ss.slot (hash_id request.id)).high ≡ []) × ((ss.slot (hash_id request.id)).low ≡ [])
    → (ss.slot (hash_id request.id)).wb_size ≡ 0
    → hash_id (ss.slot (hash_id request.id)).id ≡ hash_id request.id
    → o ≡ some (start_as ss request started added replies)
    → Serves (hash_id request.id) ss o
start_as-Serves ss request started true replies o h bare count home runs =
    let s = ss.slot (hash_id request.id) in
    let t = record s { kind = started; opaque = request.opaque } in
    stored ss request.id t _ o h (subst (λ i. IsSlot i t) home (fresh-IsSlot t bare.0 bare.1 count))
      refl runs
start_as-Serves ss request started false replies o h bare count home runs =
    let s = ss.slot (hash_id request.id) in
    let t = record s { kind = SocketType.invalid } in
    stored ss request.id t _ o h (invalid-IsSlot (hash_id request.id) t refl bare.0 bare.1) refl
      runs

start_socket-Serves :
    (ss : Server) (request : StartRequest) (added : Bool) (replies : List WriteReply)
    → IsServer ss
    → Serves (hash_id request.id) ss (start_socket ss request added replies)
unfolding start_socket
start_socket-Serves ss request added replies h =
    let s = ss.slot (hash_id request.id) in
    let k = h (hash_id request.id) (hash_id-lt request.id) in
    elim (Bool-cases (is_invalid s.kind || (if s.id == request.id then false else true))) [
      | inl e ↦ unchanged _ ss _ _ h refl (if_true _ _ e)
      | inr e ↦ elim (Bool-cases (is_paccept s.kind || is_plisten s.kind)) [
        | inl p ↦
            start_as-Serves ss request
              (if is_paccept s.kind then SocketType.connected else SocketType.listen) added replies
              _ h (k.bare (pending_lem s.kind p).1) (k.count (pending_lem s.kind p).0)
              (k.home (pending_lem s.kind p).2) (if_false _ _ e ∙ if_true _ _ p)
        | inr p ↦ elim (Bool-cases (is_connected s.kind)) [
          | inr c ↦ unchanged _ ss _ _ h refl (if_false _ _ e ∙ if_false _ _ p ∙ if_false _ _ c)
          | inl c ↦
              stored ss request.id (record s { opaque = request.opaque }) _ _ h
                (record {
                  ordered = λ o.
                      reordered s (record s { opaque = request.opaque }) refl refl refl
                        (k.ordered o);
                  bare = k.bare;
                  count = k.count;
                  home = k.home;
                })
                refl (if_false _ _ e ∙ if_false _ _ p ∙ if_true _ _ c)
        ]
      ]
    ]

shut_lem :
    (k : SocketType) → is_open k ≡ false → (is_closed_for_send k ≡ true) ⊎ (is_reserve k ≡ true)
shut_lem SocketType.invalid e = inl refl
shut_lem SocketType.reserve e = inr refl
shut_lem SocketType.plisten e = inl refl
shut_lem SocketType.listen e = inl refl
shut_lem SocketType.connecting e = cc
shut_lem SocketType.connected e = cc
shut_lem SocketType.halfclose e = cc
shut_lem SocketType.paccept e = inl refl
shut_lem SocketType.bind e = cc

-- A socket that is not open refuses a package.
shut_refuses :
    (ss : Server) (id : ℕ)
    → IsUsable ss id
    → is_open (ss.slot (hash_id id)).kind ≡ false
    → (is_closed_for_send (ss.slot (hash_id id)).kind
        || (if (ss.slot (hash_id id)).id == id then false else true))
      ≡ true
shut_refuses ss id usable shut =
    let s = ss.slot (hash_id id) in
    elim (shut_lem s.kind shut) [
      | inl e ↦ ap (λ b. b || (if s.id == id then false else true)) e
      | inr e ↦
          let ne : (s.id == id) ≡ false = sym (ap (λ b. b && (s.id == id)) e) ∙ usable in
          elim (Bool-cases (is_closed_for_send s.kind)) [
            | inl c ↦ rw c refl
            | inr c ↦ rw (c, ne) refl
          ]
    ]

send_to-Serves :
    (ss : Server) (request : Request) (is_low : Bool) (replies : List WriteReply)
    → IsServer ss
    → IsUsable ss request.id
    → (is_low ≡ true → request.userobject ≡ false)
    → Serves (hash_id request.id) ss (send_to ss request is_low replies)
unfolding send_to send_socket
send_to-Serves ss request is_low replies h usable plain =
    let s = ss.slot (hash_id request.id) in
    let k = h (hash_id request.id) (hash_id-lt request.id) in
    elim (Bool-cases (is_open s.kind)) [
      | inl up ↦
          let r = send_socket-Steps s request is_low replies plain up (k.ordered up) in
          let home = k.home (open_lem s.kind up).0 in
          stored ss request.id r.step.socket _ _ h
            (Steps-IsSlot is_low (hash_id request.id) s (accepted s request) [] _ r up home) refl
            (ap (λ o. o >>= λ step. some (outcome_of ss request.id s.id s.opaque 0 step)) r.runs)
      | inr shut ↦ stored ss request.id s _ _ h k refl (
          ap (λ o. o >>= λ step. some (outcome_of ss request.id s.id s.opaque 0 step))
            (if_true (some (quietly s [] replies)) _ (shut_refuses ss request.id usable shut)))
    ]

or_true : (a b : Bool) → b ≡ true → (a || b) ≡ true
or_true true b e = refl
or_true false b e = e

or_false : (a b : Bool) → (a || b) ≡ false → (a ≡ false) × (b ≡ false)
or_false true b e = cc
or_false false b e = (refl, e)

is_equal : (a b : ℕ) → (if a == b then false else true) ≡ false → (a == b) ≡ true
is_equal a b e = elim (Bool-cases (a == b)) [
  | inl f ↦ f
  | inr f ↦ let ne : true ≡ false = sym (if_false false true f) ∙ e in cc
]

-- A socket that is not open has nothing to send, and is closed at once.
close_shut :
    (s : Socket) (request : CloseRequest) (replies : List WriteReply)
    → is_invalid s.kind ≡ false
    → is_reserve s.kind ≡ false
    → s.high ≡ []
    → s.low ≡ []
    → (s.id == request.id) ≡ true
    → (step : Step) × (close_socket s request replies ≡ some step)
      × (step.socket ≡ record s { high = []; low = []; kind = SocketType.invalid })
unfolding close_socket finish_close close_with force_close
close_shut s request replies valid owned hh hl id =
    let empty : send_buffer_empty s ≡ true = ap₂ (λ a b. is_nil a && is_nil b) hh hl in
    (
      record {
        result = ResultType.got_close;
        socket = record s { high = []; low = []; kind = SocketType.invalid };
        effects = close_effects s;
        replies = replies;
      },
      if_false _ _ (ap₂ (λ a b. a || (if b then false else true)) valid id)
          ∙ if_true _ _ empty
          ∙ if_true _ _ (or_true request.shutdown (send_buffer_empty s) empty)
          ∙ ap
              (λ o. o >>= λ c. some (record {
                result = ResultType.got_close;
                socket = c.0;
                effects = c.1;
                replies = replies;
              }))
              (if_false _ _ valid ∙ if_false none _ owned),
      refl,
    )

close_id-Serves :
    (ss : Server) (request : CloseRequest) (replies : List WriteReply)
    → IsServer ss
    → IsUsable ss request.id
    → Serves (hash_id request.id) ss (close_id ss request replies)
unfolding close_id close_socket
close_id-Serves ss request replies h usable =
    let s = ss.slot (hash_id request.id) in
    let k = h (hash_id request.id) (hash_id-lt request.id) in
    let opaque = close_opaque s request replies in
    let after =
      λ (o : Option Step). o >>= λ step. some (outcome_of ss request.id request.id opaque 0 step) in
    elim (Bool-cases (is_open s.kind)) [
      | inl up ↦
          let r = close_socket-Steps s request replies up (k.ordered up) in
          let home = k.home (open_lem s.kind up).0 in
          stored ss request.id r.step.socket _ _ h
            (Steps-IsSlot false (hash_id request.id) s [] [] _ r up home) refl (ap after r.runs)
      | inr shut ↦
          elim (Bool-cases (is_invalid s.kind || (if s.id == request.id then false else true))) [
            | inl e ↦ stored ss request.id s _ _ h k refl (ap after (if_true _ _ e))
            | inr e ↦
                let parts =
                  or_false (is_invalid s.kind) (if s.id == request.id then false else true) e in
                let id = is_equal s.id request.id parts.1 in
                let owned : is_reserve s.kind ≡ false = elim (Bool-cases (is_reserve s.kind)) [
                  | inr f ↦ f
                  | inl f ↦ let both : true ≡ false = sym (ap₂ (λ a b. a && b) f id) ∙ usable in cc
                ] in
                let c =
                  close_shut s request replies parts.0 owned (k.bare shut).0 (k.bare shut).1 id in
                stored ss request.id _ _ _ h
                  (invalid-IsSlot (hash_id request.id)
                    (record s { high = []; low = []; kind = SocketType.invalid }) refl refl refl)
                  (ap (λ t. store ss request.id t) c.2) (ap after c.1)
          ]
    ]

-- Every request runs without a failed assert, keeps the table in order and changes no slot but that
-- of its id, provided that an id that is opened is reserved, that an id that is closed or sent to is
-- not, and that a package of low priority is not an object of the host.
pub ctrl_cmd-Serves :
    (ss : Server) (c : Command) (replies : List WriteReply)
    → IsServer ss
    → IsValid ss c
    → Serves (slot_of c) ss (ctrl_cmd ss c replies)
unfolding ctrl_cmd
ctrl_cmd-Serves ss (Command.start request added) replies h v =
    start_socket-Serves ss request added replies h
ctrl_cmd-Serves ss (Command.bind request added) replies h v =
    bind_socket-Serves ss request added replies h v
ctrl_cmd-Serves ss (Command.listen request) replies h v =
    listen_socket-Serves ss request replies h v
ctrl_cmd-Serves ss (Command.close request) replies h v = close_id-Serves ss request replies h v
ctrl_cmd-Serves ss (Command.connect request added) replies h v =
    open_socket-Serves ss request added replies h v
ctrl_cmd-Serves ss Command.exit replies h v = unchanged 0 ss _ _ h refl refl
ctrl_cmd-Serves ss (Command.send_high request) replies h v =
    send_to-Serves ss request false replies h v (λ e. cc)
ctrl_cmd-Serves ss (Command.send_low request) replies h v =
    send_to-Serves ss request true replies h v.0 (λ e. v.1)
ctrl_cmd-Serves ss Command.set_option replies h v = unchanged 0 ss _ _ h refl refl
