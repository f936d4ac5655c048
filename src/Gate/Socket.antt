-- ===== src/Gate/Socket.antt =====
-- service-src/service_gate.c: what the gate does with a socket message, on its table of connections.
use ctkjserver.Base.{
  ℕ, ◌+◌, ◌^◌, ◌≤◌, ◌<◌, ◌≡◌, refl, sym, ap, subst, ◌∙◌, ◌≢◌, Bool, true, false, Option, none, some,
  List, [], ◌∷◌, take, ◌==◌, eq→==, ne→==, if◌then◌else◌, arith, inl, inr,
}
use ctkjserver.Base.Arrays.{update, update_self, update_ne}
use native.Mathlib.Decide.{ℕ_discrete}
use ctkjserver.HashId
use ctkjserver.HashId.{HashId, lookup}
use ctkjserver.HashId.Laws.{Valid, insert_lem, remove_lem, lookup-some}
use ctkjserver.Gate.{DataBuffer, Action, Route, clear, dispatch_message, ◌>>=◌}

-- `struct connection`; an id of -1 is `none`.
pub record Connection : Type 0 where
  pub id : Option ℕ
  pub agent : ℕ
  pub client : ℕ
  pub remote_name : List ℕ
  pub buffer : DataBuffer

-- `struct gate`
pub record Gate : Type 0 where
  pub listen_id : Option ℕ
  pub watchdog : ℕ
  pub broker : ℕ
  pub header_size : ℕ
  pub hash : HashId
  pub conn : ℕ → Connection

-- `struct skynet_socket_message`, by its type.
pub data SocketMessage : Type 0 where
  received : (id : ℕ) → List ℕ → SocketMessage
  connected : (id : ℕ) → SocketMessage
  ended : (id : ℕ) → SocketMessage
  accepted : (id ud : ℕ) (address : List ℕ) → SocketMessage
  warned : (id : ℕ) → SocketMessage

-- A connection after `memset` and `id = -1`.
abbrev pub idle : Connection
idle = record { id = none; agent = 0; client = 0; remote_name = []; buffer = clear }

-- `_report`
abbrev pub report : Gate → Action → List Action
report g action = if g.watchdog == 0 then [] else action ∷ []

-- `_forward_agent`
pub forward_agent : Gate → ℕ → ℕ → ℕ → Gate
forward_agent g fd agentaddr clientaddr = elim (lookup g.hash fd) [
  | none ↦ g
  | some c ↦ record g {
    conn = update g.conn c (record (g.conn c) { agent = agentaddr; client = clientaddr });
  }
]

-- The case of data.
pub on_data : Gate → ℕ → List ℕ → Option (List Action × Gate)
on_data g id buffer = elim (lookup g.hash id) [
  | none ↦ some (Action.error id ∷ Action.close id ∷ [], g)
  | some c ↦
      let route : Route = record {
        broker = g.broker;
        watchdog = g.watchdog;
        agent = (g.conn c).agent;
        client = (g.conn c).client;
        id = id;
      } in
      dispatch_message route g.header_size (g.conn c).buffer buffer >>= λ r.
      some (r.0, record g { conn = update g.conn c (record (g.conn c) { buffer = r.1 }) })
]

-- `message->id == g->listen_id`
abbrev pub is_listen : Gate → ℕ → Bool
is_listen g id = elim g.listen_id [ none ↦ false | some l ↦ l == id ]

-- The case of a connection that is made.
pub on_connect : Gate → ℕ → List Action × Gate
on_connect g id = if is_listen g id then ([], g) else elim (lookup g.hash id) [
  | none ↦ (Action.error id ∷ Action.close id ∷ [], g)
  | some c ↦ ([], g)
]

-- What follows `hashid_remove` of a closed or failed socket.
abbrev pub close_with : Gate → ℕ → Option ℕ × HashId → List Action × Gate
close_with g id (none, hash) = ([], g)
close_with g id (some c, hash) =
    (report g (Action.closed g.watchdog id), record g { hash = hash; conn = update g.conn c idle })

-- The case of a closed or failed socket.
pub on_close : Gate → ℕ → List Action × Gate
on_close g id = close_with g id (HashId.remove g.hash id)

-- The case of an accepted connection: 31 bytes of its address are kept.
pub on_accept : Gate → ℕ → ℕ → List ℕ → Option (List Action × Gate)
on_accept g id ud address =
    let name = take 31 address in
    let taken : ℕ × HashId → Option (List Action × Gate) = λ r. some (
      report g (Action.opened g.watchdog ud name),
      record g {
        hash = r.1;
        conn = update g.conn (r.0) (record (g.conn (r.0)) { id = some ud; remote_name = name });
      },
    ) in
    if is_listen g id
    then (if HashId.full g.hash
        then some (Action.close ud ∷ [], g)
        else (HashId.insert g.hash ud >>= taken))
    else none

-- `dispatch_socket_message`; `ended` is both the close and the error of a socket.
pub dispatch_socket_message : Gate → SocketMessage → Option (List Action × Gate)
unfolding on_data on_connect on_close on_accept
dispatch_socket_message g (SocketMessage.received id buffer) = on_data g id buffer
dispatch_socket_message g (SocketMessage.connected id) = some (on_connect g id)
dispatch_socket_message g (SocketMessage.ended id) = some (on_close g id)
dispatch_socket_message g (SocketMessage.accepted id ud address) = on_accept g id ud address
dispatch_socket_message g (SocketMessage.warned id) = some (Action.error id ∷ [], g)

-- Each id that is found stands in its connection.
pub record Sound (g : Gate) : Type 0 where
  pub valid : Valid g.hash
  pub ids : (x c : ℕ) → lookup g.hash x ≡ some c → (g.conn c).id ≡ some x

some_injective : (x y : ℕ) → some x ≡ some y → x ≡ y
some_injective x y q = ap (λ (o : Option ℕ). elim o [ none ↦ x | some z ↦ z ]) q

pub none-ne : {x : ℕ} → none ≢ some x
none-ne q = ground arith

-- What a close leaves when the socket stood at `c`: the watchdog is told, the place is cleared, and
-- every other connection stays.
abbrev pub Cleared : Gate → ℕ → List Action × Gate → ℕ → Type 0
Cleared g id r c =
    (r.0 ≡ report g (Action.closed g.watchdog id))
    × (r.1.conn c ≡ idle)
    × ((d : ℕ) → c ≢ d → r.1.conn d ≡ g.conn d)

-- The gate after a close: sound, and without `id`.
abbrev pub Closed : Gate → ℕ → List Action × Gate → Type 0
Closed g id r =
    Sound r.1
    × ((x : ℕ) → lookup r.1.hash x ≡ (if x == id then none else lookup g.hash x))
    × ((c : ℕ) → lookup g.hash id ≡ some c → Cleared g id r c)
    × (lookup g.hash id ≡ none → r ≡ ([], g))

-- The end of a socket `id`, on a sound gate (a valid table, in which each id that is found stands
-- in its connection): the gate stays sound, `id` is not found any more, and every other lookup is
-- unchanged. When `id` was found, the watchdog is told, its place is cleared and every other place
-- is unchanged; when it was not, nothing changes.
pub on_close_lem : (g : Gate) (id : ℕ) → Sound g → Closed g id (on_close g id)
unfolding on_close
on_close_lem g id s = elim (remove_lem g.hash id s.valid) [
  | inl (absent, e) ↦
      let result : on_close g id ≡ ([], g) = ap (close_with g id) e in
      subst (Closed g id) (sym result) (
        s,
        λ x. elim (ℕ_discrete x id) [
          | yes q ↦ rw (eq→== x id q) (ap (lookup g.hash) q ∙ absent)
          | no q ↦ rw (ne→== x id q) refl
        ],
        λ c there. absurd (none-ne (sym absent ∙ there)),
        λ gone. refl,
      )
  | inr (c, hash', there, e, free, valid, answers) ↦
      let after : Gate = record g { hash = hash'; conn = update g.conn c idle } in
      let result : on_close g id ≡ (report g (Action.closed g.watchdog id), after) =
        ap (close_with g id) e in
      subst (Closed g id) (sym result) (
        record {
          valid = valid;
          ids = λ x d at. elim (ℕ_discrete x id) [
            | yes q ↦ absurd (none-ne (sym (rw (eq→== x id q) at (answers x)) ∙ at))
            | no q ↦
                let was : lookup g.hash x ≡ some d = sym (rw (ne→== x id q) at (answers x)) ∙ at in
                let own = s.ids x d was in
                let other : c ≢ d = λ w. q (
                  some_injective x id
                    (sym own ∙ ap (λ k. (g.conn k).id) (sym w) ∙ s.ids id c there)) in
                ap (λ (k : Connection). k.id) (update_ne g.conn c d idle other) ∙ own
          ];
        },
        answers,
        λ d found.
            subst (Cleared g id (report g (Action.closed g.watchdog id), after))
              (some_injective c d (sym there ∙ found))
              (refl, update_self g.conn c idle, λ e ne. update_ne g.conn c e idle ne),
        λ gone. absurd (none-ne (sym gone ∙ there)),
      )
]

-- An accepted socket `ud` that is not in the table, reported by the socket on which the gate
-- listens, on a sound gate (a valid table, in which each id that is found stands in its
-- connection) that is not full and has a free place, when `ud` and the capacity have a sum of at
-- most 2 ^ 31: it returns, the watchdog is told, `ud` takes a free place and is found there, with the
-- first 31 bytes of its address, the gate stays sound, and every other lookup and every other place
-- is unchanged.
pub on_accept_lem :
    (g : Gate) (l ud : ℕ) (address : List ℕ)
    → Sound g
    → g.listen_id ≡ some l
    → HashId.full g.hash ≡ false
    → ud + g.hash.cap ≤ 2 ^ 31
    → lookup g.hash ud ≡ none
    → (j : ℕ) → j < g.hash.cap
    → g.hash.id j ≡ none
    → (actions : List Action) × (g' : Gate) × (c : ℕ) × (on_accept g l ud address
        ≡ some (actions, g'))
      × Sound g'
      × (g.hash.id c ≡ none)
      × ((x : ℕ) → lookup g'.hash x ≡ (if x == ud then some c else lookup g.hash x))
      × (actions ≡ report g (Action.opened g.watchdog ud (take 31 address)))
      × (g'.conn c ≡ record (g.conn c) { id = some ud; remote_name = take 31 address })
      × ((d : ℕ) → c ≢ d → g'.conn d ≡ g.conn d)
unfolding on_accept
on_accept_lem g l ud address s listens room fit new j below free =
    let (c, hash', done, empty, inside, valid, answers) =
      insert_lem g.hash ud s.valid fit new j below free in
    let here : is_listen g l ≡ true = rw (listens, eq→== l l refl) refl in
    let made : Connection = record (g.conn c) { id = some ud; remote_name = take 31 address } in
    (
      report g (Action.opened g.watchdog ud (take 31 address)),
      record g { hash = hash'; conn = update g.conn c made },
      c,
      rw (on_accept, here, room, done) refl,
      record {
        valid = valid;
        ids = λ x d at. elim (ℕ_discrete x ud) [
          | yes q ↦
              let cd = some_injective c d (sym (rw (eq→== x ud q) at (answers x)) ∙ at) in
              ap (λ (k : Connection). k.id)
                (ap (update g.conn c made) (sym cd) ∙ update_self g.conn c made)
              ∙ ap some (sym q)
          | no q ↦
              let was : lookup g.hash x ≡ some d = sym (rw (ne→== x ud q) at (answers x)) ∙ at in
              let other : c ≢ d =
                λ w. none-ne (sym empty ∙ ap g.hash.id w ∙ lookup-some g.hash x d was) in
              ap (λ (k : Connection). k.id) (update_ne g.conn c d made other) ∙ s.ids x d was
        ];
      },
      empty,
      answers,
      refl,
      update_self g.conn c made,
      λ d ne. update_ne g.conn c d made ne,
    )
