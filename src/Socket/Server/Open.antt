-- ===== src/Socket/Server/Open.antt =====
-- skynet-src/socket_server.c: the requests that give a reserved slot a socket.
use ctkjserver.Base.{
  ℕ, ◌<◌, ◌≡◌, ◌⊎◌, inl, inr, refl, sym, ap, ap₂, ◌∙◌, subst, Bool, true, false, ◌&&◌, Option, none,
  some, List, [], ◌∷◌, ◌++◌, if◌then◌else◌, if_true, if_false, Bool-cases, Option-cases, arith,
}
use ctkjserver.Base.Arrays.{update_self}
use ctkjserver.Socket.{SocketType, Socket, WriteReply, Effect, is_reserve, ◌>>=◌}
use ctkjserver.Socket.Request.{is_nil}
use ctkjserver.Socket.Receive.{min_read_buffer}
use ctkjserver.Socket.Stream.{is_open}
use ctkjserver.Socket.Server.{
  max_socket, hash_id, Server, store, Outcome, Placed, new_fd, FdRequest, listen_as, listen_socket,
  bind_as, bind_socket, try_addresses, OpenRequest, open_failed, open_as, open_tried, open_at,
  open_socket,
}
use ctkjserver.Socket.Server.Slots.{
  IsSlot, IsServer, IsFrame, store-IsServer, store-IsFrame, fresh-IsSlot, invalid-IsSlot,
}

-- A request runs without a failed assert, keeps the table in order, and changes no slot but one.
pub record Serves (j : ℕ) (ss : Server) (o : Option Outcome) : Type 0 where
  pub outcome : Outcome
  pub runs : o ≡ some outcome
  pub serves : IsServer outcome.server
  pub frame : IsFrame j ss outcome.server

-- A socket as `new_fd` leaves it.
abbrev pub IsNew : ℕ → Socket → Type 0
IsNew id s = (s.high ≡ []) × (s.low ≡ []) × (s.wb_size ≡ 0) × (s.id ≡ id)

pub record Places (id : ℕ) (ss : Server) (o : Option Placed) : Type 0 where
  pub placed : Placed
  pub runs : o ≡ some placed
  pub serves : IsServer placed.server
  pub frame : IsFrame (hash_id id) ss placed.server
  pub bare :
      ((placed.server.slot (hash_id id)).high ≡ []) × ((placed.server.slot (hash_id id)).low ≡ [])
  pub new : (placed.socket ≡ none) ⊎ ((s : Socket) × (placed.socket ≡ some s) × IsNew id s)

pub IsFrame-trans : (j : ℕ) (a b c : Server) → IsFrame j a b → IsFrame j b c → IsFrame j a c
IsFrame-trans j a b c f g i ne = g i ne ∙ f i ne

-- A new socket of any type in the slot of its id.
pub store_new :
    (ss ss' : Server) (id : ℕ) (t : Socket)
    → IsServer ss'
    → IsFrame (hash_id id) ss ss'
    → IsNew id t
    → IsServer (store ss' id t) × IsFrame (hash_id id) ss (store ss' id t)
store_new ss ss' id t h f n = (
  store-IsServer ss' id t h (subst (λ k. IsSlot (hash_id k) t) n.3 (fresh-IsSlot t n.0 n.1 n.2)),
  IsFrame-trans (hash_id id) ss ss' (store ss' id t) f (store-IsFrame ss' id t),
)

pub store_invalid :
    (ss ss' : Server) (id : ℕ) (t : Socket)
    → IsServer ss'
    → IsFrame (hash_id id) ss ss'
    → t.kind ≡ SocketType.invalid
    → t.high ≡ []
    → t.low ≡ []
    → IsServer (store ss' id t) × IsFrame (hash_id id) ss (store ss' id t)
store_invalid ss ss' id t h f k hh hl = (
  store-IsServer ss' id t h (invalid-IsSlot (hash_id id) t k hh hl),
  IsFrame-trans (hash_id id) ss ss' (store ss' id t) f (store-IsFrame ss' id t),
)

pub reserve-open : (k : SocketType) → is_reserve k ≡ true → is_open k ≡ false
reserve-open SocketType.invalid e = refl
reserve-open SocketType.reserve e = refl
reserve-open SocketType.plisten e = refl
reserve-open SocketType.listen e = refl
reserve-open SocketType.connecting e = sym e
reserve-open SocketType.connected e = sym e
reserve-open SocketType.halfclose e = sym e
reserve-open SocketType.paccept e = refl
reserve-open SocketType.bind e = sym e

slot_bare :
    (ss : Server) (id : ℕ) (t : Socket)
    → t.high ≡ []
    → t.low ≡ []
    → (((store ss id t).slot (hash_id id)).high ≡ [])
      × (((store ss id t).slot (hash_id id)).low ≡ [])
slot_bare ss id t hh hl =
    let same = update_self ss.slot (hash_id id) t in
    (ap Socket.high same ∙ hh, ap Socket.low same ∙ hl)

-- `new_fd` for a reserved id.
pub new_fd-Places :
    (ss : Server) (id fd opaque : ℕ) (add added : Bool)
    → IsServer ss
    → hash_id id < max_socket
    → is_reserve (ss.slot (hash_id id)).kind ≡ true
    → Places id ss (new_fd ss id fd opaque add added)
unfolding new_fd
new_fd-Places ss id fd opaque add added h l k =
    let s = ss.slot (hash_id id) in
    let s' = record s { id = id; fd = fd; size = min_read_buffer; opaque = opaque; wb_size = 0 } in
    let lists = (h (hash_id id) l).bare (reserve-open s.kind k) in
    elim (Bool-cases (add && (if added then false else true))) [
      | inl e ↦
          let t = record s { kind = SocketType.invalid } in
          let stored = store_invalid ss ss id t h (λ i ne. refl) refl lists.0 lists.1 in
          record {
            placed = _;
            runs = if_true _ none k ∙ if_true _ _ e;
            serves = stored.0;
            frame = stored.1;
            bare = slot_bare ss id t lists.0 lists.1;
            new = inl refl;
          }
      | inr e ↦
          let stored = store_new ss ss id s' h (λ i ne. refl) (lists.0, lists.1, refl, refl) in
          record {
            placed = _;
            runs =
                if_true _ none k
                ∙ if_false _ _ e
                ∙ if_true _ none (ap₂ (λ a b. is_nil a && is_nil b) lists.0 lists.1);
            serves = stored.0;
            frame = stored.1;
            bare = slot_bare ss id s' lists.0 lists.1;
            new = inr (s', refl, (lists.0, lists.1, refl, refl));
          }
    ]

-- What follows `new_fd`: the outcome is `f placed placed.socket`.
pub after_new_fd :
    (ss : Server) (id : ℕ) (o : Option Placed) (f : Placed → Option Socket → Outcome)
    → Places id ss o
    → ((p : Placed)
        → IsServer p.server
        → IsFrame (hash_id id) ss p.server
        → ((p.server.slot (hash_id id)).high ≡ []) × ((p.server.slot (hash_id id)).low ≡ [])
        → IsServer (f p none).server × IsFrame (hash_id id) ss (f p none).server)
    → ((p : Placed) (s : Socket)
        → IsServer p.server
        → IsFrame (hash_id id) ss p.server
        → IsNew id s
        → IsServer (f p (some s)).server × IsFrame (hash_id id) ss (f p (some s)).server)
    → Serves (hash_id id) ss (o >>= λ placed. some (f placed placed.socket))
after_new_fd ss id o f r missing found =
    let p = r.placed in
    let ends : (x : Option Socket)
        → IsServer (f p x).server × IsFrame (hash_id id) ss (f p x).server
        → p.socket ≡ x
        → Serves (hash_id id) ss (o >>= λ placed. some (f placed placed.socket)) =
      λ x k e. record {
        outcome = f p x;
        runs =
            ap (λ o. o >>= λ placed. some (f placed placed.socket)) r.runs
            ∙ ap (λ x. some (f p x)) e;
        serves = k.0;
        frame = k.1;
      } in
    elim r.new [
      | inl e ↦ ends none (missing p r.serves r.frame r.bare) e
      | inr n ↦ ends (some n.0) (found p n.0 r.serves r.frame n.2) n.1
    ]

-- An id whose slot is reserved.
abbrev pub IsReserved : Server → ℕ → Type 0
IsReserved ss id = is_reserve (ss.slot (hash_id id)).kind ≡ true

pub hash_id-lt : (id : ℕ) → hash_id id < max_socket
hash_id-lt id = omega arith

pub listen_socket-Serves :
    (ss : Server) (request : FdRequest) (replies : List WriteReply)
    → IsServer ss
    → IsReserved ss request.id
    → Serves (hash_id request.id) ss (listen_socket ss request replies)
unfolding listen_socket
listen_socket-Serves ss request replies h k =
    after_new_fd ss request.id (new_fd ss request.id request.fd request.opaque false true)
      (listen_as request replies)
      (new_fd-Places ss request.id request.fd request.opaque false true h (hash_id-lt request.id) k)
      (λ p h f bare. (h, f))
      (λ p s h f n. store_new ss p.server request.id (record s { kind = SocketType.plisten }) h f n)

pub bind_socket-Serves :
    (ss : Server) (request : FdRequest) (added : Bool) (replies : List WriteReply)
    → IsServer ss
    → IsReserved ss request.id
    → Serves (hash_id request.id) ss (bind_socket ss request added replies)
unfolding bind_socket
bind_socket-Serves ss request added replies h k =
    after_new_fd ss request.id (new_fd ss request.id request.fd request.opaque true added)
      (bind_as request replies)
      (new_fd-Places ss request.id request.fd request.opaque true added h (hash_id-lt request.id) k)
      (λ p h f bare. (h, f))
      (λ p s h f n. store_new ss p.server request.id (record s { kind = SocketType.bind }) h f n)

open_failed-Serves :
    (ss ss' : Server) (request : OpenRequest) (effects : List Effect) (replies : List WriteReply)
    → IsServer ss'
    → IsFrame (hash_id request.id) ss ss'
    → ((ss'.slot (hash_id request.id)).high ≡ []) × ((ss'.slot (hash_id request.id)).low ≡ [])
    → IsServer (open_failed ss' request effects replies).server
      × IsFrame (hash_id request.id) ss (open_failed ss' request effects replies).server
open_failed-Serves ss ss' request effects replies h f bare =
    store_invalid ss ss' request.id
      (record (ss'.slot (hash_id request.id)) { kind = SocketType.invalid }) h f refl bare.0 bare.1

open_as-Serves :
    (ss : Server) (p : Placed) (request : OpenRequest) (fd : ℕ) (is_connected : Bool)
    (effects : List Effect) (replies : List WriteReply) (s : Socket)
    → IsServer p.server
    → IsFrame (hash_id request.id) ss p.server
    → IsNew request.id s
    → IsServer (open_as request fd is_connected effects replies p (some s)).server
      × IsFrame
          (hash_id request.id)
          ss
          (open_as request fd is_connected effects replies p (some s)).server
open_as-Serves ss p request fd true effects replies s h f n =
    store_new ss p.server request.id (record s { kind = SocketType.connected }) h f n
open_as-Serves ss p request fd false effects replies s h f n =
    store_new ss p.server request.id (record s { kind = SocketType.connecting }) h f n

open_tried-Serves :
    (ss : Server) (request : OpenRequest) (added : Bool) (replies : List WriteReply)
    (effects : List Effect) (opened : Option (ℕ × Bool))
    → IsServer ss
    → IsReserved ss request.id
    → Serves (hash_id request.id) ss (open_tried ss request added replies effects opened)
open_tried-Serves ss request added replies effects none h k =
    let bare =
      (h (hash_id request.id) (hash_id-lt request.id)).bare
        (reserve-open (ss.slot (hash_id request.id)).kind k) in
    let r = open_failed-Serves ss ss request effects replies h (λ i ne. refl) bare in
    record { outcome = _; runs = refl; serves = r.0; frame = r.1 }
open_tried-Serves ss request added replies effects (some opened) h k =
    after_new_fd ss request.id (new_fd ss request.id opened.0 request.opaque true added)
      (open_as request opened.0 opened.1 effects replies)
      (new_fd-Places ss request.id opened.0 request.opaque true added h (hash_id-lt request.id) k)
      (λ p h f bare.
        open_failed-Serves ss p.server request (effects ++ Effect.closed opened.0 ∷ []) replies h f
          bare)
      (λ p s h f n. open_as-Serves ss p request opened.0 opened.1 effects replies s h f n)

pub open_socket-Serves :
    (ss : Server) (request : OpenRequest) (added : Bool) (replies : List WriteReply)
    → IsServer ss
    → IsReserved ss request.id
    → Serves (hash_id request.id) ss (open_socket ss request added replies)
unfolding open_socket
open_socket-Serves ss request added replies h k = elim (Option-cases request.addresses) [
  | inl e ↦
      subst (λ a. Serves (hash_id request.id) ss (open_at ss request added replies a)) (sym e)
        (open_tried-Serves ss request added replies [] none h k)
  | inr e ↦
      subst (λ a. Serves (hash_id request.id) ss (open_at ss request added replies a)) (sym e.1)
        (open_tried-Serves ss request added replies (try_addresses e.0).1 (try_addresses e.0).0 h k)
]
