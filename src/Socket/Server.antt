-- ===== src/Socket/Server.antt =====
-- skynet-src/socket_server.c: the table of the sockets, and the requests that come by the pipe.
--
-- `slot` is the array, as a function of the index. What the system answers comes with the request:
-- `added` is whether `sp_add` succeeded, the attempts are those of the loop of `open_socket`.
pub mod Control
pub mod Reserve
pub mod Slots
pub mod Open
pub mod Commands
pub mod Events
use ctkjserver.Base.{
  ℕ, zero, suc, ◌+◌, ◌*◌, ◌%◌, ◌^◌, Bool, true, false, ◌||◌, ◌&&◌, Option, none, some, List, [],
  ◌∷◌, ◌++◌, ltb, ◌==◌, if◌then◌else◌,
}
use ctkjserver.Base.Arrays.{update}
use ctkjserver.Socket.{
  SocketType, Socket, WriteReply, Effect, ResultType, Step, is_invalid, is_reserve, force_close,
  ◌>>=◌,
}
use ctkjserver.Socket.Request.{
  Request, is_nil, send_buffer_empty, is_connected, send_socket, CloseRequest, close_socket,
  quietly,
}
use ctkjserver.Socket.Receive.{min_read_buffer, Forward, PoolEvent, dispatch}

-- MAX_SOCKET
abbrev pub max_socket : ℕ
max_socket = 65536

-- The descriptor -1, as the bits of an `int`
abbrev pub no_fd : ℕ
no_fd = 4294967295

-- One more than the greatest `int`
abbrev pub id_limit : ℕ
id_limit = 2147483648

-- HASH_ID
abbrev pub hash_id : ℕ → ℕ
hash_id id = id % max_socket

-- `struct socket_server`
pub record Server : Type 0 where
  pub alloc_id : ℕ
  pub slot : ℕ → Socket

-- A write to the slot of an id
abbrev pub store : Server → ℕ → Socket → Server
store ss id s = record ss { slot = update ss.slot (hash_id id) s }

-- `ATOM_INC` and, when the `int` became negative, `ATOM_AND`
abbrev pub next_id : ℕ → ℕ
next_id alloc_id = (alloc_id + 1) % id_limit

-- `reserve_id`, for the tries that remain
unfoldable pub reserve_from : ℕ → Server → Option ℕ × Server
reserve_from zero ss = (none, ss)
reserve_from (suc i) ss =
    let id = next_id ss.alloc_id in
    let s = ss.slot (hash_id id) in
    let ss' = record ss { alloc_id = id } in
    let rest = reserve_from i ss' in
    if is_invalid s.kind
    then (some id, store ss' id (record s { kind = SocketType.reserve; id = id; fd = no_fd }))
    else rest

unfoldable pub reserve_id : Server → Option ℕ × Server
reserve_id = reserve_from max_socket

-- What a request leaves: the result, the id, opaque and ud of the message, the server, the effects
-- and the replies of `write` to come.
pub record Outcome : Type 0 where
  pub result : ResultType
  pub id : ℕ
  pub opaque : ℕ
  pub ud : ℕ
  pub server : Server
  pub effects : List Effect
  pub replies : List WriteReply

-- The slot of a new socket, or nothing when `sp_add` failed.
pub record Placed : Type 0 where
  pub socket : Option Socket
  pub server : Server
  pub effects : List Effect

-- `new_fd`, for TCP: a failed assert is `none`.
unfoldable pub new_fd : Server → (id fd opaque : ℕ) → (add added : Bool) → Option Placed
new_fd ss id fd opaque add added =
    let s = ss.slot (hash_id id) in
    let s' = record s { id = id; fd = fd; size = min_read_buffer; opaque = opaque; wb_size = 0 } in
    let effects = if add then Effect.poll_add fd ∷ [] else [] in
    if is_reserve s.kind
    then (if add && (if added then false else true)
        then some (record {
          socket = none;
          server = store ss id (record s { kind = SocketType.invalid });
          effects = [];
        })
        else (if is_nil s.high && is_nil s.low
            then some (record { socket = some s'; server = store ss id s'; effects = effects })
            else none))
    else none

-- `struct request_listen` and `struct request_bind`
pub record FdRequest : Type 0 where
  pub id : ℕ
  pub fd : ℕ
  pub opaque : ℕ

-- `struct request_start`
pub record StartRequest : Type 0 where
  pub id : ℕ
  pub opaque : ℕ

-- The outcome -1 of a request.
abbrev pub silently : Server → List Effect → List WriteReply → Outcome
silently ss effects replies = record {
  result = ResultType.quiet;
  id = 0;
  opaque = 0;
  ud = 0;
  server = ss;
  effects = effects;
  replies = replies;
}

-- A result for the service that sent the request.
abbrev pub answer : ResultType → (id opaque : ℕ) → Server → List Effect → List WriteReply → Outcome
answer result id opaque ss effects replies = record {
  result = result;
  id = id;
  opaque = opaque;
  ud = 0;
  server = ss;
  effects = effects;
  replies = replies;
}

-- `listen_socket` after `new_fd`
abbrev pub listen_as : FdRequest → List WriteReply → Placed → Option Socket → Outcome
listen_as request replies placed none =
    answer ResultType.got_error request.id request.opaque placed.server
      (Effect.closed request.fd ∷ []) replies
listen_as request replies placed (some s) =
    silently (store placed.server request.id (record s { kind = SocketType.plisten }))
      placed.effects replies

-- `listen_socket`
unfoldable pub listen_socket : Server → FdRequest → List WriteReply → Option Outcome
listen_socket ss request replies =
    new_fd ss request.id request.fd request.opaque false true >>= λ placed.
    some (listen_as request replies placed placed.socket)

-- `bind_socket` after `new_fd`
abbrev pub bind_as : FdRequest → List WriteReply → Placed → Option Socket → Outcome
bind_as request replies placed none =
    answer ResultType.got_error request.id request.opaque placed.server [] replies
bind_as request replies placed (some s) =
    answer ResultType.got_open request.id request.opaque
      (store placed.server request.id (record s { kind = SocketType.bind })) placed.effects replies

-- `bind_socket`
unfoldable pub bind_socket : Server → FdRequest → (added : Bool) → List WriteReply → Option Outcome
bind_socket ss request added replies =
    new_fd ss request.id request.fd request.opaque true added >>= λ placed.
    some (bind_as request replies placed placed.socket)

-- `start_socket` on a socket that waits for it
abbrev pub start_as :
    Server → StartRequest → SocketType → (added : Bool) → List WriteReply → Outcome
start_as ss request started true replies =
    let s = ss.slot (hash_id request.id) in
    answer ResultType.got_open request.id request.opaque
      (store ss request.id (record s { kind = started; opaque = request.opaque }))
      (Effect.poll_add s.fd ∷ []) replies
start_as ss request started false replies =
    let s = ss.slot (hash_id request.id) in
    answer ResultType.got_error request.id request.opaque
      (store ss request.id (record s { kind = SocketType.invalid })) [] replies

abbrev pub is_paccept : SocketType → Bool
is_paccept SocketType.paccept = true
is_paccept _ = false

abbrev pub is_plisten : SocketType → Bool
is_plisten SocketType.plisten = true
is_plisten _ = false

-- `start_socket`
unfoldable pub start_socket :
    Server → StartRequest → (added : Bool) → List WriteReply → Option Outcome
start_socket ss request added replies =
    let s = ss.slot (hash_id request.id) in
    if is_invalid s.kind || (if s.id == request.id then false else true)
    then some (answer ResultType.got_error request.id request.opaque ss [] replies)
    else (if is_paccept s.kind || is_plisten s.kind
        then some (
            start_as ss request
              (if is_paccept s.kind then SocketType.connected else SocketType.listen) added replies)
        else (if is_connected s.kind
            then some (
                answer ResultType.got_open request.id request.opaque
                  (store ss request.id (record s { opaque = request.opaque })) [] replies)
            else some (silently ss [] replies)))

-- What the loop of `open_socket` meets for an address.
pub data Attempt : Type 0 where
  no_socket : Attempt
  refused : (fd : ℕ) → Attempt
  connected : (fd : ℕ) → Attempt
  in_progress : (fd : ℕ) → Attempt

-- The loop of `open_socket`: the descriptor, whether it is connected, and what was closed.
pub try_addresses : List Attempt → Option (ℕ × Bool) × List Effect
try_addresses [] = (none, [])
try_addresses (Attempt.no_socket ∷ rest) = try_addresses rest
try_addresses (Attempt.refused fd ∷ rest) =
    let next = try_addresses rest in (next.0, Effect.closed fd ∷ next.1)
try_addresses (Attempt.connected fd ∷ rest) = (some (fd, true), [])
try_addresses (Attempt.in_progress fd ∷ rest) = (some (fd, false), [])

-- `struct request_open`, with the addresses that `getaddrinfo` gives for the host.
pub record OpenRequest : Type 0 where
  pub id : ℕ
  pub opaque : ℕ
  pub addresses : Option (List Attempt)

-- `_failed` in `open_socket`
abbrev pub open_failed : Server → OpenRequest → List Effect → List WriteReply → Outcome
open_failed ss request effects replies =
    let s = ss.slot (hash_id request.id) in
    answer ResultType.got_error request.id request.opaque
      (store ss request.id (record s { kind = SocketType.invalid })) effects replies

-- `open_socket` after `new_fd`, for the descriptor `fd` and the effects so far
abbrev pub open_as :
    OpenRequest
    → (fd : ℕ) → (is_connected : Bool) → List Effect
    → List WriteReply
    → Placed
    → Option Socket
    → Outcome
open_as request fd is_connected effects replies placed none =
    open_failed placed.server request (effects ++ Effect.closed fd ∷ []) replies
open_as request fd true effects replies placed (some s) =
    answer ResultType.got_open request.id request.opaque
      (store placed.server request.id (record s { kind = SocketType.connected }))
      (effects ++ placed.effects) replies
open_as request fd false effects replies placed (some s) =
    silently (store placed.server request.id (record s { kind = SocketType.connecting }))
      (effects ++ placed.effects ++ Effect.poll_write fd true ∷ []) replies

-- `open_socket` once the addresses were tried
abbrev pub open_tried :
    Server
    → OpenRequest
    → (added : Bool) → List WriteReply
    → List Effect
    → Option (ℕ × Bool)
    → Option Outcome
open_tried ss request added replies effects none = some (open_failed ss request effects replies)
open_tried ss request added replies effects (some opened) =
    new_fd ss request.id opened.0 request.opaque true added >>= λ placed.
    some (open_as request opened.0 opened.1 effects replies placed placed.socket)

-- `open_socket` after `getaddrinfo`
abbrev pub open_at :
    Server → OpenRequest → (added : Bool) → List WriteReply → Option (List Attempt) → Option Outcome
open_at ss request added replies none = some (open_failed ss request [] replies)
open_at ss request added replies (some addresses) =
    let tried = try_addresses addresses in open_tried ss request added replies tried.1 tried.0

-- `open_socket`
unfoldable pub open_socket :
    Server → OpenRequest → (added : Bool) → List WriteReply → Option Outcome
open_socket ss request added replies = open_at ss request added replies request.addresses
