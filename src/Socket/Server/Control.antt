-- ===== src/Socket/Server/Control.antt =====
-- skynet-src/socket_server.c: `ctrl_cmd`, `report_accept` and the events of the pool on the table.
use ctkjserver.Base.{
  ℕ, Bool, true, false, ◌||◌, ◌==◌, Option, none, some, List, [], ◌∷◌, length, if◌then◌else◌,
}
use ctkjserver.Socket.{
  SocketType, Socket, WriteReply, Effect, ResultType, Step, is_invalid, send_buffer, ◌>>=◌,
}
use ctkjserver.Socket.Request.{
  Request, is_quiet, send_buffer_empty, send_socket, CloseRequest, close_socket,
}
use ctkjserver.Socket.Receive.{PoolEvent, dispatch}
use ctkjserver.Socket.Server.{
  hash_id, Server, store, reserve_id, Outcome, Placed, new_fd, FdRequest, StartRequest, silently,
  answer, listen_socket, bind_socket, start_socket, OpenRequest, open_socket,
}

-- The requests, in the order of `ctrl_cmd`: S B L K O X D P T.
pub data Command : Type 0 where
  start : StartRequest → (added : Bool) → Command
  bind : FdRequest → (added : Bool) → Command
  listen : FdRequest → Command
  close : CloseRequest → Command
  connect : OpenRequest → (added : Bool) → Command
  exit : Command
  send_high : Request → Command
  send_low : Request → Command
  set_option : Command

-- The outcome of a step on the socket of `id`.
abbrev pub outcome_of : Server → (id message_id opaque ud : ℕ) → Step → Outcome
outcome_of ss id message_id opaque ud step = record {
  result = step.result;
  id = message_id;
  opaque = opaque;
  ud = ud;
  server = store ss id step.socket;
  effects = step.effects;
  replies = step.replies;
}

-- `send_socket` on the socket of its id
unfoldable pub send_to : Server → Request → (is_low : Bool) → List WriteReply → Option Outcome
send_to ss request is_low replies =
    let s = ss.slot (hash_id request.id) in
    send_socket s request is_low replies >>= λ step.
    some (outcome_of ss request.id s.id s.opaque 0 step)

-- The `opaque` of the message of `close_socket`: a socket that `send_buffer` closed is reported to its
-- own service, any other to the service that asked.
pub close_opaque : Socket → CloseRequest → List WriteReply → ℕ
close_opaque s request replies =
    if is_invalid s.kind || (if s.id == request.id then false else true) || send_buffer_empty s
    then request.opaque
    else elim (send_buffer s replies) [
      | none ↦ request.opaque
      | some step ↦ (if is_quiet step.result then request.opaque else s.opaque)
    ]

-- `close_socket` on the socket of its id
unfoldable pub close_id : Server → CloseRequest → List WriteReply → Option Outcome
close_id ss request replies =
    let s = ss.slot (hash_id request.id) in
    close_socket s request replies >>= λ step.
    some (outcome_of ss request.id request.id (close_opaque s request replies) 0 step)

-- `ctrl_cmd`, with the replies of `write`
unfoldable pub ctrl_cmd : Server → Command → List WriteReply → Option Outcome
ctrl_cmd ss (Command.start request added) replies = start_socket ss request added replies
ctrl_cmd ss (Command.bind request added) replies = bind_socket ss request added replies
ctrl_cmd ss (Command.listen request) replies = listen_socket ss request replies
ctrl_cmd ss (Command.close request) replies = close_id ss request replies
ctrl_cmd ss (Command.connect request added) replies = open_socket ss request added replies
ctrl_cmd ss Command.exit replies = some (answer ResultType.got_exit 0 0 ss [] replies)
ctrl_cmd ss (Command.send_high request) replies = send_to ss request false replies
ctrl_cmd ss (Command.send_low request) replies = send_to ss request true replies
ctrl_cmd ss Command.set_option replies = some (silently ss [] replies)

-- What `accept` answers.
pub data AcceptReply : Type 0 where
  accepted : (fd : ℕ) → AcceptReply
  file_limit : AcceptReply
  failed : AcceptReply

-- `report_accept` after `new_fd`
abbrev pub accept_as : Socket → (id fd : ℕ) → List WriteReply → Placed → Option Socket → Outcome
accept_as s id fd replies placed none = silently placed.server (Effect.closed fd ∷ []) replies
accept_as s id fd replies placed (some ns) = record {
  result = ResultType.got_accept;
  id = s.id;
  opaque = s.opaque;
  ud = id;
  server = store placed.server id (record ns { kind = SocketType.paccept });
  effects = placed.effects;
  replies = replies;
}

-- `report_accept` after `reserve_id`
abbrev pub accept_reserved :
    Server → Socket → (fd : ℕ) → List WriteReply → Option ℕ → Option Outcome
accept_reserved ss s fd replies none = some (silently ss (Effect.closed fd ∷ []) replies)
accept_reserved ss s fd replies (some id) = new_fd ss id fd s.opaque false true >>= λ placed.
    some (accept_as s id fd replies placed placed.socket)

-- `report_accept`
unfoldable pub report_accept : Server → Socket → AcceptReply → List WriteReply → Option Outcome
report_accept ss s AcceptReply.file_limit replies =
    some (answer ResultType.got_error s.id s.opaque ss [] replies)
report_accept ss s AcceptReply.failed replies = some (silently ss [] replies)
report_accept ss s (AcceptReply.accepted fd) replies =
    let reserved = reserve_id ss in accept_reserved reserved.1 s fd replies reserved.0

abbrev pub is_listen : SocketType → Bool
is_listen SocketType.listen = true
is_listen _ = false

-- The switch of `socket_server_poll`, on the socket at `index`
unfoldable pub pool_event : Server → (index : ℕ) → PoolEvent → AcceptReply → Option Outcome
pool_event ss index e reply =
    let s = ss.slot index in
    if is_listen s.kind
    then report_accept ss s reply e.replies
    else (dispatch s e >>= λ f. some (outcome_of ss index s.id s.opaque (length f.data_of) f.step))
