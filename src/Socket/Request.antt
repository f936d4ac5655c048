-- ===== src/Socket/Request.antt =====
-- skynet-src/socket_server.c: the requests to send on a socket and to close it.
use ctkjserver.Base.{
  ℕ, ◌+◌, ◌-◌, min, Bool, true, false, ◌&&◌, ◌||◌, Option, some, List, [], ◌∷◌, ◌++◌, length, take,
  ◌==◌, if◌then◌else◌,
}
use ctkjserver.Socket.{
  SocketType, WriteBuffer, Socket, WriteReply, Effect, ResultType, Step, is_invalid, close_with,
  send_buffer, ◌>>=◌,
}

-- `struct request_send`: the bytes are those of the object if the size was negative.
pub record Request : Type 0 where
  pub id : ℕ
  pub buffer : List ℕ
  pub userobject : Bool

-- The buffer that `append_sendbuffer_` makes, from byte `n` on.
abbrev pub new_buffer : Request → ℕ → WriteBuffer
new_buffer request n = record {
  buffer = request.buffer;
  ptr = n;
  sz = length request.buffer - n;
  userobject = request.userobject;
}

-- `append_sendbuffer`
abbrev pub append_sendbuffer : Socket → Request → ℕ → Socket
append_sendbuffer s request n =
    let wb = new_buffer request n in
    record s { high = s.high ++ (wb ∷ []); wb_size = s.wb_size + wb.sz }

-- `append_sendbuffer_low`
abbrev pub append_sendbuffer_low : Socket → Request → Socket
append_sendbuffer_low s request =
    let wb = new_buffer request 0 in
    record s { low = s.low ++ (wb ∷ []); wb_size = s.wb_size + wb.sz }

abbrev pub is_nil : List WriteBuffer → Bool
is_nil [] = true
is_nil (wb ∷ list) = false

-- `send_buffer_empty`
abbrev pub send_buffer_empty : Socket → Bool
send_buffer_empty s = is_nil s.high && is_nil s.low

-- The types to which nothing is written.
abbrev pub is_closed_for_send : SocketType → Bool
is_closed_for_send SocketType.invalid = true
is_closed_for_send SocketType.halfclose = true
is_closed_for_send SocketType.paccept = true
is_closed_for_send SocketType.plisten = true
is_closed_for_send SocketType.listen = true
is_closed_for_send _ = false

abbrev pub is_connected : SocketType → Bool
is_connected SocketType.connected = true
is_connected _ = false

-- A step that changes the socket only.
abbrev pub quietly : Socket → List Effect → List WriteReply → Step
quietly s effects replies = record {
  result = ResultType.quiet;
  socket = s;
  effects = effects;
  replies = replies;
}

-- What `send_socket` does after it wrote `n` bytes at once.
unfoldable pub wrote_part : Socket → Request → ℕ → List WriteReply → Step
wrote_part s request n replies =
    let written = Effect.written s.fd (take n request.buffer) in
    if n == length request.buffer
    then quietly s (written ∷ []) replies
    else quietly (append_sendbuffer s request n) (written ∷ Effect.poll_write s.fd true ∷ [])
        replies

-- `send_socket` on an idle connected socket: the package is written at once.
unfoldable pub send_direct : Socket → Request → List WriteReply → Option Step
send_direct s request [] = some (wrote_part s request 0 [])
send_direct s request (WriteReply.wrote k ∷ replies) =
    some (wrote_part s request (min k (length request.buffer)) replies)
send_direct s request (WriteReply.interrupted ∷ replies) = some (wrote_part s request 0 replies)
send_direct s request (WriteReply.again ∷ replies) = some (wrote_part s request 0 replies)
send_direct s request (WriteReply.failed ∷ replies) = close_with s [] replies

-- `send_socket`, for a TCP socket
unfoldable pub send_socket : Socket → Request → Bool → List WriteReply → Option Step
send_socket s request is_low replies =
    if is_closed_for_send s.kind || (if s.id == request.id then false else true)
    then some (quietly s [] replies)
    else (if send_buffer_empty s && is_connected s.kind
        then send_direct s request replies
        else some (
            quietly
              (if is_low then append_sendbuffer_low s request else append_sendbuffer s request 0) []
              replies))

-- `struct request_close`
pub record CloseRequest : Type 0 where
  pub id : ℕ
  pub shutdown : Bool
  pub opaque : ℕ

-- The result is -1.
abbrev pub is_quiet : ResultType → Bool
is_quiet ResultType.quiet = true
is_quiet _ = false

-- The end of `close_socket`, after what could be sent was sent.
unfoldable pub finish_close : CloseRequest → Step → Option Step
finish_close request step =
    if is_quiet step.result
    then (if request.shutdown || send_buffer_empty step.socket
        then close_with step.socket step.effects step.replies
        else some (record step { socket = record (step.socket) { kind = SocketType.halfclose } }))
    else some step

-- `close_socket`
unfoldable pub close_socket : Socket → CloseRequest → List WriteReply → Option Step
close_socket s request replies =
    if is_invalid s.kind || (if s.id == request.id then false else true)
    then some
        (record { result = ResultType.got_close; socket = s; effects = []; replies = replies })
    else (if send_buffer_empty s
        then finish_close request (quietly s [] replies)
        else (send_buffer s replies >>= finish_close request))
