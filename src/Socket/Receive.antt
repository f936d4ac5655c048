-- ===== src/Socket/Receive.antt =====
-- skynet-src/socket_server.c: what a socket does with an event of the pool.
use ctkjserver.Base.{
  ℕ, ◌*◌, ◌/◌, ◌%◌, ◌^◌, Bool, true, false, ◌&&◌, Option, some, List, [], ◌∷◌, length, take, ltb,
  ◌==◌, if◌then◌else◌,
}
use ctkjserver.Socket.{
  SocketType, Socket, WriteReply, Effect, ResultType, Step, is_invalid, is_halfclose, force_close,
  send_buffer, ◌>>=◌,
}
use ctkjserver.Socket.Request.{send_buffer_empty, quietly}

-- MIN_READ_BUFFER
abbrev pub min_read_buffer : ℕ
min_read_buffer = 64

-- What `read` answers: bytes, of which it gives no more than it is asked for and none at the end, or
-- an error.
pub data ReadReply : Type 0 where
  received : List ℕ → ReadReply
  interrupted : ReadReply
  again : ReadReply
  failed : ReadReply

-- A step, and the bytes that it hands on.
pub record Forward : Type 0 where
  pub step : Step
  pub data_of : List ℕ

-- A socket that is closed because of an error or of the end of the input.
unfoldable pub close_as : ResultType → Socket → List WriteReply → Option Step
close_as result s replies = force_close s >>= λ c.
    some (record { result = result; socket = c.0; effects = c.1; replies = replies })

-- The buffer of the next read: twice the size after a full read, half after less than half. The size
-- is an `int`, of which these are the 32 bits.
abbrev pub next_size : ℕ → ℕ → ℕ
next_size sz n =
    if n == sz
    then sz * 2 % 2 ^ 32
    else (if ltb min_read_buffer sz && ltb (n * 2) sz then sz / 2 else sz)

abbrev pub silent : Step → Forward
silent step = record { step = step; data_of = [] }

-- `forward_message_tcp` after `read` gave bytes
unfoldable pub forward_bytes : Socket → List ℕ → List WriteReply → Forward
forward_bytes s bytes replies =
    if is_halfclose s.kind then silent (quietly s [] replies) else record {
      step = record {
        result = ResultType.got_data;
        socket = record s { size = next_size s.size (length bytes) };
        effects = [];
        replies = replies;
      };
      data_of = bytes;
    }

-- `forward_message_tcp`; `replies` are the answers to later writes.
unfoldable pub forward_message_tcp : Socket → ReadReply → List WriteReply → Option Forward
forward_message_tcp s ReadReply.interrupted replies = some (silent (quietly s [] replies))
forward_message_tcp s ReadReply.again replies = some (silent (quietly s [] replies))
forward_message_tcp s ReadReply.failed replies =
    close_as ResultType.got_error s replies >>= λ step. some (silent step)
forward_message_tcp s (ReadReply.received bytes) replies =
    let got = take s.size bytes in
    if length got == 0
    then (close_as ResultType.got_close s replies >>= λ step. some (silent step))
    else some (forward_bytes s got replies)

-- `report_connect`; `ok` says that the connection has no error.
unfoldable pub report_connect : Socket → Bool → List WriteReply → Option Step
report_connect s false replies = close_as ResultType.got_error s replies
report_connect s true replies = some (record {
  result = ResultType.got_open;
  socket = record s { kind = SocketType.connected };
  effects = if send_buffer_empty s then Effect.poll_write s.fd false ∷ [] else [];
  replies = replies;
})

-- An event of the pool, with what the system answers. An event with both flags is followed by one
-- without `is_read`, unless the socket was closed.
pub record PoolEvent : Type 0 where
  pub is_read : Bool
  pub is_write : Bool
  pub ok : Bool
  pub reply : ReadReply
  pub replies : List WriteReply

abbrev pub is_connecting : SocketType → Bool
is_connecting SocketType.connecting = true
is_connecting _ = false

-- The switch of `socket_server_poll`, for a socket that does not listen.
unfoldable pub dispatch : Socket → PoolEvent → Option Forward
dispatch s e =
    if is_connecting s.kind
    then (report_connect s e.ok e.replies >>= λ step. some (silent step))
    else (if is_invalid s.kind
        then some (silent (quietly s [] e.replies))
        else (if e.is_read
            then forward_message_tcp s e.reply e.replies
            else (if e.is_write
                then (send_buffer s e.replies >>= λ step. some (silent step))
                else some (silent (quietly s [] e.replies)))))
