-- ===== src/Socket.antt =====
-- skynet-src/socket_server.c: one socket of the server, its write buffers and how they are sent.
-- `Socket.Server` has the table of sockets and its commands.
--
-- What the system answers is an argument: `write` takes the replies in order, and says EAGAIN when
-- there are no more. What is done to the outside is a list of effects. A list of write buffers is a
-- list, a buffer is its bytes, and `ptr` the offset in them. The sockets here are those of TCP.
pub mod Request
pub mod Receive
pub mod Send
pub mod Stream
pub mod Flush
pub mod Accept
pub mod Closing
pub mod Reading
pub mod Life
pub mod Delivery
pub mod Drain
pub mod Drained
pub mod Reads
pub mod Server
mod Tests
use ctkjserver.Base.{
  ℕ, zero, suc, ◌+◌, ◌-◌, ◌<◌, min, Bool, true, false, ◌||◌, Option, none, some, List, [], ◌∷◌,
  ◌++◌, length, take, drop, ltb, ◌==◌, if◌then◌else◌,
}

-- The types of a socket, SOCKET_TYPE_INVALID and so on.
pub data SocketType : Type 0 where
  invalid reserve plisten listen connecting connected halfclose paccept bind : SocketType

-- `struct write_buffer`
pub record WriteBuffer : Type 0 where
  pub buffer : List ℕ
  pub ptr : ℕ
  pub sz : ℕ
  pub userobject : Bool

-- `struct socket`; `high` and `low` are the two lists of write buffers, `size` is `p.size`.
pub record Socket : Type 0 where
  pub opaque : ℕ
  pub high : List WriteBuffer
  pub low : List WriteBuffer
  pub wb_size : ℕ
  pub fd : ℕ
  pub id : ℕ
  pub kind : SocketType
  pub size : ℕ

-- What `write` answers: a number of bytes, of which it takes no more than it is given, or an error.
pub data WriteReply : Type 0 where
  wrote : ℕ → WriteReply
  interrupted : WriteReply
  again : WriteReply
  failed : WriteReply

pub data Effect : Type 0 where
  written : (fd : ℕ) → List ℕ → Effect
  closed : (fd : ℕ) → Effect
  poll_add : (fd : ℕ) → Effect
  poll_del : (fd : ℕ) → Effect
  poll_write : (fd : ℕ) → Bool → Effect

-- The results of the commands, SOCKET_DATA and so on; -1 is `quiet`.
pub data ResultType : Type 0 where
  quiet got_data got_close got_open got_accept got_error got_exit : ResultType

-- What a step on a socket leaves: its result, the socket, the effects and the replies to come.
pub record Step : Type 0 where
  pub result : ResultType
  pub socket : Socket
  pub effects : List Effect
  pub replies : List WriteReply

-- Whether a socket of this type is in the event pool.
abbrev pub is_polled : SocketType → Bool
is_polled SocketType.paccept = false
is_polled SocketType.plisten = false
is_polled _ = true

abbrev pub is_bind : SocketType → Bool
is_bind SocketType.bind = true
is_bind _ = false

-- The effects of `force_close`
abbrev pub close_effects : Socket → List Effect
close_effects s =
    (if is_polled s.kind then Effect.poll_del s.fd ∷ [] else [])
    ++ (if is_bind s.kind then [] else Effect.closed s.fd ∷ [])

abbrev pub is_invalid : SocketType → Bool
is_invalid SocketType.invalid = true
is_invalid _ = false

abbrev pub is_reserve : SocketType → Bool
is_reserve SocketType.reserve = true
is_reserve _ = false

-- `force_close`: a failed assert is `none`.
pub force_close : Socket → Option (Socket × List Effect)
force_close s =
    if is_invalid s.kind
    then some (s, [])
    else (if is_reserve s.kind
        then none
        else some (record s { high = []; low = []; kind = SocketType.invalid }, close_effects s))

-- What `send_list_tcp` leaves: the buffers, the bytes written, whether `write` failed, the replies.
pub record SentList : Type 0 where
  pub left : List WriteBuffer
  pub bytes : List ℕ
  pub broken : Bool
  pub replies : List WriteReply

-- The bytes of a buffer that are still to be written.
abbrev pub rest_of : WriteBuffer → List ℕ
rest_of wb = take wb.sz (drop wb.ptr wb.buffer)

-- `send_list_tcp`, on the replies of `write`
pub send_list : List WriteReply → List WriteBuffer → SentList
send_list replies [] = record { left = []; bytes = []; broken = false; replies = replies }
send_list [] (wb ∷ list) = record { left = wb ∷ list; bytes = []; broken = false; replies = [] }
send_list (WriteReply.interrupted ∷ replies) (wb ∷ list) = send_list replies (wb ∷ list)
send_list (WriteReply.again ∷ replies) (wb ∷ list) = record {
  left = wb ∷ list;
  bytes = [];
  broken = false;
  replies = replies;
}
send_list (WriteReply.failed ∷ replies) (wb ∷ list) = record {
  left = wb ∷ list;
  bytes = [];
  broken = true;
  replies = replies;
}
send_list (WriteReply.wrote k ∷ replies) (wb ∷ list) =
    let sz = min k wb.sz in
    let bytes = take sz (rest_of wb) in
    let next = send_list replies list in
    if sz == wb.sz then record next { bytes = bytes ++ next.bytes } else record {
      left = record wb { ptr = wb.ptr + sz; sz = wb.sz - sz } ∷ list;
      bytes = bytes;
      broken = false;
      replies = replies;
    }

-- `list_uncomplete`: an object keeps its bytes elsewhere than at its own address.
abbrev pub list_uncomplete : List WriteBuffer → Bool
list_uncomplete [] = false
list_uncomplete (wb ∷ list) = wb.userobject || (if wb.ptr == 0 then false else true)

-- `raise_uncomplete`: the head of the low list becomes the high list, which must be empty.
pub raise_uncomplete : Socket → List WriteBuffer → List WriteBuffer → Option Socket
raise_uncomplete s [] (wb ∷ list) = some (record s { high = wb ∷ []; low = list })
raise_uncomplete s high low = none

infixl 5 ◌>>=◌
abbrev pub ◌>>=◌ {ℓ κ} : {A : Type ℓ} {B : Type κ} → Option A → (A → Option B) → Option B
none >>= f = none
some a >>= f = f a

-- A socket that is closed because `write` failed, or at the end of a half-close.
pub close_with : Socket → List Effect → List WriteReply → Option Step
close_with s effects replies = force_close s >>= λ c. some (record {
  result = ResultType.got_close;
  socket = c.0;
  effects = effects ++ c.1;
  replies = replies;
})

abbrev pub is_halfclose : SocketType → Bool
is_halfclose SocketType.halfclose = true
is_halfclose _ = false

-- Step 2 and 3 of `send_buffer`: the low list is sent, and its head moved up when part of it was.
pub send_low : Socket → List Effect → List WriteReply → Option Step
send_low s effects replies =
    let sent = send_list replies s.low in
    let s' = record s { low = sent.left; wb_size = s.wb_size - length sent.bytes } in
    let effects' = effects ++ (Effect.written s.fd sent.bytes ∷ []) in
    let step : Socket → Step = λ t. record {
      result = ResultType.quiet;
      socket = t;
      effects = effects';
      replies = sent.replies;
    } in
    if sent.broken
    then close_with s' effects' sent.replies
    else (if list_uncomplete sent.left
        then (raise_uncomplete s' s.high sent.left >>= λ t. some (step t))
        else some (step s'))

-- Step 4 of `send_buffer`
pub send_idle : Socket → List Effect → List WriteReply → Option Step
send_idle s effects replies =
    let effects' = effects ++ (Effect.poll_write s.fd false ∷ []) in
    if is_halfclose s.kind
    then close_with s effects' replies
    else some
        (record { result = ResultType.quiet; socket = s; effects = effects'; replies = replies })

-- What `send_buffer` does with the low list, once the high list was sent.
pub send_rest :
    Socket → List WriteBuffer → List WriteBuffer → List Effect → List WriteReply → Option Step
send_rest s [] [] effects replies = send_idle s effects replies
send_rest s [] (wb ∷ list) effects replies = send_low s effects replies
send_rest s (wb ∷ list) low effects replies =
    some (record { result = ResultType.quiet; socket = s; effects = effects; replies = replies })

-- `send_buffer`
pub send_buffer : Socket → List WriteReply → Option Step
send_buffer s replies =
    let sent = send_list replies s.high in
    let s' = record s { high = sent.left; wb_size = s.wb_size - length sent.bytes } in
    let effects = Effect.written s.fd sent.bytes ∷ [] in
    if list_uncomplete s.low
    then none
    else (if sent.broken
        then close_with s' effects sent.replies
        else send_rest s' sent.left s.low effects sent.replies)
