-- ===== src/Socket/Tests.antt =====
-- Runs of a socket and of the server on small inputs, and the theorems at them.
use mathlib.Core.List.{Perm}
use ctkjserver.Base.{
  ℕ, ◌-◌, ◌≡◌, refl, true, false, Option, none, some, List, [], ◌∷◌, ◌++◌, map, length, take, arith,
}
use ctkjserver.Base.Slices.{joined}
use ctkjserver.Socket.{
  SocketType, WriteBuffer, Socket, WriteReply, Effect, ResultType, force_close, send_list,
  close_with, send_low, send_idle, send_rest, raise_uncomplete, send_buffer,
}
use ctkjserver.Socket.Request.{
  Request, wrote_part, send_direct, send_socket, finish_close, close_socket, quietly,
}
use ctkjserver.Socket.Receive.{ReadReply, Forward, PoolEvent, forward_message_tcp, dispatch}
use ctkjserver.Socket.Send.{begun}
use ctkjserver.Socket.Stream.{written_of, IsOrdered, queued}
use ctkjserver.Socket.Life.{Event, handle, run, taken}
use ctkjserver.Socket.Delivery.{Delivered, run-Delivered, run-in_order}
use ctkjserver.Socket.Drained.{writable, run-drains}
use ctkjserver.Socket.Reads.{Sizes, forward_message_tcp_lem}
use ctkjserver.Socket.Server.{Server, store, reserve_id, Attempt}
use ctkjserver.Socket.Server.Control.{Command, AcceptReply, ctrl_cmd, pool_event}
use ctkjserver.Socket.Server.Reserve.{reserved_at, Found, reserve_id_lem}
use ctkjserver.Socket.Server.Slots.{IsServer, store-IsServer, fresh-IsSlot, invalid-IsSlot}
use ctkjserver.Socket.Server.Open.{Serves}
use ctkjserver.Socket.Server.Commands.{slot_of, ctrl_cmd-Serves}
use ctkjserver.Socket.Server.Events.{reserved-IsServer, pool_event-Serves}

abbrev bare : SocketType → Socket
bare kind = record {
  opaque = 2;
  high = [];
  low = [];
  wb_size = 0;
  fd = 9;
  id = 5;
  kind = kind;
  size = 64;
}

bare-IsOrdered : (k : SocketType) → IsOrdered (bare k)
bare-IsOrdered k = record { high = tt; low = tt; plain = tt; count = refl }

abbrev packet : List ℕ → Request
packet bytes = record { id = 5; buffer = bytes; userobject = false }

-- The first package is sent in part; the second, of low priority, waits; then both are sent.
abbrev events : List Event
events =
    Event.send (packet (1 ∷ 2 ∷ 3 ∷ [])) false (WriteReply.wrote 1 ∷ [])
    ∷ Event.send (packet (4 ∷ 5 ∷ [])) true []
    ∷ writable (WriteReply.wrote 2 ∷ WriteReply.wrote 1 ∷ [])
    ∷ Event.close (record { id = 5; shutdown = false; opaque = 7 }) []
    ∷ writable (WriteReply.interrupted ∷ WriteReply.wrote 1 ∷ [])
    ∷ writable []
    ∷ []

abbrev bytes_of : Option (Socket × List Effect) → List ℕ
bytes_of none = []
bytes_of (some r) = written_of r.1

events_written : bytes_of (run (bare SocketType.connected) events) ≡ 1 ∷ 2 ∷ 3 ∷ 4 ∷ 5 ∷ []
unfolding run handle send_socket send_direct wrote_part dispatch send_buffer send_list send_rest
    send_low send_idle raise_uncomplete close_socket finish_close close_with force_close
events_written = refl

run-Delivered_example :
    (t : Socket) × (effects : List Effect) × (run (bare SocketType.connected) events
      ≡ some (t, effects))
    × Delivered Perm
        (queued (bare SocketType.connected) ++ taken (bare SocketType.connected) events)
        (begun (bare SocketType.connected).high ++ written_of effects)
        t
run-Delivered_example =
    run-Delivered (bare SocketType.connected) events
      ((λ e. refl), ((λ e. refl), (tt, (tt, (tt, (tt, tt)))))) refl
      (bare-IsOrdered SocketType.connected)

-- Two packages, sent while the connection is made.
abbrev early : List Event
early =
    Event.send (packet (1 ∷ 2 ∷ [])) false []
    ∷ Event.send (packet (3 ∷ [])) false []
    ∷ writable (WriteReply.wrote 9 ∷ [])
    ∷ writable (WriteReply.wrote 9 ∷ WriteReply.wrote 9 ∷ [])
    ∷ []

run-in_order_example :
    (t : Socket) × (effects : List Effect) × (run (bare SocketType.connecting) early
      ≡ some (t, effects))
    × Delivered ◌≡◌
        (queued (bare SocketType.connecting) ++ taken (bare SocketType.connecting) early)
        (begun (bare SocketType.connecting).high ++ written_of effects)
        t
run-in_order_example =
    run-in_order (bare SocketType.connecting) early (refl, (refl, (refl, (refl, tt)))) refl refl
      (bare-IsOrdered SocketType.connecting)

abbrev buffer_of : List ℕ → ℕ → WriteBuffer
buffer_of bytes ptr = record {
  buffer = bytes;
  ptr = ptr;
  sz = length bytes - ptr;
  userobject = false;
}

-- A half-closed socket with a package of which a byte was written, and one of low priority.
abbrev closing : Socket
closing = record (bare SocketType.halfclose) {
  high = buffer_of (1 ∷ 2 ∷ []) 1 ∷ [];
  low = buffer_of (3 ∷ []) 0 ∷ [];
  wb_size = 2;
}

abbrev rounds : List (List WriteReply)
rounds =
    (WriteReply.wrote 1 ∷ [])
    ∷ (WriteReply.wrote 1 ∷ [])
    ∷ (WriteReply.wrote 1 ∷ [])
    ∷ (WriteReply.wrote 1 ∷ [])
    ∷ (WriteReply.wrote 1 ∷ [])
    ∷ []

closing-IsOrdered : IsOrdered closing
closing-IsOrdered = record {
  high = (refl, tt);
  low = ((refl, refl), tt);
  plain = (refl, tt);
  count = refl;
}

run-drains_example :
    (t : Socket) × (effects : List Effect) × (run closing (map writable rounds) ≡ some (t, effects))
    × (t.kind ≡ SocketType.invalid)
    × (begun closing.high ++ written_of effects ≡ joined (queued closing))
run-drains_example =
    run-drains closing rounds (tt, (tt, (tt, (tt, (tt, tt))))) refl closing-IsOrdered (omega arith)

-- An object of the host that waits with low priority fails the assert of `send_buffer`.
object_asserts :
    send_buffer
      (record closing { low = record (buffer_of (3 ∷ []) 0) { userobject = true } ∷ [] })
      []
    ≡ none
unfolding send_buffer
object_asserts = refl

-- On a socket made of a descriptor, a package waits and no event is asked for.
bind_waits :
    send_socket (bare SocketType.bind) (packet (1 ∷ [])) false []
    ≡ some (
        quietly
          (record (bare SocketType.bind) { high = buffer_of (1 ∷ []) 0 ∷ []; wb_size = 1 })
          []
          [])
unfolding send_socket
bind_waits = refl

forward_message_tcp_lem_example :
    (f : Forward) × (forward_message_tcp
        (bare SocketType.connected)
        (ReadReply.received (1 ∷ 2 ∷ []))
        []
      ≡ some f)
    × (f.step.result ≡ ResultType.got_data)
    × (f.step.effects ≡ [])
    × (f.data_of ≡ take 64 (1 ∷ 2 ∷ []))
    × Sizes 0 (length f.data_of) f.step.socket.size
forward_message_tcp_lem_example =
    forward_message_tcp_lem (bare SocketType.connected) (1 ∷ 2 ∷ []) [] 0 refl refl (omega arith)
      (omega arith)

abbrev empty : Server
empty = record { alloc_id = 4; slot = λ i. bare SocketType.invalid }

empty-IsServer : IsServer empty
empty-IsServer i l = invalid-IsSlot i (bare SocketType.invalid) refl refl refl

reserve_id_lem_example : Found empty (reserve_id empty)
reserve_id_lem_example = reserve_id_lem empty 5 (omega arith) refl

-- The first address refuses, the second is in progress.
abbrev connect : Command
connect =
    Command.connect
      (record {
        id = 5;
        opaque = 2;
        addresses = some (Attempt.refused 9 ∷ Attempt.in_progress 10 ∷ []);
      })
      true

ctrl_cmd-Serves_example :
    Serves (slot_of connect) (reserved_at empty 5) (ctrl_cmd (reserved_at empty 5) connect [])
ctrl_cmd-Serves_example =
    ctrl_cmd-Serves (reserved_at empty 5) connect [] (reserved-IsServer empty 5 empty-IsServer refl)
      refl

abbrev listening : Server
listening = store empty 5 (bare SocketType.listen)

listening-IsServer : IsServer listening
listening-IsServer =
    store-IsServer empty 5 (bare SocketType.listen) empty-IsServer
      (fresh-IsSlot (bare SocketType.listen) refl refl refl)

abbrev readable : PoolEvent
readable = record {
  is_read = true;
  is_write = false;
  ok = true;
  reply = ReadReply.again;
  replies = [];
}

pool_event-Serves_example :
    (j : ℕ) × Serves j listening (pool_event listening 5 readable (AcceptReply.accepted 11))
pool_event-Serves_example =
    pool_event-Serves listening 5 readable (AcceptReply.accepted 11) listening-IsServer
      (omega arith) (refl, refl)
