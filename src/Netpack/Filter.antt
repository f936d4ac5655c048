-- ===== src/Netpack/Filter.antt =====
-- lualib-src/lua-netpack.c: what is done with one socket message.
use ctkjserver.Base.{
  ℕ, zero, suc, ◌+◌, ◌-◌, ◌*◌, ◌^◌, bit_or, Option, none, some, List, [], ◌∷◌, length, take, drop,
  ltb, ◌==◌, if◌then◌else◌,
}
use ctkjserver.Base.Int.{ℤ, pos, negsuc}
use ctkjserver.Netpack.{
  Cell, Uncomplete, Queue, get_queue, memcpy, malloc, find_uncomplete, link_uncomplete, save_header,
  save_part, push_data, push_clone, read_size, push_more, close_uncomplete,
}

-- What `filter` returns to Lua behind the queue.
pub data Event : Type 0 where
  nothing : Event
  data_of : ℕ → List Cell → ℕ → Event
  more : Event
  close : ℕ → Event
  opened : ℕ → List ℕ → Event
  error : ℕ → List ℕ → Event
  warning : ℕ → ℕ → Event

infixl 5 ◌>>=◌
abbrev pub ◌>>=◌ {ℓ κ} : {A : Type ℓ} {B : Type κ} → Option A → (A → Option B) → Option B
none >>= f = none
some a >>= f = f a

-- `push_more` with the fuel that it needs
abbrev pub push_rest : Queue → ℕ → List ℕ → Option Queue
push_rest q fd buffer = push_more (length buffer) q fd buffer

-- `filter_data_` from `int need` on: the entry `uc`, with `got` bytes read, is out of its chain.
unfoldable pub fill : Queue → ℕ → Uncomplete → ℕ → List ℕ → Option (Option Queue × Event)
fill q fd uc got buffer =
    let need = uc.pack.size - got in
    let rest = drop need buffer in
    let whole = memcpy uc.pack.buffer got (take need buffer) in
    if ltb (length buffer) need
    then some (
      some (
          link_uncomplete q fd (record uc {
            pack = record (uc.pack) { buffer = memcpy uc.pack.buffer got buffer };
            read = pos (got + length buffer);
          })),
      nothing,
    )
    else (if length rest == 0
        then some (some q, data_of fd whole uc.pack.size)
        else (do q' ← push_rest (push_data q fd whole uc.pack.size) fd rest; some (some q', more)))

-- The two branches of `filter_data_`: an entry was found, or none.
unfoldable pub continue_uncomplete :
    Queue → ℕ → Uncomplete → ℤ → List ℕ → Option (Option Queue × Event)
continue_uncomplete q fd uc (pos got) buffer = fill q fd uc got buffer
continue_uncomplete q fd uc (negsuc zero) [] = none
continue_uncomplete q fd uc (negsuc zero) (b ∷ buffer) =
    let pack_size = bit_or b (uc.header * 2 ^ 8) in
    fill q fd
      (record uc {
        pack = record (uc.pack) { size = pack_size; buffer = malloc pack_size };
        read = pos 0;
      })
      0 buffer
continue_uncomplete q fd uc (negsuc (suc n)) buffer = none

unfoldable pub start_package : Option Queue → ℕ → List ℕ → Option (Option Queue × Event)
start_package q fd [] = none
start_package q fd (b ∷ []) = some (some (save_header (get_queue q) fd b), nothing)
start_package q fd (b0 ∷ b1 ∷ buffer) =
    let pack_size = read_size b0 b1 in
    let first = push_clone (get_queue q) fd (take pack_size buffer) pack_size in
    if ltb (length buffer) pack_size
    then some (some (save_part (get_queue q) fd pack_size buffer), nothing)
    else (if length buffer == pack_size
        then some (q, data_of fd (memcpy (malloc pack_size) 0 buffer) pack_size)
        else (do q' ← push_rest first fd (drop pack_size buffer); some (some q', more)))

-- `if (uc)` in `filter_data_`
unfoldable pub branch :
    Option Uncomplete → Option Queue → Queue → ℕ → List ℕ → Option (Option Queue × Event)
branch none oq q fd buffer = start_package oq fd buffer
branch (some uc) oq q fd buffer = continue_uncomplete q fd uc uc.read buffer

-- `filter_data_`: the search for an entry needs a queue.
unfoldable pub filter_data : Option Queue → ℕ → List ℕ → Option (Option Queue × Event)
unfolding branch
filter_data none fd buffer = start_package none fd buffer
filter_data (some q) fd buffer =
    let found = find_uncomplete q fd in branch found.0 (some found.1) found.1 fd buffer

-- `struct skynet_socket_message` by its type: the id, `ud` and the text behind the message.
pub data SocketMessage : Type 0 where
  received : ℕ → List ℕ → SocketMessage
  connected : ℕ → SocketMessage
  closed : ℕ → SocketMessage
  accepted : ℕ → ℕ → List ℕ → SocketMessage
  failed : ℕ → List ℕ → SocketMessage
  overloaded : ℕ → ℕ → SocketMessage

-- `lfilter`
unfoldable pub lfilter : Option Queue → SocketMessage → Option (Option Queue × Event)
lfilter q (received id bytes) = filter_data q id bytes
lfilter q (connected id) = some (q, nothing)
lfilter q (closed id) = some (close_uncomplete q id, close id)
lfilter q (accepted id ud addr) = some (q, opened ud addr)
lfilter q (failed id text) = some (close_uncomplete q id, error id text)
lfilter q (overloaded id ud) = some (q, warning id ud)
