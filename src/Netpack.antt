-- ===== src/Netpack.antt =====
-- lualib-src/lua-netpack.c: packages of a 16-bit big-endian size and that many bytes, cut out of
-- the byte chunks that sockets deliver.
--
-- A byte is a number below 256. A `malloc`ed buffer is a list of cells that hold nothing until they
-- are written. The Lua stack is the arguments and results. `none` as a result is a read outside the
-- chunk or a failed `assert`.
pub mod Filter
pub mod Spec
pub mod Buffers
pub mod Table
pub mod State
pub mod Push
pub mod Packets
pub mod Reassemble
pub mod Stream
pub mod Session
pub mod Dispatch
pub mod Delivery
mod Tests
use ctkjserver.Base.{
  ℕ, zero, suc, ◌+◌, ◌-◌, ◌*◌, ◌/◌, ◌%◌, ◌^◌, bit_and, bit_or, Option, none, some, List, [], ◌∷◌,
  ◌++◌, map, set, get_or, length, take, drop, replicate, ltb, ◌==◌, if◌then◌else◌, u32, u8,
}
use ctkjserver.Base.Arrays.{update}
use ctkjserver.Base.Int.{ℤ, pos, negsuc}
use ctkjserver.Base.Window.{copy_round, window, used}

-- A cell of a buffer.
abbrev pub Cell : Type 0
Cell = Option ℕ

-- `struct netpack`
pub record Pack : Type 0 where
  pub id : ℕ
  pub size : ℕ
  pub buffer : List Cell

-- `struct uncomplete`, without the `next` pointer: a hash chain is a list.
pub record Uncomplete : Type 0 where
  pub pack : Pack
  pub read : ℤ
  pub header : ℕ

-- `struct queue`; a place of the array holds nothing until it is written.
pub record Queue : Type 0 where
  pub cap : ℕ
  pub head : ℕ
  pub tail : ℕ
  pub hash : ℕ → List Uncomplete
  pub queue : List (Option Pack)

abbrev pub queue_size : ℕ
queue_size = 1024

abbrev pub hash_size : ℕ
hash_size = 4096

-- `hash_fd`
pub hash_fd : ℕ → ℕ
hash_fd fd = u32 (fd / 2 ^ 24 + fd / 2 ^ 12 + fd) % hash_size

-- The queue that `get_queue` makes when there is none.
abbrev pub new_queue : Queue
new_queue = record {
  cap = queue_size;
  head = 0;
  tail = 0;
  hash = λ _. [];
  queue = replicate queue_size none;
}

-- `get_queue`
abbrev pub get_queue : Option Queue → Queue
get_queue none = new_queue
get_queue (some q) = q

-- `memcpy(dst + i, src, n)` for the bytes of `src`
abbrev pub memcpy : List Cell → ℕ → List ℕ → List Cell
memcpy dst i [] = dst
memcpy dst i (x ∷ xs) = memcpy (set dst i (some x)) (i + 1) xs

abbrev pub malloc : ℕ → List Cell
malloc n = replicate n none

-- The search in one chain: the first entry of `fd` is taken out.
pub unlink : ℕ → List Uncomplete → Option Uncomplete × List Uncomplete
unlink fd [] = (none, [])
unlink fd (uc ∷ rest) =
    let later = unlink fd rest in
    if uc.pack.id == fd then (some uc, rest) else (later.0, uc ∷ later.1)

-- `find_uncomplete`
pub find_uncomplete : Queue → ℕ → Option Uncomplete × Queue
find_uncomplete q fd =
    let found = unlink fd (q.hash (hash_fd fd)) in
    (found.0, record q { hash = update q.hash (hash_fd fd) found.1 })

-- `uc->next = q->hash[h]; q->hash[h] = uc;` as in `save_uncomplete` and `filter_data_`
pub link_uncomplete : Queue → ℕ → Uncomplete → Queue
link_uncomplete q fd uc = record q { hash = update q.hash (hash_fd fd) (uc ∷ q.hash (hash_fd fd)) }

-- `save_uncomplete` with the assignments that follow it when one byte of the size is there.
pub save_header : Queue → ℕ → ℕ → Queue
save_header q fd header =
    link_uncomplete q fd
      record { pack = record { id = fd; size = 0; buffer = [] }; read = negsuc 0; header = header }

-- `save_uncomplete` with the assignments that follow it when the size is there.
pub save_part : Queue → ℕ → ℕ → List ℕ → Queue
save_part q fd pack_size buffer = link_uncomplete q fd record {
  pack = record { id = fd; size = pack_size; buffer = memcpy (malloc pack_size) 0 buffer };
  read = pos (length buffer);
  header = 0;
}

-- `expand_queue`: the new array has `QUEUESIZE` more places.
pub expand_queue : Queue → Queue
expand_queue q = record q {
  cap = q.cap + queue_size;
  head = 0;
  tail = q.cap;
  queue = copy_round none q.queue q.head q.cap q.cap 0 (replicate (q.cap + queue_size) none);
}

-- `push_data` with a buffer that the queue owns
pub push_data : Queue → ℕ → List Cell → ℕ → Queue
unfolding expand_queue
push_data q fd buffer size =
    let pack : Pack = record { id = fd; size = size; buffer = buffer } in
    let tail = if ltb (q.tail + 1) q.cap then q.tail + 1 else q.tail + 1 - q.cap in
    let q' : Queue = record q { tail = tail; queue = set q.queue q.tail (some pack) } in
    if q.head == tail then expand_queue q' else q'

-- `push_data` with `clone`: the bytes are copied to a new buffer.
abbrev pub push_clone : Queue → ℕ → List ℕ → ℕ → Queue
push_clone q fd bytes size = push_data q fd (memcpy (malloc size) 0 bytes) size

-- `read_size`
abbrev pub read_size : ℕ → ℕ → ℕ
read_size b0 b1 = bit_or (b0 * 2 ^ 8) b1

-- `push_more`. The fuel is the number of bytes: see `Packets.push_more_split`.
pub push_more : ℕ → Queue → ℕ → List ℕ → Option Queue
push_more zero q fd buffer = none
push_more (suc f) q fd [] = none
push_more (suc f) q fd (b ∷ []) = some (save_header q fd b)
push_more (suc f) q fd (b0 ∷ b1 ∷ buffer) =
    let pack_size = read_size b0 b1 in
    let rest = drop pack_size buffer in
    let q' = push_clone q fd (take pack_size buffer) pack_size in
    let more = push_more f q' fd rest in
    if ltb (length buffer) pack_size
    then some (save_part q fd pack_size buffer)
    else (if ltb 0 (length rest) then more else some q')

-- `close_uncomplete`
pub close_uncomplete : Option Queue → ℕ → Option Queue
close_uncomplete none fd = none
close_uncomplete (some q) fd = some (find_uncomplete q fd).1

-- `lpop`: the package taken, if any.
pub lpop : Option Queue → Option (Option Pack) × Option Queue
lpop none = (none, none)
lpop (some q) = if q.head == q.tail then (none, some q) else (
  some (get_or q.queue q.head none),
  some (record q { head = if ltb (q.head + 1) q.cap then q.head + 1 else 0 }),
)

-- `lclear`: the packages whose buffers it frees, in order, and the queue. The entries of the hash
-- table are freed with their chains.
pub lclear : Option Queue → List (Option Pack) × Option Queue
lclear none = ([], none)
lclear (some q) = (
  window none q.queue q.cap q.head (used q.cap q.head q.tail),
  some (record q { head = 0; tail = 0; hash = λ _. [] }),
)

-- `lpack` with `write_size`; `none` is the error "Invalid size".
pub lpack : List ℕ → Option (List ℕ)
lpack bytes =
    let len = length bytes in
    if ltb len 0x10000 then some (bit_and (len / 2 ^ 8) 0xff ∷ bit_and len 0xff ∷ bytes) else none
