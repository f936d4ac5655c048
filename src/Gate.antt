-- ===== src/Gate.antt =====
-- service-src/databuffer.h, and what service-src/service_gate.c does with the bytes of a connection.
--
-- The linked list of messages is a list of their bytes, and `size` of a message their number. The
-- pool of list nodes is left out: it holds memory for them, and no content. What the gate does to
-- the outside is a list of actions.
pub mod Read
pub mod Stream
pub mod Socket
mod Tests
use ctkjserver.Base.{
  ℕ, zero, suc, ◌+◌, ◌-◌, ◌*◌, ◌^◌, Bool, true, false, Option, none, some, List, [], ◌∷◌, ◌++◌,
  length, take, drop, get_or, bit_or, ltb, ◌==◌, if◌then◌else◌,
}
use ctkjserver.Base.Int.{ℤ, pos, negsuc}

-- `struct databuffer`
pub record DataBuffer : Type 0 where
  pub header : ℤ
  pub offset : ℕ
  pub size : ℕ
  pub messages : List (List ℕ)

infixl 5 ◌>>=◌
abbrev pub ◌>>=◌ {ℓ κ} : {A : Type ℓ} {B : Type κ} → Option A → (A → Option B) → Option B
none >>= f = none
some a >>= f = f a

-- The loop of `databuffer_read`: the bytes read, the offset and the messages left. A read past the
-- last message would go through NULL.
pub read_messages : List (List ℕ) → ℕ → ℕ → Option (List ℕ × ℕ × List (List ℕ))
read_messages [] offset sz = none
read_messages (m ∷ rest) offset sz =
    let bsz = length m - offset in
    let next = read_messages rest 0 (sz - bsz) in
    if ltb sz bsz
    then some (take sz (drop offset m), offset + sz, m ∷ rest)
    else (if bsz == sz
        then some (take sz (drop offset m), 0, rest)
        else (next >>= λ r. some (take bsz (drop offset m) ++ r.0, r.1, r.2)))

-- `databuffer_read`
pub read : DataBuffer → ℕ → Option (List ℕ × DataBuffer)
read db sz = if ltb db.size sz then none else do
  r ← read_messages db.messages db.offset sz
  some (r.0, record db { size = db.size - sz; offset = r.1; messages = r.2 })

-- `databuffer_push`
abbrev pub push : DataBuffer → List ℕ → DataBuffer
push db buffer = record db {
  size = db.size + length buffer;
  messages = db.messages ++ (buffer ∷ []);
}

-- `databuffer_reset`
abbrev pub reset : DataBuffer → DataBuffer
reset db = record db { header = pos 0 }

-- `databuffer_clear`
abbrev pub clear : DataBuffer
clear = record { header = pos 0; offset = 0; size = 0; messages = [] }

-- A 32-bit pattern as an `int`.
abbrev pub to_int : ℕ → ℤ
to_int v = if ltb v (2 ^ 31) then pos v else negsuc (2 ^ 32 - 1 - v)

-- The header of 2 or 4 bytes, big-endian.
abbrev pub parse_header : ℕ → List ℕ → ℤ
parse_header header_size plen =
    let two = bit_or (get_or plen 0 0 * 2 ^ 8) (get_or plen 1 0) in
    let three = bit_or (get_or plen 0 0 * 2 ^ 24) (get_or plen 1 0 * 2 ^ 16) in
    if header_size == 2
    then pos two
    else to_int (bit_or (bit_or three (get_or plen 2 0 * 2 ^ 8)) (get_or plen 3 0))

-- The end of `databuffer_readheader`: -1 while the bytes of the package are not all there.
pub package_size : DataBuffer → ℤ → ℤ
package_size db (pos n) = if ltb db.size n then negsuc 0 else pos n
package_size db (negsuc n) = negsuc n

-- The package whose header is known.
abbrev ready : DataBuffer → ℤ × DataBuffer
ready db = (package_size db db.header, db)

-- The branch of `databuffer_readheader` that reads a header.
pub parse : DataBuffer → ℕ → Option (ℤ × DataBuffer)
parse db header_size = if ltb db.size header_size then some (negsuc 0, db) else do
  r ← read db header_size
  some (ready (record (r.1) { header = parse_header header_size r.0 }))

-- `databuffer_readheader`, with the header that the buffer has: 0 is none.
pub with_header : ℤ → DataBuffer → ℕ → Option (ℤ × DataBuffer)
with_header (pos zero) db header_size = parse db header_size
with_header (pos (suc n)) db header_size = some (package_size db (pos (suc n)), db)
with_header (negsuc n) db header_size = some (package_size db (negsuc n), db)

-- `databuffer_readheader`
abbrev pub readheader : DataBuffer → ℕ → Option (ℤ × DataBuffer)
readheader db header_size = with_header db.header db header_size

-- What the gate does: `text` is `skynet_send` of "%d data " with the connection and then the bytes,
-- `opened` and `closed` are the reports of `_report`, `error` is a line of the log.
pub data Action : Type 0 where
  send : (source target : ℕ) → List ℕ → Action
  text : (target connection : ℕ) → List ℕ → Action
  close : (connection : ℕ) → Action
  error : (connection : ℕ) → Action
  opened : (target connection : ℕ) → List ℕ → Action
  closed : (target connection : ℕ) → Action
  write : (connection : ℕ) → List ℕ → Action

-- What `_forward` reads of the gate and of the connection.
pub record Route : Type 0 where
  pub broker : ℕ
  pub watchdog : ℕ
  pub agent : ℕ
  pub client : ℕ
  pub id : ℕ

-- The action of `_forward` for the bytes of a package, if there is a receiver.
pub receiver : Route → Option (List ℕ → Action)
receiver route =
    if route.broker == 0
    then (if route.agent == 0
        then (if route.watchdog == 0 then none else some (Action.text route.watchdog route.id))
        else some (Action.send route.client route.agent))
    else some (Action.send 0 route.broker)

-- `_forward`: without a receiver nothing is read.
pub forward : Route → DataBuffer → ℕ → Option (List Action × DataBuffer)
forward route db size = elim (receiver route) [
  | none ↦ some ([], db)
  | some action ↦ read db size >>= λ r. some (action r.0 ∷ [], r.1)
]

-- The loop of `dispatch_message`, on fuel, as `none` when it runs out.
pub dispatch_loop : ℕ → Route → ℕ → DataBuffer → Option (List Action × DataBuffer)
dispatch_loop zero route header_size db = none
dispatch_loop (suc f) route header_size db = readheader db header_size >>= λ r. elim (r.0) [
  | negsuc n ↦ some ([], r.1)
  | pos zero ↦ dispatch_loop f route header_size (r.1)
  | pos (suc n) ↦
      let rest : List Action × DataBuffer → Option (List Action × DataBuffer) =
        λ t. dispatch_loop f route header_size (reset (t.1)) >>= λ u. some (t.0 ++ u.0, u.1) in
      if ltb (suc n) 0x1000000
      then (forward route (r.1) (suc n) >>= rest)
      else some (Action.close route.id ∷ Action.error route.id ∷ [], clear)
]

-- `dispatch_message`. Each round but the last takes a byte at least: see `Gate.Stream`.
pub dispatch_message : Route → ℕ → DataBuffer → List ℕ → Option (List Action × DataBuffer)
dispatch_message route header_size db buffer =
    let pushed = push db buffer in dispatch_loop (pushed.size + 1) route header_size pushed
