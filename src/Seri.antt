-- ===== src/Seri.antt =====
-- lualib-src/lua-seri.c: Lua values as bytes, and the blocks that the bytes are written to.
--
-- A `lua_Integer`, a `lua_Number` and a pointer are their 64 bits, lowest byte first as on the machines
-- that run this. A table is the list of its array part and the list of its other pairs, in the order in
-- which `lua_next`, or the metamethod `__pairs`, gives them.
pub mod Write
pub mod Read
pub mod Encode
pub mod Blocks
pub mod Words
pub mod Pack
pub mod Unpack
pub mod RoundTrip
pub mod Depth
mod Tests
use ctkjserver.Base.{
  ℕ, zero, suc, ◌+◌, ◌-◌, ◌*◌, ◌/◌, ◌%◌, Bool, ◌&&◌, List, [], ◌∷◌, ◌++◌, length, take, drop, leb,
  ◌==◌, if◌then◌else◌,
}

mutual
  pub data Value : Type 0 where
    nil : Value
    boolean : Bool → Value
    integer : ℕ → Value
    real : ℕ → Value
    pointer : ℕ → Value
    string : List ℕ → Value
    table : Values → Pairs → Value
    unsupported : Value

  pub data Values : Type 0 where
    none_left : Values
    item : Value → Values → Values

  pub data Pairs : Type 0 where
    end : Pairs
    pair : Value → Value → Pairs → Pairs

-- BLOCK_SIZE
abbrev pub block_size : ℕ
block_size = 128

-- MAX_COOKIE
abbrev pub max_cookie : ℕ
max_cookie = 32

-- MAX_DEPTH
abbrev pub max_depth : ℕ
max_depth = 32

-- TYPE_NIL and so on; `hibits` of a number.
abbrev pub type_nil : ℕ
type_nil = 0

abbrev pub type_boolean : ℕ
type_boolean = 1

abbrev pub type_number : ℕ
type_number = 2

abbrev pub type_userdata : ℕ
type_userdata = 3

abbrev pub type_short_string : ℕ
type_short_string = 4

abbrev pub type_long_string : ℕ
type_long_string = 5

abbrev pub type_table : ℕ
type_table = 6

abbrev pub number_zero : ℕ
number_zero = 0

abbrev pub number_byte : ℕ
number_byte = 1

abbrev pub number_word : ℕ
number_word = 2

abbrev pub number_dword : ℕ
number_dword = 4

abbrev pub number_qword : ℕ
number_qword = 6

abbrev pub number_real : ℕ
number_real = 8

-- COMBINE_TYPE: the type has three bits, so `|` is a sum.
abbrev pub combine_type : ℕ → ℕ → ℕ
combine_type t v = t + v * 8

-- `struct write_block`: the blocks that are full, the bytes of the current one, of which `ptr` is the
-- number, and `len`.
pub record WriteBlock : Type 0 where
  pub full : List (List ℕ)
  pub current : List ℕ
  pub len : ℕ

-- `wb_init`
abbrev pub wb_init : WriteBlock
wb_init = record { full = []; current = []; len = 0 }

-- A new block, if the current one is full.
abbrev pub with_room : WriteBlock → WriteBlock
with_room b =
    if length b.current == block_size
    then record b { full = b.full ++ (b.current ∷ []); current = [] }
    else b

-- `memcpy` to the current block
abbrev pub copied : WriteBlock → List ℕ → WriteBlock
copied b bytes = record b { current = b.current ++ bytes; len = b.len + length bytes }

-- `wb_push`, for the rounds of its loop: after the first, each fills a block.
unfoldable pub push_rounds : ℕ → WriteBlock → List ℕ → WriteBlock
push_rounds zero b buffer = b
push_rounds (suc rounds) b buffer =
    let b' = with_room b in
    let copy = block_size - length b'.current in
    let next = push_rounds rounds (copied b' (take copy buffer)) (drop copy buffer) in
    if leb (length b'.current) (block_size - length buffer) && leb (length buffer) block_size
    then copied b' buffer
    else next

-- `wb_push`
unfoldable pub wb_push : WriteBlock → List ℕ → WriteBlock
wb_push b buffer = push_rounds (suc (length buffer)) b buffer

-- `seri`, after the first block: the first `len` bytes of the blocks.
unfoldable pub seri_blocks : List (List ℕ) → ℕ → List ℕ
seri_blocks [] len = []
seri_blocks (b ∷ blocks) len =
    let rest = seri_blocks blocks (len - block_size) in
    if len == 0 then [] else (if leb block_size len then take block_size b ++ rest else take len b)

-- `seri`
unfoldable pub seri : WriteBlock → List ℕ
seri b = seri_blocks (b.full ++ (b.current ∷ [])) b.len
