-- ===== src/Seri/Write.antt =====
-- lualib-src/lua-seri.c: `luaseri_pack`. An error is `none`.
use ctkjserver.Base.{
  ℕ, suc, ◌+◌, ◌-◌, ◌*◌, ◌%◌, ◌^◌, Bool, ◌||◌, Option, none, some, List, [], ◌∷◌, length, take, ltb,
  leb, ◌==◌, if◌then◌else◌,
}
use ctkjserver.Base.Int.{ℤ, pos, negsuc, to_int32}
use ctkjserver.Seri.{
  Value, Values, Pairs, max_cookie, max_depth, type_nil, type_boolean, type_number, type_userdata,
  type_short_string, type_long_string, type_table, number_zero, number_byte, number_word,
  number_dword, number_qword, number_real, combine_type, WriteBlock, wb_init, wb_push, seri,
}
use ctkjserver.Seri.Words.{bytes_of}

infixl 5 ◌>>=◌
abbrev pub ◌>>=◌ {ℓ κ} : {A : Type ℓ} {B : Type κ} → Option A → (A → Option B) → Option B
none >>= f = none
some a >>= f = f a

-- A byte, and a byte and what follows it
abbrev pub push_byte : WriteBlock → ℕ → WriteBlock
push_byte b n = wb_push b (n ∷ [])

abbrev pub push_with : WriteBlock → ℕ → List ℕ → WriteBlock
push_with b n bytes = wb_push (push_byte b n) bytes

-- `wb_nil`
unfoldable pub wb_nil : WriteBlock → WriteBlock
wb_nil b = push_byte b type_nil

-- `wb_boolean`
unfoldable pub wb_boolean : WriteBlock → Bool → WriteBlock
wb_boolean b v = push_byte b (combine_type type_boolean (if v then 1 else 0))

-- Whether the `int64_t` of these bits is an `int32_t`.
abbrev pub is_int32 : ℕ → Bool
is_int32 v = ltb v (2 ^ 31) || leb (2 ^ 64 - 2 ^ 31) v

-- `wb_integer`
unfoldable pub wb_integer : WriteBlock → ℕ → WriteBlock
wb_integer b v =
    if v == 0
    then push_byte b (combine_type type_number number_zero)
    else (if is_int32 v
        then (if leb (2 ^ 63) v
            then push_with b (combine_type type_number number_dword) (bytes_of 4 v)
            else (if ltb v 256
                then push_with b (combine_type type_number number_byte) (bytes_of 1 v)
                else (if ltb v 65536
                    then push_with b (combine_type type_number number_word) (bytes_of 2 v)
                    else push_with b (combine_type type_number number_dword) (bytes_of 4 v))))
        else push_with b (combine_type type_number number_qword) (bytes_of 8 v))

-- `wb_real`
unfoldable pub wb_real : WriteBlock → ℕ → WriteBlock
wb_real b v = push_with b (combine_type type_number number_real) (bytes_of 8 v)

-- `wb_pointer`
unfoldable pub wb_pointer : WriteBlock → ℕ → WriteBlock
wb_pointer b v = push_with b type_userdata (bytes_of 8 v)

-- `wb_string`; of a length below 0, `COMBINE_TYPE` keeps the low byte.
unfoldable pub wb_string : WriteBlock → List ℕ → ℤ → WriteBlock
wb_string b str (negsuc k) = push_byte b ((type_short_string + (2 ^ 32 - suc k) * 8) % 2 ^ 8)
wb_string b str (pos len) =
    let bytes = take len str in
    if ltb len max_cookie
    then (if ltb 0 len
        then push_with b (combine_type type_short_string len) bytes
        else push_byte b (combine_type type_short_string len))
    else (if ltb len 65536
        then wb_push (push_with b (combine_type type_long_string 2) (bytes_of 2 len)) bytes
        else wb_push (push_with b (combine_type type_long_string 4) (bytes_of 4 len)) bytes)

abbrev pub count_of : Values → ℕ
count_of Values.none_left = 0
count_of (Values.item v vs) = suc (count_of vs)

-- The start of `wb_table_array`
unfoldable pub wb_size : WriteBlock → ℕ → WriteBlock
wb_size b array_size =
    if leb (max_cookie - 1) array_size
    then wb_integer (push_byte b (combine_type type_table (max_cookie - 1))) array_size
    else push_byte b (combine_type type_table array_size)

-- `pack_one`, the loop of `wb_table_array`, and `wb_table_hash` with the nil at its end
unfoldable mutual
  pub pack_one : WriteBlock → Value → (depth : ℕ) → Option WriteBlock
  pack_one b Value.nil depth = if ltb max_depth depth then none else some (wb_nil b)
  pack_one b (Value.boolean v) depth = if ltb max_depth depth then none else some (wb_boolean b v)
  pack_one b (Value.integer v) depth = if ltb max_depth depth then none else some (wb_integer b v)
  pack_one b (Value.real v) depth = if ltb max_depth depth then none else some (wb_real b v)
  pack_one b (Value.pointer v) depth = if ltb max_depth depth then none else some (wb_pointer b v)
  pack_one b (Value.string v) depth =
      if ltb max_depth depth then none else some (wb_string b v (to_int32 (length v)))
  pack_one b (Value.table vs ps) depth =
      let written = pack_items (wb_size b (count_of vs)) vs (suc depth) >>= λ b'.
      pack_pairs b' ps (suc depth) in
      if ltb max_depth depth then none else written
  pack_one b Value.unsupported depth = none

  pub pack_items : WriteBlock → Values → (depth : ℕ) → Option WriteBlock
  pack_items b Values.none_left depth = some b
  pack_items b (Values.item v vs) depth = pack_one b v depth >>= λ b'. pack_items b' vs depth

  pub pack_pairs : WriteBlock → Pairs → (depth : ℕ) → Option WriteBlock
  pack_pairs b Pairs.end depth = some (wb_nil b)
  pack_pairs b (Pairs.pair k v ps) depth =
      pack_one b k depth >>= λ b'. pack_one b' v depth >>= λ b''. pack_pairs b'' ps depth

-- `_luaseri_pack`, with `pack_from`. The `len` of the blocks only grows, so it overflowed as an `int`
-- somewhere if it is too large at the end, which is `none`.
unfoldable pub luaseri_pack : Values → Option (List ℕ)
luaseri_pack vs =
    pack_items wb_init vs 0 >>= λ b. if ltb b.len (2 ^ 31) then some (seri b) else none
