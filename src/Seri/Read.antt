-- ===== src/Seri/Read.antt =====
-- lualib-src/lua-seri.c: `luaseri_unpack`. An invalid stream is `none`.
--
-- The functions that call one another run on fuel, at most three units for a
-- byte.
use ctkjserver.Base.{
  ℕ, zero, suc, ◌+◌, ◌-◌, ◌*◌, ◌/◌, ◌%◌, ◌^◌, true, false, Option, none, some, List, [], ◌∷◌,
  length, ltb, ◌==◌, if◌then◌else◌,
}
use ctkjserver.Seri.{
  Value, Values, Pairs, max_cookie, type_nil, type_boolean, type_number, type_userdata,
  type_short_string, type_long_string, type_table, number_zero, number_byte, number_word,
  number_dword, number_qword, number_real,
}
use ctkjserver.Seri.Words.{number_of, rb_read}
use ctkjserver.Seri.Write.{◌>>=◌}

-- An `int32_t` as an `int64_t`
abbrev pub widened : ℕ → ℕ
widened n = if ltb n (2 ^ 31) then n else n + (2 ^ 64 - 2 ^ 32)

-- A word of `n` bytes
abbrev pub read_word : List ℕ → ℕ → Option (ℕ × List ℕ)
read_word rb n = rb_read rb n >>= λ r. some (number_of r.0, r.1)

-- `get_integer`
unfoldable pub get_integer : List ℕ → (cookie : ℕ) → Option (ℕ × List ℕ)
get_integer rb cookie =
    if cookie == number_zero
    then some (0, rb)
    else (if cookie == number_byte
        then read_word rb 1
        else (if cookie == number_word
            then read_word rb 2
            else (if cookie == number_dword
                then (read_word rb 4 >>= λ r. some (widened r.0, r.1))
                else (if cookie == number_qword then read_word rb 8 else none))))

-- `get_real` or `get_integer`
unfoldable pub read_number : List ℕ → (cookie : ℕ) → Option (Value × List ℕ)
read_number rb cookie =
    if cookie == number_real
    then (read_word rb 8 >>= λ r. some (Value.real r.0, r.1))
    else (get_integer rb cookie >>= λ r. some (Value.integer r.0, r.1))

-- `get_buffer`
unfoldable pub get_buffer : List ℕ → (len : ℕ) → Option (Value × List ℕ)
get_buffer rb len = rb_read rb len >>= λ r. some (Value.string r.0, r.1)

-- TYPE_LONG_STRING in `push_value`
unfoldable pub read_long_string : List ℕ → (cookie : ℕ) → Option (Value × List ℕ)
read_long_string rb cookie =
    if cookie == 2
    then (read_word rb 2 >>= λ r. get_buffer r.1 r.0)
    else (if cookie == 4 then (read_word rb 4 >>= λ r. get_buffer r.1 r.0) else none)

-- A `lua_Integer` as the `int` that bounds a loop: a negative one ends it at once.
abbrev pub loop_bound : ℕ → ℕ
loop_bound n = if ltb (n % 2 ^ 32) (2 ^ 31) then n % 2 ^ 32 else 0

-- The type byte of the size, in `unpack_table`
unfoldable pub read_array_size : List ℕ → Option (ℕ × List ℕ)
read_array_size [] = none
read_array_size (type ∷ rb) =
    if type % 8 == type_number
    then (if type / 8 == number_real
        then none
        else (get_integer rb (type / 8) >>= λ r. some (loop_bound r.0, r.1)))
    else none

-- The start of `unpack_table`
unfoldable pub table_size : List ℕ → (cookie : ℕ) → Option (ℕ × List ℕ)
table_size rb cookie = if cookie == max_cookie - 1 then read_array_size rb else some (cookie, rb)

-- The cases of the switch of `push_value`
pub data Kind : Type 0 where
  a_nil a_boolean a_number a_pointer a_short_string a_long_string a_table an_error : Kind

abbrev pub kind_of : ℕ → Kind
kind_of type =
    if type == type_nil
    then Kind.a_nil
    else (if type == type_boolean
        then Kind.a_boolean
        else (if type == type_number
            then Kind.a_number
            else (if type == type_userdata
                then Kind.a_pointer
                else (if type == type_short_string
                    then Kind.a_short_string
                    else (if type == type_long_string
                        then Kind.a_long_string
                        else (if type == type_table then Kind.a_table else Kind.an_error))))))

-- `unpack_one`, `push_value`, `unpack_table` and its two loops
unfoldable mutual
  pub unpack_one : (fuel : ℕ) → List ℕ → Option (Value × List ℕ)
  unpack_one zero rb = none
  unpack_one (suc fuel) [] = none
  unpack_one (suc fuel) (type ∷ rb) = push_value fuel (kind_of (type % 8)) (type / 8) rb

  pub push_value : (fuel : ℕ) → Kind → (cookie : ℕ) → List ℕ → Option (Value × List ℕ)
  push_value fuel Kind.a_nil cookie rb = some (Value.nil, rb)
  push_value fuel Kind.a_boolean cookie rb =
      some (Value.boolean (if cookie == 0 then false else true), rb)
  push_value fuel Kind.a_number cookie rb = read_number rb cookie
  push_value fuel Kind.a_pointer cookie rb = read_word rb 8 >>= λ r. some (Value.pointer r.0, r.1)
  push_value fuel Kind.a_short_string cookie rb = get_buffer rb cookie
  push_value fuel Kind.a_long_string cookie rb = read_long_string rb cookie
  push_value zero Kind.a_table cookie rb = none
  push_value (suc fuel) Kind.a_table cookie rb = table_size rb cookie >>= λ size.
      unpack_items fuel size.0 size.1 >>= λ items.
      unpack_pairs fuel items.1 >>= λ pairs. some (Value.table items.0 pairs.0, pairs.1)
  push_value fuel Kind.an_error cookie rb = none

  pub unpack_items : (fuel : ℕ) → (array_size : ℕ) → List ℕ → Option (Values × List ℕ)
  unpack_items fuel zero rb = some (Values.none_left, rb)
  unpack_items zero (suc n) rb = none
  unpack_items (suc fuel) (suc n) rb = unpack_one fuel rb >>= λ v.
      unpack_items fuel n v.1 >>= λ vs. some (Values.item v.0 vs.0, vs.1)

  pub unpack_pairs : (fuel : ℕ) → List ℕ → Option (Pairs × List ℕ)
  unpack_pairs zero rb = none
  unpack_pairs (suc fuel) rb = unpack_one fuel rb >>= λ k. unpack_pair fuel k.0 k.1

  pub unpack_pair : (fuel : ℕ) → (key : Value) → List ℕ → Option (Pairs × List ℕ)
  unpack_pair fuel Value.nil rb = some (Pairs.end, rb)
  unpack_pair zero k rb = none
  unpack_pair (suc fuel) k rb =
      unpack_one fuel rb >>= λ v. unpack_pairs fuel v.1 >>= λ ps. some (Pairs.pair k v.0 ps.0, ps.1)

-- The loop of `_luaseri_unpack`
unfoldable pub unpack_all : (fuel : ℕ) → List ℕ → Option Values
unpack_all fuel [] = some Values.none_left
unpack_all zero (type ∷ rb) = none
unpack_all (suc fuel) (type ∷ rb) = push_value fuel (kind_of (type % 8)) (type / 8) rb >>= λ v.
    unpack_all fuel v.1 >>= λ vs. some (Values.item v.0 vs)

-- `_luaseri_unpack`
unfoldable pub luaseri_unpack : List ℕ → Option Values
luaseri_unpack buffer = unpack_all (3 * length buffer) buffer
