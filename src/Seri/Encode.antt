-- ===== src/Seri/Encode.antt =====
-- lualib-src/lua-seri.c: the bytes of a value, and the values that can be written.
use ctkjserver.Base.{
  ℕ, suc, ◌-◌, ◌^◌, ◌<◌, max, ◌≢◌, List, [], ◌∷◌, ◌++◌, length, ltb, leb, ◌==◌, if◌then◌else◌,
}
use ctkjserver.Seri.{
  Value, Values, Pairs, max_cookie, type_nil, type_boolean, type_number, type_userdata,
  type_short_string, type_long_string, type_table, number_zero, number_byte, number_word,
  number_dword, number_qword, number_real, combine_type,
}
use ctkjserver.Seri.Words.{bytes_of}
use ctkjserver.Seri.Write.{is_int32, count_of}

abbrev pub encode_integer : ℕ → List ℕ
encode_integer v =
    if v == 0
    then combine_type type_number number_zero ∷ []
    else (if is_int32 v
        then (if leb (2 ^ 63) v
            then combine_type type_number number_dword ∷ bytes_of 4 v
            else (if ltb v 256
                then combine_type type_number number_byte ∷ bytes_of 1 v
                else (if ltb v 65536
                    then combine_type type_number number_word ∷ bytes_of 2 v
                    else combine_type type_number number_dword ∷ bytes_of 4 v)))
        else combine_type type_number number_qword ∷ bytes_of 8 v)

abbrev pub encode_string : List ℕ → List ℕ
encode_string str =
    let len = length str in
    if ltb len max_cookie
    then (if ltb 0 len
        then combine_type type_short_string len ∷ str
        else combine_type type_short_string len ∷ [])
    else (if ltb len 65536
        then (combine_type type_long_string 2 ∷ bytes_of 2 len) ++ str
        else (combine_type type_long_string 4 ∷ bytes_of 4 len) ++ str)

abbrev pub encode_size : ℕ → List ℕ
encode_size array_size =
    if leb (max_cookie - 1) array_size
    then combine_type type_table (max_cookie - 1) ∷ encode_integer array_size
    else combine_type type_table array_size ∷ []

-- The bytes of a value: those of a table end with a nil.
unfoldable mutual
  pub encode : Value → List ℕ
  encode Value.nil = type_nil ∷ []
  encode (Value.boolean v) = combine_type type_boolean (if v then 1 else 0) ∷ []
  encode (Value.integer v) = encode_integer v
  encode (Value.real v) = combine_type type_number number_real ∷ bytes_of 8 v
  encode (Value.pointer v) = type_userdata ∷ bytes_of 8 v
  encode (Value.string v) = encode_string v
  encode (Value.table vs ps) = encode_size (count_of vs) ++ (encode_items vs ++ encode_pairs ps)
  encode Value.unsupported = []

  pub encode_items : Values → List ℕ
  encode_items Values.none_left = []
  encode_items (Values.item v vs) = encode v ++ encode_items vs

  pub encode_pairs : Pairs → List ℕ
  encode_pairs Pairs.end = type_nil ∷ []
  encode_pairs (Pairs.pair k v ps) = encode k ++ (encode v ++ encode_pairs ps)

-- How deep the tables of a value stand in one another; an empty table has no depth.
unfoldable mutual
  pub height : Value → ℕ
  height (Value.table vs ps) = max (height_items vs) (height_pairs ps)
  height Value.nil = 0
  height (Value.boolean v) = 0
  height (Value.integer v) = 0
  height (Value.real v) = 0
  height (Value.pointer v) = 0
  height (Value.string v) = 0
  height Value.unsupported = 0

  pub height_items : Values → ℕ
  height_items Values.none_left = 0
  height_items (Values.item v vs) = max (suc (height v)) (height_items vs)

  pub height_pairs : Pairs → ℕ
  height_pairs Pairs.end = 0
  height_pairs (Pairs.pair k v ps) = max (suc (height k)) (max (suc (height v)) (height_pairs ps))

-- The bits of a number are 64, the length of a string and that of an array have 31, a key
-- is not nil, and no value is of a type that cannot be written.
unfoldable mutual
  pub IsPackable : Value → Type 0
  IsPackable Value.nil = Unit
  IsPackable (Value.boolean v) = Unit
  IsPackable (Value.integer v) = v < 2 ^ 64
  IsPackable (Value.real v) = v < 2 ^ 64
  IsPackable (Value.pointer v) = v < 2 ^ 64
  IsPackable (Value.string v) = length v < 2 ^ 31
  IsPackable (Value.table vs ps) = (count_of vs < 2 ^ 31) × ArePackable vs × HavePackable ps
  IsPackable Value.unsupported = ⊥

  pub ArePackable : Values → Type 0
  ArePackable Values.none_left = Unit
  ArePackable (Values.item v vs) = IsPackable v × ArePackable vs

  pub HavePackable : Pairs → Type 0
  HavePackable Pairs.end = Unit
  HavePackable (Pairs.pair k v ps) = (k ≢ Value.nil) × IsPackable k × IsPackable v × HavePackable ps
