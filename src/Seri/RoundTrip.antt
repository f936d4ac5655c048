-- ===== src/Seri/RoundTrip.antt =====
-- lualib-src/lua-seri.c: `luaseri_unpack` reads back what `luaseri_pack` wrote.
use ctkjserver.Base.{
  ℕ, zero, suc, ◌+◌, ◌-◌, ◌*◌, ◌/◌, ◌%◌, ◌^◌, ◌≤◌, ◌<◌, ◌≡◌, ◌≢◌, refl, ap, ◌∙◌, true, false,
  Option, none, some, List, [], ◌∷◌, ◌++◌, append_assoc, length, length-append, ltb, leb, ◌==◌,
  eq→==, ne→==, if◌then◌else◌, if_true, if_false, arith,
}
use ctkjserver.Seri.{
  Value, Values, Pairs, max_cookie, max_depth, type_number, type_table, number_real, combine_type,
}
use ctkjserver.Seri.Write.{◌>>=◌, is_int32, count_of, luaseri_pack}
use ctkjserver.Seri.Read.{
  get_integer, read_number, loop_bound, read_array_size, table_size, unpack_one, push_value,
  unpack_items, unpack_pairs, unpack_pair, unpack_all, luaseri_unpack,
}
use ctkjserver.Seri.Encode.{
  encode_integer, encode_string, encode_size, encode, encode_items, encode_pairs, height_items,
  IsPackable, ArePackable, HavePackable,
}
use ctkjserver.Seri.Pack.{luaseri_pack_lem}
use ctkjserver.Seri.Unpack.{
  if_elim, read_word-bytes_of, encode_integer-IsCode, read_code, encode_string-read,
}

loop_bound_lem : (n : ℕ) → n < 2 ^ 31 → loop_bound n ≡ n
loop_bound_lem n l = ground arith

-- The size of an array, after its type byte.
read_array_size-encode_integer :
    (n : ℕ) (rest : List ℕ)
    → n < 2 ^ 31
    → read_array_size (encode_integer n ++ rest) ≡ some (n, rest)
unfolding read_array_size
read_array_size-encode_integer n rest l =
    let c = encode_integer-IsCode n (omega arith) in
    let t = combine_type type_number c.cookie in
    ap (λ b. read_array_size (b ++ rest)) c.code
    ∙ if_true _ none (eq→== (t % 8) type_number (omega arith))
    ∙ ap
        (λ k.
          if k == number_real
          then none
          else (get_integer (c.payload ++ rest) k >>= λ r. some (loop_bound r.0, r.1)))
        {x = t / 8} {y = c.cookie} (omega arith)
    ∙ if_false none _ c.whole
    ∙ ap (λ o. o >>= λ r. some (loop_bound r.0, r.1)) (c.reads rest)
    ∙ ap (λ k. some (k, rest)) (loop_bound_lem n l)

-- What `unpack_table` does once it has the size.
abbrev after_size : ℕ → Option (ℕ × List ℕ) → Option (Value × List ℕ)
after_size fuel o = o >>= λ size. unpack_items fuel size.0 size.1 >>= λ items.
    unpack_pairs fuel items.1 >>= λ pairs. some (Value.table items.0 pairs.0, pairs.1)

read_table :
    (fuel n : ℕ) (rest : List ℕ)
    → n < 2 ^ 31
    → unpack_one (suc (suc fuel)) (encode_size n ++ rest) ≡ after_size fuel (some (n, rest))
unfolding push_value table_size
read_table fuel n rest l =
    if_elim (λ b. unpack_one (suc (suc fuel)) (b ++ rest) ≡ after_size fuel (some (n, rest)))
      (leb (max_cookie - 1) n) _ _
      (λ e.
        read_code (suc fuel) type_table 31 (encode_integer n ++ rest) (omega arith)
        ∙ ap (after_size fuel) (read_array_size-encode_integer n rest l))
      (λ e.
        read_code (suc fuel) type_table n rest (omega arith)
        ∙ ap (after_size fuel) (if_false _ _ (ne→== n 31 (λ f. absurd (ground arith)))))

encode_integer-pos : (v : ℕ) → 0 < length (encode_integer v)
encode_integer-pos v =
    if_elim (λ b. 0 < length b) (v == 0) _ _ (λ e. omega arith)
      (λ e.
        if_elim (λ b. 0 < length b) (is_int32 v) _ _
          (λ e.
            if_elim (λ b. 0 < length b) (leb (2 ^ 63) v) _ _ (λ e. omega arith)
              (λ e.
                if_elim (λ b. 0 < length b) (ltb v 256) _ _ (λ e. omega arith)
                  (λ e.
                    if_elim (λ b. 0 < length b) (ltb v 65536) _ _ (λ e. omega arith)
                      (λ e. omega arith))))
          (λ e. omega arith))

encode_string-pos : (v : List ℕ) → 0 < length (encode_string v)
encode_string-pos v =
    if_elim (λ b. 0 < length b) (ltb (length v) max_cookie) _ _
      (λ e.
        if_elim (λ b. 0 < length b) (ltb 0 (length v)) _ _ (λ e. omega arith) (λ e. omega arith))
      (λ e.
        if_elim (λ b. 0 < length b) (ltb (length v) 65536) _ _ (λ e. omega arith)
          (λ e. omega arith))

encode_size-pos : (n : ℕ) → 0 < length (encode_size n)
encode_size-pos n =
    if_elim (λ b. 0 < length b) (leb (max_cookie - 1) n) _ _ (λ e. omega arith) (λ e. omega arith)

encode-pos : (v : Value) → IsPackable v → 0 < length (encode v)
unfolding encode IsPackable
encode-pos Value.nil p = omega arith
encode-pos (Value.boolean v) p = omega arith
encode-pos (Value.integer v) p = encode_integer-pos v
encode-pos (Value.real v) p = omega arith
encode-pos (Value.pointer v) p = omega arith
encode-pos (Value.string v) p = encode_string-pos v
encode-pos (Value.table vs ps) p = omega (
  arith,
  encode_size-pos (count_of vs),
  length-append (encode_size (count_of vs)) (encode_items vs ++ encode_pairs ps),
)
encode-pos Value.unsupported p = absurd p

encode_pairs-pos : (ps : Pairs) → HavePackable ps → 0 < length (encode_pairs ps)
unfolding encode_pairs HavePackable
encode_pairs-pos Pairs.end p = omega arith
encode_pairs-pos (Pairs.pair k v ps) p =
    omega (arith, encode-pos k p.1, length-append (encode k) (encode v ++ encode_pairs ps))

length-encode_table :
    (vs : Values) (ps : Pairs)
    → length (encode (Value.table vs ps))
      ≡ length (encode_size (count_of vs)) + (length (encode_items vs) + length (encode_pairs ps))
unfolding encode
length-encode_table vs ps =
    length-append (encode_size (count_of vs)) (encode_items vs ++ encode_pairs ps)
    ∙ ap (◌+◌ (length (encode_size (count_of vs))))
        (length-append (encode_items vs) (encode_pairs ps))

length-encode_pair :
    (k v : Value) (ps : Pairs)
    → length (encode_pairs (Pairs.pair k v ps))
      ≡ length (encode k) + (length (encode v) + length (encode_pairs ps))
unfolding encode_pairs
length-encode_pair k v ps =
    length-append (encode k) (encode v ++ encode_pairs ps)
    ∙ ap (◌+◌ (length (encode k))) (length-append (encode v) (encode_pairs ps))

-- A key that is not nil
unpack_pair-key :
    (fuel : ℕ) (k : Value) (rb : List ℕ)
    → k ≢ Value.nil
    → unpack_pair (suc fuel) k rb ≡ (
        unpack_one fuel rb >>= λ v.
        unpack_pairs fuel v.1 >>= λ ps. some (Pairs.pair k v.0 ps.0, ps.1))
unfolding unpack_pair
unpack_pair-key fuel Value.nil rb ne = absurd (ne refl)
unpack_pair-key fuel (Value.boolean v) rb ne = refl
unpack_pair-key fuel (Value.integer v) rb ne = refl
unpack_pair-key fuel (Value.real v) rb ne = refl
unpack_pair-key fuel (Value.pointer v) rb ne = refl
unpack_pair-key fuel (Value.string v) rb ne = refl
unpack_pair-key fuel (Value.table vs ps) rb ne = refl
unpack_pair-key fuel Value.unsupported rb ne = refl

mutual
  unfolding encode encode_items encode_pairs IsPackable ArePackable HavePackable unpack_one
      push_value unpack_items unpack_pairs unpack_pair read_number

  reads_one :
      (fuel : ℕ) (v : Value) (rest : List ℕ)
      → IsPackable v
      → 3 * length (encode v) ≤ fuel + 2
      → unpack_one fuel (encode v ++ rest) ≡ some (v, rest)
  reads_one zero v rest p l = absurd (omega (arith, encode-pos v p, l))
  reads_one (suc fuel) Value.nil rest p l = refl
  reads_one (suc fuel) (Value.boolean true) rest p l = refl
  reads_one (suc fuel) (Value.boolean false) rest p l = refl
  reads_one (suc fuel) (Value.integer v) rest p l =
      let c = encode_integer-IsCode v p in
      ap (λ b. unpack_one (suc fuel) (b ++ rest)) c.code
      ∙ read_code fuel type_number c.cookie (c.payload ++ rest) (omega arith)
      ∙ if_false _ _ c.whole
      ∙ ap (λ o. o >>= λ r. some (Value.integer r.0, r.1)) (c.reads rest)
  reads_one (suc fuel) (Value.real v) rest p l =
      ap (λ o. o >>= λ r. some (Value.real r.0, r.1)) (read_word-bytes_of 8 v rest p)
  reads_one (suc fuel) (Value.pointer v) rest p l =
      ap (λ o. o >>= λ r. some (Value.pointer r.0, r.1)) (read_word-bytes_of 8 v rest p)
  reads_one (suc fuel) (Value.string v) rest p l = encode_string-read fuel v rest (omega (arith, p))
  reads_one (suc zero) (Value.table vs ps) rest p l = absurd (
      omega (
        arith,
        l,
        length-encode_table vs ps,
        encode_pairs-pos ps p.2,
        encode_size-pos (count_of vs),
      ))
  reads_one (suc (suc fuel)) (Value.table vs ps) rest p l =
      let items = encode_items vs in
      let pairs = encode_pairs ps in
      let long = length-encode_table vs ps in
      let room = encode_size-pos (count_of vs) in
      let tail = encode_pairs-pos ps p.2 in
      ap (unpack_one (suc (suc fuel))) (
        append_assoc (encode_size (count_of vs)) (items ++ pairs) rest
        ∙ ap (◌++◌ (encode_size (count_of vs))) (append_assoc items pairs rest))
      ∙ read_table fuel (count_of vs) (items ++ (pairs ++ rest)) p.0
      ∙ ap
          (λ o. o >>= λ items.
            unpack_pairs fuel items.1 >>= λ pairs. some (Value.table items.0 pairs.0, pairs.1))
          (reads_items fuel vs (pairs ++ rest) p.1 (omega (arith, l, long, room, tail)))
      ∙ ap (λ o. o >>= λ pairs. some (Value.table vs pairs.0, pairs.1))
          (reads_pairs fuel ps rest p.2 (omega (arith, l, long, room, tail)))
  reads_one (suc fuel) Value.unsupported rest p l = absurd p

  reads_items :
      (fuel : ℕ) (vs : Values) (rest : List ℕ)
      → ArePackable vs
      → 3 * length (encode_items vs) ≤ fuel
      → unpack_items fuel (count_of vs) (encode_items vs ++ rest) ≡ some (vs, rest)
  reads_items fuel Values.none_left rest p l = refl
  reads_items zero (Values.item v vs) rest p l =
      absurd (omega (arith, encode-pos v p.0, l, length-append (encode v) (encode_items vs)))
  reads_items (suc fuel) (Values.item v vs) rest p l =
      let pos = encode-pos v p.0 in
      let long = length-append (encode v) (encode_items vs) in
      ap (unpack_items (suc fuel) (suc (count_of vs)))
        (append_assoc (encode v) (encode_items vs) rest)
      ∙ ap
          (λ o. o >>= λ v.
            unpack_items fuel (count_of vs) v.1 >>= λ vs. some (Values.item v.0 vs.0, vs.1))
          (reads_one fuel v (encode_items vs ++ rest) p.0 (omega (arith, l, long, pos)))
      ∙ ap (λ o. o >>= λ vs. some (Values.item v vs.0, vs.1))
          (reads_items fuel vs rest p.1 (omega (arith, l, long, pos)))

  reads_pairs :
      (fuel : ℕ) (ps : Pairs) (rest : List ℕ)
      → HavePackable ps
      → 3 * length (encode_pairs ps) ≤ fuel + 1
      → unpack_pairs fuel (encode_pairs ps ++ rest) ≡ some (ps, rest)
  reads_pairs zero ps rest p l = absurd (omega (arith, encode_pairs-pos ps p, l))
  reads_pairs (suc zero) Pairs.end rest p l = absurd (omega (arith, l))
  reads_pairs (suc (suc fuel)) Pairs.end rest p l = refl
  reads_pairs (suc zero) (Pairs.pair k v ps) rest p l = absurd (
      omega (
        arith,
        l,
        length-encode_pair k v ps,
        encode-pos k p.1,
        encode-pos v p.2,
        encode_pairs-pos ps p.3,
      ))
  reads_pairs (suc (suc fuel)) (Pairs.pair k v ps) rest p l =
      let long = length-encode_pair k v ps in
      let key = encode-pos k p.1 in
      let value = encode-pos v p.2 in
      let tail = encode_pairs-pos ps p.3 in
      ap (unpack_pairs (suc (suc fuel))) (
        append_assoc (encode k) (encode v ++ encode_pairs ps) rest
        ∙ ap (◌++◌ (encode k)) (append_assoc (encode v) (encode_pairs ps) rest))
      ∙ ap (λ o. o >>= λ k. unpack_pair (suc fuel) k.0 k.1)
          (reads_one (suc fuel) k (encode v ++ (encode_pairs ps ++ rest)) p.1
            (omega (arith, l, long, key, value, tail)))
      ∙ unpack_pair-key fuel k (encode v ++ (encode_pairs ps ++ rest)) p.0
      ∙ ap (λ o. o >>= λ v. unpack_pairs fuel v.1 >>= λ ps. some (Pairs.pair k v.0 ps.0, ps.1))
          (reads_one fuel v (encode_pairs ps ++ rest) p.2
            (omega (arith, l, long, key, value, tail)))
      ∙ ap (λ o. o >>= λ ps. some (Pairs.pair k v ps.0, ps.1))
          (reads_pairs fuel ps rest p.3 (omega (arith, l, long, key, value, tail)))

unpack_all-next :
    (fuel : ℕ) (bytes : List ℕ)
    → 0 < length bytes
    → unpack_all (suc fuel) bytes ≡ (
        unpack_one (suc fuel) bytes >>= λ v.
        unpack_all fuel v.1 >>= λ vs. some (Values.item v.0 vs))
unfolding unpack_all unpack_one
unpack_all-next fuel [] l = absurd (omega arith)
unpack_all-next fuel (type ∷ rb) l = refl

unpack_all-nil : (fuel : ℕ) → unpack_all fuel [] ≡ some Values.none_left
unfolding unpack_all
unpack_all-nil fuel = refl

reads_all :
    (fuel : ℕ) (vs : Values)
    → ArePackable vs
    → 3 * length (encode_items vs) ≤ fuel
    → unpack_all fuel (encode_items vs) ≡ some vs
unfolding encode_items ArePackable
reads_all fuel Values.none_left p l = unpack_all-nil fuel
reads_all zero (Values.item v vs) p l =
    absurd (omega (arith, encode-pos v p.0, l, length-append (encode v) (encode_items vs)))
reads_all (suc fuel) (Values.item v vs) p l =
    let pos = encode-pos v p.0 in
    let long = length-append (encode v) (encode_items vs) in
    unpack_all-next fuel (encode v ++ encode_items vs) (omega (arith, pos, long))
    ∙ ap (λ o. o >>= λ v. unpack_all fuel v.1 >>= λ vs. some (Values.item v.0 vs))
        (reads_one (suc fuel) v (encode_items vs) p.0 (omega (arith, l, long)))
    ∙ ap (λ o. o >>= λ vs. some (Values.item v vs))
        (reads_all fuel vs p.1 (omega (arith, l, long, pos)))

-- Values that can be written, of which nothing stands in more than 32 tables in one another, are
-- written, and read back as they were. Those that can be written have numbers of 64 bits, strings of
-- less than 2 ^ 31 bytes, arrays of less than 2 ^ 31 elements, and no key that is nil; and all
-- their bytes together, of which the packed form consists, are less than 2 ^ 31.
pub luaseri_unpack-luaseri_pack :
    (vs : Values)
    → ArePackable vs
    → height_items vs ≤ suc max_depth
    → length (encode_items vs) < 2 ^ 31
    → (bytes : List ℕ) × (luaseri_pack vs ≡ some bytes) × (luaseri_unpack bytes ≡ some vs)
unfolding luaseri_unpack
luaseri_unpack-luaseri_pack vs p l short = (
  encode_items vs,
  luaseri_pack_lem vs p l short,
  reads_all (3 * length (encode_items vs)) vs p (omega arith),
)
