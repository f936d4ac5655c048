-- ===== src/Seri/Pack.antt =====
-- lualib-src/lua-seri.c: `pack_one` writes the bytes of the value, unless its tables are too deep.
use ctkjserver.Base.{
  ℕ, suc, ◌+◌, ◌-◌, ◌*◌, ◌^◌, ◌≤◌, ◌≡◌, refl, sym, ap, ◌∙◌, Bool, true, false, Option, none, some,
  List, [], ◌∷◌, ◌++◌, append-nil, length, ltb, leb, ◌==◌, le→ltb, if◌then◌else◌, if_false, if_true,
  lt→ltb, subst, ◌<◌, arith,
}
use ctkjserver.Base.Slices.{take_all}
use ctkjserver.Base.Int.{to_int32, to_int32-pos}
use ctkjserver.Seri.{
  Value, Values, Pairs, max_cookie, max_depth, type_nil, type_short_string, type_long_string,
  type_table, combine_type, WriteBlock, wb_init, wb_push, seri,
}
use ctkjserver.Seri.Words.{bytes_of}
use ctkjserver.Seri.Write.{
  ◌>>=◌, push_byte, push_with, is_int32, wb_nil, wb_boolean, wb_integer, wb_real, wb_pointer,
  wb_string, count_of, wb_size, pack_one, pack_items, pack_pairs, luaseri_pack,
}
use ctkjserver.Seri.Encode.{
  encode_integer, encode_string, encode_size, encode, encode_items, encode_pairs, height,
  height_items, height_pairs, IsPackable, ArePackable, HavePackable,
}
use ctkjserver.Seri.Blocks.{
  contents, IsBlocks, IsPushed, wb_init-IsBlocks, wb_push-IsPushed, IsPushed-trans, seri_lem,
  length-contents,
}

if_IsPushed :
    (c : Bool) {b x y : WriteBlock} {xs ys : List ℕ}
    → IsPushed b xs x
    → IsPushed b ys y
    → IsPushed b (if c then xs else ys) (if c then x else y)
if_IsPushed true p q = p
if_IsPushed false p q = q

module _ (b : WriteBlock) (h : IsBlocks b) where
  push_byte-IsPushed : (n : ℕ) → IsPushed b (n ∷ []) (push_byte b n)
  push_byte-IsPushed n = wb_push-IsPushed b (n ∷ []) h

  push_with-IsPushed : (n : ℕ) (bytes : List ℕ) → IsPushed b (n ∷ bytes) (push_with b n bytes)
  push_with-IsPushed n bytes =
      let first = push_byte-IsPushed n in
      IsPushed-trans b (push_byte b n) (push_with b n bytes) (n ∷ []) bytes first
        (wb_push-IsPushed (push_byte b n) bytes first.blocks)

  wb_integer-IsPushed : (v : ℕ) → IsPushed b (encode_integer v) (wb_integer b v)
  unfolding wb_integer
  wb_integer-IsPushed v = if_IsPushed (v == 0) (push_byte-IsPushed 2) (
      if_IsPushed (is_int32 v)
        (if_IsPushed (leb (2 ^ 63) v) (push_with-IsPushed 34 (bytes_of 4 v)) (
          if_IsPushed (ltb v 256) (push_with-IsPushed 10 (bytes_of 1 v)) (
            if_IsPushed (ltb v 65536) (push_with-IsPushed 18 (bytes_of 2 v))
              (push_with-IsPushed 34 (bytes_of 4 v)))))
        (push_with-IsPushed 50 (bytes_of 8 v)))

  long_string-IsPushed :
      (n : ℕ) (bytes str : List ℕ)
      → IsPushed b ((n ∷ bytes) ++ str) (wb_push (push_with b n bytes) str)
  long_string-IsPushed n bytes str =
      let first = push_with-IsPushed n bytes in
      IsPushed-trans b (push_with b n bytes) (wb_push (push_with b n bytes) str) (n ∷ bytes) str
        first (wb_push-IsPushed (push_with b n bytes) str first.blocks)

  wb_string-IsPushed :
      (str : List ℕ)
      → length str < 2 ^ 31
      → IsPushed b (encode_string str) (wb_string b str (to_int32 (length str)))
  unfolding wb_string
  wb_string-IsPushed str l =
      let len = length str in
      subst (λ n. IsPushed b (encode_string str) (wb_string b str n)) (sym (to_int32-pos len l))
        (subst
          (λ bytes. IsPushed b (encode_string str) (
            if ltb len max_cookie
            then (if ltb 0 len
                then push_with b (combine_type type_short_string len) bytes
                else push_byte b (combine_type type_short_string len))
            else (if ltb len 65536
                then wb_push (push_with b (combine_type type_long_string 2) (bytes_of 2 len)) bytes
                else wb_push (push_with b (combine_type type_long_string 4) (bytes_of 4 len))
                    bytes)))
          (sym (take_all str))
          (if_IsPushed (ltb len max_cookie)
            (if_IsPushed (ltb 0 len) (push_with-IsPushed (combine_type type_short_string len) str)
              (push_byte-IsPushed (combine_type type_short_string len)))
            (if_IsPushed (ltb len 65536) (long_string-IsPushed 21 (bytes_of 2 len) str)
              (long_string-IsPushed 37 (bytes_of 4 len) str))))

wb_size-IsPushed :
    (b : WriteBlock) → IsBlocks b → (n : ℕ) → IsPushed b (encode_size n) (wb_size b n)
unfolding wb_size
wb_size-IsPushed b h n =
    let first = push_byte-IsPushed b h 254 in
    if_IsPushed (leb (max_cookie - 1) n)
      (IsPushed-trans b (push_byte b 254) (wb_integer (push_byte b 254) n) (254 ∷ [])
        (encode_integer n) first (wb_integer-IsPushed (push_byte b 254) first.blocks n))
      (push_byte-IsPushed b h (combine_type type_table n))

-- A write that succeeds, of these bytes.
abbrev pub Writes : WriteBlock → List ℕ → Option WriteBlock → Type 0
Writes b bytes o = (b' : WriteBlock) × (o ≡ some b') × IsPushed b bytes b'

-- A value that is not a table
flat :
    (b x : WriteBlock) (bytes : List ℕ) (depth : ℕ)
    → depth + 0 ≤ max_depth
    → IsPushed b bytes x
    → Writes b bytes (if ltb max_depth depth then none else some x)
flat b x bytes depth l p = (x, if_false none _ (le→ltb max_depth depth (omega arith)), p)

then_write :
    {b : WriteBlock} {xs ys : List ℕ} {o : Option WriteBlock} {f : WriteBlock → Option WriteBlock}
    → Writes b xs o
    → ((c : WriteBlock) → IsBlocks c → Writes c ys (f c))
    → Writes b (xs ++ ys) (o >>= f)
then_write {b} {xs} {ys} {o} {f} w k =
    let r = k w.0 w.2.blocks in
    (r.0, ap (λ o. o >>= f) w.1 ∙ r.1, IsPushed-trans b w.0 r.0 xs ys w.2 r.2)

mutual
  unfolding pack_one pack_items pack_pairs encode encode_items encode_pairs height height_items
      height_pairs IsPackable ArePackable HavePackable wb_nil wb_boolean wb_real wb_pointer

  Writes-one :
      (b : WriteBlock) (v : Value) (depth : ℕ)
      → IsBlocks b
      → IsPackable v
      → depth + height v ≤ max_depth
      → Writes b (encode v) (pack_one b v depth)
  Writes-one b Value.nil depth h p l =
      flat b (wb_nil b) (type_nil ∷ []) depth l (push_byte-IsPushed b h type_nil)
  Writes-one b (Value.boolean v) depth h p l =
      flat b (wb_boolean b v) (encode (Value.boolean v)) depth l
        (push_byte-IsPushed b h (1 + (if v then 1 else 0) * 8))
  Writes-one b (Value.integer v) depth h p l =
      flat b (wb_integer b v) (encode_integer v) depth l (wb_integer-IsPushed b h v)
  Writes-one b (Value.real v) depth h p l =
      flat b (wb_real b v) (66 ∷ bytes_of 8 v) depth l (push_with-IsPushed b h 66 (bytes_of 8 v))
  Writes-one b (Value.pointer v) depth h p l =
      flat b (wb_pointer b v) (3 ∷ bytes_of 8 v) depth l (push_with-IsPushed b h 3 (bytes_of 8 v))
  Writes-one b (Value.string v) depth h p l =
      flat b (wb_string b v (to_int32 (length v))) (encode_string v) depth l
        (wb_string-IsPushed b h v p)
  Writes-one b (Value.table vs ps) depth h p l =
      let size = wb_size-IsPushed b h (count_of vs) in
      let items : (c : WriteBlock)
          → IsBlocks c
          → Writes c (encode_items vs ++ encode_pairs ps)
              (pack_items c vs (suc depth) >>= λ b'. pack_pairs b' ps (suc depth)) =
        λ c k.
          then_write (Writes-items c vs (suc depth) k p.1 (omega (arith, l)))
            (λ d k. Writes-pairs d ps (suc depth) k p.2 (omega (arith, l))) in
      let w =
        then_write {o = some (wb_size b (count_of vs))}
          {f = λ c. pack_items c vs (suc depth) >>= λ b'. pack_pairs b' ps (suc depth)}
          (wb_size b (count_of vs), refl, size) items in
      (w.0, if_false none _ (le→ltb max_depth depth (omega (arith, l))) ∙ w.1, w.2)
  Writes-one b Value.unsupported depth h p l = absurd p

  Writes-items :
      (b : WriteBlock) (vs : Values) (depth : ℕ)
      → IsBlocks b
      → ArePackable vs
      → depth + height_items vs ≤ suc max_depth
      → Writes b (encode_items vs) (pack_items b vs depth)
  Writes-items b Values.none_left depth h p l =
      (b, refl, record { blocks = h; holds = sym (append-nil (contents b)) })
  Writes-items b (Values.item v vs) depth h p l =
      then_write (Writes-one b v depth h p.0 (omega (arith, l)))
        (λ c k. Writes-items c vs depth k p.1 (omega (arith, l)))

  Writes-pairs :
      (b : WriteBlock) (ps : Pairs) (depth : ℕ)
      → IsBlocks b
      → HavePackable ps
      → depth + height_pairs ps ≤ suc max_depth
      → Writes b (encode_pairs ps) (pack_pairs b ps depth)
  Writes-pairs b Pairs.end depth h p l = (wb_nil b, refl, push_byte-IsPushed b h type_nil)
  Writes-pairs b (Pairs.pair k v ps) depth h p l =
      then_write (Writes-one b k depth h p.1 (omega (arith, l))) (λ c q.
        then_write (Writes-one c v depth q p.2 (omega (arith, l)))
          (λ d r. Writes-pairs d ps depth r p.3 (omega (arith, l))))

-- `luaseri_pack` gives the bytes of the values, in one piece.
pub luaseri_pack_lem :
    (vs : Values)
    → ArePackable vs
    → height_items vs ≤ suc max_depth
    → length (encode_items vs) < 2 ^ 31
    → luaseri_pack vs ≡ some (encode_items vs)
unfolding luaseri_pack
luaseri_pack_lem vs p l short =
    let w = Writes-items wb_init vs 0 wb_init-IsBlocks p (omega (arith, l)) in
    let len : w.0.len ≡ length (encode_items vs) =
      length-contents w.0 w.2.blocks ∙ ap length w.2.holds in
    ap (λ o. o >>= λ b. if ltb b.len (2 ^ 31) then some (seri b) else none) w.1
    ∙ if_true _ _ (lt→ltb w.0.len (2 ^ 31) (omega (arith, len, short)))
    ∙ ap some (seri_lem w.0 w.2.blocks ∙ w.2.holds)
