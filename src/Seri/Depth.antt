-- ===== src/Seri/Depth.antt =====
-- lualib-src/lua-seri.c: tables that are too deep are refused.
use ctkjserver.Base.{
  ℕ, suc, ◌+◌, ◌^◌, ◌≤◌, ◌<◌, ◌≡◌, inl, inr, refl, ap, ◌∙◌, Option, none, some, ltb, lt→ltb, ltb→le,
  if◌then◌else◌, if_true, if_false, Bool-cases, arith,
}
use native.Mathlib.Decide.{dec_lt}
use ctkjserver.Seri.{Value, Values, Pairs, max_depth, WriteBlock, wb_init, seri}
use ctkjserver.Seri.Write.{◌>>=◌, count_of, wb_size, pack_one, pack_items, pack_pairs, luaseri_pack}
use ctkjserver.Seri.Encode.{height, height_items, height_pairs}

none_after {ℓ κ} :
    {A : Type ℓ} {B : Type κ} (o : Option A) (f : A → Option B)
    → ((a : A) → f a ≡ none)
    → (o >>= f) ≡ none
none_after none f h = refl
none_after (some a) f h = h a

deep :
    (o : Option WriteBlock) (depth : ℕ)
    → max_depth < depth + 0
    → (if ltb max_depth depth then none else o) ≡ none
deep o depth l = if_true none o (lt→ltb max_depth depth (omega arith))

mutual
  unfolding pack_one pack_items pack_pairs height height_items height_pairs

  refuses_one :
      (b : WriteBlock) (v : Value) (depth : ℕ)
      → max_depth < depth + height v
      → pack_one b v depth ≡ none
  refuses_one b Value.nil depth l = deep _ depth l
  refuses_one b (Value.boolean v) depth l = deep _ depth l
  refuses_one b (Value.integer v) depth l = deep _ depth l
  refuses_one b (Value.real v) depth l = deep _ depth l
  refuses_one b (Value.pointer v) depth l = deep _ depth l
  refuses_one b (Value.string v) depth l = deep _ depth l
  refuses_one b (Value.table vs ps) depth l = elim (Bool-cases (ltb max_depth depth)) [
    | inl e ↦ if_true _ _ e
    | inr e ↦ if_false _ _ e ∙ elim (dec_lt (suc max_depth) (suc depth + height_items vs)) [
      | yes m ↦
          ap (λ o. o >>= λ b'. pack_pairs b' ps (suc depth))
            (refuses_items (wb_size b (count_of vs)) vs (suc depth)
              (omega (arith, ltb→le max_depth depth e)) m)
      | no m ↦
          none_after (pack_items (wb_size b (count_of vs)) vs (suc depth))
            (λ b'. pack_pairs b' ps (suc depth))
            (λ b'.
              refuses_pairs b' ps (suc depth) (omega (arith, ltb→le max_depth depth e))
                (ground (arith, l, m)))
    ]
  ]
  refuses_one b Value.unsupported depth l = refl

  refuses_items :
      (b : WriteBlock) (vs : Values) (depth : ℕ)
      → depth ≤ suc max_depth
      → suc max_depth < depth + height_items vs
      → pack_items b vs depth ≡ none
  refuses_items b Values.none_left depth d l = absurd (omega arith)
  refuses_items b (Values.item v vs) depth d l = elim (dec_lt max_depth (depth + height v)) [
    | yes m ↦ ap (λ o. o >>= λ b'. pack_items b' vs depth) (refuses_one b v depth m)
    | no m ↦
        none_after (pack_one b v depth) (λ b'. pack_items b' vs depth)
          (λ b'. refuses_items b' vs depth d (ground (arith, l, m)))
  ]

  refuses_pairs :
      (b : WriteBlock) (ps : Pairs) (depth : ℕ)
      → depth ≤ suc max_depth
      → suc max_depth < depth + height_pairs ps
      → pack_pairs b ps depth ≡ none
  refuses_pairs b Pairs.end depth d l = absurd (omega arith)
  refuses_pairs b (Pairs.pair k v ps) depth d l = elim (dec_lt max_depth (depth + height k)) [
    | yes m ↦
        ap (λ o. o >>= λ b'. pack_one b' v depth >>= λ b''. pack_pairs b'' ps depth)
          (refuses_one b k depth m)
    | no m ↦
        none_after (pack_one b k depth)
          (λ b'. pack_one b' v depth >>= λ b''. pack_pairs b'' ps depth)
          (λ b'. elim (dec_lt max_depth (depth + height v)) [
            | yes n ↦ ap (λ o. o >>= λ b''. pack_pairs b'' ps depth) (refuses_one b' v depth n)
            | no n ↦
                none_after (pack_one b' v depth) (λ b''. pack_pairs b'' ps depth)
                  (λ b''. refuses_pairs b'' ps depth d (ground (arith, l, m, n)))
          ])
  ]

-- If something stands in more than 32 tables in one another, the values are refused.
pub luaseri_pack-deep : (vs : Values) → suc max_depth < height_items vs → luaseri_pack vs ≡ none
unfolding luaseri_pack
luaseri_pack-deep vs l =
    ap (λ o. o >>= λ b. if ltb b.len (2 ^ 31) then some (seri b) else none)
      (refuses_items wb_init vs 0 (omega arith) (omega (arith, l)))
