-- ===== src/Seri/Tests.antt =====
-- Runs of `luaseri_pack` and `luaseri_unpack` on small values, and the theorems at them.
use ctkjserver.Base.{
  ℕ, zero, suc, length, ◌^◌, ◌≤◌, ◌<◌, ◌≡◌, refl, true, none, some, List, [], ◌∷◌, arith,
}
use ctkjserver.Seri.{Value, Values, Pairs, max_depth, push_rounds, wb_push, seri_blocks, seri}
use ctkjserver.Seri.Words.{bytes_of}
use ctkjserver.Seri.Write.{
  wb_nil, wb_boolean, wb_integer, wb_string, wb_size, pack_one, pack_items, pack_pairs,
  luaseri_pack,
}
use ctkjserver.Seri.Read.{luaseri_unpack}
use ctkjserver.Seri.Encode.{
  encode, encode_items, encode_pairs, height, height_items, height_pairs, IsPackable, ArePackable,
  HavePackable,
}
use ctkjserver.Seri.RoundTrip.{luaseri_unpack-luaseri_pack}
use ctkjserver.Seri.Depth.{luaseri_pack-deep}

-- 300, and a table with the array { -1 } and the pair "a" = true
abbrev sample : Values
sample = Values.item (Value.integer 300) (
    Values.item
      (Value.table (Values.item (Value.integer 18446744073709551615) Values.none_left)
        (Pairs.pair (Value.string (97 ∷ [])) (Value.boolean true) Pairs.end))
      Values.none_left)

sample-ArePackable : ArePackable sample
unfolding ArePackable IsPackable HavePackable
sample-ArePackable =
    (omega arith, ((omega arith, (omega arith, tt), ((λ e. cc), omega arith, tt, tt)), tt))

sample_bytes :
    luaseri_pack sample
    ≡ some (18 ∷ 44 ∷ 1 ∷ 14 ∷ 34 ∷ 255 ∷ 255 ∷ 255 ∷ 255 ∷ 12 ∷ 97 ∷ 9 ∷ 0 ∷ [])
unfolding luaseri_pack pack_one pack_items pack_pairs wb_size wb_integer wb_string wb_boolean wb_nil
    wb_push push_rounds seri seri_blocks bytes_of
sample_bytes = refl

sample_height : height_items sample ≤ suc max_depth
unfolding height height_items height_pairs
sample_height = omega arith

sample_short : length (encode_items sample) < 2 ^ 31
unfolding encode encode_items encode_pairs bytes_of
sample_short = omega arith

luaseri_unpack-luaseri_pack_example :
    (bytes : List ℕ) × (luaseri_pack sample ≡ some bytes) × (luaseri_unpack bytes ≡ some sample)
luaseri_unpack-luaseri_pack_example =
    luaseri_unpack-luaseri_pack sample sample-ArePackable sample_height sample_short

-- Tables in one another
abbrev nested : ℕ → Value
nested zero = Value.nil
nested (suc n) = Value.table (Values.item (nested n) Values.none_left) Pairs.end

nested_height : suc max_depth < height_items (Values.item (nested 33) Values.none_left)
unfolding height height_items height_pairs
nested_height = omega arith

luaseri_pack-deep_example : luaseri_pack (Values.item (nested 33) Values.none_left) ≡ none
luaseri_pack-deep_example =
    luaseri_pack-deep (Values.item (nested 33) Values.none_left) nested_height
