-- ===== src/HashId.antt =====
-- service-src/hashid.h: a fixed table of ids, found through hash chains.
--
-- A node is its index in the array; the chain of a slot is the list of its nodes in the order of
-- their links. An id of -1, which marks a free node, is `none`.
pub mod Chain
pub mod Laws
pub mod Sample
mod Tests
use ctkjserver.Base.{
  ℕ, zero, suc, ◌+◌, ◌-◌, ◌*◌, ◌%◌, ◌^◌, Bool, true, false, Option, none, some, List, [], ◌∷◌,
  bit_and, ltb, leb, ◌==◌, if◌then◌else◌,
}
use ctkjserver.Base.Arrays.{update}

-- `struct hashid`
pub record HashId : Type 0 where
  pub hashmod : ℕ
  pub cap : ℕ
  pub count : ℕ
  pub id : ℕ → Option ℕ
  pub hash : ℕ → List ℕ

-- `while (hashcap < max) hashcap *= 2;`, on fuel.
pub hash_capacity : ℕ → ℕ → ℕ → ℕ
hash_capacity zero hashcap max = hashcap
hash_capacity (suc f) hashcap max =
    let next = hash_capacity f (hashcap * 2) max in if ltb hashcap max then next else hashcap

-- `hashid_init`
pub init : ℕ → HashId
unfolding hash_capacity
init max = record {
  hashmod = hash_capacity max 16 max - 1;
  cap = max;
  count = 0;
  id = λ _. none;
  hash = λ _. [];
}

-- `c->id == id`
abbrev pub has_id : HashId → ℕ → ℕ → Bool
has_id hi id c = elim (hi.id c) [ none ↦ false | some x ↦ x == id ]

-- The loop of `hashid_lookup`
pub find : HashId → ℕ → List ℕ → Option ℕ
find hi id [] = none
find hi id (c ∷ chain) = let rest = find hi id chain in if has_id hi id c then some c else rest

-- `hashid_lookup`: -1 is `none`.
pub lookup : HashId → ℕ → Option ℕ
unfolding find
lookup hi id = find hi id (hi.hash (bit_and id hi.hashmod))

-- The links of `hashid_remove`: the chain without the first node that has the id.
pub unlink_node : HashId → ℕ → List ℕ → List ℕ
unlink_node hi id [] = []
unlink_node hi id (c ∷ chain) =
    let rest = unlink_node hi id chain in if has_id hi id c then chain else c ∷ rest

-- `hashid_remove`
pub remove : HashId → ℕ → Option ℕ × HashId
unfolding find unlink_node
remove hi id =
    let h = bit_and id hi.hashmod in
    elim (find hi id (hi.hash h)) [
      | none ↦ (none, hi)
      | some c ↦ (
        some c,
        record hi {
          id = update hi.id c none;
          hash = update hi.hash h (unlink_node hi id (hi.hash h));
          count = hi.count - 1;
        },
      )
    ]

-- The loop of `hashid_insert`: the first free node from `id % cap` on, for `left` more nodes. The sum
-- `i+id` of two `int`s that overflows before one is found is `none`.
pub free_node : ℕ → HashId → ℕ → ℕ → Option ℕ
free_node zero hi id i = none
free_node (suc left) hi id i =
    let index = (i + id) % hi.cap in
    let next = free_node left hi id (i + 1) in
    if leb (2 ^ 31) (i + id) then none else elim (hi.id index) [ none ↦ some index | some x ↦ next ]

-- `hashid_insert`: a failed assert, or a sum that overflows, is `none`.
pub insert : HashId → ℕ → Option (ℕ × HashId)
unfolding free_node
insert hi id =
    let h = bit_and id hi.hashmod in
    elim (free_node hi.cap hi id 0) [
      | none ↦ none
      | some c ↦ some (
        c,
        record hi {
          count = hi.count + 1;
          id = update hi.id c (some id);
          hash = update hi.hash h (c ∷ hi.hash h);
        },
      )
    ]

-- `hashid_full`
abbrev pub full : HashId → Bool
full hi = hi.count == hi.cap
