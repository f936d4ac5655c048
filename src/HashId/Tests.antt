-- ===== src/HashId/Tests.antt =====
-- Runs of the id table with one id, and the theorems at it.
use ctkjserver.Base.{ℕ, ◌<◌, ◌≡◌, refl, ◌⊎◌, none, some, ◌==◌, if◌then◌else◌, arith}
use ctkjserver.HashId.{HashId, init, hash_capacity, find, lookup, remove, insert}
use ctkjserver.HashId.Sample.{one, one-Valid, absent}
use ctkjserver.HashId.Laws.{Valid, insert_lem, remove_lem}

init_runs : (init 20).hashmod ≡ 31
unfolding init hash_capacity
init_runs = refl

lookup_runs : lookup one 7 ≡ some 3
unfolding lookup find
lookup_runs = refl

-- 23 has the same slot, and its node is taken.
insert_lem_example :
    (c : ℕ) × (hi' : HashId) × (insert one 23 ≡ some (c, hi'))
    × (one.id c ≡ none)
    × (c < one.cap)
    × Valid hi'
    × ((x : ℕ) → lookup hi' x ≡ (if x == 23 then some c else lookup one x))
insert_lem_example = insert_lem one 23 one-Valid (omega arith) absent 0 (omega arith) refl

remove_lem_example :
    ((lookup one 7 ≡ none) × (remove one 7 ≡ (none, one)))
    ⊎ ((c : ℕ) × (hi' : HashId) × (lookup one 7 ≡ some c)
        × (remove one 7 ≡ (some c, hi'))
        × (hi'.id c ≡ none)
        × Valid hi'
        × ((x : ℕ) → lookup hi' x ≡ (if x == 7 then none else lookup one x)))
remove_lem_example = remove_lem one 7 one-Valid
