-- ===== src/Handle/Names/Tests.antt =====
-- Runs of the name table on two names, and the theorem at them.
use ctkjserver.Base.{ℕ, ◌+◌, ◌*◌, ◌<◌, ◌≡◌, refl, ◌⊎◌, true, false, some, [], ◌∷◌, arith}
use ctkjserver.Handle.{HandleStorage, init}
use ctkjserver.Handle.Names.{strcmp, search, findname, namehandle}
use ctkjserver.Handle.Names.Search.{Sorted}
use ctkjserver.Handle.Names.Insert.{Named, namehandle_lem}

-- The names "a" and "c".
abbrev two : HandleStorage
two = record (init 0) {
  name_count = 2;
  names = λ i. record { name = (97 + 2 * i) ∷ []; handle = 5 + i };
}

findname_runs : findname two (99 ∷ []) ≡ 6
unfolding findname search strcmp
findname_runs = refl

two-Sorted : Sorted two.names two.name_count
unfolding strcmp
two-Sorted i j l m = ground arith

namehandle_lem_example :
    (((i : ℕ) × (i < two.name_count) × ((two.names i).name ≡ 98 ∷ []))
      × (namehandle two 9 (98 ∷ []) ≡ some (false, two)))
    ⊎ ((s' : HandleStorage) × (namehandle two 9 (98 ∷ []) ≡ some (true, s'))
        × Named two 9 (98 ∷ []) s')
namehandle_lem_example =
    namehandle_lem two 9 (98 ∷ []) two-Sorted (omega arith) (omega arith) (omega arith)
