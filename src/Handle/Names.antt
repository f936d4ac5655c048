-- ===== src/Handle/Names.antt =====
-- skynet-src/skynet_handle.c: the names of handles, sorted by strcmp, and what takes a handle away.
--
-- A name is its bytes before the terminating zero. `end` of the binary search, which can be -1, is
-- kept as `stop`, one more than it.
pub mod Order
pub mod Search
pub mod Room
pub mod Insert
pub mod Compact
pub mod Retire
mod Tests
use ctkjserver.Base.{
  ℕ, zero, suc, ◌+◌, ◌-◌, ◌*◌, ◌/◌, ◌^◌, Bool, true, false, Option, none, some, List, [], ◌∷◌, ◌⊎◌,
  inl, inr, bit_and, ltb, ◌==◌, if◌then◌else◌,
}
use ctkjserver.Base.Arrays.{update}
use ctkjserver.Handle.{HandleName, HandleStorage, ◌>>=◌}

pub data Comparison : Type 0 where
  less : Comparison
  equal : Comparison
  greater : Comparison

-- strcmp of C
pub strcmp : List ℕ → List ℕ → Comparison
strcmp [] [] = Comparison.equal
strcmp [] (b ∷ ys) = Comparison.less
strcmp (a ∷ xs) [] = Comparison.greater
strcmp (a ∷ xs) (b ∷ ys) =
    let rest = strcmp xs ys in
    if ltb a b then Comparison.less else (if ltb b a then Comparison.greater else rest)

-- The binary search of `skynet_handle_findname` and `_insert_name`: where the name is, or where it
-- is to be inserted.
pub search : ℕ → (ℕ → HandleName) → List ℕ → ℕ → ℕ → ℕ ⊎ ℕ
unfolding strcmp
search zero names name begin stop = inr begin
search (suc f) names name begin stop =
    let mid = (begin + stop - 1) / 2 in
    elim (ltb begin stop) [
      | false ↦ inr begin
      | true ↦ elim (strcmp (names mid).name name) [
        | Comparison.equal ↦ inl mid
        | Comparison.less ↦ search f names name (mid + 1) stop
        | Comparison.greater ↦ search f names name begin mid
      ]
    ]

-- `skynet_handle_findname`
pub findname : HandleStorage → List ℕ → ℕ
unfolding search
findname s name = elim (search (s.name_count + 1) s.names name 0 s.name_count) [
  | inl mid ↦ (s.names mid).handle
  | inr begin ↦ 0
]

-- `n[i + d] = s->name[i];` for `left` indices from `i` on
pub copy_names : ℕ → (ℕ → HandleName) → (ℕ → HandleName) → ℕ → ℕ → ℕ → HandleName
copy_names zero n names i d = n
copy_names (suc left) n names i d = copy_names left (update n (i + d) (names i)) names (i + 1) d

-- `s->name[i] = s->name[i-1];` for `left` indices from `i` down
pub shift_names : ℕ → (ℕ → HandleName) → ℕ → ℕ → HandleName
shift_names zero names i = names
shift_names (suc left) names i = shift_names left (update names i (names (i - 1))) (i - 1)

abbrev pub max_slot_size : ℕ
max_slot_size = 2 ^ 30

-- The room that `_insert_name_before` makes at `before`.
pub make_room : HandleStorage → ℕ → Option HandleStorage
unfolding copy_names shift_names
make_room s before =
    if ltb s.name_count s.name_cap
    then some (record s { names = shift_names (s.name_count - before) s.names s.name_count })
    else (if ltb max_slot_size (s.name_cap * 2)
        then none
        else some (record s {
          name_cap = s.name_cap * 2;
          names =
              copy_names (s.name_count - before)
                (copy_names before (λ _. record { name = []; handle = 0 }) s.names 0 0) s.names
                before 1;
        }))

-- `_insert_name_before`
pub insert_name_before : HandleStorage → List ℕ → ℕ → ℕ → Option HandleStorage
unfolding make_room
insert_name_before s name handle before = do
  s' ← make_room s before
  some (record s' {
    names = update s'.names before (record { name = name; handle = handle });
    name_count = s'.name_count + 1;
  })

-- `skynet_handle_namehandle` with `_insert_name`: whether the name was free, and the storage.
pub namehandle : HandleStorage → ℕ → List ℕ → Option (Bool × HandleStorage)
unfolding search insert_name_before
namehandle s handle name = elim (search (s.name_count + 1) s.names name 0 s.name_count) [
  | inl mid ↦ some (false, s)
  | inr begin ↦ insert_name_before s name handle begin >>= λ s'. some (true, s')
]

-- The loop of `skynet_handle_retire` over the names: those of other handles move down to `j`.
pub compact : ℕ → (ℕ → HandleName) → ℕ → ℕ → ℕ → ℕ × (ℕ → HandleName)
compact zero names i j handle = (j, names)
compact (suc left) names i j handle = elim ((names i).handle == handle) [
  | true ↦ compact left names (i + 1) j handle
  | false ↦ compact left (if i == j then names else update names j (names i)) (i + 1) (j + 1) handle
]

-- `skynet_handle_retire`: what it returns, the context to release, and the storage.
pub retire : (ℕ → ℕ) → HandleStorage → ℕ → ℕ × ℕ × HandleStorage
unfolding compact
retire handle_of s handle =
    let hash = bit_and handle (s.slot_size - 1) in
    let ctx = s.slot hash in
    let kept = compact s.name_count s.names 0 0 handle in
    let gone : ℕ × ℕ × HandleStorage =
      (1, ctx, record s { slot = update s.slot hash 0; name_count = kept.0; names = kept.1 }) in
    if ctx == 0 then (0, 0, s) else (if handle_of ctx == handle then gone else (0, 0, s))
