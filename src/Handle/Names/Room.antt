-- ===== src/Handle/Names/Room.antt =====
-- skynet-src/skynet_handle.c: the loops of `_insert_name_before`, which make room for a name.
use ctkjserver.Base.{
  ℕ, zero, suc, ◌+◌, ◌-◌, ◌*◌, ◌^◌, ◌≤◌, ◌<◌, ◌≡◌, refl, ap, ◌∙◌, some, [], le→ltb, lt→ltb, arith,
}
use ctkjserver.Base.Arrays.{update, update_self, update_ne}
use native.Mathlib.Decide.{dec_lt, ℕ_discrete}
use ctkjserver.Handle.{HandleName, HandleStorage}
use ctkjserver.Handle.Names.{copy_names, shift_names, make_room}

copy_below :
    (left : ℕ) (n names : ℕ → HandleName) (i d j : ℕ)
    → j < i + d
    → copy_names left n names i d j ≡ n j
unfolding copy_names
copy_below zero n names i d j l = refl
copy_below (suc left) n names i d j l =
    copy_below left (update n (i + d) (names i)) names (i + 1) d j (omega arith)
    ∙ update_ne n (i + d) j (names i) (λ e. absurd (omega arith))

copy_inside :
    (left : ℕ) (n names : ℕ → HandleName) (i d j : ℕ)
    → i ≤ j
    → j < i + left
    → copy_names left n names i d (j + d) ≡ names j
unfolding copy_names
copy_inside zero n names i d j a b = absurd (omega arith)
copy_inside (suc left) n names i d j a b = elim (ℕ_discrete i j) [
  | yes e ↦
      copy_below left (update n (i + d) (names i)) names (i + 1) d (j + d) (omega arith)
      ∙ ap (λ k. update n (i + d) (names i) k) {x = j + d} {y = i + d} (omega arith)
      ∙ update_self n (i + d) (names i)
      ∙ ap names e
  | no ne ↦
      copy_inside left (update n (i + d) (names i)) names (i + 1) d j (omega arith) (omega arith)
]

shift_above :
    (left : ℕ) (names : ℕ → HandleName) (i j : ℕ) → i < j → shift_names left names i j ≡ names j
unfolding shift_names
shift_above zero names i j l = refl
shift_above (suc left) names i j l =
    shift_above left (update names i (names (i - 1))) (i - 1) j (omega arith)
    ∙ update_ne names i j (names (i - 1)) (λ e. absurd (omega arith))

shift_below :
    (left : ℕ) (names : ℕ → HandleName) (i j : ℕ)
    → j + left ≤ i
    → shift_names left names i j ≡ names j
unfolding shift_names
shift_below zero names i j l = refl
shift_below (suc left) names i j l =
    shift_below left (update names i (names (i - 1))) (i - 1) j (omega arith)
    ∙ update_ne names i j (names (i - 1)) (λ e. absurd (omega arith))

shift_inside :
    (left : ℕ) (names : ℕ → HandleName) (i j : ℕ)
    → left ≤ i
    → i ≤ j + left
    → j < i
    → shift_names left names i (j + 1) ≡ names j
unfolding shift_names
shift_inside zero names i j a b c = absurd (omega arith)
shift_inside (suc left) names i j a b c = elim (ℕ_discrete (j + 1) i) [
  | yes e ↦
      shift_above left (update names i (names (i - 1))) (i - 1) (j + 1) (omega arith)
      ∙ ap (update names i (names (i - 1))) e
      ∙ update_self names i (names (i - 1))
      ∙ ap names {x = i - 1} {y = j} (omega arith)
  | no ne ↦
      shift_inside left (update names i (names (i - 1))) (i - 1) j (omega arith) (omega arith)
        (omega arith)
      ∙ update_ne names i j (names (i - 1)) (λ e. absurd (omega arith))
]

-- The names below `before` stay, and those from it on stand one further.
pub record Room (s : HandleStorage) (before : ℕ) (s' : HandleStorage) : Type 0 where
  pub count : s'.name_count ≡ s.name_count
  pub fits : s.name_count < s'.name_cap
  pub low : (j : ℕ) → j < before → s'.names j ≡ s.names j
  pub high : (j : ℕ) → before ≤ j → j < s.name_count → s'.names (j + 1) ≡ s.names j

pub make_room_lem :
    (s : HandleStorage) (before : ℕ)
    → before ≤ s.name_count
    → s.name_count ≤ s.name_cap
    → 0 < s.name_cap
    → s.name_cap * 2 ≤ 2 ^ 30
    → (s' : HandleStorage) × (make_room s before ≡ some s') × Room s before s'
unfolding make_room
make_room_lem s before le within some_cap most = elim (dec_lt s.name_count s.name_cap) [
  | yes free ↦ (
    record s { names = shift_names (s.name_count - before) s.names s.name_count },
    rw (lt→ltb s.name_count s.name_cap free) refl,
    record {
      count = refl;
      fits = free;
      low = λ j l. shift_below (s.name_count - before) s.names s.name_count j (omega arith);
      high = λ j a b.
          shift_inside (s.name_count - before) s.names s.name_count j (omega arith) (omega arith) b;
    },
  )
  | no taken ↦
      let fresh : ℕ → HandleName = λ _. record { name = []; handle = 0 } in
      let lower = copy_names before fresh s.names 0 0 in
      (
        record s {
          name_cap = s.name_cap * 2;
          names = copy_names (s.name_count - before) lower s.names before 1;
        },
        rw (le→ltb s.name_count s.name_cap (omega arith), le→ltb (2 ^ 30) (s.name_cap * 2) most)
            refl,
        record {
          count = refl;
          fits = omega arith;
          low = λ j l.
              copy_below (s.name_count - before) lower s.names before 1 j (omega arith)
              ∙ ap lower {x = j} {y = j + 0} (omega arith)
              ∙ copy_inside before fresh s.names 0 0 j (omega arith) (omega arith);
          high =
              λ j a b. copy_inside (s.name_count - before) lower s.names before 1 j a (omega arith);
        },
      )
]
