-- ===== src/Handle/Names/Compact.antt =====
-- skynet-src/skynet_handle.c: the loop of `skynet_handle_retire` over the names is a filter.
use ctkjserver.Base.{
  ℕ, zero, suc, ◌+◌, ◌≤◌, ◌<◌, ◌≡◌, refl, sym, ap, ap₂, ◌∙◌, ◌≢◌, List, [], ◌∷◌, ◌++◌, append-nil,
  append_assoc, ◌==◌, eq→==, ne→==, if◌then◌else◌, arith,
}
use ctkjserver.Base.Arrays.{update, update_self, update_ne}
use native.Mathlib.Decide.{ℕ_discrete}
use ctkjserver.Handle.{HandleName}
use ctkjserver.Handle.Names.{compact}

-- The `n` names from index `i` on.
pub listed : (ℕ → HandleName) → ℕ → ℕ → List HandleName
listed names i zero = []
listed names i (suc n) = names i ∷ listed names (i + 1) n

-- The names of other handles.
pub kept : ℕ → List HandleName → List HandleName
kept handle [] = []
kept handle (e ∷ es) = let rest = kept handle es in if e.handle == handle then rest else e ∷ rest

listed_same :
    (names names' : ℕ → HandleName) (i n : ℕ)
    → ((k : ℕ) → i ≤ k → k < i + n → names' k ≡ names k)
    → listed names' i n ≡ listed names i n
unfolding listed
listed_same names names' i zero same = refl
listed_same names names' i (suc n) same =
    ap₂ ◌∷◌ (same i (omega arith) (omega arith))
      (listed_same names names' (i + 1) n (λ k a b. same k (omega arith) (omega arith)))

listed_snoc :
    (names : ℕ → HandleName) (i n : ℕ)
    → listed names i (suc n) ≡ listed names i n ++ (names (i + n) ∷ [])
unfolding listed
listed_snoc names i zero = ap (λ k. names k ∷ []) {x = i} {y = i + 0} (omega arith)
listed_snoc names i (suc n) = ap (◌∷◌ (names i)) (
    listed_snoc names (i + 1) n
    ∙ ap (λ k. listed names (i + 1) n ++ (names k ∷ [])) {x = i + 1 + n} {y = i + suc n}
        (omega arith))

-- The names below `j` and those of other handles among the `left` names from `i` on.
pub compact_lem :
    (left : ℕ) (names : ℕ → HandleName) (i j handle : ℕ)
    → j ≤ i
    → let r = compact left names i j handle in
      listed r.1 0 r.0 ≡ listed names 0 j ++ kept handle (listed names i left)
unfolding compact listed kept
compact_lem zero names i j handle le = sym (append-nil (listed names 0 j))
compact_lem (suc left) names i j handle le = elim (ℕ_discrete (names i).handle handle) [
  | yes e ↦
      rw (compact, eq→== (names i).handle handle e)
        (compact_lem left names (i + 1) j handle (omega arith))
  | no ne ↦
      let names' : ℕ → HandleName = if i == j then names else update names j (names i) in
      let other : (k : ℕ) → k ≢ j → names' k ≡ names k = λ k q. elim (ℕ_discrete i j) [
        | yes a ↦ rw (eq→== i j a) refl
        | no a ↦ rw (ne→== i j a) (update_ne names j k (names i) (λ w. q (sym w)))
      ] in
      let moved : names' j ≡ names i = elim (ℕ_discrete i j) [
        | yes a ↦ rw (eq→== i j a) (ap names (sym a))
        | no a ↦ rw (ne→== i j a) (update_self names j (names i))
      ] in
      rw (compact, ne→== (names i).handle handle ne)
        (compact_lem left names' (i + 1) (j + 1) handle (omega arith)
          ∙ ap₂ ◌++◌
              (ap (listed names' 0) {x = j + 1} {y = suc j} (omega arith)
                ∙ listed_snoc names' 0 j
                ∙ ap₂ ◌++◌
                    (listed_same names names' 0 j (λ k a b. other k (λ q. absurd (omega arith))))
                    (ap (λ t. t ∷ []) (ap names' {x = 0 + j} {y = j} (omega arith) ∙ moved)))
              (ap (kept handle) (
                listed_same names names' (i + 1) left
                  (λ k a b. other k (λ q. absurd (omega arith)))))
          ∙ append_assoc (listed names 0 j) (names i ∷ [])
              (kept handle (listed names (i + 1) left)))
]

-- The whole loop.
pub compact_all :
    (n : ℕ) (names : ℕ → HandleName) (handle : ℕ)
    → let r = compact n names 0 0 handle in listed r.1 0 r.0 ≡ kept handle (listed names 0 n)
unfolding listed
compact_all n names handle = compact_lem n names 0 0 handle (omega arith)
