-- ===== src/Handle/Names/Search.antt =====
-- skynet-src/skynet_handle.c: the binary search finds a name, or the place for it.
use ctkjserver.Base.{
  ℕ, zero, suc, ◌+◌, ◌-◌, ◌/◌, ◌≤◌, ◌<◌, ◌≡◌, refl, sym, ap, ◌∙◌, ◌≢◌, ◌⊎◌, inl, inr, List, le→ltb,
  lt→ltb, arith,
}
use native.Mathlib.Decide.{dec_lt}
use ctkjserver.Handle.{HandleName, HandleStorage}
use ctkjserver.Handle.Names.{Comparison, strcmp, search, findname}
use ctkjserver.Handle.Names.Order.{strcmp_trans, strcmp_refl, strcmp_flip, strcmp-cases, less-ne}

abbrev pub Less : List ℕ → List ℕ → Type 0
Less a b = strcmp a b ≡ Comparison.less

-- The first `n` names ascend.
abbrev pub Sorted : (ℕ → HandleName) → ℕ → Type 0
Sorted names n = (i j : ℕ) → i < j → j < n → Less (names i).name (names j).name

module _ (names : ℕ → HandleName) (n : ℕ) (name : List ℕ) where
  -- Where the names below `name` end, and those above it begin.
  pub record Place (b : ℕ) : Type 0 where
    pub inside : b ≤ n
    pub below : (i : ℕ) → i < b → Less (names i).name name
    pub above : (i : ℕ) → b ≤ i → i < n → Less name (names i).name

  pub data Searched (result : ℕ ⊎ ℕ) : Type 0 where
    found : (mid : ℕ) → mid < n → (names mid).name ≡ name → result ≡ inl mid → Searched result
    absent : (b : ℕ) → Place b → result ≡ inr b → Searched result

  module _ (sorted : Sorted names n) where
    search_lem :
        (f begin stop : ℕ)
        → begin ≤ stop
        → stop ≤ n
        → stop < begin + f
        → ((i : ℕ) → i < begin → Less (names i).name name)
        → ((i : ℕ) → stop ≤ i → i < n → Less name (names i).name)
        → Searched (search f names name begin stop)
    unfolding search
    search_lem zero begin stop a b c below above = absurd (omega arith)
    search_lem (suc f) begin stop a b c below above = elim (dec_lt begin stop) [
      | no done ↦
          absent begin
            (record {
              inside = omega arith;
              below = below;
              above = λ i l m. above i (omega arith) m;
            })
            (rw (search, le→ltb begin stop (omega arith)) refl)
      | yes more ↦
          let mid = (begin + stop - 1) / 2 in
          elim (strcmp-cases (names mid).name name) [
            | inl e ↦
                found mid (omega arith) e
                  (rw (search, lt→ltb begin stop more, e, strcmp_refl name) refl)
            | inr (inl l) ↦
                rw (search, lt→ltb begin stop more, l)
                  (search_lem f (mid + 1) stop (omega arith) b (omega arith)
                    (λ i k. elim (dec_lt i mid) [
                      | yes m ↦
                          strcmp_trans (names i).name (names mid).name name
                            (sorted i mid m (omega arith)) l
                      | no m ↦
                          ap (λ t. strcmp (names t).name name) {x = i} {y = mid} (omega arith) ∙ l
                    ])
                    above)
            | inr (inr g) ↦
                rw (search, lt→ltb begin stop more, strcmp_flip name (names mid).name g)
                  (search_lem f begin mid (omega arith) (omega arith) (omega arith) below (λ i k m.
                    elim (dec_lt mid i) [
                      | yes o ↦
                          strcmp_trans name (names mid).name (names i).name g (sorted mid i o m)
                      | no o ↦
                          ap (λ t. strcmp name (names t).name) {x = i} {y = mid} (omega arith) ∙ g
                    ]))
          ]
    ]

-- The search of the whole array.
pub search_all :
    (names : ℕ → HandleName) (n : ℕ) (name : List ℕ)
    → Sorted names n
    → Searched names n name (search (n + 1) names name 0 n)
search_all names n name sorted =
    search_lem names n name sorted (n + 1) 0 n (omega arith) (omega arith) (omega arith)
      (λ i l. absurd (omega arith)) (λ i a b. absurd (omega arith))

module _ (s : HandleStorage) (name : List ℕ) (sorted : Sorted s.names s.name_count) where
  distinct :
      (i j : ℕ) → i < s.name_count → j < s.name_count → (s.names i).name ≡ (s.names j).name → i ≡ j
  distinct i j k l e = elim (dec_lt i j) [
    | yes a ↦ absurd (less-ne (s.names i).name (s.names j).name (sorted i j a l) e)
    | no a ↦ elim (dec_lt j i) [
      | yes b ↦ absurd (less-ne (s.names j).name (s.names i).name (sorted j i b k) (sym e))
      | no b ↦ omega arith
    ]
  ]

  -- `skynet_handle_findname` of a name that is there gives its handle.
  pub findname-found :
      (i : ℕ) → i < s.name_count → (s.names i).name ≡ name → findname s name ≡ (s.names i).handle
  unfolding findname
  findname-found i l e = elim (search_all s.names s.name_count name sorted) [
    | found mid inside at r ↦
        rw (findname, r) (ap (λ t. (s.names t).handle) (distinct mid i inside l (at ∙ sym e)))
    | absent b p r ↦ elim (dec_lt i b) [
      | yes k ↦ absurd (less-ne (s.names i).name name (p.below i k) e)
      | no k ↦ absurd (less-ne name (s.names i).name (p.above i (omega arith) l) (sym e))
    ]
  ]

  -- ... and of any other name gives 0.
  pub findname-absent : ((i : ℕ) → i < s.name_count → (s.names i).name ≢ name) → findname s name ≡ 0
  unfolding findname
  findname-absent none_is = elim (search_all s.names s.name_count name sorted) [
    | found mid inside at r ↦ absurd (none_is mid inside at)
    | absent b p r ↦ rw (findname, r) refl
  ]
