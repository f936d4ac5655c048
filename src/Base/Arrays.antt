-- ===== src/Base/Arrays.antt =====
-- Arrays of fixed size as functions of the index, and sums over them.
use ctkjserver.Base.Tests.{◌==◌, if◌then◌else◌}
use Prim.Native.Nat.{ℕ, zero, suc, ◌+◌, ◌<◌}
use mathlib.Core.Path.{◌≡◌, refl, sym, subst}
use native.Mathlib.Decide.{ℕ_discrete}
use mathlib.Core.Logic.{◌≢◌}
use native.Mathlib.Omega.{arith}

module _ {ℓ} {A : Type ℓ} where
  -- `a[i] = v`
  abbrev pub update : (ℕ → A) → ℕ → A → ℕ → A
  update f i v j = if i == j then v else f j

  pub update_self : (f : ℕ → A) (i : ℕ) (v : A) → update f i v i ≡ v
  update_self f i v = ground arith

  pub update_ne : (f : ℕ → A) (i j : ℕ) (v : A) → i ≢ j → update f i v j ≡ f j
  update_ne f i j v h = ground arith

-- The sum of `f` over the indices below `n`.
pub sum_below : ℕ → (ℕ → ℕ) → ℕ
sum_below zero f = 0
sum_below (suc n) f = f n + sum_below n f

pub sum_below_ext :
    (n : ℕ) (f g : ℕ → ℕ) → ((j : ℕ) → j < n → f j ≡ g j) → sum_below n f ≡ sum_below n g
unfolding sum_below
sum_below_ext zero f g h = refl
sum_below_ext (suc n) f g h =
    omega (arith, h n (omega arith), sum_below_ext n f g (λ j l. h j (omega arith)))

-- Changing one entry changes the sum by the difference of the entries.
pub sum_below_change :
    (n i : ℕ) (f g : ℕ → ℕ)
    → i < n
    → ((j : ℕ) → j < n → i ≢ j → f j ≡ g j)
    → sum_below n g + f i ≡ sum_below n f + g i
unfolding sum_below
sum_below_change zero i f g l h = absurd (omega arith)
sum_below_change (suc n) i f g l h = elim (ℕ_discrete i n) [
  | yes e ↦
      rw e
        (omega (arith, sum_below_ext n f g (λ j k. h j (omega arith) (λ q. absurd (omega arith)))))
  | no ne ↦ omega (
    arith,
    h n (omega arith) ne,
    sum_below_change n i f g (omega arith) (λ j k. h j (omega arith)),
  )
]

module _ {ℓ κ} {A : Type ℓ} (P : ℕ → A → Type κ) where
  -- What holds at every index holds after a write of a value for which it holds.
  pub update_all :
      (f : ℕ → A) (i : ℕ) (v : A) → ((j : ℕ) → P j (f j)) → P i v → (j : ℕ) → P j (update f i v j)
  update_all f i v h p j = elim (ℕ_discrete i j) [
    | yes e ↦ subst (λ k. P k (update f i v k)) e (subst (P i) (sym (update_self f i v)) p)
    | no ne ↦ subst (P j) (sym (update_ne f i j v ne)) (h j)
  ]

pub sum_below_zero : (n : ℕ) → sum_below n (λ _. 0) ≡ 0
unfolding sum_below
sum_below_zero zero = refl
sum_below_zero (suc n) = omega (arith, sum_below_zero n)
