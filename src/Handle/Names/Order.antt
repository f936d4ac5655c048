-- ===== src/Handle/Names/Order.antt =====
-- skynet-src/skynet_handle.c: strcmp orders the names.
use ctkjserver.Base.{ℕ, ◌≡◌, refl, sym, ap, ◌∙◌, ◌≢◌, ◌⊎◌, inl, inr, List, [], ◌∷◌, arith, ap₂}
use ctkjserver.Handle.Names.{Comparison, strcmp}

pub strcmp_eq : (a b : List ℕ) → strcmp a b ≡ Comparison.equal → a ≡ b
unfolding strcmp
strcmp_eq [] [] e = refl
strcmp_eq [] (b ∷ ys) e = ground arith
strcmp_eq (a ∷ xs) [] e = ground arith
strcmp_eq (a ∷ xs) (b ∷ ys) e =
    let heads : a ≡ b = ground arith in
    let rest : strcmp xs ys ≡ Comparison.equal = ground arith in
    ap₂ ◌∷◌ heads (strcmp_eq xs ys rest)

pub strcmp_refl : (a : List ℕ) → strcmp a a ≡ Comparison.equal
unfolding strcmp
strcmp_refl [] = refl
strcmp_refl (a ∷ xs) = ground (arith, strcmp_refl xs)

pub strcmp_swap : (a b : List ℕ) → strcmp a b ≡ Comparison.greater → strcmp b a ≡ Comparison.less
unfolding strcmp
strcmp_swap [] [] e = ground arith
strcmp_swap [] (b ∷ ys) e = ground arith
strcmp_swap (a ∷ xs) [] e = refl
strcmp_swap (a ∷ xs) (b ∷ ys) e = ground (arith, strcmp_swap xs ys)

pub strcmp_trans :
    (a b c : List ℕ)
    → strcmp a b ≡ Comparison.less
    → strcmp b c ≡ Comparison.less
    → strcmp a c ≡ Comparison.less
unfolding strcmp
strcmp_trans [] [] c e f = ground arith
strcmp_trans (a ∷ xs) [] c e f = ground arith
strcmp_trans a (b ∷ ys) [] e f = ground arith
strcmp_trans [] (b ∷ ys) (c ∷ zs) e f = refl
strcmp_trans (a ∷ xs) (b ∷ ys) (c ∷ zs) e f = ground (arith, strcmp_trans xs ys zs)

-- What a comparison says, with the equation.
pub strcmp-cases :
    (a b : List ℕ) → (a ≡ b) ⊎ ((strcmp a b ≡ Comparison.less) ⊎ (strcmp b a ≡ Comparison.less))
strcmp-cases a b = split (strcmp a b) refl
  where
    split :
        (c : Comparison)
        → strcmp a b ≡ c
        → (a ≡ b) ⊎ ((strcmp a b ≡ Comparison.less) ⊎ (strcmp b a ≡ Comparison.less))
    split Comparison.equal e = inl (strcmp_eq a b e)
    split Comparison.less e = inr (inl e)
    split Comparison.greater e = inr (inr (strcmp_swap a b e))

pub strcmp_flip : (a b : List ℕ) → strcmp a b ≡ Comparison.less → strcmp b a ≡ Comparison.greater
unfolding strcmp
strcmp_flip [] [] e = ground arith
strcmp_flip [] (b ∷ ys) e = refl
strcmp_flip (a ∷ xs) [] e = ground arith
strcmp_flip (a ∷ xs) (b ∷ ys) e = ground (arith, strcmp_flip xs ys)

pub less-ne : (a b : List ℕ) → strcmp a b ≡ Comparison.less → a ≢ b
less-ne a b e q = apart (sym (strcmp_refl b) ∙ ap (λ t. strcmp t b) (sym q) ∙ e)
  where
    apart : Comparison.equal ≢ Comparison.less
    apart p = ground arith
