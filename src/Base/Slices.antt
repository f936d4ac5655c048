-- ===== src/Base/Slices.antt =====
-- Parts of lists: `take` and `drop` of a concatenation, and the concatenation of a list of lists.
use Prim.Native.Nat.{ℕ, zero, suc, ◌+◌, ◌-◌, ◌≤◌}
use mathlib.Core.Path.{◌≡◌, refl, sym, ap, ◌∙◌}
use mathlib.Core.List.{List, [], ◌∷◌, ◌++◌, append_assoc}
use native.Mathlib.Omega.{arith}
use ctkjserver.Base.Lists.{length, take, drop}

module _ {ℓ} {A : Type ℓ} where
  pub take-append_low : (n : ℕ) (xs ys : List A) → n ≤ length xs → take n (xs ++ ys) ≡ take n xs
  take-append_low zero xs ys l = refl
  take-append_low (suc n) [] ys l = absurd (omega arith)
  take-append_low (suc n) (x ∷ xs) ys l = ap (◌∷◌ x) (take-append_low n xs ys (omega arith))

  pub drop-append_low :
      (n : ℕ) (xs ys : List A) → n ≤ length xs → drop n (xs ++ ys) ≡ drop n xs ++ ys
  drop-append_low zero xs ys l = refl
  drop-append_low (suc n) [] ys l = absurd (omega arith)
  drop-append_low (suc n) (x ∷ xs) ys l = drop-append_low n xs ys (omega arith)

  pub take-append_high :
      (n : ℕ) (xs ys : List A) → length xs ≤ n → take n (xs ++ ys) ≡ xs ++ take (n - length xs) ys
  take-append_high n [] ys l = ap (λ k. take k ys) {x = n} {y = n - 0} (omega arith)
  take-append_high zero (x ∷ xs) ys l = absurd (omega arith)
  take-append_high (suc n) (x ∷ xs) ys l = ap (◌∷◌ x) (
      take-append_high n xs ys (omega arith)
      ∙ ap (λ k. xs ++ take k ys) {x = n - length xs} {y = suc n - suc (length xs)} (omega arith))

  pub drop-append_high :
      (n : ℕ) (xs ys : List A) → length xs ≤ n → drop n (xs ++ ys) ≡ drop (n - length xs) ys
  drop-append_high n [] ys l = ap (λ k. drop k ys) {x = n} {y = n - 0} (omega arith)
  drop-append_high zero (x ∷ xs) ys l = absurd (omega arith)
  drop-append_high (suc n) (x ∷ xs) ys l =
      drop-append_high n xs ys (omega arith)
      ∙ ap (λ k. drop k ys) {x = n - length xs} {y = suc n - suc (length xs)} (omega arith)

  pub drop_nil : (n : ℕ) → ◌≡◌ {A = List A} (drop n []) []
  drop_nil zero = refl
  drop_nil (suc n) = refl

  pub drop-drop : (m n : ℕ) (xs : List A) → drop n (drop m xs) ≡ drop (m + n) xs
  drop-drop zero n xs = ap (λ k. drop k xs) {x = n} {y = 0 + n} (omega arith)
  drop-drop (suc m) n [] = drop_nil n ∙ sym (drop_nil (suc m + n))
  drop-drop (suc m) n (x ∷ xs) =
      drop-drop m n xs ∙ ap (λ k. drop k (x ∷ xs)) {x = suc (m + n)} {y = suc m + n} (omega arith)

  pub take_all : (xs : List A) → take (length xs) xs ≡ xs
  take_all [] = refl
  take_all (x ∷ xs) = ap (◌∷◌ x) (take_all xs)

  pub take_nil : (n : ℕ) → ◌≡◌ {A = List A} (take n []) []
  take_nil zero = refl
  take_nil (suc n) = refl

  -- A part of a part.
  pub take-take : (m n : ℕ) (xs : List A) → m ≤ n → take m (take n xs) ≡ take m xs
  take-take zero n xs l = refl
  take-take (suc m) zero xs l = absurd (omega arith)
  take-take (suc m) (suc n) [] l = refl
  take-take (suc m) (suc n) (x ∷ xs) l = ap (◌∷◌ x) (take-take m n xs (omega arith))

  -- A part in front of another.
  pub take-take-drop : (m n : ℕ) (xs : List A) → take m xs ++ take n (drop m xs) ≡ take (m + n) xs
  take-take-drop zero n xs = ap (λ k. take k xs) {x = n} {y = 0 + n} (omega arith)
  take-take-drop (suc m) n [] = take_nil n ∙ sym (take_nil (suc m + n))
  take-take-drop (suc m) n (x ∷ xs) =
      ap (◌∷◌ x) (take-take-drop m n xs)
      ∙ ap (λ k. take k (x ∷ xs)) {x = suc (m + n)} {y = suc m + n} (omega arith)

-- The concatenation of a list of lists.
abbrev pub joined {ℓ} : {A : Type ℓ} → List (List A) → List A
joined [] = []
joined (m ∷ ms) = m ++ joined ms

pub joined-append {ℓ} :
    {A : Type ℓ} (xs ys : List (List A)) → joined (xs ++ ys) ≡ joined xs ++ joined ys
joined-append [] ys = refl
joined-append (x ∷ xs) ys =
    ap (◌++◌ x) (joined-append xs ys) ∙ sym (append_assoc x (joined xs) (joined ys))
