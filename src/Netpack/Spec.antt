-- ===== src/Netpack/Spec.antt =====
-- What lualib-src/lua-netpack.c is to do: a stream of bytes is a sequence of frames and a tail that
-- is not yet a frame.
use ctkjserver.Base.{
  ℕ, ◌<◌, ◌≡◌, refl, sym, ap, ap₂, subst, ◌∙◌, List, [], ◌∷◌, ◌++◌, append_assoc, length,
  length-append, arith,
}
use ctkjserver.Netpack.{read_size}

-- No whole frame begins here.
abbrev pub IsShort : List ℕ → Type 0
IsShort [] = Unit
IsShort (b ∷ []) = Unit
IsShort (b0 ∷ b1 ∷ got) = length got < read_size b0 b1

-- The bytes are the frames of the packages `ps`, and then `r`.
abbrev pub Split : List ℕ → List (List ℕ) → List ℕ → Type 0
Split xs [] r = (xs ≡ r) × IsShort r
Split xs (p ∷ ps) r =
    (b0 : ℕ) × (b1 : ℕ) × (rest : List ℕ) × (xs ≡ b0 ∷ b1 ∷ (p ++ rest))
    × (length p ≡ read_size b0 b1)
    × Split rest ps r

-- More bytes extend the tail.
pub Split-append :
    (xs c : List ℕ) (ps qs : List (List ℕ)) (r r' : List ℕ)
    → Split xs ps r
    → Split (r ++ c) qs r'
    → Split (xs ++ c) (ps ++ qs) r'
Split-append xs c [] qs r r' (e, short) t = subst (λ ys. Split (ys ++ c) qs r') (sym e) t
Split-append xs c (p ∷ ps) qs r r' (b0, b1, rest, e, size, s) t = (
  b0,
  b1,
  rest ++ c,
  ap (λ ys. ys ++ c) e ∙ ap (λ ys. b0 ∷ b1 ∷ ys) (append_assoc p rest c),
  size,
  Split-append rest c ps qs r r' s t,
)

-- Lists of equal length that begin equal lists are equal, and so is what follows.
append_inj :
    (p p' xs ys : List ℕ) → length p ≡ length p' → p ++ xs ≡ p' ++ ys → (p ≡ p') × (xs ≡ ys)
append_inj [] [] xs ys l e = (refl, e)
append_inj [] (x ∷ p') xs ys l e = absurd (omega arith)
append_inj (x ∷ p) [] xs ys l e = absurd (omega arith)
append_inj (x ∷ p) (y ∷ p') xs ys l e =
    let (a, b) = append_inj p p' xs ys (omega arith) (cc) in (cc, b)

short-ne-frame :
    (p rest : List ℕ) (b0 b1 : ℕ) → length p ≡ read_size b0 b1 → IsShort (b0 ∷ b1 ∷ (p ++ rest)) → ⊥
short-ne-frame p rest b0 b1 e s = omega (arith, length-append p rest)

-- There is one way to split a stream.
pub Split-unique :
    (xs : List ℕ) (ps qs : List (List ℕ)) (r r' : List ℕ)
    → Split xs ps r
    → Split xs qs r'
    → (ps ≡ qs) × (r ≡ r')
Split-unique xs [] [] r r' s t = (refl, sym s.0 ∙ t.0)
Split-unique xs [] (q ∷ qs) r r' s (b0, b1, rest, e, size, t) =
    absurd (short-ne-frame q rest b0 b1 size (subst IsShort (sym s.0 ∙ e) s.1))
Split-unique xs (p ∷ ps) [] r r' (b0, b1, rest, e, size, s) t =
    absurd (short-ne-frame p rest b0 b1 size (subst IsShort (sym t.0 ∙ e) t.1))
Split-unique xs (p ∷ ps) (q ∷ qs) r r' (b0, b1, rest, e, size, s) (c0, c1, rest', e', size', t) =
    let same : b0 ∷ b1 ∷ (p ++ rest) ≡ c0 ∷ c1 ∷ (q ++ rest') = sym e ∙ e' in
    let (p_same, rest_same) = append_inj p q rest rest' (size ∙ (cc) ∙ sym size') (cc) in
    let (ps_same, r_same) =
      Split-unique rest ps qs r r' s (subst (λ ys. Split ys qs r') (sym rest_same) t) in
    (ap₂ ◌∷◌ p_same ps_same, r_same)
