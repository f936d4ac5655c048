-- ===== src/Netpack/Buffers.antt =====
-- lualib-src/lua-netpack.c: what the copies into a fresh buffer leave there.
use ctkjserver.Base.{
  ℕ, zero, suc, ◌+◌, ◌-◌, ◌≤◌, ◌≡◌, refl, sym, ap, ap₂, ◌∙◌, none, some, List, [], ◌∷◌, ◌++◌, map,
  append-nil, append_assoc, set, length, replicate, length-append, arith,
}
use ctkjserver.Netpack.{Cell, memcpy}

-- A buffer whose first bytes are `got`, with room for `n` more.
abbrev pub filled : List ℕ → ℕ → List Cell
filled got n = map some got ++ replicate n none

set-filled :
    (got : List ℕ) (n x : ℕ)
    → set (filled got (suc n)) (length got) (some x) ≡ filled (got ++ (x ∷ [])) n
set-filled [] n x = refl
set-filled (b ∷ got) n x = ap (◌∷◌ (some b)) (set-filled got n x)

pub memcpy-filled :
    (got xs : List ℕ) (n : ℕ)
    → length xs ≤ n
    → memcpy (filled got n) (length got) xs ≡ filled (got ++ xs) (n - length xs)
memcpy-filled got [] n h =
    let same : n ≡ n - 0 = omega arith in ap₂ filled (sym (append-nil got)) same
memcpy-filled got (x ∷ xs) zero h = absurd (omega arith)
memcpy-filled got (x ∷ xs) (suc n) h =
    let next : length got + 1 ≡ length (got ++ (x ∷ [])) =
      omega (arith, length-append got (x ∷ [])) in
    let left : n - length xs ≡ suc n - suc (length xs) = omega arith in
    ap₂ (λ buffer i. memcpy buffer i xs) (set-filled got n x) next
    ∙ memcpy-filled (got ++ (x ∷ [])) xs n (omega arith)
    ∙ ap₂ filled (append_assoc got (x ∷ []) xs) left

-- A copy that fits exactly fills the buffer.
pub memcpy_whole :
    (got xs : List ℕ) (n : ℕ)
    → length xs ≡ n
    → memcpy (filled got n) (length got) xs ≡ map some (got ++ xs)
memcpy_whole got xs n e =
    let none_left : n - length xs ≡ 0 = omega arith in
    memcpy-filled got xs n (omega arith)
    ∙ ap (filled (got ++ xs)) none_left
    ∙ append-nil (map some (got ++ xs))
