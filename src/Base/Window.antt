-- ===== src/Base/Window.antt =====
-- The elements of a circular array, from an index on and round the end, as a list.
use ctkjserver.Base.Tests.{if◌then◌else◌, ltb, lt→ltb, le→ltb}
use ctkjserver.Base.Lists.{length, get_or, set, length-set, get_or-set_self, get_or-set_ne}
use Prim.Native.Nat.{ℕ, zero, suc, ◌+◌, ◌-◌, ◌%◌, ◌<◌, ◌≤◌}
use mathlib.Core.Path.{◌≡◌, refl, ap, ap₂, sym, ◌∙◌}
use mathlib.Core.List.{List, [], ◌∷◌, ◌++◌}
use native.Mathlib.Nat.{mod-add-mod, mod-eq_of_lt, mod-eq-sub-mod}
use native.Mathlib.Decide.{dec_lt, ℕ_discrete}
use mathlib.Core.Logic.{◌≢◌}
use native.Mathlib.Omega.{arith}

-- The number of elements between the two indices of a circular array.
abbrev pub used : ℕ → ℕ → ℕ → ℕ
used cap head tail = if ltb tail head then tail + cap - head else tail - head

-- `if (++i >= cap) i = 0;`
abbrev pub step : ℕ → ℕ → ℕ
step cap i = if ltb (i + 1) cap then i + 1 else 0

pub used-lt : (cap head tail : ℕ) → head < cap → tail < cap → used cap head tail < cap
used-lt cap head tail h t = ground arith

pub used-step :
    (cap head tail : ℕ)
    → head < cap
    → tail < cap
    → head ≢ step cap tail
    → used cap head (step cap tail) ≡ suc (used cap head tail)
used-step cap head tail h t ne = ground arith

pub used_full :
    (cap head tail : ℕ)
    → head < cap
    → tail < cap
    → head ≡ step cap tail
    → suc (used cap head tail) ≡ cap
used_full cap head tail h t e = ground arith

pub used_pop :
    (cap head tail : ℕ)
    → head < cap
    → tail < cap
    → head ≢ tail
    → used cap head tail ≡ suc (used cap (step cap head) tail)
used_pop cap head tail h t ne = ground arith

pub used_same : (cap head tail : ℕ) → head ≡ tail → used cap head tail ≡ 0
used_same cap head tail e = ground arith

pub used_empty :
    (cap head tail : ℕ) → head < cap → tail < cap → used cap head tail ≡ 0 → head ≡ tail
used_empty cap head tail h t e = ground arith

module _ {ℓ} {A : Type ℓ} (d : A) where
  -- the `n` elements from index `h` on, going round at `cap`; `d` is read out of range
  abbrev pub window : List A → ℕ → ℕ → ℕ → List A
  window buf cap h zero = []
  window buf cap h (suc n) = get_or buf (h % cap) d ∷ window buf cap (h + 1) n

  pub length-window : (buf : List A) (cap h n : ℕ) → length (window buf cap h n) ≡ n
  length-window buf cap h zero = refl
  length-window buf cap h (suc n) = ap suc (length-window buf cap (h + 1) n)

  -- Two windows are equal when their elements are.
  pub window_ext :
      (buf buf' : List A) (cap cap' h h' n : ℕ)
      → ((k : ℕ) → k < n → get_or buf ((h + k) % cap) d ≡ get_or buf' ((h' + k) % cap') d)
      → window buf cap h n ≡ window buf' cap' h' n
  window_ext buf buf' cap cap' h h' zero e = refl
  window_ext buf buf' cap cap' h h' (suc n) e =
      ap₂ ◌∷◌ first (window_ext buf buf' cap cap' (h + 1) (h' + 1) n later)
    where
      first : get_or buf (h % cap) d ≡ get_or buf' (h' % cap') d
      first =
          ap (λ (i : ℕ). get_or buf (i % cap) d) (omega arith)
          ∙ e 0 (omega arith)
          ∙ ap (λ (i : ℕ). get_or buf' (i % cap') d) (omega arith)

      later :
          (k : ℕ) → k < n → get_or buf ((h + 1 + k) % cap) d ≡ get_or buf' ((h' + 1 + k) % cap') d
      later k l =
          ap (λ (i : ℕ). get_or buf (i % cap) d) (omega arith)
          ∙ e (suc k) (omega arith)
          ∙ ap (λ (i : ℕ). get_or buf' (i % cap') d) (omega arith)

  -- A longer window ends with the element after the shorter one.
  pub window_snoc :
      (buf : List A) (cap h n : ℕ)
      → window buf cap h (suc n) ≡ window buf cap h n ++ (get_or buf ((h + n) % cap) d ∷ [])
  window_snoc buf cap h zero = ap (λ (i : ℕ). get_or buf (i % cap) d ∷ []) (omega arith)
  window_snoc buf cap h (suc n) = ap (◌∷◌ (get_or buf (h % cap) d)) (
      window_snoc buf cap (h + 1) n
      ∙ ap (λ (i : ℕ). window buf cap (h + 1) n ++ (get_or buf (i % cap) d ∷ [])) (omega arith))

-- Fewer steps than a whole round lead to another index.
mod_add_ne : (cap r d : ℕ) → r < cap → 0 < d → d < cap → (r + d) % cap ≢ r
mod_add_ne cap r d h p q = elim (dec_lt (r + d) cap) [
  | yes l ↦ omega (arith, mod-eq_of_lt l)
  | no l ↦ omega (
    arith,
    mod-eq-sub-mod {n = r + d} {m = cap} (omega arith),
    mod-eq_of_lt {n = r + d - cap} {m = cap} (omega arith),
  )
]

pub mod_inj_below : (cap h k n : ℕ) → 0 < cap → k < n → n < cap → (h + n) % cap ≢ (h + k) % cap
mod_inj_below cap h k n pos l b e =
    mod_add_ne cap ((h + k) % cap) (n - k) (omega arith) (omega arith) (omega arith)
      (rw mod-add-mod (ap (λ (t : ℕ). t % cap) (omega arith) ∙ e))

-- One more step, reset at the end of the array.
pub mod_step : (cap h k : ℕ) → h < cap → (step cap h + k) % cap ≡ (h + 1 + k) % cap
mod_step cap h k l = elim (dec_lt (h + 1) cap) [
  | yes p ↦ rw (lt→ltb _ _ p)
  | no p ↦ rw (le→ltb (h + 1) cap (omega arith)) (
      ap (λ (t : ℕ). t % cap) (omega arith)
      ∙ sym (mod-eq-sub-mod {n = h + 1 + k} {m = cap} (omega arith))
      ∙ refl)
]

-- The end index is where the elements end.
pub end_at :
    (cap head tail : ℕ) → head < cap → tail < cap → tail ≡ (head + used cap head tail) % cap
end_at cap head tail h t = elim (dec_lt tail head) [
  | yes l ↦ rw (lt→ltb _ _ l) (
      sym (
        mod-eq-sub-mod {n = head + (tail + cap - head)} {m = cap} (omega arith)
        ∙ mod-eq_of_lt {n = head + (tail + cap - head) - cap} {m = cap} (omega arith)
        ∙ omega arith))
  | no l ↦
      rw (le→ltb tail head (omega arith))
        (sym (mod-eq_of_lt {n = head + (tail - head)} {m = cap} (omega arith) ∙ omega arith))
]

module _ {ℓ} {A : Type ℓ} (d : A) where
  -- A write at the end makes the window one longer.
  pub window_push :
      (buf : List A) (cap head tail n : ℕ) (x : A)
      → cap ≤ length buf
      → tail < cap
      → n < cap
      → tail ≡ (head + n) % cap
      → window d (set buf tail x) cap head (suc n) ≡ window d buf cap head n ++ (x ∷ [])
  window_push buf cap head tail n x fits t l e =
      window_snoc d (set buf tail x) cap head n
      ∙ ap₂ (λ (xs : List A) (y : A). xs ++ (y ∷ [])) same last
    where
      same : window d (set buf tail x) cap head n ≡ window d buf cap head n
      same = window_ext d (set buf tail x) buf cap cap head head n (λ k b.
          get_or-set_ne buf tail ((head + k) % cap) x d
            (λ q. mod_inj_below cap head k n (omega arith) b l (sym e ∙ q)))

      last : get_or (set buf tail x) ((head + n) % cap) d ≡ x
      last = rw (← e) (get_or-set_self buf tail x d (omega arith))

  -- A window that is not empty is its first element and the window from the next index.
  pub window_pop :
      (buf : List A) (cap head n : ℕ)
      → head < cap
      → window d buf cap head (suc n) ≡ get_or buf head d ∷ window d buf cap (step cap head) n
  window_pop buf cap head n h = ap₂ ◌∷◌ (ap (λ (i : ℕ). get_or buf i d) (mod-eq_of_lt h)) (
      window_ext d buf buf cap cap (head + 1) (step cap head) n
        (λ k _. ap (λ (i : ℕ). get_or buf i d) (sym (mod_step cap head k h))))

-- `for (i...) fresh[i] = buf[(head + i) % cap];` with `left` rounds to go
unfoldable pub copy_round {ℓ} : {A : Type ℓ} → A → List A → ℕ → ℕ → ℕ → ℕ → List A → List A
copy_round d buf head cap zero i fresh = fresh
copy_round d buf head cap (suc left) i fresh =
    copy_round d buf head cap left (i + 1) (set fresh i (get_or buf ((head + i) % cap) d))

module _ {ℓ} {A : Type ℓ} (d : A) (buf : List A) (head cap : ℕ) where
  pub length-copy_round :
      (left i : ℕ) (fresh : List A) → length (copy_round d buf head cap left i fresh) ≡ length fresh
  unfolding copy_round
  length-copy_round zero i fresh = refl
  length-copy_round (suc left) i fresh =
      length-copy_round left (i + 1) (set fresh i (get_or buf ((head + i) % cap) d))
      ∙ length-set fresh i (get_or buf ((head + i) % cap) d)

  -- What is behind the loop's index stays.
  copy_round_before :
      (left i j : ℕ) (fresh : List A)
      → j < i
      → get_or (copy_round d buf head cap left i fresh) j d ≡ get_or fresh j d
  unfolding copy_round
  copy_round_before zero i j fresh l = refl
  copy_round_before (suc left) i j fresh l =
      copy_round_before left (i + 1) j (set fresh i (get_or buf ((head + i) % cap) d)) (omega arith)
      ∙ get_or-set_ne fresh i j (get_or buf ((head + i) % cap) d) d (λ e. absurd (omega arith))

  copy_round_get :
      (left i j : ℕ) (fresh : List A)
      → i ≤ j
      → j < i + left
      → i + left ≤ length fresh
      → get_or (copy_round d buf head cap left i fresh) j d ≡ get_or buf ((head + j) % cap) d
  unfolding copy_round
  copy_round_get zero i j fresh l m b = absurd (omega arith)
  copy_round_get (suc left) i j fresh l m b = elim (ℕ_discrete i j) [
    | yes e ↦
        copy_round_before left (i + 1) j (set fresh i (get_or buf ((head + i) % cap) d))
          (omega arith)
        ∙ rw (← e) (get_or-set_self fresh i (get_or buf ((head + i) % cap) d) d (omega arith))
    | no ne ↦
        copy_round_get left (i + 1) j (set fresh i (get_or buf ((head + i) % cap) d)) (omega arith)
          (omega arith) (rw length-set (omega arith))
  ]

  -- The copy of a whole round holds the same elements from index 0 on.
  pub window-copy_round :
      (cap' : ℕ) (fresh : List A)
      → cap ≤ cap'
      → cap' ≡ length fresh
      → window d (copy_round d buf head cap cap 0 fresh) cap' 0 cap ≡ window d buf cap head cap
  window-copy_round cap' fresh le e =
      window_ext d (copy_round d buf head cap cap 0 fresh) buf cap' cap 0 head cap (λ k l.
        rw (mod-eq_of_lt {n = 0 + k} {m = cap'} (omega arith)) (
          ap (λ (i : ℕ). get_or (copy_round d buf head cap cap 0 fresh) i d) (omega arith)
          ∙ copy_round_get cap 0 k fresh (omega arith) (omega arith) (omega arith)))
