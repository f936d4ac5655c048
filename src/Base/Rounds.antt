-- ===== src/Base/Rounds.antt =====
-- Scans that go round an array: every index is met.
use Prim.Native.Nat.{ℕ, zero, suc, ◌+◌, ◌-◌, ◌*◌, ◌/◌, ◌%◌, ◌<◌}
use mathlib.Core.Path.{◌≡◌, ap, ◌∙◌}
use native.Mathlib.Nat.{add-mod_left, div-add-mod', mod-lt, mod-add-mod, mod-eq_of_lt}
use native.Mathlib.Omega.{arith}

-- A multiple does not change a remainder.
pub mul-add-mod : (q n r : ℕ) → (q * n + r) % n ≡ r % n
mul-add-mod zero n r = ap (λ t. t % n) {x = 0 * n + r} (omega arith)
mul-add-mod (suc q) n r =
    ap (λ t. t % n) {x = suc q * n + r} {y = n + (q * n + r)} (ground arith)
    ∙ add-mod_left n (q * n + r)
    ∙ mul-add-mod q n r

-- Each slot is met by the scan.
pub scan-hits : (n j index : ℕ) → j < n → (i : ℕ) × (i < n) × ((i + index) % n ≡ j)
scan-hits n j index l =
    let r = index % n in
    let below : r < n = mod-lt index (omega arith) in
    (
      (j + (n - r)) % n,
      mod-lt (j + (n - r)) (omega arith),
      mod-add-mod (j + (n - r)) n index
          ∙ ap (λ t. t % n) {x = j + (n - r) + index} {y = suc (index / n) * n + j}
              (ground (arith, div-add-mod' index n))
          ∙ mul-add-mod (suc (index / n)) n j
          ∙ mod-eq_of_lt l,
    )
