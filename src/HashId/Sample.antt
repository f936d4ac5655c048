-- ===== src/HashId/Sample.antt =====
-- A table of service-src/hashid.h with one id.
use ctkjserver.Base.{◌≡◌, refl, sym, eq→==, ne→==, none, some, [], ◌∷◌, ◌==◌, if◌then◌else◌}
use native.Mathlib.Decide.{ℕ_discrete}
use ctkjserver.HashId.{HashId, find, lookup}
use ctkjserver.HashId.Laws.{Valid}

-- 7 is in node 3 of 4.
abbrev pub one : HashId
one = record {
  hashmod = 15;
  cap = 4;
  count = 1;
  id = λ i. if i == 3 then some 7 else none;
  hash = λ h. if h == 7 then 3 ∷ [] else [];
}

pub one-Valid : Valid one
one-Valid h = elim (ℕ_discrete h 7) [
  | yes e ↦ rw (eq→== h 7 e) ((7, refl, sym e, tt), tt)
  | no ne ↦ rw (ne→== h 7 ne) tt
]

pub absent : lookup one 23 ≡ none
unfolding lookup find
absent = refl
