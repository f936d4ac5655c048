-- ===== src/Dispatch/Watch.antt =====
-- skynet-src/skynet_monitor.c: which message the check reports.
use ctkjserver.Base.{
  ℕ, ◌+◌, ◌%◌, ◌^◌, ◌<◌, ◌≡◌, refl, sym, ◌∙◌, ◌≢◌, inl, inr, Option, none, some, List, [], ◌∷◌,
  length, ◌==◌, eq→==, ne→==, Bool-cases, if◌then◌else◌, arith,
}
use ctkjserver.Dispatch.{Monitor, monitor_trigger, monitor_check}

-- The calls of `skynet_monitor_trigger` between two checks.
pub triggers : Monitor → List (ℕ × ℕ) → Monitor
triggers sm [] = sm
triggers sm ((source, destination) ∷ ts) = triggers (monitor_trigger sm source destination) ts

version_lem :
    (ts : List (ℕ × ℕ)) (sm : Monitor)
    → sm.version < 2 ^ 32
    → (triggers sm ts).version ≡ (sm.version + length ts) % 2 ^ 32
unfolding triggers monitor_trigger
version_lem [] sm l = omega arith
version_lem ((s, d) ∷ ts) sm l =
    omega (arith, version_lem ts (monitor_trigger sm s d) (omega arith))

check_version_lem :
    (ts : List (ℕ × ℕ)) (sm : Monitor) → (triggers sm ts).check_version ≡ sm.check_version
unfolding triggers monitor_trigger
check_version_lem [] sm = refl
check_version_lem ((s, d) ∷ ts) sm = check_version_lem ts (monitor_trigger sm s d)

-- The message that a worker has in its hands.
abbrev pub current : Monitor → Option (ℕ × ℕ)
current sm = if sm.destination == 0 then none else some (sm.source, sm.destination)

checked :
    (sm : Monitor)
    → ((monitor_check sm).1.version ≡ sm.version)
      × ((monitor_check sm).1.check_version ≡ sm.version)
unfolding monitor_check
checked sm = ground arith

check_quiet : (sm : Monitor) → sm.version ≢ sm.check_version → (monitor_check sm).0 ≡ none
unfolding monitor_check
check_quiet sm ne = rw (ne→== _ _ ne) refl

check_stuck : (sm : Monitor) → sm.version ≡ sm.check_version → (monitor_check sm).0 ≡ current sm
unfolding monitor_check
check_stuck sm e =
    rw (eq→== _ _ e)
      (elim (Bool-cases (sm.destination == 0)) [ inl t ↦ rw t refl | inr f ↦ rw f refl ])

current_lem : (sm : Monitor) → current (monitor_check sm).1 ≡ current sm
unfolding monitor_check
current_lem sm = ground arith

-- What the second of two checks should report.
abbrev pub reported : Monitor → List (ℕ × ℕ) → Option (ℕ × ℕ)
reported sm [] = current sm
reported sm (t ∷ ts) = none

-- Of two checks, with fewer than 2 ^ 32 calls of `skynet_monitor_trigger` between them, the second
-- reports the message that the worker had in its hands at the first, when no call came between;
-- otherwise it reports nothing.
pub monitor_check_lem :
    (sm : Monitor) (ts : List (ℕ × ℕ))
    → sm.version < 2 ^ 32
    → length ts < 2 ^ 32
    → (monitor_check (triggers (monitor_check sm).1 ts)).0 ≡ reported sm ts
unfolding triggers
monitor_check_lem sm [] l m =
    check_stuck (monitor_check sm).1 ((checked sm).0 ∙ sym (checked sm).1) ∙ current_lem sm
monitor_check_lem sm (t ∷ ts) l m =
    let sm' = (monitor_check sm).1 in
    check_quiet (triggers sm' (t ∷ ts)) (λ e. omega (
      arith,
      e,
      checked sm,
      l,
      m,
      version_lem (t ∷ ts) sm' (omega (arith, checked sm, l)),
      check_version_lem (t ∷ ts) sm',
    ))
