-- ===== src/HashId/Chain.antt =====
-- service-src/hashid.h: what a search in one chain finds, before and after a change.
use ctkjserver.Base.{
  ℕ, ◌≡◌, refl, sym, ap, ap₂, subst, ◌∙◌, ◌≢◌, ◌⊎◌, inl, inr, Option, none, some, List, [], ◌∷◌,
  bit_and, true, false, All, ◌==◌, eq→==, ne→==, if◌then◌else◌, arith, Bool,
}
use native.Mathlib.Decide.{ℕ_discrete}
use ctkjserver.HashId.{HashId, find, unlink_node}

-- The nodes of the chain of slot `h` have ids of that slot, each another.
abbrev pub IsChain : HashId → ℕ → List ℕ → Type 0
IsChain hi h [] = Unit
IsChain hi h (c ∷ chain) =
    ((x : ℕ) × (hi.id c ≡ some x) × (bit_and x hi.hashmod ≡ h) × All (λ d. hi.id d ≢ some x) chain)
    × IsChain hi h chain

-- The nodes of a chain have the same ids in two tables.
abbrev pub Agree : HashId → HashId → List ℕ → Type 0
Agree hi hi' chain = All (λ d. hi'.id d ≡ hi.id d) chain

abbrev pub test : Option ℕ → ℕ → Bool
test o x = elim o [ none ↦ false | some y ↦ y == x ]

pub test-cases :
    (o : Option ℕ) (x : ℕ)
    → ((o ≡ some x) × (test o x ≡ true)) ⊎ ((o ≢ some x) × (test o x ≡ false))
test-cases none x = inr ((λ e. ground arith), refl)
test-cases (some y) x = elim (ℕ_discrete y x) [
  | yes e ↦ inl (ap some e, eq→== y x e)
  | no ne ↦ inr ((λ e. ne (ground arith)), ne→== y x ne)
]

pub find-Agree :
    (hi hi' : HashId) (chain : List ℕ) (x : ℕ)
    → Agree hi hi' chain
    → find hi' x chain ≡ find hi x chain
unfolding find
find-Agree hi hi' [] x a = refl
find-Agree hi hi' (c ∷ chain) x (a, rest) =
    ap₂ (λ (o : Option ℕ) (r : Option ℕ). if test o x then some c else r) a
      (find-Agree hi hi' chain x rest)

pub All-same :
    (hi hi' : HashId) (x : ℕ) (chain : List ℕ)
    → Agree hi hi' chain
    → All (λ d. hi.id d ≢ some x) chain
    → All (λ d. hi'.id d ≢ some x) chain
All-same hi hi' x [] a p = tt
All-same hi hi' x (c ∷ chain) (a, rest) (p, q) =
    ((λ e. p (sym a ∙ e)), All-same hi hi' x chain rest q)

pub IsChain-Agree :
    (hi hi' : HashId) (h : ℕ) (chain : List ℕ)
    → hi'.hashmod ≡ hi.hashmod
    → Agree hi hi' chain
    → IsChain hi h chain
    → IsChain hi' h chain
IsChain-Agree hi hi' h [] m a p = tt
IsChain-Agree hi hi' h (c ∷ chain) m (a, rest) ((x, at, slot, others), p) = (
  (x, a ∙ at, ap (bit_and x) m ∙ slot, All-same hi hi' x chain rest others),
  IsChain-Agree hi hi' h chain m rest p,
)

-- A node whose id is not one of the chain is not in it.
pub outside :
    (hi hi' : HashId) (h : ℕ) (chain : List ℕ) (c : ℕ)
    → IsChain hi h chain
    → ((d : ℕ) → c ≢ d → hi'.id d ≡ hi.id d)
    → ((x : ℕ) → hi.id c ≡ some x → bit_and x hi.hashmod ≢ h)
    → Agree hi hi' chain
outside hi hi' h [] c p same away = tt
outside hi hi' h (d ∷ chain) c ((x, at, slot, others), p) same away =
    (same d (λ e. away x (ap hi.id e ∙ at) slot), outside hi hi' h chain c p same away)

-- No node of the chain has the id.
pub find-none :
    (hi : HashId) (x : ℕ) (chain : List ℕ)
    → All (λ d. hi.id d ≢ some x) chain
    → find hi x chain ≡ none
unfolding find
find-none hi x [] p = refl
find-none hi x (c ∷ chain) (p, rest) = elim (test-cases (hi.id c) x) [
  | inl (e, _) ↦ absurd (p e)
  | inr (_, f) ↦ rw f (find-none hi x chain rest)
]

pub none-find :
    (hi : HashId) (x : ℕ) (chain : List ℕ)
    → find hi x chain ≡ none
    → All (λ d. hi.id d ≢ some x) chain
unfolding find
none-find hi x [] e = tt
none-find hi x (c ∷ chain) e = elim (test-cases (hi.id c) x) [
  | inl (_, f) ↦ absurd (given ((rw f at e)))
  | inr (ne, f) ↦ (ne, none-find hi x chain (rw f at e))
]
  where
    given : some c ≢ none
    given q = ground arith

-- A node that is found has the id.
pub find-some :
    (hi : HashId) (x c : ℕ) (chain : List ℕ) → find hi x chain ≡ some c → hi.id c ≡ some x
unfolding find
find-some hi x c [] e = absurd (empty e)
  where
    empty : none ≢ some c
    empty q = ground arith
find-some hi x c (d ∷ chain) e = elim (test-cases (hi.id d) x) [
  | inl (at, f) ↦ ap hi.id (sym (injective (rw f at e))) ∙ at
  | inr (_, f) ↦ find-some hi x c chain (rw f at e)
]
  where
    injective : some d ≡ some c → d ≡ c
    injective q = ap (λ (o : Option ℕ). elim o [ none ↦ d | some z ↦ z ]) q

-- What `hashid_remove` leaves of the chain in which it finds the node `c`.
pub record Unlinked (hi hi' : HashId) (h id c : ℕ) (chain : List ℕ) : Type 0 where
  pub own : hi.id c ≡ some id
  pub slot : bit_and id hi.hashmod ≡ h
  pub sound : IsChain hi' h (unlink_node hi id chain)
  pub gone : find hi' id (unlink_node hi id chain) ≡ none
  pub others : (x : ℕ) → x ≢ id → find hi' x (unlink_node hi id chain) ≡ find hi x chain

All-unlink_node :
    (P : ℕ → Type 0) (hi : HashId) (id : ℕ) (chain : List ℕ)
    → All P chain
    → All P (unlink_node hi id chain)
unfolding unlink_node
All-unlink_node P hi id [] p = tt
All-unlink_node P hi id (c ∷ chain) (p, rest) = elim (test-cases (hi.id c) id) [
  | inl (_, f) ↦ rw (unlink_node, f) rest
  | inr (_, f) ↦ rw (unlink_node, f) (p, All-unlink_node P hi id chain rest)
]

some_injective : (a b : ℕ) → some a ≡ some b → a ≡ b
some_injective a b e = ap (λ (o : Option ℕ). elim o [ none ↦ a | some z ↦ z ]) e

-- From a table to the one where the node `c` is free.
module _ (hi hi' : HashId) (h id c : ℕ) (m : hi'.hashmod ≡ hi.hashmod) (cleared : hi'.id c ≡ none)
    (same : (d : ℕ) → c ≢ d → hi'.id d ≡ hi.id d) where
  still_not : (y d : ℕ) → hi.id d ≢ some y → hi'.id d ≢ some y
  still_not y d ne = elim (ℕ_discrete c d) [
    | yes e ↦ λ q. empty (sym cleared ∙ ap hi'.id e ∙ q)
    | no other ↦ λ q. ne (sym (same d other) ∙ q)
  ]
    where
      empty : none ≢ some y
      empty q = ground arith

  All-still :
      (y : ℕ) (chain : List ℕ)
      → All (λ d. hi.id d ≢ some y) chain
      → All (λ d. hi'.id d ≢ some y) chain
  All-still y [] p = tt
  All-still y (d ∷ chain) (p, rest) = (still_not y d p, All-still y chain rest)

  apart :
      (y : ℕ) (chain : List ℕ)
      → hi.id c ≡ some y
      → All (λ d. hi.id d ≢ some y) chain
      → Agree hi hi' chain
  apart y [] e p = tt
  apart y (d ∷ chain) e (p, rest) = (same d (λ q. p (ap hi.id (sym q) ∙ e)), apart y chain e rest)

  pub unlink_node_lem :
      (chain : List ℕ)
      → IsChain hi h chain
      → find hi id chain ≡ some c
      → Unlinked hi hi' h id c chain
  unfolding find unlink_node
  unlink_node_lem [] p e = absurd (empty e)
    where
      empty : none ≢ some c
      empty q = ground arith
  unlink_node_lem (d ∷ chain) ((y, at, slot, different), p) e = elim (ℕ_discrete y id) [
    | yes q ↦
        let here : test (hi.id d) id ≡ true = rw (at, eq→== y id q) refl in
        let dc : d ≡ c = some_injective d c (rw here at e) in
        let at_c : hi.id c ≡ some y = ap hi.id (sym dc) ∙ at in
        let agree = apart y chain at_c different in
        let left : unlink_node hi id (d ∷ chain) ≡ chain = rw (unlink_node, here) refl in
        record {
          own = at_c ∙ ap some q;
          slot = ap (λ t. bit_and t hi.hashmod) (sym q) ∙ slot;
          sound = subst (IsChain hi' h) (sym left) (IsChain-Agree hi hi' h chain m agree p);
          gone =
              ap (find hi' id) left
              ∙ find-Agree hi hi' chain id agree
              ∙ find-none hi id chain (subst (λ t. All (λ k. hi.id k ≢ some t) chain) q different);
          others = λ x ne.
              let away : test (hi.id d) x ≡ false = rw (at, ne→== y x (λ w. ne (sym w ∙ q))) refl in
              ap (find hi' x) left ∙ find-Agree hi hi' chain x agree ∙ sym (rw (find, away) refl);
        }
    | no q ↦
        let away : test (hi.id d) id ≡ false = rw (at, ne→== y id q) refl in
        let ih = unlink_node_lem chain p (rw away at e) in
        let left : unlink_node hi id (d ∷ chain) ≡ d ∷ unlink_node hi id chain =
          rw (unlink_node, away) refl in
        let cd : c ≢ d = λ w. q (some_injective y id (sym at ∙ ap hi.id (sym w) ∙ ih.own)) in
        let away' : test (hi'.id d) id ≡ false = rw (same d cd) away in
        record {
          own = ih.own;
          slot = ih.slot;
          sound = subst (IsChain hi' h) (sym left) (
            (
              y,
              same d cd ∙ at,
              ap (bit_and y) m ∙ slot,
              All-unlink_node (λ k. hi'.id k ≢ some y) hi id chain (All-still y chain different),
            ),
            ih.sound,
          );
          gone = ap (find hi' id) left ∙ rw (find, away') ih.gone;
          others = λ x ne.
              ap (find hi' x) left
              ∙ ap₂ (λ (o : Option ℕ) (r : Option ℕ). if test o x then some d else r) (same d cd)
                  (ih.others x ne);
        }
  ]
