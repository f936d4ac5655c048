-- ===== src/HashId/Laws.antt =====
-- service-src/hashid.h: the table as a map from ids to nodes.
use ctkjserver.Base.{
  ℕ, zero, suc, ◌+◌, ◌-◌, ◌%◌, ◌^◌, ◌<◌, ◌≤◌, ◌≡◌, refl, sym, ap, subst, ◌∙◌, ◌≢◌, ◌⊎◌, inl, inr,
  Option, none, some, leb, Bool-cases, Option-cases, ◌∷◌, All, bit_and, true, false, ◌==◌, eq→==,
  ne→==, if◌then◌else◌, arith,
}
use ctkjserver.Base.Arrays.{update, update_self, update_ne}
use ctkjserver.Base.Rounds.{scan-hits}
use native.Mathlib.Decide.{ℕ_discrete}
use native.Mathlib.Nat.{mod-lt}
use ctkjserver.HashId.{HashId, has_id, find, lookup, unlink_node, remove, free_node, insert}
use ctkjserver.HashId.Chain.{
  IsChain, Agree, test, All-same, find-Agree, IsChain-Agree, outside, none-find, find-some,
  Unlinked, unlink_node_lem,
}

-- Each chain has nodes with different ids of its slot.
abbrev pub Valid : HashId → Type 0
Valid hi = (h : ℕ) → IsChain hi h (hi.hash h)

free_node-some :
    (left : ℕ) (hi : HashId) (id i c : ℕ)
    → 0 < hi.cap
    → free_node left hi id i ≡ some c
    → (hi.id c ≡ none) × (c < hi.cap)
unfolding free_node
free_node-some zero hi id i c positive e = absurd (empty e)
  where
    empty : none ≢ some c
    empty q = ground arith
free_node-some (suc left) hi id i c positive e = elim (Bool-cases (leb (2 ^ 31) (i + id))) [
  | inl large ↦ absurd (empty (rw (free_node, large) at e))
  | inr fits ↦ elim (Option-cases (hi.id ((i + id) % hi.cap))) [
    | inl free ↦
        let here : (i + id) % hi.cap ≡ c = injective (rw (free_node, fits, free) at e) in
        (ap hi.id (sym here) ∙ free, omega (arith, mod-lt (i + id) positive))
    | inr (x, taken) ↦
        free_node-some left hi id (i + 1) c positive (rw (free_node, fits, taken) at e)
  ]
]
  where
    empty : none ≢ some c
    empty q = ground arith

    injective : some ((i + id) % hi.cap) ≡ some c → (i + id) % hi.cap ≡ c
    injective q = ap (λ (o : Option ℕ). elim o [ none ↦ 0 | some z ↦ z ]) q

free_node-none :
    (left : ℕ) (hi : HashId) (id i : ℕ)
    → i + left + id ≤ 2 ^ 31
    → free_node left hi id i ≡ none
    → (j : ℕ) → i ≤ j
    → j < i + left
    → hi.id ((j + id) % hi.cap) ≢ none
unfolding free_node
free_node-none zero hi id i fit e j a b = absurd (omega arith)
free_node-none (suc left) hi id i fit e j a b = elim (Option-cases (hi.id ((i + id) % hi.cap))) [
  | inl free ↦ absurd (full (rw (free_node, low, free) at e))
  | inr (x, taken) ↦ elim (ℕ_discrete j i) [
    | yes here ↦ λ q. full (sym taken ∙ ap (λ t. hi.id ((t + id) % hi.cap)) (sym here) ∙ q)
    | no later ↦
        free_node-none left hi id (i + 1) (omega (arith, fit)) (rw (free_node, low, taken) at e) j
          (omega arith) (omega arith)
  ]
]
  where
    low : leb (2 ^ 31) (i + id) ≡ false
    low = ground (arith, fit)

    full : {x : ℕ} → some x ≢ none
    full q = ground arith

module _ (hi : HashId) (id : ℕ) (v : Valid hi) where
  abbrev h : ℕ
  h = bit_and id hi.hashmod

  module _ (c : ℕ) (free : hi.id c ≡ none) (fresh : find hi id (hi.hash h) ≡ none) where
    abbrev inserted : HashId
    inserted = record hi {
      count = hi.count + 1;
      id = update hi.id c (some id);
      hash = update hi.hash h (c ∷ hi.hash h);
    }

    agree : (k : ℕ) → Agree hi inserted (hi.hash k)
    agree k =
        outside hi inserted k (hi.hash k) c (v k) (λ d ne. update_ne hi.id c d (some id) ne)
          (λ x e. absurd (empty (sym free ∙ e)))
      where
        empty : {x : ℕ} → none ≢ some x
        empty q = ground arith

    own_chain : (k : ℕ) → h ≡ k → inserted.hash k ≡ c ∷ hi.hash k
    own_chain k e =
        ap (update hi.hash h (c ∷ hi.hash h)) (sym e)
        ∙ update_self hi.hash h (c ∷ hi.hash h)
        ∙ ap (λ t. c ∷ hi.hash t) e

    other_chain : (k : ℕ) → h ≢ k → inserted.hash k ≡ hi.hash k
    other_chain k ne = update_ne hi.hash h k (c ∷ hi.hash h) ne

    different : (k : ℕ) → h ≡ k → All (λ d. inserted.id d ≢ some id) (hi.hash k)
    different k e =
        All-same hi inserted id (hi.hash k) (agree k)
          (none-find hi id (hi.hash k) (ap (λ t. find hi id (hi.hash t)) (sym e) ∙ fresh))

    inserted-Valid : Valid inserted
    inserted-Valid k = elim (ℕ_discrete h k) [
      | yes e ↦ subst (IsChain inserted k) (sym (own_chain k e)) (
        (id, update_self hi.id c (some id), e, different k e),
        IsChain-Agree hi inserted k (hi.hash k) refl (agree k) (v k),
      )
      | no ne ↦
          subst (IsChain inserted k) (sym (other_chain k ne))
            (IsChain-Agree hi inserted k (hi.hash k) refl (agree k) (v k))
    ]

    inserted-lookup : (x : ℕ) → lookup inserted x ≡ (if x == id then some c else lookup hi x)
    unfolding lookup find
    inserted-lookup x = elim (ℕ_discrete h (bit_and x hi.hashmod)) [
      | yes e ↦
          let chain = hi.hash (bit_and x hi.hashmod) in
          let at = update_self hi.id c (some id) in
          ap (find inserted x) (own_chain (bit_and x hi.hashmod) e) ∙ elim (ℕ_discrete x id) [
            | yes q ↦
                let hit : has_id inserted x c ≡ true = ap (λ o. test o x) at ∙ eq→== id x (sym q) in
                rw (find, hit, eq→== x id q) refl
            | no q ↦
                let miss : has_id inserted x c ≡ false =
                  ap (λ o. test o x) at ∙ ne→== id x (λ w. q (sym w)) in
                rw (find, miss, ne→== x id q)
                  (find-Agree hi inserted chain x (agree (bit_and x hi.hashmod)))
          ]
      | no ne ↦
          let other : x ≢ id = λ q. ne (ap (λ t. bit_and t hi.hashmod) (sym q)) in
          rw (ne→== x id other) (
            ap (find inserted x) (other_chain (bit_and x hi.hashmod) ne)
            ∙ find-Agree hi inserted (hi.hash (bit_and x hi.hashmod)) x
                (agree (bit_and x hi.hashmod)))
    ]

  module _ (c : ℕ) (there : find hi id (hi.hash h) ≡ some c) where
    abbrev removed : HashId
    removed = record hi {
      id = update hi.id c none;
      hash = update hi.hash h (unlink_node hi id (hi.hash h));
      count = hi.count - 1;
    }

    unlinked : Unlinked hi removed h id c (hi.hash h)
    unlinked =
        unlink_node_lem hi removed h id c refl (update_self hi.id c none)
          (λ d ne. update_ne hi.id c d none ne) (hi.hash h) (v h) there

    still : (k : ℕ) → h ≢ k → Agree hi removed (hi.hash k)
    still k ne =
        outside hi removed k (hi.hash k) c (v k) (λ d q. update_ne hi.id c d none q)
          (λ x e w. ne (
            sym unlinked.slot
            ∙ ap (λ t. bit_and t hi.hashmod) (injective (sym unlinked.own ∙ e))
            ∙ w))
      where
        injective : {x : ℕ} → some id ≡ some x → id ≡ x
        injective q = ap (λ (o : Option ℕ). elim o [ none ↦ 0 | some z ↦ z ]) q

    left_chain : (k : ℕ) → h ≡ k → removed.hash k ≡ unlink_node hi id (hi.hash h)
    left_chain k e =
        ap (update hi.hash h (unlink_node hi id (hi.hash h))) (sym e)
        ∙ update_self hi.hash h (unlink_node hi id (hi.hash h))

    kept_chain : (k : ℕ) → h ≢ k → removed.hash k ≡ hi.hash k
    kept_chain k ne = update_ne hi.hash h k (unlink_node hi id (hi.hash h)) ne

    removed-Valid : Valid removed
    removed-Valid k = elim (ℕ_discrete h k) [
      | yes e ↦
          subst (IsChain removed k) (sym (left_chain k e))
            (subst (λ t. IsChain removed t (unlink_node hi id (hi.hash h))) e unlinked.sound)
      | no ne ↦
          subst (IsChain removed k) (sym (kept_chain k ne))
            (IsChain-Agree hi removed k (hi.hash k) refl (still k ne) (v k))
    ]

    removed-lookup : (x : ℕ) → lookup removed x ≡ (if x == id then none else lookup hi x)
    unfolding lookup
    removed-lookup x = elim (ℕ_discrete x id) [
      | yes q ↦ rw (eq→== x id q) (
          ap (find removed x)
            (left_chain (bit_and x hi.hashmod) (ap (λ t. bit_and t hi.hashmod) (sym q)))
          ∙ ap (λ t. find removed t (unlink_node hi id (hi.hash h))) q
          ∙ unlinked.gone)
      | no q ↦ rw (ne→== x id q) (elim (ℕ_discrete h (bit_and x hi.hashmod)) [
        | yes e ↦
            ap (find removed x) (left_chain (bit_and x hi.hashmod) e)
            ∙ unlinked.others x q
            ∙ ap (λ t. find hi x (hi.hash t)) e
        | no ne ↦
            ap (find removed x) (kept_chain (bit_and x hi.hashmod) ne)
            ∙ find-Agree hi removed (hi.hash (bit_and x hi.hashmod)) x
                (still (bit_and x hi.hashmod) ne)
      ])
    ]

pub lookup-some : (hi : HashId) (x c : ℕ) → lookup hi x ≡ some c → hi.id c ≡ some x
unfolding lookup
lookup-some hi x c e = find-some hi x c (hi.hash (bit_and x hi.hashmod)) e

-- `hashid_insert` of an id that is not in a valid table, which has a free node below its capacity,
-- when the id and the capacity have a sum of at most 2 ^ 31: it takes a free node, the table stays valid, the id is then found at that node, and every other
-- lookup is unchanged.
pub insert_lem :
    (hi : HashId) (id : ℕ)
    → Valid hi
    → id + hi.cap ≤ 2 ^ 31
    → lookup hi id ≡ none
    → (j : ℕ) → j < hi.cap
    → hi.id j ≡ none
    → (c : ℕ) × (hi' : HashId) × (insert hi id ≡ some (c, hi'))
      × (hi.id c ≡ none)
      × (c < hi.cap)
      × Valid hi'
      × ((x : ℕ) → lookup hi' x ≡ (if x == id then some c else lookup hi x))
unfolding insert lookup
insert_lem hi id v fit fresh j l free = elim (Option-cases (free_node hi.cap hi id 0)) [
  | inl e ↦
      let (i, below, at) = scan-hits hi.cap j id l in
      absurd (
        free_node-none hi.cap hi id 0 (omega (arith, fit)) e i (omega arith) (omega arith)
          (ap hi.id at ∙ free))
  | inr (c, e) ↦
      let (empty, inside) = free_node-some hi.cap hi id 0 c (omega arith) e in
      (
        c,
        inserted hi id v c empty fresh,
        rw (insert, e) refl,
        empty,
        inside,
        inserted-Valid hi id v c empty fresh,
        inserted-lookup hi id v c empty fresh,
      )
]

-- `hashid_remove` in a valid table: an id that is there is removed and its node given back and
-- free, the table stays valid, and every other lookup is unchanged; for any other id nothing
-- changes.
pub remove_lem :
    (hi : HashId) (id : ℕ)
    → Valid hi
    → ((lookup hi id ≡ none) × (remove hi id ≡ (none, hi)))
      ⊎ ((c : ℕ) × (hi' : HashId) × (lookup hi id ≡ some c)
          × (remove hi id ≡ (some c, hi'))
          × (hi'.id c ≡ none)
          × Valid hi'
          × ((x : ℕ) → lookup hi' x ≡ (if x == id then none else lookup hi x)))
unfolding remove lookup
remove_lem hi id v = elim (Option-cases (find hi id (hi.hash (bit_and id hi.hashmod)))) [
  | inl e ↦ inl (e, rw (remove, e) refl)
  | inr (c, e) ↦ inr (
    c,
    removed hi id v c e,
    e,
    rw (remove, e) refl,
    update_self hi.id c none,
    removed-Valid hi id v c e,
    removed-lookup hi id v c e,
  )
]
