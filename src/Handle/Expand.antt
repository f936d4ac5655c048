-- ===== src/Handle/Expand.antt =====
-- skynet-src/skynet_handle.c: the scan of `skynet_handle_register`, and the doubling of its slots.
use ctkjserver.Base.{
  ℕ, zero, suc, ◌+◌, ◌-◌, ◌*◌, ◌%◌, ◌^◌, ◌≤◌, ◌<◌, ◌≡◌, refl, sym, ap, subst, ◌∙◌, ◌≢◌, ◌⊎◌, inl,
  inr, none, some, bit_and, u32, le→ltb, eq→==, ne→==, arith,
}
use ctkjserver.Base.Arrays.{update, update_self, update_ne}
use ctkjserver.Base.Bits.{bit_and_mask}
use native.Mathlib.Decide.{ℕ_discrete, dec_lt}
use native.Mathlib.Nat.{mod-lt, mod_self, zero-mod, pow-suc, one-le-pow, pow-le-pow_right}
use ctkjserver.Handle.{HandleStorage, scan, rehash, expand, grab}
use ctkjserver.Base.Rounds.{scan-hits}
use ctkjserver.Handle.Slots.{slot_of, mod-mod_twice}

-- Each context stands in the slot of its handle.
pub record Valid (handle_of : ℕ → ℕ) (s : HandleStorage) : Type 0 where
  pub bits : ℕ
  pub bits_most : bits ≤ 24
  pub size : s.slot_size ≡ 2 ^ bits
  pub harbor : (h : ℕ) × (s.harbor ≡ h * 2 ^ 24)
  pub placed : (i : ℕ) → i < s.slot_size → s.slot i ≢ 0 → handle_of (s.slot i) % s.slot_size ≡ i

pub scan-some :
    (left : ℕ) (s : HandleStorage) (i handle : ℕ)
    → scan left s i ≡ some handle
    → (s.slot (bit_and handle (s.slot_size - 1)) ≡ 0) × (handle < 2 ^ 24)
unfolding scan
scan-some zero s i handle e = ground arith
scan-some (suc left) s i handle e =
    let ih = scan-some left s (i + 1) handle in
    ground (arith, bit_and_mask 24 (u32 (i + s.handle_index)))

scan-none :
    (left : ℕ) (s : HandleStorage) (i : ℕ)
    → scan left s i ≡ none
    → (j : ℕ) → i ≤ j
    → j < i + left
    → s.slot (bit_and (bit_and (u32 (j + s.handle_index)) (2 ^ 24 - 1)) (s.slot_size - 1)) ≢ 0
unfolding scan
scan-none zero s i e j a b = absurd (omega arith)
scan-none (suc left) s i e j a b = elim (ℕ_discrete j i) [
  | yes here ↦ λ z. ground (
    arith,
    subst
        (λ t.
          s.slot (bit_and (bit_and (u32 (t + s.handle_index)) (2 ^ 24 - 1)) (s.slot_size - 1)) ≡ 0)
        here z,
  )
  | no after ↦ scan-none left s (i + 1) (ground arith) j (omega arith) (omega arith)
]

module _ (handle_of : ℕ → ℕ) (s : HandleStorage) (v : Valid handle_of s) where
  -- The slot of a handle, as a remainder.
  pub slot_mod : (handle : ℕ) → bit_and handle (s.slot_size - 1) ≡ handle % s.slot_size
  slot_mod handle = rw v.size (bit_and_mask v.bits handle)

  pub size-positive : 0 < s.slot_size
  size-positive = rw v.size (one-le-pow v.bits 2 (omega arith))

  -- The scan fails only when every slot is taken.
  pub full : scan s.slot_size s 0 ≡ none → (j : ℕ) → j < s.slot_size → s.slot j ≢ 0
  full e j l z =
      let (i, below, hit) = scan-hits s.slot_size j s.handle_index l in
      let at = slot_of v.bits i s.handle_index v.bits_most in
      scan-none s.slot_size s 0 e i (omega arith) (omega arith) (
        ap s.slot (
          ap (λ n. bit_and (bit_and (u32 (i + s.handle_index)) (2 ^ 24 - 1)) (n - 1)) v.size
          ∙ at
          ∙ ap (λ n. (i + s.handle_index) % n) (sym v.size)
          ∙ hit)
        ∙ z)

  -- The two slots of the doubled array that a slot goes to.
  double : s.slot_size * 2 ≡ 2 ^ suc v.bits
  double = rw v.size (omega (arith, pow-suc 2 v.bits))

  -- What the first `n` rounds of the move leave in the new array.
  abbrev Rehashed : ℕ → (ℕ → ℕ) → Type 0
  Rehashed n new =
      (j : ℕ)
      → (j % s.slot_size < n
          → handle_of (s.slot (j % s.slot_size)) % (s.slot_size * 2) ≡ j
          → new j ≡ s.slot (j % s.slot_size))
        × ((j % s.slot_size < n → handle_of (s.slot (j % s.slot_size)) % (s.slot_size * 2) ≢ j)
            → new j ≡ 0)

  -- Where the context of slot `n` goes, in the doubled array.
  abbrev goal_of : ℕ → ℕ
  goal_of n = handle_of (s.slot n) % (s.slot_size * 2)

  module _ (taken : (j : ℕ) → j < s.slot_size → s.slot j ≢ 0) where
    goal_mod : (n : ℕ) → n < s.slot_size → goal_of n % s.slot_size ≡ n
    goal_mod n l = mod-mod_twice s.slot_size (handle_of (s.slot n)) ∙ v.placed n l (taken n l)

    moved :
        (n : ℕ) (new : ℕ → ℕ)
        → n < s.slot_size
        → Rehashed n new
        → Rehashed (suc n) (update new (goal_of n) (s.slot n))
    moved n new l old j = elim (ℕ_discrete (goal_of n) j) [
      | yes e ↦
          let at : j % s.slot_size ≡ n = ap (λ t. t % s.slot_size) (sym e) ∙ goal_mod n l in
          (
            λ a b.
                ap (update new (goal_of n) (s.slot n)) (sym e)
                ∙ update_self new (goal_of n) (s.slot n)
                ∙ ap s.slot (sym at),
            λ f. absurd (f (omega arith) (ap goal_of at ∙ e)),
          )
      | no ne ↦ (
        λ a b. elim (ℕ_discrete (j % s.slot_size) n) [
          | yes q ↦ absurd (ne (ap goal_of (sym q) ∙ b))
          | no q ↦ update_ne new (goal_of n) j (s.slot n) ne ∙ (old j).0 (omega arith) b
        ],
        λ f. update_ne new (goal_of n) j (s.slot n) ne ∙ (old j).1 (λ a. f (omega arith)),
      )
    ]

    rehash_lem :
        (n : ℕ)
        → n ≤ s.slot_size
        → (new : ℕ → ℕ) × (rehash handle_of s n ≡ some new) × Rehashed n new
    unfolding rehash
    rehash_lem zero l = (λ _. 0, refl, λ j. (λ a b. absurd (omega arith), λ _. refl))
    rehash_lem (suc n) l =
        let (new, done, old) = rehash_lem n (omega arith) in
        let masked : bit_and (handle_of (s.slot n)) (s.slot_size * 2 - 1) ≡ goal_of n =
          rw double (bit_and_mask (suc v.bits) (handle_of (s.slot n))) in
        let free : new (goal_of n) ≡ 0 =
          (old (goal_of n)).1 (λ a _. absurd (omega (arith, goal_mod n l))) in
        (
          update new (goal_of n) (s.slot n),
          rw (done, masked, ne→== (s.slot n) 0 (taken n l), eq→== (new (goal_of n)) 0 free) refl,
          moved n new l old,
        )

    module _ (new : ℕ → ℕ) (r : Rehashed s.slot_size new) where
      abbrev doubled : HandleStorage
      doubled = record s { slot = new; slot_size = s.slot_size * 2 }

      new-cases :
          (j : ℕ)
          → ((goal_of (j % s.slot_size) ≡ j) × (new j ≡ s.slot (j % s.slot_size))) ⊎ (new j ≡ 0)
      new-cases j = elim (ℕ_discrete (goal_of (j % s.slot_size)) j) [
        | yes e ↦ inl (e, (r j).0 (mod-lt j size-positive) e)
        | no ne ↦ inr ((r j).1 (λ _. ne))
      ]

      doubled-Valid : s.slot_size * 2 ≤ 2 ^ 24 → Valid handle_of doubled
      doubled-Valid fits = record {
        bits = suc v.bits;
        bits_most = elim (dec_lt v.bits 24) [
          | yes l ↦ l
          | no ge ↦ absurd (
              omega (
                arith,
                v.size,
                pow-le-pow_right {n = 2} (omega arith) {i = 24} {j = v.bits} (omega arith),
              ))
        ];
        size = double;
        harbor = v.harbor;
        placed = λ i l ne. elim (new-cases i) [
          | inl (e, at) ↦ ap (λ c. handle_of c % (s.slot_size * 2)) at ∙ e
          | inr z ↦ absurd (ne z)
        ];
      }

      doubled_slot : (x : ℕ) → bit_and x (s.slot_size * 2 - 1) ≡ x % (s.slot_size * 2)
      doubled_slot x = rw double (bit_and_mask (suc v.bits) x)

      doubled-grab : (x : ℕ) → grab handle_of doubled x ≡ grab handle_of s x
      unfolding grab
      doubled-grab x =
          let low = mod-mod_twice s.slot_size x in
          let some_slot = taken (x % s.slot_size) (mod-lt x size-positive) in
          rw (doubled_slot x, slot_mod x, ne→== _ 0 some_slot)
            (elim (ℕ_discrete (handle_of (s.slot (x % s.slot_size))) x) [
              | yes e ↦
                  let at : new (x % (s.slot_size * 2)) ≡ s.slot (x % s.slot_size) =
                    (r (x % (s.slot_size * 2))).0 (omega (arith, low, mod-lt x size-positive))
                      (ap goal_of low ∙ ap (λ t. t % (s.slot_size * 2)) e)
                    ∙ ap s.slot low in
                  rw (at, ne→== _ 0 some_slot) refl
              | no ne ↦ rw (ne→== _ x ne) (elim (new-cases (x % (s.slot_size * 2))) [
                | inl (e, at) ↦ rw (at, low, ne→== _ 0 some_slot, ne→== _ x ne) refl
                | inr z ↦ rw z refl
              ])
            ])

      doubled_room : (j : ℕ) × (j < s.slot_size * 2) × (new j ≡ 0)
      doubled_room =
          let first : s.slot_size % s.slot_size ≡ 0 = mod_self s.slot_size in
          elim (ℕ_discrete (goal_of 0) 0) [
            | yes e ↦ (
              s.slot_size,
              omega (arith, size-positive),
              (r s.slot_size).1 (λ _ g. absurd (omega (arith, ap goal_of first, size-positive))),
            )
            | no ne ↦ (
              0,
              omega (arith, size-positive),
              (r 0).1 (λ _ g. ne (ap goal_of (sym (zero-mod s.slot_size)) ∙ g)),
            )
          ]

    -- The doubled array is valid, answers as before, and has an empty slot.
    pub expand_lem :
        s.slot_size * 2 ≤ 2 ^ 24
        → (s' : HandleStorage) × (expand handle_of s ≡ some s')
          × Valid handle_of s'
          × ((x : ℕ) → grab handle_of s' x ≡ grab handle_of s x)
          × ((j : ℕ) × (j < s'.slot_size) × (s'.slot j ≡ 0))
          × ((c : ℕ) → c ≢ 0 → ((j : ℕ) → j < s.slot_size → s.slot j ≢ c) → (j : ℕ) → s'.slot j ≢ c)
    unfolding expand
    expand_lem fits =
        let (new, done, r) = rehash_lem s.slot_size (omega arith) in
        (
          doubled new r,
          rw (le→ltb (2 ^ 24 - 1) (s.slot_size * 2 - 1) (omega arith), done) refl,
          doubled-Valid new r fits,
          doubled-grab new r,
          doubled_room new r,
          λ c nz fresh j e. elim (new-cases new r j) [
            | inl (_, at) ↦ fresh (j % s.slot_size) (mod-lt j size-positive) (sym at ∙ e)
            | inr z ↦ nz (sym e ∙ z)
          ],
        )
