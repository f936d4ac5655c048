-- ===== src/Socket/Server/Reserve.antt =====
-- skynet-src/socket_server.c: `reserve_id` finds a free slot if there is one.
use ctkjserver.Base.{
  ℕ, zero, suc, ◌+◌, ◌%◌, ◌<◌, ◌≡◌, ◌⊎◌, inl, inr, refl, ◌∙◌, subst, true, false, Option, none,
  some, if_true, if_false, Bool-cases, arith,
}
use ctkjserver.Base.Rounds.{scan-hits}
use ctkjserver.Socket.{SocketType, Socket, is_invalid}
use ctkjserver.Socket.Server.{
  max_socket, no_fd, id_limit, hash_id, Server, store, next_id, reserve_from, reserve_id,
}

-- The server once `id` was reserved.
abbrev pub reserved_at : Server → ℕ → Server
reserved_at ss id =
    store (record ss { alloc_id = id }) id
      (record (ss.slot (hash_id id)) { kind = SocketType.reserve; id = id; fd = no_fd })

-- The slot of the `i`-th id that is tried.
abbrev tried : Server → ℕ → Socket
tried ss i = ss.slot ((i + (ss.alloc_id + 1)) % max_socket)

abbrev pub Found : Server → Option ℕ × Server → Type 0
Found ss r =
    (id : ℕ) × (r ≡ (some id, reserved_at ss id))
    × (is_invalid (ss.slot (hash_id id)).kind ≡ true)
    × (id < id_limit)

-- After `n` tries, an id was found or `n` slots are in use.
reserve_from_lem :
    (n : ℕ) (ss : Server)
    → Found ss (reserve_from n ss)
      ⊎ ((alloc_id : ℕ) × (reserve_from n ss ≡ (none, record ss { alloc_id = alloc_id }))
          × ((i : ℕ) → i < n → is_invalid (tried ss i).kind ≡ false))
unfolding reserve_from
reserve_from_lem zero ss = inr (ss.alloc_id, refl, λ i l. absurd (omega arith))
reserve_from_lem (suc n) ss =
    let id = next_id ss.alloc_id in
    let small : id < id_limit = omega arith in
    let first : hash_id id ≡ (0 + (ss.alloc_id + 1)) % max_socket = omega arith in
    let ss' = record ss { alloc_id = id } in
    elim (Bool-cases (is_invalid (ss.slot (hash_id id)).kind)) [
      | inl e ↦ inl (id, if_true _ _ e, e, small)
      | inr e ↦ elim (reserve_from_lem n ss') [
        | inl f ↦ inl (f.0, if_false _ _ e ∙ f.1, f.2, f.3)
        | inr m ↦ inr (
          m.0,
          if_false _ _ e ∙ m.1,
          λ i l.
              elim i as (λ i. i < suc n → is_invalid (tried ss i).kind ≡ false) [
                | zero ↦ λ l. subst (λ j. is_invalid (ss.slot j).kind ≡ false) first e
                | suc k ↦ λ l.
                    subst (λ j. is_invalid (ss.slot j).kind ≡ false)
                      {x = (k + (id + 1)) % max_socket} (omega arith) (m.2 k (omega arith))
              ]
                l,
        )
      ]
    ]

-- If some slot is free, `reserve_id` gives an id below 2 ^ 31 of a free slot, and reserves that slot
-- only.
pub reserve_id_lem :
    (ss : Server) (j : ℕ)
    → j < max_socket
    → is_invalid (ss.slot j).kind ≡ true
    → Found ss (reserve_id ss)
unfolding reserve_id
reserve_id_lem ss j l k = elim (reserve_from_lem max_socket ss) [
  | inl f ↦ f
  | inr m ↦
      let hit = scan-hits max_socket j (ss.alloc_id + 1) l in
      let used : is_invalid (ss.slot j).kind ≡ false =
        subst (λ i. is_invalid (ss.slot i).kind ≡ false) hit.2 (m.2 hit.0 hit.1) in
      cc
]

-- Whether or not a slot is free.
pub reserve_id_cases :
    (ss : Server)
    → Found ss (reserve_id ss)
      ⊎ ((alloc_id : ℕ) × (reserve_id ss ≡ (none, record ss { alloc_id = alloc_id })))
unfolding reserve_id
reserve_id_cases ss = elim (reserve_from_lem max_socket ss) [
  | inl f ↦ inl f
  | inr m ↦ inr (m.0, m.1)
]
