-- ===== src/Handle/Names/Insert.antt =====
-- skynet-src/skynet_handle.c: `skynet_handle_namehandle` keeps the names sorted, and adds one.
use ctkjserver.Base.{
  ℕ, ◌+◌, ◌-◌, ◌*◌, ◌^◌, ◌≤◌, ◌<◌, ◌≡◌, refl, sym, ap, ◌∙◌, ◌≢◌, ◌⊎◌, inl, inr, true, false, some,
  List, arith,
}
use ctkjserver.Base.Arrays.{update, update_self, update_ne}
use native.Mathlib.Decide.{dec_lt, ℕ_discrete}
use ctkjserver.Handle.{HandleName, HandleStorage}
use ctkjserver.Handle.Names.{findname, insert_name_before, namehandle}
use ctkjserver.Handle.Names.Order.{less-ne}
use ctkjserver.Handle.Names.Search.{
  Less, Sorted, Place, found, absent, search_all, findname-found, findname-absent,
}
use ctkjserver.Handle.Names.Room.{Room, make_room_lem}

-- The names after `name` was given to `handle`.
pub record Named (s : HandleStorage) (handle : ℕ) (name : List ℕ) (s' : HandleStorage)
    : Type 0 where
  pub sorted : Sorted s'.names s'.name_count
  pub within : s'.name_count ≤ s'.name_cap
  pub one_more : s'.name_count ≡ s.name_count + 1
  pub own : findname s' name ≡ handle
  pub others : (x : List ℕ) → x ≢ name → findname s' x ≡ findname s x

module _ (s : HandleStorage) (handle : ℕ) (name : List ℕ) (sorted : Sorted s.names s.name_count)
    (b : ℕ) (p : Place s.names s.name_count name b) (r : HandleStorage) (room : Room s b r) where
  abbrev entry : HandleName
  entry = record { name = name; handle = handle }

  abbrev inserted : HandleStorage
  inserted = record r { names = update r.names b entry; name_count = r.name_count + 1 }

  at_low : (j : ℕ) → j < b → inserted.names j ≡ s.names j
  at_low j l = update_ne r.names b j entry (λ e. absurd (omega arith)) ∙ room.low j l

  at_place : inserted.names b ≡ entry
  at_place = update_self r.names b entry

  at_high : (j : ℕ) → b ≤ j → j < s.name_count → inserted.names (j + 1) ≡ s.names j
  at_high j a l = update_ne r.names b (j + 1) entry (λ e. absurd (omega arith)) ∙ room.high j a l

  -- An index is one of the names that were there, or the place of the new one.
  data At (i : ℕ) : Type 0 where
    low : i < b → inserted.names i ≡ s.names i → At i
    place : i ≡ b → inserted.names i ≡ entry → At i
    high : (k : ℕ) → i ≡ k + 1 → b ≤ k → k < s.name_count → inserted.names i ≡ s.names k → At i

  at : (i : ℕ) → i < inserted.name_count → At i
  at i l = elim (dec_lt i b) [
    | yes a ↦ low a (at_low i a)
    | no a ↦ elim (ℕ_discrete i b) [
      | yes e ↦ place e (ap inserted.names e ∙ at_place)
      | no ne ↦
          let count = room.count in
          high (i - 1) (omega arith) (omega arith) (omega arith) (
            ap inserted.names {x = i} {y = i - 1 + 1} (omega arith)
            ∙ at_high (i - 1) (omega arith) (omega arith))
    ]
  ]

  inserted-Sorted : Sorted inserted.names inserted.name_count
  inserted-Sorted i j l m = pair (at i (omega arith)) (at j m)
    where
      both :
          (e f : HandleName)
          → inserted.names i ≡ e
          → inserted.names j ≡ f
          → Less e.name f.name
          → Less (inserted.names i).name (inserted.names j).name
      both e f x y less = rw (x, y) less

      pair : At i → At j → Less (inserted.names i).name (inserted.names j).name
      pair (low a x) (low c y) =
          both (s.names i) (s.names j) x y (sorted i j l (omega (arith, p.inside)))
      pair (low a x) (place c y) = both (s.names i) entry x y (p.below i a)
      pair (low a x) (high k e c d y) =
          both (s.names i) (s.names k) x y (sorted i k (omega arith) d)
      pair (place a x) (low c y) = absurd (omega arith)
      pair (place a x) (place c y) = absurd (omega arith)
      pair (place a x) (high k e c d y) = both entry (s.names k) x y (p.above k c d)
      pair (high h e a d x) (low c y) = absurd (omega arith)
      pair (high h e a d x) (place c y) = absurd (omega arith)
      pair (high h e a d x) (high k f c g y) =
          both (s.names h) (s.names k) x y (sorted h k (omega arith) g)

  inserted_others : (x : List ℕ) → x ≢ name → findname inserted x ≡ findname s x
  inserted_others x ne = elim (search_all s.names s.name_count x sorted) [
    | found mid l e result ↦
        let was = findname-found s x sorted mid l e in
        elim (dec_lt mid b) [
          | yes a ↦
              findname-found inserted x inserted-Sorted mid (omega (arith, room.count))
                (ap (λ (t : HandleName). t.name) (at_low mid a) ∙ e)
              ∙ ap (λ (t : HandleName). t.handle) (at_low mid a)
              ∙ sym was
          | no a ↦
              findname-found inserted x inserted-Sorted (mid + 1) (omega (arith, room.count))
                (ap (λ (t : HandleName). t.name) (at_high mid (omega arith) l) ∙ e)
              ∙ ap (λ (t : HandleName). t.handle) (at_high mid (omega arith) l)
              ∙ sym was
        ]
    | absent c q result ↦
        let not_there : (i : ℕ) → i < s.name_count → (s.names i).name ≢ x = λ i l e.
          elim (dec_lt i c) [
            | yes a ↦ less-ne (s.names i).name x (q.below i a) e
            | no a ↦ less-ne x (s.names i).name (q.above i (omega arith) l) (sym e)
          ] in
        findname-absent inserted x inserted-Sorted (λ i l e. elim (at i l) [
          | low a w ↦
              not_there i (omega (arith, p.inside)) (ap (λ (t : HandleName). t.name) (sym w) ∙ e)
          | place a w ↦ ne (sym e ∙ ap (λ (t : HandleName). t.name) w)
          | high k f a d w ↦ not_there k d (ap (λ (t : HandleName). t.name) (sym w) ∙ e)
        ])
        ∙ sym (findname-absent s x sorted not_there)
  ]

  inserted-Named : Named s handle name inserted
  inserted-Named = record {
    sorted = inserted-Sorted;
    within = omega (arith, room.count, room.fits);
    one_more = omega (arith, room.count);
    own =
        findname-found inserted name inserted-Sorted b (omega (arith, room.count, p.inside))
          (ap (λ (t : HandleName). t.name) at_place)
        ∙ ap (λ (t : HandleName). t.handle) at_place;
    others = inserted_others;
  }

-- `skynet_handle_namehandle` on sorted names within their array, which can still double: a name
-- that is there is refused and nothing changes; any other name is added, and its lookup then gives
-- the handle, the names stay sorted and within their array, and no other lookup changes.
pub namehandle_lem :
    (s : HandleStorage) (handle : ℕ) (name : List ℕ)
    → Sorted s.names s.name_count
    → s.name_count ≤ s.name_cap
    → 0 < s.name_cap
    → s.name_cap * 2 ≤ 2 ^ 30
    → (((i : ℕ) × (i < s.name_count) × ((s.names i).name ≡ name))
        × (namehandle s handle name ≡ some (false, s)))
      ⊎ ((s' : HandleStorage) × (namehandle s handle name ≡ some (true, s'))
          × Named s handle name s')
unfolding namehandle insert_name_before
namehandle_lem s handle name sorted within some_cap most =
    elim (search_all s.names s.name_count name sorted) [
      | found mid l e result ↦ inl ((mid, l, e), rw (namehandle, result) refl)
      | absent b p result ↦
          let (r, done, room) = make_room_lem s b p.inside within some_cap most in
          inr (
            inserted s handle name sorted b p r room,
            rw (namehandle, result, insert_name_before, done) refl,
            inserted-Named s handle name sorted b p r room,
          )
    ]
