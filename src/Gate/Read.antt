-- ===== src/Gate/Read.antt =====
-- service-src/databuffer.h: `databuffer_read` reads the first bytes of those that were pushed.
use ctkjserver.Base.{
  ℕ, ◌+◌, ◌-◌, ◌≤◌, ◌<◌, ◌≡◌, refl, sym, ap, ◌∙◌, some, List, [], ◌∷◌, ◌++◌, append-nil,
  append_assoc, length, length-append, length-drop, take, drop, lt→ltb, le→ltb, eq→==, ne→==, arith,
}
use native.Mathlib.Decide.{dec_lt, ℕ_discrete}
use ctkjserver.Base.Slices.{
  take-append_low, drop-append_low, take-append_high, drop-append_high, drop_nil, drop-drop,
  take_all, joined,
}
use ctkjserver.Gate.{DataBuffer, read_messages, read, push, clear}

-- What is still to be read.
abbrev pub unread : List (List ℕ) → ℕ → List ℕ
unread ms offset = drop offset (joined ms)

-- The offset is in the first message.
abbrev pub IsOffset : List (List ℕ) → ℕ → Type 0
IsOffset [] offset = offset ≡ 0
IsOffset (m ∷ ms) offset = offset ≤ length m

pub record HasRead (ms : List (List ℕ)) (offset sz offset' : ℕ) (ms' : List (List ℕ)) : Type 0 where
  pub placed : IsOffset ms' offset'
  pub left : unread ms' offset' ≡ drop sz (unread ms offset)

IsOffset-zero : (ms : List (List ℕ)) → IsOffset ms 0
IsOffset-zero [] = refl
IsOffset-zero (m ∷ ms) = omega arith

pub read_messages_lem :
    (ms : List (List ℕ)) (offset sz : ℕ)
    → IsOffset ms offset
    → 0 < sz
    → sz ≤ length (unread ms offset)
    → (offset' : ℕ) × (ms' : List (List ℕ)) × (read_messages ms offset sz
        ≡ some (take sz (unread ms offset), offset', ms'))
      × HasRead ms offset sz offset' ms'
unfolding read_messages
read_messages_lem [] offset sz at some_bytes there =
    absurd (omega (arith, ap length (drop_nil {A = ℕ} offset)))
read_messages_lem (m ∷ rest) offset sz at some_bytes there =
    let split : unread (m ∷ rest) offset ≡ drop offset m ++ joined rest =
      drop-append_low offset m (joined rest) at in
    let bsz = length m - offset in
    let first : length (drop offset m) ≡ bsz = length-drop offset m in
    elim (dec_lt sz bsz) [
      | yes less ↦ (
        offset + sz,
        m ∷ rest,
        rw
            (
              lt→ltb sz bsz less,
              split,
              take-append_low sz (drop offset m) (joined rest) (omega arith),
            )
            refl,
        record { placed = omega arith; left = sym (drop-drop offset sz (m ++ joined rest)) },
      )
      | no more ↦ elim (ℕ_discrete bsz sz) [
        | yes e ↦ (
          0,
          rest,
          rw
              (
                le→ltb sz bsz (omega arith),
                eq→== bsz sz e,
                split,
                take-append_low sz (drop offset m) (joined rest) (omega arith),
              )
              refl,
          record {
            placed = IsOffset-zero rest;
            left = sym (
                ap (drop sz) split
                ∙ drop-append_high sz (drop offset m) (joined rest) (omega arith)
                ∙ ap (λ k. drop k (joined rest)) {x = sz - length (drop offset m)} {y = 0}
                    (omega arith));
          },
        )
        | no ne ↦
            let long = ap length split ∙ length-append (drop offset m) (joined rest) in
            let (offset', ms', done, r) =
              read_messages_lem rest 0 (sz - bsz) (IsOffset-zero rest) (omega arith)
                (omega arith) in
            (
              offset',
              ms',
              rw (le→ltb sz bsz (omega arith), ne→== bsz sz ne, done)
                  (ap (λ t. some (t, offset', ms'))
                    (ap (λ k. take k (drop offset m) ++ take (sz - bsz) (joined rest)) (sym first)
                      ∙ ap (λ t. t ++ take (sz - bsz) (joined rest)) (take_all (drop offset m))
                      ∙ ap (λ k. drop offset m ++ take (sz - k) (joined rest)) (sym first)
                      ∙ sym (take-append_high sz (drop offset m) (joined rest) (omega arith))
                      ∙ ap (take sz) (sym split))),
              record {
                placed = r.placed;
                left =
                    r.left
                    ∙ ap (λ k. drop (sz - k) (joined rest)) (sym first)
                    ∙ sym (drop-append_high sz (drop offset m) (joined rest) (omega arith))
                    ∙ ap (drop sz) (sym split);
              },
            )
      ]
    ]

-- The bytes that a buffer holds, and that its fields fit them.
pub record Holds (db : DataBuffer) (xs : List ℕ) : Type 0 where
  pub placed : IsOffset db.messages db.offset
  pub bytes : unread db.messages db.offset ≡ xs
  pub size : db.size ≡ length xs

-- `databuffer_read` of at least one byte and of no more than there are: the first ones, and the
-- others stay.
pub read_lem :
    (db : DataBuffer) (xs : List ℕ) (sz : ℕ)
    → Holds db xs
    → 0 < sz
    → sz ≤ length xs
    → (db' : DataBuffer) × (read db sz ≡ some (take sz xs, db'))
      × Holds db' (drop sz xs)
      × (db'.header ≡ db.header)
unfolding read
read_lem db xs sz h some_bytes there =
    let (offset', ms', done, r) =
      read_messages_lem db.messages db.offset sz h.placed some_bytes
        (omega (arith, ap length h.bytes)) in
    (
      record db { size = db.size - sz; offset = offset'; messages = ms' },
      rw (le→ltb db.size sz (omega (arith, h.size)), done, h.bytes) refl,
      record {
        placed = r.placed;
        bytes = r.left ∙ ap (drop sz) h.bytes;
        size = ap (λ n. n - sz) h.size ∙ sym (length-drop sz xs);
      },
      refl,
    )

joined-append : (ms : List (List ℕ)) (m : List ℕ) → joined (ms ++ (m ∷ [])) ≡ joined ms ++ m
joined-append [] m = append-nil m
joined-append (n ∷ ms) m = ap (◌++◌ n) (joined-append ms m) ∙ sym (append_assoc n (joined ms) m)

offset-joined : (ms : List (List ℕ)) (offset : ℕ) → IsOffset ms offset → offset ≤ length (joined ms)
offset-joined [] offset e = omega arith
offset-joined (m ∷ ms) offset l = omega (arith, length-append m (joined ms))

-- `databuffer_push`
pub push-Holds : (db : DataBuffer) (xs ys : List ℕ) → Holds db xs → Holds (push db ys) (xs ++ ys)
push-Holds db xs ys h = record {
  placed = kept db.messages h.placed;
  bytes =
      ap (drop db.offset) (joined-append db.messages ys)
      ∙ drop-append_low db.offset (joined db.messages) ys
          (offset-joined db.messages db.offset h.placed)
      ∙ ap (λ t. t ++ ys) h.bytes;
  size = omega (arith, h.size, length-append xs ys);
}
  where
    kept : (ms : List (List ℕ)) → IsOffset ms db.offset → IsOffset (ms ++ (ys ∷ [])) db.offset
    kept [] e = omega arith
    kept (m ∷ ms) l = l

-- `databuffer_clear`
pub clear-Holds : Holds clear []
clear-Holds = record { placed = refl; bytes = refl; size = refl }
