-- ===== src/Seri/Blocks.antt =====
-- lualib-src/lua-seri.c: the blocks hold just the bytes that were pushed.
use ctkjserver.Base.{
  ℕ, zero, suc, ◌+◌, ◌-◌, ◌*◌, ◌≤◌, ◌<◌, ◌≡◌, refl, sym, ap, ap₂, ◌∙◌, subst, inl, inr, true, false,
  ◌&&◌, List, [], ◌∷◌, ◌++◌, append-nil, append_assoc, length, length-append, length-nil,
  length-take, length-drop, take, drop, take-append-drop, All, All-append, leb, ◌==◌, ==→eq, ==→ne,
  if_true, if_false, Bool-cases, arith,
}
use ctkjserver.Base.Slices.{joined, joined-append, take_all}
use ctkjserver.Seri.{
  block_size, WriteBlock, wb_init, with_room, copied, push_rounds, wb_push, seri_blocks, seri,
}

-- The bytes that were pushed.
abbrev pub contents : WriteBlock → List ℕ
contents b = joined b.full ++ b.current

abbrev pub IsFull : List ℕ → Type 0
IsFull block = length block ≡ block_size

pub record IsBlocks (b : WriteBlock) : Type 0 where
  pub full : All IsFull b.full
  pub fits : length b.current ≤ block_size
  pub count : b.len ≡ length b.full * block_size + length b.current

pub wb_init-IsBlocks : IsBlocks wb_init
wb_init-IsBlocks = record { full = tt; fits = omega arith; count = refl }

record HasRoom (b b' : WriteBlock) : Type 0 where
  blocks : IsBlocks b'
  room : length b'.current < block_size
  same : contents b' ≡ contents b

with_room-HasRoom : (b : WriteBlock) → IsBlocks b → HasRoom b (with_room b)
with_room-HasRoom b h = elim (Bool-cases (length b.current == block_size)) [
  | inl e ↦
      let full : length b.current ≡ block_size = ==→eq _ _ e in
      subst (HasRoom b) (sym (if_true _ _ e)) (record {
        blocks = record {
          full = All-append IsFull b.full (b.current ∷ []) h.full (full, tt);
          fits = omega arith;
          count = omega (arith, h.count, full, length-append b.full (b.current ∷ []));
        };
        room = omega arith;
        same =
            append-nil (joined (b.full ++ (b.current ∷ [])))
            ∙ joined-append b.full (b.current ∷ [])
            ∙ ap (◌++◌ (joined b.full)) (append-nil b.current);
      })
  | inr e ↦
      let ne = ==→ne _ _ e in
      subst (HasRoom b) (sym (if_false _ _ e))
        (record { blocks = h; room = ground (arith, h.fits, ne); same = refl })
]

-- What a push leaves.
pub record IsPushed (b : WriteBlock) (bytes : List ℕ) (b' : WriteBlock) : Type 0 where
  pub blocks : IsBlocks b'
  pub holds : contents b' ≡ contents b ++ bytes

copied-IsPushed :
    (b : WriteBlock) (bytes : List ℕ)
    → IsBlocks b
    → length b.current + length bytes ≤ block_size
    → IsPushed b bytes (copied b bytes)
copied-IsPushed b bytes h l = record {
  blocks = record {
    full = h.full;
    fits = omega (arith, length-append b.current bytes);
    count = omega (arith, h.count, length-append b.current bytes);
  };
  holds = sym (append_assoc (joined b.full) b.current bytes);
}

fits_lem : (p n : ℕ) → (leb p (block_size - n) && leb n block_size) ≡ true → p + n ≤ block_size
fits_lem p n e = ground arith

overflows_lem :
    (p n : ℕ) → (leb p (block_size - n) && leb n block_size) ≡ false → block_size < p + n
overflows_lem p n e = ground arith

push_rounds-IsPushed :
    (rounds : ℕ) (b : WriteBlock) (buffer : List ℕ)
    → IsBlocks b
    → length buffer < rounds
    → IsPushed b buffer (push_rounds rounds b buffer)
unfolding push_rounds
push_rounds-IsPushed zero b buffer h l = absurd (omega arith)
push_rounds-IsPushed (suc rounds) b buffer h l =
    let b' = with_room b in
    let r = with_room-HasRoom b h in
    let copy = block_size - length b'.current in
    elim (Bool-cases
      (leb (length b'.current) (block_size - length buffer) && leb (length buffer) block_size)) [
        | inl e ↦
            let c = copied-IsPushed b' buffer r.blocks (fits_lem _ _ e) in
            subst (IsPushed b buffer) (sym (if_true _ _ e))
              (record { blocks = c.blocks; holds = c.holds ∙ ap (λ t. t ++ buffer) r.same })
        | inr e ↦
            let more = overflows_lem (length b'.current) (length buffer) e in
            let first =
              copied-IsPushed b' (take copy buffer) r.blocks
                (omega (arith, r.room, length-take copy buffer)) in
            let next =
              push_rounds-IsPushed rounds (copied b' (take copy buffer)) (drop copy buffer)
                first.blocks (omega (arith, l, more, r.room, length-drop copy buffer)) in
            subst (IsPushed b buffer) (sym (if_false _ _ e)) (record {
              blocks = next.blocks;
              holds =
                  next.holds
                  ∙ ap (λ t. t ++ drop copy buffer) first.holds
                  ∙ append_assoc (contents b') (take copy buffer) (drop copy buffer)
                  ∙ ap₂ (◌++◌) r.same (take-append-drop copy buffer);
            })
      ]

-- `wb_push` adds the bytes at the end, whatever their number.
pub wb_push-IsPushed :
    (b : WriteBlock) (buffer : List ℕ) → IsBlocks b → IsPushed b buffer (wb_push b buffer)
unfolding wb_push
wb_push-IsPushed b buffer h = push_rounds-IsPushed (suc (length buffer)) b buffer h (omega arith)

pub IsPushed-trans :
    (a b c : WriteBlock) (xs ys : List ℕ)
    → IsPushed a xs b
    → IsPushed b ys c
    → IsPushed a (xs ++ ys) c
IsPushed-trans a b c xs ys p q = record {
  blocks = q.blocks;
  holds = q.holds ∙ ap (λ t. t ++ ys) p.holds ∙ append_assoc (contents a) xs ys;
}

seri_blocks_lem :
    (full : List (List ℕ)) (current : List ℕ) (len : ℕ)
    → All IsFull full
    → length current ≤ block_size
    → len ≡ length full * block_size + length current
    → seri_blocks (full ++ (current ∷ [])) len ≡ joined full ++ current
unfolding seri_blocks
seri_blocks_lem [] current len h fits count = elim (Bool-cases (len == 0)) [
  | inl e ↦
      let none_left : length current ≡ 0 = omega (arith, ==→eq _ _ e, count) in
      if_true _ _ e ∙ sym (length-nil current none_left)
  | inr e ↦ if_false _ _ e ∙ elim (Bool-cases (leb block_size len)) [
    | inl f ↦
        let size : block_size ≡ length current = ground (arith, f, count, fits) in
        if_true _ _ f
        ∙ append-nil (take block_size current)
        ∙ ap (λ n. take n current) size
        ∙ take_all current
    | inr f ↦
        if_false _ _ f
        ∙ ap (λ n. take n current) {x = len} {y = length current} (omega (arith, count))
        ∙ take_all current
  ]
]
seri_blocks_lem (b ∷ full) current len h fits count =
    let more : block_size ≤ len = omega (arith, count) in
    let some_left : (len == 0) ≡ false = ground (arith, more) in
    let whole : leb block_size len ≡ true = ground (arith, more) in
    if_false _ _ some_left
    ∙ if_true _ _ whole
    ∙ ap₂ (◌++◌) (ap (λ n. take n b) (sym h.0) ∙ take_all b)
        (seri_blocks_lem full current (len - block_size) h.1 fits (omega (arith, count)))
    ∙ sym (append_assoc b (joined full) current)

-- `seri` gives all the bytes that were pushed, in one piece.
pub seri_lem : (b : WriteBlock) → IsBlocks b → seri b ≡ contents b
unfolding seri
seri_lem b h = seri_blocks_lem b.full b.current b.len h.full h.fits h.count

length-full :
    (full : List (List ℕ)) → All IsFull full → length (joined full) ≡ length full * block_size
length-full [] h = refl
length-full (b ∷ full) h = omega (arith, h.0, length-full full h.1, length-append b (joined full))

-- `len` is the number of the bytes.
pub length-contents : (b : WriteBlock) → IsBlocks b → b.len ≡ length (contents b)
length-contents b h =
    omega (arith, h.count, length-full b.full h.full, length-append (joined b.full) b.current)
