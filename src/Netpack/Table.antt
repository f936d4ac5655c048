-- ===== src/Netpack/Table.antt =====
-- lualib-src/lua-netpack.c: the hash table of incomplete packages. Each connection has at most one
-- entry, which stands for the bytes that it has sent since its last whole frame.
use ctkjserver.Base.{
  ℕ, ◌-◌, ◌<◌, ◌≡◌, refl, sym, ap, subst, ◌∙◌, ◌≢◌, ◌⊎◌, inl, inr, Option, none, some, List, [],
  ◌∷◌, length, map, ◌==◌, eq→==, ne→==, if◌then◌else◌, arith,
}
use ctkjserver.Base.Arrays.{update}
use ctkjserver.Base.Int.{pos, negsuc}
use native.Mathlib.Decide.{ℕ_discrete}
use ctkjserver.Netpack.{Pack, Uncomplete, hash_fd, unlink, read_size}
use ctkjserver.Netpack.Spec.{IsShort}
use ctkjserver.Netpack.Buffers.{filled}

-- The bytes of a package, as the queue holds it.
abbrev pub pack_of : ℕ → List ℕ → Pack
pack_of fd p = record { id = fd; size = length p; buffer = map some p }

-- The entries of `fd` in a chain.
abbrev pub keep : ℕ → List Uncomplete → List Uncomplete
keep fd [] = []
keep fd (uc ∷ rest) = if uc.pack.id == fd then uc ∷ keep fd rest else keep fd rest

-- One byte of the size is there.
pub record Header (uc : Uncomplete) (r : List ℕ) : Type 0 where
  pub state : uc.read ≡ negsuc 0
  pub bytes : r ≡ uc.header ∷ []

-- The size is there, and fewer bytes than it says.
pub record Part (uc : Uncomplete) (r : List ℕ) : Type 0 where
  pub b0 : ℕ
  pub b1 : ℕ
  pub got : List ℕ
  pub bytes : r ≡ b0 ∷ b1 ∷ got
  pub size : uc.pack.size ≡ read_size b0 b1
  pub state : uc.read ≡ pos (length got)
  pub short : length got < uc.pack.size
  pub buffer : uc.pack.buffer ≡ filled got (uc.pack.size - length got)

-- The entries of `fd` stand for the bytes `r`.
abbrev pub Entry : ℕ → List Uncomplete → List ℕ → Type 0
Entry fd [] r = r ≡ []
Entry fd (uc ∷ []) r = (uc.pack.id ≡ fd) × (Header uc r ⊎ Part uc r)
Entry fd (uc ∷ _ ∷ _) r = ⊥

-- The table stands for the unfinished bytes `r` of each connection.
abbrev pub Pending : (ℕ → List Uncomplete) → (ℕ → List ℕ) → Type 0
Pending hash r = (fd : ℕ) → Entry fd (keep fd (hash (hash_fd fd))) (r fd)

pub record Unlinked (fd : ℕ) (chain : List Uncomplete) (r : List ℕ)
    (found : Option Uncomplete × List Uncomplete) : Type 0 where
  pub gone : keep fd found.1 ≡ []
  pub others : (k : ℕ) → fd ≢ k → keep k found.1 ≡ keep k chain
  pub entry :
      ((r ≡ []) × (found.0 ≡ none))
      ⊎ ((uc : Uncomplete) × (found.0 ≡ some uc) × (uc.pack.id ≡ fd) × (Header uc r ⊎ Part uc r))

tail-Entry :
    (fd : ℕ) (uc : Uncomplete) (l : List Uncomplete) (r : List ℕ)
    → Entry fd (uc ∷ l) r
    → (l ≡ []) × (uc.pack.id ≡ fd) × (Header uc r ⊎ Part uc r)
tail-Entry fd uc [] r e = (refl, e.0, e.1)
tail-Entry fd uc (_ ∷ _) r e = absurd e

-- `find_uncomplete` takes out the entry of `fd`, if there is one, and no other.
pub unlink_lem :
    (fd : ℕ) (chain : List Uncomplete) (r : List ℕ)
    → Entry fd (keep fd chain) r
    → Unlinked fd chain r (unlink fd chain)
unfolding unlink
unlink_lem fd [] r e = record { gone = refl; others = λ k ne. refl; entry = inl (e, refl) }
unlink_lem fd (uc ∷ chain) r e = elim (ℕ_discrete uc.pack.id fd) [
  | yes x ↦
      let (a, b, c) = tail-Entry fd uc (keep fd chain) r (rw (eq→== _ _ x) at e) in
      rw (eq→== _ _ x) record {
        gone = a;
        others = λ k ne. rw (ne→== uc.pack.id k (λ y. ne (sym x ∙ y)));
        entry = inr (uc, refl, x, c);
      }
  | no x ↦
      let ih = unlink_lem fd chain r (rw (ne→== _ _ x) at e) in
      rw (ne→== _ _ x) record {
        gone = rw (ne→== _ _ x) ih.gone;
        others = λ k ne. ap (λ l. if uc.pack.id == k then uc ∷ l else l) (ih.others k ne);
        entry = ih.entry;
      }
]

-- A write to the chain of `fd` that changes no other connection's entries.
pub Pending-update :
    (hash : ℕ → List Uncomplete) (r : ℕ → List ℕ) (fd : ℕ) (chain : List Uncomplete) (x : List ℕ)
    → Pending hash r
    → Entry fd (keep fd chain) x
    → ((k : ℕ) → fd ≢ k → keep k chain ≡ keep k (hash (hash_fd fd)))
    → Pending (update hash (hash_fd fd) chain) (update r fd x)
Pending-update hash r fd chain x p e others k = elim (ℕ_discrete fd k) [
  | yes y ↦
      subst (λ j. Entry j (keep j (update hash (hash_fd fd) chain (hash_fd j))) (update r fd x j)) y
        (rw (eq→== (hash_fd fd) (hash_fd fd) refl, eq→== fd fd refl) e)
  | no ne ↦ rw (ne→== fd k ne) (elim (ℕ_discrete (hash_fd fd) (hash_fd k)) [
    | yes z ↦
        rw (eq→== _ _ z) (
          subst (λ l. Entry k l (r k)) (ap (λ h. keep k (hash h)) (sym z) ∙ sym (others k ne))
            (p k))
    | no z ↦ rw (ne→== _ _ z) (p k)
  ])
]

-- The unfinished bytes of a connection are no whole frame.
pub Entry-IsShort : (fd : ℕ) (l : List Uncomplete) (r : List ℕ) → Entry fd l r → IsShort r
Entry-IsShort fd [] r e = subst IsShort (sym e) tt
Entry-IsShort fd (uc ∷ []) r (id, inl h) = subst IsShort (sym h.bytes) tt
Entry-IsShort fd (uc ∷ []) r (id, inr p) =
    subst IsShort (sym p.bytes) (omega (arith, p.size, p.short))
Entry-IsShort fd (uc ∷ _ ∷ _) r e = absurd e
