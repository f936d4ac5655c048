-- ===== src/Socket/Server/Slots.antt =====
-- skynet-src/socket_server.c: what holds of every slot of the table.
use ctkjserver.Base.{
  ℕ, ◌<◌, ◌≡◌, ◌≢◌, refl, sym, ap, ◌∙◌, subst, Bool, true, false, inl, inr, Option, List, [],
}
use native.Mathlib.Decide.{ℕ_discrete}
use ctkjserver.Base.Arrays.{update, update_self, update_ne}
use ctkjserver.Socket.{SocketType, Socket, Effect, Step, is_invalid}
use ctkjserver.Socket.Stream.{IsOrdered, is_open, IsUp, Steps}
use ctkjserver.Socket.Server.{max_socket, hash_id, Server, store}

-- A socket that waits to be started.
abbrev pub is_pending : SocketType → Bool
is_pending SocketType.paccept = true
is_pending SocketType.plisten = true
is_pending _ = false

pub open-pending : (k : SocketType) → is_open k ≡ true → is_pending k ≡ false
open-pending SocketType.invalid e = refl
open-pending SocketType.reserve e = refl
open-pending SocketType.plisten e = sym e
open-pending SocketType.listen e = refl
open-pending SocketType.connecting e = refl
open-pending SocketType.connected e = refl
open-pending SocketType.halfclose e = refl
open-pending SocketType.paccept e = sym e
open-pending SocketType.bind e = refl

-- A slot: its lists are in order if the socket can hold packages, and empty if it cannot; the id of
-- a socket is one of those of its slot.
pub record IsSlot (i : ℕ) (s : Socket) : Type 0 where
  pub ordered : is_open s.kind ≡ true → IsOrdered s
  pub bare : is_open s.kind ≡ false → (s.high ≡ []) × (s.low ≡ [])
  pub count : is_pending s.kind ≡ true → s.wb_size ≡ 0
  pub home : is_invalid s.kind ≡ false → hash_id s.id ≡ i

abbrev pub IsServer : Server → Type 0
IsServer ss = (i : ℕ) → i < max_socket → IsSlot i (ss.slot i)

-- No slot but one is changed.
abbrev pub IsFrame : ℕ → Server → Server → Type 0
IsFrame j ss ss' = (i : ℕ) → i ≢ j → ss'.slot i ≡ ss.slot i

pub store-IsServer :
    (ss : Server) (id : ℕ) (s : Socket)
    → IsServer ss
    → IsSlot (hash_id id) s
    → IsServer (store ss id s)
store-IsServer ss id s h k i l = elim (ℕ_discrete (hash_id id) i) [
  | yes e ↦
      subst (λ j. IsSlot j (update ss.slot (hash_id id) s j)) e
        (subst (IsSlot (hash_id id)) (sym (update_self ss.slot (hash_id id) s)) k)
  | no ne ↦ subst (IsSlot i) (sym (update_ne ss.slot (hash_id id) i s ne)) (h i l)
]

pub store-IsFrame : (ss : Server) (id : ℕ) (s : Socket) → IsFrame (hash_id id) ss (store ss id s)
store-IsFrame ss id s i ne = update_ne ss.slot (hash_id id) i s (λ e. ne (sym e))

-- A socket that a step left open or closed.
pub Steps-IsSlot :
    (low : Bool) (i : ℕ) (s : Socket) (news : List (List ℕ)) (effects : List Effect)
    (o : Option Step) (r : Steps low s news effects o)
    → IsUp s
    → hash_id s.id ≡ i
    → IsSlot i r.step.socket
Steps-IsSlot low i s news effects o r up home =
    let t = r.step.socket in
    elim r.keeps.kept [
      | inl closed ↦ record {
        ordered = λ e. let shut = ap is_open closed.0 in cc;
        bare = λ _. (closed.1, closed.2);
        count = λ e. let shut = ap is_pending closed.0 in cc;
        home = λ e. let gone = ap is_invalid closed.0 in cc;
      }
      | inr live ↦ record {
        ordered = λ _. live.0.ordered;
        bare = λ e. let up = live.0.up in cc;
        count = λ e. let up = open-pending t.kind live.0.up in cc;
        home = λ _. ap hash_id live.2 ∙ home;
      }
    ]

-- A socket with nothing queued.
pub fresh-IsSlot : (s : Socket) → s.high ≡ [] → s.low ≡ [] → s.wb_size ≡ 0 → IsSlot (hash_id s.id) s
fresh-IsSlot s hh hl hw = record {
  ordered = λ _. record {
    high = rw hh tt;
    low = rw hl tt;
    plain = rw hl tt;
    count = rw (hw, hh, hl) refl;
  };
  bare = λ _. (hh, hl);
  count = λ _. hw;
  home = λ _. refl;
}

pub invalid-IsSlot :
    (i : ℕ) (s : Socket) → s.kind ≡ SocketType.invalid → s.high ≡ [] → s.low ≡ [] → IsSlot i s
invalid-IsSlot i s k hh hl = record {
  ordered = λ e. let shut = ap is_open k in cc;
  bare = λ _. (hh, hl);
  count = λ e. let shut = ap is_pending k in cc;
  home = λ e. let gone = ap is_invalid k in cc;
}
