-- ===== src/Socket/Stream.antt =====
-- skynet-src/socket_server.c: `send_buffer` keeps the order of the packages, and none is lost.
use ctkjserver.Base.{
  ℕ, ◌+◌, ◌≡◌, ◌⊎◌, inl, inr, refl, sym, ap, ◌∙◌, Bool, true, false, Option, none, some, List, [],
  ◌∷◌, ◌++◌, append-nil, append_assoc, take, All, if◌then◌else◌, if_false, Bool-cases,
}
use ctkjserver.Base.Slices.{joined, joined-append}
use ctkjserver.Socket.{
  SocketType, WriteBuffer, Socket, WriteReply, Effect, ResultType, Step, SentList, is_polled,
  is_bind, is_invalid, is_reserve, force_close, close_effects, list_uncomplete, close_with, ◌>>=◌,
}
use ctkjserver.Socket.Send.{IsFresh, IsPlain, IsQueue, packages, begun, total, IsSent}

-- The bytes that were written, in order.
abbrev pub written_of : List Effect → List ℕ
written_of [] = []
written_of (Effect.written fd bytes ∷ effects) = bytes ++ written_of effects
written_of (_ ∷ effects) = written_of effects

-- The two lists of a socket between its steps.
pub record IsOrdered (s : Socket) : Type 0 where
  pub high : IsQueue s.high
  pub low : All IsFresh s.low
  pub plain : All IsPlain s.low
  pub count : s.wb_size ≡ total s.high + total s.low

-- The types of a socket that can hold packages.
abbrev pub is_open : SocketType → Bool
is_open SocketType.connecting = true
is_open SocketType.connected = true
is_open SocketType.halfclose = true
is_open SocketType.bind = true
is_open _ = false

-- A connection, from the moment it is asked for to the moment it is closed.
abbrev pub IsUp : Socket → Type 0
IsUp s = is_open s.kind ≡ true

abbrev pub queued : Socket → List (List ℕ)
queued s = packages s.high ++ packages s.low

-- `part` is the start of the first package.
abbrev pub IsStart : List ℕ → List (List ℕ) → Type 0
IsStart part [] = part ≡ []
IsStart part (p ∷ ps) = (n : ℕ) × (part ≡ take n p)

-- What is known of a socket that was not closed.
pub record IsKept (t : Socket) (rest : List (List ℕ)) (part : List ℕ) : Type 0 where
  pub up : IsUp t
  pub ordered : IsOrdered t
  pub rest_eq : rest ≡ queued t
  pub part_eq : part ≡ begun t.high

-- The socket was closed: nothing is left of it but its id.
abbrev pub IsClosed : Socket → Socket → Type 0
IsClosed s t = (t.kind ≡ SocketType.invalid) × (t.high ≡ []) × (t.low ≡ []) × (t.id ≡ s.id)

-- The low list stays empty, unless a package was put there.
abbrev pub StaysNil : Bool → Socket → Socket → Type 0
StaysNil low s t = low ≡ false → s.low ≡ [] → t.low ≡ []

-- A step wrote `out`: the packages that were queued and the new ones are those that it wrote whole
-- and the rest, of which it wrote a part of the first.
pub record Kept (low : Bool) (s : Socket) (news : List (List ℕ)) (out : List ℕ) (t : Socket)
    : Type 0 where
  pub done : List (List ℕ)
  pub rest : List (List ℕ)
  pub part : List ℕ
  pub before : List (List ℕ)
  pub after : List (List ℕ)
  pub old : queued s ≡ before ++ after
  pub split : done ++ rest ≡ before ++ (news ++ after)
  pub last : s.low ≡ [] → after ≡ []
  pub stream : begun s.high ++ out ≡ joined done ++ part
  pub start : IsStart part rest
  pub kept : IsClosed s t ⊎ (IsKept t rest part × StaysNil low s t × (t.id ≡ s.id))

-- A step that succeeds, and what it wrote after `effects`.
pub record Steps (low : Bool) (s : Socket) (news : List (List ℕ)) (effects : List Effect)
    (o : Option Step) : Type 0 where
  pub step : Step
  pub runs : o ≡ some step
  pub out : List ℕ
  pub wrote : written_of step.effects ≡ written_of effects ++ out
  pub keeps : Kept low s news out step.socket
  pub lives : step.result ≡ ResultType.quiet → IsUp step.socket

pub written_of-append :
    (xs ys : List Effect) → written_of (xs ++ ys) ≡ written_of xs ++ written_of ys
written_of-append [] ys = refl
written_of-append (Effect.written fd bytes ∷ xs) ys =
    ap (◌++◌ bytes) (written_of-append xs ys)
    ∙ sym (append_assoc bytes (written_of xs) (written_of ys))
written_of-append (Effect.closed fd ∷ xs) ys = written_of-append xs ys
written_of-append (Effect.poll_add fd ∷ xs) ys = written_of-append xs ys
written_of-append (Effect.poll_del fd ∷ xs) ys = written_of-append xs ys
written_of-append (Effect.poll_write fd b ∷ xs) ys = written_of-append xs ys

pub IsStart-begun :
    (high low : List WriteBuffer) → IsStart (begun high) (packages high ++ packages low)
IsStart-begun [] [] = refl
IsStart-begun [] (wb ∷ low) = (0, refl)
IsStart-begun (wb ∷ high) low = (wb.ptr, refl)

pub list_uncomplete-fresh :
    (low : List WriteBuffer) → All IsFresh low → All IsPlain low → list_uncomplete low ≡ false
list_uncomplete-fresh [] h p = refl
list_uncomplete-fresh (wb ∷ low) h p = rw (p.0, h.0.0) refl

unwritten : (b : Bool) (fd : ℕ) → written_of (if b then [] else Effect.closed fd ∷ []) ≡ []
unwritten true fd = refl
unwritten false fd = refl

pub written_of-close_effects : (s : Socket) → written_of (close_effects s) ≡ []
written_of-close_effects s =
    written_of-append (if is_polled s.kind then Effect.poll_del s.fd ∷ [] else [])
      (if is_bind s.kind then [] else Effect.closed s.fd ∷ [])
    ∙ elim (Bool-cases (is_polled s.kind)) [
      | inl e ↦ rw e (unwritten (is_bind s.kind) s.fd)
      | inr e ↦ rw e (unwritten (is_bind s.kind) s.fd)
    ]

-- Neither an invalid nor a reserved socket can hold packages.
pub open_lem : (k : SocketType) → is_open k ≡ true → (is_invalid k ≡ false) × (is_reserve k ≡ false)
open_lem SocketType.invalid e = cc
open_lem SocketType.reserve e = cc
open_lem SocketType.plisten e = cc
open_lem SocketType.listen e = cc
open_lem SocketType.connecting e = (refl, refl)
open_lem SocketType.connected e = (refl, refl)
open_lem SocketType.halfclose e = (refl, refl)
open_lem SocketType.paccept e = cc
open_lem SocketType.bind e = (refl, refl)

pub force_close-open :
    (s : Socket)
    → IsUp s
    → force_close s
      ≡ some (record s { high = []; low = []; kind = SocketType.invalid }, close_effects s)
unfolding force_close
force_close-open s up = if_false _ _ (open_lem s.kind up).0 ∙ if_false none _ (open_lem s.kind up).1

-- A connection is closed without a failed assert, and nothing is written.
pub close_with_lem :
    (s : Socket) (effects : List Effect) (replies : List WriteReply)
    → IsUp s
    → (step : Step) × (close_with s effects replies ≡ some step)
      × (step.result ≡ ResultType.got_close)
      × IsClosed s step.socket
      × (written_of step.effects ≡ written_of effects)
unfolding close_with
close_with_lem s effects replies up = (
  _,
  ap
      (λ o. o >>= λ c. some (record {
        result = ResultType.got_close;
        socket = c.0;
        effects = effects ++ c.1;
        replies = replies;
      }))
      (force_close-open s up),
  refl,
  (refl, refl, refl, refl),
  written_of-append effects (close_effects s)
      ∙ ap (◌++◌ (written_of effects)) (written_of-close_effects s)
      ∙ append-nil (written_of effects),
)

-- The step of a list of packages that were queued in a socket `t`, none of them new.
pub continue_with :
    (s t u : Socket) (sent : SentList) (out : List ℕ)
    → IsSent s.high sent
    → (t.high ≡ sent.left)
    → (t.low ≡ s.low)
    → (t.id ≡ s.id)
    → Kept false t [] out u
    → Kept false s [] (sent.bytes ++ out) u
continue_with s t u sent out first hh hl hi k =
    let lists : queued t ≡ packages sent.left ++ packages s.low =
      ap (λ l. packages l ++ packages t.low) hh ∙ ap (λ l. packages sent.left ++ packages l) hl in
    let moved : k.done ++ k.rest ≡ packages sent.left ++ packages s.low =
      k.split ∙ sym k.old ∙ lists in
    record {
      done = first.done ++ k.done;
      rest = k.rest;
      part = k.part;
      before = queued s;
      after = [];
      old = sym (append-nil (queued s));
      split =
          append_assoc first.done k.done k.rest
          ∙ ap (◌++◌ first.done) moved
          ∙ sym (append_assoc first.done (packages sent.left) (packages s.low))
          ∙ ap (λ l. l ++ packages s.low) (sym first.split)
          ∙ sym (append-nil (queued s));
      last = λ _. refl;
      stream =
          sym (append_assoc (begun s.high) sent.bytes out)
          ∙ ap (λ l. l ++ out) first.stream
          ∙ append_assoc (joined first.done) (begun sent.left) out
          ∙ ap (λ l. joined first.done ++ (begun l ++ out)) (sym hh)
          ∙ ap (◌++◌ (joined first.done)) k.stream
          ∙ sym (append_assoc (joined first.done) (joined k.done) k.part)
          ∙ ap (λ l. l ++ k.part) (sym (joined-append first.done k.done));
      start = k.start;
      kept = elim k.kept [
        | inl e ↦ inl (e.0, e.1, e.2, e.3 ∙ hi)
        | inr live ↦ inr (live.0, λ f e. live.1 f (hl ∙ e), live.2 ∙ hi)
      ];
    }

-- A step that writes nothing.
nothing :
    (s t : Socket)
    → IsClosed s t ⊎ (IsKept t (queued s) (begun s.high) × StaysNil false s t × (t.id ≡ s.id))
    → Kept false s [] [] t
nothing s t k = record {
  done = [];
  rest = queued s;
  part = begun s.high;
  before = queued s;
  after = [];
  old = sym (append-nil (queued s));
  split = sym (append-nil (queued s));
  last = λ _. refl;
  stream = append-nil (begun s.high);
  start = IsStart-begun s.high s.low;
  kept = k;
}

-- A socket that is closed: what was queued is not written.
pub closed : (s t : Socket) → IsClosed s t → Kept false s [] [] t
closed s t e = nothing s t (inl e)

-- A socket whose lists were not touched.
pub untouched :
    (s t : Socket)
    → (t.high ≡ s.high)
    → (t.low ≡ s.low)
    → (t.id ≡ s.id)
    → IsUp t
    → IsOrdered t
    → Kept false s [] [] t
untouched s t hh hl hi up ordered = nothing s t (
    inr (
      record {
        up = up;
        ordered = ordered;
        rest_eq = sym (
            ap (λ l. packages l ++ packages t.low) hh ∙ ap (λ l. packages s.high ++ packages l) hl);
        part_eq = ap begun (sym hh);
      },
      λ _ e. hl ∙ e,
      hi,
    ))

-- A step that ends in SOCKET_CLOSE goes on with no socket.
pub over : (t : Socket) (r : ResultType) → r ≡ ResultType.got_close → r ≡ ResultType.quiet → IsUp t
over t r e f = cc

-- A step that puts nothing in the low list, as one that may.
pub weaken-Kept :
    (low : Bool) (s : Socket) (news : List (List ℕ)) (out : List ℕ) (t : Socket)
    → Kept false s news out t
    → Kept low s news out t
weaken-Kept low s news out t k = record {
  done = k.done;
  rest = k.rest;
  part = k.part;
  before = k.before;
  after = k.after;
  old = k.old;
  split = k.split;
  last = k.last;
  stream = k.stream;
  start = k.start;
  kept = elim k.kept [ inl e ↦ inl e | inr live ↦ inr (live.0, λ _ e. live.1 refl e, live.2) ];
}

pub weaken :
    (low : Bool) (s : Socket) (news : List (List ℕ)) (effects : List Effect) (o : Option Step)
    → Steps false s news effects o
    → Steps low s news effects o
weaken low s news effects o r = record {
  step = r.step;
  runs = r.runs;
  out = r.out;
  wrote = r.wrote;
  keeps = weaken-Kept low s news r.out r.step.socket r.keeps;
  lives = r.lives;
}
