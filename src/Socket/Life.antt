-- ===== src/Socket/Life.antt =====
-- skynet-src/socket_server.c: the events of a connection, and the packages that they bring.
use ctkjserver.Base.{
  ℕ, ◌≡◌, refl, ap, ap₂, ◌∙◌, Bool, true, false, ◌||◌, Option, none, some, List, [], ◌∷◌, ◌++◌,
  if◌then◌else◌, if_true, if_false, ◌==◌,
}
use ctkjserver.Socket.{SocketType, Socket, WriteReply, Effect, Step, is_invalid, ◌>>=◌}
use ctkjserver.Socket.Request.{
  Request, is_closed_for_send, quietly, send_socket, CloseRequest, close_socket,
}
use ctkjserver.Socket.Stream.{IsOrdered, IsUp, Steps}
use ctkjserver.Socket.Accept.{accepted, send_socket-Steps}
use ctkjserver.Socket.Receive.{PoolEvent, is_connecting, dispatch}
use ctkjserver.Socket.Reading.{stepped, dispatch-Steps}
use ctkjserver.Socket.Closing.{close_socket-Steps}

-- What happens to a connection: a request to send, an event of the pool, a request to close, each
-- with the replies of `write`.
pub data Event : Type 0 where
  send : Request → (is_low : Bool) → List WriteReply → Event
  pool : PoolEvent → Event
  close : CloseRequest → List WriteReply → Event

-- The step of an event, as `ctrl_cmd` and `socket_server_poll` choose it.
unfoldable pub handle : Socket → Event → Option Step
handle s (Event.send request is_low replies) = send_socket s request is_low replies
handle s (Event.pool e) = dispatch s e >>= λ f. some f.step
handle s (Event.close request replies) = close_socket s request replies

-- The steps of a sequence of events, with all their effects.
unfoldable pub run : Socket → List Event → Option (Socket × List Effect)
run s [] = some (s, [])
run s (e ∷ events) =
    handle s e >>= λ step. run step.socket events >>= λ r. some (r.0, step.effects ++ r.1)

-- The package that an event adds.
abbrev pub news : Socket → Event → List (List ℕ)
news s (Event.send request is_low replies) = accepted s request
news s (Event.pool e) = []
news s (Event.close request replies) = []

abbrev pub taken_after : Option Step → (Socket → List (List ℕ)) → List (List ℕ)
taken_after none f = []
taken_after (some step) f = f step.socket

-- The packages that were taken, in the order in which they came.
unfoldable pub taken : Socket → List Event → List (List ℕ)
taken s [] = []
taken s (e ∷ events) = news s e ++ taken_after (handle s e) (λ t. taken t events)

abbrev pub is_low : Event → Bool
is_low (Event.send request low replies) = low
is_low _ = false

-- A package of low priority is not an object of the host.
abbrev pub IsPlainEvent : Event → Type 0
IsPlainEvent (Event.send request low replies) = low ≡ true → request.userobject ≡ false
IsPlainEvent _ = Unit

pub handle-Steps :
    (s : Socket) (e : Event)
    → IsPlainEvent e
    → IsUp s
    → IsOrdered s
    → Steps (is_low e) s (news s e) [] (handle s e)
unfolding handle
handle-Steps s (Event.send request low replies) p up h =
    send_socket-Steps s request low replies p up h
handle-Steps s (Event.pool e) p up h = dispatch-Steps s e up h
handle-Steps s (Event.close request replies) p up h = close_socket-Steps s request replies up h

-- An invalid socket does nothing.
handle-invalid :
    (s : Socket) (e : Event)
    → s.kind ≡ SocketType.invalid
    → (step : Step) × (handle s e ≡ some step)
      × (step.socket ≡ s)
      × (step.effects ≡ [])
      × (news s e ≡ [])
unfolding handle send_socket close_socket dispatch
handle-invalid s (Event.send request low replies) k = (
  quietly s [] replies,
  if_true _ _ (ap (λ k. is_closed_for_send k || (if s.id == request.id then false else true)) k),
  refl,
  refl,
  if_true _ _ (ap (λ k. is_closed_for_send k || (if s.id == request.id then false else true)) k),
)
handle-invalid s (Event.pool e) k = (
  quietly s [] e.replies,
  ap stepped (if_false _ _ (ap is_connecting k) ∙ if_true _ _ (ap is_invalid k)),
  refl,
  refl,
  refl,
)
handle-invalid s (Event.close request replies) k = (
  _,
  if_true _ _ (ap (λ k. is_invalid k || (if s.id == request.id then false else true)) k),
  refl,
  refl,
  refl,
)

pub run-invalid :
    (s : Socket) (events : List Event)
    → s.kind ≡ SocketType.invalid
    → (run s events ≡ some (s, [])) × (taken s events ≡ [])
unfolding run taken
run-invalid s [] k = (refl, refl)
run-invalid s (e ∷ events) k =
    let step = handle-invalid s e k in
    let rest = run-invalid s events k in
    (
      ap (λ o. o >>= λ step. run step.socket events >>= λ r. some (r.0, step.effects ++ r.1)) step.1
          ∙ ap₂ (λ t l. run t events >>= λ r. some (r.0, l ++ r.1)) step.2 step.3
          ∙ ap (λ o. o >>= λ r. some (r.0, [] ++ r.1)) rest.0,
      ap₂ (λ l o. l ++ taken_after o (λ t. taken t events)) step.4 step.1
          ∙ ap (λ t. taken t events) step.2
          ∙ rest.1,
    )
