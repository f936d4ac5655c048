-- ===== src/Gate/Tests.antt =====
-- A run of the gate on two packages in two pieces, and the theorem at it.
use ctkjserver.Base.{
  take, ◌≢◌, ℕ, ◌≡◌, refl, none, eq→==, ne→==, ◌==◌, if◌then◌else◌, some, List, [], ◌∷◌, map, arith,
}
use ctkjserver.Base.Int.{pos}
use ctkjserver.Gate.{
  DataBuffer, push, clear, Route, Action, dispatch_message, dispatch_loop, forward, read,
  read_messages, receiver, with_header, parse, package_size,
}
use ctkjserver.Gate.Read.{Holds, push-Holds, clear-Holds}
use native.Mathlib.Decide.{ℕ_discrete}
use ctkjserver.HashId.{lookup}
use ctkjserver.HashId.Laws.{lookup-some}
use ctkjserver.HashId.Sample.{one, one-Valid, absent}
use ctkjserver.Gate.Socket.{
  Gate, Sound, Closed, report, idle, on_close, on_accept, none-ne, on_close_lem, on_accept_lem,
}
use ctkjserver.Gate.Stream.{Packages, head, body, stop, for_header, dispatch_message_lem}

abbrev route : Route
route = record { broker = 0; watchdog = 7; agent = 3; client = 4; id = 5 }

-- The first byte of a header was received.
abbrev started : DataBuffer
started = push clear (0 ∷ [])

started-Holds : Holds started (0 ∷ [])
started-Holds = push-Holds clear [] (0 ∷ []) clear-Holds

abbrev sent : List Action
sent = Action.send 4 3 (65 ∷ 66 ∷ []) ∷ Action.send 4 3 (67 ∷ []) ∷ []

dispatch_message_runs :
    dispatch_message route 2 started (2 ∷ 65 ∷ 66 ∷ 0 ∷ 1 ∷ 67 ∷ 9 ∷ [])
    ≡ some (
      sent,
      record {
        header = pos 0;
        offset = 6;
        size = 1;
        messages = (2 ∷ 65 ∷ 66 ∷ 0 ∷ 1 ∷ 67 ∷ 9 ∷ []) ∷ [];
      },
    )
unfolding dispatch_message dispatch_loop forward read read_messages receiver with_header parse
    package_size
dispatch_message_runs = refl

receiver_agent : receiver route ≡ some (Action.send 4 3)
unfolding receiver
receiver_agent = refl

dispatch_message_lem_example :
    (db' : DataBuffer) × (dispatch_message route 2 started (2 ∷ 65 ∷ 66 ∷ 0 ∷ 1 ∷ 67 ∷ 9 ∷ [])
      ≡ some (map (Action.send 4 3) ((65 ∷ 66 ∷ []) ∷ (67 ∷ []) ∷ []), db'))
    × Holds db' (9 ∷ [])
    × (db'.header ≡ pos 0)
dispatch_message_lem_example =
    dispatch_message_lem route 2 (Action.send 4 3) receiver_agent (omega arith) started 0 (0 ∷ [])
      (2 ∷ 65 ∷ 66 ∷ 0 ∷ 1 ∷ 67 ∷ 9 ∷ []) ((65 ∷ 66 ∷ []) ∷ (67 ∷ []) ∷ []) 0 (9 ∷ []) started-Holds
      refl two_packages
  where
    two_packages :
        Packages 2 0
          (0 ∷ 2 ∷ 65 ∷ 66 ∷ 0 ∷ 1 ∷ 67 ∷ 9 ∷ [])
          ((65 ∷ 66 ∷ []) ∷ (67 ∷ []) ∷ [])
          0
          (9 ∷ [])
    two_packages = head (0 ∷ 2 ∷ []) refl refl (omega arith) (
        body (65 ∷ 66 ∷ []) refl (omega arith) (
          head (0 ∷ 1 ∷ []) refl refl (omega arith)
            (body (67 ∷ []) refl (omega arith) (stop (for_header (omega arith))))))

-- Socket 7 is the connection 3 of 4; the gate listens on 2.
abbrev gate : Gate
gate = record {
  listen_id = some 2;
  watchdog = 9;
  broker = 0;
  header_size = 2;
  hash = one;
  conn = λ c. if c == 3 then record idle { id = some 7 } else idle;
}

gate-Sound : Sound gate
gate-Sound = record {
  valid = one-Valid;
  ids = λ x c at.
      let has = lookup-some one x c at in
      elim (ℕ_discrete c 3) [
        | yes e ↦ rw (eq→== c 3 e) (rw (eq→== c 3 e) at has)
        | no ne ↦ absurd (none-ne (rw (ne→== c 3 ne) at has))
      ];
}

on_close_lem_example : Closed gate 7 (on_close gate 7)
on_close_lem_example = on_close_lem gate 7 gate-Sound

on_accept_lem_example :
    (actions : List Action) × (g' : Gate) × (c : ℕ) × (on_accept gate 2 23 (49 ∷ [])
      ≡ some (actions, g'))
    × Sound g'
    × (one.id c ≡ none)
    × ((x : ℕ) → lookup g'.hash x ≡ (if x == 23 then some c else lookup one x))
    × (actions ≡ report gate (Action.opened gate.watchdog 23 (take 31 (49 ∷ []))))
    × (g'.conn c ≡ record (gate.conn c) { id = some 23; remote_name = take 31 (49 ∷ []) })
    × ((d : ℕ) → c ≢ d → g'.conn d ≡ gate.conn d)
on_accept_lem_example =
    on_accept_lem gate 2 23 (49 ∷ []) gate-Sound refl refl (omega arith) absent 0 (omega arith) refl
