-- ===== src/Timer/Tests.antt =====
-- Runs of the wheel on concrete timers, and the theorems at them.
use ctkjserver.Base.{ℕ, ◌+◌, ◌≡◌, refl, Bool, ◌&&◌, ltb, ◌==◌, [], ◌∷◌, if◌then◌else◌, arith}
use ctkjserver.Base.Int.{negsuc}
use ctkjserver.Timer.{
  Timer, TimerNode, TimerEvent, timer_add, updates, timer_update, timer_execute, timer_shift,
  skynet_timer_init, skynet_timeout, add_node, find_level, timeout_message,
}
use ctkjserver.Timer.Count.{total, count}
use ctkjserver.Timer.Shift.{Shifted, timer_shift-Shifted}
use ctkjserver.Timer.Update.{Executed, timer_execute-Executed}
use ctkjserver.Timer.Exact.{Ready, Updated, timer_update-Updated, Ran, updates-Ran, within}
use ctkjserver.Timer.Timeout.{timer_add-Ready, timeout_exact}

abbrev event : ℕ → TimerEvent
event n = record { handle = n; session = n }

-- Just before the block that begins at 512.
abbrev quiet : Timer
quiet = record (skynet_timer_init 0 0 0) { time = 509 }

quiet-Ready : Ready quiet
unfolding skynet_timer_init
quiet-Ready = record {
  placed = record { now = omega arith; near = λ j. tt; levels = λ i j. tt };
  empty = refl;
}

-- Timers for 510 and, over the end of the block, for 513.
abbrev wheel : Timer
wheel = timer_add (timer_add quiet (event 1) 1) (event 2) 4

soon-Ready : Ready (timer_add quiet (event 1) 1)
soon-Ready = timer_add-Ready quiet (event 1) 1 quiet-Ready (omega arith, omega arith)

wheel-Ready : Ready wheel
wheel-Ready =
    timer_add-Ready (timer_add quiet (event 1) 1) (event 2) 4 soon-Ready (omega arith, omega arith)

fires :
    ((updates 3 wheel).0 ≡ record { expire = 510; event = event 1 } ∷ [])
    × ((updates 4 wheel).0
        ≡ record { expire = 510; event = event 1 } ∷ record { expire = 513; event = event 2 } ∷ [])
unfolding updates timer_add skynet_timer_init add_node find_level
fires = (refl, refl)

at_once :
    (skynet_timeout quiet 7 (negsuc 2) 3).0
    ≡ timeout_message (record { handle = 7; session = 3 }) ∷ []
unfolding skynet_timeout
at_once = refl

is_first : TimerNode → Bool
is_first n = n.event.handle == 1

timer_shift-Shifted_example : Shifted wheel (timer_shift wheel)
timer_shift-Shifted_example = timer_shift-Shifted wheel wheel-Ready.placed wheel-Ready.empty

timer_execute-Executed_example :
    Executed wheel ((event 3, 5) ∷ []) (timer_execute wheel ((event 3, 5) ∷ []))
timer_execute-Executed_example =
    timer_execute-Executed wheel ((event 3, 5) ∷ []) wheel-Ready.placed (omega arith)

timer_update-Updated_example :
    Updated wheel [] ((event 3, 5) ∷ []) (timer_update wheel [] ((event 3, 5) ∷ []))
timer_update-Updated_example =
    timer_update-Updated wheel [] ((event 3, 5) ∷ []) wheel-Ready.placed tt (omega arith)

updates-Ran_example : Ran wheel 4 (updates 4 wheel)
updates-Ran_example = updates-Ran 4 wheel wheel-Ready

timeout_exact_example :
    count is_first (updates 4 (timer_add quiet (event 1) 3)).0
    ≡ total (within (quiet.time) 4 is_first) quiet
      + (if is_first (record { expire = 512; event = event 1 }) && ltb 3 5 then 1 else 0)
unfolding skynet_timer_init
timeout_exact_example =
    timeout_exact quiet (event 1) 3 quiet-Ready (omega arith, omega arith) 4 is_first
