-- ===== src/Timer.antt =====
-- skynet-src/skynet_timer.c: a timing wheel of 256 near slots and four levels of 64 slots.
--
-- A slot is the list of its nodes in the order of their links. Fixed arrays are functions of the
-- index. `uint32_t` arithmetic wraps; the clock that `gettime` reads is an argument.
pub mod Levels
pub mod Place
pub mod Count
pub mod Shift
pub mod Update
pub mod Exact
pub mod Timeout
mod Tests
use ctkjserver.Base.{
  ℕ, zero, suc, ◌+◌, ◌-◌, ◌*◌, ◌/◌, ◌%◌, ◌^◌, bit_and, bit_or, List, [], ◌∷◌, ◌++◌, ltb, ◌==◌,
  if◌then◌else◌, u32, u64,
}
use ctkjserver.Base.Arrays.{update}
use ctkjserver.Base.Int.{ℤ, pos, negsuc}
use ctkjserver.Mq.{Message}

-- `struct timer_event`
pub record TimerEvent : Type 0 where
  pub handle : ℕ
  pub session : ℕ

-- `struct timer_node` with the event behind it
pub record TimerNode : Type 0 where
  pub expire : ℕ
  pub event : TimerEvent

-- `struct timer`
pub record Timer : Type 0 where
  pub near : ℕ → List TimerNode
  pub t : ℕ → ℕ → List TimerNode
  pub time : ℕ
  pub starttime : ℕ
  pub current : ℕ
  pub current_point : ℕ

abbrev pub time_near : ℕ
time_near = 2 ^ 8

abbrev pub time_level : ℕ
time_level = 2 ^ 6

abbrev pub time_near_mask : ℕ
time_near_mask = time_near - 1

abbrev pub time_level_mask : ℕ
time_level_mask = time_level - 1

-- `link` on a slot of each array
abbrev pub link_near : Timer → ℕ → TimerNode → Timer
link_near T i node = record T { near = update T.near i (T.near i ++ (node ∷ [])) }

abbrev pub link_level : Timer → ℕ → ℕ → TimerNode → Timer
link_level T i j node = record T { t = update T.t i (update (T.t i) j (T.t i j ++ (node ∷ []))) }

-- The loop over `i` in `add_node`, with the rounds left.
pub find_level : ℕ → ℕ → ℕ → ℕ → ℕ → ℕ
find_level zero i mask time current_time = i
find_level (suc left) i mask time current_time =
    let next = find_level left (i + 1) (u32 (mask * 2 ^ 6)) time current_time in
    if bit_or time (mask - 1) == bit_or current_time (mask - 1) then i else next

-- `add_node`
pub add_node : Timer → TimerNode → Timer
add_node T node =
    let i = find_level 3 0 (time_near * 2 ^ 6) node.expire T.time in
    if bit_or node.expire time_near_mask == bit_or T.time time_near_mask
    then link_near T (bit_and node.expire time_near_mask) node
    else link_level T i (bit_and (node.expire / 2 ^ (8 + i * 6)) time_level_mask) node

-- `timer_add`; `time` is positive.
pub timer_add : Timer → TimerEvent → ℕ → Timer
timer_add T event time = add_node T (record { expire = u32 (time + T.time); event = event })

-- The loop of `move_list`
pub add_nodes : Timer → List TimerNode → Timer
add_nodes T [] = T
add_nodes T (node ∷ rest) = add_nodes (add_node T node) rest

abbrev pub clear_level : Timer → ℕ → ℕ → Timer
clear_level T level idx = record T { t = update T.t level (update (T.t level) idx []) }

-- `move_list`
pub move_list : Timer → ℕ → ℕ → Timer
unfolding add_nodes
move_list T level idx = add_nodes (clear_level T level idx) (T.t level idx)

-- The loop of `timer_shift`, with fuel for the four levels.
pub shift_loop : ℕ → Timer → ℕ → ℕ → ℕ → ℕ → Timer
shift_loop zero T ct mask time i = T
shift_loop (suc f) T ct mask time i =
    let idx = bit_and time time_level_mask in
    let next = shift_loop f T ct (mask * 2 ^ 6) (time / 2 ^ 6) (i + 1) in
    if bit_and ct (mask - 1) == 0 then (if idx == 0 then next else move_list T i idx) else T

-- `timer_shift`
pub timer_shift : Timer → Timer
unfolding shift_loop move_list
timer_shift T =
    let ct = u32 (T.time + 1) in
    let T' : Timer = record T { time = ct } in
    if ct == 0 then move_list T' 3 0 else shift_loop 4 T' ct time_near (ct / 2 ^ 8) 0

-- A call of `skynet_timeout` by another thread.
abbrev pub Request : Type 0
Request = TimerEvent × ℕ

pub add_requests : Timer → List Request → Timer
unfolding timer_add
add_requests T [] = T
add_requests T ((event, time) ∷ rest) = add_requests (timer_add T event time) rest

-- `while (T->near[idx].head.next)`: the list of the slot, the wheel, and what the rest of the loop
-- gives after the slot is dispatched.
abbrev pub slot_round : List TimerNode → Timer → List TimerNode × Timer → List TimerNode × Timer
slot_round [] T rest = ([], T)
slot_round (node ∷ nodes) T rest = ((node ∷ nodes) ++ rest.0, rest.1)

-- The loop of `timer_execute`: the nodes given to `dispatch_list`, in order. A round clears the slot
-- and gives the lock up, and other threads add `requests`.
pub execute_loop : ℕ → Timer → List Request → List TimerNode × Timer
unfolding add_requests
execute_loop zero T requests = ([], T)
execute_loop (suc f) T requests =
    let idx = bit_and T.time time_near_mask in
    let cleared : Timer = record T { near = update T.near idx [] } in
    let rest = execute_loop f (add_requests cleared requests) [] in slot_round (T.near idx) T rest

-- `timer_execute`
abbrev pub timer_execute : Timer → List Request → List TimerNode × Timer
timer_execute T requests = execute_loop 2 T requests

-- `timer_update`, with the requests that other threads make in its two calls of `timer_execute`.
pub timer_update : Timer → List Request → List Request → List TimerNode × Timer
unfolding execute_loop timer_shift
timer_update T before after =
    let first = timer_execute T before in
    let second = timer_execute (timer_shift first.1) after in (first.0 ++ second.0, second.1)

-- The message that `dispatch_list` and `skynet_timeout` push, with its receiver.
pub timeout_message : TimerEvent → ℕ × Message
timeout_message event =
    (event.handle, record { source = 0; session = event.session; body = 0; sz = 1 * 2 ^ 56 })

-- `skynet_timeout`: a message to push at once, or a timer.
pub skynet_timeout : Timer → ℕ → ℤ → ℕ → List (ℕ × Message) × Timer
unfolding timer_add
skynet_timeout T handle (pos zero) session =
    (timeout_message (record { handle = handle; session = session }) ∷ [], T)
skynet_timeout T handle (negsuc n) session =
    (timeout_message (record { handle = handle; session = session }) ∷ [], T)
skynet_timeout T handle (pos (suc n)) session =
    ([], timer_add T (record { handle = handle; session = session }) (suc n))

-- The loop of `skynet_updatetime`, while no other thread makes a request.
pub updates : ℕ → Timer → List TimerNode × Timer
unfolding timer_update
updates zero T = ([], T)
updates (suc n) T =
    let now = timer_update T [] [] in let rest = updates n now.1 in (now.0 ++ rest.0, rest.1)

-- `skynet_updatetime` at the clock's `cp`
pub skynet_updatetime : Timer → ℕ → List TimerNode × Timer
unfolding updates
skynet_updatetime T cp =
    let diff = u32 (cp - T.current_point) in
    if ltb cp T.current_point
    then ([], record T { current_point = cp })
    else (if cp == T.current_point
        then ([], T)
        else updates diff (record T { current_point = cp; current = u64 (T.current + diff) }))

-- `timer_create_timer` and `skynet_timer_init`: the slots are empty.
pub skynet_timer_init : ℕ → ℕ → ℕ → Timer
skynet_timer_init seconds centiseconds cp = record {
  near = λ _. [];
  t = λ _ _. [];
  time = 0;
  starttime = seconds;
  current = centiseconds;
  current_point = cp;
}
