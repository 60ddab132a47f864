-- ===== src/Schedule.antt =====
-- The scheduler of vamos: `Scheduler` of amitools/vamos/schedule/scheduler.py, with `TaskBase` of
-- task.py. A task is a number, and `tasks` is the store of the task objects. The greenlets are
-- explicit: one of them runs, the main loop or a task, and a task that has switched to the main
-- greenlet has a place where it goes on. What a task does between two calls is an `Action`. Tasks are
-- added from the main greenlet, to which control returns when a task ends.
pub mod Invariant
pub mod Moves
pub mod Signals
pub mod Fairness
mod Tests
use amitools.Prelude.{
  ℕ, zero, suc, ◌+◌, Bool, true, false, Option, none, some, List, [], ◌∷◌, ◌++◌, ◌==◌, ◌&&◌, ◌||◌,
  not, if◌then◌else◌, length,
}
use amitools.Prelude.Bits.{and_not}
use amitools.Prelude.Int.{ℤ, pos, ◌+ℤ◌, ◌-ℤ◌, ltb_ℤ, eqb_ℤ}
use Prim.Native.Nat.{bit_and, bit_or}

pub data TaskState : Type 0 where
  invalid added run ready wait except removed : TaskState

-- Where the greenlet of a task goes on when it is switched to.
pub data Place : Type 0 where
  begin here over : Place
  in_wait : ℕ → Place

pub record Task : Type 0 where
  pub state : TaskState
  pub forbid_cnt : ℤ
  pub forbid_reschedule : Bool
  pub sigmask_wait : ℕ
  pub sigmask_received : ℕ
  pub in_run : Bool
  pub cpu_ctx : ℕ
  pub place : Place

pub data EventType : Type 0 where
  active_task waiting_task task_added task_removed task_woken task_ready : EventType

-- `cpu` is the context of the machine's CPU, and `events` what the hooks were called with.
pub record Scheduler : Type 0 where
  pub tasks : ℕ → Task
  pub ready_tasks : List ℕ
  pub waiting_tasks : List ℕ
  pub cur_task : Option ℕ
  pub num_switch_same : ℕ
  pub num_switch_other : ℕ
  pub running : Bool
  pub hooked : Bool
  pub events : List (EventType × Option ℕ)
  pub cpu : ℕ

abbrev pub put : ℕ → Task → Scheduler → Scheduler
put t task s = record s { tasks = λ u. if u == t then task else s.tasks u }

abbrev pub set_state : ℕ → TaskState → Scheduler → Scheduler
set_state t st s = put t (record (s.tasks t) { state = st }) s

abbrev pub set_place : ℕ → Place → Scheduler → Scheduler
set_place t p s = put t (record (s.tasks t) { place = p }) s

abbrev pub report_event : EventType → Option ℕ → Scheduler → Scheduler
report_event e t s = record s { events = if s.hooked then s.events ++ (e, t) ∷ [] else s.events }

abbrev pub is_forbidden : Task → Bool
is_forbidden task = ltb_ℤ (pos 0) task.forbid_cnt

abbrev pub elem : ℕ → List ℕ → Bool
elem t [] = false
elem t (u ∷ us) = u == t || elem t us

-- `list.remove`, where the list has the task.
abbrev pub without : ℕ → List ℕ → List ℕ
without t [] = []
without t (u ∷ us) = if u == t then us else u ∷ without t us

abbrev pub is_cur : ℕ → Option ℕ → Bool
is_cur t none = false
is_cur t (some u) = u == t

pub get_num_tasks : Scheduler → ℕ
get_num_tasks s =
    let sum = length s.ready_tasks + length s.waiting_tasks in
    elim s.cur_task [ none ↦ sum | some t ↦ sum + 1 ]

-- `wait_task`, up to its call of `reschedule`.
pub wait_task : ℕ → Scheduler → Scheduler
wait_task t s =
    report_event waiting_task (some t)
      (set_state t wait (record s { waiting_tasks = s.waiting_tasks ++ t ∷ [] }))

-- `wake_up_task` of a waiting task, up to its call of `reschedule`.
abbrev pub woken : ℕ → Scheduler → Scheduler
woken t s = report_event task_woken (some t) (
    set_state t ready
      (record s { waiting_tasks = without t s.waiting_tasks; ready_tasks = t ∷ s.ready_tasks }))

-- `none` is the `ValueError` of `list.remove`.
pub wake_up_task : ℕ → Scheduler → Option Scheduler
wake_up_task t s = if elem t s.waiting_tasks then some (woken t s) else none

pub add_task : ℕ → Scheduler → Scheduler
add_task t s =
    let s₁ = set_state t added (record s { ready_tasks = s.ready_tasks ++ t ∷ [] }) in
    let s₂ = set_place t begin s₁ in if s.running then report_event task_added (some t) s₂ else s₂

-- `terminate_task` behind the search: the task is removed.
abbrev removed_task : ℕ → Scheduler → Scheduler
removed_task t s =
    let s₁ = set_state t removed s in
    if s.running then report_event task_removed (some t) s₁ else s₁

pub terminate_task : ℕ → Scheduler → Bool × Scheduler
terminate_task t s =
    if is_cur t s.cur_task
    then (true, removed_task t (record s { cur_task = none }))
    else if elem t s.ready_tasks
    then (true, removed_task t (record s { ready_tasks = without t s.ready_tasks }))
    else if elem t s.waiting_tasks
    then (true, removed_task t (record s { waiting_tasks = without t s.waiting_tasks }))
    else (false, s)

abbrev can_run : TaskState → Bool
can_run ready = true
can_run run = true
can_run _ = false

-- The task to run, if there is one; the outer `none` is an `AttributeError`, where the name of a
-- current task is asked for and there is none.
pub find_run_task : Scheduler → Option (Option ℕ × Scheduler)
find_run_task s = elim s.ready_tasks [
  | t ∷ ts ↦ some (some t, record s { ready_tasks = ts })
  | [] ↦ elim s.cur_task [
    | none ↦ none
    | some t ↦ some (if can_run (s.tasks t).state then some t else none, s)
  ]
]

abbrev is_run : TaskState → Bool
is_run run = true
is_run _ = false

abbrev save_ctx : ℕ → Scheduler → Scheduler
save_ctx t s = if (s.tasks t).in_run then put t (record (s.tasks t) { cpu_ctx = s.cpu }) s else s

abbrev restore_ctx : ℕ → Scheduler → Scheduler
restore_ctx t s = if (s.tasks t).in_run then record s { cpu = (s.tasks t).cpu_ctx } else s

-- "switch out old"
pub switch_out : Option ℕ → Scheduler → Scheduler
switch_out none s = s
switch_out (some t) s = save_ctx t (
    if is_run (s.tasks t).state
    then report_event task_ready (some t)
        (record (set_state t ready s) { ready_tasks = s.ready_tasks ++ t ∷ [] })
    else s)

abbrev make_current : Option ℕ → Scheduler → Scheduler
make_current t s = report_event active_task t (record s { cur_task = t })

-- "switch in new"
pub switch_in : ℕ → Scheduler → Scheduler
switch_in t s = restore_ctx t (set_state t run (make_current (some t) s))

-- `keep_scheduled` of the task
abbrev keep_scheduled : ℕ → Scheduler → Scheduler
keep_scheduled t s =
    if is_forbidden (s.tasks t)
    then put t (record (s.tasks t) { forbid_reschedule = true }) s
    else s

pub run_task : ℕ → Scheduler → Scheduler
run_task t s =
    if is_cur t s.cur_task
    then keep_scheduled t (record s { num_switch_same = s.num_switch_same + 1 })
    else switch_in t
        (switch_out s.cur_task (record s { num_switch_other = s.num_switch_other + 1 }))

-- What a round of the main loop comes to.
pub data Round : Type 0 where
  switch : ℕ → Scheduler → Round
  done : Scheduler → Round
  no_task : Scheduler → Round
  attribute_error : Round

-- The task that keeps the machine, in forbid state.
abbrev forbidding : Scheduler → Option ℕ
forbidding s = elim s.cur_task [
  | none ↦ none
  | some t ↦ if is_forbidden (s.tasks t) then some t else none
]

abbrev pick : Scheduler → Option (Option ℕ × Scheduler)
pick s = elim (forbidding s) [ some t ↦ some (some t, s) | none ↦ find_run_task s ]

-- A round of the main loop, up to `task.switch()`.
pub iterate : Scheduler → Round
unfolding find_run_task
iterate s =
    if get_num_tasks s == 0
    then done (record (make_current none s) { running = false })
    else (elim (pick s) [
      | none ↦ attribute_error
      | some (found, s') ↦ elim found [ none ↦ no_task s' | some t ↦ switch t (run_task t s') ]
    ])

abbrev report_added : List ℕ → Scheduler → Scheduler
report_added [] s = s
report_added (t ∷ ts) s = report_added ts (report_event task_added (some t) s)

-- `schedule` before its loop; `none` is its `RuntimeError`.
pub start : Scheduler → Option Scheduler
start s = elim s.ready_tasks [
  | [] ↦ none
  | t ∷ ts ↦ some (report_added s.ready_tasks (record s { running = true }))
]

-- The main loop and the greenlets. `active` is the task whose greenlet runs, or none for the main
-- one, and `got` is what the last `wait` to return has returned.
pub record System : Type 0 where
  pub sched : Scheduler
  pub active : Option ℕ
  pub got : ℕ

pub data Action : Type 0 where
  loop reschedule forbid permit exit : Action
  compute : ℕ → Action
  run_code : Bool → Action
  wait_for : ℕ → Action
  set_signal : ℕ → ℕ → ℕ → Action

-- The task gives up the machine and is to go on at `p`.
abbrev leave : ℕ → Place → Scheduler → System → System
leave t p s y = record y { sched = set_place t p s; active = none }

abbrev stay : Scheduler → System → System
stay s y = record y { sched = s }

-- `task.switch()`: the greenlet goes on, in `wait` behind its call of the scheduler.
pub resume : ℕ → Scheduler → System → System
resume t s y = elim (s.tasks t).place [
  | in_wait mask ↦ record y {
    sched = put t (record (s.tasks t) { sigmask_wait = 0; place = here }) s;
    active = some t;
    got = bit_and (s.tasks t).sigmask_received mask;
  }
  | _ ↦ record y { sched = set_place t here s; active = some t }
]

-- `TaskBase.permit`
pub permit_task : ℕ → System → System
permit_task t y =
    let task = y.sched.tasks t in
    let cnt = task.forbid_cnt -ℤ pos 1 in
    if eqb_ℤ cnt (pos 0) && task.forbid_reschedule
    then leave t here (put t (record task { forbid_cnt = cnt; forbid_reschedule = false }) y.sched)
        y
    else stay (put t (record task { forbid_cnt = cnt }) y.sched) y

-- `TaskBase.wait`
pub wait_signal : ℕ → ℕ → System → System
unfolding wait_task
wait_signal t mask y =
    let task = y.sched.tasks t in
    let got_mask = bit_and task.sigmask_received mask in
    if got_mask == 0
    then leave t (in_wait mask) (wait_task t (put t (record task { sigmask_wait = mask }) y.sched))
        y
    else record y { got = got_mask }

-- `TaskBase.set_signal` of the task `u`, called by the task `t`.
pub signal : ℕ → ℕ → ℕ → ℕ → System → Option System
signal t u new mask y =
    let task = y.sched.tasks u in
    let received = bit_or new (and_not task.sigmask_received mask) in
    let s = put u (record task { sigmask_received = received }) y.sched in
    if task.sigmask_wait == 0 || bit_and received task.sigmask_wait == 0
    then some (stay s y)
    else (elim (wake_up_task u s) [ none ↦ none | some s' ↦ some (leave t here s' y) ])

-- `terminate_task` at the end of `start`, and the end of the greenlet.
pub exit_task : ℕ → System → System
unfolding terminate_task
exit_task t y = leave t over (terminate_task t y.sched).1 y

-- An action of the task that runs.
pub act : Action → ℕ → System → Option System
unfolding permit_task wait_signal signal exit_task
act loop t y = none
act reschedule t y = some (leave t here y.sched y)
act forbid t y =
    let task = y.sched.tasks t in
    some (stay (put t (record task { forbid_cnt = task.forbid_cnt +ℤ pos 1 }) y.sched) y)
act permit t y = some (permit_task t y)
act exit t y = some (exit_task t y)
act (compute cpu) t y = some (stay (record y.sched { cpu = cpu }) y)
act (run_code b) t y = some (stay (put t (record (y.sched.tasks t) { in_run = b }) y.sched) y)
act (wait_for mask) t y = some (wait_signal t mask y)
act (set_signal u new mask) t y = signal t u new mask y

-- One step: a round of the main loop, or an action of the task that runs. `none` is an action of
-- another greenlet, the end of the loop, or an error.
pub exec : Action → System → Option System
unfolding act
exec a y = elim y.active [
  | some t ↦ act a t y
  | none ↦ elim a [
    | loop ↦ elim (iterate y.sched) [ switch t s ↦ some (resume t s y) | _ ↦ none ]
    | _ ↦ none
  ]
]

-- A run of the system.
pub exec_all : List Action → System → Option System
exec_all [] y = some y
exec_all (a ∷ rest) y = elim (exec a y) [ none ↦ none | some y' ↦ exec_all rest y' ]
