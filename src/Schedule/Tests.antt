-- ===== src/Schedule/Tests.antt =====
-- Two tasks, one of which waits, and three that are ready; each theorem at an input that meets its
-- hypotheses.
use amitools.Prelude.{
  ℕ, ◌≡◌, ◌≢◌, refl, true, false, Option, none, some, List, [], ◌∷◌, arith, ◌==◌, if◌then◌else◌,
}
use amitools.Prelude.Int.{ℤ, pos, ◌+ℤ◌, ◌-ℤ◌}
use amitools.Schedule.{
  TaskState, Place, Task, Scheduler, System, Action, invalid, added, run, wait, begin, here,
  in_wait, loop, exit, wait_for, set_signal, reschedule, elem, iterate, attribute_error, exec,
  exec_all, forbid, permit, get_num_tasks, run_task, switch_out, switch_in, resume, start,
}
use amitools.Schedule.Invariant.{IsValid}
use amitools.Schedule.Moves.{AllAllowed, exec_all-IsValid}
use amitools.Schedule.Signals.{signal-delivers, signal-twice, wait-forbidden, exit-waiting}
use amitools.Schedule.Fairness.{AllFree, turns-runs}

abbrev task : TaskState → Place → ℕ → ℤ → Task
task state place mask forbids = record {
  state = state;
  forbid_cnt = forbids;
  forbid_reschedule = false;
  sigmask_wait = mask;
  sigmask_received = 0;
  in_run = false;
  cpu_ctx = 0;
  place = place;
}

abbrev scheduler : (ℕ → Task) → List ℕ → List ℕ → Option ℕ → Scheduler
scheduler tasks ready_list waiting_list cur = record {
  tasks = tasks;
  ready_tasks = ready_list;
  waiting_tasks = waiting_list;
  cur_task = cur;
  num_switch_same = 0;
  num_switch_other = 0;
  running = true;
  hooked = true;
  events = [];
  cpu = 0;
}

-- Task 1 runs, and task 2 waits for signal 4.
abbrev pair_of : ℤ → ℕ → Task
pair_of forbids t =
    if t == 1
    then task run here 0 forbids
    else if t == 2
    then task wait (in_wait 4) 4 (pos 0)
    else task invalid begin 0 (pos 0)

abbrev pair : ℤ → System
pair forbids = record {
  sched = scheduler (pair_of forbids) [] (2 ∷ []) (some 1);
  active = some 1;
  got = 0;
}

pair-IsValid : (forbids : ℤ) → IsValid (pair forbids)
pair-IsValid forbids = record {
  placed = λ t. ground arith;
  waits = λ t. ground arith;
  runs = (refl, refl);
}

-- Three tasks that were just added.
abbrev three_of : ℕ → Task
three_of t =
    if t == 1
    then task added begin 0 (pos 0)
    else if t == 2
    then task added begin 0 (pos 0)
    else if t == 3
    then task added begin 0 (pos 0)
    else task invalid begin 0 (pos 0)

abbrev three : System
three = record { sched = scheduler three_of (1 ∷ 2 ∷ 3 ∷ []) [] none; active = none; got = 0 }

three-IsValid : IsValid three
three-IsValid = record { placed = λ t. ground arith; waits = λ t. ground arith; runs = tt }

three-AllFree : AllFree three.sched
three-AllFree t = ground arith

starts : (s : Scheduler) × (start three.sched ≡ some s)
unfolding start
starts = (_, refl)

-- The first of them runs, forbids switching, and allows it again.
abbrev steps : List Action
steps = loop ∷ forbid ∷ permit ∷ reschedule ∷ loop ∷ []

abbrev after : System
after = elim (exec_all steps three) [ none ↦ three | some y ↦ y ]

steps_run : exec_all steps three ≡ some after
unfolding exec_all exec iterate get_num_tasks run_task switch_out switch_in resume ◌+ℤ◌ ◌-ℤ◌
steps_run = refl

steps_allowed : AllAllowed steps three
unfolding exec_all exec iterate get_num_tasks run_task switch_out switch_in resume ◌+ℤ◌ ◌-ℤ◌
steps_allowed = (tt, (tt, (tt, (tt, (tt, tt)))))

exec_all-IsValid_example : IsValid after
exec_all-IsValid_example = exec_all-IsValid steps three after three-IsValid steps_allowed steps_run

turns-runs_example :
    (y' : System) × (exec_all (loop ∷ reschedule ∷ loop ∷ []) three ≡ some y')
    × (y'.active ≡ some 2)
turns-runs_example = turns-runs (1 ∷ []) 2 (3 ∷ []) three three-IsValid refl three-AllFree refl

signal-delivers_example :
    (y' : System) × (exec_all (set_signal 2 6 6 ∷ loop ∷ []) (pair (pos 0)) ≡ some y')
    × (y'.active ≡ some 2)
    × (y'.got ≡ 4)
    × (y'.got ≢ 0)
signal-delivers_example =
    signal-delivers (pair (pos 0)) 1 2 6 6 (pair-IsValid (pos 0)) refl refl refl
      (omega arith, omega arith)

signal-twice_example :
    (y' : System) × (exec_all (set_signal 2 4 4 ∷ loop ∷ []) (pair (pos 1)) ≡ some y')
    × (y'.active ≡ some 1)
    × (exec (set_signal 2 4 4) y' ≡ none)
signal-twice_example =
    signal-twice (pair (pos 1)) 1 2 4 4 4 4 (pair-IsValid (pos 1)) refl refl refl
      (omega arith, omega arith) (omega arith, omega arith)

wait-forbidden_example :
    (y' : System) × (exec_all (wait_for 8 ∷ loop ∷ []) (pair (pos 1)) ≡ some y')
    × (y'.active ≡ some 1)
    × (y'.got ≡ 0)
    × (y'.sched.cur_task ≡ some 1)
    × (elem 1 y'.sched.waiting_tasks ≡ true)
wait-forbidden_example = wait-forbidden (pair (pos 1)) 1 8 (pair-IsValid (pos 1)) refl refl refl

exit-waiting_example :
    (y' : System) × (exec exit (pair (pos 0)) ≡ some y') × (iterate y'.sched ≡ attribute_error)
exit-waiting_example = exit-waiting (pair (pos 0)) 1 (pair-IsValid (pos 0)) refl refl (λ e. cc)
