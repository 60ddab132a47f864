-- ===== src/Schedule/Signals.antt =====
-- What a signal does to a task that waits for it, and what goes wrong in forbid state.
use amitools.Prelude.{
  ℕ, ◌≡◌, ◌≢◌, refl, ap, ◌∙◌, true, false, none, some, List, [], ◌∷◌, ◌++◌, arith,
}
use Prim.Native.Nat.{bit_and, bit_or}
use amitools.Prelude.Bits.{and_not}
use amitools.Schedule.{
  Task, Scheduler, System, Action, loop, exit, wait_for, set_signal, run, wait, here, in_wait, put,
  set_place, leave, elem, without, is_forbidden, get_num_tasks, wait_task, wake_up_task, woken,
  switch_in, switch_out, run_task, switch, attribute_error, iterate, resume, wait_signal, signal,
  exit_task, exec, exec_all,
}
use amitools.Schedule.Invariant.{times-without, times-append, elem-times, IsValid}
use amitools.Schedule.Moves.{marked}

-- The first of the ready tasks is switched to, unless the current one forbids it.
pub iterate-ready :
    (s : Scheduler) (t u : ℕ) (ts : List ℕ)
    → s.cur_task ≡ some t
    → is_forbidden (s.tasks t) ≡ false
    → s.ready_tasks ≡ u ∷ ts
    → iterate s ≡ switch u (run_task u (record s { ready_tasks = ts }))
unfolding iterate get_num_tasks
iterate-ready s t u ts c f r = ground arith

iterate-forbidden :
    (s : Scheduler) (t : ℕ)
    → s.cur_task ≡ some t
    → is_forbidden (s.tasks t) ≡ true
    → iterate s ≡ switch t (run_task t s)
unfolding iterate get_num_tasks
iterate-forbidden s t c f = ground arith

-- A switch leaves what the task has received, and where it goes on.
run_task-task :
    (s : Scheduler) (t u : ℕ)
    → s.cur_task ≡ some t
    → u ≢ t
    → (((run_task u s).tasks u).place ≡ (s.tasks u).place)
      × (((run_task u s).tasks u).sigmask_received ≡ (s.tasks u).sigmask_received)
unfolding run_task switch_out switch_in
run_task-task s t u c h = ground arith

-- The signals that `set_signal` leaves.
abbrev pub received : ℕ → ℕ → Task → ℕ
received new mask task = bit_or new (and_not task.sigmask_received mask)

-- Some of the signals that the task waits for are among them.
abbrev pub Matches : ℕ → ℕ → Task → Type 0
Matches new mask task =
    (task.sigmask_wait ≢ 0) × (bit_and (received new mask task) task.sigmask_wait ≢ 0)

module _ (y : System) (v : IsValid y) (t u : ℕ) (a : y.active ≡ some t)
    (w : (y.sched.tasks u).state ≡ wait) where
  runs : (y.sched.cur_task ≡ some t) × ((y.sched.tasks t).state ≡ run)
  runs = rw a at v.runs

  other : u ≢ t
  other = ground (arith, runs)

  listed : elem u y.sched.waiting_tasks ≡ true
  listed = ground (arith, v.placed u, elem-times u y.sched.waiting_tasks)

  place_of : (y.sched.tasks u).place ≡ in_wait (y.sched.tasks u).sigmask_wait
  place_of = ground (arith, v.waits u)

  module _ (new mask : ℕ) where
    s₁ : Scheduler
    s₁ = set_place t here (woken u (marked u new mask y.sched))

    wakes : wake_up_task u (marked u new mask y.sched) ≡ some (woken u (marked u new mask y.sched))
    unfolding wake_up_task
    wakes = ground (arith, listed)

    s₁-tasks :
        (s₁.cur_task ≡ some t)
        × (s₁.ready_tasks ≡ u ∷ y.sched.ready_tasks)
        × (is_forbidden (s₁.tasks t) ≡ is_forbidden (y.sched.tasks t))
    unfolding s₁
    s₁-tasks = ground (arith, runs, other)

    s₁-task :
        ((s₁.tasks u).place ≡ in_wait (y.sched.tasks u).sigmask_wait)
        × ((s₁.tasks u).sigmask_received ≡ received new mask (y.sched.tasks u))
        × ((s₁.tasks u).sigmask_wait ≡ (y.sched.tasks u).sigmask_wait)
    unfolding s₁
    s₁-task = ground (arith, place_of, other)

    signalled :
        Matches new mask (y.sched.tasks u)
        → exec (set_signal u new mask) y ≡ some (record y { sched = s₁; active = none })
    unfolding exec signal s₁
    signalled h = ground (arith, wakes)

    -- The place of a task and its signals survive the switch.
    delivered :
        is_forbidden (y.sched.tasks t) ≡ false
        → let s₂ = run_task u (record s₁ { ready_tasks = y.sched.ready_tasks }) in
          (iterate s₁ ≡ switch u s₂)
          × ((s₂.tasks u).place ≡ in_wait (y.sched.tasks u).sigmask_wait)
          × ((s₂.tasks u).sigmask_received ≡ received new mask (y.sched.tasks u))
    delivered f =
        let (p, q) =
          run_task-task (record s₁ { ready_tasks = y.sched.ready_tasks }) t u s₁-tasks.0 other in
        (
          iterate-ready s₁ t u y.sched.ready_tasks s₁-tasks.0 (s₁-tasks.2 ∙ f) s₁-tasks.1,
          p ∙ s₁-task.0,
          q ∙ s₁-task.1,
        )

resume_lem :
    (t mask : ℕ) (s : Scheduler) (y : System)
    → (s.tasks t).place ≡ in_wait mask
    → ((resume t s y).active ≡ some t)
      × ((resume t s y).got ≡ bit_and (s.tasks t).sigmask_received mask)
unfolding resume
resume_lem t mask s y e = rw (e, resume) (refl, refl)

pub exec-loop :
    (y : System) (t : ℕ) (s : Scheduler)
    → y.active ≡ none
    → iterate y.sched ≡ switch t s
    → exec loop y ≡ some (resume t s y)
unfolding exec
exec-loop y t s c e = ground arith

exec_all-two :
    (a b : Action) (y y₁ y₂ : System)
    → exec a y ≡ some y₁
    → exec b y₁ ≡ some y₂
    → exec_all (a ∷ b ∷ []) y ≡ some y₂
unfolding exec_all
exec_all-two a b y y₁ y₂ e f = rw (e, f, exec_all) refl

-- A task that is not in forbid state sends a waiting task a signal that this waits for. The next round
-- of the main loop runs that task: its `wait` returns just those of its signals it has waited for, and
-- there is one.
pub signal-delivers :
    (y : System) (t u new mask : ℕ)
    → IsValid y
    → y.active ≡ some t
    → is_forbidden (y.sched.tasks t) ≡ false
    → (y.sched.tasks u).state ≡ wait
    → Matches new mask (y.sched.tasks u)
    → (y' : System) × (exec_all (set_signal u new mask ∷ loop ∷ []) y ≡ some y')
      × (y'.active ≡ some u)
      × (y'.got ≡ bit_and (received new mask (y.sched.tasks u)) (y.sched.tasks u).sigmask_wait)
      × (y'.got ≢ 0)
signal-delivers y t u new mask v a f w h =
    let s = s₁ y v t u a w new mask in
    let (i, p, q) = delivered y v t u a w new mask f in
    let y₁ = record y { sched = s; active = none } in
    let s₂ = run_task u (record s { ready_tasks = y.sched.ready_tasks }) in
    let (b, c) = resume_lem u (y.sched.tasks u).sigmask_wait s₂ y₁ p in
    let g : (resume u s₂ y₁).got
        ≡ bit_and (received new mask (y.sched.tasks u)) (y.sched.tasks u).sigmask_wait =
      c ∙ ap (λ (k : ℕ). bit_and k (y.sched.tasks u).sigmask_wait) q in
    (
      resume u s₂ y₁,
      exec_all-two _ _ y y₁ _ (signalled y v t u a w new mask h) (exec-loop y₁ u s₂ refl i),
      b,
      g,
      rw g h.1,
    )

signal_again :
    (y : System) (t u : ℕ)
    → elem u y.sched.waiting_tasks ≡ false
    → y.active ≡ some t
    → (new mask : ℕ) → Matches new mask (y.sched.tasks u)
    → exec (set_signal u new mask) y ≡ none
unfolding exec signal wake_up_task
signal_again y t u n a new mask m = ground arith

kept :
    (s : Scheduler) (t u : ℕ) (y : System)
    → s.cur_task ≡ some t
    → u ≢ t
    → (s.tasks t).place ≡ here
    → let z = resume t (run_task t s) y in
      (z.active ≡ some t)
      × (z.sched.waiting_tasks ≡ s.waiting_tasks)
      × (z.sched.tasks u ≡ s.tasks u)
unfolding resume run_task
kept s t u y c h p = ground arith

s₁-place :
    (y : System) (v : IsValid y) (t u : ℕ) (a : y.active ≡ some t)
    (w : (y.sched.tasks u).state ≡ wait) (new mask : ℕ)
    → let s = s₁ y v t u a w new mask in
      ((s.tasks t).place ≡ here) × (elem u s.waiting_tasks ≡ false)
unfolding s₁
s₁-place y v t u a w new mask = ground (
  arith,
  v.placed u,
  times-without u u y.sched.waiting_tasks,
  elem-times u (without u y.sched.waiting_tasks),
  elem-times u y.sched.waiting_tasks,
)

-- A task in forbid state that sends a waiting task two signals it waits for keeps the machine, and the
-- second call raises: the task is ready already, and not found in the list of the waiting ones.
pub signal-twice :
    (y : System) (t u new mask new' mask' : ℕ)
    → IsValid y
    → y.active ≡ some t
    → is_forbidden (y.sched.tasks t) ≡ true
    → (y.sched.tasks u).state ≡ wait
    → Matches new mask (y.sched.tasks u)
    → Matches new' mask'
        (record (y.sched.tasks u) { sigmask_received = received new mask (y.sched.tasks u) })
    → (y' : System) × (exec_all (set_signal u new mask ∷ loop ∷ []) y ≡ some y')
      × (y'.active ≡ some t)
      × (exec (set_signal u new' mask') y' ≡ none)
signal-twice y t u new mask new' mask' v a f w h k =
    let s = s₁ y v t u a w new mask in
    let y₁ = record y { sched = s; active = none } in
    let (c, r, g) = s₁-tasks y v t u a w new mask in
    let (p, m) = s₁-place y v t u a w new mask in
    let (b, l, e) = kept s t u y₁ c (other y v t u a w) p in
    let (x, q, z) = s₁-task y v t u a w new mask in
    (
      resume t (run_task t s) y₁,
      exec_all-two _ _ y y₁ _ (signalled y v t u a w new mask h)
          (exec-loop y₁ t _ refl (iterate-forbidden s t c (g ∙ f))),
      b,
      signal_again _ t u (ap (elem u) l ∙ m) b new' mask' (rw (e, q, z) k),
    )

-- The system when a task has entered `wait`.
abbrev entered : ℕ → ℕ → System → System
entered t mask y =
    leave t (in_wait mask)
      (wait_task t (put t (record (y.sched.tasks t) { sigmask_wait = mask }) y.sched)) y

exec-wait_for :
    (y : System) (t mask : ℕ)
    → y.active ≡ some t
    → bit_and (y.sched.tasks t).sigmask_received mask ≡ 0
    → exec (wait_for mask) y ≡ some (entered t mask y)
unfolding exec wait_signal
exec-wait_for y t mask a e = ground arith

entered-task :
    (y : System) (t mask : ℕ)
    → let s = (entered t mask y).sched in
      (s.cur_task ≡ y.sched.cur_task)
      × (is_forbidden (s.tasks t) ≡ is_forbidden (y.sched.tasks t))
      × ((s.tasks t).place ≡ in_wait mask)
      × ((s.tasks t).sigmask_received ≡ (y.sched.tasks t).sigmask_received)
      × (elem t s.waiting_tasks ≡ true)
unfolding wait_task
entered-task y t mask =
    ground (
      arith,
      times-append t t y.sched.waiting_tasks,
      elem-times t (y.sched.waiting_tasks ++ t ∷ []),
    )

-- What a task that is kept finds when it goes on in `wait`.
kept_waiting :
    (s : Scheduler) (t mask : ℕ) (y : System)
    → s.cur_task ≡ some t
    → (s.tasks t).place ≡ in_wait mask
    → let z = resume t (run_task t s) y in
      (z.active ≡ some t)
      × (z.got ≡ bit_and (s.tasks t).sigmask_received mask)
      × (z.sched.cur_task ≡ some t)
      × (z.sched.waiting_tasks ≡ s.waiting_tasks)
unfolding resume run_task
kept_waiting s t mask y c p = ground arith

-- A task in forbid state that waits for signals of which it has none is not suspended: `wait` returns
-- none to it, and the current task is in the list of the waiting ones.
pub wait-forbidden :
    (y : System) (t mask : ℕ)
    → IsValid y
    → y.active ≡ some t
    → is_forbidden (y.sched.tasks t) ≡ true
    → bit_and (y.sched.tasks t).sigmask_received mask ≡ 0
    → (y' : System) × (exec_all (wait_for mask ∷ loop ∷ []) y ≡ some y')
      × (y'.active ≡ some t)
      × (y'.got ≡ 0)
      × (y'.sched.cur_task ≡ some t)
      × (elem t y'.sched.waiting_tasks ≡ true)
wait-forbidden y t mask v a f e =
    let z = entered t mask y in
    let (c, g, p, q, m) = entered-task y t mask in
    let cur : z.sched.cur_task ≡ some t = c ∙ (rw a at v.runs).0 in
    let (b, k, d, l) = kept_waiting z.sched t mask z cur p in
    (
      resume t (run_task t z.sched) z,
      exec_all-two _ _ y z _ (exec-wait_for y t mask a e)
          (exec-loop z t _ refl (iterate-forbidden z.sched t cur (g ∙ f))),
      b,
      k ∙ ap (λ (n : ℕ). bit_and n mask) q ∙ e,
      d,
      ap (elem t) l ∙ m,
    )

exec-exit : (y : System) (t : ℕ) → y.active ≡ some t → exec exit y ≡ some (exit_task t y)
unfolding exec
exec-exit y t a = ground arith

exited :
    (y : System) (t : ℕ)
    → y.sched.cur_task ≡ some t
    → ((exit_task t y).sched.cur_task ≡ none)
      × ((exit_task t y).sched.ready_tasks ≡ y.sched.ready_tasks)
      × ((exit_task t y).sched.waiting_tasks ≡ y.sched.waiting_tasks)
unfolding exit_task
exited y t c = ground arith

iterate-none :
    (s : Scheduler)
    → s.cur_task ≡ none
    → s.ready_tasks ≡ []
    → s.waiting_tasks ≢ []
    → iterate s ≡ attribute_error
unfolding iterate get_num_tasks
iterate-none s c r w = ground arith

-- Where the last task that does not wait ends, the main loop raises: it asks the current task, which
-- is none, for its name.
pub exit-waiting :
    (y : System) (t : ℕ)
    → IsValid y
    → y.active ≡ some t
    → y.sched.ready_tasks ≡ []
    → y.sched.waiting_tasks ≢ []
    → (y' : System) × (exec exit y ≡ some y') × (iterate y'.sched ≡ attribute_error)
exit-waiting y t v a r w =
    let (c, p, q) = exited y t (rw a at v.runs).0 in
    (exit_task t y, exec-exit y t a, iterate-none _ c (p ∙ r) (rw q w))
