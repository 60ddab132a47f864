-- ===== src/Schedule/Moves.antt =====
-- Every step keeps the invariant of the scheduler.
use amitools.Prelude.{
  ℕ, ◌+◌, ◌≡◌, ◌⊎◌, inl, inr, refl, sym, false, Option, none, some, List, [], ◌∷◌, ◌==◌, ◌||◌,
  arith, Bool-cases, Option-cases, ◌&&◌,
}
use amitools.Prelude.Bits.{and_not}
use amitools.Prelude.Int.{pos, ◌-ℤ◌, eqb_ℤ}
use mathlib.Core.Option.{some_inj, none-ne-some}
use Prim.Native.Nat.{bit_and, bit_or}
use amitools.Schedule.{
  Task, Scheduler, System, Action, is_cur, wait_task, wake_up_task, terminate_task, find_run_task,
  run_task, switch_in, switch_out, put, leave, Round, switch, done, no_task, attribute_error,
  iterate, resume, permit_task, wait_signal, signal, exit_task, act, exec, exec_all, forbidding,
  is_forbidden, run, loop, reschedule, forbid, permit, exit, compute, run_code, wait_for,
  set_signal, here,
}
use amitools.Schedule.Invariant.{
  times-append, times-without, elem-times, PlacedAt, Waits, Runs, IsValid, IsAllowed,
}

-- The task is taken from the head of the ready list, and there is no current one.
switch_in-PlacedAt :
    (s : Scheduler) (t u : ℕ)
    → ((w : ℕ) → PlacedAt w (record s { cur_task = none; ready_tasks = t ∷ s.ready_tasks }))
    → PlacedAt u (switch_in t s)
unfolding switch_in
switch_in-PlacedAt s t u h = ground (arith, h u, h t)

module _ (s : Scheduler) (placed : (t : ℕ) → PlacedAt t s) where
  wait_task-PlacedAt :
      (t u mask : ℕ)
      → (s.tasks t).state ≡ run
      → PlacedAt u (wait_task t (put t (record (s.tasks t) { sigmask_wait = mask }) s))
  unfolding wait_task
  wait_task-PlacedAt t u mask h =
      ground (arith, placed u, placed t, times-append u t s.waiting_tasks)

  wake_up_task-PlacedAt :
      (v t u : ℕ) (s' : Scheduler)
      → s.cur_task ≡ some v
      → (s.tasks v).state ≡ run
      → wake_up_task t s ≡ some s'
      → PlacedAt u s'
  unfolding wake_up_task
  wake_up_task-PlacedAt v t u s' c r e = ground (
    arith,
    placed u,
    placed t,
    placed v,
    times-without u t s.waiting_tasks,
    elem-times t s.waiting_tasks,
  )

  exit-PlacedAt :
      (t u : ℕ) → s.cur_task ≡ some t → (s.tasks t).state ≡ run → PlacedAt u (terminate_task t s).1
  unfolding terminate_task
  exit-PlacedAt t u c r = ground (arith, placed u, placed t)

  switch_out-PlacedAt :
      (c : Option ℕ) (t u n : ℕ) (ts : List ℕ)
      → s.cur_task ≡ c
      → s.ready_tasks ≡ t ∷ ts
      → let o = switch_out c (record s { ready_tasks = ts; cur_task = c; num_switch_other = n }) in
        PlacedAt u (record o { cur_task = none; ready_tasks = t ∷ o.ready_tasks })
  unfolding switch_out
  switch_out-PlacedAt none t u n ts c r = ground (arith, placed u)
  switch_out-PlacedAt (some v) t u n ts c r =
      ground (arith, placed u, placed v, times-append u v ts)

  -- The task that is picked was the first of the ready ones.
  run_task-PlacedAt :
      (t u : ℕ) (ts : List ℕ)
      → s.ready_tasks ≡ t ∷ ts
      → PlacedAt u (run_task t (record s { ready_tasks = ts }))
  unfolding run_task
  run_task-PlacedAt t u ts r = rw other (
      switch_in-PlacedAt _ t u
        (λ w. switch_out-PlacedAt s.cur_task t w (s.num_switch_other + 1) ts refl r))
    where
      other : is_cur t s.cur_task ≡ false
      other = ground (arith, placed t)

  run_task-run :
      (c : Option ℕ) (t u : ℕ) (ts : List ℕ)
      → s.cur_task ≡ c
      → s.ready_tasks ≡ t ∷ ts
      → ((run_task t (record s { ready_tasks = ts })).cur_task ≡ some t)
        × (((run_task t (record s { ready_tasks = ts })).tasks t).state ≡ run)
  unfolding run_task switch_out switch_in
  run_task-run none t u ts c r = ground (arith, placed t)
  run_task-run (some v) t u ts c r = ground (arith, placed t, placed v)

  run_task-Waits :
      (c : Option ℕ) (t u : ℕ) (ts : List ℕ)
      → s.cur_task ≡ c
      → s.ready_tasks ≡ t ∷ ts
      → Waits (s.tasks u)
      → Waits ((run_task t (record s { ready_tasks = ts })).tasks u)
  unfolding run_task switch_out switch_in
  run_task-Waits none t u ts c r w = ground (arith, placed t)
  run_task-Waits (some v) t u ts c r w = ground (arith, placed t, placed v)

-- The current task goes on.
module _ (s : Scheduler) (t : ℕ) (c : s.cur_task ≡ some t) where
  keep-PlacedAt : (u : ℕ) → PlacedAt u s → PlacedAt u (run_task t s)
  unfolding run_task
  keep-PlacedAt u h = ground arith

  keep-run :
      (s.tasks t).state ≡ run
      → ((run_task t s).cur_task ≡ some t) × (((run_task t s).tasks t).state ≡ run)
  unfolding run_task
  keep-run h = ground arith

  keep-Waits : (u : ℕ) → Waits (s.tasks u) → Waits ((run_task t s).tasks u)
  unfolding run_task
  keep-Waits u w = ground arith

-- What a round of the main loop switches to.
abbrev pub Picked : Scheduler → ℕ → Scheduler → Type 0
Picked s t s' =
    ((s.cur_task ≡ some t) × ((s.tasks t).state ≡ run) × (s' ≡ run_task t s))
    ⊎ ((ts : List ℕ) × (s.ready_tasks ≡ t ∷ ts)
        × (forbidding s ≡ none)
        × (s' ≡ run_task t (record s { ready_tasks = ts })))

pub iterate-Picked :
    (s : Scheduler) (t : ℕ) (s' : Scheduler)
    → ((u : ℕ) → PlacedAt u s)
    → Runs none s
    → iterate s ≡ switch t s'
    → Picked s t s'
unfolding iterate find_run_task
iterate-Picked s t s' placed runs e = ground (arith, placed t)

Picked-PlacedAt :
    (s : Scheduler) (t u : ℕ) (s' : Scheduler)
    → ((w : ℕ) → PlacedAt w s)
    → Picked s t s'
    → PlacedAt u s'
Picked-PlacedAt s t u s' placed (inl (c, r, e)) = rw e (keep-PlacedAt s t c u (placed u))
Picked-PlacedAt s t u s' placed (inr (ts, r, f, e)) = rw e (run_task-PlacedAt s placed t u ts r)

Picked-Waits :
    (s : Scheduler) (t u : ℕ) (s' : Scheduler)
    → ((w : ℕ) → PlacedAt w s)
    → Waits (s.tasks u)
    → Picked s t s'
    → Waits (s'.tasks u)
Picked-Waits s t u s' placed w (inl (c, r, e)) = rw e (keep-Waits s t c u w)
Picked-Waits s t u s' placed w (inr (ts, r, f, e)) =
    rw e (run_task-Waits s placed s.cur_task t u ts refl r w)

Picked-run :
    (s : Scheduler) (t : ℕ) (s' : Scheduler)
    → ((w : ℕ) → PlacedAt w s)
    → Picked s t s'
    → (s'.cur_task ≡ some t) × ((s'.tasks t).state ≡ run)
Picked-run s t s' placed (inl (c, r, e)) = rw e (keep-run s t c r)
Picked-run s t s' placed (inr (ts, r, f, e)) = rw e (run_task-run s placed s.cur_task t t ts refl r)

resume-IsValid :
    (t : ℕ) (s : Scheduler) (y : System)
    → ((u : ℕ) → PlacedAt u s)
    → ((u : ℕ) → Waits (s.tasks u))
    → (s.cur_task ≡ some t) × ((s.tasks t).state ≡ run)
    → IsValid (resume t s y)
unfolding resume
resume-IsValid t s y placed waits r = record {
  placed = λ u. ground (arith, placed u);
  waits = λ u. ground (arith, waits u);
  runs = ground arith;
}

-- The task `u` with the signals that it is sent.
abbrev pub marked : ℕ → ℕ → ℕ → Scheduler → Scheduler
marked u new mask s =
    put u
      (record (s.tasks u) {
        sigmask_received = bit_or new (and_not (s.tasks u).sigmask_received mask);
      })
      s

-- A signal is only noted, or it wakes the task.
signal_lem :
    (t u new mask : ℕ) (y y' : System)
    → signal t u new mask y ≡ some y'
    → (y' ≡ record y { sched = marked u new mask y.sched })
      ⊎ ((s' : Scheduler) × (wake_up_task u (marked u new mask y.sched) ≡ some s')
          × (y' ≡ leave t here s' y))
unfolding signal
signal_lem t u new mask y y' e =
    elim (Bool-cases (
      (y.sched.tasks u).sigmask_wait == 0
      || bit_and received (y.sched.tasks u).sigmask_wait == 0)) [
        | inl q ↦ inl (sym (some_inj.0 (rw q at e)))
        | inr q ↦ elim (Option-cases (wake_up_task u (marked u new mask y.sched))) [
          | inl w ↦ absurd (none-ne-some _ (rw (q, w) at e))
          | inr (s', w) ↦ inr (s', w, sym (some_inj.0 (rw (q, w) at e)))
        ]
      ]
  where
    received : ℕ
    received = bit_or new (and_not (y.sched.tasks u).sigmask_received mask)

-- A change of the running task that keeps its state, for a task that stays or leaves.
module _ (t : ℕ) (y : System) (v : IsValid y) (a : y.active ≡ some t) where
  current : (y.sched.cur_task ≡ some t) × ((y.sched.tasks t).state ≡ run)
  current = rw a at v.runs

  put-IsValid :
      (task : Task) (cpu : ℕ)
      → task.state ≡ run
      → IsValid (record y { sched = put t task (record y.sched { cpu = cpu }) })
  put-IsValid task cpu h = record {
    placed = λ u. ground (arith, v.placed u, current);
    waits = λ u. ground (arith, v.waits u);
    runs = rw a (ground (arith, current));
  }

  leave-IsValid : (task : Task) → task.state ≡ run → IsValid (leave t here (put t task y.sched) y)
  leave-IsValid task h = record {
    placed = λ u. ground (arith, v.placed u, current);
    waits = λ u. ground (arith, v.waits u);
    runs = ground (arith, current);
  }

  reschedule-IsValid : IsValid (leave t here y.sched y)
  reschedule-IsValid = record {
    placed = λ u. ground (arith, v.placed u);
    waits = λ u. ground (arith, v.waits u, current);
    runs = ground (arith, current);
  }

  marked-IsValid :
      (u received : ℕ)
      → IsValid (record y {
        sched = put u (record (y.sched.tasks u) { sigmask_received = received }) y.sched;
      })
  marked-IsValid u received = record {
    placed = λ w. ground (arith, v.placed w, v.placed u);
    waits = λ w. ground (arith, v.waits w, v.waits u);
    runs = rw a (ground (arith, current));
  }

  permit-IsValid : IsValid (permit_task t y)
  unfolding permit_task
  permit-IsValid =
      let task = y.sched.tasks t in
      let cnt = task.forbid_cnt -ℤ pos 1 in
      elim (Bool-cases (eqb_ℤ cnt (pos 0) && task.forbid_reschedule)) [
        | inl e ↦ rw e (
            leave-IsValid (record task { forbid_cnt = cnt; forbid_reschedule = false }) (current.1))
        | inr e ↦ rw e (put-IsValid (record task { forbid_cnt = cnt }) y.sched.cpu (current.1))
      ]

  wait-IsValid :
      (mask : ℕ) → is_forbidden (y.sched.tasks t) ≡ false → IsValid (wait_signal t mask y)
  unfolding wait_signal
  wait-IsValid mask f = elim (Bool-cases (bit_and (y.sched.tasks t).sigmask_received mask == 0)) [
    | inl e ↦ rw e (record {
      placed = λ u. ground (arith, waiting u, waiting t);
      waits = λ u. ground (arith, v.waits u);
      runs = ground (arith, current);
    })
    | inr e ↦ rw e (record { placed = v.placed; waits = v.waits; runs = v.runs })
  ]
    where
      waiting :
          (u : ℕ)
          → PlacedAt u
              (wait_task t (put t (record (y.sched.tasks t) { sigmask_wait = mask }) y.sched))
      waiting u = wait_task-PlacedAt y.sched v.placed t u mask current.1

  woken-IsValid :
      (u : ℕ) (s s' : Scheduler)
      → IsValid (record y { sched = s })
      → wake_up_task u s ≡ some s'
      → IsValid (leave t here s' y)
  unfolding wake_up_task
  woken-IsValid u s s' w e = record {
    placed = λ k. ground (
      arith,
      wake_up_task-PlacedAt s w.placed t u k s' now.0 now.1 e,
      wake_up_task-PlacedAt s w.placed t u t s' now.0 now.1 e,
    );
    waits = λ k. ground (arith, w.waits k, e);
    runs = ground (arith, now, e, w.placed t, w.placed u, elem-times u s.waiting_tasks);
  }
    where
      now : (s.cur_task ≡ some t) × ((s.tasks t).state ≡ run)
      now = rw a at w.runs

  signal-IsValid : (u new mask : ℕ) (y' : System) → signal t u new mask y ≡ some y' → IsValid y'
  signal-IsValid u new mask y' e =
      let marked =
        marked-IsValid u (bit_or new (and_not (y.sched.tasks u).sigmask_received mask)) in
      elim (signal_lem t u new mask y y' e) [
        | inl q ↦ rw q marked
        | inr (s', w, q) ↦ rw q (woken-IsValid u _ s' marked w)
      ]

  exit-IsValid : IsValid (exit_task t y)
  unfolding exit_task
  exit-IsValid = record {
    placed = λ u. ground (arith, exit-PlacedAt y.sched v.placed t u);
    waits = λ u. ground (arith, v.waits u);
    runs = ground (arith, current);
  }

act-IsValid :
    (a : Action) (t : ℕ) (y y' : System)
    → IsValid y
    → y.active ≡ some t
    → IsAllowed a y
    → act a t y ≡ some y'
    → IsValid y'
unfolding act
act-IsValid loop t y y' v c h e = absurd (none-ne-some _ e)
act-IsValid reschedule t y y' v c h e = rw (sym (some_inj.0 e)) (reschedule-IsValid t y v c)
act-IsValid forbid t y y' v c h e =
    rw (sym (some_inj.0 e)) (put-IsValid t y v c _ y.sched.cpu (current t y v c).1)
act-IsValid permit t y y' v c h e = rw (sym (some_inj.0 e)) (permit-IsValid t y v c)
act-IsValid exit t y y' v c h e = rw (sym (some_inj.0 e)) (exit-IsValid t y v c)
act-IsValid (compute cpu) t y y' v c h e =
    rw (sym (some_inj.0 e))
      (record { placed = v.placed; waits = v.waits; runs = rw c (current t y v c) })
act-IsValid (run_code b) t y y' v c h e =
    rw (sym (some_inj.0 e)) (
      put-IsValid t y v c (record (y.sched.tasks t) { in_run = b }) y.sched.cpu (current t y v c).1)
act-IsValid (wait_for mask) t y y' v c h e =
    rw (sym (some_inj.0 e)) (wait-IsValid t y v c mask (rw c at h))
act-IsValid (set_signal u new mask) t y y' v c h e = signal-IsValid t y v c u new mask y' e

loop-IsValid :
    (y : System) (t : ℕ) (s : Scheduler)
    → IsValid y
    → y.active ≡ none
    → iterate y.sched ≡ switch t s
    → IsValid (resume t s y)
loop-IsValid y t s v c e =
    let p = iterate-Picked y.sched t s v.placed (rw c at v.runs) e in
    resume-IsValid t s y (λ u. Picked-PlacedAt y.sched t u s v.placed p)
      (λ u. Picked-Waits y.sched t u s v.placed (v.waits u) p) (Picked-run y.sched t s v.placed p)

Round-cases :
    (r : Round)
    → ((t : ℕ) × (s : Scheduler) × (r ≡ switch t s))
      ⊎ ((r ≡ attribute_error) ⊎ ((s : Scheduler) × ((r ≡ done s) ⊎ (r ≡ no_task s))))
Round-cases (switch t s) = inl (t, s, refl)
Round-cases (done s) = inr (inr (s, inl refl))
Round-cases (no_task s) = inr (inr (s, inr refl))
Round-cases attribute_error = inr (inl refl)

loop_lem :
    (a : Action) (y y' : System)
    → y.active ≡ none
    → exec a y ≡ some y'
    → (t : ℕ) × (s : Scheduler) × (iterate y.sched ≡ switch t s) × (y' ≡ resume t s y)
unfolding exec
loop_lem a y y' c e = elim (Round-cases (iterate y.sched)) [
  | inl (t, s, q) ↦ (t, s, q, ground arith)
  | inr q ↦ absurd (ground arith)
]

act_lem :
    (a : Action) (t : ℕ) (y y' : System)
    → y.active ≡ some t
    → exec a y ≡ some y'
    → act a t y ≡ some y'
unfolding exec
act_lem a t y y' c e = ground arith

-- Every step of a run is allowed where it is made.
abbrev pub AllAllowed : List Action → System → Type 0
AllAllowed [] y = Unit {0}
AllAllowed (a ∷ rest) y =
    IsAllowed a y × elim (exec a y) [ none ↦ Unit {0} | some z ↦ AllAllowed rest z ]

-- A step of the system keeps the invariant, where no task in forbid state waits.
pub exec-IsValid :
    (a : Action) (y y' : System) → IsValid y → IsAllowed a y → exec a y ≡ some y' → IsValid y'
exec-IsValid a y y' v h e = elim (Option-cases y.active) [
  | inl c ↦ let (t, s, i, q) = loop_lem a y y' c e in rw q (loop-IsValid y t s v c i)
  | inr (t, c) ↦ act-IsValid a t y y' v c h (act_lem a t y y' c e)
]

-- Any run of the system keeps it.
pub exec_all-IsValid :
    (steps : List Action) (y y' : System)
    → IsValid y
    → AllAllowed steps y
    → exec_all steps y ≡ some y'
    → IsValid y'
unfolding exec_all
exec_all-IsValid [] y y' v h e = rw (sym (some_inj.0 e)) v
exec_all-IsValid (a ∷ rest) y y' v h e = elim (Option-cases (exec a y)) [
  | inl q ↦ cc
  | inr (z, q) ↦
      exec_all-IsValid rest z y' (exec-IsValid a y z v h.0 q) (rw q at h.1) (rw (q, exec_all) at e)
]
