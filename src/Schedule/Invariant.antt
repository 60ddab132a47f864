-- ===== src/Schedule/Invariant.antt =====
-- What holds of the scheduler between two steps: every task is in one place, and its state says which.
use amitools.Prelude.{
  ℕ, ◌+◌, ◌≡◌, ◌≢◌, ◌⊎◌, inr, refl, Bool, true, false, Option, none, some, List, [], ◌∷◌, ◌++◌,
  ◌==◌, if◌then◌else◌, arith, ◌<◌,
}
use amitools.Schedule.{
  TaskState, Task, Scheduler, System, Action, added, run, ready, wait, in_wait, elem, without,
  is_cur, is_forbidden, wait_for,
}

abbrev pub times : ℕ → List ℕ → ℕ
times t [] = 0
times t (u ∷ us) = (if u == t then 1 else 0) + times t us

pub times-append :
    (t u : ℕ) (us : List ℕ) → times t (us ++ u ∷ []) ≡ times t us + (if u == t then 1 else 0)
times-append t u [] = ground arith
times-append t u (v ∷ us) = ground (arith, times-append t u us)

pub times-without :
    (t u : ℕ) (us : List ℕ)
    → times t (without u us) + (if elem u us then (if u == t then 1 else 0) else 0) ≡ times t us
times-without t u [] = ground arith
times-without t u (v ∷ us) = ground (arith, times-without t u us)

pub elem-times :
    (t : ℕ) (us : List ℕ)
    → ((elem t us ≡ true) × (0 < times t us)) ⊎ ((elem t us ≡ false) × (times t us ≡ 0))
elem-times t [] = inr (refl, refl)
elem-times t (u ∷ us) = ground (arith, elem-times t us)

-- How often a task is ready and waiting, and whether it is the current one, by its state.
abbrev pub Placed : ℕ → ℕ → Bool → TaskState → Type 0
Placed a b c run = (a ≡ 0) × (b ≡ 0) × (c ≡ true)
Placed a b c ready = (a ≡ 1) × (b ≡ 0) × (c ≡ false)
Placed a b c added = (a ≡ 1) × (b ≡ 0) × (c ≡ false)
Placed a b c wait = (a ≡ 0) × (b ≡ 1)
Placed a b c _ = (a ≡ 0) × (b ≡ 0) × (c ≡ false)

abbrev pub PlacedAt : ℕ → Scheduler → Type 0
PlacedAt t s =
    Placed (times t s.ready_tasks) (times t s.waiting_tasks) (is_cur t s.cur_task) (s.tasks t).state

-- A waiting task goes on in `wait`, with the mask that it waits for.
abbrev pub Waits : Task → Type 0
Waits task = (task.state ≢ wait) ⊎ (task.place ≡ in_wait task.sigmask_wait)

-- The greenlet that runs is that of the current task; the main loop has no current task in forbid
-- state that waits.
abbrev pub Runs : Option ℕ → Scheduler → Type 0
Runs (some t) s = (s.cur_task ≡ some t) × ((s.tasks t).state ≡ run)
Runs none s = elim s.cur_task [
  | none ↦ Unit {0}
  | some t ↦ (is_forbidden (s.tasks t) ≡ false) ⊎ ((s.tasks t).state ≡ run)
]

pub record IsValid (y : System) : Type 0 where
  pub placed : (t : ℕ) → PlacedAt t y.sched
  pub waits : (t : ℕ) → Waits (y.sched.tasks t)
  pub runs : Runs y.active y.sched

-- A task in forbid state does not wait.
abbrev pub IsAllowed : Action → System → Type 0
IsAllowed (wait_for mask) y = elim y.active [
  | none ↦ Unit {0}
  | some t ↦ is_forbidden (y.sched.tasks t) ≡ false
]
IsAllowed a y = Unit {0}
