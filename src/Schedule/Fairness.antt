-- ===== src/Schedule/Fairness.antt =====
-- The ready tasks take turns.
use amitools.Prelude.{
  ℕ, zero, suc, ◌≡◌, ◌⊎◌, inl, inr, refl, ◌∙◌, true, false, Option, none, some, List, [], ◌∷◌, ◌++◌,
  arith, length,
}
use mathlib.Core.List.{append-nil, append_assoc}
use amitools.Schedule.{
  TaskState, Scheduler, System, Action, loop, reschedule, here, leave, is_cur, is_run, is_forbidden,
  get_num_tasks, switch_in, switch_out, run_task, switch, iterate, resume, exec, exec_all,
}
use amitools.Schedule.Invariant.{IsValid}
use amitools.Schedule.Moves.{exec-IsValid}
use amitools.Schedule.Signals.{exec-loop}

-- No task is in forbid state.
abbrev pub AllFree : Scheduler → Type 0
AllFree s = (t : ℕ) → is_forbidden (s.tasks t) ≡ false

iterate-free :
    (c : Option ℕ) (s : Scheduler) (x : ℕ) (xs : List ℕ)
    → s.cur_task ≡ c
    → AllFree s
    → s.ready_tasks ≡ x ∷ xs
    → iterate s ≡ switch x (run_task x (record s { ready_tasks = xs }))
unfolding iterate get_num_tasks
iterate-free none s x xs c f r = ground arith
iterate-free (some t) s x xs c f r = ground (arith, f t)

-- The task that is switched out goes to the end of the ready list.
run_task-ready :
    (c : Option ℕ) (s : Scheduler) (x : ℕ)
    → s.cur_task ≡ c
    → is_cur x c ≡ false
    → (rest : List ℕ) × ((run_task x s).ready_tasks ≡ s.ready_tasks ++ rest)
unfolding run_task switch_out switch_in
run_task-ready none s x c h = ([], rw append-nil (ground arith))
run_task-ready (some t) s x c h = elim (is_run-cases (s.tasks t).state) [
  | inl r ↦ (t ∷ [], ground arith)
  | inr r ↦ ([], rw append-nil (ground arith))
]
  where
    is_run-cases : (st : TaskState) → (is_run st ≡ true) ⊎ (is_run st ≡ false)
    is_run-cases st = ground arith

run_task-free :
    (c : Option ℕ) (s : Scheduler) (x : ℕ) → s.cur_task ≡ c → AllFree s → AllFree (run_task x s)
unfolding run_task switch_out switch_in
run_task-free none s x c f w = ground (arith, f w, f x)
run_task-free (some t) s x c f w = ground (arith, f w, f x, f t)

resume-free : (s : Scheduler) (y : System) (x : ℕ) → AllFree s → AllFree (resume x s y).sched
unfolding resume
resume-free s y x f w = ground (arith, f w, f x)

resume-ready :
    (s : Scheduler) (y : System) (x : ℕ)
    → ((resume x s y).sched.ready_tasks ≡ s.ready_tasks) × ((resume x s y).active ≡ some x)
unfolding resume
resume-ready s y x = ground arith

-- So many tasks run and give up the machine, and the next one runs.
abbrev pub turns : ℕ → List Action
turns zero = loop ∷ []
turns (suc n) = loop ∷ reschedule ∷ turns n

leave-free : (s : Scheduler) (y : System) (x : ℕ) → AllFree s → AllFree (leave x here s y).sched
leave-free s y x f w = ground (arith, f w, f x)

exec-reschedule :
    (y : System) (x : ℕ) → y.active ≡ some x → exec reschedule y ≡ some (leave x here y.sched y)
unfolding exec
exec-reschedule y x a = ground arith

-- The first ready task is switched to.
switched :
    (y : System) (x : ℕ) (xs : List ℕ)
    → IsValid y
    → y.active ≡ none
    → AllFree y.sched
    → y.sched.ready_tasks ≡ x ∷ xs
    → (z : System) × (rest : List ℕ) × (exec loop y ≡ some z)
      × (z.active ≡ some x)
      × IsValid z
      × AllFree z.sched
      × (z.sched.ready_tasks ≡ xs ++ rest)
switched y x xs v a f r =
    let s = record y.sched { ready_tasks = xs } in
    let e = exec-loop y x (run_task x s) a (iterate-free y.sched.cur_task y.sched x xs refl f r) in
    let (p, q) = resume-ready (run_task x s) y x in
    let (rest, k) = run_task-ready y.sched.cur_task s x refl apart in
    (
      resume x (run_task x s) y,
      rest,
      e,
      q,
      exec-IsValid loop y (resume x (run_task x s) y) v tt e,
      resume-free (run_task x s) y x (run_task-free y.sched.cur_task s x refl f),
      p ∙ k,
    )
  where
    apart : is_cur x y.sched.cur_task ≡ false
    apart = ground (arith, v.placed x)

-- Every ready task gets its turn: if no task is in forbid state, and the tasks that run give up the
-- machine without more ado, the main loop runs a ready task after those that stand before it.
pub turns-runs :
    (before : List ℕ) (t : ℕ) (behind : List ℕ) (y : System)
    → IsValid y
    → y.active ≡ none
    → AllFree y.sched
    → y.sched.ready_tasks ≡ before ++ t ∷ behind
    → (y' : System) × (exec_all (turns (length before)) y ≡ some y') × (y'.active ≡ some t)
unfolding exec_all
turns-runs [] t behind y v a f r =
    let (z, rest, e, b, w, g, p) = switched y t behind v a f r in (z, rw (e, exec_all) refl, b)
turns-runs (x ∷ before) t behind y v a f r =
    let (z, rest, e, b, w, g, p) = switched y x (before ++ t ∷ behind) v a f r in
    let n = exec-reschedule z x b in
    let u = leave x here z.sched z in
    let (y', q, l) =
      turns-runs before t (behind ++ rest) u (exec-IsValid reschedule z u w tt n) refl
        (leave-free z.sched z x g) (p ∙ append_assoc before (t ∷ behind) rest) in
    (y', rw (e, n, exec_all) q, l)
