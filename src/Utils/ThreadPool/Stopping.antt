-- ===== src/Utils/ThreadPool/Stopping.antt =====
-- `wait` and `stop`: what has been done when they return.
use zero_lan_com.Base.{
  ℕ, ◌+◌, ◌*◌, ◌<◌, ◌≤◌, List, [], ◌∷◌, ◌++◌, Bool, true, false, length, ◌≡◌, ◌≢◌, ◌⊎◌, inl, inr,
  refl, ap, arith,
}
use zero_lan_com.Utils.ThreadPool.Workers.{
  Worker, waiting, running, exited, AllExited, busy, idle, gone, count, running_count, busy-append,
  idle-append, running_count_of_busy, busy_of_exited,
}
use zero_lan_com.Utils.ThreadPool.{
  ThreadPool, init, Step, start, enqueue_test, enqueue_push, take, finish, exit, stop_flag,
  stop_join, Reach,
}
use zero_lan_com.Utils.ThreadPool.Invariant.{Reach-Inv}

-- The condition under which `wait` returns: then every task that was pushed has ended, once for
-- each push.
pub wait_finished :
    (n hardware : ℕ) {p : ThreadPool} (t : ℕ)
    → Reach (init n hardware) p
    → p.tasks ≡ []
    → p.active_tasks ≡ 0
    → count t p.finished ≡ count t p.accepted
unfolding count
wait_finished n hardware {p} t r none_left none_active = omega (
  arith,
  (Reach-Inv n hardware r).tally t,
  (Reach-Inv n hardware r).active,
  ap (count t) none_left,
  running_count_of_busy t p.workers (omega (arith, (Reach-Inv n hardware r).active)),
)

gone_of_exited : (ws : List Worker) → AllExited ws → ws ≢ [] → 0 < gone ws
unfolding gone
gone_of_exited [] h ne = absurd (ne refl)
gone_of_exited (exited ∷ ws) h ne = omega arith
gone_of_exited (running t ∷ ws) h ne = absurd h
gone_of_exited (waiting ∷ ws) h ne = absurd h

-- When `stop` has joined the workers of a pool, every task that was pushed while the pool was running
-- has been run to its end, once for each such push, and nothing has been run that was not pushed: the
-- queue is drained, not cleared. What may be left are tasks that were pushed behind the reset of the
-- flag.
pub stop_drains :
    (n hardware : ℕ) {p : ThreadPool} (t : ℕ)
    → Reach (init n hardware) p
    → AllExited p.workers
    → p.workers ≢ []
    → (count t p.accepted ≤ count t p.finished + count t p.late)
      × (count t p.finished ≤ count t p.accepted)
unfolding count
stop_drains n hardware {p} t r all some_worker =
    let none_running : running_count t p.workers ≡ 0 =
      running_count_of_busy t p.workers (busy_of_exited p.workers all) in
    let tally = (Reach-Inv n hardware r).tally t in
    let left = (Reach-Inv n hardware r).left t (gone_of_exited p.workers all some_worker) in
    (omega arith, omega arith)

-- The steps of the workers alone.
abbrev pub is_worker_step : {p q : ThreadPool} → Step p q → Bool
is_worker_step (take p ws vs t rest e f) = true
is_worker_step (finish p ws vs t e) = true
is_worker_step (exit p ws vs e off none_left) = true
is_worker_step (start p off none_left) = false
is_worker_step (enqueue_test p t on) = false
is_worker_step (enqueue_push p before after t e) = false
is_worker_step (stop_flag p on) = false
is_worker_step (stop_join p off all) = false

-- What the workers still have to do.
unfoldable pub work_left : ThreadPool → ℕ
work_left p = 3 * length p.tasks + (2 * busy p.workers + idle p.workers)

-- A step of a worker leaves less to do, so that workers alone make finitely many steps.
pub work_left-lt :
    {p q : ThreadPool} (s : Step p q) → is_worker_step s ≡ true → work_left q < work_left p
unfolding work_left busy idle
work_left-lt (take p ws vs t rest e f) h = omega (
  arith,
  ap busy e,
  ap idle e,
  ap length f,
  busy-append ws (waiting ∷ vs),
  busy-append ws (running t ∷ vs),
  idle-append ws (waiting ∷ vs),
  idle-append ws (running t ∷ vs),
)
work_left-lt (finish p ws vs t e) h = omega (
  arith,
  ap busy e,
  ap idle e,
  busy-append ws (waiting ∷ vs),
  busy-append ws (running t ∷ vs),
  idle-append ws (waiting ∷ vs),
  idle-append ws (running t ∷ vs),
)
work_left-lt (exit p ws vs e off none_left) h = omega (
  arith,
  ap busy e,
  ap idle e,
  busy-append ws (waiting ∷ vs),
  busy-append ws (exited ∷ vs),
  idle-append ws (waiting ∷ vs),
  idle-append ws (exited ∷ vs),
)
work_left-lt (start p off none_left) h = cc
work_left-lt (enqueue_test p t on) h = cc
work_left-lt (enqueue_push p before after t e) h = cc
work_left-lt (stop_flag p on) h = cc
work_left-lt (stop_join p off all) h = cc

-- The first worker that has not exited.
data Split (ws : List Worker) : Type 0 where
  none_left : AllExited ws → Split ws
  one_waits : (us vs : List Worker) → ws ≡ us ++ waiting ∷ vs → Split ws
  one_runs : (us vs : List Worker) (t : ℕ) → ws ≡ us ++ running t ∷ vs → Split ws

split : (ws : List Worker) → Split ws
split [] = none_left tt
split (waiting ∷ ws) = one_waits [] ws refl
split (running t ∷ ws) = one_runs [] ws t refl
split (exited ∷ ws) = elim (split ws) [
  | none_left all ↦ none_left all
  | one_waits us vs e ↦ one_waits (exited ∷ us) vs (ap (◌∷◌ exited) e)
  | one_runs us vs t e ↦ one_runs (exited ∷ us) vs t (ap (◌∷◌ exited) e)
]

-- A step of a worker is possible.
abbrev pub CanStep : ThreadPool → Type 0
CanStep p = (q : ThreadPool) × (s : Step p q) × (is_worker_step s ≡ true)

waiting_step :
    (p : ThreadPool) (us vs : List Worker) (tasks : List ℕ)
    → p.is_running ≡ false
    → p.workers ≡ us ++ waiting ∷ vs
    → p.tasks ≡ tasks
    → CanStep p
waiting_step p us vs [] off e f = (_, exit p us vs e off f, refl)
waiting_step p us vs (t ∷ rest) off e f = (_, take p us vs t rest e f, refl)

-- In a stopped pool all workers have exited, or one of them can make a step: the joins of `stop`
-- are not blocked.
pub stop_progress : (p : ThreadPool) → p.is_running ≡ false → AllExited p.workers ⊎ CanStep p
stop_progress p off = elim (split p.workers) [
  | none_left all ↦ inl all
  | one_waits us vs e ↦ inr (waiting_step p us vs p.tasks off e refl)
  | one_runs us vs t e ↦ inr (_, finish p us vs t e, refl)
]
