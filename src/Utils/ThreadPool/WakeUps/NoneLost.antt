-- ===== src/Utils/ThreadPool/WakeUps/NoneLost.antt =====
-- The workers that sleep, with what is due to wake them.
use zero_lan_com.Base.{
  ℕ, ◌+◌, ◌-◌, ◌≤◌, ◌<◌, List, [], ◌∷◌, ◌++◌, true, false, length, length-append, Bool-cases, ◌≡◌,
  ◌⊎◌, inl, inr, refl, ap, sym, ◌∙◌, arith,
}
use mathlib.Core.Bool.{true≢false}
use zero_lan_com.Utils.ThreadPool.Workers.{
  Worker, waiting, running, exited, AllExited, idle, idle-append,
}
use zero_lan_com.Utils.ThreadPool.{
  ThreadPool, init, Step, start, enqueue_test, enqueue_push, take, finish, exit, stop_flag,
  stop_join, Reach,
}
use zero_lan_com.Utils.ThreadPool
use zero_lan_com.Utils.ThreadPool.WakeUps.{
  Waking, init_waking, checks, pushes, stops, joins, plain, kind, Wake, check, sleep, push,
  notify_one, reset, notify_all, join, other, spurious, Run, here, next,
}

idle_of_exited : (ws : List Worker) → AllExited ws → idle ws ≡ 0
unfolding idle
idle_of_exited [] h = refl
idle_of_exited (exited ∷ ws) h = idle_of_exited ws h
idle_of_exited (running t ∷ ws) h = absurd h
idle_of_exited (waiting ∷ ws) h = absurd h

pub idle-middle :
    (ws vs us : List Worker) (a b : Worker)
    → us ≡ ws ++ a ∷ vs
    → (idle us ≡ idle (a ∷ []) + idle (ws ++ vs))
      × (idle (ws ++ b ∷ vs) ≡ idle (b ∷ []) + idle (ws ++ vs))
unfolding idle
idle-middle ws vs us a b e = (
  ap idle e ∙ omega (arith, idle-append ws (a ∷ vs), idle-append (a ∷ []) vs, idle-append ws vs),
  omega (arith, idle-append ws (b ∷ vs), idle-append (b ∷ []) vs, idle-append ws vs),
)

-- What the steps of each kind do to the numbers that matter.
Step-checks :
    {p q : ThreadPool} (s : Step p q)
    → kind s ≡ checks
    → (idle p.workers ≡ idle q.workers + 1)
      × (length q.tasks ≡ length p.tasks - 1)
      × (q.is_running ≡ p.is_running)
unfolding kind idle
Step-checks (take p ws vs t rest e f) h = (
  omega (arith, idle-middle ws vs p.workers waiting (running t) e),
  omega (arith, ap length f),
  refl,
)
Step-checks (exit p ws vs e off none_left) h = (
  omega (arith, idle-middle ws vs p.workers waiting exited e),
  omega (arith, ap length none_left),
  refl,
)
Step-checks _ h = cc

Step-pushes :
    {p q : ThreadPool} (s : Step p q)
    → kind s ≡ pushes
    → (q.workers ≡ p.workers)
      × (length q.tasks ≡ length p.tasks + 1)
      × (q.is_running ≡ p.is_running)
unfolding kind
Step-pushes (enqueue_push p before after t e) h = (refl, length-append p.tasks (t ∷ []), refl)
Step-pushes _ h = cc

Step-stops :
    {p q : ThreadPool} (s : Step p q)
    → kind s ≡ stops
    → (q.workers ≡ p.workers) × (q.tasks ≡ p.tasks)
unfolding kind
Step-stops (stop_flag p on) h = (refl, refl)
Step-stops _ h = cc

Step-joins :
    {p q : ThreadPool} (s : Step p q)
    → kind s ≡ joins
    → (idle p.workers ≡ 0) × (q.tasks ≡ p.tasks) × (q.is_running ≡ p.is_running)
unfolding kind
Step-joins (stop_join p off all) h = (idle_of_exited p.workers all, refl, refl)
Step-joins _ h = cc

Step-plain :
    {p q : ThreadPool} (s : Step p q)
    → kind s ≡ plain
    → (idle p.workers ≤ idle q.workers)
      × (q.tasks ≡ p.tasks)
      × (q.is_running ≡ false → p.is_running ≡ false)
unfolding kind idle
Step-plain (start p off none_left) h = (omega (arith, ap idle none_left), refl, λ e. off)
Step-plain (enqueue_test p t on) h = (omega arith, refl, λ e. e)
Step-plain (finish p ws vs t e) h =
    (omega (arith, idle-middle ws vs p.workers (running t) waiting e), refl, λ e. e)
Step-plain _ h = cc

-- Sleepers are workers; for each task that one of them could take, a worker is awake or a
-- notification is due; in a stopped pool nobody sleeps or a notification to all is due.
pub record IsAwake (w : Waking) : Type 0 where
  pub workers : w.asleep ≤ idle w.pool.workers
  pub tasks :
      (w.asleep ≡ 0) ⊎ (length w.pool.tasks ≤ (idle w.pool.workers - w.asleep) + w.to_notify)
  pub stopping : w.pool.is_running ≡ false → (w.asleep ≡ 0) ⊎ (0 < w.to_notify_all)

Wake-IsAwake : {w v : Waking} → Wake w v → IsAwake w → IsAwake v
Wake-IsAwake (check w s k free) h =
    let e = Step-checks s k in
    record {
      workers = omega (arith, h.workers, e);
      tasks = ground (arith, h.tasks, e);
      stopping = λ off. h.stopping (sym (e.2) ∙ off);
    }
Wake-IsAwake (sleep w none_left on free) h = record {
  workers = omega (arith, h.workers);
  tasks = inr (omega (arith, ap length none_left));
  stopping = λ off. absurd (true≢false (sym on ∙ off));
}
Wake-IsAwake (push w s k) h =
    let e = Step-pushes s k in
    record {
      workers = omega (arith, h.workers, ap idle (e.0));
      tasks = ground (arith, h.tasks, e.1, ap idle (e.0));
      stopping = λ off. h.stopping (sym (e.2) ∙ off);
    }
Wake-IsAwake (notify_one w due) h = record {
  workers = omega (arith, h.workers);
  tasks = ground (arith, h.tasks, h.workers);
  stopping = λ off. ground (arith, h.stopping off);
}
Wake-IsAwake (reset w s k) h =
    let e = Step-stops s k in
    record {
      workers = omega (arith, h.workers, ap idle (e.0));
      tasks = ground (arith, h.tasks, ap length (e.1), ap idle (e.0));
      stopping = λ off. inr (omega arith);
    }
Wake-IsAwake (notify_all w due) h = record {
  workers = omega arith;
  tasks = inl refl;
  stopping = λ off. inl refl;
}
Wake-IsAwake (join w s k none_due) h =
    let e = Step-joins s k in
    record {
      workers = omega (arith, h.workers, e.0);
      tasks = inl (omega (arith, h.workers, e.0));
      stopping = λ off. h.stopping (sym (e.2) ∙ off);
    }
Wake-IsAwake (other w s k) h =
    let e = Step-plain s k in
    record {
      workers = omega (arith, h.workers, e.0);
      tasks = ground (arith, h.tasks, ap length (e.1), e.0);
      stopping = λ off. h.stopping (e.2 off);
    }
Wake-IsAwake (spurious w some_asleep) h = record {
  workers = omega (arith, h.workers);
  tasks = ground (arith, h.tasks, h.workers);
  stopping = λ off. ground (arith, h.stopping off);
}

pub Run-IsAwake : (n hardware : ℕ) {w : Waking} → Run (init_waking n hardware) w → IsAwake w
unfolding init_waking
Run-IsAwake n hardware here = record {
  workers = omega arith;
  tasks = inl refl;
  stopping = λ off. inl refl;
}
Run-IsAwake n hardware (next r k) = Wake-IsAwake k (Run-IsAwake n hardware r)

-- In every reachable state where no notification is due, a worker sleeps only while the pool is
-- running and each task of the queue has a worker that is awake and about to take a task: no wake-up
-- is lost.
pub none_lost :
    (n hardware : ℕ) {w : Waking}
    → Run (init_waking n hardware) w
    → w.to_notify ≡ 0
    → w.to_notify_all ≡ 0
    → 0 < w.asleep
    → (w.pool.is_running ≡ true) × (length w.pool.tasks ≤ idle w.pool.workers - w.asleep)
none_lost n hardware {w} r notified all_notified some_asleep =
    let h = Run-IsAwake n hardware r in
    (
      elim (Bool-cases w.pool.is_running) [
        | inl on ↦ on
        | inr off ↦ absurd (ground (arith, h.stopping off))
      ],
      ground (arith, h.tasks),
    )

-- The pool of every reachable state is a reachable state of the pool.
pub Run-Reach :
    (n hardware : ℕ) {w : Waking} → Run (init_waking n hardware) w → Reach (init n hardware) w.pool
unfolding init_waking
Run-Reach n hardware here = ThreadPool.here
Run-Reach n hardware (next r (check w s k free)) = ThreadPool.next (Run-Reach n hardware r) s
Run-Reach n hardware (next r (push w s k)) = ThreadPool.next (Run-Reach n hardware r) s
Run-Reach n hardware (next r (reset w s k)) = ThreadPool.next (Run-Reach n hardware r) s
Run-Reach n hardware (next r (join w s k none_due)) = ThreadPool.next (Run-Reach n hardware r) s
Run-Reach n hardware (next r (other w s k)) = ThreadPool.next (Run-Reach n hardware r) s
Run-Reach n hardware (next r (sleep w none_left on free)) = Run-Reach n hardware r
Run-Reach n hardware (next r (notify_one w due)) = Run-Reach n hardware r
Run-Reach n hardware (next r (notify_all w due)) = Run-Reach n hardware r
Run-Reach n hardware (next r (spurious w some_asleep)) = Run-Reach n hardware r
