-- ===== src/Utils/ThreadPool/WakeUps/Joined.antt =====
-- The joins of `stop`, with the condition variable.
use zero_lan_com.Base.{ℕ, zero, suc, ◌≤◌, true, false, ◌≡◌, inl, inr, refl, ◌∙◌, arith}
use zero_lan_com.Utils.ThreadPool.Workers.{waiting, AllExited, idle}
use zero_lan_com.Utils.ThreadPool.{ThreadPool, Step, take, finish, exit}
use zero_lan_com.Utils.ThreadPool.Stopping.{is_worker_step, work_left, work_left-lt, stop_progress}
use zero_lan_com.Utils.ThreadPool.WakeUps.{
  Waking, init_waking, kind, Wake, check, other, Run, here, next,
}
use zero_lan_com.Utils.ThreadPool.WakeUps.NoneLost.{idle-middle, Run-IsAwake}

-- A step of a worker is a step with the condition variable too, where nobody sleeps.
worker_Wake :
    (w : Waking) {q : ThreadPool} (s : Step w.pool q)
    → is_worker_step s ≡ true
    → w.asleep ≡ 0
    → Wake w (record w { pool = q })
unfolding kind idle
worker_Wake w (take _ ws vs t rest e f) h none =
    check w (take _ ws vs t rest e f) refl
      (omega (arith, idle-middle ws vs w.pool.workers waiting waiting e))
worker_Wake w (exit _ ws vs e off none_left) h none =
    check w (exit _ ws vs e off none_left) refl
      (omega (arith, idle-middle ws vs w.pool.workers waiting waiting e))
worker_Wake w (finish _ ws vs t e) h none = other w (finish _ ws vs t e) refl
worker_Wake w _ h none = cc

worker_running :
    {p q : ThreadPool} (s : Step p q) → is_worker_step s ≡ true → q.is_running ≡ p.is_running
worker_running (take p ws vs t rest e f) h = refl
worker_running (exit p ws vs e off none_left) h = refl
worker_running (finish p ws vs t e) h = refl
worker_running _ h = cc

-- Steps of workers that are awake: nobody is notified, and nobody wakes or sleeps.
abbrev pub IsWork : {w v : Waking} → Wake w v → Type 0
IsWork (check w s h awake) = Unit
IsWork (other w s h) = is_worker_step s ≡ true
IsWork _ = ⊥

abbrev pub IsUnaided : {w v : Waking} → Run w v → Type 0
IsUnaided here = Unit
IsUnaided (next r s) = IsUnaided r × IsWork s

worker_Wake-IsWork :
    (w : Waking) {q : ThreadPool} (s : Step w.pool q) (h : is_worker_step s ≡ true)
    (none : w.asleep ≡ 0)
    → IsWork (worker_Wake w s h none)
unfolding worker_Wake
worker_Wake-IsWork w (take _ ws vs t rest e f) h none = tt
worker_Wake-IsWork w (exit _ ws vs e off none_left) h none = tt
worker_Wake-IsWork w (finish _ ws vs t e) h none = refl
worker_Wake-IsWork w _ h none = absurd (cc)

-- The steps of the workers, one after another, until nothing is left to do.
exit_all :
    (k : ℕ) (w u : Waking)
    → (r : Run w u) → IsUnaided r
    → work_left u.pool ≤ k
    → u.asleep ≡ 0
    → u.pool.is_running ≡ false
    → (v : Waking) × (later : Run w v) × IsUnaided later × AllExited v.pool.workers
exit_all zero w u r unaided bound none off = elim (stop_progress u.pool off) [
  | inl all ↦ (u, r, unaided, all)
  | inr moved ↦ absurd (omega (arith, work_left-lt moved.1 moved.2))
]
exit_all (suc k) w u r unaided bound none off = elim (stop_progress u.pool off) [
  | inl all ↦ (u, r, unaided, all)
  | inr moved ↦
      exit_all k w (record u { pool = moved.0 }) (next r (worker_Wake u moved.1 moved.2 none))
        (unaided, worker_Wake-IsWork u moved.1 moved.2 none)
        (omega (arith, work_left-lt moved.1 moved.2)) none (worker_running moved.1 moved.2 ∙ off)
]

-- When `stop` has reset the flag and notified all workers, these can go on until every one of them
-- has exited, with no further notification and no wake-up by chance: all of them are awake, and the
-- joins of `stop` are not blocked.
pub stop_joins :
    (n hardware : ℕ) {w : Waking}
    → Run (init_waking n hardware) w
    → w.pool.is_running ≡ false
    → w.to_notify_all ≡ 0
    → (v : Waking) × (later : Run w v) × IsUnaided later × AllExited v.pool.workers
stop_joins n hardware {w} r off notified =
    exit_all (work_left w.pool) w w here tt (omega arith)
      (ground (arith, (Run-IsAwake n hardware r).stopping off)) off
