-- ===== src/Utils/ThreadPool/Waiters.antt =====
-- The condition variable `cv_done_` of include/zerolancom/utils/thread_pool.hpp: the callers of
-- `wait`, and the one of them that is notified behind each task.
pub mod Notified
use zero_lan_com.Base.{
  ℕ, ◌+◌, ◌-◌, ◌<◌, List, [], ◌∷◌, ◌&&◌, ◌==◌, Bool, true, false, length, ◌≡◌, ltb, if◌then◌else◌,
}
use zero_lan_com.Utils.ThreadPool.{
  ThreadPool, init, Step, start, enqueue_test, enqueue_push, take, finish, exit, stop_flag,
  stop_join,
}

pub record Waiters : Type 0 where
  pub pool : ThreadPool
  -- callers that are about to test the condition, and callers that sleep
  pub awake : ℕ
  pub asleep : ℕ
  pub returned : ℕ
  -- workers that have ended a task and not yet notified
  pub to_notify : ℕ
  -- the history: how often a caller fell asleep, and how often a wait ended without a notification
  pub slept : ℕ
  pub by_chance : ℕ

unfoldable pub init_waiters : ℕ → ℕ → Waiters
init_waiters num_threads hardware = record {
  pool = init num_threads hardware;
  awake = 0;
  asleep = 0;
  returned = 0;
  to_notify = 0;
  slept = 0;
  by_chance = 0;
}

-- `tasks_.empty() && active_tasks_ == 0`.
unfoldable pub is_done : ThreadPool → Bool
is_done p = length p.tasks == 0 && p.active_tasks == 0

unfoldable pub is_finish : {p q : ThreadPool} → Step p q → Bool
is_finish (finish p ws vs t e) = true
is_finish (take p ws vs t rest e f) = false
is_finish (exit p ws vs e off none_left) = false
is_finish (enqueue_push p before after t e) = false
is_finish (stop_flag p on) = false
is_finish (stop_join p off all) = false
is_finish (start p off none_left) = false
is_finish (enqueue_test p t on) = false

pub data Move : Waiters → Waiters → Type 0 where
  ends :
      (w : Waiters) {q : ThreadPool} (s : Step w.pool q)
      → is_finish s ≡ true
      → Move w (record w { pool = q; to_notify = w.to_notify + 1 })
  moves :
      (w : Waiters) {q : ThreadPool} (s : Step w.pool q)
      → is_finish s ≡ false
      → Move w (record w { pool = q })
  -- `cv_done_.notify_one`
  notify_none :
      (w : Waiters)
      → 0 < w.to_notify
      → w.asleep ≡ 0
      → Move w (record w { to_notify = w.to_notify - 1 })
  notify_one :
      (w : Waiters)
      → 0 < w.to_notify
      → 0 < w.asleep
      → Move w
          (record w { to_notify = w.to_notify - 1; asleep = w.asleep - 1; awake = w.awake + 1 })
  -- `wait`: it is called, it finds its condition true, or it sleeps
  calls : (w : Waiters) → Move w (record w { awake = w.awake + 1 })
  returns :
      (w : Waiters)
      → 0 < w.awake
      → is_done w.pool ≡ true
      → Move w (record w { awake = w.awake - 1; returned = w.returned + 1 })
  sleeps :
      (w : Waiters)
      → 0 < w.awake
      → is_done w.pool ≡ false
      → Move w (record w { awake = w.awake - 1; asleep = w.asleep + 1; slept = w.slept + 1 })
  spurious :
      (w : Waiters)
      → 0 < w.asleep
      → Move w
          (record w { asleep = w.asleep - 1; awake = w.awake + 1; by_chance = w.by_chance + 1 })

pub data Run (w : Waiters) : Waiters → Type 0 where
  here : Run w w
  next : {u v : Waiters} → Run w u → Move u v → Run w v
