-- ===== src/Utils/ThreadPool/WakeUps.antt =====
-- The condition variable `cv_` of include/zerolancom/utils/thread_pool.hpp: which of the waiting
-- workers are asleep in `cv_.wait`, and the notifications that are due behind a `push` and behind
-- the reset of the flag.
pub mod NoneLost
pub mod Joined
use zero_lan_com.Base.{ℕ, zero, suc, ◌+◌, ◌-◌, ◌<◌, List, [], Bool, true, false, ◌≡◌, ◌≢◌}
use zero_lan_com.Utils.ThreadPool.Workers.{idle}
use zero_lan_com.Utils.ThreadPool.{
  ThreadPool, init, Step, start, enqueue_test, enqueue_push, take, finish, exit, stop_flag,
  stop_join,
}

pub record Waking : Type 0 where
  pub pool : ThreadPool
  -- how many of the waiting workers are asleep; the others are awake and about to take the lock
  pub asleep : ℕ
  -- callers of `enqueue` that have pushed and not yet notified
  pub to_notify : ℕ
  -- callers of `stop` that have reset the flag and not yet notified
  pub to_notify_all : ℕ

unfoldable pub init_waking : ℕ → ℕ → Waking
init_waking num_threads hardware = record {
  pool = init num_threads hardware;
  asleep = 0;
  to_notify = 0;
  to_notify_all = 0;
}

-- What a step of the pool has to do with the condition variable.
pub data Kind : Type 0 where
  -- a worker finds the condition of the wait true
  checks : Kind
  pushes : Kind
  stops : Kind
  joins : Kind
  plain : Kind

unfoldable pub kind : {p q : ThreadPool} → Step p q → Kind
kind (take p ws vs t rest e f) = checks
kind (exit p ws vs e off none_left) = checks
kind (enqueue_push p before after t e) = pushes
kind (stop_flag p on) = stops
kind (stop_join p off all) = joins
kind (start p off none_left) = plain
kind (enqueue_test p t on) = plain
kind (finish p ws vs t e) = plain

pub data Wake : Waking → Waking → Type 0 where
  -- a worker that is awake finds a task, or a pool that is stopped and empty
  check :
      (w : Waking) {q : ThreadPool} (s : Step w.pool q)
      → kind s ≡ checks
      → w.asleep < idle w.pool.workers
      → Wake w (record w { pool = q })
  -- it finds neither, and sleeps
  sleep :
      (w : Waking)
      → w.pool.tasks ≡ []
      → w.pool.is_running ≡ true
      → w.asleep < idle w.pool.workers
      → Wake w (record w { asleep = w.asleep + 1 })
  push :
      (w : Waking) {q : ThreadPool} (s : Step w.pool q)
      → kind s ≡ pushes
      → Wake w (record w { pool = q; to_notify = w.to_notify + 1 })
  -- `cv_.notify_one`, which wakes a worker if one is asleep
  notify_one :
      (w : Waking)
      → 0 < w.to_notify
      → Wake w (record w { asleep = w.asleep - 1; to_notify = w.to_notify - 1 })
  reset :
      (w : Waking) {q : ThreadPool} (s : Step w.pool q)
      → kind s ≡ stops
      → Wake w (record w { pool = q; to_notify_all = w.to_notify_all + 1 })
  -- `cv_.notify_all`
  notify_all :
      (w : Waking)
      → 0 < w.to_notify_all
      → Wake w (record w { asleep = 0; to_notify_all = w.to_notify_all - 1 })
  -- the joins come behind the notification
  join :
      (w : Waking) {q : ThreadPool} (s : Step w.pool q)
      → kind s ≡ joins
      → w.to_notify_all ≡ 0
      → Wake w (record w { pool = q })
  other :
      (w : Waking) {q : ThreadPool} (s : Step w.pool q)
      → kind s ≡ plain
      → Wake w (record w { pool = q })
  -- a wait may end without a notification
  spurious : (w : Waking) → 0 < w.asleep → Wake w (record w { asleep = w.asleep - 1 })

pub data Run (w : Waking) : Waking → Type 0 where
  here : Run w w
  next : {u v : Waking} → Run w u → Wake u v → Run w v
