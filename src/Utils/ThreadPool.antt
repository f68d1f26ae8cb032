-- ===== src/Utils/ThreadPool.antt =====
-- include/zerolancom/utils/thread_pool.hpp: the pool as a step relation. Each step is what a thread
-- does while it holds the mutex, or one access to `is_running_` without it; callers and workers
-- interleave in any order. A task is a number.
pub mod Workers
pub mod Invariant
pub mod Stopping
pub mod Capacity
pub mod WakeUps
pub mod Waiters
use zero_lan_com.Base.{
  ℕ, ◌+◌, ◌-◌, ◌<◌, List, [], ◌∷◌, ◌++◌, Bool, true, false, ltb, if◌then◌else◌, ◌≡◌,
}
use Workers.{Worker, waiting, running, exited, AllExited, replicate}

pub record ThreadPool : Type 0 where
  pub num_threads : ℕ
  pub is_running : Bool
  pub workers : List Worker
  pub tasks : List ℕ
  pub active_tasks : ℕ
  -- callers of `enqueue` that have passed its test and not yet pushed
  pub pushing : List ℕ
  -- the history: tasks in the order of `push`, in the order of `pop`, those that ended, and those
  -- pushed when the pool was no longer running
  pub accepted : List ℕ
  pub started : List ℕ
  pub finished : List ℕ
  pub late : List ℕ

-- The constructor; `hardware` is `std::thread::hardware_concurrency()`.
unfoldable pub pool_size : ℕ → ℕ → ℕ
pool_size num_threads hardware =
    let n = if ltb 0 num_threads then num_threads else hardware in if ltb 0 n then n else 1

unfoldable pub init : ℕ → ℕ → ThreadPool
unfolding pool_size
init num_threads hardware = record {
  num_threads = pool_size num_threads hardware;
  is_running = false;
  workers = [];
  tasks = [];
  active_tasks = 0;
  pushing = [];
  accepted = [];
  started = [];
  finished = [];
  late = [];
}

pub data Step : ThreadPool → ThreadPool → Type 0 where
  -- `start`, on a stopped pool whose threads have been joined
  start :
      (p : ThreadPool)
      → p.is_running ≡ false
      → p.workers ≡ []
      → Step p (record p { is_running = true; workers = replicate p.num_threads waiting })
  -- `enqueue`: the test, and then the push under the mutex
  enqueue_test :
      (p : ThreadPool) (t : ℕ) → p.is_running ≡ true → Step p (record p { pushing = t ∷ p.pushing })
  enqueue_push :
      (p : ThreadPool) (before after : List ℕ) (t : ℕ)
      → p.pushing ≡ before ++ t ∷ after
      → Step p (record p {
        pushing = before ++ after;
        tasks = p.tasks ++ t ∷ [];
        accepted = p.accepted ++ t ∷ [];
        late = if p.is_running then p.late else t ∷ p.late;
      })
  -- the worker loop: a task is there
  take :
      (p : ThreadPool) (ws vs : List Worker) (t : ℕ) (rest : List ℕ)
      → p.workers ≡ ws ++ waiting ∷ vs
      → p.tasks ≡ t ∷ rest
      → Step p (record p {
        workers = ws ++ running t ∷ vs;
        tasks = rest;
        active_tasks = p.active_tasks + 1;
        started = p.started ++ t ∷ [];
      })
  -- the task has returned or thrown
  finish :
      (p : ThreadPool) (ws vs : List Worker) (t : ℕ)
      → p.workers ≡ ws ++ running t ∷ vs
      → Step p (record p {
        workers = ws ++ waiting ∷ vs;
        active_tasks = p.active_tasks - 1;
        finished = t ∷ p.finished;
      })
  -- the pool is stopped and there are no more tasks
  exit :
      (p : ThreadPool) (ws vs : List Worker)
      → p.workers ≡ ws ++ waiting ∷ vs
      → p.is_running ≡ false
      → p.tasks ≡ []
      → Step p (record p { workers = ws ++ exited ∷ vs })
  -- `stop`: the flag, and after all joins `workers_.clear()`
  stop_flag : (p : ThreadPool) → p.is_running ≡ true → Step p (record p { is_running = false })
  stop_join :
      (p : ThreadPool)
      → p.is_running ≡ false
      → AllExited p.workers
      → Step p (record p { workers = [] })

pub data Reach (p : ThreadPool) : ThreadPool → Type 0 where
  here : Reach p p
  next : {q r : ThreadPool} → Reach p q → Step q r → Reach p r
