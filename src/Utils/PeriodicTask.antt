-- ===== src/Utils/PeriodicTask.antt =====
-- include/zerolancom/utils/periodic_task.hpp: a task with the loops that it has handed to its pool.
-- `start` and `stop` are called by one thread at a time; the loops run on the threads of the pool.
pub mod Finished
use zero_lan_com.Base.{ℕ, suc, ◌+◌, Bool, true, false, if◌then◌else◌, ◌≡◌}

pub record PeriodicTask : Type 0 where
  pub is_running : Bool
  -- loops in the queue of the pool, and loops that run
  pub queued : ℕ
  pub looping : ℕ
  -- `promise_done_` is set
  pub promised : Bool
  -- the history: loops handed to the pool, calls of the callback, loops that have ended, and those
  -- of them that threw `std::future_error` because the promise was set before
  pub handed : ℕ
  pub called : ℕ
  pub ended : ℕ
  pub broken : ℕ

abbrev pub fresh : PeriodicTask
fresh = record {
  is_running = false;
  queued = 0;
  looping = 0;
  promised = false;
  handed = 0;
  called = 0;
  ended = 0;
  broken = 0;
}

-- `start`; a pool that does not run drops the loop.
unfoldable pub start : Bool → PeriodicTask → PeriodicTask
start pool_running p =
    if p.is_running
    then p
    else if pool_running
    then record p { is_running = true; queued = p.queued + 1; handed = p.handed + 1 }
    else record p { is_running = true }

-- The first half of `stop`; what follows waits for the future.
unfoldable pub stop_flag : PeriodicTask → PeriodicTask
stop_flag p = if p.is_running then record p { is_running = false } else p

-- The end of `runLoop`: `set_value` throws if the promise was set before.
unfoldable pub end_loop : PeriodicTask → PeriodicTask
end_loop p =
    if p.promised
    then record p { ended = p.ended + 1; broken = p.broken + 1 }
    else record p { ended = p.ended + 1; promised = true }

pub data Step : PeriodicTask → PeriodicTask → Type 0 where
  started : (p : PeriodicTask) (pool_running : Bool) → Step p (start pool_running p)
  stopping : (p : PeriodicTask) → Step p (stop_flag p)
  -- a thread of the pool takes the loop
  taken :
      (p : PeriodicTask) (n : ℕ)
      → p.queued ≡ suc n
      → Step p (record p { queued = n; looping = p.looping + 1 })
  -- a turn of the loop: an exception of the callback is only logged
  turned :
      (p : PeriodicTask) (n : ℕ)
      → p.looping ≡ suc n
      → p.is_running ≡ true
      → Step p (record p { called = p.called + 1 })
  finished :
      (p : PeriodicTask) (n : ℕ)
      → p.looping ≡ suc n
      → p.is_running ≡ false
      → Step p (end_loop (record p { looping = n }))

pub data Reach (p : PeriodicTask) : PeriodicTask → Type 0 where
  at_start : Reach p p
  then_step : {q r : PeriodicTask} → Reach p q → Step q r → Reach p r
