-- ===== src/Utils/PeriodicTask/Finished.antt =====
-- What it means that `promise_done_` is set, on which `stop` waits.
use zero_lan_com.Base.{◌+◌, ◌≤◌, true, false, if◌then◌else◌, ◌≡◌, refl, arith}
use zero_lan_com.Utils.PeriodicTask.{
  PeriodicTask, fresh, start, stop_flag, end_loop, Step, started, stopping, taken, turned, finished,
  Reach, at_start, then_step,
}

-- Every loop that was handed over is queued, running or ended; the first that ends sets the promise,
-- each further one throws.
pub record IsTallied (p : PeriodicTask) : Type 0 where
  pub loops : p.handed ≡ p.queued + p.looping + p.ended
  pub ends : p.ended ≡ p.broken + (if p.promised then 1 else 0)
  pub first : p.promised ≡ false → p.broken ≡ 0

Step-IsTallied : {p q : PeriodicTask} → Step p q → IsTallied p → IsTallied q
unfolding start stop_flag end_loop
Step-IsTallied (started p pool_running) v = record {
  loops = ground (arith, v.loops);
  ends = ground (arith, v.ends);
  first = λ h. ground (arith, v.first);
}
Step-IsTallied (stopping p) v = record {
  loops = ground (arith, v.loops);
  ends = ground (arith, v.ends);
  first = λ h. ground (arith, v.first);
}
Step-IsTallied (taken p n e) v = record {
  loops = omega (arith, v.loops);
  ends = v.ends;
  first = v.first;
}
Step-IsTallied (turned p n e on) v = record { loops = v.loops; ends = v.ends; first = v.first }
Step-IsTallied (finished p n e off) v = record {
  loops = ground (arith, v.loops);
  ends = ground (arith, v.ends, v.first);
  first = λ h. ground (arith, v.first);
}

Reach-IsTallied : {p : PeriodicTask} → Reach fresh p → IsTallied p
Reach-IsTallied at_start = record { loops = refl; ends = refl; first = λ h. refl }
Reach-IsTallied (then_step r s) = Step-IsTallied s (Reach-IsTallied r)

-- Where a task was handed to its pool once, `stop` that returns because the future is ready returns
-- when no loop is queued or runs, and no loop has thrown.
pub stop_finished :
    {p : PeriodicTask}
    → Reach fresh p
    → p.handed ≤ 1
    → p.promised ≡ true
    → (p.queued ≡ 0) × (p.looping ≡ 0) × (p.broken ≡ 0)
stop_finished {p} r once set =
    let v : IsTallied p = Reach-IsTallied r in
    (
      ground (arith, v.loops, v.ends),
      ground (arith, v.loops, v.ends),
      ground (arith, v.loops, v.ends),
    )

-- Each further time that a task is started again, one of its loops throws `std::future_error` when
-- it ends: of the loops that have ended, all but one.
pub restarts_broken :
    {p : PeriodicTask} → Reach fresh p → p.promised ≡ true → p.ended ≡ p.broken + 1
restarts_broken {p} r set = let v : IsTallied p = Reach-IsTallied r in ground (arith, v.ends)
