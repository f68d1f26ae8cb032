-- ===== src/Tests/Periodic.antt =====
-- A periodic task that is started, runs one turn, and is stopped.
use zero_lan_com.Base.{true, ◌≡◌, refl, arith}
use zero_lan_com.Utils.PeriodicTask.{
  PeriodicTask, fresh, start, stop_flag, end_loop, started, stopping, taken, turned, finished,
  Reach, at_start, then_step,
}
use zero_lan_com.Utils.PeriodicTask.Finished.{stop_finished}

-- Stopped and at its end, having been handed over once.
abbrev over : PeriodicTask
over = record fresh { promised = true; handed = 1; called = 1; ended = 1 }

one_turn : Reach fresh over
unfolding start stop_flag end_loop
one_turn =
    then_step
      (then_step
        (then_step (then_step (then_step at_start (started fresh true)) (taken _ 0 refl))
          (turned _ 0 refl refl))
        (stopping _))
      (finished _ 0 refl refl)

stop_finished_example : (over.queued ≡ 0) × (over.looping ≡ 0) × (over.broken ≡ 0)
stop_finished_example = stop_finished one_turn (omega arith) refl
