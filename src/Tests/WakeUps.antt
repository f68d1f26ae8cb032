-- ===== src/Tests/WakeUps.antt =====
-- A pool of one worker that sleeps, is stopped and woken.
use zero_lan_com.Base.{◌-◌, ◌≤◌, [], ◌∷◌, true, false, length, ◌≡◌, refl, arith}
use zero_lan_com.Utils.ThreadPool.{ThreadPool, init, start, stop_flag}
use zero_lan_com.Utils.ThreadPool.Workers.{waiting, AllExited, idle, replicate}
use zero_lan_com.Utils.ThreadPool.WakeUps.{
  Waking, init_waking, Wake, sleep, reset, notify_all, other, kind,
}
use zero_lan_com.Utils.ThreadPool.WakeUps
use zero_lan_com.Utils.ThreadPool.WakeUps.NoneLost.{none_lost}
use zero_lan_com.Utils.ThreadPool.WakeUps.Joined.{IsUnaided, stop_joins}

abbrev started : ThreadPool
started = record {
  num_threads = 1;
  is_running = true;
  workers = waiting ∷ [];
  tasks = [];
  active_tasks = 0;
  pushing = [];
  accepted = [];
  started = [];
  finished = [];
  late = [];
}

abbrev sleeping : Waking
sleeping = record { pool = started; asleep = 1; to_notify = 0; to_notify_all = 0 }

falling_asleep : WakeUps.Run (init_waking 1 8) sleeping
unfolding init_waking init replicate kind idle
falling_asleep =
    WakeUps.next
      (WakeUps.next WakeUps.here (other (init_waking 1 8) (start (init 1 8) refl refl) refl))
      (sleep (record sleeping { asleep = 0 }) refl refl (omega arith))

none_lost_example : (started.is_running ≡ true) × (length started.tasks ≤ idle started.workers - 1)
none_lost_example = none_lost 1 8 falling_asleep refl refl (omega arith)

abbrev woken : Waking
woken = record sleeping { pool = record started { is_running = false }; asleep = 0 }

stopping : WakeUps.Run (init_waking 1 8) woken
unfolding kind
stopping =
    WakeUps.next (WakeUps.next falling_asleep (reset sleeping (stop_flag started refl) refl)) (
      notify_all
        (record sleeping { pool = record started { is_running = false }; to_notify_all = 1 })
        (omega arith))

stop_joins_example :
    (v : Waking) × (later : WakeUps.Run woken v) × IsUnaided later × AllExited v.pool.workers
stop_joins_example = stop_joins 1 8 stopping refl refl
