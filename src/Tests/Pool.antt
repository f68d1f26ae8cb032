-- ===== src/Tests/Pool.antt =====
-- A pool of one worker that is given a task, runs it and is stopped.
use zero_lan_com.Base.{◌+◌, ◌≤◌, [], ◌∷◌, true, false, length, ◌≡◌, refl, arith}
use zero_lan_com.Utils.ThreadPool.{
  ThreadPool, init, pool_size, Step, start, enqueue_test, enqueue_push, take, finish, exit,
  stop_flag, Reach, here, next,
}
use zero_lan_com.Utils.ThreadPool.Workers.{waiting, running, exited, busy, count, replicate}
use zero_lan_com.Utils.ThreadPool.Invariant.{Inv, Reach-Inv}
use zero_lan_com.Utils.ThreadPool.Stopping.{stop_drains}
use zero_lan_com.Utils.ThreadPool.Capacity.{all_start}

-- Task 7 has been pushed.
abbrev loaded : ThreadPool
loaded = record {
  num_threads = 1;
  is_running = true;
  workers = waiting ∷ [];
  tasks = 7 ∷ [];
  active_tasks = 0;
  pushing = [];
  accepted = 7 ∷ [];
  started = [];
  finished = [];
  late = [];
}

abbrev done : ThreadPool
done = record loaded { tasks = []; started = 7 ∷ []; finished = 7 ∷ [] }

abbrev stopped : ThreadPool
stopped = record done { is_running = false; workers = exited ∷ [] }

loading : Reach (init 1 8) loaded
unfolding init replicate
loading =
    next (next (next here (start (init 1 8) refl refl)) (enqueue_test _ 7 refl))
      (enqueue_push _ [] [] 7 refl)

abbrev pick_up :
    Step loaded
      (record loaded { workers = running 7 ∷ []; tasks = []; active_tasks = 1; started = 7 ∷ [] })
pick_up = take loaded [] [] 7 [] refl refl

working : Reach (init 1 8) done
working = next (next loading pick_up) (finish _ [] [] 7 refl)

stopping : Reach (init 1 8) stopped
stopping = next (next working (stop_flag done refl)) (exit _ [] [] refl refl refl)

Reach-Inv_example : Inv stopped
Reach-Inv_example = Reach-Inv 1 8 stopping

stop_drains_example :
    (count 7 stopped.accepted ≤ count 7 stopped.finished + count 7 stopped.late)
    × (count 7 stopped.finished ≤ count 7 stopped.accepted)
stop_drains_example = stop_drains 1 8 7 stopping tt (λ e. cc)

all_start_example :
    (q : ThreadPool) × Reach loaded q
    × (q.accepted ≡ loaded.accepted)
    × (q.started ≡ loaded.accepted)
    × (q.finished ≡ loaded.finished)
    × (q.is_running ≡ true)
    × (busy q.workers + length q.finished ≡ length q.started)
unfolding pool_size
all_start_example = all_start 1 8 loading refl (omega arith)
