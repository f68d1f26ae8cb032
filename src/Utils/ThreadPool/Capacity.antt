-- ===== src/Utils/ThreadPool/Capacity.antt =====
-- How many tasks a pool can run at once: a task that does not end, such as the loop of a
-- `PeriodicTask`, keeps its worker.
use mathlib.Core.List.{append-nil}
use zero_lan_com.Base.{
  ℕ, zero, suc, ◌+◌, ◌≤◌, ◌<◌, List, [], ◌∷◌, ◌++◌, true, false, length, length-append, ◌≡◌, refl,
  ap, sym, ◌∙◌, arith,
}
use zero_lan_com.Utils.ThreadPool.Workers.{
  Worker, waiting, running, exited, replicate, busy, idle, gone, busy-append, idle-append,
  replicate_waiting, busy_of_exited,
}
use zero_lan_com.Utils.ThreadPool.{
  ThreadPool, init, pool_size, Step, start, enqueue_test, enqueue_push, take, finish, exit,
  stop_flag, stop_join, Reach, here, next,
}
use zero_lan_com.Utils.ThreadPool.Invariant.{Inv, Reach-Inv}

kinds-length : (ws : List Worker) → busy ws + idle ws + gone ws ≡ length ws
unfolding busy idle gone
kinds-length [] = refl
kinds-length (waiting ∷ ws) = omega (arith, kinds-length ws)
kinds-length (running t ∷ ws) = omega (arith, kinds-length ws)
kinds-length (exited ∷ ws) = omega (arith, kinds-length ws)

length-replicate : (n : ℕ) (w : Worker) → length (replicate n w) ≡ n
unfolding replicate
length-replicate zero w = refl
length-replicate (suc n) w = omega (arith, length-replicate n w)

-- One worker has become another.
length-changed :
    (ws us vs : List Worker) (w v : Worker) → ws ≡ us ++ w ∷ vs → length (us ++ v ∷ vs) ≡ length ws
length-changed ws us vs w v e =
    omega (arith, ap length e, length-append us (w ∷ vs), length-append us (v ∷ vs))

record Sized (size : ℕ) (p : ThreadPool) : Type 0 where
  threads : p.num_threads ≡ size
  -- a pool that runs has all its workers
  full : p.is_running ≡ true → length p.workers ≡ size
  -- each accepted task is queued, runs or has ended
  places : length p.accepted ≡ length p.tasks + busy p.workers + length p.finished

Step-Sized : (size : ℕ) {p q : ThreadPool} → Step p q → Sized size p → Sized size q
unfolding busy
Step-Sized size (start p off none_left) v = record {
  threads = v.threads;
  full = λ on. length-replicate p.num_threads waiting ∙ v.threads;
  places = omega (arith, v.places, ap busy none_left, (replicate_waiting p.num_threads 0).0);
}
Step-Sized size (enqueue_test p t on) v = record {
  threads = v.threads;
  full = v.full;
  places = v.places;
}
Step-Sized size (enqueue_push p before after t e) v = record {
  threads = v.threads;
  full = v.full;
  places =
      omega (arith, v.places, length-append p.accepted (t ∷ []), length-append p.tasks (t ∷ []));
}
Step-Sized size (take p ws vs t rest e f) v = record {
  threads = v.threads;
  full = λ on. length-changed p.workers ws vs waiting (running t) e ∙ v.full on;
  places = omega (
    arith,
    v.places,
    ap busy e,
    ap length f,
    busy-append ws (waiting ∷ vs),
    busy-append ws (running t ∷ vs),
  );
}
Step-Sized size (finish p ws vs t e) v = record {
  threads = v.threads;
  full = λ on. length-changed p.workers ws vs (running t) waiting e ∙ v.full on;
  places =
      omega (
        arith,
        v.places,
        ap busy e,
        busy-append ws (waiting ∷ vs),
        busy-append ws (running t ∷ vs),
      );
}
Step-Sized size (exit p ws vs e off none_left) v = record {
  threads = v.threads;
  full = λ on. length-changed p.workers ws vs waiting exited e ∙ v.full on;
  places =
      omega
        (arith, v.places, ap busy e, busy-append ws (waiting ∷ vs), busy-append ws (exited ∷ vs));
}
Step-Sized size (stop_flag p on) v = record {
  threads = v.threads;
  full = λ e. v.full on;
  places = v.places;
}
Step-Sized size (stop_join p off all) v = record {
  threads = v.threads;
  full = λ on. absurd (let clash : false ≡ true = sym off ∙ on in cc);
  places = omega (arith, v.places, busy_of_exited p.workers all);
}

Reach-Sized :
    (n hardware : ℕ) {p : ThreadPool} → Reach (init n hardware) p → Sized (pool_size n hardware) p
unfolding init busy
Reach-Sized n hardware here = record { threads = refl; full = λ on. cc; places = refl }
Reach-Sized n hardware (next r s) = Step-Sized (pool_size n hardware) s (Reach-Sized n hardware r)

some_waiting :
    (ws : List Worker)
    → 0 < idle ws
    → (us : List Worker) × (vs : List Worker) × (ws ≡ us ++ waiting ∷ vs)
unfolding idle
some_waiting [] h = absurd (omega arith)
some_waiting (waiting ∷ ws) h = ([], ws, refl)
some_waiting (running t ∷ ws) h =
    let (us, vs, e) = some_waiting ws h in (running t ∷ us, vs, ap (◌∷◌ (running t)) e)
some_waiting (exited ∷ ws) h =
    let (us, vs, e) = some_waiting ws h in (exited ∷ us, vs, ap (◌∷◌ exited) e)

-- Tasks have been taken, and nothing else has happened.
record Taking (p q : ThreadPool) : Type 0 where
  run : Reach p q
  accepted : q.accepted ≡ p.accepted
  finished : q.finished ≡ p.finished
  flag : q.is_running ≡ p.is_running
  queue : q.tasks ≡ []

Reach-before : {p q r : ThreadPool} → Step p q → Reach q r → Reach p r
Reach-before s here = next here s
Reach-before s (next r t) = next (Reach-before s r) t

-- Where as many workers wait as there are tasks in the queue, all of these can be taken.
take_all :
    (tasks : List ℕ) (p : ThreadPool)
    → p.tasks ≡ tasks
    → length tasks ≤ idle p.workers
    → (q : ThreadPool) × Taking p q
unfolding idle
take_all [] p e h =
    (p, record { run = here; accepted = refl; finished = refl; flag = refl; queue = e })
take_all (t ∷ rest) p e h =
    let (us, vs, w) = some_waiting p.workers (omega arith) in
    let n : ThreadPool = record p {
      workers = us ++ running t ∷ vs;
      tasks = rest;
      active_tasks = p.active_tasks + 1;
      started = p.started ++ t ∷ [];
    } in
    let (q, taking) =
      take_all rest n refl (
        omega (arith, ap idle w, idle-append us (waiting ∷ vs), idle-append us (running t ∷ vs))) in
    (
      q,
      record {
        run = Reach-before (take p us vs t rest w e) taking.run;
        accepted = taking.accepted;
        finished = taking.finished;
        flag = taking.flag;
        queue = taking.queue;
      },
    )

Reach-after : {p q r : ThreadPool} → Reach p q → Reach q r → Reach p r
Reach-after r here = r
Reach-after r (next s t) = next (Reach-after r s) t

-- A running pool with no more unfinished tasks than threads can start every task that was pushed, in
-- the order of the pushes, with no step in which a task ends or is pushed: afterwards each of the
-- unfinished tasks has a worker. So the four loops of a node, which do not end, all come to run on
-- its four threads.
pub all_start :
    (n hardware : ℕ) {p : ThreadPool}
    → Reach (init n hardware) p
    → p.is_running ≡ true
    → length p.accepted ≤ pool_size n hardware + length p.finished
    → (q : ThreadPool) × Reach p q
      × (q.accepted ≡ p.accepted)
      × (q.started ≡ p.accepted)
      × (q.finished ≡ p.finished)
      × (q.is_running ≡ true)
      × (busy q.workers + length q.finished ≡ length q.started)
all_start n hardware {p} r on few =
    let v : Sized (pool_size n hardware) p = Reach-Sized n hardware r in
    let i : Inv p = Reach-Inv n hardware r in
    let none_gone : gone p.workers ≡ 0 = ground (arith, i.stopped) in
    let (q, taking) =
      take_all p.tasks p refl
        (omega (arith, v.places, v.full on, kinds-length p.workers, none_gone)) in
    let later = Reach-after r taking.run in
    let order : q.accepted ≡ q.started =
      (Reach-Inv n hardware later).order
      ∙ ap (◌++◌ q.started) taking.queue
      ∙ append-nil q.started in
    (
      q,
      taking.run,
      taking.accepted,
      sym order ∙ taking.accepted,
      taking.finished,
      taking.flag ∙ on,
      omega (arith, (Reach-Sized n hardware later).places, ap length taking.queue, ap length order),
    )
