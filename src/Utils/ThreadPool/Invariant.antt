-- ===== src/Utils/ThreadPool/Invariant.antt =====
-- What holds of the pool in every reachable state.
use mathlib.Core.List.{append_assoc}
use zero_lan_com.Base.{ℕ, ◌+◌, ◌≤◌, ◌<◌, [], ◌∷◌, ◌++◌, false, ◌≡◌, refl, ap, sym, ◌∙◌, arith}
use zero_lan_com.Utils.ThreadPool.Workers.{
  waiting, running, exited, AllExited, busy, gone, count, running_count, busy-append, gone-append,
  count-append, running_count-append, replicate_waiting, running_count_of_busy, busy_of_exited,
}
use zero_lan_com.Utils.ThreadPool.{
  ThreadPool, init, Step, start, enqueue_test, enqueue_push, take, finish, exit, stop_flag,
  stop_join, Reach, here, next,
}

pub record Inv (p : ThreadPool) : Type 0 where
  -- `active_tasks_` counts the workers that run a task
  pub active : p.active_tasks ≡ busy p.workers
  -- an accepted task is queued, or run by one worker, or ended: never lost and never run twice
  pub tally :
      (t : ℕ)
      → count t p.accepted ≡ count t p.tasks + running_count t p.workers + count t p.finished
  -- tasks are started in the order of their `push`
  pub order : p.accepted ≡ p.started ++ p.tasks
  -- behind the first worker that has exited, only tasks pushed after the stop can be left
  pub left : (t : ℕ) → 0 < gone p.workers → count t p.tasks ≤ count t p.late
  pub stopped : 0 < gone p.workers → p.is_running ≡ false

Inv-init : (n hardware : ℕ) → Inv (init n hardware)
unfolding init busy count running_count gone
Inv-init n hardware = record {
  active = refl;
  tally = λ t. refl;
  order = refl;
  left = λ t h. omega arith;
  stopped = λ h. absurd (omega arith);
}

join-Inv : (p : ThreadPool) → AllExited p.workers → Inv p → Inv (record p { workers = [] })
unfolding busy running_count gone
join-Inv p h v = record {
  active = v.active ∙ busy_of_exited p.workers h;
  tally =
      λ t. omega (arith, v.tally t, running_count_of_busy t p.workers (busy_of_exited p.workers h));
  order = v.order;
  left = λ t g. absurd (omega arith);
  stopped = λ g. absurd (omega arith);
}

Step-Inv : {p q : ThreadPool} → Step p q → Inv p → Inv q
unfolding busy running_count gone count
Step-Inv (start p off none_left) v = record {
  active = omega (arith, v.active, ap busy none_left, (replicate_waiting p.num_threads 0).0);
  tally = λ t.
      omega
        (arith, v.tally t, ap (running_count t) none_left, (replicate_waiting p.num_threads t).2);
  order = v.order;
  left = λ t g. absurd (omega (arith, (replicate_waiting p.num_threads t).1));
  stopped = λ g. absurd (omega (arith, (replicate_waiting p.num_threads 0).1));
}
Step-Inv (enqueue_test p t on) v = record {
  active = v.active;
  tally = v.tally;
  order = v.order;
  left = v.left;
  stopped = v.stopped;
}
Step-Inv (enqueue_push p before after t e) v = record {
  active = v.active;
  tally = λ u.
      omega (arith, v.tally u, count-append u p.accepted (t ∷ []), count-append u p.tasks (t ∷ []));
  order = ap (λ l. l ++ t ∷ []) v.order ∙ append_assoc p.started p.tasks (t ∷ []);
  left = λ u g. ground (arith, v.left u, v.stopped, count-append u p.tasks (t ∷ []));
  stopped = v.stopped;
}
Step-Inv (take p ws vs t rest e f) v = record {
  active =
      omega (
        arith,
        v.active,
        ap busy e,
        busy-append ws (waiting ∷ vs),
        busy-append ws (running t ∷ vs),
      );
  tally = λ u. omega (
    arith,
    v.tally u,
    ap (running_count u) e,
    ap (count u) f,
    running_count-append u ws (waiting ∷ vs),
    running_count-append u ws (running t ∷ vs),
  );
  order = v.order ∙ ap (◌++◌ p.started) f ∙ sym (append_assoc p.started (t ∷ []) rest);
  left = λ u g. omega (
    arith,
    v.left u
        (omega (arith, ap gone e, gone-append ws (waiting ∷ vs), gone-append ws (running t ∷ vs))),
    ap (count u) f,
  );
  stopped = λ g.
      v.stopped
        (omega (arith, ap gone e, gone-append ws (waiting ∷ vs), gone-append ws (running t ∷ vs)));
}
Step-Inv (finish p ws vs t e) v = record {
  active =
      omega (
        arith,
        v.active,
        ap busy e,
        busy-append ws (waiting ∷ vs),
        busy-append ws (running t ∷ vs),
      );
  tally = λ u. omega (
    arith,
    v.tally u,
    ap (running_count u) e,
    running_count-append u ws (waiting ∷ vs),
    running_count-append u ws (running t ∷ vs),
  );
  order = v.order;
  left = λ u g.
      v.left u
        (omega (arith, ap gone e, gone-append ws (waiting ∷ vs), gone-append ws (running t ∷ vs)));
  stopped = λ g.
      v.stopped
        (omega (arith, ap gone e, gone-append ws (waiting ∷ vs), gone-append ws (running t ∷ vs)));
}
Step-Inv (exit p ws vs e off none_left) v = record {
  active =
      omega
        (arith, v.active, ap busy e, busy-append ws (waiting ∷ vs), busy-append ws (exited ∷ vs));
  tally = λ u. omega (
    arith,
    v.tally u,
    ap (running_count u) e,
    running_count-append u ws (waiting ∷ vs),
    running_count-append u ws (exited ∷ vs),
  );
  order = v.order;
  left = λ u g. omega (arith, ap (count u) none_left);
  stopped = λ g. off;
}
Step-Inv (stop_flag p on) v = record {
  active = v.active;
  tally = v.tally;
  order = v.order;
  left = v.left;
  stopped = λ g. refl;
}
Step-Inv (stop_join p off all) v = join-Inv p all v

-- Whatever callers and workers do, from the constructor on: no accepted task is lost or run twice,
-- tasks are started in the order in which they were pushed, `active_tasks_` is the number of busy
-- workers, and workers exit only from a stopped pool with nothing left but late tasks.
pub Reach-Inv : (n hardware : ℕ) {p : ThreadPool} → Reach (init n hardware) p → Inv p
Reach-Inv n hardware here = Inv-init n hardware
Reach-Inv n hardware (next r s) = Step-Inv s (Reach-Inv n hardware r)
