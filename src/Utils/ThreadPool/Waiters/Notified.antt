-- ===== src/Utils/ThreadPool/Waiters/Notified.antt =====
-- Which callers of `wait` are woken.
use zero_lan_com.Base.{
  ℕ, ◌+◌, ◌≤◌, ◌<◌, [], ◌∷◌, true, false, length, length-append, ◌≡◌, ◌⊎◌, inl, inr, refl, arith,
}
use zero_lan_com.Utils.ThreadPool.{
  ThreadPool, init, Step, start, enqueue_test, enqueue_push, take, finish, exit, stop_flag,
  stop_join,
}
use zero_lan_com.Utils.ThreadPool.Waiters.{
  Waiters, init_waiters, is_done, is_finish, Move, ends, moves, notify_none, notify_one, calls,
  returns, sleeps, spurious, Run, here, next,
}

-- Only the end of a task makes the condition true.
moves_done :
    {p q : ThreadPool} (s : Step p q) → is_finish s ≡ false → is_done p ≡ false → is_done q ≡ false
unfolding is_finish is_done
moves_done (take p ws vs t rest e f) h d = ground arith
moves_done (exit p ws vs e off none_left) h d = d
moves_done (enqueue_push p before after t e) h d = ground (arith, length-append p.tasks (t ∷ []))
moves_done (stop_flag p on) h d = d
moves_done (stop_join p off all) h d = d
moves_done (start p off none_left) h d = d
moves_done (enqueue_test p t on) h d = d
moves_done (finish p ws vs t e) h d = cc

-- A caller sleeps alone only while there are tasks or a notification is due.
record IsWatched (w : Waiters) : Type 0 where
  pub watched : (0 < w.asleep) → (is_done w.pool ≡ false) ⊎ (0 < w.to_notify)

Move-IsWatched : {w v : Waiters} → Move w v → v.awake + v.asleep ≤ 1 → IsWatched w → IsWatched v
Move-IsWatched (ends w s h) alone v = record { watched = λ some_asleep. inr (omega arith) }
Move-IsWatched (moves w s h) alone v = record {
  watched = λ some_asleep. ground (arith, v.watched some_asleep, moves_done s h);
}
Move-IsWatched (notify_none w due none) alone v = record {
  watched = λ some_asleep. absurd (omega arith);
}
Move-IsWatched (notify_one w due some_asleep) alone v = record {
  watched = λ more. absurd (omega arith);
}
Move-IsWatched (calls w) alone v = record { watched = v.watched }
Move-IsWatched (returns w some_awake done) alone v = record { watched = v.watched }
Move-IsWatched (sleeps w some_awake more) alone v = record { watched = λ some_asleep. inl more }
Move-IsWatched (spurious w some_asleep) alone v = record { watched = λ more. absurd (omega arith) }

-- At most one caller is in `wait` at a time, all along.
abbrev pub IsAlone : {w v : Waiters} → Run w v → Type 0
IsAlone here = Unit
IsAlone (next {v = v} r m) = (v.awake + v.asleep ≤ 1) × IsAlone r

Run-IsWatched :
    (n hardware : ℕ) {w : Waiters} (r : Run (init_waiters n hardware) w) → IsAlone r → IsWatched w
unfolding init_waiters
Run-IsWatched n hardware here alone = record { watched = λ some_asleep. absurd (omega arith) }
Run-IsWatched n hardware (next r m) alone =
    Move-IsWatched m alone.0 (Run-IsWatched n hardware r alone.1)

-- As long as there is at most one caller in `wait` at a time, the caller sleeps only while there is
-- a task in the queue or with a worker, or a worker that has ended a task is about to notify.
pub one_waiter_watched :
    (n hardware : ℕ) {w : Waiters} (r : Run (init_waiters n hardware) w)
    → IsAlone r
    → 0 < w.asleep
    → (is_done w.pool ≡ false) ⊎ (0 < w.to_notify)
one_waiter_watched n hardware r alone = (Run-IsWatched n hardware r alone).watched

-- At most one caller is woken behind each task.
ends_finished :
    {p q : ThreadPool} (s : Step p q)
    → is_finish s ≡ true
    → length q.finished ≡ length p.finished + 1
unfolding is_finish
ends_finished (finish p ws vs t e) h = omega arith
ends_finished _ h = cc

moves_finished :
    {p q : ThreadPool} (s : Step p q) → is_finish s ≡ false → length q.finished ≡ length p.finished
unfolding is_finish
moves_finished (finish p ws vs t e) h = cc
moves_finished _ h = refl

-- In every reachable state the callers of `wait` that fell asleep and are awake again are at most as
-- many as the tasks that have ended, but for those that wake by chance: two callers that wait for one
-- task are not both woken when it ends.
pub wakes_bounded :
    (n hardware : ℕ) {w : Waiters}
    → Run (init_waiters n hardware) w
    → w.slept + w.to_notify ≤ w.asleep + (length w.pool.finished + w.by_chance)
unfolding init_waiters init
wakes_bounded n hardware here = omega arith
wakes_bounded n hardware (next r (ends w s h)) =
    omega (arith, wakes_bounded n hardware r, ends_finished s h)
wakes_bounded n hardware (next r (moves w s h)) =
    omega (arith, wakes_bounded n hardware r, moves_finished s h)
wakes_bounded n hardware (next r (notify_none w due none)) =
    omega (arith, wakes_bounded n hardware r)
wakes_bounded n hardware (next r (notify_one w due some_asleep)) =
    omega (arith, wakes_bounded n hardware r)
wakes_bounded n hardware (next r (calls w)) = omega (arith, wakes_bounded n hardware r)
wakes_bounded n hardware (next r (returns w some_awake done)) =
    omega (arith, wakes_bounded n hardware r)
wakes_bounded n hardware (next r (sleeps w some_awake more)) =
    omega (arith, wakes_bounded n hardware r)
wakes_bounded n hardware (next r (spurious w some_asleep)) =
    omega (arith, wakes_bounded n hardware r)
