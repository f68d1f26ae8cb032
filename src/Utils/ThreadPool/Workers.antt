-- ===== src/Utils/ThreadPool/Workers.antt =====
-- The worker threads, and what is counted over them.
use zero_lan_com.Base.{
  ℕ, zero, suc, ◌+◌, List, [], ◌∷◌, ◌++◌, ◌==◌, if◌then◌else◌, ◌≡◌, refl, arith,
}

pub data Worker : Type 0 where
  waiting : Worker
  running : ℕ → Worker
  exited : Worker

unfoldable pub replicate : ℕ → Worker → List Worker
replicate zero w = []
replicate (suc n) w = w ∷ replicate n w

abbrev pub AllExited : List Worker → Type 0
AllExited [] = Unit
AllExited (exited ∷ ws) = AllExited ws
AllExited (_ ∷ ws) = ⊥

-- How many workers have a task, and how many wait.
unfoldable pub busy : List Worker → ℕ
busy [] = 0
busy (running t ∷ ws) = suc (busy ws)
busy (waiting ∷ ws) = busy ws
busy (exited ∷ ws) = busy ws

unfoldable pub idle : List Worker → ℕ
idle [] = 0
idle (waiting ∷ ws) = suc (idle ws)
idle (running t ∷ ws) = idle ws
idle (exited ∷ ws) = idle ws

unfoldable pub gone : List Worker → ℕ
gone [] = 0
gone (exited ∷ ws) = suc (gone ws)
gone (running t ∷ ws) = gone ws
gone (waiting ∷ ws) = gone ws

-- How often a task stands in a list, and how many workers run it.
unfoldable pub count : ℕ → List ℕ → ℕ
count t [] = 0
count t (u ∷ us) = (if u == t then 1 else 0) + count t us

unfoldable pub running_count : ℕ → List Worker → ℕ
running_count t [] = 0
running_count t (running u ∷ ws) = (if u == t then 1 else 0) + running_count t ws
running_count t (waiting ∷ ws) = running_count t ws
running_count t (exited ∷ ws) = running_count t ws

pub busy-append : (ws vs : List Worker) → busy (ws ++ vs) ≡ busy ws + busy vs
unfolding busy
busy-append [] vs = omega arith
busy-append (running t ∷ ws) vs = omega (arith, busy-append ws vs)
busy-append (waiting ∷ ws) vs = busy-append ws vs
busy-append (exited ∷ ws) vs = busy-append ws vs

pub idle-append : (ws vs : List Worker) → idle (ws ++ vs) ≡ idle ws + idle vs
unfolding idle
idle-append [] vs = omega arith
idle-append (waiting ∷ ws) vs = omega (arith, idle-append ws vs)
idle-append (running t ∷ ws) vs = idle-append ws vs
idle-append (exited ∷ ws) vs = idle-append ws vs

pub gone-append : (ws vs : List Worker) → gone (ws ++ vs) ≡ gone ws + gone vs
unfolding gone
gone-append [] vs = omega arith
gone-append (exited ∷ ws) vs = omega (arith, gone-append ws vs)
gone-append (running t ∷ ws) vs = gone-append ws vs
gone-append (waiting ∷ ws) vs = gone-append ws vs

pub count-append : (t : ℕ) (us vs : List ℕ) → count t (us ++ vs) ≡ count t us + count t vs
unfolding count
count-append t [] vs = omega arith
count-append t (u ∷ us) vs = omega (arith, count-append t us vs)

pub running_count-append :
    (t : ℕ) (ws vs : List Worker)
    → running_count t (ws ++ vs) ≡ running_count t ws + running_count t vs
unfolding running_count
running_count-append t [] vs = omega arith
running_count-append t (running u ∷ ws) vs = omega (arith, running_count-append t ws vs)
running_count-append t (waiting ∷ ws) vs = running_count-append t ws vs
running_count-append t (exited ∷ ws) vs = running_count-append t ws vs

-- Workers that all wait run nothing.
pub replicate_waiting :
    (n t : ℕ)
    → (busy (replicate n waiting) ≡ 0)
      × (gone (replicate n waiting) ≡ 0)
      × (running_count t (replicate n waiting) ≡ 0)
unfolding replicate busy gone running_count
replicate_waiting zero t = (refl, refl, refl)
replicate_waiting (suc n) t = replicate_waiting n t

-- With no worker busy, none runs `t`; so too when all have exited.
pub running_count_of_busy : (t : ℕ) (ws : List Worker) → busy ws ≡ 0 → running_count t ws ≡ 0
unfolding busy running_count
running_count_of_busy t [] h = refl
running_count_of_busy t (running u ∷ ws) h = absurd (omega arith)
running_count_of_busy t (waiting ∷ ws) h = running_count_of_busy t ws h
running_count_of_busy t (exited ∷ ws) h = running_count_of_busy t ws h

pub busy_of_exited : (ws : List Worker) → AllExited ws → busy ws ≡ 0
unfolding busy
busy_of_exited [] h = refl
busy_of_exited (exited ∷ ws) h = busy_of_exited ws h
busy_of_exited (running t ∷ ws) h = absurd h
busy_of_exited (waiting ∷ ws) h = absurd h
