-- ===== src/Sockets/Discovery/Locks/Deadlock.antt =====
-- Threads that wait for each other.
use zero_lan_com.Base.{
  ◌+◌, ◌≤◌, ◌<◌, List, [], ◌∷◌, ◌++◌, Bool, true, false, if◌then◌else◌, ◌≡◌, refl, arith,
}
use zero_lan_com.Sockets.Discovery.Locks.{
  Thread, idle, registering, checking, withdrawing, holds_mutex, holds_data, shares_data, number,
  Move, begin_register, begin_publishers, begin_check, stale_node, begin_remove, step, Reach, here,
  next,
}

unfoldable pub is_registering : Thread → Bool
is_registering registering = true
is_registering _ = false

unfoldable pub is_withdrawing : Thread → Bool
is_withdrawing withdrawing = true
is_withdrawing _ = false

-- One thread has `mutex_` and wants `data_mutex_`, another has `data_mutex_` and wants `mutex_`.
abbrev pub IsCrossed : List Thread → Type 0
IsCrossed ts = (0 < number is_registering ts) × (0 < number is_withdrawing ts)

pub number-append :
    (p : Thread → Bool) (ws vs : List Thread) → number p (ws ++ vs) ≡ number p ws + number p vs
unfolding number
number-append p [] vs = omega arith
number-append p (w ∷ ws) vs = ground (arith, number-append p ws vs)

-- A class of threads that is part of another.
pub number-le :
    (p q : Thread → Bool) (ts : List Thread)
    → ((t : Thread) → p t ≡ true → q t ≡ true)
    → number p ts ≤ number q ts
unfolding number
number-le p q [] h = omega arith
number-le p q (t ∷ ts) h = ground (arith, h t, number-le p q ts h)

pub registering_holds : (t : Thread) → is_registering t ≡ true → holds_mutex t ≡ true
unfolding is_registering holds_mutex
registering_holds registering h = refl
registering_holds _ h = cc

pub withdrawing_holds : (t : Thread) → is_withdrawing t ≡ true → holds_data t ≡ true
unfolding is_withdrawing holds_data
withdrawing_holds withdrawing h = refl
withdrawing_holds _ h = cc

-- The thread in the middle leaves a class, or not.
pub number-middle :
    (p : Thread → Bool) (ws vs : List Thread) (t : Thread)
    → number p (ws ++ t ∷ vs) ≡ (if p t then 1 else 0) + number p (ws ++ vs)
unfolding number
number-middle p ws vs t = ground (arith, number-append p ws (t ∷ vs), number-append p ws vs)

-- Nobody gets out of a crossing.
Move-IsCrossed :
    (ws vs : List Thread) (t u : Thread)
    → Move (ws ++ vs) t u
    → IsCrossed (ws ++ t ∷ vs)
    → IsCrossed (ws ++ u ∷ vs)
unfolding is_registering is_withdrawing
Move-IsCrossed ws vs _ _ (begin_publishers free) (a, b) = absurd (
    omega (
      arith,
      number-middle is_withdrawing ws vs registering,
      number-le is_withdrawing holds_data (ws ++ vs) withdrawing_holds,
    ))
Move-IsCrossed ws vs _ _ (begin_remove free) (a, b) = absurd (
    omega (
      arith,
      number-middle is_registering ws vs withdrawing,
      number-le is_registering holds_mutex (ws ++ vs) registering_holds,
    ))
Move-IsCrossed ws vs t u m (a, b) = (
  omega (arith, number-middle is_registering ws vs t, number-middle is_registering ws vs u),
  omega (arith, number-middle is_withdrawing ws vs t, number-middle is_withdrawing ws vs u),
)

Reach-IsCrossed : {ts us : List Thread} → Reach ts us → IsCrossed ts → IsCrossed us
Reach-IsCrossed here h = h
Reach-IsCrossed (next r (step ws vs t u m)) h = Move-IsCrossed ws vs t u m (Reach-IsCrossed r h)

-- In one of the methods.
unfoldable pub is_inside : Thread → Bool
is_inside idle = false
is_inside _ = true

-- Where nobody is inside, nobody holds anything.
number_of_none :
    (p : Thread → Bool) (ts : List Thread)
    → ((t : Thread) → p t ≡ true → is_inside t ≡ true)
    → number is_inside ts ≡ 0
    → number p ts ≡ 0
number_of_none p ts part none_inside = omega (arith, number-le p is_inside ts part)

pub mutex_inside : (t : Thread) → holds_mutex t ≡ true → is_inside t ≡ true
unfolding holds_mutex is_inside
mutex_inside idle h = cc
mutex_inside _ h = refl

pub data_inside : (t : Thread) → holds_data t ≡ true → is_inside t ≡ true
unfolding holds_data is_inside
data_inside idle h = cc
data_inside _ h = refl

shared_inside : (t : Thread) → shares_data t ≡ true → is_inside t ≡ true
unfolding shares_data is_inside
shared_inside idle h = cc
shared_inside _ h = refl

crossing :
    (rest : List Thread)
    → number is_inside rest ≡ 0
    → Reach (idle ∷ idle ∷ rest) (registering ∷ withdrawing ∷ rest)
unfolding number holds_mutex holds_data shares_data
crossing rest h =
    next
      (next
        (next here (
          step [] (idle ∷ rest) idle registering
            (begin_register (number_of_none holds_mutex rest mutex_inside h))))
        (step (registering ∷ []) rest idle checking (
          begin_check (number_of_none holds_data rest data_inside h)
            (number_of_none shares_data rest shared_inside h))))
      (step (registering ∷ []) rest checking withdrawing stale_node)

-- Of two threads or more, none of them in a method that locks, one may register a subscriber while
-- another drops a silent node so that each has the mutex that the other wants; from then on, whatever
-- the threads do, there are two such threads.
pub deadlock_forever :
    (rest : List Thread)
    → number is_inside rest ≡ 0
    → Reach (idle ∷ idle ∷ rest) (registering ∷ withdrawing ∷ rest)
      × ((us : List Thread) → Reach (registering ∷ withdrawing ∷ rest) us → IsCrossed us)
unfolding number is_registering is_withdrawing
deadlock_forever rest h = (crossing rest h, λ us r. Reach-IsCrossed r (omega arith, omega arith))
