-- ===== src/Tests/Locks.antt =====
-- Two threads, the crossing of their locks, and a vector of subscribers that is full.
use zero_lan_com.Base.{List, ◌+◌, ◌≤◌, ◌↔◌, ◌⊎◌, [], ◌∷◌, All, ◌≡◌, refl, arith}
use zero_lan_com.Sockets.Discovery.Locks.{Thread, idle, registering, withdrawing, number, Reach}
use zero_lan_com.Sockets.Discovery.Locks.Deadlock.{is_inside, IsCrossed, deadlock_forever}
use zero_lan_com.Sockets.Discovery.Locks.Progress.{CanGoOn, progress}
use zero_lan_com.Sockets.SubscriberManager.Snapshot.{
  Storage, register_many, take_pointers, IsAlive, take_pointers-IsAlive,
}

nobody : number is_inside [] ≡ 0
unfolding number
nobody = refl

deadlock_forever_example :
    Reach (idle ∷ idle ∷ []) (registering ∷ withdrawing ∷ [])
    × ((us : List Thread) → Reach (registering ∷ withdrawing ∷ []) us → IsCrossed us)
deadlock_forever_example = deadlock_forever [] nobody

progress_example :
    ((number is_inside (registering ∷ idle ∷ []) ≡ 0) ⊎ CanGoOn (registering ∷ idle ∷ []))
    ⊎ IsCrossed (registering ∷ idle ∷ [])
progress_example = progress (registering ∷ idle ∷ [])

-- Four subscribers in a vector for four; a fifth is registered while a poll is under way.
abbrev full : Storage
full = record { block = 0; capacity = 4; size = 4 }

take_pointers-IsAlive_example :
    All (IsAlive (register_many (λ c. c + c) 1 full)) (take_pointers full)
    ↔ ((full.size ≡ 0) ⊎ (full.size + 1 ≤ full.capacity))
take_pointers-IsAlive_example = take_pointers-IsAlive (λ c. c + c) 1 full (omega arith)
