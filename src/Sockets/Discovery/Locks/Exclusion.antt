-- ===== src/Sockets/Discovery/Locks/Exclusion.antt =====
-- What the two mutexes exclude.
use zero_lan_com.Base.{◌≤◌, List, ◌∷◌, ◌++◌, true, false, ◌≡◌, ◌⊎◌, inl, inr, refl, arith}
use zero_lan_com.Sockets.Discovery.Locks.{
  Thread, reading_publishers, reading, holds_mutex, holds_data, shares_data, number, Move,
  begin_register, begin_publishers, end_publishers, begin_check, stale_node, begin_remove,
  end_remove, begin_write, begin_read, begin_use, step, Reach, here, next,
}
use zero_lan_com.Sockets.Discovery.Locks.Deadlock.{
  number-middle, number-le, is_inside, mutex_inside, data_inside,
}

-- At most one thread has `mutex_`, at most one writes the table, and none reads it meanwhile.
pub record IsExclusive (ts : List Thread) : Type 0 where
  pub mutex : number holds_mutex ts ≤ 1
  pub data_mutex : number holds_data ts ≤ 1
  pub readers : (number holds_data ts ≡ 0) ⊎ (number shares_data ts ≡ 0)

-- What a move needs that takes a lock.
record IsAllowed (others : List Thread) (t u : Thread) : Type 0 where
  pub mutex : (holds_mutex u ≡ true) → (holds_mutex t ≡ true) ⊎ (number holds_mutex others ≡ 0)
  pub writer :
      (holds_data u ≡ true)
      → (holds_data t ≡ true) ⊎ (number holds_data others ≡ 0 × number shares_data others ≡ 0)
  pub reader : (shares_data u ≡ true) → (shares_data t ≡ true) ⊎ (number holds_data others ≡ 0)

Move-IsAllowed : (others : List Thread) (t u : Thread) → Move others t u → IsAllowed others t u
unfolding holds_mutex holds_data shares_data
Move-IsAllowed others t u (begin_register free) = record {
  mutex = λ h. inr free;
  writer = λ h. cc;
  reader = λ h. cc;
}
Move-IsAllowed others t u (begin_publishers free) = record {
  mutex = λ h. inl refl;
  writer = λ h. cc;
  reader = λ h. inr free;
}
Move-IsAllowed others t u (begin_check free unread) = record {
  mutex = λ h. cc;
  writer = λ h. inr (free, unread);
  reader = λ h. cc;
}
Move-IsAllowed others t u (begin_remove free) = record {
  mutex = λ h. inr free;
  writer = λ h. inl refl;
  reader = λ h. cc;
}
Move-IsAllowed others t u (begin_write free unread) = record {
  mutex = λ h. cc;
  writer = λ h. inr (free, unread);
  reader = λ h. cc;
}
Move-IsAllowed others t u (begin_read free) = record {
  mutex = λ h. cc;
  writer = λ h. cc;
  reader = λ h. inr free;
}
Move-IsAllowed others t u (begin_use free) = record {
  mutex = λ h. inr free;
  writer = λ h. cc;
  reader = λ h. cc;
}
Move-IsAllowed others t u end_publishers = record {
  mutex = λ h. inl refl;
  writer = λ h. cc;
  reader = λ h. cc;
}
Move-IsAllowed others t u stale_node = record {
  mutex = λ h. cc;
  writer = λ h. inl refl;
  reader = λ h. cc;
}
Move-IsAllowed others t u end_remove = record {
  mutex = λ h. cc;
  writer = λ h. inl refl;
  reader = λ h. cc;
}
Move-IsAllowed others t u _ = record { mutex = λ h. cc; writer = λ h. cc; reader = λ h. cc }

one_mode : (t : Thread) → holds_data t ≡ true → shares_data t ≡ false
unfolding holds_data shares_data
one_mode reading_publishers h = cc
one_mode reading h = cc
one_mode _ h = refl

IsAllowed-IsExclusive :
    (ws vs : List Thread) (t u : Thread)
    → IsAllowed (ws ++ vs) t u
    → IsExclusive (ws ++ t ∷ vs)
    → IsExclusive (ws ++ u ∷ vs)
IsAllowed-IsExclusive ws vs t u a h = record {
  mutex = ground (
    arith,
    number-middle holds_mutex ws vs t,
    number-middle holds_mutex ws vs u,
    h.mutex,
    a.mutex,
  );
  data_mutex = ground (
    arith,
    number-middle holds_data ws vs t,
    number-middle holds_data ws vs u,
    h.data_mutex,
    a.writer,
  );
  readers = ground (
    arith,
    number-middle holds_data ws vs t,
    number-middle holds_data ws vs u,
    number-middle shares_data ws vs t,
    number-middle shares_data ws vs u,
    h.readers,
    a.writer,
    a.reader,
    one_mode u,
  );
}

-- From threads that hold nothing, at most one thread at a time has the mutex of the subscribers, at
-- most one writes the node table, and nobody reads the table while one does.
pub Reach-IsExclusive :
    {ts us : List Thread} → number is_inside ts ≡ 0 → Reach ts us → IsExclusive us
Reach-IsExclusive {ts} none_inside here = record {
  mutex = omega (arith, number-le holds_mutex is_inside ts mutex_inside);
  data_mutex = omega (arith, number-le holds_data is_inside ts data_inside);
  readers = inl (omega (arith, number-le holds_data is_inside ts data_inside));
}
Reach-IsExclusive none_inside (next r (step ws vs t u m)) =
    IsAllowed-IsExclusive ws vs t u (Move-IsAllowed (ws ++ vs) t u m)
      (Reach-IsExclusive none_inside r)
