-- ===== src/Utils/ZmqContext/Closing.antt =====
-- What a context makes and closes, counted by handle.
use zero_lan_com.Base.{
  ℕ, ◌+◌, ◌≤◌, ◌==◌, List, [], ◌∷◌, ◌++◌, Option, none, some, if◌then◌else◌, ◌≡◌, refl, ap, arith,
  Bool-cases, Option-cases, inl, inr,
}
use zero_lan_com.Utils.ThreadPool.Workers.{count}
use zero_lan_com.Base.Result.{Result, ok, err}
use zero_lan_com.Utils.ZmqContext.{
  ZmqCall, make, close, term, Zmq, ZmqContext, make_socket, close_socket, kept, given_away,
  create_socket, create_temp_socket, take_out, end_temp_socket, close_all, closed, destroy_context,
}

-- How often a handle was made and closed.
unfoldable pub made_count : ℕ → List ZmqCall → ℕ
made_count h [] = 0
made_count h (make j ∷ calls) = (if j == h then 1 else 0) + made_count h calls
made_count h (close j ∷ calls) = made_count h calls
made_count h (term ∷ calls) = made_count h calls

unfoldable pub closed_count : ℕ → List ZmqCall → ℕ
closed_count h [] = 0
closed_count h (close j ∷ calls) = (if j == h then 1 else 0) + closed_count h calls
closed_count h (make j ∷ calls) = closed_count h calls
closed_count h (term ∷ calls) = closed_count h calls

unfoldable pub held_count : ℕ → List (Option ℕ) → ℕ
held_count h [] = 0
held_count h (none ∷ ss) = held_count h ss
held_count h (some j ∷ ss) = (if j == h then 1 else 0) + held_count h ss

-- The context has not been terminated.
abbrev pub NoTerm : List ZmqCall → Type 0
NoTerm [] = Unit
NoTerm (term ∷ calls) = ⊥
NoTerm (make j ∷ calls) = NoTerm calls
NoTerm (close j ∷ calls) = NoTerm calls

record IsOwned (c : ZmqContext) : Type 0 where
  -- each handle was made at most once, and is still open exactly if the context or a caller has it
  once : (h : ℕ) → made_count h c.zmq.calls ≤ 1
  fresh : (h : ℕ) → c.zmq.next_handle ≤ h → made_count h c.zmq.calls ≡ 0
  balance :
      (h : ℕ)
      → made_count h c.zmq.calls
        ≡ closed_count h c.zmq.calls + held_count h c.sockets + count h c.temps
  going : NoTerm c.zmq.calls

held_count-append :
    (h : ℕ) (ss ts : List (Option ℕ)) → held_count h (ss ++ ts) ≡ held_count h ss + held_count h ts
unfolding held_count
held_count-append h [] ts = omega arith
held_count-append h (none ∷ ss) ts = held_count-append h ss ts
held_count-append h (some j ∷ ss) ts = omega (arith, held_count-append h ss ts)

create_socket-IsOwned :
    (opened : Result (Unit {0})) (c : ZmqContext) → IsOwned c → IsOwned (create_socket opened c)
unfolding create_socket kept make_socket made_count closed_count held_count
create_socket-IsOwned (err thrown) c v = record {
  once = v.once;
  fresh = v.fresh;
  balance = v.balance;
  going = v.going;
}
create_socket-IsOwned (ok made) c v = record {
  once = λ h. ground (arith, v.once h, v.fresh h);
  fresh = λ h new. ground (arith, v.fresh h);
  balance =
      λ h. omega (arith, v.balance h, held_count-append h c.sockets (some c.zmq.next_handle ∷ []));
  going = v.going;
}

create_temp_socket-IsOwned :
    (opened : Result (Unit {0})) (c : ZmqContext)
    → IsOwned c
    → IsOwned (create_temp_socket opened c)
unfolding create_temp_socket given_away make_socket made_count closed_count count
create_temp_socket-IsOwned (err thrown) c v = record {
  once = v.once;
  fresh = v.fresh;
  balance = v.balance;
  going = v.going;
}
create_temp_socket-IsOwned (ok made) c v = record {
  once = λ h. ground (arith, v.once h, v.fresh h);
  fresh = λ h new. ground (arith, v.fresh h);
  balance = λ h. omega (arith, v.balance h);
  going = v.going;
}

take_out-count :
    (j h : ℕ) (js rest : List ℕ)
    → take_out h js ≡ some rest
    → count j js ≡ (if h == j then 1 else 0) + count j rest
unfolding take_out count
take_out-count j h [] rest e = cc
take_out-count j h (i ∷ js) rest e = elim (Bool-cases (i == h)) [
  | inl same ↦ let first : some js ≡ some rest = rw same at e in ground arith
  | inr other ↦ elim (Option-cases (take_out h js)) [
    | inl missing ↦ ground arith
    | inr (others, found) ↦ ground (arith, take_out-count j h js others found)
  ]
]

end_temp_socket-IsOwned : (h : ℕ) (c : ZmqContext) → IsOwned c → IsOwned (end_temp_socket h c)
unfolding end_temp_socket close_socket made_count closed_count
end_temp_socket-IsOwned h c v = elim (Option-cases (take_out h c.temps)) [
  | inl missing ↦ rw (missing, end_temp_socket) v
  | inr (rest, found) ↦
      rw (found, end_temp_socket)
        (record {
          once = v.once;
          fresh = v.fresh;
          balance = λ j. omega (arith, v.balance j, take_out-count j h c.temps rest found);
          going = v.going;
        })
]

-- What a program does with the context: a temporary socket may be in use for any time.
pub data ContextUse : Type 0 where
  create_use temp_use : Result (Unit {0}) → ContextUse
  temp_end : ℕ → ContextUse

unfoldable pub use_all : List ContextUse → ZmqContext → ZmqContext
use_all [] c = c
use_all (create_use opened ∷ uses) c = use_all uses (create_socket opened c)
use_all (temp_use opened ∷ uses) c = use_all uses (create_temp_socket opened c)
use_all (temp_end h ∷ uses) c = use_all uses (end_temp_socket h c)

use_all-IsOwned : (uses : List ContextUse) (c : ZmqContext) → IsOwned c → IsOwned (use_all uses c)
unfolding use_all
use_all-IsOwned [] c v = v
use_all-IsOwned (create_use opened ∷ uses) c v =
    use_all-IsOwned uses (create_socket opened c) (create_socket-IsOwned opened c v)
use_all-IsOwned (temp_use opened ∷ uses) c v =
    use_all-IsOwned uses (create_temp_socket opened c) (create_temp_socket-IsOwned opened c v)
use_all-IsOwned (temp_end h ∷ uses) c v =
    use_all-IsOwned uses (end_temp_socket h c) (end_temp_socket-IsOwned h c v)

close_all-closed : (ss : List (Option ℕ)) (z : Zmq) → close_all (closed ss) z ≡ z
unfolding close_all closed close_socket
close_all-closed [] z = refl
close_all-closed (s ∷ ss) z = close_all-closed ss z

close_all-made_count :
    (h : ℕ) (ss : List (Option ℕ)) (z : Zmq)
    → made_count h (close_all ss z).calls ≡ made_count h z.calls
unfolding close_all close_socket made_count
close_all-made_count h [] z = refl
close_all-made_count h (none ∷ ss) z = close_all-made_count h ss z
close_all-made_count h (some j ∷ ss) z =
    close_all-made_count h ss (record z { calls = close j ∷ z.calls })

close_all-closed_count :
    (h : ℕ) (ss : List (Option ℕ)) (z : Zmq)
    → closed_count h (close_all ss z).calls ≡ closed_count h z.calls + held_count h ss
unfolding close_all close_socket closed_count held_count
close_all-closed_count h [] z = omega arith
close_all-closed_count h (none ∷ ss) z = close_all-closed_count h ss z
close_all-closed_count h (some j ∷ ss) z =
    omega (arith, close_all-closed_count h ss (record z { calls = close j ∷ z.calls }))

close_all-NoTerm : (ss : List (Option ℕ)) (z : Zmq) → NoTerm z.calls → NoTerm (close_all ss z).calls
unfolding close_all close_socket
close_all-NoTerm [] z v = v
close_all-NoTerm (none ∷ ss) z v = close_all-NoTerm ss z v
close_all-NoTerm (some j ∷ ss) z v = close_all-NoTerm ss (record z { calls = close j ∷ z.calls }) v

abbrev pub new_context : ZmqContext
new_context = record { sockets = []; temps = []; zmq = record { next_handle = 0; calls = [] } }

new_context-IsOwned : IsOwned new_context
unfolding made_count closed_count held_count count
new_context-IsOwned = record {
  once = λ h. omega arith;
  fresh = λ h new. refl;
  balance = λ h. refl;
  going = tt;
}

-- However a context was used, and whichever sockets could not be made: destroying it ends with the
-- one call that terminates it, and before that each socket that was made, once, has been closed, once,
-- but for the temporary sockets that callers still have, which are open, and for which the
-- termination waits.
pub destroy_context-closed :
    (uses : List ContextUse)
    → let c = use_all uses new_context in
      (calls : List ZmqCall) × ((destroy_context c).calls ≡ term ∷ calls)
      × NoTerm calls
      × ((h : ℕ)
          → (made_count h calls ≡ closed_count h calls + count h c.temps)
            × (made_count h calls ≤ 1))
unfolding destroy_context
destroy_context-closed uses =
    let c = use_all uses new_context in
    let v = use_all-IsOwned uses new_context new_context-IsOwned in
    (
      (close_all c.sockets c.zmq).calls,
      ap (λ (z : Zmq). z.calls) (close_all-closed c.sockets _),
      close_all-NoTerm c.sockets c.zmq v.going,
      λ h. (
        omega (
          arith,
          close_all-made_count h c.sockets c.zmq,
          close_all-closed_count h c.sockets c.zmq,
          v.balance h,
        ),
        omega (arith, close_all-made_count h c.sockets c.zmq, v.once h),
      ),
    )
