-- ===== src/Utils/Event.antt =====
-- include/zerolancom/utils/event.hpp: callbacks that are called with a value, in the order in which
-- they subscribed. A callback is a number; what it does is a parameter, which may throw, change the
-- program's state `W`, and call the event's own methods, since no lock is held while it runs.
pub mod Calls
use zero_lan_com.Base.{ℕ, List, [], ◌∷◌, ◌++◌, length}
use zero_lan_com.Base.Result.{Result, ok, err}

pub record Event (W : Type 0) : Type 0 where
  pub callbacks : List ℕ
  pub state : W

module _ {W : Type 0} where
  unfoldable pub subscribe : ℕ → Event W → Event W
  subscribe callback e = record e { callbacks = e.callbacks ++ callback ∷ [] }

  unfoldable pub clear : Event W → Event W
  clear e = record e { callbacks = [] }

  unfoldable pub subscriber_count : Event W → ℕ
  subscriber_count e = length e.callbacks

  module _ {A : Type 0} (call : ℕ → A → Event W → Result (Unit {0}) × Event W) where
    -- The loop over `callbacks_copy`. An exception leaves `trigger`.
    unfoldable pub call_each : List ℕ → A → Event W → Result (Unit {0}) × Event W
    call_each [] args e = (ok tt, e)
    call_each (c ∷ cs) args e =
        let (result, e') = call c args e in
        let rest = call_each cs args e' in
        elim result [ ok done ↦ rest | err thrown ↦ (err thrown, e') ]

    unfoldable pub trigger : A → Event W → Result (Unit {0}) × Event W
    trigger args e = call_each e.callbacks args e
