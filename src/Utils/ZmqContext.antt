-- ===== src/Utils/ZmqContext.antt =====
-- `ZMQContext` of include/zerolancom/utils/zmq_utils.hpp: which sockets of the library it makes and
-- closes. The state has the calls of the library, the last one first.
pub mod Closing
use zero_lan_com.Base.{ℕ, ◌+◌, ◌==◌, if◌then◌else◌, List, [], ◌∷◌, ◌++◌, Option, none, some}
use zero_lan_com.Base.Result.{Result, ok, err}

pub data ZmqCall : Type 0 where
  -- `zmq_socket` and `zmq_close`; handles are numbered
  make close : ℕ → ZmqCall
  term : ZmqCall

pub record Zmq : Type 0 where
  pub next_handle : ℕ
  pub calls : List ZmqCall

-- `sockets_`: the handle of each, or `none` once it is closed; and the handles of the temporary
-- sockets, which their callers have.
pub record ZmqContext : Type 0 where
  pub sockets : List (Option ℕ)
  pub temps : List ℕ
  pub zmq : Zmq

-- The constructor of `zmq::socket_t`; `opened` is what `zmq_socket` comes to.
unfoldable pub make_socket : Result (Unit {0}) → Zmq → Result ℕ × Zmq
make_socket (err thrown) z = (err thrown, z)
make_socket (ok made) z = (
  ok z.next_handle,
  record { next_handle = z.next_handle + 1; calls = make z.next_handle ∷ z.calls },
)

-- `socket_t::close` and its destructor: a closed socket is left alone.
unfoldable pub close_socket : Option ℕ → Zmq → Zmq
close_socket none z = z
close_socket (some h) z = record z { calls = close h ∷ z.calls }

kept : Result ℕ × Zmq → ZmqContext → ZmqContext
kept (err thrown, z) c = record c { zmq = z }
kept (ok h, z) c = record c { sockets = c.sockets ++ some h ∷ []; zmq = z }

-- `createSocket`: the context keeps the socket and gives a pointer away.
unfoldable pub create_socket : Result (Unit {0}) → ZmqContext → ZmqContext
unfolding kept
create_socket opened c = kept (make_socket opened c.zmq) c

given_away : Result ℕ × Zmq → ZmqContext → ZmqContext
given_away (err thrown, z) c = record c { zmq = z }
given_away (ok h, z) c = record c { temps = h ∷ c.temps; zmq = z }

-- `createTempSocket`: the caller has the socket.
unfoldable pub create_temp_socket : Result (Unit {0}) → ZmqContext → ZmqContext
unfolding given_away
create_temp_socket opened c = given_away (make_socket opened c.zmq) c

-- One of the handles is taken out, if it is there.
unfoldable pub take_out : ℕ → List ℕ → Option (List ℕ)
take_out h [] = none
take_out h (j ∷ js) =
    let rest = take_out h js in
    if j == h then some js else elim rest [ none ↦ none | some others ↦ some (j ∷ others) ]

-- The destructor of a temporary socket, at the end of its caller's scope.
unfoldable pub end_temp_socket : ℕ → ZmqContext → ZmqContext
end_temp_socket h c = elim (take_out h c.temps) [
  | none ↦ c
  | some rest ↦ record c { temps = rest; zmq = close_socket (some h) c.zmq }
]

unfoldable pub close_all : List (Option ℕ) → Zmq → Zmq
close_all [] z = z
close_all (s ∷ ss) z = close_all ss (close_socket s z)

closed : List (Option ℕ) → List (Option ℕ)
closed [] = []
closed (s ∷ ss) = none ∷ closed ss

-- The destructor: its body, and then the destructors of the sockets.
unfoldable pub destroy_context : ZmqContext → Zmq
unfolding closed
destroy_context c =
    let z = close_all c.sockets c.zmq in
    let terminated = record z { calls = term ∷ z.calls } in close_all (closed c.sockets) terminated
