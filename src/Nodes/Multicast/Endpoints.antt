-- ===== src/Nodes/Multicast/Endpoints.antt =====
-- The sockets of src/nodes/multicast.cpp: the system calls of the two constructors, of
-- `sendHeartbeat` and of the destructors, in order. Their results are not looked at, but for the
-- descriptor that `socket` returns.
pub mod Rendezvous
use zero_lan_com.Base.{ℕ, ◌%◌, ◌^◌, List, [], ◌∷◌, Bool, true, false}
use zero_lan_com.Base.Text.{Str}
use zero_lan_com.Base.Int.{ℤ, pos, negsuc, to_u32}

pub data SysCall : Type 0 where
  -- what `socket` returned
  socket : ℤ → SysCall
  multicast_ttl : ℤ → ℕ → SysCall
  multicast_if : ℤ → ℕ → SysCall
  reuse_addr : ℤ → SysCall
  reuse_port : ℤ → SysCall
  -- to a port of any local address
  bind : ℤ → ℕ → SysCall
  -- the group's address and the interface's
  add_membership : ℤ → ℕ → ℕ → SysCall
  -- the datagram, the address and the port
  sendto : ℤ → List ℕ → ℕ → ℕ → SysCall
  close : ℤ → SysCall

-- `htons` of an `int`: the port that the network sees.
unfoldable pub network_port : ℤ → ℕ
network_port port = to_u32 port % 2 ^ 16

pub record SenderSocket : Type 0 where
  pub sock : ℤ
  pub addr : ℕ
  pub port : ℕ

-- `close` only what `socket` has opened.
close_if_open : ℤ → List SysCall
close_if_open (pos fd) = close (pos fd) ∷ []
close_if_open (negsuc n) = []

module _ (inet_addr : Str → ℕ) where
  unfoldable pub construct_sender : ℤ → Str → ℤ → Str → SenderSocket × List SysCall
  unfolding network_port
  construct_sender fd group port local_ip = (
    record { sock = fd; addr = inet_addr group; port = network_port port },
    socket fd ∷ multicast_ttl fd 1 ∷ multicast_if fd (inet_addr local_ip) ∷ [],
  )

  unfoldable pub construct_receiver : ℤ → Str → ℤ → Str → List SysCall
  unfolding network_port
  construct_receiver fd group port local_ip =
      socket fd
      ∷ reuse_addr fd
      ∷ reuse_port fd
      ∷ bind fd (network_port port)
      ∷ add_membership fd (inet_addr group) (inet_addr local_ip)
      ∷ []

unfoldable pub send_heartbeat : SenderSocket → List ℕ → SysCall
send_heartbeat s msg = sendto s.sock msg s.addr s.port

unfoldable pub destroy_sender : SenderSocket → List SysCall
unfolding close_if_open
destroy_sender s = close_if_open s.sock

unfoldable pub destroy_receiver : ℤ → List SysCall
unfolding close_if_open
destroy_receiver fd = close_if_open fd
