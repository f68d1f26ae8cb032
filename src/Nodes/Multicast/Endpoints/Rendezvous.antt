-- ===== src/Nodes/Multicast/Endpoints/Rendezvous.antt =====
-- Where datagrams go and who gets them.
use zero_lan_com.Base.{
  ℕ, ◌==◌, ◌&&◌, ◌||◌, List, [], ◌∷◌, Bool, true, false, if◌then◌else◌, ◌≡◌, refl, arith,
}
use zero_lan_com.Base.Text.{Str}
use zero_lan_com.Base.Int.{ℤ, pos}
use zero_lan_com.Nodes.Multicast.Endpoints.{
  SysCall, socket, bind, add_membership, sendto, close, network_port, close_if_open,
  construct_sender, construct_receiver, send_heartbeat, destroy_receiver,
}

-- The kernel's view of a descriptor: the port that it is bound to and the groups that it has joined,
-- from the calls in order.
pub record Socket : Type 0 where
  pub is_open : Bool
  pub bound : List ℕ
  pub groups : List ℕ

abbrev pub unopened : Socket
unopened = record { is_open = false; bound = []; groups = [] }

unfoldable pub apply_call : ℕ → SysCall → Socket → Socket
apply_call fd (socket (pos n)) s =
    if n == fd then record { is_open = true; bound = []; groups = [] } else s
apply_call fd (bind (pos n) port) s = if n == fd then record s { bound = port ∷ s.bound } else s
apply_call fd (add_membership (pos n) group local) s =
    if n == fd then record s { groups = group ∷ s.groups } else s
apply_call fd (close (pos n)) s = if n == fd then unopened else s
apply_call fd _ s = s

unfoldable pub apply_calls : ℕ → List SysCall → Socket → Socket
apply_calls fd [] s = s
apply_calls fd (c ∷ cs) s = apply_calls fd cs (apply_call fd c s)

-- A socket gets the datagrams to a group that it has joined and a port that it is bound to.
is_in : ℕ → List ℕ → Bool
is_in x [] = false
is_in x (y ∷ ys) = x == y || is_in x ys

unfoldable pub gets : Socket → SysCall → Bool
unfolding is_in
gets s (sendto from msg addr port) = s.is_open && (is_in addr s.groups && is_in port s.bound)
gets s _ = false

==_self : (n : ℕ) → (n == n) ≡ true
==_self n = ground arith

-- A sender and a receiver that are made for one group and one port meet, whatever the port is and
-- whatever their local addresses: each heartbeat goes to an address and port where the receiver's
-- socket listens, if `socket` gave the receiver a descriptor and the calls behind it succeed; and
-- the destructor of the receiver leaves that descriptor closed.
pub sender_meets-receiver :
    (inet_addr : Str → ℕ) (group ip_a ip_b : Str) (port from : ℤ) (fd : ℕ) (msg : List ℕ)
    → let sender = (construct_sender inet_addr from group port ip_a).0 in
      let listening =
        apply_calls fd (construct_receiver inet_addr (pos fd) group port ip_b) unopened in
      (gets listening (send_heartbeat sender msg) ≡ true)
      × (apply_calls fd (destroy_receiver (pos fd)) listening ≡ unopened)
unfolding construct_sender construct_receiver send_heartbeat destroy_receiver close_if_open
    apply_call apply_calls gets is_in
sender_meets-receiver inet_addr group ip_a ip_b port from fd msg =
    rw (==_self fd, ==_self (inet_addr group), ==_self (network_port port)) (refl, refl)
