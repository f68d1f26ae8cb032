-- ===== src/Utils/Socket.antt =====
-- The ZeroMQ sockets, which are a library's: `SocketOps` is the interface that the components use.
use zero_lan_com.Base.{ℕ, List, Bool}

-- What `recv` gives: a frame and whether more follow, nothing before the timeout, or `zmq::error_t`
-- with its number.
pub data Received : Type 0 where
  frame : List ℕ → Bool → Received
  timeout : Received
  recv_failed : ℕ → Received

pub data Sent : Type 0 where
  sent : Sent
  send_failed : ℕ → Sent

pub record SocketOps (S : Type 0) : Type 0 where
  pub recv : S → Received × S
  -- the frame, and whether `sndmore` is set
  pub send : List ℕ → Bool → S → Sent × S
