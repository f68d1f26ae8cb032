-- ===== src/Nodes/Multicast.antt =====
-- include/zerolancom/nodes/multicast.hpp and src/nodes/multicast.cpp: what the sender puts into a
-- datagram and what the receiver does with one.
pub mod Filter
pub mod Delivery
pub mod Endpoints
use zero_lan_com.Base.{
  ℕ, List, [], ◌∷◌, ◌++◌, Option, none, some, Bool, true, false, not, ◌==◌, if◌then◌else◌, length,
  take, map,
}
use zero_lan_com.Base.Text.{Str, str_eq}
use zero_lan_com.Base.Int.{ℤ}
use zero_lan_com.Base.Result.{Result, ok, err}
use zero_lan_com.Utils.Subnet.{is_in_same_subnet, default_subnet_mask}
use zero_lan_com.Nodes.NodeInfo.{NodeInfo}
use zero_lan_com.Nodes.Heartbeat.{HeartbeatMessage, encode, decode}
use zero_lan_com.Nodes.NodeInfoManager.{
  NodeInfoManager, create_heartbeat, set_group_name, process_heartbeat, check_heartbeats,
}

-- What `node_update_event` and `node_remove_event` are triggered with.
pub data Notice : Type 0 where
  updated removed : NodeInfo → Notice

-- The sender's constructor tells the manager its group; its socket is in the module `Endpoints`.
unfoldable pub init_sender : Str → NodeInfoManager → NodeInfoManager
init_sender group_name m = set_group_name group_name m

-- The sender's task: the bytes that `sendHeartbeat` is given.
unfoldable pub send_once : NodeInfoManager → Result (List ℕ)
send_once m = encode (create_heartbeat m)

pub record MulticastReceiver : Type 0 where
  pub local_ip : Str
  pub group_name : Str

-- `Bytes buf(1024)`.
abbrev pub buffer_size : ℕ
buffer_size = 1024

-- The system calls of one round: `datagram` is the payload and the source address that `recvfrom`
-- finds, or `none` for an error; a longer payload is cut to the buffer. `times` are the three
-- readings of the clock.
pub record Round : Type 0 where
  pub datagram : Option (List ℕ × Str)
  pub marked_at : ℕ
  pub stored_at : ℕ
  pub checked_at : ℕ

module _ (aton : Str → Option ℕ) (fetch : Str → ℤ → Option NodeInfo) where
  -- A heartbeat that passed all filters.
  unfoldable pub accept :
      HeartbeatMessage → Str → Round → NodeInfoManager → NodeInfoManager × List Notice
  accept heartbeat node_ip round m =
      let (processed, infos) =
        process_heartbeat fetch heartbeat node_ip round.marked_at round.stored_at m in
      let (checked, gone) = check_heartbeats round.checked_at processed in
      (checked, map updated infos ++ map removed gone)

  handle_decoded :
      MulticastReceiver
      → Result HeartbeatMessage
      → Str
      → Round
      → NodeInfoManager
      → NodeInfoManager × List Notice
  handle_decoded r (err e) node_ip round m = (m, [])
  handle_decoded r (ok heartbeat) node_ip round m =
      if not (str_eq heartbeat.group_name r.group_name)
      then (m, [])
      else if str_eq heartbeat.node_id m.local_node_info.node_id
      then (m, [])
      else accept heartbeat node_ip round m

  -- What follows `recvfrom`, with the first `n` bytes of the buffer.
  unfoldable pub receive_bytes :
      MulticastReceiver → List ℕ → Str → Round → NodeInfoManager → NodeInfoManager × List Notice
  unfolding handle_decoded
  receive_bytes r buf node_ip round m =
      if length buf == 0
      then (m, [])
      else if not (is_in_same_subnet aton r.local_ip node_ip default_subnet_mask)
      then (m, [])
      else handle_decoded r (decode buf) node_ip round m

  -- The receiver's task.
  unfoldable pub receive_once :
      MulticastReceiver → Round → NodeInfoManager → NodeInfoManager × List Notice
  receive_once r round m = elim round.datagram [
    | none ↦ (m, [])
    | some (payload, node_ip) ↦ receive_bytes r (take buffer_size payload) node_ip round m
  ]

  -- The rounds of the receiver's task, with what they trigger.
  unfoldable pub receive_rounds :
      MulticastReceiver → List Round → NodeInfoManager → NodeInfoManager × List Notice
  receive_rounds r [] m = (m, [])
  receive_rounds r (round ∷ rounds) m =
      let (m', notices) = receive_once r round m in
      let (m'', later) = receive_rounds r rounds m' in (m'', notices ++ later)
