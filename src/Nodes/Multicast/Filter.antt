-- ===== src/Nodes/Multicast/Filter.antt =====
-- Which datagrams reach the node table.
use zero_lan_com.Base.{
  ℕ, List, [], ◌∷◌, ◌≤◌, ◌<◌, Option, none, some, Bool, false, not, ◌&&◌, if◌then◌else◌, length,
  take, All, ◌≡◌, ◌≢◌, refl, arith, length-take, inl, inr, Option-cases,
}
use zero_lan_com.Base.Text.{Str, str_eq, str_eq-ne}
use zero_lan_com.Base.Int.{ℤ}
use zero_lan_com.Base.Result.{ok}
use zero_lan_com.Utils.Subnet.{is_in_same_subnet, default_subnet_mask}
use zero_lan_com.Nodes.NodeInfo.{NodeInfo}
use zero_lan_com.Nodes.Heartbeat.{HeartbeatMessage, decode}
use zero_lan_com.Nodes.NodeInfoManager.{NodeInfoManager}
use zero_lan_com.Nodes.Multicast.{
  MulticastReceiver, Round, buffer_size, accept, receive_once, receive_bytes, receive_rounds,
}

decode-long :
    (buf : List ℕ) (heartbeat : HeartbeatMessage) → decode buf ≡ ok heartbeat → 56 ≤ length buf
unfolding decode
decode-long buf heartbeat e = ground arith

take_short : (n : ℕ) (xs : List ℕ) → length xs < 56 → length (take n xs) < 56
take_short n xs h = omega (arith, length-take n xs)

module _ (aton : Str → Option ℕ) (fetch : Str → ℤ → Option NodeInfo) (r : MulticastReceiver)
    (round : Round) (m : NodeInfoManager) where
  -- The tests that a heartbeat from `node_ip` has to pass.
  abbrev pub passes_filters : HeartbeatMessage → Str → Bool
  passes_filters heartbeat node_ip =
      is_in_same_subnet aton r.local_ip node_ip default_subnet_mask
      && (str_eq heartbeat.group_name r.group_name
          && not (str_eq heartbeat.node_id m.local_node_info.node_id))

  pub other_group :
      (heartbeat : HeartbeatMessage) (node_ip : Str)
      → heartbeat.group_name ≢ r.group_name
      → passes_filters heartbeat node_ip ≡ false
  other_group heartbeat node_ip differs =
      ground (arith, str_eq-ne heartbeat.group_name r.group_name differs)

  receive_bytes-decoded :
      (buf : List ℕ) (node_ip : Str) (heartbeat : HeartbeatMessage)
      → decode buf ≡ ok heartbeat
      → receive_bytes aton fetch r buf node_ip round m ≡ (
          if passes_filters heartbeat node_ip
          then accept aton fetch heartbeat node_ip round m
          else (m, []))
  unfolding receive_bytes
  receive_bytes-decoded buf node_ip heartbeat e = ground (arith, decode-long buf heartbeat e)

  -- A datagram that is decoded is processed exactly when it comes from the subnet, names the
  -- receiver's group, and has another id than the local node; else nothing changes and no event is
  -- triggered.
  pub receive_once-decoded :
      (payload : List ℕ) (node_ip : Str) (heartbeat : HeartbeatMessage)
      → round.datagram ≡ some (payload, node_ip)
      → decode (take buffer_size payload) ≡ ok heartbeat
      → receive_once aton fetch r round m ≡ (
          if passes_filters heartbeat node_ip
          then accept aton fetch heartbeat node_ip round m
          else (m, []))
  unfolding receive_once accept
  receive_once-decoded payload node_ip heartbeat d e =
      rw (d, receive_once) (receive_bytes-decoded (take buffer_size payload) node_ip heartbeat e)

  receive_bytes-short :
      (buf : List ℕ) (node_ip : Str)
      → length buf < 56
      → receive_bytes aton fetch r buf node_ip round m ≡ (m, [])
  unfolding receive_bytes decode
  receive_bytes-short buf node_ip h = ground arith

  -- A round with no datagram, or with one of fewer than 56 bytes, changes nothing.
  pub receive_once-short :
      ((payload : List ℕ) (node_ip : Str)
        → round.datagram ≡ some (payload, node_ip)
        → length payload < 56)
      → receive_once aton fetch r round m ≡ (m, [])
  unfolding receive_once
  receive_once-short short = elim (Option-cases round.datagram) [
    | inl e ↦ rw (e, receive_once)
    | inr ((payload, node_ip), e) ↦
        rw (e, receive_once)
          (receive_bytes-short (take buffer_size payload) node_ip
            (take_short buffer_size payload (short payload node_ip e)))
  ]

absurd_datagram :
    (round : Round) (payload : List ℕ) (node_ip : Str)
    → round.datagram ≡ none
    → round.datagram ≡ some (payload, node_ip)
    → length payload < 56
absurd_datagram round payload node_ip quiet e = cc

-- Nodes are dropped only while others are heard: in rounds that bring no datagram, however late
-- they are, the table of nodes stays as it is and no event is triggered.
pub receive_rounds-silent :
    (aton : Str → Option ℕ) (fetch : Str → ℤ → Option NodeInfo) (r : MulticastReceiver)
    (rounds : List Round) (m : NodeInfoManager)
    → All (λ round. round.datagram ≡ none) rounds
    → receive_rounds aton fetch r rounds m ≡ (m, [])
unfolding receive_rounds
receive_rounds-silent aton fetch r [] m quiet = refl
receive_rounds-silent aton fetch r (round ∷ rounds) m quiet = rw (
  receive_once-short aton fetch r round m
      (λ payload node_ip e. absurd_datagram round payload node_ip quiet.0 e),
  receive_rounds-silent aton fetch r rounds m quiet.1,
)
