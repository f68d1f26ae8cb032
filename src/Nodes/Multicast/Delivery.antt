-- ===== src/Nodes/Multicast/Delivery.antt =====
-- A heartbeat on its way from one node to another, and the names that do not fit the buffer.
use zero_lan_com.Base.{
  ℕ, List, [], ◌+◌, ◌≤◌, ◌<◌, Option, some, if◌then◌else◌, length, take, ◌≡◌, ◌≢◌, arith, ap, sym,
  ◌∙◌, length-take, take-eq_self,
}
use zero_lan_com.Base.Text.{Str}
use zero_lan_com.Base.Int.{ℤ, IsInt32, IsU32, of_u32-IsInt32}
use zero_lan_com.Base.Result.{ok, ◌>>=◌}
use zero_lan_com.Nodes.NodeInfo.{NodeInfo}
use zero_lan_com.Nodes.Heartbeat.{IsValid, decode}
use zero_lan_com.Nodes.Heartbeat.RoundTrip.{decode-encode, length-encode, decode-total}
use zero_lan_com.Nodes.NodeInfoManager.{NodeInfoManager, create_heartbeat}
use zero_lan_com.Nodes.Multicast.{
  MulticastReceiver, Round, buffer_size, accept, receive_once, send_once,
}
use zero_lan_com.Nodes.Multicast.Filter.{passes_filters, other_group, receive_once-decoded}

-- What the types of the fields allow, and an id of the length of a UUID.
pub record IsSendable (a : NodeInfoManager) : Type 0 where
  pub node_id : length a.local_node_info.node_id ≡ 36
  pub info_id : IsU32 a.local_node_info.info_id
  pub service_port : IsInt32 a.service_port

pub create_heartbeat-IsValid : (a : NodeInfoManager) → IsSendable a → IsValid (create_heartbeat a)
unfolding create_heartbeat
create_heartbeat-IsValid a s = record {
  major = omega arith;
  minor = omega arith;
  patch = omega arith;
  node_id = s.node_id;
  info_id = of_u32-IsInt32 a.local_node_info.info_id s.info_id;
  service_port = s.service_port;
}

module _ (aton : Str → Option ℕ) (fetch : Str → ℤ → Option NodeInfo) (r : MulticastReceiver)
    (round : Round) (a b : NodeInfoManager) (payload : List ℕ) (node_ip : Str)
    (sent : send_once a ≡ ok payload) (arrived : round.datagram ≡ some (payload, node_ip)) where
  payload-length : length payload ≡ 56 + length a.group_name
  unfolding send_once create_heartbeat
  payload-length = (length-encode (create_heartbeat a) payload sent).1

  -- A heartbeat that fits the receiver's buffer of 1024 bytes arrives with every field as the
  -- sender wrote it, and is processed exactly when it passes the filters.
  pub receive_once-send_once :
      IsSendable a
      → length a.group_name ≤ 968
      → receive_once aton fetch r round b ≡ (
          if passes_filters aton fetch r round b (create_heartbeat a) node_ip
          then accept aton fetch (create_heartbeat a) node_ip round b
          else (b, []))
  unfolding send_once
  receive_once-send_once s short =
      receive_once-decoded aton fetch r round b payload node_ip (create_heartbeat a) arrived (
        ap decode (take-eq_self buffer_size payload (omega (arith, payload-length)))
        ∙ sym (ap (λ e. e >>= decode) sent)
        ∙ decode-encode (create_heartbeat a) (create_heartbeat-IsValid a s))

  -- A heartbeat whose group name has more than 968 bytes is dropped by every receiver of the same
  -- group: the name is cut to the buffer and then differs.
  pub receive_once-oversize :
      968 < length a.group_name
      → r.group_name ≡ a.group_name
      → receive_once aton fetch r round b ≡ (b, [])
  receive_once-oversize long same =
      let cut : length (take buffer_size payload) ≡ 1024 =
        omega (arith, length-take buffer_size payload, payload-length) in
      let (heartbeat, e, short) = decode-total (take buffer_size payload) (omega (arith, cut)) in
      let differs : heartbeat.group_name ≢ r.group_name =
        λ q. omega (arith, short, cut, ap length q, ap length same) in
      receive_once-decoded aton fetch r round b payload node_ip heartbeat arrived e
      ∙ ap (λ t. if t then accept aton fetch heartbeat node_ip round b else (b, []))
          (other_group aton fetch r round b heartbeat node_ip differs)
