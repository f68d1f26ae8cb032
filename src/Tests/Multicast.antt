-- ===== src/Tests/Multicast.antt =====
-- Datagrams between two nodes of one subnet.
use zero_lan_com.Base.{
  ℕ, List, [], ◌∷◌, ◌++◌, Option, some, ◌≡◌, refl, arith, length, if◌then◌else◌,
}
use zero_lan_com.Base.Text.{Str, str_eq}
use zero_lan_com.Base.Int.{ℤ, of_u32, to_u32}
use zero_lan_com.Serialization.ByteBuffer.{replicate}
use zero_lan_com.Nodes.Heartbeat.Words.{put_u32, read_u32}
use zero_lan_com.Utils.Subnet.{is_in_same_subnet}
use zero_lan_com.Nodes.NodeInfo.{NodeInfo}
use zero_lan_com.Nodes.Heartbeat.{encode}
use zero_lan_com.Nodes.NodeInfoManager.{NodeInfoManager, create_heartbeat, init}
use zero_lan_com.Nodes.Multicast.{MulticastReceiver, Round, accept, send_once, receive_once}
use zero_lan_com.Nodes.Multicast.Delivery.{
  IsSendable, receive_once-send_once, receive_once-oversize,
}
use zero_lan_com.Tests.Data.{uuid_a, ip_a, ip_b, lab, info_a, node_a, fresh_b}

abbrev aton : Str → Option ℕ
aton ip = if str_eq ip ip_a then some 0x0A000001 else some 0x0A000002

abbrev fetch : Str → ℤ → Option NodeInfo
fetch ip port = some info_a

abbrev receiver : MulticastReceiver
receiver = record { local_ip = ip_b; group_name = lab }

abbrev fixed_part : List ℕ
fixed_part =
    (0 ∷ 0 ∷ 0 ∷ 0 ∷ 0 ∷ 0 ∷ 0 ∷ 1 ∷ 0 ∷ 0 ∷ 0 ∷ 0 ∷ [])
    ++ (uuid_a ++ (0 ∷ 0 ∷ 0 ∷ 2 ∷ 0 ∷ 0 ∷ 16 ∷ 104 ∷ []))

abbrev round_of : List ℕ → Round
round_of payload = record {
  datagram = some (payload, ip_a);
  marked_at = 1_000_000_000;
  stored_at = 1_100_000_000;
  checked_at = 1_200_000_000;
}

node_a-IsSendable : IsSendable node_a
node_a-IsSendable = record { node_id = refl; info_id = omega arith; service_port = omega arith }

receive_once-send_once_example :
    receive_once aton fetch receiver (round_of (fixed_part ++ lab)) fresh_b
    ≡ accept aton fetch (create_heartbeat node_a) ip_a (round_of (fixed_part ++ lab)) fresh_b
unfolding send_once encode create_heartbeat is_in_same_subnet str_eq init of_u32 to_u32 put_u32
    read_u32
receive_once-send_once_example =
    receive_once-send_once aton fetch receiver (round_of (fixed_part ++ lab)) node_a fresh_b
      (fixed_part ++ lab) ip_a refl refl node_a-IsSendable (omega arith)

abbrev long_name : Str
long_name = replicate 969 b'x'

abbrev long_a : NodeInfoManager
long_a = record node_a { group_name = long_name }

long_name-length : length long_name ≡ 969
long_name-length = refl

receive_once-oversize_example :
    receive_once aton fetch
      (record receiver { group_name = long_name })
      (round_of (fixed_part ++ long_name))
      fresh_b
    ≡ (fresh_b, [])
unfolding send_once encode create_heartbeat of_u32 to_u32 put_u32
receive_once-oversize_example =
    receive_once-oversize aton fetch (record receiver { group_name = long_name })
      (round_of (fixed_part ++ long_name)) long_a fresh_b (fixed_part ++ long_name) ip_a refl refl
      (omega (arith, long_name-length)) refl
