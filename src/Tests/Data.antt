-- ===== src/Tests/Data.antt =====
-- Two nodes of one group, what the first one offers, and its heartbeat.
use zero_lan_com.Base.{List, [], ◌∷◌, some}
use zero_lan_com.Base.Text.{Str, bytes}
use zero_lan_com.Base.Int.{pos, negsuc}
use zero_lan_com.Nodes.Heartbeat.{HeartbeatMessage, zlc_version_constants}
use zero_lan_com.Nodes.NodeInfo.{SocketInfo, NodeInfo}
use zero_lan_com.Nodes.NodeInfoManager.{NodeInfoManager, init}
use zero_lan_com.Nodes.NodeInfoManager.Sections.{Section, mark, store, run_sections}

abbrev pub uuid_a : Str
uuid_a = bytes "11111111-1111-4111-8111-111111111111"

abbrev pub uuid_b : Str
uuid_b = bytes "22222222-2222-4222-8222-222222222222"

abbrev pub ip_a : Str
ip_a = bytes "10.0.0.1"

abbrev pub ip_b : Str
ip_b = bytes "10.0.0.2"

abbrev pub lab : Str
lab = bytes "lab"

abbrev pub camera : SocketInfo
camera = record { name = bytes "camera"; ip = ip_a; port = 4100 }

abbrev pub echo : SocketInfo
echo = record { name = bytes "echo"; ip = ip_a; port = 4200 }

abbrev pub info_a : NodeInfo
info_a = record {
  node_id = uuid_a;
  info_id = 2;
  name = bytes "a";
  ip = ip_a;
  topics = camera ∷ [];
  services = echo ∷ [];
}

abbrev pub node_a : NodeInfoManager
node_a = record {
  nodes_info = [];
  nodes_info_id = [];
  nodes_heartbeat = [];
  local_node_info = info_a;
  group_name = lab;
  service_port = pos 4200;
}

abbrev pub heartbeat_a : HeartbeatMessage
heartbeat_a = record {
  zlc_version = zlc_version_constants;
  node_id = uuid_a;
  info_id = negsuc 4;
  service_port = pos 4200;
  group_name = lab;
}

-- The second node has heard of the first one, at the time of one second.
abbrev pub hearing_a : List Section
hearing_a = mark heartbeat_a 1_000_000_000 ∷ store heartbeat_a (some info_a) 1_000_000_000 ∷ []

abbrev pub fresh_b : NodeInfoManager
fresh_b = init uuid_b (bytes "b") ip_b

abbrev pub node_b : NodeInfoManager
node_b = run_sections hearing_a fresh_b
