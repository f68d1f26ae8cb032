-- ===== src/Nodes/NodeInfo.antt =====
-- include/zerolancom/nodes/node_info.hpp: what a node tells of itself.
pub mod Printing
use zero_lan_com.Base.{ℕ, List, []}
use zero_lan_com.Base.Text.{Str}

-- `port` is a `uint16_t`.
pub record SocketInfo : Type 0 where
  pub name : Str
  pub ip : Str
  pub port : ℕ

-- `infoID` is a `uint32_t`.
pub record NodeInfo : Type 0 where
  pub node_id : Str
  pub info_id : ℕ
  pub name : Str
  pub ip : Str
  pub topics : List SocketInfo
  pub services : List SocketInfo

-- The value-initialised `NodeInfo` that `operator[]` of a map puts in for a missing key.
abbrev pub empty_node_info : NodeInfo
empty_node_info = record {
  node_id = [];
  info_id = 0;
  name = [];
  ip = [];
  topics = [];
  services = [];
}
