-- ===== src/Nodes/NodeInfoManager.antt =====
-- include/zerolancom/nodes/node_info_manager.hpp and src/nodes/node_info_manager.cpp: the table of
-- the known nodes. Each function is what one critical section does; `now` is its reading of
-- `steady_clock`, in nanoseconds. An event that a section triggers is in its result; subscribers that
-- throw are in the module `Throwing`.
pub mod Sections
pub mod Consistency
pub mod Table
pub mod Expiry
pub mod Queries
pub mod Services
pub mod Refetch
pub mod Throwing
use zero_lan_com.Base.{
  ℕ, ◌+◌, ◌-◌, ◌/◌, ◌%◌, ◌^◌, List, [], ◌∷◌, ◌++◌, Option, none, some, Bool, true, false, not, ◌==◌,
  ltb, if◌then◌else◌,
}
use zero_lan_com.Base.Text.{Str, str_eq}
use zero_lan_com.Base.Int.{ℤ, pos, to_u32, of_u32}
use zero_lan_com.Base.Map.{Map, find, insert, erase}
use zero_lan_com.Base.Map.Unique.{keys_where}
use zero_lan_com.Nodes.NodeInfo.{SocketInfo, NodeInfo, empty_node_info}
use zero_lan_com.Nodes.Heartbeat.{HeartbeatMessage, zlc_version_constants}

pub record NodeInfoManager : Type 0 where
  pub nodes_info : Map NodeInfo
  pub nodes_info_id : Map ℕ
  pub nodes_heartbeat : Map ℕ
  pub local_node_info : NodeInfo
  pub group_name : Str
  pub service_port : ℤ

-- The constructor, with the UUID that `generateUUID` returned.
unfoldable pub init : Str → Str → Str → NodeInfoManager
init uuid name ip = record {
  nodes_info = [];
  nodes_info_id = [];
  nodes_heartbeat = [];
  local_node_info = record empty_node_info { node_id = uuid; info_id = 0; name = name; ip = ip };
  group_name = [];
  service_port = pos 0;
}

unfoldable pub update_node : Str → NodeInfo → ℕ → NodeInfoManager → NodeInfoManager
update_node node_id info now m = record m {
  nodes_info = insert node_id info m.nodes_info;
  nodes_info_id = insert node_id info.info_id m.nodes_info_id;
  nodes_heartbeat = insert node_id now m.nodes_heartbeat;
}

is_some {ℓ} : {A : Type ℓ} → Option A → Bool
is_some none = false
is_some (some a) = true

unfoldable pub check_node_id : Str → NodeInfoManager → Bool
unfolding is_some
check_node_id node_id m = is_some (find node_id m.nodes_info)

unfoldable pub check_node_info_id : Str → ℕ → NodeInfoManager → Bool
check_node_info_id node_id info_id m = elim (find node_id m.nodes_info_id) [
  | none ↦ false
  | some stored ↦ stored == info_id
]

unfoldable pub remove_node : Str → NodeInfoManager → NodeInfoManager
remove_node node_id m = record m {
  nodes_info = erase node_id m.nodes_info;
  nodes_info_id = erase node_id m.nodes_info_id;
  nodes_heartbeat = erase node_id m.nodes_heartbeat;
}

-- `for (t : sockets) if (t.name == name) result.push_back(t)`.
unfoldable pub named : Str → List SocketInfo → List SocketInfo
named name [] = []
named name (t ∷ ts) = let rest = named name ts in if str_eq t.name name then t ∷ rest else rest

unfoldable pub remote_publishers : Str → Map NodeInfo → List SocketInfo
remote_publishers topic [] = []
remote_publishers topic ((k, node) ∷ nodes) =
    named topic node.topics ++ remote_publishers topic nodes

unfoldable pub get_publisher_info : Str → NodeInfoManager → List SocketInfo
get_publisher_info topic m =
    remote_publishers topic m.nodes_info ++ named topic m.local_node_info.topics

unfoldable pub first_named : Str → List SocketInfo → Option SocketInfo
first_named name [] = none
first_named name (t ∷ ts) =
    let rest = first_named name ts in if str_eq t.name name then some t else rest

unfoldable pub or_else {ℓ} : {A : Type ℓ} → Option A → Option A → Option A
or_else none b = b
or_else (some a) b = some a

unfoldable pub remote_service : Str → Map NodeInfo → Option SocketInfo
unfolding or_else
remote_service name [] = none
remote_service name ((k, node) ∷ nodes) =
    or_else (first_named name node.services) (remote_service name nodes)

-- `none` is the null pointer.
unfoldable pub get_service_info : Str → NodeInfoManager → Option SocketInfo
unfolding or_else
get_service_info name m =
    or_else (remote_service name m.nodes_info) (first_named name m.local_node_info.services)

-- `duration_cast<seconds>(now - last).count() > 2`.
unfoldable pub is_stale : ℕ → ℕ → Bool
is_stale now last = ltb 2 ((now - last) / 1_000_000_000)

-- `nodes_info_[key]`: the value, and the map with the key in it.
unfoldable pub subscript : Str → Map NodeInfo → NodeInfo × Map NodeInfo
subscript k nodes = elim (find k nodes) [
  | none ↦ (empty_node_info, insert k empty_node_info nodes)
  | some info ↦ (info, nodes)
]

-- The second loop of `checkHeartbeats`, with what it gives to `node_remove_event`.
unfoldable pub remove_stale : List Str → NodeInfoManager → NodeInfoManager × List NodeInfo
unfolding subscript remove_node
remove_stale [] m = (m, [])
remove_stale (k ∷ ks) m =
    let (info, nodes) = subscript k m.nodes_info in
    let (m', removed) = remove_stale ks (remove_node k (record m { nodes_info = nodes })) in
    (m', info ∷ removed)

unfoldable pub check_heartbeats : ℕ → NodeInfoManager → NodeInfoManager × List NodeInfo
check_heartbeats now m = remove_stale (keys_where (is_stale now) m.nodes_heartbeat) m

-- `needsFetch` and `isNew` of `processHeartbeat`.
pub record Verdict : Type 0 where
  pub needs_fetch : Bool
  pub is_new : Bool

-- The first critical section of `processHeartbeat`.
unfoldable pub mark_heartbeat : HeartbeatMessage → ℕ → NodeInfoManager → NodeInfoManager × Verdict
unfolding check_node_id check_node_info_id
mark_heartbeat heartbeat now m =
    let marked = record m { nodes_heartbeat = insert heartbeat.node_id now m.nodes_heartbeat } in
    (
      marked,
      if not (check_node_id heartbeat.node_id marked)
          then record { needs_fetch = true; is_new = true }
          else if not (check_node_info_id heartbeat.node_id (to_u32 heartbeat.info_id) marked)
          then record { needs_fetch = true; is_new = false }
          else record { needs_fetch = false; is_new = false },
    )

-- What follows the fetch: the second critical section, and what `node_update_event` is given.
unfoldable pub store_fetched :
    HeartbeatMessage → Option NodeInfo → ℕ → NodeInfoManager → NodeInfoManager × List NodeInfo
unfolding update_node
store_fetched heartbeat none now m = (m, [])
store_fetched heartbeat (some info) now m = (update_node heartbeat.node_id info now m, info ∷ [])

-- `fetch ip port` is what `fetchNodeInfo` returns. No other section runs in between here; the
-- interleavings are in the module `Sections`.
unfoldable pub process_heartbeat :
    (Str → ℤ → Option NodeInfo)
    → HeartbeatMessage
    → Str
    → ℕ
    → ℕ
    → NodeInfoManager
    → NodeInfoManager × List NodeInfo
unfolding mark_heartbeat store_fetched
process_heartbeat fetch heartbeat node_ip now later m =
    let (marked, verdict) = mark_heartbeat heartbeat now m in
    if verdict.needs_fetch
    then store_fetched heartbeat (fetch node_ip heartbeat.service_port) later marked
    else (marked, [])

unfoldable pub set_group_name : Str → NodeInfoManager → NodeInfoManager
set_group_name name m = record m { group_name = name }

unfoldable pub set_service_port : ℤ → NodeInfoManager → NodeInfoManager
set_service_port port m = record m { service_port = port }

unfoldable pub create_heartbeat : NodeInfoManager → HeartbeatMessage
create_heartbeat m = record {
  zlc_version = zlc_version_constants;
  node_id = m.local_node_info.node_id;
  info_id = of_u32 m.local_node_info.info_id;
  service_port = m.service_port;
  group_name = m.group_name;
}

-- Under `local_mutex_`.
unfoldable pub get_local_node_info : NodeInfoManager → NodeInfo
get_local_node_info m = m.local_node_info

-- `++infoID` on a `uint32_t`.
next_id : ℕ → ℕ
next_id id = (id + 1) % 2 ^ 32

unfoldable pub register_local_topic : Str → ℕ → NodeInfoManager → NodeInfoManager
unfolding next_id
register_local_topic name port m = record m {
  local_node_info = record own {
    topics = own.topics ++ record { name = name; ip = own.ip; port = port } ∷ [];
    info_id = next_id own.info_id;
  };
}
  where
    own : NodeInfo
    own = m.local_node_info

unfoldable pub register_local_service : Str → ℕ → NodeInfoManager → NodeInfoManager
unfolding next_id
register_local_service name port m = record m {
  local_node_info = record own {
    services = own.services ++ record { name = name; ip = own.ip; port = port } ∷ [];
    info_id = next_id own.info_id;
  };
}
  where
    own : NodeInfo
    own = m.local_node_info
