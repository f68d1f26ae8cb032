-- ===== src/Nodes/NodeInfoManager/Sections.antt =====
-- The critical sections of node_info_manager.cpp as steps. The locks make each of them atomic, so
-- what threads do together is a sequence of sections; between the two of one `processHeartbeat`
-- any others may stand. No subscriber of `node_remove_event` throws in a check (Throwing is about
-- those that do).
use zero_lan_com.Base.{ℕ, List, [], ◌∷◌, Option}
use zero_lan_com.Base.Text.{Str}
use zero_lan_com.Base.Int.{ℤ}
use zero_lan_com.Nodes.NodeInfo.{NodeInfo}
use zero_lan_com.Nodes.Heartbeat.{HeartbeatMessage}
use zero_lan_com.Nodes.NodeInfoManager.{
  NodeInfoManager, remove_node, mark_heartbeat, store_fetched, check_heartbeats, set_group_name,
  set_service_port, register_local_topic, register_local_service,
}

pub data Section : Type 0 where
  mark : HeartbeatMessage → ℕ → Section
  store : HeartbeatMessage → Option NodeInfo → ℕ → Section
  remove : Str → Section
  check : ℕ → Section
  group : Str → Section
  port : ℤ → Section
  topic service : Str → ℕ → Section

unfoldable pub run_section : Section → NodeInfoManager → NodeInfoManager
run_section (mark heartbeat now) m = (mark_heartbeat heartbeat now m).0
run_section (store heartbeat fetched now) m = (store_fetched heartbeat fetched now m).0
run_section (remove node_id) m = remove_node node_id m
run_section (check now) m = (check_heartbeats now m).0
run_section (group name) m = set_group_name name m
run_section (port number) m = set_service_port number m
run_section (topic name number) m = register_local_topic name number m
run_section (service name number) m = register_local_service name number m

unfoldable pub run_sections : List Section → NodeInfoManager → NodeInfoManager
run_sections [] m = m
run_sections (s ∷ ss) m = run_sections ss (run_section s m)
