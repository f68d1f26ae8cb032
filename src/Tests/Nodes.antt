-- ===== src/Tests/Nodes.antt =====
-- A heartbeat on the wire, and a node table that hears of one node.
use zero_lan_com.Base.{[], ◌∷◌, ◌++◌, none, ◌≡◌, refl, arith}
use zero_lan_com.Base.Text.{bytes, str_eq}
use zero_lan_com.Base.Map.{find, insert}
use zero_lan_com.Base.Result.{ok, ◌>>=◌}
use zero_lan_com.Nodes.Heartbeat.{encode, decode, IsValid}
use zero_lan_com.Nodes.Heartbeat.RoundTrip.{decode-encode}
use zero_lan_com.Nodes.NodeInfoManager.{
  init, update_node, mark_heartbeat, store_fetched, check_heartbeats,
}
use zero_lan_com.Nodes.NodeInfoManager.Sections.{run_section, run_sections, check}
use zero_lan_com.Nodes.NodeInfoManager.Consistency.{IsConsistent, reachable-IsConsistent}
use zero_lan_com.Nodes.NodeInfoManager.Table.{view, table_steps, run_sections-view}
use zero_lan_com.Nodes.NodeInfoManager.Expiry.{check_heartbeats-find}
use zero_lan_com.Tests.Data.{uuid_a, uuid_b, ip_b, node_b, fresh_b, heartbeat_a, hearing_a}

heartbeat_a-IsValid : IsValid heartbeat_a
heartbeat_a-IsValid = record {
  major = omega arith;
  minor = omega arith;
  patch = omega arith;
  node_id = refl;
  info_id = omega arith;
  service_port = omega arith;
}

decode-encode_example : (encode heartbeat_a >>= decode) ≡ ok heartbeat_a
decode-encode_example = decode-encode heartbeat_a heartbeat_a-IsValid

node_b-IsConsistent : IsConsistent node_b
node_b-IsConsistent = reachable-IsConsistent hearing_a uuid_b (bytes "b") ip_b

reachable-IsConsistent_example :
    IsConsistent (run_sections (hearing_a ++ check 5_000_000_000 ∷ []) fresh_b)
reachable-IsConsistent_example =
    reachable-IsConsistent (hearing_a ++ check 5_000_000_000 ∷ []) uuid_b (bytes "b") ip_b

fresh_b-IsConsistent : IsConsistent fresh_b
fresh_b-IsConsistent = unfold run_sections in reachable-IsConsistent [] uuid_b (bytes "b") ip_b

run_sections-view_example :
    view (run_sections (hearing_a ++ check 5_000_000_000 ∷ []) fresh_b)
    ≡ table_steps (hearing_a ++ check 5_000_000_000 ∷ []) (view fresh_b)
run_sections-view_example =
    run_sections-view (hearing_a ++ check 5_000_000_000 ∷ []) fresh_b fresh_b-IsConsistent

-- The first node registers another topic, and the second one hears of it.
-- At four seconds the first node has been silent for three.
check_heartbeats-find_example :
    (find uuid_a (check_heartbeats 4_000_000_000 node_b).0.nodes_info ≡ none)
    × (find uuid_a (check_heartbeats 4_000_000_000 node_b).0.nodes_info_id ≡ none)
    × (find uuid_a (check_heartbeats 4_000_000_000 node_b).0.nodes_heartbeat ≡ none)
unfolding init run_sections run_section mark_heartbeat store_fetched update_node insert find str_eq
check_heartbeats-find_example =
    check_heartbeats-find 4_000_000_000 1_000_000_000 uuid_a node_b node_b-IsConsistent refl
