-- ===== src/Nodes/NodeInfoManager/Consistency.antt =====
-- The three tables of the known nodes, whatever sections run.
use zero_lan_com.Base.{ℕ, List, [], ◌∷◌, Option, none, some, ◌≡◌, refl, ap, sym, subst, ◌∙◌, arith}
use zero_lan_com.Base.Text.{Str, str_eq_iff}
use zero_lan_com.Base.Int.{ℤ}
use zero_lan_com.Base.Map.{Map, find, insert, erase, find-insert, find-erase}
use zero_lan_com.Base.Map.Unique.{
  Unique, insert-Unique, erase-Unique, erase_all, find-erase_all, erase_all-Unique, keys_where,
}
use zero_lan_com.Nodes.NodeInfo.{NodeInfo}
use zero_lan_com.Nodes.Heartbeat.{HeartbeatMessage}
use zero_lan_com.Nodes.NodeInfoManager.{
  NodeInfoManager, init, remove_node, mark_heartbeat, store_fetched, check_heartbeats, remove_stale,
  set_group_name, set_service_port, register_local_topic, register_local_service, is_stale,
  subscript,
}
use zero_lan_com.Nodes.NodeInfo.{empty_node_info}
use zero_lan_com.Nodes.NodeInfoManager.Sections.{
  Section, mark, store, remove, check, group, port, topic, service, run_section, run_sections,
}

abbrev pub id_of : Option NodeInfo → Option ℕ
id_of none = none
id_of (some info) = some info.info_id

-- The three tables agree: an id is kept for exactly the nodes with an info and is the info's, a node
-- with an info has a heartbeat time, and no table holds a key twice.
pub record IsConsistent (m : NodeInfoManager) : Type 0 where
  pub ids : (k : Str) → find k m.nodes_info_id ≡ id_of (find k m.nodes_info)
  pub beats : (k : Str) → find k m.nodes_heartbeat ≡ none → find k m.nodes_info ≡ none
  pub unique_info : Unique m.nodes_info
  pub unique_ids : Unique m.nodes_info_id
  pub unique_beats : Unique m.nodes_heartbeat

pub init-IsConsistent : (uuid name ip : Str) → IsConsistent (init uuid name ip)
unfolding init find
init-IsConsistent uuid name ip = record {
  ids = λ k. refl;
  beats = λ k h. refl;
  unique_info = tt;
  unique_ids = tt;
  unique_beats = tt;
}

mark-IsConsistent :
    (heartbeat : HeartbeatMessage) (now : ℕ) (m : NodeInfoManager)
    → IsConsistent m
    → IsConsistent (mark_heartbeat heartbeat now m).0
unfolding mark_heartbeat
mark-IsConsistent heartbeat now m c = record {
  ids = c.ids;
  beats = λ k h. ground (arith, find-insert heartbeat.node_id k now m.nodes_heartbeat, c.beats k);
  unique_info = c.unique_info;
  unique_ids = c.unique_ids;
  unique_beats = insert-Unique heartbeat.node_id now m.nodes_heartbeat c.unique_beats;
}

store-IsConsistent :
    (heartbeat : HeartbeatMessage) (fetched : Option NodeInfo) (now : ℕ) (m : NodeInfoManager)
    → IsConsistent m
    → IsConsistent (store_fetched heartbeat fetched now m).0
unfolding store_fetched
store-IsConsistent heartbeat none now m c = c
store-IsConsistent heartbeat (some info) now m c = record {
  ids = λ k. ground (
    arith,
    c.ids k,
    find-insert heartbeat.node_id k info m.nodes_info,
    find-insert heartbeat.node_id k info.info_id m.nodes_info_id,
  );
  beats = λ k h. ground (
    arith,
    c.beats k,
    find-insert heartbeat.node_id k info m.nodes_info,
    find-insert heartbeat.node_id k now m.nodes_heartbeat,
  );
  unique_info = insert-Unique heartbeat.node_id info m.nodes_info c.unique_info;
  unique_ids = insert-Unique heartbeat.node_id info.info_id m.nodes_info_id c.unique_ids;
  unique_beats = insert-Unique heartbeat.node_id now m.nodes_heartbeat c.unique_beats;
}

remove-IsConsistent :
    (node_id : Str) (m : NodeInfoManager) → IsConsistent m → IsConsistent (remove_node node_id m)
unfolding remove_node
remove-IsConsistent node_id m c = record {
  ids = λ k.
      ground
        (arith, c.ids k, find-erase node_id k m.nodes_info, find-erase node_id k m.nodes_info_id);
  beats = λ k h.
      ground (
        arith,
        c.beats k,
        find-erase node_id k m.nodes_info,
        find-erase node_id k m.nodes_heartbeat,
      );
  unique_info = erase-Unique node_id m.nodes_info c.unique_info;
  unique_ids = erase-Unique node_id m.nodes_info_id c.unique_ids;
  unique_beats = erase-Unique node_id m.nodes_heartbeat c.unique_beats;
}

-- Erasing a key forgets whether `operator[]` has put it in.
erase-insert :
    (k : Str) (v : NodeInfo) (nodes : Map NodeInfo) → erase k (insert k v nodes) ≡ erase k nodes
unfolding erase insert
erase-insert k v [] = ground (arith, str_eq_iff k k)
erase-insert k v ((j, w) ∷ nodes) =
    ground (arith, str_eq_iff j k, str_eq_iff k k, erase-insert k v nodes)

pub remove-subscript :
    (k : Str) (m : NodeInfoManager)
    → remove_node k (record m { nodes_info = (subscript k m.nodes_info).1 }) ≡ remove_node k m
unfolding remove_node subscript
remove-subscript k m = ground (arith, erase-insert k empty_node_info m.nodes_info)

abbrev pub erased : List Str → NodeInfoManager → NodeInfoManager
erased ks m = record m {
  nodes_info = erase_all ks m.nodes_info;
  nodes_info_id = erase_all ks m.nodes_info_id;
  nodes_heartbeat = erase_all ks m.nodes_heartbeat;
}

-- The loop of `checkHeartbeats` removes its keys, and each of them once.
pub remove_stale-nodes : (ks : List Str) (m : NodeInfoManager) → (remove_stale ks m).0 ≡ erased ks m
unfolding remove_stale erase_all
remove_stale-nodes [] m = refl
remove_stale-nodes (k ∷ ks) m =
    remove_stale-nodes ks (remove_node k (record m { nodes_info = (subscript k m.nodes_info).1 }))
    ∙ ap (erased ks) (remove-subscript k m)

erased-IsConsistent :
    (ks : List Str) (m : NodeInfoManager) → IsConsistent m → IsConsistent (erased ks m)
erased-IsConsistent ks m c = record {
  ids = λ k.
      ground
        (arith, c.ids k, find-erase_all ks k m.nodes_info, find-erase_all ks k m.nodes_info_id);
  beats = λ k h.
      ground
        (arith, c.beats k, find-erase_all ks k m.nodes_info, find-erase_all ks k m.nodes_heartbeat);
  unique_info = erase_all-Unique ks m.nodes_info c.unique_info;
  unique_ids = erase_all-Unique ks m.nodes_info_id c.unique_ids;
  unique_beats = erase_all-Unique ks m.nodes_heartbeat c.unique_beats;
}

check-IsConsistent :
    (now : ℕ) (m : NodeInfoManager) → IsConsistent m → IsConsistent (check_heartbeats now m).0
unfolding check_heartbeats
check-IsConsistent now m c =
    let ks : List Str = keys_where (is_stale now) m.nodes_heartbeat in
    subst IsConsistent (sym (remove_stale-nodes ks m)) (erased-IsConsistent ks m c)

-- A section that leaves the three tables alone.
same_tables-IsConsistent :
    (m : NodeInfoManager) (own : NodeInfo) (name : Str) (number : ℤ)
    → IsConsistent m
    → IsConsistent (record m { local_node_info = own; group_name = name; service_port = number })
same_tables-IsConsistent m own name number c = record {
  ids = c.ids;
  beats = c.beats;
  unique_info = c.unique_info;
  unique_ids = c.unique_ids;
  unique_beats = c.unique_beats;
}

pub run_section-IsConsistent :
    (s : Section) (m : NodeInfoManager) → IsConsistent m → IsConsistent (run_section s m)
unfolding run_section set_group_name set_service_port register_local_topic register_local_service
run_section-IsConsistent (mark heartbeat now) m c = mark-IsConsistent heartbeat now m c
run_section-IsConsistent (store heartbeat fetched now) m c =
    store-IsConsistent heartbeat fetched now m c
run_section-IsConsistent (remove node_id) m c = remove-IsConsistent node_id m c
run_section-IsConsistent (check now) m c = check-IsConsistent now m c
run_section-IsConsistent (group name) m c =
    same_tables-IsConsistent m m.local_node_info name m.service_port c
run_section-IsConsistent (port number) m c =
    same_tables-IsConsistent m m.local_node_info m.group_name number c
run_section-IsConsistent (topic name number) m c =
    same_tables-IsConsistent m _ m.group_name m.service_port c
run_section-IsConsistent (service name number) m c =
    same_tables-IsConsistent m _ m.group_name m.service_port c

run_sections-IsConsistent :
    (ss : List Section) (m : NodeInfoManager) → IsConsistent m → IsConsistent (run_sections ss m)
unfolding run_sections
run_sections-IsConsistent [] m c = c
run_sections-IsConsistent (s ∷ ss) m c =
    run_sections-IsConsistent ss (run_section s m) (run_section-IsConsistent s m c)

-- From the constructor on, whatever sections run and in whatever order, the tables agree.
pub reachable-IsConsistent :
    (ss : List Section) (uuid name ip : Str) → IsConsistent (run_sections ss (init uuid name ip))
reachable-IsConsistent ss uuid name ip =
    run_sections-IsConsistent ss (init uuid name ip) (init-IsConsistent uuid name ip)
