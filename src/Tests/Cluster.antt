-- ===== src/Tests/Cluster.antt =====
-- Two nodes of a group: one makes a publisher, the other hears of it; then the first registers a service.
use zero_lan_com.Base.{[], ◌∷◌, some, true, false, ◌≡◌, ◌≢◌, ◌↔◌, refl, arith, inl}
use zero_lan_com.Base.Text.{Str, bytes, str_eq, str_eq_iff}
use zero_lan_com.Base.Map.{find, insert}
use zero_lan_com.Nodes.NodeInfo.{NodeInfo}
use zero_lan_com.Nodes.Heartbeat.{HeartbeatMessage}
use zero_lan_com.Nodes.NodeInfoManager.{
  init, create_heartbeat, mark_heartbeat, store_fetched, register_local_topic, check_node_id,
  check_node_info_id, get_local_node_info, update_node, get_service_info,
}
use zero_lan_com.Nodes.NodeInfoManager.Refetch.{topic, service, register}
use zero_lan_com.Nodes.Cluster.{
  Cluster, Node, waiting, fetching, fetched, own, set_node, start, Act, registers, hears, answered,
  stores, acts, sends, Steps, here, next,
}
use zero_lan_com.Nodes.Cluster.Earlier.{IsEarlier}
use zero_lan_com.Nodes.Cluster.Lookup.{Found, get_service_info-Found}
use zero_lan_com.Nodes.Cluster.Outcome.{stored}
use zero_lan_com.Nodes.Cluster.Knowledge.{stored_once_told, stored_no_older, needs_fetch-current}

abbrev pub a : Str
a = bytes "a"

abbrev pub b : Str
b = bytes "b"

pub a-ne-b : a ≢ b
unfolding str_eq
a-ne-b e = let equal : false ≡ true = (str_eq_iff a b).1 e in cc

abbrev pub name : Str → Str
name k = k

abbrev pub ip : Str → Str
ip k = bytes "10.0.0.1"

abbrev made : Cluster
made = start name ip

-- The publisher.
abbrev publishing : Node
publishing = record (made.nodes a) {
  table = register (topic (bytes "map") 4300) (made.nodes a).table;
}

abbrev published : Cluster
published = set_node a publishing made

abbrev heartbeat : HeartbeatMessage
heartbeat = create_heartbeat (published.nodes a).table

abbrev announced : Cluster
announced = record published { sent = heartbeat ∷ [] }

-- Node `b` hears the heartbeat, fetches and stores.
abbrev hearing : Node
hearing = record {
  table = (mark_heartbeat heartbeat 1_000_000_000 (made.nodes b).table).0;
  phase = fetching heartbeat;
}

abbrev heard : Cluster
heard = set_node b hearing announced

abbrev info : NodeInfo
info = get_local_node_info publishing.table

abbrev answering : Node
answering = record hearing { phase = fetched heartbeat (some info) }

abbrev told : Cluster
told = set_node b answering heard

abbrev storing : Node
storing = record {
  table = (store_fetched heartbeat (some info) 1_100_000_000 hearing.table).0;
  phase = waiting;
}

abbrev learned : Cluster
learned = set_node b storing told

hears_act : Act announced b hearing
unfolding start init mark_heartbeat check_node_id check_node_info_id find create_heartbeat str_eq
    register register_local_topic
hears_act = hears heartbeat 1_000_000_000 _ _ refl (inl refl) a-ne-b refl

answers_act : Act heard b answering
unfolding start init create_heartbeat str_eq register register_local_topic
answers_act = answered heartbeat refl

stores_act : Act told b storing
unfolding str_eq
stores_act = stores heartbeat (some info) 1_100_000_000 refl

learning : Steps made learned
unfolding start
learning =
    next
      (next
        (next
          (next (next here (acts made a publishing (registers (topic (bytes "map") 4300))))
            (sends published a))
          (acts announced b hearing hears_act))
        (acts heard b answering answers_act))
      (acts told b storing stores_act)

-- What is then known.
stored_once_told_example : IsEarlier info (own learned a)
unfolding start init store_fetched update_node mark_heartbeat find insert create_heartbeat str_eq
    register register_local_topic get_local_node_info
stored_once_told_example = stored_once_told name ip learned learning b a info refl

stored_no_older_example : IsEarlier info info
unfolding start init store_fetched update_node mark_heartbeat find insert create_heartbeat str_eq
    register register_local_topic get_local_node_info
stored_no_older_example =
    stored_no_older name ip learned learned learning here b a info info refl refl

needs_fetch-current_example :
    ((mark_heartbeat
        (create_heartbeat (learned.nodes a).table)
        5
        (learned.nodes b).table).1.needs_fetch
      ≡ false)
    ↔ (stored (learned.nodes b) a ≡ some (own learned a))
unfolding start init str_eq register register_local_topic
needs_fetch-current_example = needs_fetch-current name ip learned learning b a 5 (omega arith)

-- The first node registers a service then, and looks it up.
abbrev serving : Node
serving = record (learned.nodes a) {
  table = register (service (bytes "add") 4400) (learned.nodes a).table;
}

abbrev served : Cluster
served = set_node a serving learned

get_service_info-Found_example :
    Found served (bytes "add") a (get_service_info (bytes "add") (served.nodes a).table)
get_service_info-Found_example =
    get_service_info-Found name ip served
      (next learning (acts learned a serving (registers (service (bytes "add") 4400)))) a
      (bytes "add")
