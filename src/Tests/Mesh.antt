-- ===== src/Tests/Mesh.antt =====
-- A publisher on one node and a subscriber on another.
use zero_lan_com.Base.{ℕ, List, [], ◌∷◌, some, refl, All, inl}
use zero_lan_com.Base.Text.{Str, bytes, str_eq}
use zero_lan_com.Base.Result.{Result, ok}
use zero_lan_com.Base.Map.{find, insert}
use zero_lan_com.Nodes.NodeInfo.{NodeInfo}
use zero_lan_com.Nodes.Heartbeat.{HeartbeatMessage}
use zero_lan_com.Nodes.NodeInfoManager
use zero_lan_com.Nodes.NodeInfoManager.{
  create_heartbeat, mark_heartbeat, store_fetched, register_local_topic, check_node_id,
  check_node_info_id, get_local_node_info, update_node, get_publisher_info, remote_publishers,
  named,
}
use zero_lan_com.Nodes.NodeInfoManager.Refetch.{topic, register}
use zero_lan_com.Nodes.Cluster.{waiting, fetching, fetched}
use zero_lan_com.Sockets.Discovery.Synced.{IsConnected, IsRightly}
use zero_lan_com.Sockets.SubscriberManager.{
  register_topic_subscriber, connect_each, topic_url, find_topic_urls,
}
use zero_lan_com.Base.Map.Unique.{contains}
use zero_lan_com.Sockets.Discovery.Unmet.{AllStill}
use zero_lan_com.Mesh.Stranded.{own_publisher_missed}
use zero_lan_com.Sockets.Discovery
use zero_lan_com.Sockets.Discovery.{happen}
use zero_lan_com.Mesh.{
  Peer, Mesh, set_peer, start, Act, registers, hears, answered, stores, delivers, subscribes, acts,
  sends, Steps, here, next,
}
use zero_lan_com.Mesh.Announced.{Announced}
use zero_lan_com.Mesh.Invariant.{subscribers-IsRightly, subscribers-IsConnected}
use zero_lan_com.Tests.Cluster.{a, b, a-ne-b, name, ip}

-- All endpoints belong to the first node.
abbrev owner : Str → Str
owner u = a

abbrev made : Mesh ℕ
made = start name ip

abbrev publishing : Peer ℕ
publishing = record (made.peers a) {
  discovery = record (made.peers a).discovery {
    table = register (topic (bytes "map") 4300) (made.peers a).discovery.table;
  };
}

abbrev published : Mesh ℕ
published = set_peer a publishing made

abbrev callback : List ℕ → ℕ → Result (Unit {0}) × ℕ
callback msg w = (ok tt, w)

abbrev subscribing : Peer ℕ
subscribing = record (made.peers b) {
  discovery = happen (Discovery.subscribed (bytes "map") callback 3) (made.peers b).discovery;
}

abbrev subscribed : Mesh ℕ
subscribed = set_peer b subscribing published

abbrev heartbeat : HeartbeatMessage
heartbeat = create_heartbeat publishing.discovery.table

abbrev announced : Mesh ℕ
announced = record subscribed { sent = heartbeat ∷ [] }

abbrev hearing : Peer ℕ
hearing = record {
  discovery = happen (Discovery.heard heartbeat 1_000_000_000) subscribing.discovery;
  phase = fetching heartbeat;
}

abbrev heard : Mesh ℕ
heard = set_peer b hearing announced

abbrev info : NodeInfo
info = get_local_node_info publishing.discovery.table

abbrev answering : Peer ℕ
answering = record hearing { phase = fetched heartbeat (some info) }

abbrev told : Mesh ℕ
told = set_peer b answering heard

abbrev storing : Peer ℕ
storing = record {
  discovery = happen (Discovery.fetched heartbeat (some info) 1_100_000_000) hearing.discovery;
  phase = waiting;
}

abbrev learned : Mesh ℕ
learned = set_peer b storing told

abbrev delivering : Peer ℕ
delivering = record storing { discovery = happen Discovery.delivered storing.discovery }

abbrev connected : Mesh ℕ
connected = set_peer b delivering learned

subscribing_run : Steps owner made subscribed
unfolding str_eq
subscribing_run =
    next (next here (acts made a publishing (registers (topic (bytes "map") 4300) refl)))
      (acts published b subscribing (subscribes (bytes "map") callback 3))

hears_act : Act owner announced b hearing
unfolding start NodeInfoManager.init mark_heartbeat check_node_id check_node_info_id find
    create_heartbeat str_eq register register_local_topic happen register_topic_subscriber
hears_act = hears heartbeat 1_000_000_000 refl (inl refl) a-ne-b

answers_act : Act owner heard b answering
unfolding start NodeInfoManager.init create_heartbeat str_eq register register_local_topic
answers_act = answered heartbeat refl

stores_act : Act owner told b storing
unfolding str_eq
stores_act = stores heartbeat (some info) 1_100_000_000 refl

delivers_act : Act owner learned b delivering
unfolding str_eq
delivers_act = delivers

connecting : Steps owner made connected
unfolding str_eq start
connecting =
    next
      (next
        (next
          (next (next subscribing_run (sends subscribed a)) (acts announced b hearing hears_act))
          (acts heard b answering answers_act))
        (acts told b storing stores_act))
      (acts learned b delivering delivers_act)

subscribers-IsRightly_example :
    All (IsRightly (Announced connected)) delivering.discovery.subscribers
unfolding str_eq
subscribers-IsRightly_example = subscribers-IsRightly owner name ip connected connecting b

subscribers-IsConnected_example : All (IsConnected info) delivering.discovery.subscribers
unfolding str_eq start NodeInfoManager.init happen store_fetched update_node mark_heartbeat find
    insert create_heartbeat register register_local_topic get_local_node_info
subscribers-IsConnected_example =
    subscribers-IsConnected owner name ip connected connecting b a refl refl

-- The first node subscribes, and makes its publisher then.
abbrev listening : Peer ℕ
listening = record (made.peers a) {
  discovery = happen (Discovery.subscribed (bytes "map") callback 5) (made.peers a).discovery;
}

abbrev joined : Mesh ℕ
joined = set_peer a listening made

abbrev late : Peer ℕ
late = record (joined.peers a) {
  discovery = record (joined.peers a).discovery {
    table = register (topic (bytes "map") 4300) (joined.peers a).discovery.table;
  };
}

abbrev late_url : Str
late_url = topic_url (record { name = bytes "map"; ip = ip a; port = 4300 })

own_publisher_missed_example :
    AllStill late_url (joined.peers a).discovery.subscribers late.discovery.subscribers
unfolding str_eq start NodeInfoManager.init happen register_topic_subscriber find_topic_urls
    get_publisher_info remote_publishers named contains connect_each
own_publisher_missed_example =
    own_publisher_missed owner name ip joined
      (next here (acts made a listening (subscribes (bytes "map") callback 5))) a late_url refl
      (refl, tt) (set_peer a late joined)
      (next here (acts joined a late (registers (topic (bytes "map") 4300) refl)))
