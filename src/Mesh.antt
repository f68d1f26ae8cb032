-- ===== src/Mesh.antt =====
-- The nodes of a group with their subscribers: on each node the table and the receiver
-- (src/nodes/node_info_manager.cpp, src/nodes/multicast.cpp) and the subscriber manager that its events
-- call (src/sockets/subscriber_manager.cpp). The steps of the nodes interleave in any order; connecting
-- does not fail. More can happen than on real nodes, where a check follows each heartbeat and two
-- threads may come to block each other (Sockets.Discovery.Locks): what holds here whatever happens
-- holds there, but that something can happen here says nothing of there. `owner` says which node a URL belongs to: no two nodes bind one endpoint.
pub mod Projection
pub mod Announced
pub mod Good
pub mod Invariant
pub mod Foreign
pub mod Stranded
use zero_lan_com.Base.{ℕ, List, [], ◌∷◌, Option, none, some, if◌then◌else◌, ◌≡◌, ◌≢◌}
use zero_lan_com.Base.Text.{Str, str_eq}
use zero_lan_com.Base.Map.Unique.{Has}
use zero_lan_com.Base.Result.{Result}
use zero_lan_com.Nodes.NodeInfo.{NodeInfo}
use zero_lan_com.Nodes.Heartbeat.{HeartbeatMessage}
use zero_lan_com.Nodes.NodeInfoManager
use zero_lan_com.Nodes.NodeInfoManager.{
  NodeInfoManager, Verdict, mark_heartbeat, create_heartbeat, get_local_node_info,
}
use zero_lan_com.Nodes.NodeInfoManager.Refetch.{Registration, topic, service, register}
use zero_lan_com.Nodes.Cluster.{Cluster, Node, Phase, waiting, fetching, fetched}
use zero_lan_com.Sockets.SubscriberManager.{topic_url}
use zero_lan_com.Sockets.Discovery
use zero_lan_com.Sockets.Discovery.{Discovery, happen}

pub record Peer (W : Type 0) : Type 0 where
  pub discovery : Discovery W
  pub phase : Phase

pub record Mesh (W : Type 0) : Type 0 where
  pub peers : Str → Peer W
  pub sent : List HeartbeatMessage

-- The endpoint of a new publisher is the node's own.
abbrev pub IsFree : (Str → Str) → Str → NodeInfoManager → Registration → Type 0
IsFree owner k m (topic name port) =
    owner (topic_url (record { name = name; ip = m.local_node_info.ip; port = port })) ≡ k
IsFree owner k m (service name port) = Unit

module _ {W : Type 0} where
  -- Without the subscribers.
  abbrev pub node_of : Peer W → Node
  node_of p = record { table = p.discovery.table; phase = p.phase }

  abbrev pub cluster_of : Mesh W → Cluster
  cluster_of m = record { nodes = λ k. node_of (m.peers k); sent = m.sent }

  abbrev pub own : Mesh W → Str → NodeInfo
  own m k = (m.peers k).discovery.table.local_node_info

  abbrev pub set_peer : Str → Peer W → Mesh W → Mesh W
  set_peer k p m = record m { peers = λ j. if str_eq k j then p else m.peers j }

  unfoldable pub start : (Str → Str) → (Str → Str) → Mesh W
  start name ip = record {
    peers = λ k. record {
      discovery = record {
        table = NodeInfoManager.init k (name k) (ip k);
        subscribers = [];
        pending = [];
      };
      phase = waiting;
    };
    sent = [];
  }

-- What a thread of node `k` does between one access to shared state and the next.
pub data Act {W : Type 0} (owner : Str → Str) (m : Mesh W) (k : Str) : Peer W → Type 0 where
  registers :
      (r : Registration)
      → IsFree owner k (m.peers k).discovery.table r
      → Act owner m k (record (m.peers k) {
        discovery = record (m.peers k).discovery { table = register r (m.peers k).discovery.table };
      })
  hears :
      (h : HeartbeatMessage) (now : ℕ)
      → (m.peers k).phase ≡ waiting
      → Has h m.sent
      → h.node_id ≢ k
      → Act owner m k (record {
        discovery = happen (Discovery.heard h now) (m.peers k).discovery;
        phase =
            if (mark_heartbeat h now (m.peers k).discovery.table).1.needs_fetch
            then fetching h
            else waiting;
      })
  answered :
      (h : HeartbeatMessage)
      → (m.peers k).phase ≡ fetching h
      → Act owner m k (record (m.peers k) {
        phase = fetched h (some (get_local_node_info (m.peers h.node_id).discovery.table));
      })
  failed :
      (h : HeartbeatMessage)
      → (m.peers k).phase ≡ fetching h
      → Act owner m k (record (m.peers k) { phase = fetched h none })
  stores :
      (h : HeartbeatMessage) (info : Option NodeInfo) (now : ℕ)
      → (m.peers k).phase ≡ fetched h info
      → Act owner m k (record {
        discovery = happen (Discovery.fetched h info now) (m.peers k).discovery;
        phase = waiting;
      })
  -- `node_update_event` is delivered for the first of the infos that were stored
  delivers :
      Act owner m k
        (record (m.peers k) { discovery = happen Discovery.delivered (m.peers k).discovery })
  checks :
      (now : ℕ)
      → Act owner m k
          (record (m.peers k) { discovery = happen (Discovery.expired now) (m.peers k).discovery })
  -- `registerSubscriberHandler`
  subscribes :
      (name : Str) (callback : List ℕ → W → Result (Unit {0}) × W) (socket : ℕ)
      → Act owner m k (record (m.peers k) {
        discovery = happen (Discovery.subscribed name callback socket) (m.peers k).discovery;
      })

pub data Step {W : Type 0} (owner : Str → Str) : Mesh W → Mesh W → Type 0 where
  acts : (m : Mesh W) (k : Str) (p : Peer W) → Act owner m k p → Step owner m (set_peer k p m)
  sends :
      (m : Mesh W) (k : Str)
      → Step owner m (record m { sent = create_heartbeat (m.peers k).discovery.table ∷ m.sent })

pub data Steps {W : Type 0} (owner : Str → Str) : Mesh W → Mesh W → Type 0 where
  here : {m : Mesh W} → Steps owner m m
  next : {m n o : Mesh W} → Steps owner m n → Step owner n o → Steps owner m o
