-- ===== src/Nodes/Cluster.antt =====
-- All nodes of a group together: src/nodes/node_info_manager.cpp on each of them, the heartbeats that
-- `MulticastSender` sends, and the round of `MulticastReceiver` that handles one, cut where it waits.
-- Datagrams are lost, repeated and overtaken at will. A fetch that is answered is answered by the
-- node that the heartbeat names.
pub mod Earlier
pub mod Outcome
pub mod Invariant
pub mod Knowledge
pub mod Lookup
use zero_lan_com.Base.{ℕ, List, [], ◌∷◌, Option, none, some, if◌then◌else◌, ◌≡◌, ◌≢◌}
use zero_lan_com.Base.Text.{Str, str_eq}
use zero_lan_com.Base.Map.Unique.{Has}
use zero_lan_com.Nodes.NodeInfo.{NodeInfo}
use zero_lan_com.Nodes.Heartbeat.{HeartbeatMessage}
use zero_lan_com.Nodes.NodeInfoManager
use zero_lan_com.Nodes.NodeInfoManager.{
  NodeInfoManager, Verdict, mark_heartbeat, store_fetched, check_heartbeats, remove_node,
  create_heartbeat, get_local_node_info,
}
use zero_lan_com.Nodes.NodeInfoManager.Refetch.{Registration, register}

-- Where the receiver of a node is in `processHeartbeat`.
pub data Phase : Type 0 where
  waiting : Phase
  -- behind the first critical section, in `fetchNodeInfo`
  fetching : HeartbeatMessage → Phase
  -- the fetch has returned
  fetched : HeartbeatMessage → Option NodeInfo → Phase

pub record Node : Type 0 where
  pub table : NodeInfoManager
  pub phase : Phase

-- A node for each UUID; those that are not there take no steps. `sent` are all heartbeats ever sent.
pub record Cluster : Type 0 where
  pub nodes : Str → Node
  pub sent : List HeartbeatMessage

abbrev pub own : Cluster → Str → NodeInfo
own c k = (c.nodes k).table.local_node_info

abbrev pub set_node : Str → Node → Cluster → Cluster
set_node k n c = record c { nodes = λ j. if str_eq k j then n else c.nodes j }

-- The nodes as their constructors leave them, with a name and an address for each.
unfoldable pub start : (Str → Str) → (Str → Str) → Cluster
start name ip = record {
  nodes = λ k. record { table = NodeInfoManager.init k (name k) (ip k); phase = waiting };
  sent = [];
}

-- What node `k` does between one access to its shared state and the next.
pub data Act (c : Cluster) (k : Str) : Node → Type 0 where
  -- `registerLocalTopic` and `registerLocalService`
  registers :
      (r : Registration) → Act c k (record (c.nodes k) { table = register r (c.nodes k).table })
  -- the first critical section of `processHeartbeat`, for any heartbeat that some node has sent
  hears :
      (h : HeartbeatMessage) (now : ℕ) (marked : NodeInfoManager) (verdict : Verdict)
      → (c.nodes k).phase ≡ waiting
      → Has h c.sent
      → h.node_id ≢ k
      → mark_heartbeat h now (c.nodes k).table ≡ (marked, verdict)
      → Act c k
          (record { table = marked; phase = if verdict.needs_fetch then fetching h else waiting })
  -- `fetchNodeInfo` returns what `getLocalNodeInfo` gave on the other node, or `nullopt`
  answered :
      (h : HeartbeatMessage)
      → (c.nodes k).phase ≡ fetching h
      → Act c k (record (c.nodes k) {
        phase = fetched h (some (get_local_node_info (c.nodes h.node_id).table));
      })
  failed :
      (h : HeartbeatMessage)
      → (c.nodes k).phase ≡ fetching h
      → Act c k (record (c.nodes k) { phase = fetched h none })
  -- the second critical section
  stores :
      (h : HeartbeatMessage) (info : Option NodeInfo) (now : ℕ)
      → (c.nodes k).phase ≡ fetched h info
      → Act c k (record { table = (store_fetched h info now (c.nodes k).table).0; phase = waiting })
  checks :
      (now : ℕ)
      → Act c k (record (c.nodes k) { table = (check_heartbeats now (c.nodes k).table).0 })
  removes :
      (node_id : Str)
      → Act c k (record (c.nodes k) { table = remove_node node_id (c.nodes k).table })

pub data Step : Cluster → Cluster → Type 0 where
  acts : (c : Cluster) (k : Str) (n : Node) → Act c k n → Step c (set_node k n c)
  -- `MulticastSender`
  sends :
      (c : Cluster) (k : Str)
      → Step c (record c { sent = create_heartbeat (c.nodes k).table ∷ c.sent })

pub data Steps : Cluster → Cluster → Type 0 where
  here : {c : Cluster} → Steps c c
  next : {c d e : Cluster} → Steps c d → Step d e → Steps c e
