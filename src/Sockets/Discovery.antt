-- ===== src/Sockets/Discovery.antt =====
-- How src/nodes/node_info_manager.cpp and src/sockets/subscriber_manager.cpp work together: the
-- critical sections of `processHeartbeat`, the delivery of its `node_update_event` to
-- `updateTopicSubscriber`, `checkHeartbeats` with its `node_remove_event`, and
-- `registerTopicSubscriber`, which any thread may run in between. Connecting does not fail.
pub mod Links
pub mod Withdrawn
pub mod NoneMissed
pub mod Proper
pub mod NoneInvented
pub mod Unmet
pub mod Synced
pub mod Locks
use zero_lan_com.Base.{ℕ, List, [], ◌∷◌, ◌++◌, Option}
use zero_lan_com.Base.Text.{Str}
use zero_lan_com.Base.Result.{Result}
use zero_lan_com.Nodes.NodeInfo.{NodeInfo}
use zero_lan_com.Nodes.Heartbeat.{HeartbeatMessage}
use zero_lan_com.Nodes.NodeInfoManager.{
  NodeInfoManager, mark_heartbeat, store_fetched, check_heartbeats,
}
use zero_lan_com.Sockets.SubscriberManager.{
  Subscriber, update_topic_subscriber, remove_topic_subscriber, register_topic_subscriber,
}

pub record Discovery (W : Type 0) : Type 0 where
  pub table : NodeInfoManager
  pub subscribers : List (Subscriber W)
  -- infos that are stored in the table and not yet delivered
  pub pending : List NodeInfo

pub data Event (W : Type 0) : Type 0 where
  heard : HeartbeatMessage → ℕ → Event W
  fetched : HeartbeatMessage → Option NodeInfo → ℕ → Event W
  delivered : Event W
  -- `checkHeartbeats`, which delivers its `node_remove_event` while it holds the lock
  expired : ℕ → Event W
  subscribed : Str → (List ℕ → W → Result (Unit {0}) × W) → ℕ → Event W

module _ {W : Type 0} where
  unfoldable pub deliver : List NodeInfo → Discovery W → Discovery W
  deliver [] d = d
  deliver (info ∷ rest) d = record d {
    subscribers = (update_topic_subscriber info d.subscribers);
    pending = rest;
  }

  -- `node_update_event` for one node after another.
  unfoldable pub connect_all : List NodeInfo → List (Subscriber W) → List (Subscriber W)
  connect_all [] subs = subs
  connect_all (info ∷ rest) subs = connect_all rest (update_topic_subscriber info subs)

  -- `node_remove_event` for one node after another.
  unfoldable pub withdraw : List NodeInfo → List (Subscriber W) → List (Subscriber W)
  withdraw [] subs = subs
  withdraw (gone ∷ rest) subs = withdraw rest (remove_topic_subscriber gone subs)

  unfoldable pub happen : Event W → Discovery W → Discovery W
  unfolding deliver
  happen (heard heartbeat now) d = record d { table = (mark_heartbeat heartbeat now d.table).0 }
  happen (fetched heartbeat info now) d =
      let (table, infos) = store_fetched heartbeat info now d.table in
      record d { table = table; pending = d.pending ++ infos }
  happen delivered d = deliver d.pending d
  happen (expired now) d =
      let (table, gone) = check_heartbeats now d.table in
      record d { table = table; subscribers = withdraw gone d.subscribers }
  happen (subscribed topic_name callback socket) d = record d {
    subscribers = (register_topic_subscriber topic_name callback socket d.table d.subscribers);
  }

  unfoldable pub happens : List (Event W) → Discovery W → Discovery W
  happens [] d = d
  happens (e ∷ es) d = happens es (happen e d)
