-- ===== src/Api/Reached.antt =====
-- The way of a new publisher to the subscribers of another node.
use zero_lan_com.Base.{
  ℕ, ◌^◌, ◌<◌, List, [], ◌∷◌, Option, none, some, Bool, true, not, ◌||◌, ◌≡◌, ap, sym, subst, ◌⊎◌,
  arith, map, All, inl, inr,
}
use zero_lan_com.Base.Text.{Str, str_eq, str_eq_iff}
use zero_lan_com.Base.Int.{ℤ, pos, IsU32}
use zero_lan_com.Base.Decimal.{to_string_u}
use zero_lan_com.Base.Map.{find}
use zero_lan_com.Base.Map.Unique.{contains}
use zero_lan_com.Base.Result.{ok}
use zero_lan_com.Utils.Endpoint.{tcp_url}
use zero_lan_com.Nodes.NodeInfo.{SocketInfo, NodeInfo}
use zero_lan_com.Nodes.NodeInfoManager.{
  NodeInfoManager, register_local_topic, create_heartbeat, mark_heartbeat, store_fetched,
  process_heartbeat,
}
use zero_lan_com.Nodes.NodeInfoManager.Consistency.{IsConsistent}
use zero_lan_com.Nodes.NodeInfoManager.Refetch.{topic, register, registers, needed-eq, needed_new}
use zero_lan_com.Sockets.SubscriberManager.{Subscriber, update_one, update_topic_subscriber}
use zero_lan_com.Sockets.SubscriberManager.One.{
  announces, follow, follow_update-contains, IsSynced, update_one-IsSynced, follow-IsSynced,
}
use zero_lan_com.Sockets.SubscriberManager.Follow.{each_topic-map, AllSynced, is_connected}
use zero_lan_com.Sockets.Discovery.{connect_all}
use zero_lan_com.Sockets.Discovery.Links.{follow_update-name}
use zero_lan_com.Api.{full_topic_name, construct_publisher}
use zero_lan_com.Api.Announced.{construct_publisher-eq}

module _ {W : Type 0} (name url : Str) where
  -- A subscriber of the topic is connected to the URL.
  abbrev pub connects : Subscriber W → Bool
  connects sub = not (str_eq sub.topic_name name) || is_connected url sub

  updated-connects :
      (ts : List SocketInfo) (sub : Subscriber W)
      → IsSynced sub
      → announces name url ts ≡ true
      → connects (follow update_one ts sub) ≡ true
  updated-connects ts sub same a = ground (
    arith,
    ap (contains url) (follow-IsSynced update_one update_one-IsSynced ts sub same),
    follow_update-contains ts sub url,
    follow_update-name ts sub,
    str_eq_iff sub.topic_name name,
    a,
  )

  All-connects :
      (ts : List SocketInfo) (subs : List (Subscriber W))
      → AllSynced subs
      → announces name url ts ≡ true
      → All (λ sub. connects sub ≡ true) (map (follow update_one ts) subs)
  All-connects ts [] same a = tt
  All-connects ts (sub ∷ subs) same a =
      (updated-connects ts sub same.0 a, All-connects ts subs same.1 a)

  pub connect_all-one :
      (info : NodeInfo) (subs : List (Subscriber W))
      → AllSynced subs
      → announces name url info.topics ≡ true
      → All (λ sub. connects sub ≡ true) (connect_all (info ∷ []) subs)
  unfolding connect_all update_topic_subscriber
  connect_all-one info subs same a =
      subst (All (λ sub. connects sub ≡ true)) (sym (each_topic-map update_one info.topics subs))
        (All-connects info.topics subs same a)

module _ (a b : NodeInfoManager) (name : Str) (port : ℕ) (fetch : Str → ℤ → Option NodeInfo)
    (node_ip : Str) (now later : ℕ) (c : IsConsistent b) (small : IsU32 a.local_node_info.info_id)
    (before : (find a.local_node_info.node_id b.nodes_info ≡ none)
      ⊎ (find a.local_node_info.node_id b.nodes_info ≡ some a.local_node_info)) where
  abbrev extended : NodeInfoManager
  extended = register_local_topic name port a

  needed : (mark_heartbeat (create_heartbeat extended) now b).1.needs_fetch ≡ true
  unfolding registers register
  needed = elim before [
    | inl unknown ↦ needed_new a b (topic name port ∷ []) fetch node_ip now later c small unknown
    | inr known ↦
        needed-eq a b (topic name port ∷ []) fetch node_ip now later c small known (omega arith)
  ]

  pub notices :
      fetch node_ip extended.service_port ≡ some extended.local_node_info
      → (process_heartbeat fetch (create_heartbeat extended) node_ip now later b).1
        ≡ extended.local_node_info ∷ []
  unfolding process_heartbeat create_heartbeat store_fetched
  notices answered = rw (needed, answered)

pub construct_publisher-registered :
    (a a' : NodeInfoManager) (topic_name : Str) (with_local_namespace : Bool) (port : ℕ)
    → port < 2 ^ 16
    → construct_publisher
        (ok (tcp_url a.local_node_info.ip (to_string_u port)))
        topic_name
        with_local_namespace
        a
      ≡ ok (pos port, a')
    → register_local_topic (full_topic_name with_local_namespace topic_name) port a ≡ a'
construct_publisher-registered a a' topic_name with_local_namespace port small made =
    let expected = construct_publisher-eq topic_name with_local_namespace port a small in cc
