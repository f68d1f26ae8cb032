-- ===== src/Sockets/Discovery/Proper.antt =====
-- A subscriber that is connected to nothing but what was announced for its topic.
use zero_lan_com.Base.{
  ℕ, List, [], ◌∷◌, some, true, map, All, ◌≡◌, refl, ap, sym, subst, inl, inr, arith, Bool-cases,
}
use zero_lan_com.Base.Text.{Str, str_eq}
use zero_lan_com.Base.Map.{Map, find, find-insert}
use zero_lan_com.Base.Map.Unique.{Has, contains, keys_where}
use zero_lan_com.Nodes.NodeInfo.{SocketInfo, NodeInfo}
use zero_lan_com.Nodes.NodeInfoManager.{
  NodeInfoManager, named, remote_publishers, store_fetched, check_heartbeats, is_stale,
}
use zero_lan_com.Nodes.NodeInfoManager.Consistency.{remove_stale-nodes}
use zero_lan_com.Sockets.SubscriberManager.{
  Subscriber, topic_url, erase_url, update_one, remove_one, remove_topic_subscriber,
}
use zero_lan_com.Sockets.SubscriberManager.One.{
  announces, follow, contains-append, follow_update-contains,
}
use zero_lan_com.Sockets.SubscriberManager.Follow.{each_topic-map}
use zero_lan_com.Sockets.Discovery.Links.{contains-named, map-append, follow_update-name}
use zero_lan_com.Nodes.Heartbeat.{HeartbeatMessage}
use zero_lan_com.Sockets.Discovery.{withdraw}

-- What is erased is the only thing that may be missing.
pub contains-erased :
    (u v : Str) (xs : List Str) → contains u (erase_url v xs) ≡ true → contains u xs ≡ true
unfolding contains erase_url
contains-erased u v [] h = cc
contains-erased u v (x ∷ xs) h = ground (arith, contains-erased u v xs)

pub check_heartbeats-local :
    (now : ℕ) (m : NodeInfoManager) → (check_heartbeats now m).0.local_node_info ≡ m.local_node_info
unfolding check_heartbeats
check_heartbeats-local now m =
    ap (λ (q : NodeInfoManager). q.local_node_info)
      (remove_stale-nodes (keys_where (is_stale now) m.nodes_heartbeat) m)

-- `announced name url`: a publisher of the topic has announced the URL.
module _ (announced : Str → Str → Type 0) where
  -- The node tells nothing else.
  abbrev pub IsTold : NodeInfo → Type 0
  IsTold info = (name u : Str) → announces name u info.topics ≡ true → announced name u

  pub remote-told :
      (name u : Str) (nodes : Map NodeInfo)
      → ((k : Str) (info : NodeInfo) → Has {A = Str × NodeInfo} (k, info) nodes → IsTold info)
      → contains u (map topic_url (remote_publishers name nodes)) ≡ true
      → announced name u
  unfolding remote_publishers contains
  remote-told name u [] told h = cc
  remote-told name u ((k, node) ∷ nodes) told h = ground (
    arith,
    map-append (named name node.topics) (remote_publishers name nodes),
    contains-append u (map topic_url (named name node.topics))
        (map topic_url (remote_publishers name nodes)),
    contains-named name u node.topics,
    told k node (inl refl) name u,
    remote-told name u nodes (λ j info at. told j info (inr at)),
  )

  pub store-known :
      (heartbeat : HeartbeatMessage) (info : NodeInfo) (now : ℕ) (m : NodeInfoManager)
      → IsTold info
      → ((k : Str) (other : NodeInfo) → find k m.nodes_info ≡ some other → IsTold other)
      → (k : Str) (other : NodeInfo)
      → find k (store_fetched heartbeat (some info) now m).0.nodes_info ≡ some other
      → IsTold other
  unfolding store_fetched
  store-known heartbeat info now m told known k other e =
      elim (Bool-cases (str_eq heartbeat.node_id k)) [
        | inl own ↦
            let same : info ≡ other =
              ground (arith, find-insert heartbeat.node_id k info m.nodes_info) in
            subst IsTold same told
        | inr foreign ↦
            known k other (ground (arith, find-insert heartbeat.node_id k info m.nodes_info))
      ]

  module _ {W : Type 0} where
    -- All URLs of the subscriber were announced for its topic.
    abbrev pub IsProper : Subscriber W → Type 0
    IsProper sub = (u : Str) → contains u sub.publisher_urls ≡ true → announced sub.topic_name u

    pub updated-IsProper :
        (ts : List SocketInfo) (sub : Subscriber W)
        → ((name u : Str) → announces name u ts ≡ true → announced name u)
        → IsProper sub
        → IsProper (follow update_one ts sub)
    updated-IsProper ts sub told proper u h = ground (
      arith,
      follow_update-contains ts sub u,
      follow_update-name ts sub,
      told sub.topic_name u,
      proper u,
    )

    remove_one-IsProper :
        (t : SocketInfo) (sub : Subscriber W) → IsProper sub → IsProper (remove_one t sub)
    unfolding remove_one
    remove_one-IsProper t sub proper u h =
        ground (arith, contains-erased u (topic_url t) sub.publisher_urls, proper u)

    removed-IsProper :
        (ts : List SocketInfo) (sub : Subscriber W)
        → IsProper sub
        → IsProper (follow remove_one ts sub)
    unfolding follow
    removed-IsProper [] sub proper = proper
    removed-IsProper (t ∷ ts) sub proper =
        removed-IsProper ts (remove_one t sub) (remove_one-IsProper t sub proper)

    pub map-IsProper :
        (f : Subscriber W → Subscriber W) (subs : List (Subscriber W))
        → ((sub : Subscriber W) → IsProper sub → IsProper (f sub))
        → All IsProper subs
        → All IsProper (map f subs)
    map-IsProper f [] keeps h = tt
    map-IsProper f (sub ∷ subs) keeps h = (keeps sub h.0, map-IsProper f subs keeps h.1)

    pub withdraw-IsProper :
        (gone : List NodeInfo) (subs : List (Subscriber W))
        → All IsProper subs
        → All IsProper (withdraw gone subs)
    unfolding withdraw remove_topic_subscriber
    withdraw-IsProper [] subs h = h
    withdraw-IsProper (info ∷ gone) subs h =
        withdraw-IsProper gone (remove_topic_subscriber info subs) (
          subst (All IsProper) (sym (each_topic-map remove_one info.topics subs))
            (map-IsProper (follow remove_one info.topics) subs (removed-IsProper info.topics) h))
