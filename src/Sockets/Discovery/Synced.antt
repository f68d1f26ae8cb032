-- ===== src/Sockets/Discovery/Synced.antt =====
-- The sockets of the subscribers, through all that happens: each is connected to the URLs that its
-- subscriber lists (`publisherURLs` of src/sockets/subscriber_manager.cpp).
use zero_lan_com.Base.{List, [], ◌∷◌, true, All, ◌≡◌, ap, sym, ◌∙◌}
use zero_lan_com.Base.Text.{Str}
use zero_lan_com.Base.Map.Unique.{contains}
use zero_lan_com.Nodes.NodeInfo.{NodeInfo}
use zero_lan_com.Nodes.NodeInfoManager.{check_heartbeats}
use zero_lan_com.Sockets.SubscriberManager.{
  Subscriber, find_topic_urls, remove_topic_subscriber, register_topic_subscriber,
}
use zero_lan_com.Sockets.SubscriberManager.One.{announces, IsSynced, connect_each-endpoints}
use zero_lan_com.Sockets.SubscriberManager.Follow.{
  AllSynced, is_connected, update_topic_subscriber-AllSynced, remove_topic_subscriber-AllSynced,
}
use zero_lan_com.Sockets.Discovery.Links.{IsLinked, All-append_one}
use zero_lan_com.Sockets.Discovery.Proper.{IsProper}
use zero_lan_com.Sockets.Discovery.{
  Discovery, Event, heard, fetched, delivered, expired, subscribed, deliver, withdraw, happen,
}

module _ {W : Type 0} where
  deliver-AllSynced :
      (pending : List NodeInfo) (d : Discovery W)
      → AllSynced d.subscribers
      → AllSynced (deliver pending d).subscribers
  unfolding deliver
  deliver-AllSynced [] d h = h
  deliver-AllSynced (info ∷ rest) d h = update_topic_subscriber-AllSynced info d.subscribers h

  withdraw-AllSynced :
      (gone : List NodeInfo) (subs : List (Subscriber W))
      → AllSynced subs
      → AllSynced (withdraw gone subs)
  unfolding withdraw
  withdraw-AllSynced [] subs h = h
  withdraw-AllSynced (info ∷ gone) subs h =
      withdraw-AllSynced gone (remove_topic_subscriber info subs)
        (remove_topic_subscriber-AllSynced info subs h)

  pub happen-AllSynced :
      (e : Event W) (d : Discovery W) → AllSynced d.subscribers → AllSynced (happen e d).subscribers
  unfolding happen register_topic_subscriber
  happen-AllSynced (heard heartbeat now) d h = h
  happen-AllSynced (fetched heartbeat info now) d h = h
  happen-AllSynced delivered d h = deliver-AllSynced d.pending d h
  happen-AllSynced (expired now) d h =
      withdraw-AllSynced (check_heartbeats now d.table).1 d.subscribers h
  happen-AllSynced (subscribed name callback socket) d h =
      All-append_one IsSynced d.subscribers _ h (
        connect_each-endpoints (find_topic_urls name d.table)
          (record { handle = socket; endpoints = [] }))

  -- The socket of the subscriber is connected to all that the node announces for its topic.
  abbrev pub IsConnected : NodeInfo → Subscriber W → Type 0
  IsConnected info sub =
      (u : Str) → announces sub.topic_name u info.topics ≡ true → is_connected u sub ≡ true

  pub All-IsConnected :
      (info : NodeInfo) (subs : List (Subscriber W))
      → AllSynced subs
      → All (IsLinked info) subs
      → All (IsConnected info) subs
  All-IsConnected info [] same linked = tt
  All-IsConnected info (sub ∷ subs) same linked =
      (λ u h. ap (contains u) same.0 ∙ linked.0 u h, All-IsConnected info subs same.1 linked.1)

  module _ (announced : Str → Str → Type 0) where
    -- The socket of the subscriber is connected to nothing but what was announced for its topic.
    abbrev pub IsRightly : Subscriber W → Type 0
    IsRightly sub = (u : Str) → is_connected u sub ≡ true → announced sub.topic_name u

    pub All-IsRightly :
        (subs : List (Subscriber W))
        → AllSynced subs
        → All (IsProper announced) subs
        → All IsRightly subs
    All-IsRightly [] same proper = tt
    All-IsRightly (sub ∷ subs) same proper =
        (λ u h. proper.0 u (sym (ap (contains u) same.0) ∙ h), All-IsRightly subs same.1 proper.1)
