-- ===== src/Sockets/Discovery/NoneInvented.antt =====
-- Subscribers are connected to nothing but what was announced for their topic, whatever happens.
use zero_lan_com.Base.{ℕ, List, [], ◌∷◌, none, some, map, All, All-append, ◌≡◌, sym, subst, arith}
use zero_lan_com.Base.Text.{Str}
use zero_lan_com.Base.Map.{find}
use zero_lan_com.Base.Map.Unique.{find_of_Has}
use zero_lan_com.Base.Result.{Result}
use zero_lan_com.Nodes.NodeInfo.{NodeInfo}
use zero_lan_com.Nodes.NodeInfoManager.{
  named, remote_publishers, get_publisher_info, mark_heartbeat, store_fetched, check_heartbeats,
}
use zero_lan_com.Nodes.NodeInfoManager.Consistency.{IsConsistent}
use zero_lan_com.Sockets.SubscriberManager.{
  SubSocket, new_socket, topic_url, find_topic_urls, update_one, update_topic_subscriber,
  register_topic_subscriber,
}
use zero_lan_com.Sockets.SubscriberManager.One.{follow, contains-append}
use zero_lan_com.Sockets.SubscriberManager.Follow.{each_topic-map}
use zero_lan_com.Sockets.Discovery.Links.{contains-named, map-append, All-append_one}
use zero_lan_com.Sockets.Discovery.NoneMissed.{happen-IsConsistent, deliver-table}
use zero_lan_com.Sockets.Discovery.Withdrawn.{still_known}
use zero_lan_com.Sockets.Discovery.{
  Discovery, Event, heard, fetched, delivered, expired, subscribed, deliver, happen, happens,
}
use zero_lan_com.Sockets.Discovery.Proper.{
  check_heartbeats-local, IsTold, IsProper, remote-told, updated-IsProper, map-IsProper,
  withdraw-IsProper, store-known,
}

-- `announced name url`: a publisher of the topic has announced the URL.
module _ (announced : Str → Str → Type 0) where
  module _ {W : Type 0} where
    -- Everything in the state was announced, and the tables agree.
    pub record NoneInvented (d : Discovery W) : Type 0 where
      pub consistent : IsConsistent d.table
      pub own : IsTold announced d.table.local_node_info
      pub known :
          (k : Str) (info : NodeInfo)
          → find k d.table.nodes_info ≡ some info
          → IsTold announced info
      pub coming : All (IsTold announced) d.pending
      pub connected : All (IsProper announced) d.subscribers

    -- So are the URLs that a new subscriber connects to.
    new-IsProper :
        (name : Str) (callback : List ℕ → W → Result (Unit {0}) × W) (socket : SubSocket)
        (d : Discovery W)
        → NoneInvented d
        → IsProper announced (record {
          topic_name = name;
          publisher_urls = find_topic_urls name d.table;
          callback = callback;
          socket = socket;
        })
    unfolding find_topic_urls get_publisher_info
    new-IsProper name callback socket d v u h = ground (
      arith,
      map-append (remote_publishers name d.table.nodes_info)
          (named name d.table.local_node_info.topics),
      contains-append u (map topic_url (remote_publishers name d.table.nodes_info))
          (map topic_url (named name d.table.local_node_info.topics)),
      contains-named name u d.table.local_node_info.topics,
      v.own name u,
      remote-told announced name u d.table.nodes_info (λ k info at.
          v.known k info (find_of_Has k info d.table.nodes_info v.consistent.unique_info at)),
    )

    -- What is fetched, tells only what was announced.
    abbrev pub IsHonest : Event W → Type 0
    IsHonest (fetched heartbeat (some info) now) = IsTold announced info
    IsHonest _ = Unit

    deliver-connected :
        (pending : List NodeInfo) (d : Discovery W)
        → All (IsTold announced) pending
        → All (IsTold announced) d.pending
        → All (IsProper announced) d.subscribers
        → All (IsTold announced) (deliver pending d).pending
          × All (IsProper announced) (deliver pending d).subscribers
    unfolding deliver update_topic_subscriber
    deliver-connected [] d told coming proper = (coming, proper)
    deliver-connected (info ∷ rest) d told coming proper = (
      told.1,
      subst (All (IsProper announced)) (sym (each_topic-map update_one info.topics d.subscribers)) (
          map-IsProper announced (follow update_one info.topics) d.subscribers
            (λ sub. updated-IsProper announced info.topics sub told.0) proper),
    )

    pub happen-NoneInvented :
        (e : Event W) (d : Discovery W) → IsHonest e → NoneInvented d → NoneInvented (happen e d)
    unfolding happen mark_heartbeat store_fetched register_topic_subscriber
    happen-NoneInvented (heard heartbeat now) d true_event v = record {
      consistent = happen-IsConsistent (heard heartbeat now) d v.consistent;
      own = v.own;
      known = v.known;
      coming = v.coming;
      connected = v.connected;
    }
    happen-NoneInvented (fetched heartbeat none now) d true_event v = record {
      consistent = happen-IsConsistent (fetched heartbeat none now) d v.consistent;
      own = v.own;
      known = v.known;
      coming = All-append (IsTold announced) d.pending [] v.coming tt;
      connected = v.connected;
    }
    happen-NoneInvented (fetched heartbeat (some info) now) d told v = record {
      consistent = happen-IsConsistent (fetched heartbeat (some info) now) d v.consistent;
      own = v.own;
      known = store-known announced heartbeat info now d.table told v.known;
      coming = All-append (IsTold announced) d.pending (info ∷ []) v.coming (told, tt);
      connected = v.connected;
    }
    happen-NoneInvented delivered d true_event v =
        let (coming, connected) = deliver-connected d.pending d v.coming v.coming v.connected in
        let same = deliver-table d.pending d in
        record {
          consistent = happen-IsConsistent delivered d v.consistent;
          own = subst (λ m. IsTold announced m.local_node_info) (sym same) v.own;
          known =
              subst
                (λ m.
                  (k : Str) (info : NodeInfo)
                  → find k m.nodes_info ≡ some info
                  → IsTold announced info)
                (sym same) v.known;
          coming = coming;
          connected = connected;
        }
    happen-NoneInvented (expired now) d true_event v = record {
      consistent = happen-IsConsistent (expired now) d v.consistent;
      own =
          subst (λ (i : NodeInfo). IsTold announced i) (sym (check_heartbeats-local now d.table))
            v.own;
      known = λ k info e. v.known k info (still_known now d.table k info e).0;
      coming = v.coming;
      connected =
          withdraw-IsProper announced (check_heartbeats now d.table).1 d.subscribers v.connected;
    }
    happen-NoneInvented (subscribed name callback socket) d true_event v = record {
      consistent = v.consistent;
      own = v.own;
      known = v.known;
      coming = v.coming;
      connected =
          All-append_one (IsProper announced) d.subscribers _ v.connected
            (new-IsProper name callback (new_socket (find_topic_urls name d.table) socket) d v);
    }

    -- Whatever heartbeats, fetches, deliveries, expiries and subscriptions happen, in any order:
    -- where at first each known or local info and each info on its way tells only what publishers
    -- announced and each subscriber is connected only to what was announced for its topic, and where
    -- the infos that are fetched tell nothing else, that is so afterwards too.
    pub happens-NoneInvented :
        (es : List (Event W)) (d : Discovery W)
        → All IsHonest es
        → NoneInvented d
        → NoneInvented (happens es d)
    unfolding happens
    happens-NoneInvented [] d fair v = v
    happens-NoneInvented (e ∷ es) d fair v =
        happens-NoneInvented es (happen e d) fair.1 (happen-NoneInvented e d fair.0 v)
