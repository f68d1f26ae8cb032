-- ===== src/Sockets/Discovery/NoneMissed.antt =====
-- What subscribers are connected to, whatever the order of subscriptions, fetches, deliveries and
-- expiries.
use zero_lan_com.Base.{
  ℕ, List, [], ◌∷◌, Option, none, some, All, ◌≡◌, refl, ap, sym, subst, ◌∙◌, ◌⊎◌, inl, inr, arith,
  Bool-cases,
}
use zero_lan_com.Base.Text.{Str, str_eq, str_eq_iff}
use zero_lan_com.Base.Map.{find, find-insert}
use zero_lan_com.Base.Map.Unique.{Has}
use zero_lan_com.Nodes.NodeInfo.{NodeInfo}
use zero_lan_com.Nodes.Heartbeat.{HeartbeatMessage}
use zero_lan_com.Nodes.NodeInfoManager.{mark_heartbeat, store_fetched}
use zero_lan_com.Nodes.NodeInfoManager.Consistency.{IsConsistent, run_section-IsConsistent}
use zero_lan_com.Nodes.NodeInfoManager.Sections.{mark, store, check, run_section}
use zero_lan_com.Nodes.NodeInfoManager.Queries.{Has-append_left, Has-append_right}
use zero_lan_com.Sockets.SubscriberManager.{
  new_socket, find_topic_urls, register_topic_subscriber, update_one, update_topic_subscriber,
  each_topic,
}
use zero_lan_com.Sockets.SubscriberManager.Follow.{each_topic-map}
use zero_lan_com.Sockets.Discovery.Links.{
  IsLinked, All-IsLinked_after, All-append_one, new-IsLinked,
}
use zero_lan_com.Sockets.Discovery.Withdrawn.{IsOwned, withdraw-IsLinked, still_known}
use zero_lan_com.Sockets.Discovery.{
  Discovery, Event, heard, fetched, delivered, expired, subscribed, deliver, happen, happens,
}

module _ {W : Type 0} where
  -- Each known node is linked to all subscribers, or its info is still to be delivered.
  abbrev pub NoneMissed : Discovery W → Type 0
  NoneMissed d =
      (k : Str) (info : NodeInfo)
      → find k d.table.nodes_info ≡ some info
      → All (IsLinked info) d.subscribers ⊎ Has info d.pending

  fetched-NoneMissed :
      (heartbeat : HeartbeatMessage) (info : Option NodeInfo) (now : ℕ) (d : Discovery W)
      → NoneMissed d
      → NoneMissed (happen (fetched heartbeat info now) d)
  unfolding happen store_fetched
  fetched-NoneMissed heartbeat none now d v k other e = elim (v k other e) [
    | inl linked ↦ inl linked
    | inr waits ↦ inr (Has-append_left other d.pending [] waits)
  ]
  fetched-NoneMissed heartbeat (some info) now d v k other e =
      elim (Bool-cases (str_eq heartbeat.node_id k)) [
        | inl own ↦
            let same : other ≡ info =
              ground (arith, find-insert heartbeat.node_id k info d.table.nodes_info) in
            inr (Has-append_right other d.pending (info ∷ []) (inl same))
        | inr foreign ↦
            let before : find k d.table.nodes_info ≡ some other =
              ground (arith, find-insert heartbeat.node_id k info d.table.nodes_info) in
            elim (v k other before) [
              | inl linked ↦ inl linked
              | inr waits ↦ inr (Has-append_left other d.pending (info ∷ []) waits)
            ]
      ]

  deliver-NoneMissed :
      (pending : List NodeInfo) (d : Discovery W)
      → d.pending ≡ pending
      → NoneMissed d
      → NoneMissed (deliver pending d)
  unfolding deliver update_topic_subscriber
  deliver-NoneMissed [] d p v k info e = v k info e
  deliver-NoneMissed (other ∷ rest) d p v k info e =
      let linked_all : All (IsLinked info) d.subscribers ⊎ (info ≡ other)
          → All (IsLinked info) (each_topic update_one other.topics d.subscribers) =
        λ h.
          subst (All (IsLinked info)) (sym (each_topic-map update_one other.topics d.subscribers))
            (All-IsLinked_after info other d.subscribers h) in
      elim (v k info e) [
        | inl linked ↦ inl (linked_all (inl linked))
        | inr waits ↦ elim (subst (Has info) p waits) [
          | inl same ↦ inl (linked_all (inr same))
          | inr later ↦ inr later
        ]
      ]

  -- A delivery does not touch the table.
  pub deliver-table :
      (pending : List NodeInfo) (d : Discovery W) → (deliver pending d).table ≡ d.table
  unfolding deliver
  deliver-table [] d = refl
  deliver-table (info ∷ rest) d = refl

  -- It takes the first info.
  pub deliver-pending :
      (info : NodeInfo) (rest : List NodeInfo) (d : Discovery W)
      → (deliver (info ∷ rest) d).pending ≡ rest
  unfolding deliver
  deliver-pending info rest d = refl

  pub happen-IsConsistent :
      (e : Event W) (d : Discovery W) → IsConsistent d.table → IsConsistent (happen e d).table
  unfolding happen deliver run_section
  happen-IsConsistent (heard heartbeat now) d c =
      run_section-IsConsistent (mark heartbeat now) d.table c
  happen-IsConsistent (fetched heartbeat info now) d c =
      run_section-IsConsistent (store heartbeat info now) d.table c
  happen-IsConsistent delivered d c = subst IsConsistent (sym (deliver-table d.pending d)) c
  happen-IsConsistent (expired now) d c = run_section-IsConsistent (check now) d.table c
  happen-IsConsistent (subscribed name callback socket) d c = c

  module _ (owner : Str → Str) where
    -- Each known node announces URLs of its own only.
    abbrev pub AllOwned : Discovery W → Type 0
    AllOwned d =
        (k : Str) (info : NodeInfo) → find k d.table.nodes_info ≡ some info → IsOwned owner k info

    -- So does each info that is fetched.
    abbrev pub IsFair : Event W → Type 0
    IsFair (fetched heartbeat (some info) now) = IsOwned owner heartbeat.node_id info
    IsFair _ = Unit

    happen-AllOwned :
        (e : Event W) (d : Discovery W) → IsFair e → AllOwned d → AllOwned (happen e d)
    unfolding happen deliver mark_heartbeat store_fetched
    happen-AllOwned (heard heartbeat now) d fair o k info e = o k info e
    happen-AllOwned (fetched heartbeat none now) d fair o k info e = o k info e
    happen-AllOwned (fetched heartbeat (some other) now) d fair o k info e =
        elim (Bool-cases (str_eq heartbeat.node_id k)) [
          | inl own ↦
              let same : other ≡ info =
                ground (arith, find-insert heartbeat.node_id k other d.table.nodes_info) in
              let id : heartbeat.node_id ≡ k = (str_eq_iff heartbeat.node_id k).0 own in
              subst (λ j. IsOwned owner j info) id
                (subst (IsOwned owner heartbeat.node_id) same fair)
          | inr foreign ↦
              o k info (ground (arith, find-insert heartbeat.node_id k other d.table.nodes_info))
        ]
    happen-AllOwned delivered d fair o k info e =
        o k info (ap (λ t. find k t.nodes_info) (sym (deliver-table d.pending d)) ∙ e)
    happen-AllOwned (expired now) d fair o k info e = o k info (still_known now d.table k info e).0
    happen-AllOwned (subscribed name callback socket) d fair o k info e = o k info e

    pub happen-NoneMissed :
        (e : Event W) (d : Discovery W)
        → IsConsistent d.table
        → AllOwned d
        → NoneMissed d
        → NoneMissed (happen e d)
    unfolding happen mark_heartbeat register_topic_subscriber
    happen-NoneMissed (heard heartbeat now) d c o v k info e = v k info e
    happen-NoneMissed (fetched heartbeat stored now) d c o v k info e =
        fetched-NoneMissed heartbeat stored now d v k info e
    happen-NoneMissed delivered d c o v k info e = deliver-NoneMissed d.pending d refl v k info e
    happen-NoneMissed (expired now) d c o v k info e =
        elim (v k info (still_known now d.table k info e).0) [
          | inl linked ↦ inl (withdraw-IsLinked owner now d.table d.subscribers k info c o e linked)
          | inr waits ↦ inr waits
        ]
    happen-NoneMissed (subscribed name callback socket) d c o v k info e = elim (v k info e) [
      | inl linked ↦ inl (
          All-append_one (IsLinked info) d.subscribers _ linked (
            new-IsLinked name callback (new_socket (find_topic_urls name d.table) socket) d.table k
              info e))
      | inr waits ↦ inr waits
    ]

    -- Whatever heartbeats, fetches, deliveries, expiries and subscriptions happen, in any order and
    -- from a state in which no publisher is missed: each subscriber is connected to every URL that a
    -- known node announces for its topic, or the node's info is still to be delivered. The tables
    -- agree at first, and a URL is announced by one node only, its owner.
    pub happens-NoneMissed :
        (es : List (Event W)) (d : Discovery W)
        → All IsFair es
        → IsConsistent d.table
        → AllOwned d
        → NoneMissed d
        → NoneMissed (happens es d)
    unfolding happens
    happens-NoneMissed [] d fair c o v = v
    happens-NoneMissed (e ∷ es) d fair c o v =
        happens-NoneMissed es (happen e d) fair.1 (happen-IsConsistent e d c)
          (happen-AllOwned e d fair.0 o) (happen-NoneMissed e d c o v)
