-- ===== src/Sockets/Discovery/Links.antt =====
-- When a subscriber is linked to a node: connected to all that the node announces for its topic.
use zero_lan_com.Base.{
  ℕ, List, [], ◌∷◌, ◌++◌, some, true, map, All, ◌≡◌, refl, ap, subst, ◌∙◌, ◌⊎◌, inl, inr, arith,
}
use zero_lan_com.Base.Text.{Str, str_eq_iff}
use zero_lan_com.Base.Map.{Map, find}
use zero_lan_com.Base.Map.Unique.{contains}
use zero_lan_com.Base.Result.{Result}
use zero_lan_com.Nodes.NodeInfo.{SocketInfo, NodeInfo}
use zero_lan_com.Nodes.NodeInfoManager.{
  NodeInfoManager, named, remote_publishers, get_publisher_info,
}
use zero_lan_com.Sockets.SubscriberManager.{
  Subscriber, SubSocket, topic_url, find_topic_urls, update_one,
}
use zero_lan_com.Sockets.SubscriberManager.One.{
  announces, follow, contains-append, follow_update-contains, update_one-name,
}

-- The URLs of the sockets with a name are those that are announced under it.
pub contains-named :
    (name u : Str) (ts : List SocketInfo)
    → contains u (map topic_url (named name ts)) ≡ announces name u ts
unfolding named announces contains
contains-named name u [] = refl
contains-named name u (t ∷ ts) =
    ground (arith, contains-named name u ts, str_eq_iff t.name name, str_eq_iff name t.name)

pub map-append :
    (xs ys : List SocketInfo) → map topic_url (xs ++ ys) ≡ map topic_url xs ++ map topic_url ys
map-append [] ys = refl
map-append (x ∷ xs) ys = ap (◌∷◌ (topic_url x)) (map-append xs ys)

contains-remote_publishers :
    (name u k : Str) (info : NodeInfo) (nodes : Map NodeInfo)
    → find k nodes ≡ some info
    → announces name u info.topics ≡ true
    → contains u (map topic_url (remote_publishers name nodes)) ≡ true
unfolding remote_publishers find
contains-remote_publishers name u k info [] e h = cc
contains-remote_publishers name u k info ((j, node) ∷ nodes) e h = ground (
  arith,
  map-append (named name node.topics) (remote_publishers name nodes),
  contains-append u (map topic_url (named name node.topics))
      (map topic_url (remote_publishers name nodes)),
  contains-named name u node.topics,
  contains-remote_publishers name u k info nodes,
)

module _ {W : Type 0} where
  -- The subscriber is connected to every URL that the node announces for its topic.
  abbrev pub IsLinked : NodeInfo → Subscriber W → Type 0
  IsLinked info sub =
      (u : Str)
      → announces sub.topic_name u info.topics ≡ true
      → contains u sub.publisher_urls ≡ true

  pub follow_update-name :
      (ts : List SocketInfo) (sub : Subscriber W)
      → (follow update_one ts sub).topic_name ≡ sub.topic_name
  unfolding follow
  follow_update-name [] sub = refl
  follow_update-name (t ∷ ts) sub = follow_update-name ts (update_one t sub) ∙ update_one-name t sub

  -- An update keeps links, and makes those of its own node.
  pub IsLinked-after :
      (info other : NodeInfo) (sub : Subscriber W)
      → IsLinked info sub ⊎ (info ≡ other)
      → IsLinked info (follow update_one other.topics sub)
  IsLinked-after info other sub h u e =
      let named : announces sub.topic_name u info.topics ≡ true =
        subst (λ name. announces name u info.topics ≡ true) (follow_update-name other.topics sub)
          e in
      follow_update-contains other.topics sub u ∙ elim h [
        | inl linked ↦ ground (arith, linked u named)
        | inr same ↦
            let here : announces sub.topic_name u other.topics ≡ true =
              subst (λ i. announces sub.topic_name u i.topics ≡ true) same named in
            ground arith
      ]

  pub All-IsLinked_after :
      (info other : NodeInfo) (subs : List (Subscriber W))
      → All (IsLinked info) subs ⊎ (info ≡ other)
      → All (IsLinked info) (map (follow update_one other.topics) subs)
  All-IsLinked_after info other [] h = tt
  All-IsLinked_after info other (sub ∷ subs) (inl h) =
      (IsLinked-after info other sub (inl h.0), All-IsLinked_after info other subs (inl h.1))
  All-IsLinked_after info other (sub ∷ subs) (inr e) =
      (IsLinked-after info other sub (inr e), All-IsLinked_after info other subs (inr e))

  pub All-append_one :
      (P : Subscriber W → Type 0) (subs : List (Subscriber W)) (sub : Subscriber W)
      → All P subs
      → P sub
      → All P (subs ++ sub ∷ [])
  All-append_one P [] sub h p = (p, tt)
  All-append_one P (s ∷ subs) sub h p = (h.0, All-append_one P subs sub h.1 p)

  -- A new subscriber finds the publishers of all known nodes in the table.
  pub new-IsLinked :
      (name : Str) (callback : List ℕ → W → Result (Unit {0}) × W) (socket : SubSocket)
      (m : NodeInfoManager) (k : Str) (info : NodeInfo)
      → find k m.nodes_info ≡ some info
      → IsLinked info (record {
        topic_name = name;
        publisher_urls = find_topic_urls name m;
        callback = callback;
        socket = socket;
      })
  unfolding find_topic_urls get_publisher_info
  new-IsLinked name callback socket m k info e u h = ground (
    arith,
    map-append (remote_publishers name m.nodes_info) (named name m.local_node_info.topics),
    contains-append u (map topic_url (remote_publishers name m.nodes_info))
        (map topic_url (named name m.local_node_info.topics)),
    contains-remote_publishers name u k info m.nodes_info e h,
  )
