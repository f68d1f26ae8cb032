-- ===== src/Sockets/Discovery/Withdrawn.antt =====
-- The removal of silent nodes, where a URL belongs to one node.
use zero_lan_com.Base.{
  ℕ, List, [], ◌∷◌, Option, none, some, true, false, ◌&&◌, map, All, if◌then◌else◌, ◌≡◌, refl, ap,
  sym, subst, ◌∙◌, inl, inr, arith, Bool-cases,
}
use zero_lan_com.Base.Text.{Str, str_eq, str_eq_iff}
use zero_lan_com.Base.Map.{find}
use zero_lan_com.Base.Map.Unique.{contains, keys_where, find-erase_all}
use zero_lan_com.Nodes.NodeInfo.{SocketInfo, NodeInfo, empty_node_info}
use zero_lan_com.Nodes.NodeInfoManager.{NodeInfoManager, check_heartbeats, is_stale}
use zero_lan_com.Nodes.NodeInfoManager.Consistency.{IsConsistent, remove_stale-nodes}
use zero_lan_com.Nodes.NodeInfoManager.Expiry.{notice, check_heartbeats-notices}
use zero_lan_com.Sockets.SubscriberManager.{
  Subscriber, topic_url, erase_url, remove_one, remove_topic_subscriber,
}
use zero_lan_com.Sockets.SubscriberManager.One.{announces, follow, remove_one-name}
use zero_lan_com.Sockets.SubscriberManager.Follow.{each_topic-map}
use zero_lan_com.Sockets.Discovery.{withdraw}
use zero_lan_com.Sockets.Discovery.Links.{IsLinked}

-- Erasing a URL leaves the others.
erase_url-other :
    (u v : Str) (xs : List Str)
    → str_eq v u ≡ false
    → contains u xs ≡ true
    → contains u (erase_url v xs) ≡ true
unfolding contains erase_url
erase_url-other u v [] differs h = cc
erase_url-other u v (x ∷ xs) differs h =
    ground (arith, erase_url-other u v xs differs, str_eq_iff x v, str_eq_iff x u, str_eq_iff v u)

-- No URL is announced by both nodes under one name.
abbrev pub IsApart : NodeInfo → NodeInfo → Type 0
IsApart info gone =
    (name u : Str) → announces name u info.topics ≡ true → announces name u gone.topics ≡ false

module _ {W : Type 0} where
  remove_one-keeps :
      (t : SocketInfo) (sub : Subscriber W) (u : Str)
      → (str_eq sub.topic_name t.name && str_eq (topic_url t) u) ≡ false
      → contains u sub.publisher_urls ≡ true
      → contains u (remove_one t sub).publisher_urls ≡ true
  unfolding remove_one
  remove_one-keeps t sub u other h =
      ground (arith, erase_url-other u (topic_url t) sub.publisher_urls)

  follow_remove-keeps :
      (ts : List SocketInfo) (sub : Subscriber W) (u : Str)
      → announces sub.topic_name u ts ≡ false
      → contains u sub.publisher_urls ≡ true
      → contains u (follow remove_one ts sub).publisher_urls ≡ true
  unfolding follow announces
  follow_remove-keeps [] sub u other h = h
  follow_remove-keeps (t ∷ ts) sub u other h = ground (
    arith,
    follow_remove-keeps ts (remove_one t sub) u,
    remove_one-keeps t sub u,
    remove_one-name t sub,
  )

  follow_remove-name :
      (ts : List SocketInfo) (sub : Subscriber W)
      → (follow remove_one ts sub).topic_name ≡ sub.topic_name
  unfolding follow
  follow_remove-name [] sub = refl
  follow_remove-name (t ∷ ts) sub = follow_remove-name ts (remove_one t sub) ∙ remove_one-name t sub

  All-IsLinked_removed :
      (info gone : NodeInfo) (subs : List (Subscriber W))
      → IsApart info gone
      → All (IsLinked info) subs
      → All (IsLinked info) (map (follow remove_one gone.topics) subs)
  All-IsLinked_removed info gone [] apart h = tt
  All-IsLinked_removed info gone (sub ∷ subs) apart h = (
    λ u e.
        let named : announces sub.topic_name u info.topics ≡ true =
          subst (λ name. announces name u info.topics ≡ true) (follow_remove-name gone.topics sub)
            e in
        follow_remove-keeps gone.topics sub u (apart sub.topic_name u named) (h.0 u named),
    All-IsLinked_removed info gone subs apart h.1,
  )

  withdraw-All :
      (info : NodeInfo) (gones : List NodeInfo) (subs : List (Subscriber W))
      → All (IsApart info) gones
      → All (IsLinked info) subs
      → All (IsLinked info) (withdraw gones subs)
  unfolding withdraw remove_topic_subscriber
  withdraw-All info [] subs apart h = h
  withdraw-All info (gone ∷ rest) subs apart h =
      withdraw-All info rest (remove_topic_subscriber gone subs) apart.1 (
        subst (All (IsLinked info)) (sym (each_topic-map remove_one gone.topics subs))
          (All-IsLinked_removed info gone subs apart.0 h))

-- A node that is known after `checkHeartbeats` was known before, and is none of the silent ones.
pub still_known :
    (now : ℕ) (m : NodeInfoManager) (k : Str) (info : NodeInfo)
    → find k (check_heartbeats now m).0.nodes_info ≡ some info
    → (find k m.nodes_info ≡ some info)
      × (contains k (keys_where (is_stale now) m.nodes_heartbeat) ≡ false)
unfolding check_heartbeats
still_known now m k info known =
    let ks : List Str = keys_where (is_stale now) m.nodes_heartbeat in
    let left : (if contains k ks then none else find k m.nodes_info) ≡ some info =
      sym (find-erase_all ks k m.nodes_info)
      ∙ ap (λ (q : NodeInfoManager). find k q.nodes_info) (sym (remove_stale-nodes ks m))
      ∙ known in
    (ground arith, ground arith)

module _ (owner : Str → Str) where
  -- The URLs that the node announces are its own.
  abbrev pub IsOwned : Str → NodeInfo → Type 0
  IsOwned k info = (name u : Str) → announces name u info.topics ≡ true → owner u ≡ k

  IsApart-of_owned :
      (k j : Str) (info gone : NodeInfo)
      → str_eq j k ≡ false
      → IsOwned k info
      → IsOwned j gone
      → IsApart info gone
  IsApart-of_owned k j info gone differs own other name u e =
      elim (Bool-cases (announces name u gone.topics)) [
        | inr silent ↦ silent
        | inl both ↦ ground (arith, own name u e, other name u both, str_eq_iff j k)
      ]

  IsOwned-elim :
      (k : Str) (o : Option NodeInfo)
      → ((info : NodeInfo) → o ≡ some info → IsOwned k info)
      → IsOwned k (elim o [ none ↦ empty_node_info | some info ↦ info ])
  unfolding announces
  IsOwned-elim k none owned name u e = cc
  IsOwned-elim k (some info) owned name u e = owned info refl name u e

  notice-IsOwned :
      (m : NodeInfoManager) (k : Str)
      → ((info : NodeInfo) → find k m.nodes_info ≡ some info → IsOwned k info)
      → IsOwned k (notice m k)
  unfolding notice
  notice-IsOwned m k owned = IsOwned-elim k (find k m.nodes_info) owned

  notices-IsApart :
      (m : NodeInfoManager) (k : Str) (info : NodeInfo) (ks : List Str)
      → ((j : Str) (i : NodeInfo) → find j m.nodes_info ≡ some i → IsOwned j i)
      → IsOwned k info
      → contains k ks ≡ false
      → All (IsApart info) (map (notice m) ks)
  unfolding contains
  notices-IsApart m k info [] owned own h = tt
  notices-IsApart m k info (j ∷ ks) owned own h = (
    IsApart-of_owned k j info (notice m j) (ground arith) own (notice-IsOwned m j (owned j)),
    notices-IsApart m k info ks owned own (ground arith),
  )

  -- After `checkHeartbeats` each known node has the links that it had: only silent nodes lose theirs.
  pub withdraw-IsLinked :
      {W : Type 0} (now : ℕ) (m : NodeInfoManager) (subs : List (Subscriber W)) (k : Str)
      (info : NodeInfo)
      → IsConsistent m
      → ((j : Str) (i : NodeInfo) → find j m.nodes_info ≡ some i → IsOwned j i)
      → find k (check_heartbeats now m).0.nodes_info ≡ some info
      → All (IsLinked info) subs
      → All (IsLinked info) (withdraw (check_heartbeats now m).1 subs)
  withdraw-IsLinked now m subs k info c owned known h =
      let (before, stays) = still_known now m k info known in
      subst (λ gones. All (IsLinked info) (withdraw gones subs))
        (sym (check_heartbeats-notices now m c))
        (withdraw-All info (map (notice m) (keys_where (is_stale now) m.nodes_heartbeat)) subs
          (notices-IsApart m k info (keys_where (is_stale now) m.nodes_heartbeat) owned
            (owned k info before) stays)
          h)
