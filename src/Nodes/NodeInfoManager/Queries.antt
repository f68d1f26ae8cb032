-- ===== src/Nodes/NodeInfoManager/Queries.antt =====
-- `getPublisherInfo` over the known nodes and the local one.
use zero_lan_com.Base.{List, [], ◌∷◌, ◌++◌, some, ◌≡◌, refl, subst, ◌⊎◌, inl, inr, ◌↔◌, arith}
use zero_lan_com.Base.Text.{Str, str_eq_iff}
use zero_lan_com.Base.Map.{Map, find}
use zero_lan_com.Base.Map.Unique.{Has, find_of_Has, Has-of_find}
use zero_lan_com.Nodes.NodeInfo.{SocketInfo, NodeInfo}
use zero_lan_com.Nodes.NodeInfoManager.{
  NodeInfoManager, named, remote_publishers, get_publisher_info,
}
use zero_lan_com.Nodes.NodeInfoManager.Consistency.{IsConsistent}

module _ {A : Type 0} (a : A) where
  pub Has-append_left : (xs ys : List A) → Has a xs → Has a (xs ++ ys)
  Has-append_left (x ∷ xs) ys (inl e) = inl e
  Has-append_left (x ∷ xs) ys (inr h) = inr (Has-append_left xs ys h)
  Has-append_left [] ys h = absurd h

  pub Has-append_right : (xs ys : List A) → Has a ys → Has a (xs ++ ys)
  Has-append_right [] ys h = h
  Has-append_right (x ∷ xs) ys h = inr (Has-append_right xs ys h)

  Has-of_append : (xs ys : List A) → Has a (xs ++ ys) → Has a xs ⊎ Has a ys
  Has-of_append [] ys h = inr h
  Has-of_append (x ∷ xs) ys (inl e) = inl (inl e)
  Has-of_append (x ∷ xs) ys (inr h) = elim (Has-of_append xs ys h) [
    | inl l ↦ inl (inr l)
    | inr r ↦ inr r
  ]

module _ (name : Str) (t : SocketInfo) where
  Has-named : (ts : List SocketInfo) → Has t (named name ts) ↔ ((t.name ≡ name) × Has t ts)
  unfolding named
  Has-named [] = (λ h. absurd h, λ h. h.1)
  Has-named (u ∷ ts) = ground (arith, Has-named ts, str_eq_iff u.name name)

  -- Some node of the map, in the order of iteration, has `t` among its sockets.
  abbrev pub Listed : (NodeInfo → List SocketInfo) → Map NodeInfo → Type 0
  Listed sockets nodes = (k : Str) × (node : NodeInfo) × Has (k, node) nodes × Has t (sockets node)

  -- Some known node has `t` among its sockets.
  abbrev pub Offered : (NodeInfo → List SocketInfo) → Map NodeInfo → Type 0
  Offered sockets nodes =
      (k : Str) × (node : NodeInfo) × (find k nodes ≡ some node) × Has t (sockets node)

  pub later :
      (sockets : NodeInfo → List SocketInfo) (e : Str × NodeInfo) (nodes : Map NodeInfo)
      → Listed sockets nodes
      → Listed sockets (e ∷ nodes)
  later sockets e nodes (k, node, at, h) = (k, node, inr at, h)

  publishers_sound :
      (nodes : Map NodeInfo)
      → Has t (remote_publishers name nodes)
      → (t.name ≡ name) × Listed (λ n. n.topics) nodes
  unfolding remote_publishers
  publishers_sound [] h = absurd h
  publishers_sound ((k, node) ∷ nodes) h = elim (Has-of_append t (named name node.topics) _ h) [
    | inl own ↦ let (e, at) = (Has-named node.topics).0 own in (e, (k, node, inl refl, at))
    | inr other ↦
        let (e, l) = publishers_sound nodes other in (e, later (λ n. n.topics) (k, node) nodes l)
  ]

  publishers_complete :
      (nodes : Map NodeInfo) (k : Str) (node : NodeInfo)
      → t.name ≡ name
      → Has (k, node) nodes
      → Has t node.topics
      → Has t (remote_publishers name nodes)
  unfolding remote_publishers
  publishers_complete [] k node e at h = absurd at
  publishers_complete ((j, other) ∷ nodes) k node e (inl here) h =
      Has-append_left t (named name other.topics) (remote_publishers name nodes)
        ((Has-named other.topics).1 (e, subst (λ (p : Str × NodeInfo). Has t p.1.topics) here h))
  publishers_complete ((j, other) ∷ nodes) k node e (inr at) h =
      Has-append_right t (named name other.topics) (remote_publishers name nodes)
        (publishers_complete nodes k node e at h)

-- `getPublisherInfo` returns exactly the sockets of that topic which a known node, or the local one,
-- has announced, if the tables agree.
pub Has-get_publisher_info :
    (topic : Str) (t : SocketInfo) (m : NodeInfoManager)
    → IsConsistent m
    → Has t (get_publisher_info topic m) ↔ (
        (t.name ≡ topic)
        × (Offered topic t (λ n. n.topics) m.nodes_info ⊎ Has t m.local_node_info.topics))
unfolding get_publisher_info
Has-get_publisher_info topic t m c = (sound, complete)
  where
    own : List SocketInfo
    own = m.local_node_info.topics

    sound :
        Has t (remote_publishers topic m.nodes_info ++ named topic own)
        → (t.name ≡ topic) × (Offered topic t (λ n. n.topics) m.nodes_info ⊎ Has t own)
    sound h = elim (Has-of_append t (remote_publishers topic m.nodes_info) _ h) [
      | inl remote ↦
          let (e, (k, node, at, k_has)) = publishers_sound topic t m.nodes_info remote in
          (e, inl (k, node, find_of_Has k node m.nodes_info c.unique_info at, k_has))
      | inr local ↦ let (e, at) = (Has-named topic t own).0 local in (e, inr at)
    ]

    complete :
        ((t.name ≡ topic) × (Offered topic t (λ n. n.topics) m.nodes_info ⊎ Has t own))
        → Has t (remote_publishers topic m.nodes_info ++ named topic own)
    complete (e, inl (k, node, at, h)) =
        Has-append_left t (remote_publishers topic m.nodes_info) (named topic own)
          (publishers_complete topic t m.nodes_info k node e (Has-of_find k node m.nodes_info at) h)
    complete (e, inr h) =
        Has-append_right t (remote_publishers topic m.nodes_info) (named topic own)
          ((Has-named topic t own).1 (e, h))
