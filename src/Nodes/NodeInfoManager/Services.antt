-- ===== src/Nodes/NodeInfoManager/Services.antt =====
-- What `getServiceInfo` returns.
use zero_lan_com.Base.{
  List, [], ◌∷◌, none, some, Option, sym, ◌≡◌, refl, subst, ◌⊎◌, inl, inr, arith, ap, ◌∙◌,
  Option-cases,
}
use zero_lan_com.Base.Text.{Str, str_eq_iff}
use zero_lan_com.Base.Map.{Map}
use zero_lan_com.Base.Map.Unique.{Has, find_of_Has, Has-of_find}
use zero_lan_com.Nodes.NodeInfo.{SocketInfo, NodeInfo}
use zero_lan_com.Nodes.NodeInfoManager.{
  NodeInfoManager, first_named, remote_service, get_service_info,
}
use zero_lan_com.Nodes.NodeInfoManager.Consistency.{IsConsistent}
use zero_lan_com.Nodes.NodeInfoManager.Queries.{Offered, Listed, later}

module _ (name : Str) where
  first_named_sound :
      (ts : List SocketInfo) (t : SocketInfo)
      → first_named name ts ≡ some t
      → (t.name ≡ name) × Has t ts
  unfolding first_named
  first_named_sound [] t e = cc
  first_named_sound (u ∷ ts) t e = ground (arith, first_named_sound ts t, str_eq_iff u.name name)

  first_named-none :
      (ts : List SocketInfo) (t : SocketInfo)
      → first_named name ts ≡ none
      → t.name ≡ name
      → ¬ Has t ts
  unfolding first_named
  first_named-none [] t e n h = h
  first_named-none (u ∷ ts) t e n h = ground (arith, first_named-none ts t, str_eq_iff u.name name)

  remote_sound :
      (nodes : Map NodeInfo) (t : SocketInfo)
      → remote_service name nodes ≡ some t
      → (t.name ≡ name) × Listed name t (λ n. n.services) nodes
  unfolding remote_service
  remote_sound [] t e = cc
  remote_sound ((k, node) ∷ nodes) t e = elim (Option-cases (first_named name node.services)) [
    | inl missing ↦
        let (n, l) = remote_sound nodes t (rw missing at e) in
        (n, later name t (λ n. n.services) (k, node) nodes l)
    | inr (u, found) ↦
        let same : u ≡ t = cc in
        let (n, h) = first_named_sound node.services t (found ∙ ap some same) in
        (n, (k, node, inl refl, h))
  ]

  remote-none :
      (nodes : Map NodeInfo) (t : SocketInfo)
      → remote_service name nodes ≡ none
      → t.name ≡ name
      → ¬ Listed name t (λ n. n.services) nodes
  unfolding remote_service
  remote-none [] t e n (k, node, at, h) = at
  remote-none ((j, other) ∷ nodes) t e n (k, node, inl here, h) =
      first_named-none other.services t (ground arith) n
        (subst (λ (p : Str × NodeInfo). Has t p.1.services) here h)
  remote-none ((j, other) ∷ nodes) t e n (k, node, inr at, h) =
      remote-none nodes t (ground arith) n (k, node, at, h)

-- If the tables agree, what is returned is a socket of that name which a known node, or the local
-- one, offers.
pub get_service_info_sound :
    (name : Str) (t : SocketInfo) (m : NodeInfoManager)
    → IsConsistent m
    → get_service_info name m ≡ some t
    → (t.name ≡ name)
      × (Offered name t (λ n. n.services) m.nodes_info ⊎ Has t m.local_node_info.services)
unfolding get_service_info
get_service_info_sound name t m c e = elim (Option-cases (remote_service name m.nodes_info)) [
  | inl missing ↦
      let (n, h) = first_named_sound name m.local_node_info.services t (rw missing at e) in
      (n, inr h)
  | inr (u, found) ↦
      let same : u ≡ t = ground arith in
      let (n, (k, node, at, h)) = remote_sound name m.nodes_info t (found ∙ ap some same) in
      (n, inl (k, node, find_of_Has k node m.nodes_info c.unique_info at, h))
]

-- If the tables agree and the null pointer is returned, no known node and not the local one offers the service.
pub get_service_info-none :
    (name : Str) (t : SocketInfo) (m : NodeInfoManager)
    → IsConsistent m
    → get_service_info name m ≡ none
    → t.name ≡ name
    → (¬ Offered name t (λ n. n.services) m.nodes_info) × (¬ Has t m.local_node_info.services)
unfolding get_service_info
get_service_info-none name t m c e n = (
  λ o.
      remote-none name m.nodes_info t (ground arith) n
        (o.0, o.1, Has-of_find o.0 o.1 m.nodes_info o.2, o.3),
  first_named-none name m.local_node_info.services t (ground arith) n,
)

-- What an answer says: a socket of the name is offered, or nobody offers one.
abbrev pub Answers : Str → NodeInfoManager → Option SocketInfo → Type 0
Answers name m (some t) =
    (t.name ≡ name)
    × (Offered name t (λ n. n.services) m.nodes_info ⊎ Has t m.local_node_info.services)
Answers name m none =
    (t : SocketInfo)
    → ¬ (
        (t.name ≡ name)
        × (Offered name t (λ n. n.services) m.nodes_info ⊎ Has t m.local_node_info.services))

-- If the tables agree, the socket that is returned has the name that was asked for, and a known node
-- or the local one offers it; and the null pointer is returned only where none of them offers a
-- service of that name.
pub get_service_info-Answers :
    (name : Str) (m : NodeInfoManager) → IsConsistent m → Answers name m (get_service_info name m)
get_service_info-Answers name m c = elim (Option-cases (get_service_info name m)) [
  | inl missing ↦ subst (Answers name m) (sym missing) (λ t (same, offer). elim offer [
    | inl remote ↦ (get_service_info-none name t m c missing same).0 remote
    | inr own ↦ (get_service_info-none name t m c missing same).1 own
  ])
  | inr (t, found) ↦ subst (Answers name m) (sym found) (get_service_info_sound name t m c found)
]
