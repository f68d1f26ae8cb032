-- ===== src/Nodes/Cluster/Lookup.antt =====
-- What `getServiceInfo` (src/nodes/node_info_manager.cpp) finds on a node of a group, against what the
-- nodes have registered.
use zero_lan_com.Base.{
  List, [], ◌∷◌, ◌++◌, Option, none, some, ◌≡◌, ◌≢◌, ◌⊎◌, sym, subst, inl, inr, Option-cases,
}
use zero_lan_com.Base.Text.{Str}
use zero_lan_com.Base.Map.Unique.{Has}
use zero_lan_com.Nodes.NodeInfo.{SocketInfo, NodeInfo}
use zero_lan_com.Nodes.NodeInfoManager.{get_service_info}
use zero_lan_com.Nodes.NodeInfoManager.Services.{get_service_info_sound, get_service_info-none}
use zero_lan_com.Nodes.Cluster.{Cluster, own, start, Steps}
use zero_lan_com.Nodes.Cluster.Earlier.{IsEarlier}
use zero_lan_com.Nodes.Cluster.Outcome.{Inv, stored}
use zero_lan_com.Nodes.Cluster.Invariant.{start-Inv, Steps-Inv}

Has-append : {A : Type 0} (a : A) (xs ys : List A) → Has a xs → Has a (xs ++ ys)
Has-append a [] ys h = absurd h
Has-append a (x ∷ xs) ys (inl same) = inl same
Has-append a (x ∷ xs) ys (inr later) = inr (Has-append a xs ys later)

IsEarlier-service :
    (t : SocketInfo) (old new : NodeInfo)
    → IsEarlier old new
    → Has t old.services
    → Has t new.services
IsEarlier-service t old new e h =
    subst (Has t) (sym e.services.1) (Has-append t old.services e.services.0 h)

-- Node `k` has the present info of node `j`.
abbrev pub IsCurrent : Cluster → Str × Str → Type 0
IsCurrent c (k, j) = stored (c.nodes k) j ≡ some (own c j)

module _ (c : Cluster) (wanted : Str) where
  -- A node of the group has registered the socket, under the name that is wanted.
  abbrev pub IsRegistered : SocketInfo → Type 0
  IsRegistered t = (t.name ≡ wanted) × ((j : Str) × Has t (own c j).services)

  -- The node is `k` itself, or `k` has its present info.
  abbrev pub IsKnown : Str → Str → Type 0
  IsKnown k j = (k ≡ j) ⊎ IsCurrent c (k, j)

  abbrev pub Found : Str → Option SocketInfo → Type 0
  Found k (some t) = IsRegistered t
  Found k none =
      (j : Str) → IsKnown k j → (t : SocketInfo) → Has t (own c j).services → t.name ≢ wanted

  found : (k : Str) → Inv c → Found k (get_service_info wanted (c.nodes k).table)
  found k inv = elim (Option-cases (get_service_info wanted (c.nodes k).table)) [
    | inl missing ↦ subst (Found k) (sym missing) (λ j known t h same.
        let (nowhere, not_own) =
          get_service_info-none wanted t (c.nodes k).table (inv.consistent k) missing same in
        elim known [
          | inl itself ↦ not_own (subst (λ x. Has t (own c x).services) (sym itself) h)
          | inr current ↦ nowhere (j, own c j, current, h)
        ])
    | inr (t, e) ↦
        let (same, offer) =
          get_service_info_sound wanted t (c.nodes k).table (inv.consistent k) e in
        subst (Found k) (sym e) (
          same,
          elim offer [
            | inl (j, info, stored, h) ↦
                (j, IsEarlier-service t info (own c j) (inv.knows k j info stored) h)
            | inr h ↦ (k, h)
          ],
        )
  ]

-- Whatever has happened in a group of nodes: a service that getServiceInfo finds on a node has the
-- name that is wanted, and some node of the group has registered it; and where it finds none, neither
-- the node itself nor any of which it has the present info has registered a service of that name.
-- Fetches are answered by the node that the heartbeat names.
pub get_service_info-Found :
    (name ip : Str → Str) (c : Cluster)
    → Steps (start name ip) c
    → (k wanted : Str) → Found c wanted k (get_service_info wanted (c.nodes k).table)
get_service_info-Found name ip c run k wanted =
    found c wanted k (Steps-Inv (start name ip) c run (start-Inv name ip))
