-- ===== src/Mesh/Projection.antt =====
-- A mesh without its subscribers is a cluster.
use zero_lan_com.Base.{◌≡◌, refl, sym, ap, subst, ◌∙◌, ◌⊎◌, inl, inr, Bool-cases}
use zero_lan_com.Base.Text.{Str, str_eq, str_eq_iff, str_eq_refl}
use zero_lan_com.Nodes.NodeInfoManager.{NodeInfoManager}
use zero_lan_com.Nodes.Cluster
use zero_lan_com.Nodes.Cluster.{Cluster, Node, set_node}
use zero_lan_com.Sockets.Discovery
use zero_lan_com.Sockets.Discovery.{Event, happen}
use zero_lan_com.Sockets.Discovery.NoneMissed.{deliver-table}
use zero_lan_com.Mesh.{
  Peer, Mesh, node_of, cluster_of, set_peer, start, Act, registers, hears, answered, failed, stores,
  delivers, checks, subscribes, Step, acts, sends, Steps, here, next,
}

cluster_steps_trans : (c d e : Cluster) → Cluster.Steps c d → Cluster.Steps d e → Cluster.Steps c e
cluster_steps_trans c d _ r Cluster.here = r
cluster_steps_trans c d e r (Cluster.next {d = f} s t) =
    Cluster.next (cluster_steps_trans c d f r s) t

set_node_self :
    (k : Str) (n : Node) (c : Cluster) (j : Str)
    → n ≡ c.nodes k
    → (set_node k n c).nodes j ≡ c.nodes j
set_node_self k n c j same = elim (Bool-cases (str_eq k j)) [
  | inl found ↦ rw found (same ∙ ap c.nodes ((str_eq_iff k j).0 found))
  | inr other ↦ rw other refl
]

module _ {W : Type 0} where
  node_of-set :
      (k : Str) (p : Peer W) (m : Mesh W) (j : Str)
      → node_of ((set_peer k p m).peers j) ≡ (set_node k (node_of p) (cluster_of m)).nodes j
  node_of-set k p m j = elim (Bool-cases (str_eq k j)) [
    | inl same ↦ rw same refl
    | inr other ↦ rw other refl
  ]

  pub cluster_of-set :
      (k : Str) (p : Peer W) (m : Mesh W)
      → cluster_of (set_peer k p m) ≡ set_node k (node_of p) (cluster_of m)
  cluster_of-set k p m = λ i. record { nodes = λ j. node_of-set k p m j i; sent = m.sent }

  pub cluster_of-same :
      (k : Str) (p : Peer W) (m : Mesh W)
      → node_of p ≡ node_of (m.peers k)
      → cluster_of (set_peer k p m) ≡ cluster_of m
  cluster_of-same k p m same = cluster_of-set k p m ∙ λ i. record {
    nodes = λ j. set_node_self k (node_of p) (cluster_of m) j same i;
    sent = m.sent;
  }

module _ {W : Type 0} where
  pub set_peer-same : (k : Str) (p : Peer W) (m : Mesh W) → (set_peer k p m).peers k ≡ p
  set_peer-same k p m = rw (str_eq_refl k)

  -- What holds of the peer as it is now, and of the others as they were.
  pub set_peer-each :
      (m : Mesh W) (k : Str) (p : Peer W) (P : Str → Peer W → Type 0)
      → P k p
      → ((j : Str) → P j (m.peers j))
      → (j : Str) → P j ((set_peer k p m).peers j)
  set_peer-each m k p P changed others j = elim (Bool-cases (str_eq k j)) [
    | inl same ↦ rw same (subst (λ i. P i p) ((str_eq_iff k j).0 same) changed)
    | inr other ↦ rw other (others j)
  ]

module _ {W : Type 0} (owner : Str → Str) where
  -- An act is one of the cluster, or touches only subscribers.
  Act-project :
      (m : Mesh W) (k : Str) (p : Peer W)
      → Act owner m k p
      → Cluster.Act (cluster_of m) k (node_of p) ⊎ (node_of p ≡ node_of (m.peers k))
  unfolding happen
  Act-project m k _ (registers r free) = inl (Cluster.registers r)
  Act-project m k _ (hears h now idle sent other) =
      inl (Cluster.hears h now _ _ idle sent other refl)
  Act-project m k _ (answered h p) = inl (Cluster.answered h p)
  Act-project m k _ (failed h p) = inl (Cluster.failed h p)
  Act-project m k _ (stores h info now p) = inl (Cluster.stores h info now p)
  Act-project m k _ delivers = inr (
      ap (λ (t : NodeInfoManager). record { table = t; phase = (m.peers k).phase })
        (deliver-table (m.peers k).discovery.pending (m.peers k).discovery))
  Act-project m k _ (checks now) = inl (Cluster.checks now)
  Act-project m k _ (subscribes name callback socket) = inr refl

  -- An act leaves the subscribers alone, or is an event of the discovery.
  pub Act-event :
      (m : Mesh W) (k : Str) (p : Peer W)
      → Act owner m k p
      → (p.discovery.subscribers ≡ (m.peers k).discovery.subscribers)
        ⊎ ((e : Event W) × (p.discovery ≡ happen e (m.peers k).discovery))
  Act-event m k _ (registers r free) = inl refl
  Act-event m k _ (hears h now idle sent other) = inr (Discovery.heard h now, refl)
  Act-event m k _ (answered h p) = inl refl
  Act-event m k _ (failed h p) = inl refl
  Act-event m k _ (stores h info now p) = inr (Discovery.fetched h info now, refl)
  Act-event m k _ delivers = inr (Discovery.delivered, refl)
  Act-event m k _ (checks now) = inr (Discovery.expired now, refl)
  Act-event m k _ (subscribes name callback socket) =
      inr (Discovery.subscribed name callback socket, refl)

  pub Step-project : (m n : Mesh W) → Step owner m n → Cluster.Steps (cluster_of m) (cluster_of n)
  Step-project m _ (acts _ k p act) = elim (Act-project m k p act) [
    | inl a ↦
        subst (Cluster.Steps (cluster_of m)) (sym (cluster_of-set k p m))
          (Cluster.next Cluster.here (Cluster.acts (cluster_of m) k (node_of p) a))
    | inr same ↦
        subst (Cluster.Steps (cluster_of m)) (sym (cluster_of-same k p m same)) Cluster.here
  ]
  Step-project m _ (sends _ k) = Cluster.next Cluster.here (Cluster.sends (cluster_of m) k)

  pub Steps-project : (m n : Mesh W) → Steps owner m n → Cluster.Steps (cluster_of m) (cluster_of n)
  Steps-project m _ here = Cluster.here
  Steps-project m n (next {n = o} r s) =
      cluster_steps_trans (cluster_of m) (cluster_of o) (cluster_of n) (Steps-project m o r)
        (Step-project o n s)

pub start-project :
    (W : Type 0) (name ip : Str → Str) → cluster_of (start {W = W} name ip) ≡ Cluster.start name ip
unfolding start Cluster.start
start-project W name ip = refl
