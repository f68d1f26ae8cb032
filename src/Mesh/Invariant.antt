-- ===== src/Mesh/Invariant.antt =====
-- What holds of a mesh whatever happens: subscribers are connected to what was announced for their
-- topic, and miss nothing that their node knows of and has delivered.
use zero_lan_com.Base.{List, [], some, All, ◌≡◌, sym, subst, inl, inr}
use zero_lan_com.Base.Text.{Str}
use zero_lan_com.Base.Map.{find}
use zero_lan_com.Base.Map.Unique.{Has}
use zero_lan_com.Nodes.NodeInfoManager.{
  NodeInfoManager, init, mark_heartbeat, store_fetched, register_local_topic,
  register_local_service,
}
use zero_lan_com.Nodes.NodeInfoManager.Consistency.{init-IsConsistent}
use zero_lan_com.Nodes.Cluster.Outcome
use zero_lan_com.Nodes.Cluster.Invariant.{Steps-later}
use zero_lan_com.Nodes.Cluster.Invariant
use zero_lan_com.Nodes.NodeInfoManager
use zero_lan_com.Sockets.SubscriberManager.One.{announces}
use zero_lan_com.Sockets.Discovery.Links.{IsLinked}
use zero_lan_com.Sockets.SubscriberManager.{Subscriber}
use zero_lan_com.Sockets.SubscriberManager.Follow.{AllSynced}
use zero_lan_com.Sockets.Discovery.{Discovery}
use zero_lan_com.Sockets.Discovery.Synced.{
  happen-AllSynced, IsConnected, All-IsConnected, IsRightly, All-IsRightly,
}
use zero_lan_com.Sockets.Discovery.NoneInvented.{NoneInvented}
use zero_lan_com.Sockets.Discovery.NoneMissed.{NoneMissed}
use zero_lan_com.Sockets.Discovery.Withdrawn.{IsOwned}
use zero_lan_com.Mesh.{
  Mesh, node_of, cluster_of, own, set_peer, start, Step, acts, sends, Steps, here, next,
}
use zero_lan_com.Mesh.Projection.{Act-event, Step-project, start-project, set_peer-each}
use zero_lan_com.Mesh.Announced.{Announced, NoneInvented-map}
use zero_lan_com.Mesh.Good.{Inv, grows, Act-Good}

module _ {W : Type 0} (owner : Str → Str) where
  pub Step-Inv : (m n : Mesh W) → Step owner m n → Inv owner m → Inv owner n
  Step-Inv m _ (acts _ k p act) inv =
      let good = Act-Good owner m k inv p act in
      let n : Mesh W = set_peer k p m in
      record {
        cluster =
            Invariant.Steps-Inv (cluster_of m) (cluster_of n)
              (Step-project owner m n (acts m k p act)) inv.cluster;
        owned =
            set_peer-each m k p (λ j x. IsOwned owner j x.discovery.table.local_node_info)
              good.owned inv.owned;
        invented =
            set_peer-each m k p (λ j x. NoneInvented (Announced n) x.discovery) good.invented
              (λ j.
                NoneInvented-map (Announced m) (Announced n) _ (grows owner m k p act inv)
                  (inv.invented j));
        missed = set_peer-each m k p (λ j x. NoneMissed x.discovery) good.missed inv.missed;
      }
  Step-Inv m n (sends _ k) inv = record {
    cluster =
        Invariant.Steps-Inv (cluster_of m) (cluster_of n) (Step-project owner m n (sends m k))
          inv.cluster;
    owned = inv.owned;
    invented = λ j. NoneInvented-map (Announced m) (Announced n) _ (λ name u h. h) (inv.invented j);
    missed = inv.missed;
  }

  pub start-Inv : (name ip : Str → Str) → Inv {W = W} owner (start name ip)
  unfolding start NodeInfoManager.init announces find
  start-Inv name ip = record {
    cluster = subst Outcome.Inv (sym (start-project W name ip)) (Invariant.start-Inv name ip);
    owned = λ j topic u h. cc;
    invented = λ k. record {
      consistent = init-IsConsistent k (name k) (ip k);
      own = λ topic u h. cc;
      known = λ j info e. cc;
      coming = tt;
      connected = tt;
    };
    missed = λ k j info e. cc;
  }

  pub Steps-Inv : (m n : Mesh W) → Steps owner m n → Inv owner m → Inv owner n
  Steps-Inv m _ here inv = inv
  Steps-Inv m n (next {n = o} r s) inv = Step-Inv o n s (Steps-Inv m o r inv)

  -- A node that knows another as it is and has delivered its events has linked its subscribers.
  pub Inv-IsLinked :
      (m : Mesh W) (k j : Str)
      → Inv owner m
      → Outcome.stored (node_of (m.peers k)) j ≡ some (own m j)
      → (m.peers k).discovery.pending ≡ []
      → All (IsLinked (own m j)) (m.peers k).discovery.subscribers
  Inv-IsLinked m k j inv current delivered_all = elim (inv.missed k j (own m j) current) [
    | inl linked ↦ linked
    | inr waits ↦ absurd (subst (Has (own m j)) delivered_all waits)
  ]

  Step-AllSynced :
      (m n : Mesh W)
      → Step owner m n
      → ((k : Str) → AllSynced (m.peers k).discovery.subscribers)
      → (k : Str) → AllSynced (n.peers k).discovery.subscribers
  Step-AllSynced m _ (acts _ k p act) all =
      set_peer-each m k p (λ j x. AllSynced x.discovery.subscribers)
        (elim (Act-event owner m k p act) [
          | inl same ↦ subst (λ (subs : List (Subscriber W)). AllSynced subs) (sym same) (all k)
          | inr (e, same) ↦
              subst (λ (d : Discovery W). AllSynced d.subscribers) (sym same)
                (happen-AllSynced e (m.peers k).discovery (all k))
        ])
        all
  Step-AllSynced m _ (sends _ k) all = all

  synced :
      (m n : Mesh W)
      → ((k : Str) → AllSynced (m.peers k).discovery.subscribers)
      → Steps owner m n
      → (k : Str) → AllSynced (n.peers k).discovery.subscribers
  synced m _ all here = all
  synced m n all (next {n = o} r s) = Step-AllSynced o n s (synced m o all r)

  Steps-AllSynced :
      (name ip : Str → Str) (m : Mesh W)
      → Steps owner (start name ip) m
      → (k : Str) → AllSynced (m.peers k).discovery.subscribers
  unfolding start
  Steps-AllSynced name ip m run = synced (start name ip) m (λ k. tt) run

  module _ (name ip : Str → Str) (m : Mesh W) (run : Steps owner (start name ip) m) where
    reached : Inv owner m
    reached = Steps-Inv (start name ip) m run (start-Inv name ip)

    -- Whatever happens in a group of nodes, the socket of each subscriber is connected to nothing but
    -- what some node of the group has announced for its topic. The endpoints that nodes announce are their
    -- own, and a fetch is answered by the node that the heartbeat names.
    pub subscribers-IsRightly :
        (k : Str) → All (IsRightly (Announced m)) (m.peers k).discovery.subscribers
    subscribers-IsRightly k =
        All-IsRightly (Announced m) (m.peers k).discovery.subscribers
          (Steps-AllSynced name ip m run k) (reached.invented k).connected

    -- Where a node has the present info of another, and the events of its table are delivered, the
    -- sockets of all its subscribers are connected to all that the other one announces for their topics, whichever
    -- nodes were dropped and heard again before. The endpoints that nodes announce are their own, and
    -- a fetch is answered by the node that the heartbeat names.
    pub subscribers-IsConnected :
        (k j : Str)
        → Outcome.stored (node_of (m.peers k)) j ≡ some (own m j)
        → (m.peers k).discovery.pending ≡ []
        → All (IsConnected (own m j)) (m.peers k).discovery.subscribers
    subscribers-IsConnected k j current delivered_all =
        All-IsConnected (own m j) (m.peers k).discovery.subscribers
          (Steps-AllSynced name ip m run k) (Inv-IsLinked m k j reached current delivered_all)
