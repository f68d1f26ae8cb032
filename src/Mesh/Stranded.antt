-- ===== src/Mesh/Stranded.antt =====
-- Subscribers and a publisher that comes later on their own node: `registerLocalTopic`
-- (src/nodes/node_info_manager.cpp) triggers no event.
use zero_lan_com.Base.{List, [], ◌∷◌, none, some, All, ◌≡◌, refl, sym, subst}
use zero_lan_com.Base.Text.{Str}
use zero_lan_com.Nodes.NodeInfo.{NodeInfo}
use zero_lan_com.Nodes.NodeInfoManager.{check_heartbeats, store_fetched}
use zero_lan_com.Sockets.SubscriberManager.{Subscriber, register_topic_subscriber}
use zero_lan_com.Sockets.Discovery.{Discovery, deliver, happen}
use zero_lan_com.Sockets.Discovery.Unmet.{
  IsUnmet, AllStill, AllStill-refl, AllStill-append, update-AllStill, withdraw-AllStill,
}
use zero_lan_com.Mesh.{
  Peer, Mesh, start, Act, registers, hears, answered, failed, stores, delivers, checks, subscribes,
  Step, acts, sends, Steps, here, next,
}
use zero_lan_com.Mesh.Projection.{set_peer-each}
use zero_lan_com.Mesh.Invariant.{start-Inv, Steps-Inv}
use zero_lan_com.Mesh.Good.{Inv}
use zero_lan_com.Mesh.Foreign.{IsForeign, Foreign, Steps-Foreign, reached-Foreign}

module _ {W : Type 0} (owner : Str → Str) (k u : Str) (mine : owner u ≡ k)
    (olds : List (Subscriber W)) where
  abbrev Still : Peer W → Type 0
  Still p = AllStill u olds p.discovery.subscribers

  deliver-Still :
      (pending : List NodeInfo) (d : Discovery W)
      → All (IsForeign owner k) pending
      → AllStill u olds d.subscribers
      → AllStill u olds (deliver pending d).subscribers
  unfolding deliver
  deliver-Still [] d foreign h = h
  deliver-Still (info ∷ rest) d foreign h =
      update-AllStill u info olds d.subscribers (λ name e. foreign.0 name u e mine) h

  module _ (m : Mesh W) (foreign : Foreign owner k (m.peers k)) (still : Still (m.peers k)) where
    Act-Still : (p : Peer W) → Act owner m k p → Still p
    unfolding happen store_fetched register_topic_subscriber
    Act-Still _ (registers r free) = still
    Act-Still _ (hears h now idle sent other) = still
    Act-Still _ (answered h e) = still
    Act-Still _ (failed h e) = still
    Act-Still _ (stores h none now e) = still
    Act-Still _ (stores h (some info) now e) = still
    Act-Still _ delivers =
        deliver-Still (m.peers k).discovery.pending (m.peers k).discovery foreign.coming still
    Act-Still _ (checks now) =
        withdraw-AllStill u (check_heartbeats now (m.peers k).discovery.table).1 olds
          (m.peers k).discovery.subscribers still
    Act-Still _ (subscribes name callback socket) =
        AllStill-append u olds (m.peers k).discovery.subscribers _ still

  Step-Still :
      (m n : Mesh W)
      → Step owner m n
      → Foreign owner k (m.peers k)
      → Still (m.peers k)
      → Still (n.peers k)
  Step-Still m _ (acts _ j p act) foreign still =
      set_peer-each m j p (λ i x. i ≡ k → Still x)
        (λ same. Act-Still m foreign still p (subst (λ i. Act owner m i p) same act))
        (λ i same. subst (λ x. Still (m.peers x)) (sym same) still) k refl
  Step-Still m _ (sends _ j) foreign still = still

  Steps-Still :
      (m n : Mesh W)
      → Inv owner m
      → ((j : Str) → Foreign owner j (m.peers j))
      → Still (m.peers k)
      → Steps owner m n
      → Still (n.peers k)
  Steps-Still m _ inv all still here = still
  Steps-Still m n inv all still (next {n = o} r s) =
      Step-Still o n s (Steps-Foreign owner m o inv all r k) (Steps-Still m o inv all still r)

-- A subscriber that is there before a publisher on its own node is never connected to it: at any time
-- in a group of nodes, whatever happens from then on and whichever topics the node registers, its
-- subscribers stay in their places with their topics and sockets, and where none of them is
-- connected to an endpoint of their own node, none of them ever is. Each node announces its own
-- endpoints, and a fetch is answered by the node that the heartbeat names.
pub own_publisher_missed :
    {W : Type 0} (owner name ip : Str → Str) (m : Mesh W)
    → Steps owner (start name ip) m
    → (k u : Str) → owner u ≡ k
    → All (IsUnmet u) (m.peers k).discovery.subscribers
    → (n : Mesh W) → Steps owner m n
    → AllStill u (m.peers k).discovery.subscribers (n.peers k).discovery.subscribers
own_publisher_missed owner name ip m run k u mine unmet n later =
    let olds = (m.peers k).discovery.subscribers in
    Steps-Still owner k u mine olds m n
      (Steps-Inv owner (start name ip) m run (start-Inv owner name ip))
      (reached-Foreign owner name ip m run) (AllStill-refl u olds unmet) later
