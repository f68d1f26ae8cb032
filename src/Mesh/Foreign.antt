-- ===== src/Mesh/Foreign.antt =====
-- What reaches the subscribers of a node by events comes from other nodes: `processHeartbeat` is not
-- called for own heartbeats (src/nodes/multicast.cpp).
use zero_lan_com.Base.{
  List, [], ◌∷◌, none, some, true, false, Bool, if◌then◌else◌, All, All-append, ◌≡◌, ◌≢◌, refl, sym,
  subst, ◌∙◌,
}
use zero_lan_com.Base.Text.{Str}
use zero_lan_com.Nodes.NodeInfo.{NodeInfo}
use zero_lan_com.Nodes.Heartbeat.{HeartbeatMessage}
use zero_lan_com.Nodes.NodeInfoManager.{mark_heartbeat, store_fetched}
use zero_lan_com.Nodes.Cluster.{Phase, waiting, fetching, fetched}
use zero_lan_com.Sockets.SubscriberManager.One.{announces}
use zero_lan_com.Sockets.Discovery.Withdrawn.{IsOwned}
use zero_lan_com.Sockets.Discovery.{Discovery, deliver, happen}
use zero_lan_com.Mesh.{
  Peer, Mesh, start, Act, registers, hears, answered, failed, stores, delivers, checks, subscribes,
  Step, acts, sends, Steps, here, next,
}
use zero_lan_com.Mesh.Projection.{set_peer-each}
use zero_lan_com.Mesh.Good.{Inv, once-IsOwned}
use zero_lan_com.Mesh.Invariant.{start-Inv, Steps-Inv}

-- The heartbeat that is handled is another node's.
abbrev pub IsOther : Str → Phase → Type 0
IsOther k waiting = Unit
IsOther k (fetching h) = h.node_id ≢ k
IsOther k (fetched h info) = h.node_id ≢ k

IsOther-if :
    (k : Str) (h : HeartbeatMessage) (b : Bool)
    → h.node_id ≢ k
    → IsOther k (if b then fetching h else waiting)
IsOther-if k h true other = other
IsOther-if k h false other = tt

module _ (owner : Str → Str) where
  -- The node `k` owns none of the endpoints.
  abbrev pub IsForeign : Str → NodeInfo → Type 0
  IsForeign k info = (name u : Str) → announces name u info.topics ≡ true → owner u ≢ k

  owned-IsForeign : (k j : Str) (info : NodeInfo) → IsOwned owner j info → j ≢ k → IsForeign k info
  owned-IsForeign k j info owned differ name u h same = differ (sym (owned name u h) ∙ same)

module _ {W : Type 0} (owner : Str → Str) where
  pub record Foreign (k : Str) (p : Peer W) : Type 0 where
    pub phase : IsOther k p.phase
    pub coming : All (IsForeign owner k) p.discovery.pending

  deliver-coming :
      (k : Str) (pending : List NodeInfo) (d : Discovery W)
      → All (IsForeign owner k) pending
      → All (IsForeign owner k) d.pending
      → All (IsForeign owner k) (deliver pending d).pending
  unfolding deliver
  deliver-coming k [] d these those = those
  deliver-coming k (info ∷ rest) d these those = these.1

  module _ (m : Mesh W) (inv : Inv owner m) (k : Str) where
    Act-Foreign : (p : Peer W) → Act owner m k p → Foreign k (m.peers k) → Foreign k p
    unfolding happen store_fetched
    Act-Foreign _ (registers r free) f = record { phase = f.phase; coming = f.coming }
    Act-Foreign _ (hears h now idle sent other) f = record {
      phase = IsOther-if k h (mark_heartbeat h now (m.peers k).discovery.table).1.needs_fetch other;
      coming = f.coming;
    }
    Act-Foreign _ (answered h e) f = record {
      phase = subst (IsOther k) e f.phase;
      coming = f.coming;
    }
    Act-Foreign _ (failed h e) f = record { phase = subst (IsOther k) e f.phase; coming = f.coming }
    Act-Foreign _ (stores h none now e) f = record {
      phase = tt;
      coming = All-append (IsForeign owner k) (m.peers k).discovery.pending [] f.coming tt;
    }
    Act-Foreign _ (stores h (some info) now e) f =
        let earlier = (inv.cluster.fetches k h.node_id info (h, e, refl)).0 in
        let owned = once-IsOwned owner m inv h.node_id info earlier in
        record {
          phase = tt;
          coming =
              All-append (IsForeign owner k) (m.peers k).discovery.pending (info ∷ []) f.coming
                (owned-IsForeign owner k h.node_id info owned (subst (IsOther k) e f.phase), tt);
        }
    Act-Foreign _ delivers f = record {
      phase = f.phase;
      coming =
          deliver-coming k (m.peers k).discovery.pending (m.peers k).discovery f.coming f.coming;
    }
    Act-Foreign _ (checks now) f = record { phase = f.phase; coming = f.coming }
    Act-Foreign _ (subscribes name callback socket) f = record {
      phase = f.phase;
      coming = f.coming;
    }

  Step-Foreign :
      (m n : Mesh W)
      → Inv owner m
      → Step owner m n
      → ((k : Str) → Foreign k (m.peers k))
      → (k : Str) → Foreign k (n.peers k)
  Step-Foreign m _ inv (acts _ k p act) all =
      set_peer-each m k p Foreign (Act-Foreign m inv k p act (all k)) all
  Step-Foreign m _ inv (sends _ k) all = all

  pub Steps-Foreign :
      (m n : Mesh W)
      → Inv owner m
      → ((k : Str) → Foreign k (m.peers k))
      → Steps owner m n
      → (k : Str) → Foreign k (n.peers k)
  Steps-Foreign m _ inv all here = all
  Steps-Foreign m n inv all (next {n = o} r s) =
      Step-Foreign o n (Steps-Inv owner m o r inv) s (Steps-Foreign m o inv all r)

  pub reached-Foreign :
      (name ip : Str → Str) (m : Mesh W)
      → Steps owner (start name ip) m
      → (k : Str) → Foreign k (m.peers k)
  unfolding start
  reached-Foreign name ip m run =
      Steps-Foreign (start name ip) m (start-Inv owner name ip)
        (λ k. record { phase = tt; coming = tt }) run
