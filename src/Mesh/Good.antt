-- ===== src/Mesh/Good.antt =====
-- What each act in a mesh may come to, where nothing was invented and nothing missed before.
use zero_lan_com.Base.{none, some, true, ◌≡◌, refl, sym, ap, subst, ◌∙◌, inl, inr}
use zero_lan_com.Base.Text.{Str}
use zero_lan_com.Base.Map.{find}
use zero_lan_com.Nodes.NodeInfo.{NodeInfo}
use zero_lan_com.Nodes.NodeInfoManager.{register_local_topic, register_local_service}
use zero_lan_com.Nodes.NodeInfoManager.Refetch.{Registration, topic, service, register}
use zero_lan_com.Nodes.NodeInfoManager.Consistency.{IsConsistent, run_section-IsConsistent}
use zero_lan_com.Nodes.Cluster.Earlier.{IsEarlier}
use zero_lan_com.Nodes.Cluster.Outcome
use zero_lan_com.Nodes.Cluster.Invariant.{Steps-later}
use zero_lan_com.Nodes.NodeInfoManager.Sections
use zero_lan_com.Nodes.NodeInfoManager.Sections.{run_section}
use zero_lan_com.Sockets.SubscriberManager.One.{announces}
use zero_lan_com.Sockets.Discovery
use zero_lan_com.Sockets.Discovery.{Discovery, Event, happen}
use zero_lan_com.Sockets.Discovery.Proper.{IsTold}
use zero_lan_com.Sockets.Discovery.NoneInvented.{NoneInvented, IsHonest, happen-NoneInvented}
use zero_lan_com.Sockets.Discovery.NoneMissed.{NoneMissed, AllOwned, IsFair, happen-NoneMissed}
use zero_lan_com.Sockets.Discovery.Withdrawn.{IsOwned}
use zero_lan_com.Mesh.{
  Peer, Mesh, cluster_of, own, set_peer, IsFree, Act, registers, hears, answered, failed, stores,
  delivers, checks, subscribes, acts,
}
use zero_lan_com.Mesh.Projection.{Step-project, set_peer-same}
use zero_lan_com.Mesh.Announced.{
  announces-one, IsEarlier-announces, happen-local, Announced, NoneInvented-map,
}

module _ {W : Type 0} (owner : Str → Str) where
  pub record Inv (m : Mesh W) : Type 0 where
    pub cluster : Outcome.Inv (cluster_of m)
    pub owned : (j : Str) → IsOwned owner j (own m j)
    pub invented : (k : Str) → NoneInvented (Announced m) (m.peers k).discovery
    pub missed : (k : Str) → NoneMissed (m.peers k).discovery

  module _ (m : Mesh W) (inv : Inv m) where
    -- What was once told by a node.
    told : (j : Str) (info : NodeInfo) → IsEarlier info (own m j) → IsTold (Announced m) info
    told j info e name u h = (j, IsEarlier-announces name u info (own m j) e h)

    pub once-IsOwned : (j : Str) (info : NodeInfo) → IsEarlier info (own m j) → IsOwned owner j info
    once-IsOwned j info e name u h =
        inv.owned j name u (IsEarlier-announces name u info (own m j) e h)

    all_owned : (k : Str) → AllOwned owner (m.peers k).discovery
    all_owned k j info e = once-IsOwned j info (inv.cluster.knows k j info e)

  -- What an act of node `k` may come to.
  pub record Good (m : Mesh W) (k : Str) (p : Peer W) : Type 0 where
    pub owned : IsOwned owner k p.discovery.table.local_node_info
    pub invented : NoneInvented (Announced (set_peer k p m)) p.discovery
    pub missed : NoneMissed p.discovery

  module _ (m : Mesh W) (k : Str) (p : Peer W) (act : Act owner m k p) (inv : Inv m) where
    pub grows : (name u : Str) → Announced m name u → Announced (set_peer k p m) name u
    grows name u (j, h) = (
      j,
      IsEarlier-announces name u (own m j) (own (set_peer k p m) j)
          (Steps-later (cluster_of m) (cluster_of (set_peer k p m))
            (Step-project owner m (set_peer k p m) (acts m k p act)) inv.cluster j)
          h,
    )

    -- The discovery part has gone through an event, if through anything.
    quiet-Good : p.discovery ≡ (m.peers k).discovery → Good m k p
    quiet-Good same = record {
      owned =
          subst (λ (d : Discovery W). IsOwned owner k d.table.local_node_info) (sym same)
            (inv.owned k);
      invented =
          subst (NoneInvented (Announced (set_peer k p m))) (sym same)
            (NoneInvented-map (Announced m) (Announced (set_peer k p m)) _ grows (inv.invented k));
      missed = subst NoneMissed (sym same) (inv.missed k);
    }

    event-Good :
        (e : Event W)
        → p.discovery ≡ happen e (m.peers k).discovery
        → IsHonest (Announced m) e
        → IsFair owner e
        → Good m k p
    event-Good e same honest fair =
        let d : Discovery W = (m.peers k).discovery in
        record {
          owned =
              subst (λ (x : Discovery W). IsOwned owner k x.table.local_node_info) (sym same)
                (subst (IsOwned owner k) (sym (happen-local e d)) (inv.owned k));
          invented = subst (NoneInvented (Announced (set_peer k p m))) (sym same) (
              NoneInvented-map (Announced m) (Announced (set_peer k p m)) _ grows
                (happen-NoneInvented (Announced m) e d honest (inv.invented k)));
          missed = subst NoneMissed (sym same) (
              happen-NoneMissed owner e d (inv.invented k).consistent (all_owned m inv k)
                (inv.missed k));
        }

  module _ (m : Mesh W) (k : Str) (inv : Inv m) where
    abbrev registered : Registration → Peer W
    registered r = record (m.peers k) {
      discovery = record (m.peers k).discovery { table = register r (m.peers k).discovery.table };
    }

    registered-IsOwned :
        (r : Registration)
        → IsFree owner k (m.peers k).discovery.table r
        → IsOwned owner k (registered r).discovery.table.local_node_info
    unfolding register register_local_topic register_local_service
    registered-IsOwned (topic name port) free wanted u h =
        elim (announces-one wanted u (own m k).topics _ h) [
          | inl before ↦ inv.owned k wanted u before
          | inr own_url ↦ ap owner (sym own_url) ∙ free
        ]
    registered-IsOwned (service name port) free wanted u h = inv.owned k wanted u h

    registered-IsConsistent : (r : Registration) → IsConsistent (registered r).discovery.table
    unfolding register run_section
    registered-IsConsistent (topic name port) =
        run_section-IsConsistent (Sections.topic name port) (m.peers k).discovery.table
          (inv.invented k).consistent
    registered-IsConsistent (service name port) =
        run_section-IsConsistent (Sections.service name port) (m.peers k).discovery.table
          (inv.invented k).consistent

    registered-tables :
        (r : Registration)
        → (registered r).discovery.table.nodes_info ≡ (m.peers k).discovery.table.nodes_info
    unfolding register register_local_topic register_local_service
    registered-tables (topic name port) = refl
    registered-tables (service name port) = refl

    registers-Good :
        (r : Registration) → IsFree owner k (m.peers k).discovery.table r → Good m k (registered r)
    registers-Good r free =
        let before =
          NoneInvented-map (Announced m) (Announced (set_peer k (registered r) m))
            (m.peers k).discovery (grows m k (registered r) (registers r free) inv)
            (inv.invented k) in
        record {
          owned = registered-IsOwned r free;
          invented = record {
            consistent = registered-IsConsistent r;
            own = λ name u h. (
              k,
              subst
                  (λ (x : Peer W). announces name u x.discovery.table.local_node_info.topics ≡ true)
                  (sym (set_peer-same k (registered r) m)) h,
            );
            known = λ j info e. before.known j info (ap (find j) (sym (registered-tables r)) ∙ e);
            coming = before.coming;
            connected = before.connected;
          };
          missed = λ j info e. inv.missed k j info (ap (find j) (sym (registered-tables r)) ∙ e);
        }

    pub Act-Good : (p : Peer W) → Act owner m k p → Good m k p
    Act-Good _ (registers r free) = registers-Good r free
    Act-Good p (hears h now idle sent other) =
        event-Good m k _ (hears h now idle sent other) inv (Discovery.heard h now) refl tt tt
    Act-Good _ (answered h e) = quiet-Good m k _ (answered h e) inv refl
    Act-Good _ (failed h e) = quiet-Good m k _ (failed h e) inv refl
    Act-Good _ (stores h none now e) =
        event-Good m k _ (stores h none now e) inv (Discovery.fetched h none now) refl tt tt
    Act-Good _ (stores h (some info) now e) =
        let earlier = (inv.cluster.fetches k h.node_id info (h, e, refl)).0 in
        event-Good m k _ (stores h (some info) now e) inv (Discovery.fetched h (some info) now) refl
          (told m inv h.node_id info earlier) (once-IsOwned m inv h.node_id info earlier)
    Act-Good _ delivers = event-Good m k _ delivers inv Discovery.delivered refl tt tt
    Act-Good _ (checks now) = event-Good m k _ (checks now) inv (Discovery.expired now) refl tt tt
    Act-Good _ (subscribes name callback socket) =
        event-Good m k _ (subscribes name callback socket) inv
          (Discovery.subscribed name callback socket) refl tt tt
