-- ===== src/Mesh/Announced.antt =====
-- What the nodes of a mesh have announced, which only grows.
use zero_lan_com.Base.{
  List, [], ◌∷◌, ◌++◌, none, some, true, All, ◌≡◌, refl, sym, ap, subst, ◌⊎◌, arith,
}
use zero_lan_com.Base.Text.{Str, str_eq_iff}
use zero_lan_com.Nodes.NodeInfo.{SocketInfo, NodeInfo}
use zero_lan_com.Nodes.NodeInfoManager.{NodeInfoManager, mark_heartbeat, store_fetched}
use zero_lan_com.Nodes.Cluster.Earlier.{IsEarlier}
use zero_lan_com.Sockets.SubscriberManager.{topic_url}
use zero_lan_com.Sockets.SubscriberManager.One.{announces}
use zero_lan_com.Sockets.Discovery
use zero_lan_com.Sockets.Discovery.{Discovery, Event, happen}
use zero_lan_com.Sockets.Discovery.Proper.{check_heartbeats-local, IsTold, IsProper}
use zero_lan_com.Sockets.Discovery.NoneInvented.{NoneInvented}
use zero_lan_com.Sockets.Discovery.NoneMissed.{deliver-table}
use zero_lan_com.Mesh.{Mesh, own}

pub announces-prefix :
    (name u : Str) (ts more : List SocketInfo)
    → announces name u ts ≡ true
    → announces name u (ts ++ more) ≡ true
unfolding announces
announces-prefix name u [] more h = cc
announces-prefix name u (t ∷ ts) more h = ground (arith, announces-prefix name u ts more)

pub announces-one :
    (name u : Str) (ts : List SocketInfo) (t : SocketInfo)
    → announces name u (ts ++ t ∷ []) ≡ true
    → (announces name u ts ≡ true) ⊎ (topic_url t ≡ u)
unfolding announces
announces-one name u [] t h = ground (arith, str_eq_iff (topic_url t) u)
announces-one name u (s ∷ ts) t h = ground (arith, announces-one name u ts t)

pub IsEarlier-announces :
    (name u : Str) (old new : NodeInfo)
    → IsEarlier old new
    → announces name u old.topics ≡ true
    → announces name u new.topics ≡ true
IsEarlier-announces name u old new e h =
    subst (λ ts. announces name u ts ≡ true) (sym e.topics.1)
      (announces-prefix name u old.topics e.topics.0 h)

pub All-map :
    {A : Type 0} (P Q : A → Type 0) (xs : List A) → ((x : A) → P x → Q x) → All P xs → All Q xs
All-map P Q [] f h = tt
All-map P Q (x ∷ xs) f h = (f x h.0, All-map P Q xs f h.1)

-- No event touches the local info.
pub happen-local :
    {W : Type 0} (e : Event W) (d : Discovery W)
    → (happen e d).table.local_node_info ≡ d.table.local_node_info
unfolding happen mark_heartbeat store_fetched
happen-local (Discovery.heard heartbeat now) d = refl
happen-local (Discovery.fetched heartbeat none now) d = refl
happen-local (Discovery.fetched heartbeat (some info) now) d = refl
happen-local Discovery.delivered d =
    ap (λ (t : NodeInfoManager). t.local_node_info) (deliver-table d.pending d)
happen-local (Discovery.expired now) d = check_heartbeats-local now d.table
happen-local (Discovery.subscribed name callback socket) d = refl

module _ {W : Type 0} where
  -- Some node announces the URL for the topic.
  abbrev pub Announced : Mesh W → Str → Str → Type 0
  Announced m name u = (j : Str) × (announces name u (own m j).topics ≡ true)

  pub NoneInvented-map :
      (P Q : Str → Str → Type 0) (d : Discovery W)
      → ((name u : Str) → P name u → Q name u)
      → NoneInvented P d
      → NoneInvented Q d
  NoneInvented-map P Q d f v = record {
    consistent = v.consistent;
    own = λ name u h. f name u (v.own name u h);
    known = λ k info e name u h. f name u (v.known k info e name u h);
    coming =
        All-map (IsTold P) (IsTold Q) d.pending (λ info told name u h. f name u (told name u h))
          v.coming;
    connected =
        All-map (IsProper P) (IsProper Q) d.subscribers
          (λ sub proper u h. f sub.topic_name u (proper u h)) v.connected;
  }
