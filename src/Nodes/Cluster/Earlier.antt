-- ===== src/Nodes/Cluster/Earlier.antt =====
-- What a node told of itself at some time, against what it tells now.
use zero_lan_com.Base.{
  ℕ, ◌+◌, ◌%◌, ◌^◌, ◌<◌, ◌≤◌, List, [], ◌∷◌, ◌++◌, ◌≡◌, refl, sym, ap, ◌∙◌, arith, length,
  length-append, nil_of_length,
}
use mathlib.Core.List.{append_assoc, append-nil}
use zero_lan_com.Nodes.NodeInfo.{SocketInfo, NodeInfo}
use zero_lan_com.Nodes.NodeInfoManager.{
  NodeInfoManager, register_local_topic, register_local_service,
}
use zero_lan_com.Nodes.NodeInfoManager.Refetch.{Registration, topic, service, register}

abbrev pub count : NodeInfo → ℕ
count info = length info.topics + length info.services

-- The id counts what was registered.
abbrev pub IsCounted : NodeInfo → Type 0
IsCounted info = info.info_id ≡ count info % 2 ^ 32

abbrev pub Prefix : List SocketInfo → List SocketInfo → Type 0
Prefix xs ys = (more : List SocketInfo) × (ys ≡ xs ++ more)

-- The info was once what is now the other one: the same node, and what it has registered since comes
-- behind what it had registered.
pub record IsEarlier (old new : NodeInfo) : Type 0 where
  pub node_id : old.node_id ≡ new.node_id
  pub name : old.name ≡ new.name
  pub ip : old.ip ≡ new.ip
  pub topics : Prefix old.topics new.topics
  pub services : Prefix old.services new.services
  pub counted : IsCounted old

Prefix-refl : (xs : List SocketInfo) → Prefix xs xs
Prefix-refl xs = ([], sym (append-nil xs))

Prefix-trans : (xs ys zs : List SocketInfo) → Prefix xs ys → Prefix ys zs → Prefix xs zs
Prefix-trans xs ys zs (m, e) (n, f) = (m ++ n, f ∙ ap (◌++ n) e ∙ append_assoc xs m n)

pub IsEarlier-refl : (info : NodeInfo) → IsCounted info → IsEarlier info info
IsEarlier-refl info c = record {
  node_id = refl;
  name = refl;
  ip = refl;
  topics = Prefix-refl info.topics;
  services = Prefix-refl info.services;
  counted = c;
}

pub IsEarlier-trans : (a b c : NodeInfo) → IsEarlier a b → IsEarlier b c → IsEarlier a c
IsEarlier-trans a b c e f = record {
  node_id = e.node_id ∙ f.node_id;
  name = e.name ∙ f.name;
  ip = e.ip ∙ f.ip;
  topics = Prefix-trans a.topics b.topics c.topics e.topics f.topics;
  services = Prefix-trans a.services b.services c.services e.services f.services;
  counted = e.counted;
}

Prefix-length : (xs ys : List SocketInfo) (p : Prefix xs ys) → length ys ≡ length xs + length p.0
Prefix-length xs ys (m, e) = ap length e ∙ length-append xs m

Prefix-full : (xs ys : List SocketInfo) → Prefix xs ys → length ys ≡ length xs → xs ≡ ys
Prefix-full xs ys (m, e) same =
    let nothing : m ≡ [] = nil_of_length m (omega (arith, same, Prefix-length xs ys (m, e))) in
    sym (e ∙ ap (xs ++◌) nothing ∙ append-nil xs)

-- Infos of one node with as many sockets are the same.
same_count-eq :
    (old new : NodeInfo) → IsEarlier old new → IsCounted new → count new ≡ count old → old ≡ new
same_count-eq old new e c same =
    let more_topics = Prefix-length old.topics new.topics e.topics in
    let more_services = Prefix-length old.services new.services e.services in
    let ts : old.topics ≡ new.topics =
      Prefix-full old.topics new.topics e.topics
        (omega (arith, same, more_topics, more_services)) in
    let ss : old.services ≡ new.services =
      Prefix-full old.services new.services e.services
        (omega (arith, same, more_topics, more_services)) in
    let id : old.info_id ≡ new.info_id = omega (arith, e.counted, c, same) in
    λ i. record {
      node_id = e.node_id i;
      info_id = id i;
      name = e.name i;
      ip = e.ip i;
      topics = ts i;
      services = ss i;
    }

IsEarlier-count : (old new : NodeInfo) → IsEarlier old new → count old ≤ count new
IsEarlier-count old new e = omega (
  arith,
  Prefix-length old.topics new.topics e.topics,
  Prefix-length old.services new.services e.services,
)

pub IsEarlier-antisym : (a b : NodeInfo) → IsEarlier a b → IsEarlier b a → a ≡ b
IsEarlier-antisym a b e f =
    same_count-eq a b e f.counted (omega (arith, IsEarlier-count a b e, IsEarlier-count b a f))

-- So are those with one id, if the node registered fewer than 2 ^ 32 sockets.
pub same_id-eq :
    (old new : NodeInfo)
    → IsEarlier old new
    → IsCounted new
    → count new < 2 ^ 32
    → old.info_id ≡ new.info_id
    → old ≡ new
same_id-eq old new e c few same =
    same_count-eq old new e c (omega (arith, e.counted, c, same, few, IsEarlier-count old new e))

-- A registration counts the id up with the sockets.
pub register-IsCounted :
    (r : Registration) (m : NodeInfoManager)
    → IsCounted m.local_node_info
    → IsCounted (register r m).local_node_info
unfolding register register_local_topic register_local_service
register-IsCounted (topic name port) m c = omega (
  arith,
  c,
  length-append m.local_node_info.topics
      (record { name = name; ip = m.local_node_info.ip; port = port } ∷ []),
)
register-IsCounted (service name port) m c = omega (
  arith,
  c,
  length-append m.local_node_info.services
      (record { name = name; ip = m.local_node_info.ip; port = port } ∷ []),
)

pub register-IsEarlier :
    (r : Registration) (m : NodeInfoManager)
    → IsCounted m.local_node_info
    → IsEarlier m.local_node_info (register r m).local_node_info
unfolding register register_local_topic register_local_service
register-IsEarlier (topic name port) m c = record {
  node_id = refl;
  name = refl;
  ip = refl;
  topics = (record { name = name; ip = m.local_node_info.ip; port = port } ∷ [], refl);
  services = Prefix-refl m.local_node_info.services;
  counted = c;
}
register-IsEarlier (service name port) m c = record {
  node_id = refl;
  name = refl;
  ip = refl;
  topics = Prefix-refl m.local_node_info.topics;
  services = (record { name = name; ip = m.local_node_info.ip; port = port } ∷ [], refl);
  counted = c;
}
