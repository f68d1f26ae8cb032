-- ===== src/Nodes/NodeInfoManager/Refetch.antt =====
-- How a change on one node reaches another: the id in the heartbeat, and the fetch that follows.
use zero_lan_com.Base.{
  ℕ, ◌+◌, ◌%◌, ◌^◌, ◌<◌, List, [], ◌∷◌, Option, none, some, true, false, not, ◌==◌, ==_iff, length,
  ◌≡◌, refl, ap, sym, subst, ◌∙◌, ◌⊎◌, inl, inr, arith, Bool-cases, nil_of_length,
}
use zero_lan_com.Base.Text.{Str, str_eq_refl}
use zero_lan_com.Base.Int.{ℤ, IsU32, to_u32, to_u32-of_u32}
use zero_lan_com.Base.Map.{find, find-insert}
use zero_lan_com.Nodes.NodeInfo.{NodeInfo}
use zero_lan_com.Nodes.Heartbeat.{HeartbeatMessage}
use zero_lan_com.Nodes.NodeInfoManager.{
  NodeInfoManager, mark_heartbeat, store_fetched, process_heartbeat, create_heartbeat,
  register_local_topic, register_local_service,
}
use zero_lan_com.Nodes.NodeInfoManager.Consistency.{IsConsistent}

-- A topic or a service, its name and its port.
pub data Registration : Type 0 where
  topic service : Str → ℕ → Registration

unfoldable pub register : Registration → NodeInfoManager → NodeInfoManager
register (topic name port) m = register_local_topic name port m
register (service name port) m = register_local_service name port m

unfoldable pub registers : List Registration → NodeInfoManager → NodeInfoManager
registers [] m = m
registers (r ∷ rs) m = registers rs (register r m)

register-local :
    (r : Registration) (m : NodeInfoManager)
    → ((register r m).local_node_info.node_id ≡ m.local_node_info.node_id)
      × ((register r m).local_node_info.info_id ≡ (m.local_node_info.info_id + 1) % 2 ^ 32)
unfolding register register_local_topic register_local_service
register-local (topic name port) m = (refl, refl)
register-local (service name port) m = (refl, refl)

-- Each registration counts the id up by one, modulo 2 ^ 32; the node's UUID stays.
pub registers-local :
    (rs : List Registration) (m : NodeInfoManager)
    → IsU32 m.local_node_info.info_id
    → ((registers rs m).local_node_info.node_id ≡ m.local_node_info.node_id)
      × ((registers rs m).local_node_info.info_id
          ≡ (m.local_node_info.info_id + length rs) % 2 ^ 32)
unfolding registers
registers-local [] m h = (refl, omega arith)
registers-local (r ∷ rs) m h =
    let (same, counted) = register-local r m in
    let (same', counted') = registers-local rs (register r m) (omega arith) in
    (same' ∙ same, omega arith)

-- Which heartbeats lead to a fetch: those of a node with no info, or with another id.
pub needs_fetch-eq :
    (heartbeat : HeartbeatMessage) (now : ℕ) (m : NodeInfoManager)
    → IsConsistent m
    → (mark_heartbeat heartbeat now m).1.needs_fetch ≡ elim (find heartbeat.node_id m.nodes_info) [
      | none ↦ true
      | some info ↦ not (info.info_id == to_u32 heartbeat.info_id)
    ]
unfolding mark_heartbeat
needs_fetch-eq heartbeat now m c = ground (arith, c.ids heartbeat.node_id)

abbrev pub id : NodeInfoManager → Str
id a = a.local_node_info.node_id

module _ (a b : NodeInfoManager) (rs : List Registration) (fetch : Str → ℤ → Option NodeInfo)
    (node_ip : Str) (now later : ℕ) where
  abbrev current : NodeInfoManager
  current = registers rs a

  abbrev after : NodeInfoManager × List NodeInfo
  after = process_heartbeat fetch (create_heartbeat current) node_ip now later b

  fetched_info :
      fetch node_ip current.service_port ≡ some current.local_node_info
      → (mark_heartbeat (create_heartbeat current) now b).1.needs_fetch ≡ true
      → find (id current) after.0.nodes_info ≡ some current.local_node_info
  unfolding process_heartbeat create_heartbeat store_fetched
  fetched_info answered needed = rw (needed, answered, find-insert, str_eq_refl)

  kept_info :
      (mark_heartbeat (create_heartbeat current) now b).1.needs_fetch ≡ false
      → find (id current) after.0.nodes_info ≡ find (id current) b.nodes_info
  unfolding process_heartbeat
  kept_info needless = rw needless

  module _ (c : IsConsistent b) (small : IsU32 a.local_node_info.info_id) where
    same_id : id current ≡ id a
    same_id = (registers-local rs a small).0

    current_id :
        to_u32 (create_heartbeat current).info_id ≡ (a.local_node_info.info_id + length rs) % 2 ^ 32
    unfolding create_heartbeat
    current_id =
        to_u32-of_u32 current.local_node_info.info_id
          (omega (arith, (registers-local rs a small).1))
        ∙ (registers-local rs a small).1

    heard_id : (create_heartbeat current).node_id ≡ id a
    unfolding create_heartbeat
    heard_id = same_id

    -- A known id is fetched again unless nothing was registered in between.
    pub needed-eq :
        find (id a) b.nodes_info ≡ some a.local_node_info
        → length rs < 2 ^ 32
        → (mark_heartbeat (create_heartbeat current) now b).1.needs_fetch ≡ not (length rs == 0)
    needed-eq known few =
        needs_fetch-eq (create_heartbeat current) now b c
        ∙ rw (heard_id, known, current_id) (ground arith)

    pub needed_new :
        find (id a) b.nodes_info ≡ none
        → (mark_heartbeat (create_heartbeat current) now b).1.needs_fetch ≡ true
    needed_new unknown = needs_fetch-eq (create_heartbeat current) now b c ∙ rw (heard_id, unknown)

    converges_known :
        find (id a) b.nodes_info ≡ some a.local_node_info
        → length rs < 2 ^ 32
        → fetch node_ip current.service_port ≡ some current.local_node_info
        → find (id a) after.0.nodes_info ≡ some current.local_node_info
    unfolding registers
    converges_known known few answered = elim (Bool-cases (length rs == 0)) [
      | inl unchanged ↦
          let e : rs ≡ [] = nil_of_length rs ((==_iff (length rs) 0).0 unchanged) in
          let same : a.local_node_info ≡ current.local_node_info =
            ap (λ r. (registers r a).local_node_info) (sym e) in
          let needless : (mark_heartbeat (create_heartbeat current) now b).1.needs_fetch ≡ false =
            needed-eq known few ∙ ap not unchanged in
          subst (λ k. find k after.0.nodes_info ≡ find k b.nodes_info) same_id (kept_info needless)
          ∙ known
          ∙ ap some same
      | inr changed ↦
          let needed : (mark_heartbeat (create_heartbeat current) now b).1.needs_fetch ≡ true =
            needed-eq known few ∙ ap not changed in
          subst (λ k. find k after.0.nodes_info ≡ some current.local_node_info) same_id
            (fetched_info answered needed)
    ]

    -- After one heartbeat of `a` and a fetch that `a` answers, `b` has the current info of `a`, if
    -- what it had before was nothing, or what `a` told at some time, fewer than 2 ^ 32
    -- registrations ago. The tables of `b` agree.
    pub process_heartbeat-converges :
        (find (id a) b.nodes_info ≡ none) ⊎ (find (id a) b.nodes_info ≡ some a.local_node_info)
        → length rs < 2 ^ 32
        → fetch node_ip current.service_port ≡ some current.local_node_info
        → find (id a) after.0.nodes_info ≡ some current.local_node_info
    process_heartbeat-converges (inl unknown) few answered =
        subst (λ k. find k after.0.nodes_info ≡ some current.local_node_info) same_id
          (fetched_info answered (needed_new unknown))
    process_heartbeat-converges (inr known) few answered = converges_known known few answered
