-- ===== src/Nodes/Cluster/Outcome.antt =====
-- What each act of a node may come to, in a cluster where what a node has stored of another is what
-- that one once told of itself.
use zero_lan_com.Base.{
  inl, inr, ◌⊎◌, ap, sym, ◌∙◌, Bool-cases, ℕ, List, Option, none, some, if◌then◌else◌, ◌≡◌, sym, ap,
  subst, arith,
}
use zero_lan_com.Base.Text.{Str, str_eq, str_eq_iff}
use zero_lan_com.Base.Map.{find, find-insert, find-erase}
use zero_lan_com.Base.Map.Unique.{find-erase_all, keys_where}
use zero_lan_com.Nodes.NodeInfo.{NodeInfo}
use zero_lan_com.Nodes.Heartbeat.{HeartbeatMessage}
use zero_lan_com.Nodes.NodeInfoManager.{
  NodeInfoManager, mark_heartbeat, store_fetched, check_heartbeats, remove_node,
  get_local_node_info, is_stale, register_local_topic, register_local_service,
}
use zero_lan_com.Nodes.NodeInfoManager.Refetch.{Registration, topic, service, register}
use zero_lan_com.Nodes.NodeInfoManager.Consistency.{
  IsConsistent, run_section-IsConsistent, remove_stale-nodes,
}
use zero_lan_com.Nodes.NodeInfoManager.Sections.{Section, run_section}
use zero_lan_com.Nodes.NodeInfoManager.Sections
use zero_lan_com.Nodes.Cluster.{
  Cluster, Node, Phase, waiting, fetching, fetched, own, Act, registers, hears, answered, failed,
  stores, checks, removes,
}
use zero_lan_com.Nodes.Cluster.Earlier.{
  IsCounted, IsEarlier, IsEarlier-refl, register-IsCounted, register-IsEarlier,
}

-- What a node has stored under a key.
abbrev pub stored : Node → Str → Option NodeInfo
stored n j = find j n.table.nodes_info

-- The receiver holds the answer to a fetch for this key.
abbrev pub Held : Node → Str → NodeInfo → Type 0
Held n j info = (h : HeartbeatMessage) × (n.phase ≡ fetched h (some info)) × (h.node_id ≡ j)

pub record Inv (c : Cluster) : Type 0 where
  pub id : (k : Str) → (own c k).node_id ≡ k
  pub counted : (k : Str) → IsCounted (own c k)
  pub consistent : (k : Str) → IsConsistent (c.nodes k).table
  pub knows :
      (k j : Str) (info : NodeInfo) → stored (c.nodes k) j ≡ some info → IsEarlier info (own c j)
  -- an answer is no older than the info that it will replace
  pub fetches :
      (k j : Str) (info : NodeInfo)
      → Held (c.nodes k) j info
      → IsEarlier info (own c j)
        × ((old : NodeInfo) → stored (c.nodes k) j ≡ some old → IsEarlier old info)

-- What an act of node `k` may come to: an info that it has stored was there before or is the answer
-- that its receiver held, and an answer that the receiver holds was there before or is the present
-- info of the other node.
pub record Outcome (c : Cluster) (k : Str) (n : Node) : Type 0 where
  pub later : IsEarlier (own c k) n.table.local_node_info × IsCounted n.table.local_node_info
  pub consistent : IsConsistent n.table
  pub origin :
      (j : Str) (info : NodeInfo)
      → stored n j ≡ some info
      → (stored (c.nodes k) j ≡ some info) ⊎ Held (c.nodes k) j info
  pub answer :
      (j : Str) (info : NodeInfo) → Held n j info → Held (c.nodes k) j info ⊎ (own c j ≡ info)

module _ (c : Cluster) (k : Str) (inv : Inv c) where
  -- The local info is as it was.
  pub still : IsEarlier (own c k) (own c k) × IsCounted (own c k)
  still = (IsEarlier-refl (own c k) (inv.counted k), inv.counted k)

  -- No info is added, and the receiver has got no answer.
  quiet-Outcome :
      (n : Node)
      → IsEarlier (own c k) n.table.local_node_info × IsCounted n.table.local_node_info
      → IsConsistent n.table
      → ((j : Str) (info : NodeInfo) → stored n j ≡ some info → stored (c.nodes k) j ≡ some info)
      → ((h : HeartbeatMessage) (info : NodeInfo)
          → n.phase ≡ fetched h (some info)
          → (c.nodes k).phase ≡ fetched h (some info))
      → Outcome c k n
  quiet-Outcome n later consistent kept phase = record {
    later = later;
    consistent = consistent;
    origin = λ j info e. inl (kept j info e);
    answer = λ j info (h, p, e). inl (h, phase h info p, e);
  }

  registered_later :
      (r : Registration)
      → let m = register r (c.nodes k).table in
        IsEarlier (own c k) m.local_node_info × IsCounted m.local_node_info
  registered_later r = (
    register-IsEarlier r (c.nodes k).table (inv.counted k),
    register-IsCounted r (c.nodes k).table (inv.counted k),
  )

  registers-Outcome :
      (r : Registration) → Outcome c k (record (c.nodes k) { table = register r (c.nodes k).table })
  unfolding register register_local_topic register_local_service run_section
  registers-Outcome (topic name port) =
      quiet-Outcome _ (registered_later (topic name port))
        (run_section-IsConsistent (Sections.topic name port) (c.nodes k).table (inv.consistent k))
        (λ j info e. e) (λ g info e. e)
  registers-Outcome (service name port) =
      quiet-Outcome _ (registered_later (service name port))
        (run_section-IsConsistent (Sections.service name port) (c.nodes k).table (inv.consistent k))
        (λ j info e. e) (λ g info e. e)

  mark-quiet :
      (h : HeartbeatMessage) (now : ℕ) (phase : Phase)
      → ((g : HeartbeatMessage) (info : NodeInfo)
          → phase ≡ fetched g (some info)
          → (c.nodes k).phase ≡ fetched g (some info))
      → Outcome c k (record { table = (mark_heartbeat h now (c.nodes k).table).0; phase = phase })
  unfolding mark_heartbeat run_section
  mark-quiet h now phase same =
      quiet-Outcome _ still
        (run_section-IsConsistent (Sections.mark h now) (c.nodes k).table (inv.consistent k))
        (λ j info e. e) same

  stores-Outcome :
      (h : HeartbeatMessage) (info : Option NodeInfo) (now : ℕ)
      → (c.nodes k).phase ≡ fetched h info
      → Outcome c k
          (record { table = (store_fetched h info now (c.nodes k).table).0; phase = waiting })
  unfolding store_fetched run_section
  stores-Outcome h none now p =
      quiet-Outcome _ still (inv.consistent k) (λ j info e. e) (λ g info e. cc)
  stores-Outcome h (some info) now p = record {
    later = still;
    consistent =
        run_section-IsConsistent (Sections.store h (some info) now) (c.nodes k).table
          (inv.consistent k);
    origin = λ j new e. elim (Bool-cases (str_eq h.node_id j)) [
      | inl same ↦ inr (
        h,
        p
            ∙ ap (λ i. fetched h (some i))
                (ground (arith, find-insert h.node_id j info (c.nodes k).table.nodes_info)),
        (str_eq_iff h.node_id j).0 same,
      )
      | inr other ↦ inl (ground (arith, find-insert h.node_id j info (c.nodes k).table.nodes_info))
    ];
    answer = λ j new (g, q, e). cc;
  }

  checks-Outcome :
      (now : ℕ)
      → Outcome c k (record (c.nodes k) { table = (check_heartbeats now (c.nodes k).table).0 })
  unfolding check_heartbeats run_section
  checks-Outcome now =
      let ks : List Str = keys_where (is_stale now) (c.nodes k).table.nodes_heartbeat in
      quiet-Outcome _
        (subst
          (λ (m : NodeInfoManager).
            IsEarlier (own c k) m.local_node_info × IsCounted m.local_node_info)
          (sym (remove_stale-nodes ks (c.nodes k).table)) still)
        (run_section-IsConsistent (Sections.check now) (c.nodes k).table (inv.consistent k))
        (λ j info e.
          let left =
            subst (λ (m : NodeInfoManager). find j m.nodes_info ≡ some info)
              (remove_stale-nodes ks (c.nodes k).table) e in
          ground (arith, find-erase_all ks j (c.nodes k).table.nodes_info))
        (λ g info e. e)

  removes-Outcome :
      (node_id : Str)
      → Outcome c k (record (c.nodes k) { table = remove_node node_id (c.nodes k).table })
  unfolding remove_node run_section
  removes-Outcome node_id =
      quiet-Outcome _ still
        (run_section-IsConsistent (Sections.remove node_id) (c.nodes k).table (inv.consistent k))
        (λ j info e. ground (arith, find-erase node_id j (c.nodes k).table.nodes_info))
        (λ g info e. e)

  pub Act-Outcome : (n : Node) → Act c k n → Outcome c k n
  unfolding get_local_node_info
  Act-Outcome _ (registers r) = registers-Outcome r
  Act-Outcome _ (hears h now marked verdict p sent other e) =
      subst
        (λ m.
          Outcome c k
            (record { table = m; phase = if verdict.needs_fetch then fetching h else waiting }))
        (ap (λ r. r.0) e)
        (mark-quiet h now (if verdict.needs_fetch then fetching h else waiting)
          (λ g info f. ground arith))
  Act-Outcome _ (answered h p) = record {
    later = still;
    consistent = inv.consistent k;
    origin = λ j info e. inl e;
    answer = λ j info (g, q, e).
        let message : h ≡ g = cc in
        inr (ap (own c) (sym e ∙ ap (λ (m : HeartbeatMessage). m.node_id) (sym message)) ∙ cc);
  }
  Act-Outcome _ (failed h p) =
      quiet-Outcome _ still (inv.consistent k) (λ j info e. e) (λ g info e. cc)
  Act-Outcome _ (stores h info now p) = stores-Outcome h info now p
  Act-Outcome _ (checks now) = checks-Outcome now
  Act-Outcome _ (removes node_id) = removes-Outcome node_id
