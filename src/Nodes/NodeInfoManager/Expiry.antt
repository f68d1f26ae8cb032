-- ===== src/Nodes/NodeInfoManager/Expiry.antt =====
-- What `checkHeartbeats` removes, and what it tells the subscribers of `node_remove_event`.
use zero_lan_com.Base.{
  ℕ, ◌+◌, List, [], ◌∷◌, none, some, false, ◌≡◌, refl, ap, ◌∙◌, arith, leb, map, if◌then◌else◌,
}
use mathlib.Core.Path.{ap₂}
use zero_lan_com.Base.Text.{Str, str_eq_iff}
use zero_lan_com.Base.Map.{find, find-erase}
use zero_lan_com.Base.Map.Unique.{
  find-erase_all, contains, keys_where, passes, contains-keys_where, Distinct, keys_where-Distinct,
}
use zero_lan_com.Nodes.NodeInfo.{NodeInfo, empty_node_info}
use zero_lan_com.Nodes.NodeInfoManager.{
  NodeInfoManager, check_heartbeats, remove_stale, remove_node, subscript, is_stale,
}
use zero_lan_com.Nodes.NodeInfoManager.Consistency.{
  IsConsistent, remove_stale-nodes, remove-subscript,
}

is_stale-eq : (now last : ℕ) → is_stale now last ≡ leb (last + 3_000_000_000) now
unfolding is_stale
is_stale-eq now last = ground arith

module _ (now last : ℕ) (k : Str) (m : NodeInfoManager) (c : IsConsistent m) where
  abbrev stale_keys : List Str
  stale_keys = keys_where (is_stale now) m.nodes_heartbeat

  gone-eq :
      find k m.nodes_heartbeat ≡ some last → contains k stale_keys ≡ leb (last + 3_000_000_000) now
  gone-eq e =
      contains-keys_where (is_stale now) k m.nodes_heartbeat c.unique_beats
      ∙ ap (passes (is_stale now)) e
      ∙ is_stale-eq now last

  -- `checkHeartbeats` drops a node that has been heard from every table exactly when that was three
  -- seconds ago or longer, and leaves it as it was otherwise, if the tables agree.
  pub check_heartbeats-find :
      find k m.nodes_heartbeat ≡ some last
      → let gone = leb (last + 3_000_000_000) now in
        let m' = (check_heartbeats now m).0 in
        (find k m'.nodes_info ≡ (if gone then none else find k m.nodes_info))
        × (find k m'.nodes_info_id ≡ (if gone then none else find k m.nodes_info_id))
        × (find k m'.nodes_heartbeat ≡ (if gone then none else some last))
  unfolding check_heartbeats
  check_heartbeats-find e = rw (remove_stale-nodes stale_keys m) (
    find-erase_all stale_keys k m.nodes_info
        ∙ ap (λ b. if b then none else find k m.nodes_info) (gone-eq e),
    find-erase_all stale_keys k m.nodes_info_id
        ∙ ap (λ b. if b then none else find k m.nodes_info_id) (gone-eq e),
    find-erase_all stale_keys k m.nodes_heartbeat ∙ (λ i. if gone-eq e i then none else e i),
  )

-- What the subscribers are told of a node that is removed: its info, or an empty one where it never
-- had any.
unfoldable pub notice : NodeInfoManager → Str → NodeInfo
notice m k = elim (find k m.nodes_info) [ none ↦ empty_node_info | some info ↦ info ]

map-notice :
    (k : Str) (ks : List Str) (m : NodeInfoManager)
    → contains k ks ≡ false
    → map (notice (remove_node k m)) ks ≡ map (notice m) ks
unfolding contains remove_node notice
map-notice k [] m h = refl
map-notice k (j ∷ ks) m h =
    ground (arith, str_eq_iff j k, str_eq_iff k j, find-erase k j m.nodes_info, map-notice k ks m)

subscript-notice : (k : Str) (m : NodeInfoManager) → (subscript k m.nodes_info).0 ≡ notice m k
unfolding subscript notice
subscript-notice k m = ground arith

remove_stale-notices :
    (ks : List Str) (m : NodeInfoManager) → Distinct ks → (remove_stale ks m).1 ≡ map (notice m) ks
unfolding remove_stale
remove_stale-notices [] m d = refl
remove_stale-notices (k ∷ ks) m d = ap₂ ◌∷◌ (subscript-notice k m) (
    ap (λ q. (remove_stale ks q).1) (remove-subscript k m)
    ∙ remove_stale-notices ks (remove_node k m) d.1
    ∙ map-notice k ks m d.0)

-- `node_remove_event` is triggered once for each silent node, in the order of iteration, with what
-- was known of the node; also for a node that only ever sent heartbeats. The tables agree.
pub check_heartbeats-notices :
    (now : ℕ) (m : NodeInfoManager)
    → IsConsistent m
    → (check_heartbeats now m).1 ≡ map (notice m) (keys_where (is_stale now) m.nodes_heartbeat)
unfolding check_heartbeats
check_heartbeats-notices now m c =
    remove_stale-notices (keys_where (is_stale now) m.nodes_heartbeat) m
      (keys_where-Distinct (is_stale now) m.nodes_heartbeat c.unique_beats)
