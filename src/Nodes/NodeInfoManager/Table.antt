-- ===== src/Nodes/NodeInfoManager/Table.antt =====
-- The specification of the node table: who is known, and when each node was last heard. The three
-- maps, their order and the entries that `operator[]` makes are forgotten.
use zero_lan_com.Base.{
  ℕ, List, [], ◌∷◌, Option, none, some, Bool, ◌≡◌, refl, ap, ◌∙◌, if◌then◌else◌,
}
use zero_lan_com.Base.Text.{Str, str_eq}
use zero_lan_com.Base.Map.{find, find-insert, find-erase}
use zero_lan_com.Base.Map.Unique.{find-erase_all, keys_where, passes, contains-keys_where}
use zero_lan_com.Nodes.NodeInfo.{NodeInfo}
use zero_lan_com.Nodes.NodeInfoManager.{
  NodeInfoManager, remove_node, mark_heartbeat, store_fetched, check_heartbeats, is_stale,
  set_group_name, set_service_port, register_local_topic, register_local_service,
}
use zero_lan_com.Nodes.NodeInfoManager.Sections.{
  Section, mark, store, remove, check, group, port, topic, service, run_section, run_sections,
}
use zero_lan_com.Nodes.NodeInfoManager.Consistency.{
  IsConsistent, remove_stale-nodes, run_section-IsConsistent,
}

pub record Table : Type 0 where
  pub info : Str → Option NodeInfo
  pub heard : Str → Option ℕ

unfoldable pub view : NodeInfoManager → Table
view m = record { info = λ k. find k m.nodes_info; heard = λ k. find k m.nodes_heartbeat }

abbrev put {ℓ} : {V : Type ℓ} → Str → V → (Str → Option V) → Str → Option V
put k v f j = if str_eq k j then some v else f j

abbrev out {ℓ} : {V : Type ℓ} → Str → (Str → Option V) → Str → Option V
out k f j = if str_eq k j then none else f j

-- Silent for three seconds or more.
abbrev silent : ℕ → Table → Str → Bool
silent now t k = passes (is_stale now) (t.heard k)

unfoldable pub table_step : Section → Table → Table
table_step (mark heartbeat now) t = record t { heard = put heartbeat.node_id now t.heard }
table_step (store heartbeat none now) t = t
table_step (store heartbeat (some info) now) t = record {
  info = put heartbeat.node_id info t.info;
  heard = put heartbeat.node_id now t.heard;
}
table_step (remove k) t = record { info = out k t.info; heard = out k t.heard }
table_step (check now) t = record {
  info = λ k. if silent now t k then none else t.info k;
  heard = λ k. if silent now t k then none else t.heard k;
}
table_step (group name) t = t
table_step (port number) t = t
table_step (topic name number) t = t
table_step (service name number) t = t

unfoldable pub table_steps : List Section → Table → Table
table_steps [] t = t
table_steps (s ∷ ss) t = table_steps ss (table_step s t)

check-view :
    (now : ℕ) (m : NodeInfoManager)
    → IsConsistent m
    → view (check_heartbeats now m).0 ≡ table_step (check now) (view m)
unfolding view check_heartbeats table_step
check-view now m c =
    let ks : List Str = keys_where (is_stale now) m.nodes_heartbeat in
    let same = λ (k : Str). contains-keys_where (is_stale now) k m.nodes_heartbeat c.unique_beats in
    ap view (remove_stale-nodes ks m) ∙ λ i. record {
      info = λ k.
          (find-erase_all ks k m.nodes_info
              ∙ ap (λ b. if b then none else find k m.nodes_info) (same k))
            i;
      heard = λ k.
          (find-erase_all ks k m.nodes_heartbeat
              ∙ ap (λ b. if b then none else find k m.nodes_heartbeat) (same k))
            i;
    }

-- Each critical section does to the tables what its specification says.
pub run_section-view :
    (s : Section) (m : NodeInfoManager)
    → IsConsistent m
    → view (run_section s m) ≡ table_step s (view m)
unfolding view run_section table_step mark_heartbeat store_fetched remove_node set_group_name
    set_service_port register_local_topic register_local_service
run_section-view (mark heartbeat now) m c = λ i. record {
  info = λ k. find k m.nodes_info;
  heard = λ k. find-insert heartbeat.node_id k now m.nodes_heartbeat i;
}
run_section-view (store heartbeat none now) m c = refl
run_section-view (store heartbeat (some info) now) m c = λ i. record {
  info = λ k. find-insert heartbeat.node_id k info m.nodes_info i;
  heard = λ k. find-insert heartbeat.node_id k now m.nodes_heartbeat i;
}
run_section-view (remove node_id) m c = λ i. record {
  info = λ k. find-erase node_id k m.nodes_info i;
  heard = λ k. find-erase node_id k m.nodes_heartbeat i;
}
run_section-view (check now) m c = check-view now m c
run_section-view (group name) m c = refl
run_section-view (port number) m c = refl
run_section-view (topic name number) m c = refl
run_section-view (service name number) m c = refl

-- So any sequence of sections, from any consistent state, refines the specification.
pub run_sections-view :
    (ss : List Section) (m : NodeInfoManager)
    → IsConsistent m
    → view (run_sections ss m) ≡ table_steps ss (view m)
unfolding run_sections table_steps
run_sections-view [] m c = refl
run_sections-view (s ∷ ss) m c =
    run_sections-view ss (run_section s m) (run_section-IsConsistent s m c)
    ∙ ap (table_steps ss) (run_section-view s m c)
