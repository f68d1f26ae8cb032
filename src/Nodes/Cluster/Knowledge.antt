-- ===== src/Nodes/Cluster/Knowledge.antt =====
-- What the nodes of a cluster know of each other, at any time and whatever they did before.
use zero_lan_com.Base.{
  ℕ, ◌^◌, ◌<◌, Option, none, some, Bool, true, false, not, ◌==◌, ◌≡◌, ◌↔◌, refl, sym, ap, subst,
  ◌∙◌, arith, inl, inr, Option-cases,
}
use zero_lan_com.Base.Text.{Str}
use zero_lan_com.Base.Int.{to_u32, to_u32-of_u32}
use zero_lan_com.Nodes.NodeInfo.{NodeInfo}
use zero_lan_com.Nodes.NodeInfoManager.{create_heartbeat, mark_heartbeat}
use zero_lan_com.Nodes.NodeInfoManager.Refetch.{needs_fetch-eq}
use zero_lan_com.Nodes.Cluster.{
  Cluster, Node, own, set_node, start, Step, acts, sends, Steps, here, next,
}
use zero_lan_com.Nodes.Cluster.Earlier.{
  IsEarlier, IsEarlier-refl, IsEarlier-trans, count, same_id-eq,
}
use zero_lan_com.Nodes.Cluster.Outcome.{Inv, Outcome, Held, stored, Act-Outcome}
use zero_lan_com.Nodes.Cluster.Invariant.{set_node-each, later, start-Inv, Steps-Inv}

-- Whatever the nodes of a group have done, and whichever datagrams were lost, repeated or overtaken:
-- what a node has stored of another is what that one once told of itself, so the node exists under
-- this id, name and address, and the topics and services are among those that it has registered, in
-- the order of their registration. Fetches are answered by the node that the heartbeat names.
pub stored_once_told :
    (name ip : Str → Str) (c : Cluster)
    → Steps (start name ip) c
    → (k j : Str) (info : NodeInfo) → stored (c.nodes k) j ≡ some info
    → IsEarlier info (own c j)
stored_once_told name ip c r = (Steps-Inv (start name ip) c r (start-Inv name ip)).knows

module _ (k j : Str) (old : NodeInfo) where
  -- All that node `k` has or is about to have of node `j` is as new as `old`.
  record IsPassed (c : Cluster) : Type 0 where
    told : IsEarlier old (own c j)
    kept : (new : NodeInfo) → stored (c.nodes k) j ≡ some new → IsEarlier old new
    coming : (new : NodeInfo) → Held (c.nodes k) j new → IsEarlier old new

  stored-IsPassed : (c : Cluster) → Inv c → stored (c.nodes k) j ≡ some old → IsPassed c
  stored-IsPassed c inv e = record {
    told = inv.knows k j old e;
    kept = λ new f.
        let same : old ≡ new = cc in
        subst (IsEarlier old) same (IsEarlier-refl old (inv.knows k j old e).counted);
    coming = λ new h. (inv.fetches k j new h).1 old e;
  }

  module _ (c : Cluster) (i : Str) (n : Node) (inv : Inv c) (o : Outcome c i n)
      (passed : IsPassed c) where
    abbrev Passes : Str → Node → Type 0
    Passes l m =
        l ≡ k
        → ((new : NodeInfo) → stored m j ≡ some new → IsEarlier old new)
          × ((new : NodeInfo) → Held m j new → IsEarlier old new)

    before-Passes : (l : Str) → Passes l (c.nodes l)
    before-Passes l e =
        subst
          (λ x.
            ((new : NodeInfo) → stored (c.nodes x) j ≡ some new → IsEarlier old new)
            × ((new : NodeInfo) → Held (c.nodes x) j new → IsEarlier old new))
          (sym e) (passed.kept, passed.coming)

    after-Passes : Passes i n
    after-Passes e = (
      λ new f. elim (o.origin j new f) [
        | inl before ↦ (before-Passes i e).0 new before
        | inr held ↦ (before-Passes i e).1 new held
      ],
      λ new h. elim (o.answer j new h) [
        | inl before ↦ (before-Passes i e).1 new before
        | inr present ↦ subst (IsEarlier old) present passed.told
      ],
    )

    Outcome-IsPassed : IsPassed (set_node i n c)
    Outcome-IsPassed =
        let (kept, coming) = set_node-each c i n Passes after-Passes before-Passes k refl in
        record {
          told =
              IsEarlier-trans old (own c j) (own (set_node i n c) j) passed.told
                (later c i n inv o j).0;
          kept = kept;
          coming = coming;
        }

  Step-IsPassed : (c d : Cluster) → Step c d → Inv c → IsPassed c → IsPassed d
  Step-IsPassed c _ (acts _ i n act) inv passed =
      Outcome-IsPassed c i n inv (Act-Outcome c i inv n act) passed
  Step-IsPassed c _ (sends _ i) inv passed = record {
    told = passed.told;
    kept = passed.kept;
    coming = passed.coming;
  }

  Steps-IsPassed : (c d : Cluster) → Steps c d → Inv c → IsPassed c → IsPassed d
  Steps-IsPassed c _ here inv passed = passed
  Steps-IsPassed c d (next {d = e} r s) inv passed =
      Step-IsPassed e d s (Steps-Inv c e r inv) (Steps-IsPassed c e r inv passed)

-- What a node knows of another never gets older, also when it forgets it and learns it anew, and
-- whatever order heartbeats arrive in.
pub stored_no_older :
    (name ip : Str → Str) (c d : Cluster)
    → Steps (start name ip) c
    → Steps c d
    → (k j : Str) (old new : NodeInfo) → stored (c.nodes k) j ≡ some old
    → stored (d.nodes k) j ≡ some new
    → IsEarlier old new
stored_no_older name ip c d r s k j old new e f =
    let inv = Steps-Inv (start name ip) c r (start-Inv name ip) in
    (Steps-IsPassed k j old c d s inv (stored-IsPassed k j old c inv e)).kept new f

-- There is no info, or one with another id.
abbrev differs : Option NodeInfo → ℕ → Bool
differs info id = elim info [ none ↦ true | some info ↦ not (info.info_id == id) ]

module _ (c : Cluster) (k j : Str) (now : ℕ) (inv : Inv c) where
  abbrev pub verdict : Bool
  verdict =
      (mark_heartbeat (create_heartbeat (c.nodes j).table) now (c.nodes k).table).1.needs_fetch

  heard_id : to_u32 (create_heartbeat (c.nodes j).table).info_id ≡ (own c j).info_id
  unfolding create_heartbeat
  heard_id = to_u32-of_u32 (own c j).info_id (omega (arith, inv.counted j))

  pub heard_node : (create_heartbeat (c.nodes j).table).node_id ≡ j
  unfolding create_heartbeat
  heard_node = inv.id j

  verdict-eq : verdict ≡ differs (stored (c.nodes k) j) (own c j).info_id
  verdict-eq =
      needs_fetch-eq (create_heartbeat (c.nodes j).table) now (c.nodes k).table (inv.consistent k)
      ∙ ap
          (λ x.
            differs (stored (c.nodes k) x) (to_u32 (create_heartbeat (c.nodes j).table).info_id))
          heard_node
      ∙ ap (differs (stored (c.nodes k) j)) heard_id

  pub verdict-current :
      count (own c j) < 2 ^ 32 → (verdict ≡ false) ↔ (stored (c.nodes k) j ≡ some (own c j))
  verdict-current few = elim (Option-cases (stored (c.nodes k) j)) [
    | inl missing ↦ (λ e. ground (arith, verdict-eq), λ e. ground (arith, verdict-eq))
    | inr (info, known) ↦ (
      λ e.
          let same : info.info_id ≡ (own c j).info_id = ground (arith, verdict-eq) in
          known
          ∙ ap some (same_id-eq info (own c j) (inv.knows k j info known) (inv.counted j) few same),
      λ e. ground (arith, verdict-eq),
    )
  ]

-- At any time the present heartbeat of a node makes another one fetch exactly when that one has not
-- the present info of the node: the id alone tells whether what it has is up to date. The node has
-- registered fewer than 2 ^ 32 topics and services.
pub needs_fetch-current :
    (name ip : Str → Str) (c : Cluster)
    → Steps (start name ip) c
    → (k j : Str) (now : ℕ) → count (own c j) < 2 ^ 32
    → ((mark_heartbeat (create_heartbeat (c.nodes j).table) now (c.nodes k).table).1.needs_fetch
        ≡ false)
      ↔ (stored (c.nodes k) j ≡ some (own c j))
needs_fetch-current name ip c r k j now few =
    verdict-current c k j now (Steps-Inv (start name ip) c r (start-Inv name ip)) few
