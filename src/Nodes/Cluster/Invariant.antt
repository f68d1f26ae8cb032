-- ===== src/Nodes/Cluster/Invariant.antt =====
-- What holds of a cluster whatever its nodes do: what a node has stored of another is what that one
-- once told of itself, and never gets older.
use zero_lan_com.Base.{some, ◌≡◌, refl, sym, subst, ◌∙◌, inl, inr, Bool-cases}
use zero_lan_com.Base.Text.{Str, str_eq, str_eq_iff}
use zero_lan_com.Base.Map.{find}
use zero_lan_com.Nodes.NodeInfo.{NodeInfo}
use zero_lan_com.Nodes.NodeInfoManager.{init}
use zero_lan_com.Nodes.NodeInfoManager.Consistency.{IsConsistent, init-IsConsistent}
use zero_lan_com.Nodes.Cluster.{
  Cluster, Node, own, set_node, start, Step, acts, sends, Steps, here, next,
}
use zero_lan_com.Nodes.Cluster.Earlier.{IsCounted, IsEarlier, IsEarlier-refl, IsEarlier-trans}
use zero_lan_com.Nodes.Cluster.Outcome.{Inv, Outcome, Held, stored, still, Act-Outcome}

Held-unique :
    (n : Node) (j : Str) (info other : NodeInfo) → Held n j info → Held n j other → info ≡ other
Held-unique n j info other (h, p, e) (g, q, f) = cc

-- What holds of node `k` as it is now, and of the others as they were.
pub set_node-each :
    (c : Cluster) (k : Str) (n : Node) (P : Str → Node → Type 0)
    → P k n
    → ((j : Str) → P j (c.nodes j))
    → (j : Str) → P j ((set_node k n c).nodes j)
set_node-each c k n P changed others j = elim (Bool-cases (str_eq k j)) [
  | inl same ↦ rw same (subst (λ i. P i n) ((str_eq_iff k j).0 same) changed)
  | inr other ↦ rw other (others j)
]

module _ (c : Cluster) (k : Str) (n : Node) (inv : Inv c) (o : Outcome c k n) where
  abbrev after : Cluster
  after = set_node k n c

  pub later : (j : Str) → IsEarlier (own c j) (own after j) × IsCounted (own after j)
  later =
      set_node-each c k n
        (λ j m. IsEarlier (own c j) m.table.local_node_info × IsCounted m.table.local_node_info)
        o.later (λ j. still c j inv)

  -- What node `k` has stored, and what its receiver holds.
  stored-IsEarlier : (j : Str) (info : NodeInfo) → stored n j ≡ some info → IsEarlier info (own c j)
  stored-IsEarlier j info e = elim (o.origin j info e) [
    | inl before ↦ inv.knows k j info before
    | inr held ↦ (inv.fetches k j info held).0
  ]

  held-IsEarlier :
      (j : Str) (info : NodeInfo)
      → Held n j info
      → IsEarlier info (own c j) × ((old : NodeInfo) → stored n j ≡ some old → IsEarlier old info)
  held-IsEarlier j info h = elim (o.answer j info h) [
    | inl before ↦
        let (earlier, newer) = inv.fetches k j info before in
        (
          earlier,
          λ old e. elim (o.origin j old e) [
            | inl kept ↦ newer old kept
            | inr held ↦
                let same : info ≡ old = Held-unique (c.nodes k) j info old before held in
                subst (IsEarlier old) (sym same)
                  (IsEarlier-refl old (inv.fetches k j old held).0.counted)
          ],
        )
    | inr present ↦
        subst
          (λ i.
            IsEarlier i (own c j) × ((old : NodeInfo) → stored n j ≡ some old → IsEarlier old i))
          present (IsEarlier-refl (own c j) (inv.counted j), stored-IsEarlier j)
  ]

  Outcome-Inv : Inv after
  Outcome-Inv = record {
    id = λ j. sym (later j).0.node_id ∙ inv.id j;
    counted = λ j. (later j).1;
    consistent = set_node-each c k n (λ j m. IsConsistent m.table) o.consistent inv.consistent;
    knows = λ i j info e.
        IsEarlier-trans info (own c j) (own after j)
          (set_node-each c k n
            (λ i m. (j : Str) (info : NodeInfo) → stored m j ≡ some info → IsEarlier info (own c j))
            stored-IsEarlier inv.knows i j info e)
          (later j).0;
    fetches = λ i j info h.
        let (earlier, newer) =
          set_node-each c k n
            (λ i m.
              (j : Str) (info : NodeInfo)
              → Held m j info
              → IsEarlier info (own c j)
                × ((old : NodeInfo) → stored m j ≡ some old → IsEarlier old info))
            held-IsEarlier inv.fetches i j info h in
        (IsEarlier-trans info (own c j) (own after j) earlier (later j).0, newer);
  }

pub Step-Inv : (c d : Cluster) → Step c d → Inv c → Inv d
Step-Inv c _ (acts _ k n act) inv = Outcome-Inv c k n inv (Act-Outcome c k inv n act)
Step-Inv c _ (sends _ k) inv = record {
  id = inv.id;
  counted = inv.counted;
  consistent = inv.consistent;
  knows = inv.knows;
  fetches = inv.fetches;
}

pub start-Inv : (name ip : Str → Str) → Inv (start name ip)
unfolding start init find
start-Inv name ip = record {
  id = λ k. refl;
  counted = λ k. refl;
  consistent = λ k. init-IsConsistent k (name k) (ip k);
  knows = λ k j info e. cc;
  fetches = λ k j info (h, p, e). cc;
}

pub Steps-Inv : (c d : Cluster) → Steps c d → Inv c → Inv d
Steps-Inv c _ here inv = inv
Steps-Inv c d (next {d = e} r s) inv = Step-Inv e d s (Steps-Inv c e r inv)

-- What a node tells only grows.
Step-later : (c d : Cluster) → Step c d → Inv c → (j : Str) → IsEarlier (own c j) (own d j)
Step-later c _ (acts _ k n act) inv j = (later c k n inv (Act-Outcome c k inv n act) j).0
Step-later c _ (sends _ k) inv j = (still c j inv).0

pub Steps-later : (c d : Cluster) → Steps c d → Inv c → (j : Str) → IsEarlier (own c j) (own d j)
Steps-later c _ here inv j = (still c j inv).0
Steps-later c d (next {d = e} r s) inv j =
    IsEarlier-trans (own c j) (own e j) (own d j) (Steps-later c e r inv j)
      (Step-later e d s (Steps-Inv c e r inv) j)
