-- ===== src/Nodes/NodeInfoManager/Throwing.antt =====
-- `checkHeartbeats` of src/nodes/node_info_manager.cpp where a subscriber of `node_remove_event`
-- throws: the exception leaves the loop between the trigger and the erasures.
use zero_lan_com.Base.{ℕ, List, [], ◌∷◌, ◌++◌, ◌≡◌, refl, ap}
use zero_lan_com.Base.Text.{Str}
use zero_lan_com.Base.Map.Unique.{keys_where}
use zero_lan_com.Base.Result.{Result, ok, err}
use zero_lan_com.Nodes.NodeInfo.{NodeInfo}
use zero_lan_com.Nodes.NodeInfoManager.{
  NodeInfoManager, subscript, remove_node, remove_stale, is_stale,
}

-- `nodes_info_[nodeID]` for the argument of the trigger.
unfoldable pub with_entry : Str → NodeInfoManager → NodeInfoManager
with_entry k m = record m { nodes_info = (subscript k m.nodes_info).1 }

module _ {W : Type 0} (notify : NodeInfo → W → Result (Unit {0}) × W) where
  -- `notify` is what `node_remove_event.trigger` comes to.
  unfoldable pub remove_stale_calling :
      List Str → NodeInfoManager → W → Result (Unit {0}) × NodeInfoManager × W
  unfolding with_entry
  remove_stale_calling [] m w = (ok tt, m, w)
  remove_stale_calling (k ∷ ks) m w =
      let (result, w') = notify (subscript k m.nodes_info).0 w in
      let rest = remove_stale_calling ks (remove_node k (with_entry k m)) w' in
      elim result [ ok done ↦ rest | err thrown ↦ (err thrown, with_entry k m, w') ]

  unfoldable pub check_heartbeats_calling :
      ℕ → NodeInfoManager → W → Result (Unit {0}) × NodeInfoManager × W
  check_heartbeats_calling now m w =
      remove_stale_calling (keys_where (is_stale now) m.nodes_heartbeat) m w

  -- The subscribers were told of these nodes one after another, with what the table has of each or an
  -- empty info, and none of them threw.
  abbrev pub AllNotified : List Str → NodeInfoManager → W → W → Type 0
  AllNotified [] m w w' = w ≡ w'
  AllNotified (k ∷ ks) m w w' =
      (v : W) × (notify (subscript k m.nodes_info).0 w ≡ (ok tt, v))
      × AllNotified ks (remove_stale (k ∷ []) m).0 v w'

  -- Nothing was thrown and all these nodes are removed; or at one of them a subscriber threw, and
  -- that is what the check throws: those before it are removed, it has an entry and is not removed,
  -- and those behind it are not looked at.
  abbrev pub Removed :
      List Str → NodeInfoManager → W → Result (Unit {0}) × NodeInfoManager × W → Type 0
  Removed ks m w (ok done, m', w') = AllNotified ks m w w' × (m' ≡ (remove_stale ks m).0)
  Removed ks m w (err thrown, m', w') =
      (before : List Str) × (k : Str) × (after : List Str) × (ks ≡ before ++ k ∷ after)
      × ((v : W) × AllNotified before m w v
          × (notify (subscript k (remove_stale before m).0.nodes_info).0 v ≡ (err thrown, w')))
      × (m' ≡ with_entry k (remove_stale before m).0)

  Removed-cons :
      (k : Str) (ks : List Str) (m : NodeInfoManager) (w v : W)
      (r : Result (Unit {0}) × NodeInfoManager × W)
      → notify (subscript k m.nodes_info).0 w ≡ (ok tt, v)
      → Removed ks (remove_node k (with_entry k m)) v r
      → Removed (k ∷ ks) m w r
  unfolding remove_stale with_entry
  Removed-cons k ks m w v (ok done, m', w') told h = ((v, told, h.0), h.1)
  Removed-cons k ks m w v (err thrown, m', w') told (before, j, after, split, (u, all, threw), e) =
      (k ∷ before, j, after, ap (◌∷◌ k) split, (u, (v, told, all), threw), e)

  Removed-first :
      (k : Str) (ks : List Str) (m : NodeInfoManager) (w : W)
      (rest : W → Result (Unit {0}) × NodeInfoManager × W) (r : Result (Unit {0}) × W)
      → notify (subscript k m.nodes_info).0 w ≡ r
      → ((v : W) → Removed ks (remove_node k (with_entry k m)) v (rest v))
      → Removed
          (k ∷ ks)
          m
          w
          (elim r.0 [ ok done ↦ rest r.1 | err thrown ↦ (err thrown, with_entry k m, r.1) ])
  unfolding remove_stale
  Removed-first k ks m w rest (ok done, v) told later =
      Removed-cons k ks m w v (rest v) told (later v)
  Removed-first k ks m w rest (err thrown, v) told later = ([], k, ks, refl, (w, refl, told), refl)

  remove_stale_calling-Removed :
      (ks : List Str) (m : NodeInfoManager) (w : W) → Removed ks m w (remove_stale_calling ks m w)
  unfolding remove_stale_calling remove_stale
  remove_stale_calling-Removed [] m w = (refl, refl)
  remove_stale_calling-Removed (k ∷ ks) m w =
      Removed-first k ks m w (remove_stale_calling ks (remove_node k (with_entry k m)))
        (notify (subscript k m.nodes_info).0 w) refl
        (remove_stale_calling-Removed ks (remove_node k (with_entry k m)))

  -- A check either tells the subscribers of all silent nodes and drops them, if nobody throws; or it
  -- throws what a subscriber throws at one of them: then the silent nodes before it have been told of
  -- and dropped, this one stays in the table, with an empty entry if it had none, and so do all the
  -- silent nodes behind it, of which nobody is told.
  pub check_heartbeats_calling-Removed :
      (now : ℕ) (m : NodeInfoManager) (w : W)
      → Removed (keys_where (is_stale now) m.nodes_heartbeat) m w (check_heartbeats_calling now m w)
  unfolding check_heartbeats_calling
  check_heartbeats_calling-Removed now m w =
      remove_stale_calling-Removed (keys_where (is_stale now) m.nodes_heartbeat) m w
