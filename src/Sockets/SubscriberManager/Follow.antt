-- ===== src/Sockets/SubscriberManager/Follow.antt =====
-- Subscribers follow the publishers of their topic: what an update connects and a removal takes away.
use zero_lan_com.Base.{
  List, Bool, [], ◌∷◌, not, ◌&&◌, ◌||◌, map, ◌≡◌, refl, ap, sym, subst, ◌∙◌, All,
}
use mathlib.Core.Path.{ap₂}
use zero_lan_com.Base.Text.{Str}
use zero_lan_com.Base.Map.Unique.{contains, Distinct}
use zero_lan_com.Nodes.NodeInfo.{SocketInfo, NodeInfo}
use zero_lan_com.Sockets.SubscriberManager.{
  Subscriber, update_one, remove_one, each_subscriber, each_topic, update_topic_subscriber,
  remove_topic_subscriber,
}
use zero_lan_com.Sockets.SubscriberManager.One.{
  announces, follow, follow_update-contains, follow_update-Distinct, follow_remove-contains,
  IsSynced, update_one-IsSynced, remove_one-IsSynced, follow-IsSynced,
}

module _ {W : Type 0} where
  each_subscriber-map :
      (one : SocketInfo → Subscriber W → Subscriber W) (t : SocketInfo) (subs : List (Subscriber W))
      → (each_subscriber one t subs) ≡ map (λ sub. (one t sub)) subs
  unfolding each_subscriber
  each_subscriber-map one t [] = refl
  each_subscriber-map one t (sub ∷ subs) = ap (◌∷◌ (one t sub)) (each_subscriber-map one t subs)

  map-map-follow :
      (one : SocketInfo → Subscriber W → Subscriber W) (t : SocketInfo) (ts : List SocketInfo)
      (subs : List (Subscriber W))
      → map (follow one ts) (map (λ sub. (one t sub)) subs) ≡ map (follow one (t ∷ ts)) subs
  unfolding follow
  map-map-follow one t ts [] = refl
  map-map-follow one t ts (sub ∷ subs) =
      ap (◌∷◌ (follow one ts (one t sub))) (map-map-follow one t ts subs)

  map-follow-nil :
      (one : SocketInfo → Subscriber W → Subscriber W) (subs : List (Subscriber W))
      → subs ≡ map (follow one []) subs
  unfolding follow
  map-follow-nil one [] = refl
  map-follow-nil one (sub ∷ subs) = ap (◌∷◌ sub) (map-follow-nil one subs)

  -- The nested loops treat each subscriber by itself.
  pub each_topic-map :
      (one : SocketInfo → Subscriber W → Subscriber W) (ts : List SocketInfo)
      (subs : List (Subscriber W))
      → (each_topic one ts subs) ≡ map (follow one ts) subs
  unfolding each_topic
  each_topic-map one [] subs = map-follow-nil one subs
  each_topic-map one (t ∷ ts) subs =
      each_topic-map one ts (each_subscriber one t subs)
      ∙ ap (map (follow one ts)) (each_subscriber-map one t subs)
      ∙ map-map-follow one t ts subs

  -- No subscriber is connected to a URL twice.
  abbrev pub IsDistinct : List (Subscriber W) → Type 0
  IsDistinct = All (λ sub. Distinct sub.publisher_urls)

  update_all :
      (ts : List SocketInfo) (subs : List (Subscriber W)) (u : Str)
      → map (λ sub. contains u sub.publisher_urls) (map (follow update_one ts) subs)
        ≡ map (λ sub. contains u sub.publisher_urls || announces sub.topic_name u ts) subs
  update_all ts [] u = refl
  update_all ts (sub ∷ subs) u = ap₂ ◌∷◌ (follow_update-contains ts sub u) (update_all ts subs u)

  remove_all :
      (ts : List SocketInfo) (subs : List (Subscriber W)) (u : Str)
      → IsDistinct subs
      → map (λ sub. contains u sub.publisher_urls) (map (follow remove_one ts) subs)
        ≡ map (λ sub. contains u sub.publisher_urls && not (announces sub.topic_name u ts)) subs
  remove_all ts [] u d = refl
  remove_all ts (sub ∷ subs) u d =
      ap₂ ◌∷◌ (follow_remove-contains ts sub u d.0) (remove_all ts subs u d.1)

  follow-IsDistinct :
      (ts : List SocketInfo) (subs : List (Subscriber W))
      → IsDistinct subs
      → IsDistinct (map (follow update_one ts) subs)
  follow-IsDistinct ts [] d = tt
  follow-IsDistinct ts (sub ∷ subs) d =
      (follow_update-Distinct ts sub d.0, follow-IsDistinct ts subs d.1)

  -- After an update each subscriber, in its place, is connected to exactly what it was connected to
  -- before and what the node announces for its topic.
  pub update_topic_subscriber-contains :
      (info : NodeInfo) (subs : List (Subscriber W)) (u : Str)
      → map (λ sub. contains u sub.publisher_urls) (update_topic_subscriber info subs)
        ≡ map (λ sub. contains u sub.publisher_urls || announces sub.topic_name u info.topics) subs
  unfolding update_topic_subscriber
  update_topic_subscriber-contains info subs u =
      ap (map (λ sub. contains u sub.publisher_urls)) (each_topic-map update_one info.topics subs)
      ∙ update_all info.topics subs u

  -- An update connects no subscriber to a URL twice.
  pub update_topic_subscriber-IsDistinct :
      (info : NodeInfo) (subs : List (Subscriber W))
      → IsDistinct subs
      → IsDistinct (update_topic_subscriber info subs)
  unfolding update_topic_subscriber
  update_topic_subscriber-IsDistinct info subs d =
      subst IsDistinct (sym (each_topic-map update_one info.topics subs))
        (follow-IsDistinct info.topics subs d)

  -- After the removal of a node each subscriber is connected to exactly what it was connected to
  -- before and the node does not announce for its topic, if no URL was connected twice.
  pub remove_topic_subscriber-contains :
      (info : NodeInfo) (subs : List (Subscriber W)) (u : Str)
      → IsDistinct subs
      → map (λ sub. contains u sub.publisher_urls) (remove_topic_subscriber info subs)
        ≡ map
            (λ sub. contains u sub.publisher_urls && not (announces sub.topic_name u info.topics))
            subs
  unfolding remove_topic_subscriber
  remove_topic_subscriber-contains info subs u d =
      ap (map (λ sub. contains u sub.publisher_urls)) (each_topic-map remove_one info.topics subs)
      ∙ remove_all info.topics subs u d

  -- Each socket is connected to the URLs that its subscriber lists.
  abbrev pub AllSynced : List (Subscriber W) → Type 0
  AllSynced = All IsSynced

  map-AllSynced :
      (f : Subscriber W → Subscriber W) (subs : List (Subscriber W))
      → ((sub : Subscriber W) → IsSynced sub → IsSynced (f sub))
      → AllSynced subs
      → AllSynced (map f subs)
  map-AllSynced f [] keeps h = tt
  map-AllSynced f (sub ∷ subs) keeps h = (keeps sub h.0, map-AllSynced f subs keeps h.1)

  pub update_topic_subscriber-AllSynced :
      (info : NodeInfo) (subs : List (Subscriber W))
      → AllSynced subs
      → AllSynced (update_topic_subscriber info subs)
  unfolding update_topic_subscriber
  update_topic_subscriber-AllSynced info subs h =
      subst AllSynced (sym (each_topic-map update_one info.topics subs)) (
        map-AllSynced (follow update_one info.topics) subs
          (follow-IsSynced update_one update_one-IsSynced info.topics) h)

  pub remove_topic_subscriber-AllSynced :
      (info : NodeInfo) (subs : List (Subscriber W))
      → AllSynced subs
      → AllSynced (remove_topic_subscriber info subs)
  unfolding remove_topic_subscriber
  remove_topic_subscriber-AllSynced info subs h =
      subst AllSynced (sym (each_topic-map remove_one info.topics subs)) (
        map-AllSynced (follow remove_one info.topics) subs
          (follow-IsSynced remove_one remove_one-IsSynced info.topics) h)

  -- Whether the subscriber's socket is connected to the URL.
  abbrev pub is_connected : Str → Subscriber W → Bool
  is_connected u sub = contains u sub.socket.endpoints

  -- What is said of the sockets is said of the lists.
  map-synced :
      (f : Bool → Subscriber W → Bool) (u : Str) (subs : List (Subscriber W))
      → AllSynced subs
      → map (λ sub. f (is_connected u sub) sub) subs
        ≡ map (λ sub. f (contains u sub.publisher_urls) sub) subs
  map-synced f u [] h = refl
  map-synced f u (sub ∷ subs) h =
      ap₂ ◌∷◌ (ap (λ urls. f (contains u urls) sub) h.0) (map-synced f u subs h.1)

  -- After an update the socket of each subscriber is connected, in its place, to exactly what it was
  -- connected to before and what the node announces for its topic; after a removal to exactly what it
  -- was connected to before and the node does not announce for its topic; and each subscriber lists
  -- what its socket is connected to, as before. No subscriber listed a URL twice.
  pub topic_subscribers-connected :
      (info : NodeInfo) (subs : List (Subscriber W)) (u : Str)
      → IsDistinct subs
      → AllSynced subs
      → (map (is_connected u) (update_topic_subscriber info subs)
          ≡ map (λ sub. is_connected u sub || announces sub.topic_name u info.topics) subs)
        × (map (is_connected u) (remove_topic_subscriber info subs)
            ≡ map (λ sub. is_connected u sub && not (announces sub.topic_name u info.topics)) subs)
        × AllSynced (update_topic_subscriber info subs)
        × AllSynced (remove_topic_subscriber info subs)
  topic_subscribers-connected info subs u d h =
      let updated = update_topic_subscriber-AllSynced info subs h in
      let removed = remove_topic_subscriber-AllSynced info subs h in
      (
        map-synced (λ b sub. b) u (update_topic_subscriber info subs) updated
            ∙ update_topic_subscriber-contains info subs u
            ∙ sym (map-synced (λ b sub. b || announces sub.topic_name u info.topics) u subs h),
        map-synced (λ b sub. b) u (remove_topic_subscriber info subs) removed
            ∙ remove_topic_subscriber-contains info subs u d
            ∙ sym
                (map-synced (λ b sub. b && not (announces sub.topic_name u info.topics)) u subs h),
        updated,
        removed,
      )
