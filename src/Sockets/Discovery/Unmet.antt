-- ===== src/Sockets/Discovery/Unmet.antt =====
-- Subscribers that keep their places, topics and sockets and stay away from a URL, through all that
-- src/sockets/subscriber_manager.cpp does to them.
use zero_lan_com.Base.{
  List, [], ◌∷◌, ◌++◌, true, false, map, All, ◌≡◌, ◌≢◌, refl, sym, subst, ◌∙◌, arith,
}
use zero_lan_com.Base.Text.{Str, str_eq_iff}
use zero_lan_com.Base.Map.Unique.{contains}
use zero_lan_com.Nodes.NodeInfo.{SocketInfo, NodeInfo}
use zero_lan_com.Sockets.SubscriberManager.{
  Subscriber, connect, disconnect, topic_url, update_one, remove_one, update_topic_subscriber,
  remove_topic_subscriber,
}
use zero_lan_com.Sockets.SubscriberManager.One.{announces, follow, contains-append}
use zero_lan_com.Sockets.SubscriberManager.Follow.{each_topic-map, is_connected}
use zero_lan_com.Sockets.Discovery.Proper.{contains-erased}
use zero_lan_com.Sockets.Discovery.{withdraw}

announces-first :
    (u name : Str) (t : SocketInfo) (ts : List SocketInfo)
    → announces name u (t ∷ ts) ≢ true
    → (announces name u (t ∷ []) ≢ true) × (announces name u ts ≢ true)
unfolding announces
announces-first u name t ts never = (λ h. never (ground arith), λ h. never (ground arith))

module _ {W : Type 0} (u : Str) where
  abbrev pub IsUnmet : Subscriber W → Type 0
  IsUnmet sub = is_connected u sub ≡ false

  -- The second is the first at a later time, its socket not connected to the URL.
  abbrev pub IsStill : Subscriber W → Subscriber W → Type 0
  IsStill old sub =
      (sub.topic_name ≡ old.topic_name) × (sub.socket.handle ≡ old.socket.handle) × IsUnmet sub

  -- In the places of the old subscribers.
  abbrev pub AllStill : List (Subscriber W) → List (Subscriber W) → Type 0
  AllStill [] subs = Unit
  AllStill (old ∷ olds) [] = ⊥
  AllStill (old ∷ olds) (sub ∷ subs) = IsStill old sub × AllStill olds subs

  pub AllStill-refl : (subs : List (Subscriber W)) → All IsUnmet subs → AllStill subs subs
  AllStill-refl [] h = tt
  AllStill-refl (sub ∷ subs) h = ((refl, refl, h.0), AllStill-refl subs h.1)

  pub AllStill-append :
      (olds subs more : List (Subscriber W)) → AllStill olds subs → AllStill olds (subs ++ more)
  AllStill-append [] subs more h = tt
  AllStill-append (old ∷ olds) [] more h = absurd h
  AllStill-append (old ∷ olds) (sub ∷ subs) more h = (h.0, AllStill-append olds subs more h.1)

  -- What is done to each subscriber keeps it still.
  abbrev Keeps : (Subscriber W → Subscriber W) → Type 0
  Keeps f = (sub : Subscriber W) → IsUnmet sub → IsStill sub (f sub)

  AllStill-map :
      (f : Subscriber W → Subscriber W) (olds subs : List (Subscriber W))
      → Keeps f
      → AllStill olds subs
      → AllStill olds (map f subs)
  AllStill-map f [] subs keeps h = tt
  AllStill-map f (old ∷ olds) [] keeps h = absurd h
  AllStill-map f (old ∷ olds) (sub ∷ subs) keeps h =
      let (name, socket, unmet) = keeps sub h.0.2 in
      ((name ∙ h.0.0, socket ∙ h.0.1, unmet), AllStill-map f olds subs keeps h.1)

  update_one-Keeps :
      (t : SocketInfo) → ((name : Str) → announces name u (t ∷ []) ≢ true) → Keeps (update_one t)
  unfolding update_one connect announces contains
  update_one-Keeps t never sub unmet = ground (
    arith,
    contains-append u sub.socket.endpoints (topic_url t ∷ []),
    str_eq_iff (topic_url t) u,
    str_eq_iff sub.topic_name t.name,
    never sub.topic_name,
  )

  follow_update-Keeps :
      (ts : List SocketInfo)
      → ((name : Str) → announces name u ts ≢ true)
      → Keeps (follow update_one ts)
  unfolding follow
  follow_update-Keeps [] never sub unmet = (refl, refl, unmet)
  follow_update-Keeps (t ∷ ts) never sub unmet =
      let (name, socket, later) =
        update_one-Keeps t (λ n. (announces-first u n t ts (never n)).0) sub unmet in
      let (name', socket', after) =
        follow_update-Keeps ts (λ n. (announces-first u n t ts (never n)).1) (update_one t sub)
          later in
      (name' ∙ name, socket' ∙ socket, after)

  remove_one-Keeps : (t : SocketInfo) → Keeps (λ sub. (remove_one t sub))
  unfolding remove_one disconnect
  remove_one-Keeps t sub unmet =
      ground (arith, contains-erased u (topic_url t) sub.socket.endpoints)

  follow_remove-Keeps : (ts : List SocketInfo) → Keeps (follow remove_one ts)
  unfolding follow
  follow_remove-Keeps [] sub unmet = (refl, refl, unmet)
  follow_remove-Keeps (t ∷ ts) sub unmet =
      let (name, socket, later) = remove_one-Keeps t sub unmet in
      let (name', socket', after) = follow_remove-Keeps ts (remove_one t sub) later in
      (name' ∙ name, socket' ∙ socket, after)

  -- An update by a node that does not announce the URL.
  pub update-AllStill :
      (info : NodeInfo) (olds subs : List (Subscriber W))
      → ((name : Str) → announces name u info.topics ≢ true)
      → AllStill olds subs
      → AllStill olds (update_topic_subscriber info subs)
  unfolding update_topic_subscriber
  update-AllStill info olds subs never h =
      subst (AllStill olds) (sym (each_topic-map update_one info.topics subs)) (
        AllStill-map (follow update_one info.topics) olds subs
          (follow_update-Keeps info.topics never) h)

  pub withdraw-AllStill :
      (gone : List NodeInfo) (olds subs : List (Subscriber W))
      → AllStill olds subs
      → AllStill olds (withdraw gone subs)
  unfolding withdraw remove_topic_subscriber
  withdraw-AllStill [] olds subs h = h
  withdraw-AllStill (info ∷ gone) olds subs h =
      withdraw-AllStill gone olds (remove_topic_subscriber info subs) (
        subst (AllStill olds) (sym (each_topic-map remove_one info.topics subs)) (
          AllStill-map (follow remove_one info.topics) olds subs (follow_remove-Keeps info.topics)
            h))
