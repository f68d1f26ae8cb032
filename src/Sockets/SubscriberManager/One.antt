-- ===== src/Sockets/SubscriberManager/One.antt =====
-- What the updates and removals of `updateTopicSubscriber` and `removeTopicSubscriber` do to one subscriber.
use zero_lan_com.Base.{
  List, [], ◌∷◌, ◌++◌, Bool, false, not, ◌&&◌, ◌||◌, ◌≡◌, refl, sym, ◌∙◌, arith,
}
use mathlib.Core.List.{append-nil, append_assoc}
use zero_lan_com.Base.Text.{Str, str_eq, str_eq_iff}
use zero_lan_com.Base.Map.Unique.{contains, Distinct}
use zero_lan_com.Nodes.NodeInfo.{SocketInfo}
use zero_lan_com.Sockets.SubscriberManager.{
  Subscriber, SubSocket, connect, connect_each, topic_url, erase_url, update_one, remove_one,
}

-- One of the sockets has this name and this URL.
unfoldable pub announces : Str → Str → List SocketInfo → Bool
announces name url [] = false
announces name url (t ∷ ts) =
    (str_eq name t.name && str_eq (topic_url t) url) || announces name url ts

pub contains-append :
    (u : Str) (xs ys : List Str) → contains u (xs ++ ys) ≡ (contains u xs || contains u ys)
unfolding contains
contains-append u [] ys = refl
contains-append u (x ∷ xs) ys = ground (arith, contains-append u xs ys)

append-Distinct :
    (u : Str) (xs : List Str) → Distinct xs → contains u xs ≡ false → Distinct (xs ++ u ∷ [])
unfolding contains
append-Distinct u [] d h = (refl, tt)
append-Distinct u (x ∷ xs) d h =
    ground (
      arith,
      contains-append x xs (u ∷ []),
      str_eq_iff u x,
      str_eq_iff x u,
      append-Distinct u xs d.1,
    )

contains-erase_url :
    (u v : Str) (xs : List Str)
    → Distinct xs
    → contains u (erase_url v xs) ≡ (contains u xs && not (str_eq v u))
unfolding contains erase_url
contains-erase_url u v [] d = refl
contains-erase_url u v (x ∷ xs) d =
    ground (arith, contains-erase_url u v xs d.1, str_eq_iff x v, str_eq_iff x u, str_eq_iff v u)

erase_url-Distinct : (v : Str) (xs : List Str) → Distinct xs → Distinct (erase_url v xs)
unfolding contains erase_url
erase_url-Distinct v [] d = tt
erase_url-Distinct v (x ∷ xs) d =
    ground (arith, erase_url-Distinct v xs d.1, contains-erase_url x v xs d.1)

module _ {W : Type 0} where
  -- All topics for one subscriber.
  unfoldable pub follow :
      (SocketInfo → Subscriber W → Subscriber W) → List SocketInfo → Subscriber W → Subscriber W
  follow one [] sub = sub
  follow one (t ∷ ts) sub = follow one ts (one t sub)

  update_one-contains :
      (t : SocketInfo) (sub : Subscriber W) (u : Str)
      → contains u (update_one t sub).publisher_urls ≡ (
          contains u sub.publisher_urls || (str_eq sub.topic_name t.name && str_eq (topic_url t) u))
  unfolding update_one contains
  update_one-contains t sub u =
      ground
        (arith, contains-append u sub.publisher_urls (topic_url t ∷ []), str_eq_iff (topic_url t) u)

  update_one-Distinct :
      (t : SocketInfo) (sub : Subscriber W)
      → Distinct sub.publisher_urls
      → Distinct (update_one t sub).publisher_urls
  unfolding update_one
  update_one-Distinct t sub d = ground (arith, append-Distinct (topic_url t) sub.publisher_urls d)

  pub update_one-name :
      (t : SocketInfo) (sub : Subscriber W) → (update_one t sub).topic_name ≡ sub.topic_name
  unfolding update_one
  update_one-name t sub = ground arith

  remove_one-contains :
      (t : SocketInfo) (sub : Subscriber W) (u : Str)
      → Distinct sub.publisher_urls
      → contains u (remove_one t sub).publisher_urls ≡ (
          contains u sub.publisher_urls
          && not (str_eq sub.topic_name t.name && str_eq (topic_url t) u))
  unfolding remove_one
  remove_one-contains t sub u d =
      ground
        (arith, contains-erase_url u (topic_url t) sub.publisher_urls d, str_eq_iff (topic_url t) u)

  remove_one-Distinct :
      (t : SocketInfo) (sub : Subscriber W)
      → Distinct sub.publisher_urls
      → Distinct (remove_one t sub).publisher_urls
  unfolding remove_one
  remove_one-Distinct t sub d =
      ground (arith, erase_url-Distinct (topic_url t) sub.publisher_urls d)

  pub remove_one-name :
      (t : SocketInfo) (sub : Subscriber W) → (remove_one t sub).topic_name ≡ sub.topic_name
  unfolding remove_one
  remove_one-name t sub = ground arith

  pub follow_update-contains :
      (ts : List SocketInfo) (sub : Subscriber W) (u : Str)
      → contains u (follow update_one ts sub).publisher_urls
        ≡ (contains u sub.publisher_urls || announces sub.topic_name u ts)
  unfolding follow announces
  follow_update-contains [] sub u = ground arith
  follow_update-contains (t ∷ ts) sub u = ground (
    arith,
    follow_update-contains ts (update_one t sub) u,
    update_one-contains t sub u,
    update_one-name t sub,
  )

  pub follow_update-Distinct :
      (ts : List SocketInfo) (sub : Subscriber W)
      → Distinct sub.publisher_urls
      → Distinct (follow update_one ts sub).publisher_urls
  unfolding follow
  follow_update-Distinct [] sub d = d
  follow_update-Distinct (t ∷ ts) sub d =
      follow_update-Distinct ts (update_one t sub) (update_one-Distinct t sub d)

  pub follow_remove-contains :
      (ts : List SocketInfo) (sub : Subscriber W) (u : Str)
      → Distinct sub.publisher_urls
      → contains u (follow remove_one ts sub).publisher_urls
        ≡ (contains u sub.publisher_urls && not (announces sub.topic_name u ts))
  unfolding follow announces
  follow_remove-contains [] sub u d = ground arith
  follow_remove-contains (t ∷ ts) sub u d = ground (
    arith,
    follow_remove-contains ts (remove_one t sub) u (remove_one-Distinct t sub d),
    remove_one-contains t sub u d,
    remove_one-name t sub,
  )

  -- The socket is connected to the URLs that the subscriber lists, each as often.
  abbrev pub IsSynced : Subscriber W → Type 0
  IsSynced sub = sub.socket.endpoints ≡ sub.publisher_urls

  pub update_one-IsSynced :
      (t : SocketInfo) (sub : Subscriber W) → IsSynced sub → IsSynced (update_one t sub)
  unfolding update_one
  update_one-IsSynced t sub h = ground arith

  pub remove_one-IsSynced :
      (t : SocketInfo) (sub : Subscriber W) → IsSynced sub → IsSynced (remove_one t sub)
  unfolding remove_one
  remove_one-IsSynced t sub h = ground arith

  pub follow-IsSynced :
      (one : SocketInfo → Subscriber W → Subscriber W)
      → ((t : SocketInfo) (sub : Subscriber W) → IsSynced sub → IsSynced (one t sub))
      → (ts : List SocketInfo) (sub : Subscriber W) → IsSynced sub
      → IsSynced (follow one ts sub)
  unfolding follow
  follow-IsSynced one keeps [] sub h = h
  follow-IsSynced one keeps (t ∷ ts) sub h =
      follow-IsSynced one keeps ts (one t sub) (keeps t sub h)

pub connect_each-endpoints :
    (urls : List Str) (s : SubSocket) → (connect_each urls s).endpoints ≡ s.endpoints ++ urls
unfolding connect_each connect
connect_each-endpoints [] s = sym (append-nil s.endpoints)
connect_each-endpoints (u ∷ us) s =
    connect_each-endpoints us (connect u s) ∙ append_assoc s.endpoints (u ∷ []) us
