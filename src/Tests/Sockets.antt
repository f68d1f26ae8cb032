-- ===== src/Tests/Sockets.antt =====
-- A service that negates, its replies, and subscribers that follow a node.
use zero_lan_com.Base.{ℕ, suc, List, [], ◌∷◌, Bool, false, not, ◌&&◌, ◌||◌, map, ◌≡◌, refl}
use zero_lan_com.Base.Text.{Str, bytes, str_eq}
use zero_lan_com.Base.Map.Unique.{contains}
use zero_lan_com.Base.Result.{ok}
use zero_lan_com.Utils.Socket.{frame}
use zero_lan_com.Sockets.ServiceManager.{Callback, register_handler, handle_request, success}
use zero_lan_com.Sockets.ServiceManager.Replies.{handle_request-register_handler}
use zero_lan_com.Sockets.ServiceManager.Polling.{polls, polls-after_incomplete}
use zero_lan_com.Sockets.SubscriberManager.{
  Subscriber, update_topic_subscriber, remove_topic_subscriber,
}
use zero_lan_com.Sockets.SubscriberManager.One.{announces}
use zero_lan_com.Sockets.SubscriberManager.Follow.{
  AllSynced, is_connected, topic_subscribers-connected,
}
use zero_lan_com.Tests.Data.{info_a}
use zero_lan_com.Tests.Wire.{
  tape, generous, generous-GrantsAll, bool_codec, bool_codec-IsRoundTrip, bool_codec-IsSmall,
}

-- It counts its calls.
abbrev negate : Callback ℕ Bool Bool
negate b n = (ok (not b), suc n)

handle_request-register_handler_example :
    handle_request
      (register_handler generous bool_codec bool_codec (bytes "negate") negate [])
      (bytes "negate")
      (0xC3 ∷ [])
      4
    ≡ (ok (record { code = success; payload = 0xC2 ∷ [] }), 5)
unfolding str_eq
handle_request-register_handler_example =
    handle_request-register_handler generous bool_codec bool_codec bool_codec-IsRoundTrip
      generous-GrantsAll bool_codec-IsSmall (bytes "negate") (bytes "negate") negate [] (0xC3 ∷ [])
      4

polls-after_incomplete_example :
    polls {W = ℕ} tape [] 6 (frame (bytes "negate") false ∷ [], []) 4 ≡ (([], []), 4)
polls-after_incomplete_example =
    polls-after_incomplete tape [] (frame (bytes "negate") false ∷ [], []) ([], []) 4
      (bytes "negate") 156_384_763 5 refl refl

abbrev camera_url : Str
camera_url = bytes "tcp://10.0.0.1:4100"

abbrev watcher : List Str → Subscriber ℕ
watcher urls = record {
  topic_name = bytes "camera";
  publisher_urls = urls;
  callback = λ msg w. (ok tt, w);
  socket = record { handle = 3; endpoints = urls };
}

abbrev watchers : List (Subscriber ℕ)
watchers = watcher [] ∷ watcher (camera_url ∷ []) ∷ []

topic_subscribers-connected_example :
    (map (is_connected camera_url) (update_topic_subscriber info_a watchers)
      ≡ map
          (λ sub. is_connected camera_url sub || announces sub.topic_name camera_url info_a.topics)
          watchers)
    × (map (is_connected camera_url) (remove_topic_subscriber info_a watchers)
        ≡ map
            (λ sub.
              is_connected camera_url sub
              && not (announces sub.topic_name camera_url info_a.topics))
            watchers)
    × AllSynced (update_topic_subscriber info_a watchers)
    × AllSynced (remove_topic_subscriber info_a watchers)
unfolding contains
topic_subscribers-connected_example =
    topic_subscribers-connected info_a watchers camera_url (tt, ((refl, tt), tt)) (refl, (refl, tt))
