-- ===== src/Tests/Api.antt =====
-- A publisher, a service, a wait for it, and a subscriber that comes late.
use zero_lan_com.Base.{
  refl, false, ℕ, zero, suc, List, [], ◌∷◌, some, Bool, true, not, ◌++◌, ap, sym, ◌≡◌, arith,
}
use zero_lan_com.Base.Text.{bytes}
use zero_lan_com.Base.Result.{Result, ok}
use zero_lan_com.Utils.Socket.{frame}
use zero_lan_com.Sockets.SubscriberManager.Dispatch.{go_on}
use zero_lan_com.Serialization.ByteBuffer.{writes, write, copy_in, realloc}
use zero_lan_com.Serialization.Codec.{encode}
use zero_lan_com.Nodes.NodeInfoManager.{
  NodeInfoManager, get_publisher_info, remote_publishers, named, init,
}
use zero_lan_com.Sockets.ServiceManager.{Callback}
use zero_lan_com.Sockets.SubscriberManager.{
  Subscriber, typed_callback, poll_once, register_typed, register_topic_subscriber, connect_each,
  find_topic_urls,
}
use zero_lan_com.Api.{Waited, publish, register_subscriber_handler, wait_for_service}
use zero_lan_com.Api.Waiting.{IsTrue, wait_for_service-IsTrue}
use zero_lan_com.Api.Published.{IsRecording, publish-called}
use zero_lan_com.Tests.Data.{ip_a, camera, info_a, node_a, fresh_b}
use zero_lan_com.Tests.Wire.{
  tape, generous, generous-GrantsAll, bool_codec, bool_codec-IsRoundTrip, bool_codec-IsSmall,
}

-- The second node has a subscriber to the new topic.
abbrev map_watcher : Subscriber ℕ
map_watcher = record {
  topic_name = bytes "map";
  publisher_urls = [];
  callback = λ msg w. (ok tt, w);
  socket = record { handle = 3; endpoints = [] };
}

abbrev with_map : NodeInfoManager
with_map = record node_a {
  local_node_info = record info_a {
    topics = camera ∷ record { name = bytes "map"; ip = ip_a; port = 4300 } ∷ [];
    info_id = 3;
  };
}

abbrev negate : Callback ℕ Bool Bool
negate b n = (ok (not b), suc n)

-- The node is there from the third lookup on.
abbrev tables : ℕ → NodeInfoManager
tables zero = fresh_b
tables (suc zero) = fresh_b
tables (suc (suc k)) = node_a

wait_for_service-IsTrue_example :
    (w : Waited) × (wait_for_service tables (bytes "echo") 1000 10 1001 ≡ some w)
    × IsTrue tables (bytes "echo") 1000 10 w
wait_for_service-IsTrue_example =
    wait_for_service-IsTrue tables (bytes "echo") 1000 10 (omega arith) (omega arith)

tape-IsRecording : IsRecording tape (λ t. t.1)
tape-IsRecording b more s s' e = ap (λ r. r.1.1) (sym e)

-- It adds two for `true` and one for `false`.
abbrev tally : Bool → ℕ → Result (Unit {0}) × ℕ
tally true n = (ok tt, suc (suc n))
tally false n = (ok tt, suc n)

abbrev tally_watcher : Subscriber ℕ
tally_watcher = record map_watcher { callback = typed_callback bool_codec tally }

tally_registered :
    (register_subscriber_handler bool_codec (bytes "map") tally 3 fresh_b []) ≡ tally_watcher ∷ []
unfolding register_subscriber_handler register_typed register_topic_subscriber connect_each
    find_topic_urls get_publisher_info init remote_publishers named
tally_registered = refl

-- What the publisher has sent.
abbrev sent_true : List (List ℕ × Bool)
sent_true = (0xC3 ∷ [], false) ∷ []

publish-true : publish tape generous bool_codec true ([], []) ≡ ok ([], sent_true)
unfolding publish encode writes write copy_in realloc
publish-true = refl

publish-called_example :
    (view : List ℕ) × (sent_true ≡ [] ++ (view, false) ∷ [])
    × (poll_once ((map_watcher, frame [] false) ∷ (tally_watcher, frame view false) ∷ []) 5
        ≡ go_on (tally true (poll_once ((map_watcher, frame [] false) ∷ []) 5)) (poll_once []))
unfolding go_on
publish-called_example =
    publish-called tape (λ t. t.1) tape-IsRecording generous bool_codec bool_codec-IsRoundTrip
      generous-GrantsAll true (bool_codec-IsSmall true) ([], []) ([], sent_true) (bytes "map") tally
      3 fresh_b [] tally_watcher tally_registered ((map_watcher, frame [] false) ∷ []) [] 5
      publish-true (refl, tt)
