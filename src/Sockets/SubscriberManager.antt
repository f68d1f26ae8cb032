-- ===== src/Sockets/SubscriberManager.antt =====
-- include/zerolancom/sockets/subscriber_manager.hpp and src/sockets/subscriber_manager.cpp. A SUB
-- socket is its handle with the endpoints that it is connected to. Connecting does not fail.
pub mod One
pub mod Follow
pub mod Dispatch
pub mod Snapshot
use zero_lan_com.Base.{
  ℕ, List, [], ◌∷◌, ◌++◌, Bool, true, false, not, Option, none, some, if◌then◌else◌, map,
}
use zero_lan_com.Base.Text.{Str, str_eq}
use zero_lan_com.Base.Int.{pos}
use zero_lan_com.Base.Decimal.{to_string_u}
use zero_lan_com.Base.Map.Unique.{contains}
use zero_lan_com.Base.Result.{Exception, Result, ok, err}
use zero_lan_com.Utils.Endpoint.{tcp_url}
use zero_lan_com.Serialization.Codec.{Msgpack, decode}
use zero_lan_com.Utils.Socket.{Received, frame, timeout, recv_failed}
use zero_lan_com.Nodes.NodeInfo.{SocketInfo, NodeInfo}
use zero_lan_com.Nodes.NodeInfoManager.{NodeInfoManager, get_publisher_info}

pub record SubSocket : Type 0 where
  pub handle : ℕ
  pub endpoints : List Str

-- `callback` may throw and may change the state `W` that callbacks share.
pub record Subscriber (W : Type 0) : Type 0 where
  pub topic_name : Str
  pub publisher_urls : List Str
  pub callback : List ℕ → W → Result (Unit {0}) × W
  pub socket : SubSocket

unfoldable pub topic_url : SocketInfo → Str
topic_url t = tcp_url t.ip (to_string_u t.port)

unfoldable pub find_topic_urls : Str → NodeInfoManager → List Str
find_topic_urls topic_name m = map topic_url (get_publisher_info topic_name m)

-- `erase(find(begin, end, url))`: the first one, if there is one.
unfoldable pub erase_url : Str → List Str → List Str
erase_url url [] = []
erase_url url (u ∷ us) = if str_eq u url then us else u ∷ erase_url url us

-- `socket->connect` and `socket->disconnect`.
unfoldable pub connect : Str → SubSocket → SubSocket
connect url s = record s { endpoints = s.endpoints ++ url ∷ [] }

unfoldable pub disconnect : Str → SubSocket → SubSocket
disconnect url s = record s { endpoints = erase_url url s.endpoints }

-- The loop of `_registerTopicSubscriber` over the URLs that it found.
unfoldable pub connect_each : List Str → SubSocket → SubSocket
unfolding connect
connect_each [] s = s
connect_each (url ∷ urls) s = connect_each urls (connect url s)

-- The socket that `createSocket` returned, once it is connected.
abbrev pub new_socket : List Str → ℕ → SubSocket
new_socket urls handle = connect_each urls (record { handle = handle; endpoints = [] })

module _ {W : Type 0} where
  -- `_registerTopicSubscriber`, with the socket that `createSocket` returned.
  unfoldable pub register_topic_subscriber :
      Str
      → (List ℕ → W → Result (Unit {0}) × W)
      → ℕ
      → NodeInfoManager
      → List (Subscriber W)
      → List (Subscriber W)
  register_topic_subscriber topic_name callback socket m subscribers =
      let urls = find_topic_urls topic_name m in
      subscribers
      ++ record {
        topic_name = topic_name;
        publisher_urls = urls;
        callback = callback;
        socket = new_socket urls socket;
      }
        ∷ []

  hand_over : {A : Type 0} → (A → W → Result (Unit {0}) × W) → Result A → W → Result (Unit {0}) × W
  hand_over callback (ok msg) w = callback msg w
  hand_over callback (err e) w = (err e, w)

  -- `registerTopicSubscriber`, in both forms: the callback of the message's type behind `decode`.
  unfoldable pub typed_callback :
      {A : Type 0}
      → Msgpack A
      → (A → W → Result (Unit {0}) × W)
      → List ℕ
      → W
      → Result (Unit {0}) × W
  unfolding hand_over
  typed_callback codec callback view w = hand_over callback (decode codec view) w

  unfoldable pub register_typed :
      {A : Type 0}
      → Msgpack A
      → Str
      → (A → W → Result (Unit {0}) × W)
      → ℕ
      → NodeInfoManager
      → List (Subscriber W)
      → List (Subscriber W)
  register_typed codec topic_name callback socket m subscribers =
      register_topic_subscriber topic_name (typed_callback codec callback) socket m subscribers

  -- The body of the inner loop of `updateTopicSubscriber`.
  unfoldable pub update_one : SocketInfo → Subscriber W → Subscriber W
  unfolding connect
  update_one topic sub =
      if not (str_eq sub.topic_name topic.name)
      then sub
      else if contains (topic_url topic) sub.publisher_urls
      then sub
      else record sub {
        socket = connect (topic_url topic) sub.socket;
        publisher_urls = sub.publisher_urls ++ topic_url topic ∷ [];
      }

  -- The body of the inner loop of `removeTopicSubscriber`.
  unfoldable pub remove_one : SocketInfo → Subscriber W → Subscriber W
  unfolding disconnect
  remove_one topic sub =
      if not (str_eq sub.topic_name topic.name)
      then sub
      else if not (contains (topic_url topic) sub.publisher_urls)
      then sub
      else record sub {
        socket = disconnect (topic_url topic) sub.socket;
        publisher_urls = erase_url (topic_url topic) sub.publisher_urls;
      }

  -- The two loops, over the subscribers and over the topics.
  module _ (one : SocketInfo → Subscriber W → Subscriber W) where
    unfoldable pub each_subscriber : SocketInfo → List (Subscriber W) → List (Subscriber W)
    each_subscriber topic [] = []
    each_subscriber topic (sub ∷ subs) = one topic sub ∷ each_subscriber topic subs

    unfoldable pub each_topic : List SocketInfo → List (Subscriber W) → List (Subscriber W)
    each_topic [] subs = subs
    each_topic (topic ∷ topics) subs = each_topic topics (each_subscriber topic subs)

  unfoldable pub update_topic_subscriber : NodeInfo → List (Subscriber W) → List (Subscriber W)
  update_topic_subscriber info subs = each_topic update_one info.topics subs

  unfoldable pub remove_topic_subscriber : NodeInfo → List (Subscriber W) → List (Subscriber W)
  remove_topic_subscriber info subs = each_topic remove_one info.topics subs

  -- The loop of `pollOnce` over the sockets that `zmq::poll` reports on: what `recv` gives on each
  -- that is readable, and `timeout` on the others. An exception ends the loop and is only logged.
  unfoldable pub poll_once : List (Subscriber W × Received) → W → W
  poll_once [] w = w
  poll_once ((sub, timeout) ∷ rest) w = poll_once rest w
  poll_once ((sub, recv_failed e) ∷ rest) w = w
  poll_once ((sub, frame msg more) ∷ rest) w =
      let (result, w') = sub.callback msg w in
      let after = poll_once rest w' in elim result [ ok _ ↦ after | err e ↦ w' ]
