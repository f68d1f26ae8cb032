-- ===== src/Tests/Discovered.antt =====
-- The second node hears of a publisher of the first one for the first time.
use zero_lan_com.Base.{
  ℕ, List, [], ◌∷◌, ◌++◌, Option, some, Bool, true, false, if◌then◌else◌, All, ◌≡◌, refl, arith,
  inl, length,
}
use zero_lan_com.Base.Text.{Str, bytes, str_eq}
use zero_lan_com.Base.Int.{of_u32, to_u32}
use zero_lan_com.Base.Decimal.{to_string_u}
use zero_lan_com.Base.Map.{find, insert}
use zero_lan_com.Base.Result.{ok}
use zero_lan_com.Serialization.ByteBuffer.{writes, write, copy_in, realloc}
use zero_lan_com.Serialization.ByteBuffer.Write.{concat}
use zero_lan_com.Serialization.Codec.{encode, decode}
use zero_lan_com.Utils.Endpoint.{tcp_url}
use zero_lan_com.Utils.Socket.{frame}
use zero_lan_com.Utils.Subnet.{is_in_same_subnet}
use zero_lan_com.Nodes.Heartbeat.Words.{put_u32}
use zero_lan_com.Nodes.Heartbeat
use zero_lan_com.Nodes.NodeInfo.{empty_node_info}
use zero_lan_com.Nodes.NodeInfoManager.{
  NodeInfoManager, create_heartbeat, init, register_local_topic,
}
use zero_lan_com.Nodes.NodeInfoManager.Consistency.{init-IsConsistent}
use zero_lan_com.Nodes.Multicast.{
  MulticastReceiver, Round, Notice, updated, receive_once, send_once,
}
use zero_lan_com.Nodes.Multicast.Delivery.{IsSendable}
use zero_lan_com.Sockets.ServiceManager.{success, handle_request, register_handler, wrap}
use zero_lan_com.Sockets.SubscriberManager.{Subscriber}
use zero_lan_com.Sockets.Discovery.{connect_all}
use zero_lan_com.Sockets.Client.{send_request, fetch_node_info}
use zero_lan_com.Nodes.Multicast.Filter.{passes_filters}
use zero_lan_com.Serialization.ServiceHeader.{decode_service_header}
use zero_lan_com.Sockets.Client.Fetch.{get_node_info, register_get_node_info_service}
use zero_lan_com.Api.{full_topic_name}
use zero_lan_com.Api.Announced.{construct_publisher-eq}
use zero_lan_com.Api.Reached.{connects}
use zero_lan_com.Api.Discovered.{fetch, publisher-discovered}
use zero_lan_com.Tests.Data.{uuid_a, uuid_b, ip_a, ip_b, lab, camera, info_a, node_a, fresh_b}
use zero_lan_com.Tests.Wire.{Tape, tape, generous, generous-GrantsAll}
use zero_lan_com.Tests.NodeCodec.{
  nil_codec, nil_codec-IsRoundTrip, info_codec, info_codec-IsRoundTrip,
}

abbrev aton : Str → Option ℕ
aton ip = if str_eq ip ip_a then some 0x0A000001 else some 0x0A000002

abbrev receiver : MulticastReceiver
receiver = record { local_ip = ip_b; group_name = lab }

abbrev publishing_a : NodeInfoManager
publishing_a = record node_a {
  local_node_info = record info_a {
    info_id = 3;
    topics = camera ∷ record { name = bytes "map"; ip = ip_a; port = 4300 } ∷ [];
  };
}

abbrev payload : List ℕ
payload =
    (0 ∷ 0 ∷ 0 ∷ 0 ∷ 0 ∷ 0 ∷ 0 ∷ 1 ∷ 0 ∷ 0 ∷ 0 ∷ 0 ∷ [])
    ++ (uuid_a ++ ((0 ∷ 0 ∷ 0 ∷ 3 ∷ 0 ∷ 0 ∷ 16 ∷ 104 ∷ []) ++ lab))

abbrev round : Round
round = record {
  datagram = some (payload, ip_a);
  marked_at = 1_000_000_000;
  stored_at = 1_100_000_000;
  checked_at = 1_200_000_000;
}

abbrev map_watcher : Subscriber ℕ
map_watcher = record {
  topic_name = bytes "map";
  publisher_urls = [];
  callback = λ msg w. (ok tt, w);
  socket = record { handle = 3; endpoints = [] };
}

abbrev info_bytes : List ℕ
info_bytes = concat (info_codec.pack publishing_a.local_node_info)

abbrev asked : List (List ℕ × Bool)
asked = (get_node_info, true) ∷ (0xC0 ∷ [], false) ∷ []

-- The first node answers every request.
abbrev served : Str → Tape
served url = (frame success true ∷ frame info_bytes false ∷ [], [])

sent_payload : send_once publishing_a ≡ ok payload
unfolding send_once Heartbeat.encode create_heartbeat of_u32 to_u32 put_u32
sent_payload = refl

passes :
    passes_filters aton
      (fetch_node_info tape generous nil_codec info_codec served empty_node_info)
      receiver
      round
      fresh_b
      (create_heartbeat publishing_a)
      ip_a
    ≡ true
unfolding is_in_same_subnet str_eq create_heartbeat init
passes = refl

info_bytes-length : length info_bytes ≡ 97
info_bytes-length = refl

replied :
    handle_request
      (register_get_node_info_service generous nil_codec info_codec [])
      (decode_service_header get_node_info)
      (0xC0 ∷ [])
      publishing_a
    ≡ (ok (record { code = success; payload = info_bytes }), publishing_a)
unfolding handle_request register_get_node_info_service register_handler wrap decode encode
    decode_service_header writes write copy_in realloc find insert str_eq
replied = refl

node_a-IsSendable : IsSendable node_a
node_a-IsSendable = record { node_id = refl; info_id = omega arith; service_port = omega arith }

publisher-discovered_example :
    ((rest : List Notice) × ((receive_once aton
          (fetch tape generous nil_codec info_codec nil_codec-IsRoundTrip info_codec-IsRoundTrip
            generous-GrantsAll
            (omega arith)
            served
            empty_node_info
            aton)
          receiver
          round
          fresh_b).1
        ≡ updated publishing_a.local_node_info ∷ rest))
    × All
        (λ sub.
          connects (full_topic_name false (bytes "map")) (tcp_url ip_a (to_string_u 4300)) sub
          ≡ true)
        (connect_all (publishing_a.local_node_info ∷ []) (map_watcher ∷ []))
unfolding full_topic_name find init register_local_topic send_request
publisher-discovered_example =
    publisher-discovered tape generous nil_codec info_codec nil_codec-IsRoundTrip
      info_codec-IsRoundTrip generous-GrantsAll (omega arith) served empty_node_info aton node_a
      publishing_a fresh_b (bytes "map") false 4300 (map_watcher ∷ []) (refl, tt) (omega arith)
      (construct_publisher-eq (bytes "map") false 4300 node_a (omega arith))
      (init-IsConsistent uuid_b (bytes "b") ip_b) node_a-IsSendable (omega arith) (inl refl)
      receiver round payload ip_a sent_payload refl passes []
      (record { code = success; payload = info_bytes }) publishing_a
      (frame success true ∷ frame info_bytes false ∷ [], asked) (frame info_bytes false ∷ [], asked)
      ([], asked) (omega (arith, info_bytes-length)) (λ e. cc) refl replied refl refl
