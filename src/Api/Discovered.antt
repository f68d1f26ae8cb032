-- ===== src/Api/Discovered.antt =====
-- Discovery from end to end: a publisher of one node, a datagram of `MulticastSender`, the receiver
-- of another node, its request to `get_node_info`, and the delivery to the subscribers.
use zero_lan_com.Base.{
  ℕ, ◌^◌, ◌<◌, ◌≤◌, List, [], ◌∷◌, ◌++◌, Option, none, some, Bool, true, false, length, All, ◌≡◌,
  ◌≢◌, refl, ap, subst, ◌∙◌, ◌⊎◌, arith, map,
}
use zero_lan_com.Base.Text.{Str}
use zero_lan_com.Base.Int.{ℤ, pos}
use zero_lan_com.Base.Decimal.{to_string, to_string_u}
use zero_lan_com.Base.Map.{find}
use zero_lan_com.Base.Result.{ok}
use zero_lan_com.Serialization.ByteBuffer.{Heap}
use zero_lan_com.Serialization.ByteBuffer.Write.{concat}
use zero_lan_com.Serialization.ServiceHeader.{decode_service_header}
use zero_lan_com.Serialization.Codec.{Msgpack, IsRoundTrip, Empty, empty}
use zero_lan_com.Utils.Endpoint.{tcp_url}
use zero_lan_com.Utils.Socket.{SocketOps, frame}
use zero_lan_com.Nodes.NodeInfo.{NodeInfo}
use zero_lan_com.Nodes.NodeInfoManager.{
  NodeInfoManager, register_local_topic, create_heartbeat, process_heartbeat, check_heartbeats,
}
use zero_lan_com.Nodes.NodeInfoManager.Consistency.{IsConsistent}
use zero_lan_com.Nodes.Multicast.{
  MulticastReceiver, Round, Notice, updated, removed, accept, receive_once, send_once,
}
use zero_lan_com.Nodes.Multicast.Filter.{passes_filters}
use zero_lan_com.Nodes.Multicast.Delivery.{IsSendable, receive_once-send_once}
use zero_lan_com.Sockets.SubscriberManager.Follow.{AllSynced}
use zero_lan_com.Sockets.ServiceManager.{Response, Handlers, handle_request}
use zero_lan_com.Sockets.ServiceManager.Replies.{GrantsAll}
use zero_lan_com.Sockets.SubscriberManager.{Subscriber, topic_url}
use zero_lan_com.Sockets.Discovery.{connect_all}
use zero_lan_com.Sockets.Client.{send_request, fetch_node_info}
use zero_lan_com.Sockets.Client.Fetch.{
  get_node_info, register_get_node_info_service, fetch_node_info-given,
}
use zero_lan_com.Api.{full_topic_name, construct_publisher}
use zero_lan_com.Api.Announced.{announces-append_one}
use zero_lan_com.Api.Reached.{connects, connect_all-one, notices, construct_publisher-registered}

register_local_topic-IsSendable :
    (name : Str) (port : ℕ) (a : NodeInfoManager)
    → IsSendable a
    → IsSendable (register_local_topic name port a)
unfolding register_local_topic
register_local_topic-IsSendable name port a s = record {
  node_id = s.node_id;
  info_id = omega arith;
  service_port = s.service_port;
}

accept-updated :
    (aton : Str → Option ℕ) (fetch : Str → ℤ → Option NodeInfo) (a b : NodeInfoManager)
    (info : NodeInfo) (node_ip : Str) (round : Round)
    → (process_heartbeat fetch (create_heartbeat a) node_ip round.marked_at round.stored_at b).1
      ≡ info ∷ []
    → (rest : List Notice) × ((accept aton fetch (create_heartbeat a) node_ip round b).1
        ≡ updated info ∷ rest)
unfolding accept
accept-updated aton fetch a b info node_ip round e =
    let processed =
      (process_heartbeat fetch (create_heartbeat a) node_ip round.marked_at round.stored_at b).0 in
    (
      map removed (check_heartbeats round.checked_at processed).1,
      ap (λ infos. map updated infos ++ map removed (check_heartbeats round.checked_at processed).1)
          e,
    )

-- What the receiver of `b` triggers first for the heartbeat of a node that made a publisher, when
-- its info is fetched.
module _ (aton : Str → Option ℕ) (r : MulticastReceiver) (round : Round) (a b : NodeInfoManager)
    (name : Str) (port : ℕ) (fetch : Str → ℤ → Option NodeInfo) (payload : List ℕ) (node_ip : Str)
    (sendable : IsSendable a) (short : length a.group_name ≤ 968) (c : IsConsistent b)
    (before : (find a.local_node_info.node_id b.nodes_info ≡ none)
      ⊎ (find a.local_node_info.node_id b.nodes_info ≡ some a.local_node_info))
    (arrived : round.datagram ≡ some (payload, node_ip)) where
  Noticed : NodeInfoManager → Type 0
  Noticed m =
      send_once m ≡ ok payload
      → passes_filters aton fetch r round b (create_heartbeat m) node_ip ≡ true
      → fetch node_ip m.service_port ≡ some m.local_node_info
      → (rest : List Notice) × ((receive_once aton fetch r round b).1
          ≡ updated m.local_node_info ∷ rest)

  registered-Noticed : Noticed (register_local_topic name port a)
  unfolding Noticed register_local_topic
  registered-Noticed sent passes answered =
      let m : NodeInfoManager = register_local_topic name port a in
      let (rest, e) = accept-updated aton fetch m b m.local_node_info node_ip round (
        notices a b name port fetch node_ip round.marked_at round.stored_at c sendable.info_id
          before answered) in
      let received : receive_once aton fetch r round b
          ≡ accept aton fetch (create_heartbeat m) node_ip round b =
        receive_once-send_once aton fetch r round m b payload node_ip sent arrived
          (register_local_topic-IsSendable name port a sendable) short
        ∙ rw passes in
      (rest, ap (λ p. p.1) received ∙ e)

module _ {W : Type 0} (a : NodeInfoManager) (name : Str) (port : ℕ) (subs : List (Subscriber W))
    (synced : AllSynced subs) where
  registered-connects :
      All
        (λ sub. connects name (tcp_url a.local_node_info.ip (to_string_u port)) sub ≡ true)
        (connect_all ((register_local_topic name port a).local_node_info ∷ []) subs)
  unfolding register_local_topic topic_url
  registered-connects =
      connect_all-one name (tcp_url a.local_node_info.ip (to_string_u port))
        (register_local_topic name port a).local_node_info subs synced
        (announces-append_one name (tcp_url a.local_node_info.ip (to_string_u port))
          a.local_node_info.topics (record { name = name; ip = a.local_node_info.ip; port = port })
          refl refl)

-- The network between the two nodes, with the codecs of the service `get_node_info`.
module _ {S : Type 0} (ops : SocketOps S) (heap : Heap) (empty_codec : Msgpack Empty)
    (info_codec : Msgpack NodeInfo) (empty_law : IsRoundTrip empty_codec)
    (info_law : IsRoundTrip info_codec) (free : GrantsAll heap)
    (empty_small : length (concat (empty_codec.pack empty)) ≤ 2 ^ 62) (connect : Str → S)
    (blank : NodeInfo) (aton : Str → Option ℕ) where
  abbrev pub fetch : Str → ℤ → Option NodeInfo
  fetch = fetch_node_info ops heap empty_codec info_codec connect blank

  -- A publisher is made on node `a`, with a port below 65536 at its address, and node `b`, whose
  -- tables agree, knew nothing of `a` or its info from before. The next datagram of `a` arrives at
  -- `b` and passes its filters, and the request of `b` for `get_node_info` is answered by the
  -- handler that the node `a` registered for it. Then the round of the receiver triggers first
  -- `node_update_event` with the info of `a`, and when that is delivered the socket of every
  -- subscriber of `b` to the full name of the topic is connected to the endpoint of the publisher. Before, each subscriber lists what its socket is connected
  -- to. The id of `a` has 36
  -- bytes, its group name at most 968, and its numbers fit their types; frames are delivered, memory
  -- does not run out, and msgpack reads back what it packed, which for the request and the info is
  -- 2 ^ 62 bytes at most and for the info not empty.
  pub publisher-discovered :
      {W : Type 0} (a a' b : NodeInfoManager) (topic_name : Str) (with_local_namespace : Bool)
      (port : ℕ) (subs : List (Subscriber W))
      → AllSynced subs
      → port < 2 ^ 16
      → construct_publisher
          (ok (tcp_url a.local_node_info.ip (to_string_u port)))
          topic_name
          with_local_namespace
          a
        ≡ ok (pos port, a')
      → IsConsistent b
      → IsSendable a
      → length a.group_name ≤ 968
      → (find a.local_node_info.node_id b.nodes_info ≡ none)
        ⊎ (find a.local_node_info.node_id b.nodes_info ≡ some a.local_node_info)
      → (r : MulticastReceiver) (round : Round) (payload : List ℕ) (node_ip : Str)
      → send_once a' ≡ ok payload
      → round.datagram ≡ some (payload, node_ip)
      → passes_filters aton fetch r round b (create_heartbeat a') node_ip ≡ true
      → (handlers : Handlers NodeInfoManager) (reply : Response) (after : NodeInfoManager)
        (s s1 s2 : S)
      → length (concat (info_codec.pack a'.local_node_info)) ≤ 2 ^ 62
      → concat (info_codec.pack a'.local_node_info) ≢ []
      → send_request ops get_node_info
          (concat (empty_codec.pack empty))
          (connect (tcp_url node_ip (to_string a'.service_port)))
        ≡ ok s
      → handle_request
          (register_get_node_info_service heap empty_codec info_codec handlers)
          (decode_service_header get_node_info)
          (concat (empty_codec.pack empty))
          a'
        ≡ (ok reply, after)
      → ops.recv s ≡ (frame reply.code true, s1)
      → ops.recv s1 ≡ (frame reply.payload false, s2)
      → ((rest : List Notice) × ((receive_once aton fetch r round b).1
            ≡ updated a'.local_node_info ∷ rest))
        × All
            (λ sub.
              connects
                (full_topic_name with_local_namespace topic_name)
                (tcp_url a.local_node_info.ip (to_string_u port))
                sub
              ≡ true)
            (connect_all (a'.local_node_info ∷ []) subs)
  unfolding Noticed
  publisher-discovered a a' b topic_name with_local_namespace port subs synced small made c sendable
        short before r round payload node_ip sent arrived passes handlers reply after s s1 s2
        info_small full asked replied first second =
      let name : Str = full_topic_name with_local_namespace topic_name in
      let url : Str = tcp_url a.local_node_info.ip (to_string_u port) in
      let same =
        construct_publisher-registered a a' topic_name with_local_namespace port small made in
      let answered : fetch node_ip a'.service_port ≡ some a'.local_node_info =
        fetch_node_info-given ops heap empty_codec info_codec empty_law info_law free empty_small
          connect blank node_ip a'.service_port handlers a' after info_small full reply replied s s1
          s2 asked first second in
      (
        subst
            (Noticed aton r round a b name port fetch payload node_ip sendable short c before
              arrived)
            same
            (registered-Noticed aton r round a b name port fetch payload node_ip sendable short c
              before arrived)
            sent passes answered,
        subst
            (λ m.
              All (λ sub. connects name url sub ≡ true) (connect_all (m.local_node_info ∷ []) subs))
            same (registered-connects a name port subs synced),
      )
