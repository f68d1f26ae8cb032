-- ===== src/Api/Announced.antt =====
-- What a publisher and a service handler announce.
use zero_lan_com.Base.{
  ℕ, ◌%◌, ◌^◌, ◌<◌, List, [], ◌∷◌, ◌++◌, none, Bool, true, ◌≡◌, ◌≢◌, refl, ◌∙◌, arith, map, inl,
}
use zero_lan_com.Base.Text.{Str, str_eq_iff, str_eq_refl}
use zero_lan_com.Base.Int.{ℤ, pos, to_u32}
use zero_lan_com.Base.Decimal.{to_string_u}
use zero_lan_com.Base.Map.Unique.{contains}
use zero_lan_com.Base.Result.{ok}
use zero_lan_com.Serialization.ByteBuffer.{Heap}
use zero_lan_com.Serialization.Codec.{Msgpack, IsRoundTrip}
use zero_lan_com.Utils.Endpoint.{tcp_url, get_bound_port-tcp_url}
use zero_lan_com.Nodes.NodeInfo.{SocketInfo}
use zero_lan_com.Nodes.NodeInfoManager.{
  NodeInfoManager, named, remote_publishers, get_publisher_info, get_service_info,
  register_local_topic, register_local_service,
}
use zero_lan_com.Nodes.NodeInfoManager.Sections.{service, run_section}
use zero_lan_com.Nodes.NodeInfoManager.Consistency.{IsConsistent, run_section-IsConsistent}
use zero_lan_com.Nodes.NodeInfoManager.Queries.{Has-append_right}
use zero_lan_com.Nodes.NodeInfoManager.Services.{get_service_info-none}
use zero_lan_com.Sockets.ServiceManager.{Callback, Handlers, handle_request}
use zero_lan_com.Sockets.ServiceManager.Replies
use zero_lan_com.Sockets.ServiceManager.Replies.{
  GrantsAll, IsSmall, handle_request-register_handler,
}
use zero_lan_com.Sockets.SubscriberManager.{topic_url, find_topic_urls}
use zero_lan_com.Sockets.SubscriberManager.One.{announces, contains-append}
use zero_lan_com.Sockets.Discovery.Links.{contains-named, map-append}
use zero_lan_com.Api.{to_u16, full_topic_name, construct_publisher, register_service_handler}

pub announces-append_one :
    (name u : Str) (ts : List SocketInfo) (t : SocketInfo)
    → t.name ≡ name
    → topic_url t ≡ u
    → announces name u (ts ++ t ∷ []) ≡ true
unfolding announces
announces-append_one name u [] t e h =
    ground (arith, str_eq_iff name t.name, str_eq_iff (topic_url t) u)
announces-append_one name u (s ∷ ts) t e h = ground (arith, announces-append_one name u ts t e h)

registered_url :
    (name u : Str) (port : ℕ) (m : NodeInfoManager)
    → tcp_url m.local_node_info.ip (to_string_u port) ≡ u
    → contains u (find_topic_urls name (register_local_topic name port m)) ≡ true
unfolding find_topic_urls get_publisher_info register_local_topic topic_url
registered_url name u port m e =
    let own : List SocketInfo =
      m.local_node_info.topics
      ++ record { name = name; ip = m.local_node_info.ip; port = port } ∷ [] in
    ground (
      arith,
      map-append (remote_publishers name m.nodes_info) (named name own),
      contains-append u (map topic_url (remote_publishers name m.nodes_info))
          (map topic_url (named name own)),
      contains-named name u own,
      announces-append_one name u m.local_node_info.topics
          (record { name = name; ip = m.local_node_info.ip; port = port }) refl e,
    )

pub construct_publisher-eq :
    (topic_name : Str) (with_local_namespace : Bool) (port : ℕ) (m : NodeInfoManager)
    → port < 2 ^ 16
    → construct_publisher
        (ok (tcp_url m.local_node_info.ip (to_string_u port)))
        topic_name
        with_local_namespace
        m
      ≡ ok (pos port, register_local_topic (full_topic_name with_local_namespace topic_name) port m)
unfolding construct_publisher to_u16 to_u32
construct_publisher-eq topic_name with_local_namespace port m small =
    let cut : port % 2 ^ 16 ≡ port = omega arith in
    rw (get_bound_port-tcp_url m.local_node_info.ip port (omega arith), cut)

-- A publisher whose socket got a port below 65536 at the local address succeeds, and from then on
-- the endpoint of its socket is among the URLs that a subscriber of its full name connects to.
pub construct_publisher-announced :
    (topic_name : Str) (with_local_namespace : Bool) (port : ℕ) (m : NodeInfoManager)
    → port < 2 ^ 16
    → let endpoint = tcp_url m.local_node_info.ip (to_string_u port) in
      (m' : NodeInfoManager) × (construct_publisher (ok endpoint) topic_name with_local_namespace m
        ≡ ok (pos port, m'))
      × (contains endpoint (find_topic_urls (full_topic_name with_local_namespace topic_name) m')
          ≡ true)
construct_publisher-announced topic_name with_local_namespace port m small =
    let name : Str = full_topic_name with_local_namespace topic_name in
    (
      register_local_topic name port m,
      construct_publisher-eq topic_name with_local_namespace port m small,
      registered_url name (tcp_url m.local_node_info.ip (to_string_u port)) port m refl,
    )

-- After `registerServiceHandler` a lookup of the service on this node finds it, and a request under
-- its name is answered as the handler and the two codecs say. The tables agree, memory does not run
-- out, and msgpack reads back each response that it packed, which is 2 ^ 62 bytes at most.
pub register_service_handler-served :
    {W A B : Type 0} (heap : Heap) (request : Msgpack A) (response : Msgpack B)
    → IsRoundTrip response
    → GrantsAll heap
    → IsSmall response
    → (name : Str) (handler : Callback W A B) (port : ℤ) (handlers : Handlers W)
      (m : NodeInfoManager)
    → IsConsistent m
    → (payload : List ℕ) (w : W)
    → let after = register_service_handler heap request response name handler port (handlers, m) in
      (get_service_info name after.1 ≢ none)
      × (handle_request after.0 name payload w ≡ Replies.service request response handler payload w)
unfolding register_service_handler run_section register_local_service
register_service_handler-served heap request response law free small name handler port handlers m c
      payload w =
    (
      λ missing.
          (get_service_info-none name
              (record { name = name; ip = m.local_node_info.ip; port = to_u16 port })
              (register_local_service name (to_u16 port) m)
              (run_section-IsConsistent (service name (to_u16 port)) m c) missing refl).1
            (Has-append_right _ m.local_node_info.services _ (inl refl)),
      handle_request-register_handler heap request response law free small name name handler
            handlers payload w
          ∙ rw (str_eq_refl name),
    )
