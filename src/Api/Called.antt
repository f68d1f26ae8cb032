-- ===== src/Api/Called.antt =====
-- A service of one node, called from another node that looks it up in its table.
use zero_lan_com.Base.{
  ◌^◌, ◌≤◌, [], some, true, false, length, All, ◌≡◌, ◌≢◌, ◌⊎◌, refl, ap, ◌∙◌, inl, inr,
  Option-cases,
}
use zero_lan_com.Base.Text.{Str}
use zero_lan_com.Base.Int.{ℤ, pos}
use zero_lan_com.Base.Decimal.{to_string}
use zero_lan_com.Base.Map.{find}
use zero_lan_com.Base.Map.Unique.{Has}
use zero_lan_com.Base.Result.{ok}
use zero_lan_com.Serialization.ByteBuffer.{Heap}
use zero_lan_com.Serialization.ByteBuffer.Write.{concat}
use zero_lan_com.Serialization.ServiceHeader.{decode_service_header, max_len}
use zero_lan_com.Serialization.Codec.{Msgpack, IsRoundTrip}
use zero_lan_com.Utils.Endpoint.{tcp_url}
use zero_lan_com.Utils.Socket.{SocketOps, frame}
use zero_lan_com.Nodes.NodeInfo.{SocketInfo}
use zero_lan_com.Nodes.NodeInfoManager.{NodeInfoManager, get_service_info, register_local_service}
use zero_lan_com.Nodes.NodeInfoManager.Consistency.{IsConsistent}
use zero_lan_com.Nodes.NodeInfoManager.Queries.{Offered, Has-append_right}
use zero_lan_com.Nodes.NodeInfoManager.Services.{get_service_info_sound, get_service_info-none}
use zero_lan_com.Sockets.ServiceManager.{Response, Callback, Handlers, handle_request}
use zero_lan_com.Sockets.ServiceManager.Replies.{GrantsAll}
use zero_lan_com.Sockets.Client.{send_request, zlc_request}
use zero_lan_com.Sockets.Client.Requests.{zlc_request_url-served}
use zero_lan_com.Api.{to_u16, register_service_handler}

-- Every socket of that name that the node knows of is this one.
abbrev pub IsOnly : SocketInfo → NodeInfoManager → Type 0
IsOnly offered m =
    (t : SocketInfo)
    → t.name ≡ offered.name
    → Offered offered.name t (λ n. n.services) m.nodes_info ⊎ Has t m.local_node_info.services
    → t ≡ offered

get_service_info-only :
    (t : SocketInfo) (m : NodeInfoManager)
    → IsConsistent m
    → IsOnly t m
    → Offered t.name t (λ n. n.services) m.nodes_info
    → get_service_info t.name m ≡ some t
get_service_info-only t m c only offer = elim (Option-cases (get_service_info t.name m)) [
  | inl missing ↦ absurd ((get_service_info-none t.name t m c missing refl).0 offer)
  | inr (u, found) ↦
      let (same, offers) = get_service_info_sound t.name u m c found in
      found ∙ ap some (only u same offers)
]

module _ {W A B S : Type 0} (ops : SocketOps S) (heap : Heap) (request : Msgpack A)
    (response : Msgpack B) (request_law : IsRoundTrip request) (response_law : IsRoundTrip response)
    (free : GrantsAll heap) (connect : Str → S) (name : Str) (func : Callback W A B) (port : ℤ)
    (handlers : Handlers W) (a b : NodeInfoManager) where
  -- The handlers and the table of node `a` with the service.
  abbrev pub offering : Handlers W × NodeInfoManager
  offering = register_service_handler heap request response name func port (handlers, a)

  abbrev pub socket : SocketInfo
  socket = record { name = name; ip = a.local_node_info.ip; port = to_u16 port }

  socket-Offered :
      find a.local_node_info.node_id b.nodes_info ≡ some offering.1.local_node_info
      → Offered name socket (λ n. n.services) b.nodes_info
  unfolding register_service_handler register_local_service
  socket-Offered known = (
    a.local_node_info.node_id,
    offering.1.local_node_info,
    known,
    Has-append_right socket a.local_node_info.services _ (inl refl),
  )

  -- Node `a` registers a service under a name with no NUL and at most 1024 bytes; node `b`, whose
  -- tables agree, has the info of `a` from then, and knows of no other socket with that name. Then
  -- `zlcRequest` on node `b` leaves in `response` the value that the handler of `a` returned for the
  -- request that was passed, when the frames are those of the reply of `a` to it. Memory does not
  -- run out, and msgpack reads back what it packed, which is 2 ^ 62 bytes at most and, for the
  -- response, not empty.
  pub zlc_request-served :
      IsConsistent b
      → find a.local_node_info.node_id b.nodes_info ≡ some offering.1.local_node_info
      → IsOnly socket b
      → length name ≤ max_len
      → All (λ c. c ≢ 0) name
      → (req : A) (resp before : B) (w w' after : W) (reply : Response) (s s1 s2 : S)
      → func req w ≡ (ok resp, w')
      → length (concat (request.pack req)) ≤ 2 ^ 62
      → length (concat (response.pack resp)) ≤ 2 ^ 62
      → concat (response.pack resp) ≢ []
      → send_request ops name
          (concat (request.pack req))
          (connect (tcp_url a.local_node_info.ip (to_string (pos (to_u16 port)))))
        ≡ ok s
      → handle_request offering.0 (decode_service_header name) (concat (request.pack req)) w
        ≡ (ok reply, after)
      → ops.recv s ≡ (frame reply.code true, s1)
      → ops.recv s1 ≡ (frame reply.payload false, s2)
      → zlc_request ops heap request response connect b name req before ≡ ok resp
  unfolding zlc_request register_service_handler
  zlc_request-served c known only short clean req resp before w w' after reply s s1 s2 called
        request_small response_small full asked replied first second =
      rw (get_service_info-only socket b c only (socket-Offered known), zlc_request)
        (zlc_request_url-served ops heap request response request_law response_law free connect
          (tcp_url a.local_node_info.ip (to_string (pos (to_u16 port)))) name req request_small func
          handlers w w' resp before response_small s s1 s2 reply after short clean called full asked
          replied first second)
