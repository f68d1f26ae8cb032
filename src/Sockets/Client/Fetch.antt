-- ===== src/Sockets/Client/Fetch.antt =====
-- The service `get_node_info`, which src/nodes/zerolancom_node.cpp registers, and `fetchNodeInfo` of
-- src/nodes/node_info_manager.cpp, which calls it.
use zero_lan_com.Base.{◌^◌, ◌≤◌, [], some, true, false, length, ◌≡◌, ◌≢◌, refl, arith}
use zero_lan_com.Base.Text.{Str, bytes}
use zero_lan_com.Base.Int.{ℤ}
use zero_lan_com.Base.Decimal.{to_string}
use zero_lan_com.Base.Result.{ok}
use zero_lan_com.Serialization.ByteBuffer.{Heap}
use zero_lan_com.Serialization.ByteBuffer.Write.{concat}
use zero_lan_com.Serialization.ServiceHeader.{decode_service_header}
use zero_lan_com.Serialization.Codec.{Msgpack, IsRoundTrip, Empty, empty}
use zero_lan_com.Utils.Endpoint.{tcp_url}
use zero_lan_com.Utils.Socket.{SocketOps, frame}
use zero_lan_com.Nodes.NodeInfo.{NodeInfo}
use zero_lan_com.Nodes.NodeInfoManager.{NodeInfoManager}
use zero_lan_com.Sockets.ServiceManager.{
  Response, Callback, Handlers, register_handler, handle_request,
}
use zero_lan_com.Sockets.ServiceManager.Replies.{GrantsAll}
use zero_lan_com.Sockets.Client.{send_request, fetch_node_info}
use zero_lan_com.Sockets.Client.Requests.{zlc_request_url-served}

abbrev pub get_node_info : Str
get_node_info = bytes "get_node_info"

-- The lambda that `registerGetNodeInfoService` passes.
abbrev pub give_node_info : Callback NodeInfoManager Empty NodeInfo
give_node_info request m = (ok m.local_node_info, m)

-- `registerGetNodeInfoService`.
unfoldable pub register_get_node_info_service :
    Heap → Msgpack Empty → Msgpack NodeInfo → Handlers NodeInfoManager → Handlers NodeInfoManager
register_get_node_info_service heap empty_codec info_codec handlers =
    register_handler heap empty_codec info_codec get_node_info give_node_info handlers

module _ {S : Type 0} (ops : SocketOps S) (heap : Heap) (empty_codec : Msgpack Empty)
    (info_codec : Msgpack NodeInfo) (empty_law : IsRoundTrip empty_codec)
    (info_law : IsRoundTrip info_codec) (free : GrantsAll heap)
    (empty_small : length (concat (empty_codec.pack empty)) ≤ 2 ^ 62) (connect : Str → S)
    (blank : NodeInfo) (ip : Str) (port : ℤ) (handlers : Handlers NodeInfoManager)
    (m m' : NodeInfoManager)
    (info_small : length (concat (info_codec.pack m.local_node_info)) ≤ 2 ^ 62)
    (full : concat (info_codec.pack m.local_node_info) ≢ []) (reply : Response)
    (replied : handle_request
        (register_get_node_info_service heap empty_codec info_codec handlers)
        (decode_service_header get_node_info)
        (concat (empty_codec.pack empty))
        m
      ≡ (ok reply, m'))
    (s s1 s2 : S)
    (asked : send_request ops get_node_info
        (concat (empty_codec.pack empty))
        (connect (tcp_url ip (to_string port)))
      ≡ ok s)
    (first : ops.recv s ≡ (frame reply.code true, s1))
    (second : ops.recv s1 ≡ (frame reply.payload false, s2)) where
  -- What the node gives is what the fetch returns.
  pub fetch_node_info-given :
      fetch_node_info ops heap empty_codec info_codec connect blank ip port ≡ some m.local_node_info
  unfolding fetch_node_info register_get_node_info_service
  fetch_node_info-given =
      rw
        (zlc_request_url-served ops heap empty_codec info_codec empty_law info_law free connect
          (tcp_url ip (to_string port)) get_node_info empty empty_small give_node_info handlers m m
          m.local_node_info blank info_small s s1 s2 reply m' (omega arith) (ground arith) refl full
          asked replied first second)
        refl
