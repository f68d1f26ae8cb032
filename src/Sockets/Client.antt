-- ===== src/Sockets/Client.antt =====
-- include/zerolancom/sockets/client.hpp and src/sockets/client.cpp: one request over a fresh REQ
-- socket. `connect url` is that socket after `req_socket.connect(url)`.
pub mod Requests
pub mod Fetch
use zero_lan_com.Base.{
  ℕ, List, [], ◌∷◌, Option, none, some, Bool, true, false, ◌==◌, if◌then◌else◌, length,
}
use zero_lan_com.Base.Text.{Str, bytes}
use zero_lan_com.Base.Int.{ℤ, pos}
use zero_lan_com.Base.Decimal.{to_string}
use zero_lan_com.Base.Result.{Exception, Result, ok, err, zmq_error, ◌>>=◌}
use zero_lan_com.Serialization.ByteBuffer.{Heap, contents}
use zero_lan_com.Serialization.ByteBuffer
use zero_lan_com.Serialization.Codec.{Msgpack, encode, decode, Empty, empty}
use zero_lan_com.Utils.Endpoint.{tcp_url}
use zero_lan_com.Utils.Socket.{
  SocketOps, Received, frame, timeout, recv_failed, Sent, sent, send_failed,
}
use zero_lan_com.Nodes.NodeInfo.{SocketInfo, NodeInfo}
use zero_lan_com.Nodes.NodeInfoManager.{NodeInfoManager, get_service_info}

fetched : Result NodeInfo → Option NodeInfo
fetched (ok info) = some info
fetched (err e) = none

-- `response` is the argument by reference: what it holds before, and after.
pub fill : {B : Type 0} → Msgpack B → B → List ℕ → Result B
fill codec response payload = if length payload == 0 then ok response else decode codec payload

sent_last : {S : Type 0} → Sent × S → Result S
sent_last (send_failed e, s) = err (zmq_error e)
sent_last (sent, s) = ok s

module _ {S : Type 0} (ops : SocketOps S) where
  second_send : List ℕ → Sent × S → Result S
  unfolding sent_last
  second_send payload (send_failed e, s) = err (zmq_error e)
  second_send payload (sent, s) = sent_last (ops.send payload false s)

  unfoldable pub send_request : Str → List ℕ → S → Result S
  unfolding second_send
  send_request service_name payload s = second_send payload (ops.send service_name true s)

  -- `payloadMsg` is empty until a payload is received. A further frame is only logged.
  payload_frame : Received × S → Result (List ℕ)
  payload_frame (timeout, s) = ok []
  payload_frame (recv_failed e, s) = err (zmq_error e)
  payload_frame (frame payload more, s) = ok payload

  status_frame : Received × S → Result (List ℕ)
  unfolding payload_frame
  status_frame (timeout, s) = ok []
  status_frame (recv_failed e, s) = err (zmq_error e)
  status_frame (frame status false, s) = ok []
  status_frame (frame status true, s) = payload_frame (ops.recv s)

  unfoldable pub receive_response : S → Result (List ℕ)
  unfolding status_frame
  receive_response s = status_frame (ops.recv s)

  module _ {A B : Type 0} (heap : Heap) (request_codec : Msgpack A)
      (response_codec : Msgpack B) where
    -- `zlcRequest` with the service's URL.
    unfoldable pub zlc_request_url : (Str → S) → Str → Str → A → B → Result B
    unfolding fill
    zlc_request_url connect service_name service_url request response = do
      out ← encode request_codec heap request ByteBuffer.empty
      s ← send_request service_name (contents out) (connect service_url)
      payload ← receive_response s
      fill response_codec response payload

    -- `zlcRequest` that looks the service up; for a service that is not known it only logs.
    unfoldable pub zlc_request : (Str → S) → NodeInfoManager → Str → A → B → Result B
    zlc_request connect m service_name request response = elim (get_service_info service_name m) [
      | none ↦ ok response
      | some info ↦
          zlc_request_url connect service_name (tcp_url info.ip (to_string (pos info.port))) request
            response
    ]

  -- A request over the address of a node, as `fetchNodeInfo` makes it: every `std::exception`
  -- becomes `nullopt`. `blank` is the `NodeInfo` that is declared without an initialiser.
  unfoldable pub fetch_node_info :
      Heap → Msgpack Empty → Msgpack NodeInfo → (Str → S) → NodeInfo → Str → ℤ → Option NodeInfo
  unfolding fetched
  fetch_node_info heap empty_codec info_codec connect blank ip service_port = fetched (
      zlc_request_url heap empty_codec info_codec connect (bytes "get_node_info")
        (tcp_url ip (to_string service_port)) empty blank)
