-- ===== src/Sockets/ServiceManager.antt =====
-- include/zerolancom/sockets/service_manager.hpp, src/sockets/service_manager.cpp and the status
-- codes of include/zerolancom/utils/request_result.hpp. `W` is the state that the handlers share.
pub mod Replies
pub mod Polling
use zero_lan_com.Base.{ℕ, List, [], ◌∷◌, Option, none, some, Bool, true, false}
use zero_lan_com.Base.Text.{Str, bytes}
use zero_lan_com.Base.Int.{ℤ}
use zero_lan_com.Base.Map.{Map, find, insert, erase}
use zero_lan_com.Base.Result.{
  Exception, Result, ok, err, encode_exception, decode_exception, unknown_exception,
  undefined_behaviour,
}
use zero_lan_com.Serialization.ByteBuffer.{ByteBuffer, Heap, contents}
use zero_lan_com.Serialization.ByteBuffer
use zero_lan_com.Serialization.ServiceHeader.{decode_service_header}
use zero_lan_com.Serialization.Codec.{Msgpack, encode, decode}
use zero_lan_com.Utils.Socket.{
  SocketOps, Received, frame, timeout, recv_failed, Sent, sent, send_failed,
}

abbrev pub success : Str
success = bytes "SUCCESS"

abbrev pub no_service : Str
no_service = bytes "NOSERVICE"

abbrev pub invalid_response : Str
invalid_response = bytes "INVALID_RESPONSE"

abbrev pub service_fail : Str
service_fail = bytes "SERVICE_FAIL"

abbrev pub invalid_request : Str
invalid_request = bytes "INVALID_REQUEST"

pub record Response : Type 0 where
  pub code : Str
  pub payload : List ℕ

-- A callable that may throw and may change what it shares with others.
abbrev pub Callback : Type 0 → Type 0 → Type 0 → Type 0
Callback W A B = A → W → Result B × W

abbrev pub Handlers : Type 0 → Type 0
Handlers W = Map (Callback W (List ℕ) (List ℕ))

-- The handlers of the `try` block; what is no `std::exception` goes on to the caller.
unfoldable pub catch_exception : Exception → Result Response
catch_exception decode_exception = ok (record { code = invalid_response; payload = [] })
catch_exception encode_exception = ok (record { code = invalid_request; payload = [] })
catch_exception unknown_exception = err unknown_exception
catch_exception undefined_behaviour = err undefined_behaviour
catch_exception e = ok (record { code = service_fail; payload = [] })

module _ {W : Type 0} where
  -- The lambda of `registerHandler`.
  module _ {A B : Type 0} (heap : Heap) (request : Msgpack A) (response : Msgpack B) where
    finish : Result B × W → Result (List ℕ) × W
    finish (err e, w) = (err e, w)
    finish (ok resp, w) = elim (encode response heap resp ByteBuffer.empty) [
      | err e ↦ (err e, w)
      | ok out ↦ (ok (contents out), w)
    ]

    unfoldable pub wrap : Callback W A B → Callback W (List ℕ) (List ℕ)
    unfolding finish
    wrap func payload w = elim (decode request payload) [
      | err e ↦ (err e, w)
      | ok req ↦ finish (func req w)
    ]

    unfoldable pub register_handler : Str → Callback W A B → Handlers W → Handlers W
    register_handler name func handlers = insert name (wrap func) handlers

  unfoldable pub clear_handlers : Handlers W → Handlers W
  clear_handlers handlers = []

  unfoldable pub remove_handler : Str → Handlers W → Handlers W
  remove_handler name handlers = erase name handlers

  answer : Result (List ℕ) × W → Result Response × W
  unfolding catch_exception
  answer (ok payload, w) = (ok (record { code = success; payload = payload }), w)
  answer (err e, w) = (catch_exception e, w)

  unfoldable pub handle_request : Handlers W → Str → List ℕ → W → Result Response × W
  unfolding answer
  handle_request handlers service_name payload w = elim (find service_name handlers) [
    | none ↦ (ok (record { code = no_service; payload = [] }), w)
    | some handler ↦ answer (handler payload w)
  ]

  module _ {S : Type 0} (ops : SocketOps S) (handlers : Handlers W) where
    -- An exception in `send` is caught like one in `recv`.
    send_response : Result Response × W → S → Result (Unit {0}) × S × W
    send_response (err e, w) s = (err e, s, w)
    send_response (ok response, w) s =
        let (first, s') = ops.send response.code true s in
        elim first [
          | send_failed e ↦ (ok tt, s', w)
          | sent ↦ (ok tt, (ops.send response.payload false s').1, w)
        ]

    receive_payload : Str → Received × S → W → Result (Unit {0}) × S × W
    unfolding send_response
    receive_payload service_name (timeout, s) w = (ok tt, s, w)
    receive_payload service_name (recv_failed e, s) w = (ok tt, s, w)
    receive_payload service_name (frame payload more, s) w =
        send_response (handle_request handlers service_name payload w) s

    receive_name : Received × S → W → Result (Unit {0}) × S × W
    unfolding receive_payload
    receive_name (timeout, s) w = (ok tt, s, w)
    receive_name (recv_failed e, s) w = (ok tt, s, w)
    receive_name (frame name false, s) w = (ok tt, s, w)
    receive_name (frame name true, s) w =
        receive_payload (decode_service_header name) (ops.recv s) w

    unfoldable pub poll_once : S → W → Result (Unit {0}) × S × W
    unfolding receive_name
    poll_once s w = receive_name (ops.recv s) w
