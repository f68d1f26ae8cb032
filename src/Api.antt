-- ===== src/Api.antt =====
-- The functions that a program calls: include/zerolancom/zerolancom.hpp, `waitForService` of
-- src/zerolancom.cpp, and `Publisher` of include/zerolancom/sockets/publisher.hpp.
pub mod Waiting
pub mod Announced
pub mod Reached
pub mod Discovered
pub mod Called
pub mod Published
use zero_lan_com.Base.{
  ℕ, zero, suc, ◌+◌, ◌%◌, ◌^◌, List, [], ◌∷◌, ◌++◌, Option, none, some, Bool, true, false, ltb,
  if◌then◌else◌,
}
use zero_lan_com.Base.Text.{Str, bytes}
use zero_lan_com.Base.Int.{ℤ, to_u32}
use zero_lan_com.Base.Result.{Exception, Result, ok, err, zmq_error, ◌>>=◌}
use zero_lan_com.Serialization.ByteBuffer.{Heap, contents}
use zero_lan_com.Serialization.ByteBuffer
use zero_lan_com.Serialization.Codec.{Msgpack, encode}
use zero_lan_com.Utils.Endpoint.{get_bound_port}
use zero_lan_com.Utils.Socket.{SocketOps, Sent, sent, send_failed}
use zero_lan_com.Nodes.NodeInfoManager.{
  NodeInfoManager, get_service_info, register_local_topic, register_local_service,
}
use zero_lan_com.Sockets.ServiceManager.{Callback, Handlers, register_handler}
use zero_lan_com.Sockets.Client.{zlc_request}
use zero_lan_com.Sockets.SubscriberManager.{Subscriber, register_typed}

-- `static_cast<uint16_t>` of an `int`.
unfoldable pub to_u16 : ℤ → ℕ
to_u16 port = to_u32 port % 2 ^ 16

unfoldable pub full_topic_name : Bool → Str → Str
full_topic_name with_local_namespace topic_name =
    if with_local_namespace then bytes "lc.local." ++ topic_name else topic_name

-- The constructor of `Publisher`. `bind` binds the socket to the local address and an ephemeral
-- port, and gives `last_endpoint`.
unfoldable pub construct_publisher :
    Result Str → Str → Bool → NodeInfoManager → Result (ℤ × NodeInfoManager)
construct_publisher bind topic_name with_local_namespace m = do
  endpoint ← bind
  port ← get_bound_port endpoint
  ok (port, register_local_topic (full_topic_name with_local_namespace topic_name) (to_u16 port) m)

published : {S : Type 0} → Sent × S → Result S
published (sent, s) = ok s
published (send_failed e, s) = err (zmq_error e)

unfoldable pub publish : {S T : Type 0} → SocketOps S → Heap → Msgpack T → T → S → Result S
unfolding published
publish ops heap codec msg s = do
  out ← encode codec heap msg ByteBuffer.empty
  published (ops.send (contents out) false s)

-- `registerServiceHandler`, in both forms. The port goes into a `uint16_t`.
unfoldable pub register_service_handler :
    {W A B : Type 0}
    → Heap
    → Msgpack A
    → Msgpack B
    → Str
    → Callback W A B
    → ℤ
    → Handlers W × NodeInfoManager
    → Handlers W × NodeInfoManager
register_service_handler heap request response service_name handler service_port (handlers, m) = (
  register_handler heap request response service_name handler handlers,
  register_local_service service_name (to_u16 service_port) m,
)

-- `registerSubscriberHandler`, in both forms.
unfoldable pub register_subscriber_handler :
    {W T : Type 0}
    → Msgpack T
    → Str
    → (T → W → Result (Unit {0}) × W)
    → ℕ
    → NodeInfoManager
    → List (Subscriber W)
    → List (Subscriber W)
register_subscriber_handler codec name callback socket m subscribers =
    register_typed codec name callback socket m subscribers

-- How `waitForService` returns: at the lookup that finds the service, after the time is over, or
-- never because `waited_ms` leaves the range of `int`.
pub data Waited : Type 0 where
  available : ℕ → Waited
  timed_out : Waited
  overflow : Waited

-- `tables k` is the node table at the lookup `k`. Times are not negative. `none`: no fuel is left.
unfoldable pub wait_loop : (ℕ → NodeInfoManager) → Str → ℕ → ℕ → ℕ → ℕ → ℕ → Option Waited
wait_loop tables service_name max_wait_ms check_interval_ms zero k waited_ms = none
wait_loop tables service_name max_wait_ms check_interval_ms (suc fuel) k waited_ms =
    let later =
      wait_loop tables service_name max_wait_ms check_interval_ms fuel (suc k)
        (waited_ms + check_interval_ms) in
    if ltb waited_ms max_wait_ms
    then elim (get_service_info service_name (tables k)) [
      | some info ↦ some (available k)
      | none ↦ if ltb (waited_ms + check_interval_ms) (2 ^ 31) then later else some overflow
    ]
    else some timed_out

unfoldable pub wait_for_service : (ℕ → NodeInfoManager) → Str → ℕ → ℕ → ℕ → Option Waited
wait_for_service tables service_name max_wait_ms check_interval_ms fuel =
    wait_loop tables service_name max_wait_ms check_interval_ms fuel 0 0

-- What `request` comes to once the wait is over: it does not matter how it ended.
unfoldable pub request_after_wait :
    {S A B : Type 0}
    → SocketOps S
    → Heap
    → Msgpack A
    → Msgpack B
    → (Str → S)
    → Option Waited
    → NodeInfoManager
    → Str
    → A
    → B
    → Option (Result B)
request_after_wait ops heap request_codec response_codec connect waited m service_name req res =
    elim waited [
      | none ↦ none
      | some w ↦
          some (zlc_request ops heap request_codec response_codec connect m service_name req res)
    ]
