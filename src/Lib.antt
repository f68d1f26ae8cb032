-- ===== src/Lib.antt =====
-- ZeroLanCom: discovery, publish/subscribe and services in a local network without a broker.
--
-- A node (`ZeroLanComNode`) announces itself once a second by a multicast datagram
-- (`MulticastSender`). Each node that receives one of its group (`MulticastReceiver`) notes the time,
-- and fetches the full `NodeInfo` over the service `get_node_info` if it is new or has changed
-- (`NodeInfoManager`, `Client`); nodes that are silent are forgotten. Events of the node table make
-- subscribers connect to the publishers of their topic (`SubscriberManager`). Services are answered
-- by `ServiceManager` over a REP socket. All loops run as periodic tasks on one `ThreadPool`.
--
-- The parts, with the paths of the repository (headers are in include/zerolancom):
--   Base                         shared helpers: bytes and strings, Boolean tests, lists, signed and
--                                machine integers, `std::unordered_map` as a list of entries,
--                                results with exceptions
--   Nodes.Heartbeat              nodes/heartbeat_message.hpp, src/nodes/heartbeat_message.cpp
--   Nodes.NodeInfo               nodes/node_info.hpp, src/nodes/node_info.cpp
--   Nodes.NodeInfoManager        nodes/node_info_manager.hpp, src/nodes/node_info_manager.cpp: one
--                                function for what each method does while it holds the lock
--                                (`checkHeartbeats` is `check_heartbeats`, and so on);
--                                `processHeartbeat` is two such sections and the fetch between them
--   Nodes.NodeInfoManager.Table  the specification of the node table
--   Nodes.NodeInfoManager.Throwing  `checkHeartbeats` where a subscriber of its event throws
--   Nodes.Multicast              nodes/multicast.hpp, src/nodes/multicast.cpp: the bodies of the two
--                                periodic tasks; in Endpoints the sockets, as system calls in order
--   Nodes.Cluster                all nodes of a group together: their tables, the heartbeats that
--                                were sent, and where each receiver is in `processHeartbeat`
--   Nodes.ZeroLanComNode         nodes/zerolancom_node.hpp, src/nodes/zerolancom_node.cpp, and
--                                `init`, `shutdown`, `spin` of src/zerolancom.cpp; in Shutdown how
--                                `stop` waits for the loops of sender and receiver
--   Serialization.ByteBuffer     `ByteBuffer` of serialization/binary_codec.hpp and
--                                src/serialization/binary_codec.cpp
--   Serialization.ServiceHeader  `decodeServiceHeader` of src/serialization/binary_codec.cpp
--   Serialization.Codec          serialization/msppack_codec.hpp
--   Sockets.ServiceManager       sockets/service_manager.hpp, src/sockets/service_manager.cpp,
--                                utils/request_result.hpp
--   Sockets.Client               sockets/client.hpp, src/sockets/client.cpp, `fetchNodeInfo`;
--                                in Fetch `registerGetNodeInfoService`, which answers it
--   Sockets.SubscriberManager    sockets/subscriber_manager.hpp, src/sockets/subscriber_manager.cpp; in
--                                Snapshot the pointers that `pollOnce` keeps without its lock
--   Utils.ThreadPool             utils/thread_pool.hpp, as a relation of the steps that callers and
--                                workers make in any order; in WakeUps and Waiters, on top of it,
--                                the condition variables `cv_` and `cv_done_`
--   Utils.Singleton              utils/singleton.hpp
--   Utils.Event                  utils/event.hpp
--   Utils.Logger                 utils/logger.hpp, src/utils/logger.cpp
--   Utils.ZmqContext             `ZMQContext` of utils/zmq_utils.hpp
--   Utils.Subnet, Utils.Endpoint utils/zmq_utils.hpp
--   Utils.Uuid                   utils/message.hpp
--   Utils.PeriodicTask           utils/periodic_task.hpp
--   Sockets.Discovery            subscriptions, fetches and events in any order; in Locks the threads
--                                that hold `mutex_` and `data_mutex_`
--   Api                          zerolancom.hpp, sockets/publisher.hpp, `waitForService` of
--                                src/zerolancom.cpp
--   Mesh                         the nodes of a group with their subscribers: Nodes.Cluster and
--                                Sockets.Discovery together. More can happen there than on real nodes,
--                                where a check follows each heartbeat and two threads may block each
--                                other, so that nothing is said of what can come about
--   Tests                        runs on concrete inputs
--
-- State is passed explicitly, and an exception is a value of `Result`. Text is a list of bytes. A
-- number of the program is a natural number or `ℤ` of Base.Int with its wrap-around written out;
-- times are nanoseconds of `steady_clock`. What critical sections of several threads do together is
-- a list of sections in the order in which they get the lock.
--
-- Parameters, because their code is not in the repository: msgpack (`Msgpack`: what the packer
-- writes, what unpacking gives), ZeroMQ sockets (`SocketOps`), `inet_aton`, `realloc` (`Heap`), the
-- random engine, the clock, the datagrams that `recvfrom` finds (`Round`), `inet_addr`, the file
-- system, and how a `std::vector` grows. A SUB socket is the list of endpoints that `connect` and
-- `disconnect` leave it with; these do not fail. Calls of spdlog, of ZeroMQ's sockets and of the system are
-- recorded in order where it matters which are made.
--
-- Bounds: a write needs `size + len` below 2 ^ 64, an encoding takes 2 ^ 62 bytes at most; a node
-- registers fewer than 2 ^ 32 topics and services, in Api between two heartbeats that arrive and in
-- Nodes.Cluster and Mesh in all. There a fetch is answered by the node that the heartbeat names, and
-- in Mesh no two nodes announce one endpoint. `polls` has a number of rounds, which is a parameter of
-- its theorem; `wait_for_service` has as much fuel as its theorem gives it, one turn more than the
-- milliseconds to wait. No other function has fuel.
--
-- Not modelled: what a socket option does and the sending itself (pure I/O); the texts of log lines
-- but for those of `printNodeInfo`; times of waiting, such as the five seconds of
-- `PeriodicTask::stop`, after which it goes on, and the timeouts of `recv`; data races as such, since a
-- section under a lock or an access to one variable is one step; in Nodes.NodeInfoManager and in
-- Sockets.Discovery, subscribers of events that throw; in Nodes.ZeroLanComNode, but for Shutdown, a
-- `ThreadPool::stop` that does not return; the Python binding, the examples
-- and the tests.
pub mod Base
pub mod Utils
pub mod Serialization
pub mod Nodes
pub mod Sockets
pub mod Api
pub mod Mesh
pub mod Tests
