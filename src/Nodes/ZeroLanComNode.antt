-- ===== src/Nodes/ZeroLanComNode.antt =====
-- include/zerolancom/nodes/zerolancom_node.hpp and src/nodes/zerolancom_node.cpp, with `init` and
-- `shutdown` of src/zerolancom.cpp: the order in which the singletons are made, started, stopped and
-- destroyed. Of each singleton the model keeps whether its instance is there.
pub mod Restart
pub mod Shutdown
use zero_lan_com.Base.{ℕ, List, [], ◌∷◌, ◌++◌, Bool, true, false, if◌then◌else◌}
use zero_lan_com.Base.Result.{
  Exception, Result, ok, err, logic_error, undefined_behaviour, zmq_error,
}

pub data Component : Type 0 where
  thread_pool zmq_context node_info_manager service_manager : Component
  multicast_receiver multicast_sender subscriber_manager : Component

pub record Instances : Type 0 where
  pub thread_pool : Bool
  pub zmq_context : Bool
  pub node_info_manager : Bool
  pub service_manager : Bool
  pub multicast_receiver : Bool
  pub multicast_sender : Bool
  pub subscriber_manager : Bool

abbrev pub all_instances : Instances
all_instances = record {
  thread_pool = true;
  zmq_context = true;
  node_info_manager = true;
  service_manager = true;
  multicast_receiver = true;
  multicast_sender = true;
  subscriber_manager = true;
}

abbrev pub no_instances : Instances
no_instances = record {
  thread_pool = false;
  zmq_context = false;
  node_info_manager = false;
  service_manager = false;
  multicast_receiver = false;
  multicast_sender = false;
  subscriber_manager = false;
}

pub record World : Type 0 where
  pub instances : Instances
  -- `ZeroLanComNode`'s own instance, and its flag
  pub node : Bool
  pub running : Bool
  pub pool_running : Bool
  pub pool_threads : ℕ
  -- the periodic tasks that the pool was given, and those told to stop
  pub enqueued : List Component
  pub stopped : List Component
  pub get_node_info_registered : Bool
  pub logger : Bool

has : Component → Instances → Bool
has thread_pool i = i.thread_pool
has zmq_context i = i.zmq_context
has node_info_manager i = i.node_info_manager
has service_manager i = i.service_manager
has multicast_receiver i = i.multicast_receiver
has multicast_sender i = i.multicast_sender
has subscriber_manager i = i.subscriber_manager

put : Component → Bool → Instances → Instances
put thread_pool b i = record i { thread_pool = b }
put zmq_context b i = record i { zmq_context = b }
put node_info_manager b i = record i { node_info_manager = b }
put service_manager b i = record i { service_manager = b }
put multicast_receiver b i = record i { multicast_receiver = b }
put multicast_sender b i = record i { multicast_sender = b }
put subscriber_manager b i = record i { subscriber_manager = b }

-- What was done before an exception stays done.
abbrev pub Exec : Type 0
Exec = World → Result (Unit {0}) × World

abbrev continue : Exec → Result (Unit {0}) × World → Result (Unit {0}) × World
continue k (ok _, w) = k w
continue k (err e, w) = (err e, w)

infixr 6 ◌▸◌
abbrev ◌▸◌ : Exec → Exec → Exec
◌▸◌ m k w = continue k (m w)

-- `instance()` and `instancePtr()`: `logic_error` where there is none.
require : Component → Exec
unfolding has
require c w = if has c w.instances then (ok tt, w) else (err logic_error, w)

-- `assert(instance_ != nullptr)` of `ZMQContext`.
assert_context : Exec
assert_context w = if w.instances.zmq_context then (ok tt, w) else (err undefined_behaviour, w)

-- `res_socket_->bind` finds a port or throws `zmq::error_t`.
bind_socket : Result (Unit {0}) → Exec
bind_socket bound w = (bound, w)

-- The constructors, as far as they may throw.
construct : Result (Unit {0}) → Component → Exec
unfolding require assert_context bind_socket
construct bound service_manager = assert_context ▸ bind_socket bound
construct bound multicast_receiver = require node_info_manager
construct bound multicast_sender = require node_info_manager
construct bound subscriber_manager = require node_info_manager
construct bound _ = λ w. (ok tt, w)

made : Component → Exec
unfolding put
made c w = (ok tt, record w { instances = put c true w.instances })

-- `initExternal`.
init_external : Result (Unit {0}) → Component → Exec
unfolding has construct made
init_external bound c w =
    if has c w.instances then (err logic_error, w) else (construct bound c ▸ made c) w

-- The handlers go with the service manager.
registered_after : Component → Bool → Bool
registered_after service_manager b = false
registered_after _ b = b

destroy : Component → Exec
unfolding put registered_after
destroy c w = (
  ok tt,
  record w {
    instances = put c false w.instances;
    get_node_info_registered = registered_after c w.get_node_info_registered;
  },
)

-- `PeriodicTask::start` of a component: a pool that does not run drops the task.
start_task : Component → Exec
unfolding require
start_task c = require c ▸ require thread_pool ▸ λ w.
    (ok tt, record w { enqueued = if w.pool_running then w.enqueued ++ c ∷ [] else w.enqueued })

stop_task : Component → Exec
unfolding require
stop_task c = require c ▸ λ w. (ok tt, record w { stopped = w.stopped ++ c ∷ [] })

register_get_node_info : Exec
unfolding require
register_get_node_info =
    require service_manager ▸ λ w. (ok tt, record w { get_node_info_registered = true })

-- The constructor of `ZeroLanComNode`; the pool has four threads.
unfoldable pub construct_node : Result (Unit {0}) → Exec
unfolding require init_external register_get_node_info start_task
construct_node bound =
    init_external bound thread_pool
    ▸ (λ w. (ok tt, record w { pool_threads = 4 }))
    ▸ init_external bound zmq_context
    ▸ init_external bound node_info_manager
    ▸ init_external bound service_manager
    ▸ require node_info_manager
    ▸ require service_manager
    ▸ init_external bound multicast_receiver
    ▸ init_external bound multicast_sender
    ▸ init_external bound subscriber_manager
    ▸ register_get_node_info
    ▸ require thread_pool
    ▸ (λ w. (ok tt, record w { pool_running = true }))
    ▸ start_task multicast_sender
    ▸ start_task multicast_receiver
    ▸ start_task service_manager
    ▸ start_task subscriber_manager
    ▸ λ w. (ok tt, record w { running = true })

-- `ThreadPool::stop` where its joins return: the loops that were told to stop have ended. Whether
-- they come to end is the question of Shutdown.
stop_pool : Exec
unfolding require
stop_pool = require thread_pool ▸ λ w.
    (ok tt, record w { pool_running = false; enqueued = []; stopped = [] })

unfoldable pub stop : Exec
unfolding stop_task stop_pool destroy
stop =
    (λ w. (ok tt, record w { running = false }))
    ▸ stop_task multicast_sender
    ▸ stop_task multicast_receiver
    ▸ stop_task service_manager
    ▸ stop_task subscriber_manager
    ▸ stop_pool
    ▸ destroy subscriber_manager
    ▸ destroy service_manager
    ▸ destroy multicast_receiver
    ▸ destroy multicast_sender
    ▸ destroy node_info_manager
    ▸ destroy zmq_context
    ▸ destroy thread_pool
    ▸ λ w. (ok tt, record w { logger = false })

-- `zlc::init`: the logger, and `ZeroLanComNode::initManaged`.
unfoldable pub init : Result (Unit {0}) → Exec
init bound w =
    let logging = record w { logger = true } in
    if w.node
    then (err logic_error, logging)
    else (construct_node bound ▸ λ v. (ok tt, record v { node = true })) logging

-- `zlc::shutdown`: the destructor of the node is `stop`. An exception that leaves a destructor ends
-- the process.
unfoldable pub shutdown : Exec
shutdown w = if w.node then (stop ▸ λ v. (ok tt, record v { node = false })) w else (ok tt, w)

-- `spin` returns from its loop when the flag is down, and then stops the node.
unfoldable pub spin_end : Exec
spin_end w = if w.running then (ok tt, w) else stop w
