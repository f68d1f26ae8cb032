-- ===== src/Utils.antt =====
-- include/zerolancom/utils: what the components are built on.
pub mod Subnet
pub mod Endpoint
pub mod Uuid
pub mod Socket
pub mod ThreadPool
pub mod PeriodicTask
pub mod Singleton
pub mod Event
pub mod Logger
pub mod ZmqContext
