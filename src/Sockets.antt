-- ===== src/Sockets.antt =====
-- include/zerolancom/sockets and src/sockets: services, their clients and subscribers.
pub mod ServiceManager
pub mod Client
pub mod SubscriberManager
pub mod Discovery
