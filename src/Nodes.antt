-- ===== src/Nodes.antt =====
-- include/zerolancom/nodes and src/nodes: discovery of the other nodes of the group.
pub mod Heartbeat
pub mod NodeInfo
pub mod NodeInfoManager
pub mod Multicast
pub mod ZeroLanComNode
pub mod Cluster
