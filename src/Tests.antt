-- ===== src/Tests.antt =====
-- Runs of the model on concrete inputs, one for each property with hypotheses.
mod Data
mod Wire
mod Nodes
mod Multicast
mod Node
mod Sockets
mod Client
mod Serialization
mod Pool
mod WakeUps
mod Locks
mod Calls
mod Periodic
mod Api
mod NodeCodec
mod Discovered
mod Cluster
mod Mesh
