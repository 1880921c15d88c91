-- ===== src/Agent.antt =====
-- internal/agent: the names of the agents that serve the devices, their gRPC server, its client, and
-- the pool of clients.
pub mod Naming
pub mod Rpc
pub mod Server
pub mod Client
pub mod Pool
