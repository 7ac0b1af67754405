-- ===== src/Cluster.antt =====
-- src/agents_protocol/cluster.py: peers, forwarding with circuit breaker and retries, heartbeats,
-- removal of silent peers. Times are milliseconds. The network is a state `S` with the calls of the
-- HTTP client as functions of it (`Network`).
pub mod Peer
pub mod Manager
pub mod Failing
pub mod Forwarding
pub mod Link
pub mod EndToEnd
pub mod Pruning
pub mod Routing
pub mod Restart
pub use Peer.*
pub use Manager.*
