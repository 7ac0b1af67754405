-- ===== src/Broker.antt =====
-- `MessageBroker` of src/agents_protocol/messaging.py: its state and the steps of a delivery. What
-- is sent is in the modules below.
--
-- The cluster is an interface (`ClusterLink`), the clock a list of readings, and `put_error` says
-- which puts into an inbox raise. A put into a full inbox waits: the run ends there as `blocked`.
pub mod World
pub mod Delivery
pub mod Sending
pub mod Requests
pub mod Replay
pub mod Frame
pub mod Steps
pub mod Keeping
pub mod Verdicts
pub mod Unknown
pub mod Isolation
pub mod Accounting
pub mod Copies
pub mod Gathering
pub mod Broadcasts
pub mod Direct
pub mod Queues
pub mod Taking
pub mod Handouts
pub mod Arrivals
pub mod Registration
pub mod Refusals
pub mod Handover
pub use World.*
pub use Delivery.*
pub use Sending.*
