-- ===== src/Tests.antt =====
-- The theorems applied to concrete inputs.
mod Examples
mod Data
mod Messages
mod Faults
mod Stores
mod Bridges
mod Brokers
mod Clusters
mod Agents
mod Channels
