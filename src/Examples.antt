-- ===== src/Examples.antt =====
-- The programs of examples/ that use the package.
pub mod Secure
pub mod Policy
pub mod Access
pub mod Service
pub mod Ping
pub mod Echo
pub mod Met
pub mod Missed
