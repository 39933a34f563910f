-- ===== src/Tests.antt =====
-- The theorems at concrete data, and runs of the definitions.
mod Data
mod Choice
mod Failover
mod Replication
mod Files
mod Paths
mod Watches
mod Reconcile
mod Desired
