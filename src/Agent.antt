-- ===== src/Agent.antt =====
-- internal/agent: the agent on each node.
pub mod Paths
pub mod Volumes
pub mod Filter
pub mod Coalesce
pub mod Watches
pub mod Snapshot
