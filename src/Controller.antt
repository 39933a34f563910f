-- ===== src/Controller.antt =====
-- internal/controller.
pub mod Kube
pub mod Resources
pub mod Selection
pub mod Promotion
pub mod Provision
pub mod Annotations
pub mod Pods
pub mod Api
pub mod Failover
pub mod Labels
pub mod Replication
pub mod Ownership
pub mod Signature
pub mod Options
pub mod Desired
