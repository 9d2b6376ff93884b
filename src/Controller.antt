-- ===== src/Controller.antt =====
-- internal/controller: the reconciler of NetworkPolicy resources.
pub mod Statuses
pub mod Retention
pub mod Sync
pub mod Report
pub mod Cluster
pub mod Reconcile
pub mod Setup
