-- ===== src/Tests.antt =====
-- The theorems at concrete inputs: a vendor, a cluster, and what the controllers do in it.
pub mod Cluster
mod Backup
mod Function
pub mod Restore
pub mod Collector
pub mod Download
mod Watch
mod Secrets
mod Restored
