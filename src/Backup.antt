-- ===== src/Backup.antt =====
-- internal/controller/nonadminbackup_controller.go: the controller of NonAdminBackup objects.
pub mod Status
pub mod Deletion
pub mod Creation
pub mod Reconcile
pub mod Exact
pub mod Exclusion
pub mod Recognition
pub mod Validation
pub mod Mirror
pub mod Restores
pub mod Safety
