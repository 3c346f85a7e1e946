-- ===== src/Synchronizer.antt =====
-- internal/controller/nonadminbackupsynchronizer_controller.go: the controller that makes
-- NonAdminBackups for Velero backups that have none.
pub mod Steps
pub mod Rules
pub mod Survey
pub mod Safety
pub mod Adoption
