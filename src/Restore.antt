-- ===== src/Restore.antt =====
-- internal/controller/nonadminrestore_controller.go: the controller of NonAdminRestore objects.
pub mod Status
pub mod Steps
pub mod Reconcile
pub mod Safety
pub mod Exact
