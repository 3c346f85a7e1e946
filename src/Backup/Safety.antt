-- ===== src/Backup/Safety.antt =====
-- What the controller of internal/controller/nonadminbackup_controller.go never does, whatever the
-- API server answers: the rules, and that the steps keep them.
pub mod Defs
pub mod Calls
pub mod Harmless
pub mod Deletion
pub mod Creation
pub mod Reconcile
