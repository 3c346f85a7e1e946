-- ===== src/Restore/Safety.antt =====
-- What the controller of internal/controller/nonadminrestore_controller.go never does, whatever the
-- API server answers: the rules, and that the steps keep them.
pub mod Defs
pub mod Calls
pub mod Steps
pub mod Creation
pub mod Reconcile
