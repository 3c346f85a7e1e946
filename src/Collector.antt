-- ===== src/Collector.antt =====
-- internal/controller/garbagecollector_controller.go: the garbage collector of the OADP namespace.
pub mod Sweeps
pub mod Group
pub mod Turns
pub mod Rules
pub mod Orphans
pub mod Safety
