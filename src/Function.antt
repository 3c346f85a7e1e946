-- ===== src/Function.antt =====
-- internal/common/function/function.go: the functions that the controllers share.
pub mod Metadata
pub mod Entries
pub mod Names
pub mod Lookup
pub mod Queue
pub mod Fields
pub mod Validate
pub mod Steps
pub mod Quiet
pub mod Permission
pub mod RestorePermission
pub mod Bounds
pub mod Namespaces
pub mod Enforcement
