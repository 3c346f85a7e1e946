-- ===== src/Download.antt =====
-- internal/controller/nonadmindownloadrequest_controller.go: the controller of
-- NonAdminDownloadRequests.
pub mod Steps
pub mod Rules
pub mod Safety
