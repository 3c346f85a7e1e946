-- ===== src/Watch/Requests.antt =====
-- For whom the requests of accepted updates of Velero backups are.
use oadp_non_admin.Kube.Vendor.{Vendor}
