-- ===== src/Tests/Download.antt =====
-- The controller of NonAdminDownloadRequests in a concrete cluster.
use oadp_non_admin.Base.{[], none, refl}
use oadp_non_admin.Kube.Objects.{NonAdminPhase, DownloadTargetKind}
use oadp_non_admin.Kube.Status.{ApiError, NonAdminDownloadRequest}
use oadp_non_admin.Kube.Api.{Call, ok, err, History, Server, run}
use oadp_non_admin.Kube.Rules.{Obeys}
use oadp_non_admin.Download.Steps.{DownloadReconciler, reconcile_download}
use oadp_non_admin.Download.Rules.{LawfulDownload, download_rules}
use oadp_non_admin.Download.Safety.{reconcile_download-Obeys}
use oadp_non_admin.Tests.Cluster.{object, vendor, created_nab, new_nar}

-- The log of the restore `undo` is asked for.
abbrev log_request : NonAdminDownloadRequest
log_request = record {
  meta = record (object "log" "shop") { uid = "42" };
  kind = DownloadTargetKind.restore_log;
  target = "undo";
  status = record { velero_status = none; phase = NonAdminPhase.unset; conditions = [] };
}

-- No Velero request is there, the restore is of `nightly`, and writes store what they are given.
abbrev download_server : Server
download_server h Call.now = ok 100
download_server h (Call.get_download_request _) = err ApiError.not_found
download_server h (Call.get_nar key) = ok (new_nar key "nightly")
download_server h (Call.get_nab key) = ok (created_nab key)
download_server h (Call.create_download_request dr) = ok dr
download_server h (Call.patch_nadr_status _ req) = ok req
download_server h _ = err ApiError.other

download_server-LawfulDownload : (g : History) (c : Call) → LawfulDownload c (download_server g c)
download_server-LawfulDownload g (Call.patch_nadr_status _ req) = (refl, refl)
download_server-LawfulDownload g _ = tt

abbrev downloader : DownloadReconciler
downloader = record { oadp_namespace = "openshift-adp" }

reconcile_download-Obeys_example :
    Obeys
      (download_rules ⦃v = vendor⦄ downloader log_request)
      (run download_server [] (reconcile_download ⦃v = vendor⦄ downloader log_request)).1
reconcile_download-Obeys_example =
    reconcile_download-Obeys ⦃v = vendor⦄ downloader log_request download_server
      download_server-LawfulDownload
