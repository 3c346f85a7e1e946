-- ===== src/Restore/Status.antt =====
-- internal/controller/nonadminrestore_controller.go: the functions that bring the status of a
-- NonAdminRestore in line with other objects. Each returns the new status and whether it changed.
use oadp_non_admin.Base.{
  suc, Bool, true, false, Option, none, some, List, [], ◌∷◌, ◌||◌, holds, length, if◌then◌else◌,
}
use oadp_non_admin.Kube.Objects.{
  RestoreStatus, RestoreStatus-discrete, Restore, PodVolumeRestore, PodVolumeRestorePhase,
  DataDownload, DataDownloadPhase, NonAdminPhase,
}
use oadp_non_admin.Kube.Status.{
  NonAdminRestore, NonAdminRestoreStatus, VeleroRestore, Condition, DataMoverDataDownloads,
  FileSystemPodVolumeRestores,
}
use oadp_non_admin.Kube.Vendor.{Vendor}
use oadp_non_admin.Backup.Status.{assign, or_else, update_non_admin_phase}

abbrev pub zero_velero_restore : VeleroRestore
zero_velero_restore = record { status = none; name = ""; nacuuid = ""; namespace = "" }

abbrev pub zero_restore_status : RestoreStatus
zero_restore_status = record { completion_timestamp = none; others = 0 }

unfoldable pub same_restore_status : RestoreStatus → RestoreStatus → Bool
same_restore_status a b = holds (RestoreStatus-discrete a b)

unfoldable pub update_velero_restore_status :
    NonAdminRestoreStatus → Option Restore → NonAdminRestoreStatus × Bool
update_velero_restore_status status none = (status, false)
update_velero_restore_status status (some restore) =
    let reference = or_else status.velero_restore zero_velero_restore in
    let current = or_else reference.status zero_restore_status in
    if same_restore_status current restore.status
    then (
      record status { velero_restore = some (record reference { status = some current }) },
      false,
    )
    else (
      record status { velero_restore = some (record reference { status = some restore.status }) },
      true,
    )

-- The counters of the loop over the PodVolumeRestores, in a record whose `total` stays 0.
abbrev pub count_pod_volume_restore :
    PodVolumeRestorePhase → FileSystemPodVolumeRestores → FileSystemPodVolumeRestores
count_pod_volume_restore PodVolumeRestorePhase.new c = record c { new = suc c.new }
count_pod_volume_restore PodVolumeRestorePhase.in_progress c = record c {
  in_progress = suc c.in_progress;
}
count_pod_volume_restore PodVolumeRestorePhase.failed c = record c { failed = suc c.failed }
count_pod_volume_restore PodVolumeRestorePhase.completed c = record c {
  completed = suc c.completed;
}
count_pod_volume_restore PodVolumeRestorePhase.unset c = c

unfoldable pub count_pod_volume_restores :
    FileSystemPodVolumeRestores → List PodVolumeRestore → FileSystemPodVolumeRestores
count_pod_volume_restores c [] = c
count_pod_volume_restores c (p ∷ ps) =
    count_pod_volume_restores (count_pod_volume_restore p.phase c) ps

abbrev pub zero_pod_volume_restores : FileSystemPodVolumeRestores
zero_pod_volume_restores = record { total = 0; new = 0; in_progress = 0; failed = 0; completed = 0 }

unfoldable pub update_pod_volume_restore_status :
    NonAdminRestoreStatus → List PodVolumeRestore → NonAdminRestoreStatus × Bool
unfolding count_pod_volume_restores
update_pod_volume_restore_status status items =
    let old = or_else status.file_system_pod_volume_restores zero_pod_volume_restores in
    let counts = count_pod_volume_restores zero_pod_volume_restores items in
    let (total, a) = assign old.total (length items) in
    let (new, b) = assign old.new counts.new in
    let (in_progress, c) = assign old.in_progress counts.in_progress in
    let (failed, d) = assign old.failed counts.failed in
    let (completed, e) = assign old.completed counts.completed in
    (
      record status {
        file_system_pod_volume_restores = some (record {
          total = total;
          new = new;
          in_progress = in_progress;
          failed = failed;
          completed = completed;
        });
      },
      a || (b || (c || (d || e))),
    )

abbrev pub zero_data_downloads : DataMoverDataDownloads
zero_data_downloads = record {
  total = 0;
  new = 0;
  accepted = 0;
  prepared = 0;
  in_progress = 0;
  canceling = 0;
  canceled = 0;
  failed = 0;
  completed = 0;
}

-- The counters of the loop over the DataDownloads, in a record whose `total` stays 0.
abbrev pub count_data_download : DataDownloadPhase → DataMoverDataDownloads → DataMoverDataDownloads
count_data_download DataDownloadPhase.new c = record c { new = suc c.new }
count_data_download DataDownloadPhase.accepted c = record c { accepted = suc c.accepted }
count_data_download DataDownloadPhase.prepared c = record c { prepared = suc c.prepared }
count_data_download DataDownloadPhase.in_progress c = record c { in_progress = suc c.in_progress }
count_data_download DataDownloadPhase.canceling c = record c { canceling = suc c.canceling }
count_data_download DataDownloadPhase.canceled c = record c { canceled = suc c.canceled }
count_data_download DataDownloadPhase.failed c = record c { failed = suc c.failed }
count_data_download DataDownloadPhase.completed c = record c { completed = suc c.completed }
count_data_download DataDownloadPhase.unset c = c

unfoldable pub count_data_downloads :
    DataMoverDataDownloads → List DataDownload → DataMoverDataDownloads
count_data_downloads c [] = c
count_data_downloads c (d ∷ ds) = count_data_downloads (count_data_download d.phase c) ds

unfoldable pub update_data_download_status :
    NonAdminRestoreStatus → List DataDownload → NonAdminRestoreStatus × Bool
unfolding count_data_downloads
update_data_download_status status items =
    let old = or_else status.data_mover_data_downloads zero_data_downloads in
    let counts = count_data_downloads zero_data_downloads items in
    let (total, a) = assign old.total (length items) in
    let (new, b) = assign old.new counts.new in
    let (accepted, c) = assign old.accepted counts.accepted in
    let (prepared, d) = assign old.prepared counts.prepared in
    let (in_progress, e) = assign old.in_progress counts.in_progress in
    let (canceling, f) = assign old.canceling counts.canceling in
    let (canceled, g) = assign old.canceled counts.canceled in
    let (failed, h) = assign old.failed counts.failed in
    let (completed, k) = assign old.completed counts.completed in
    (
      record status {
        data_mover_data_downloads = some (record {
          total = total;
          new = new;
          accepted = accepted;
          prepared = prepared;
          in_progress = in_progress;
          canceling = canceling;
          canceled = canceled;
          failed = failed;
          completed = completed;
        });
      },
      a || (b || (c || (d || (e || (f || (g || (h || k))))))),
    )

-- `updateNonAdminPhase(&nar.Status.Phase, …)`
abbrev pub set_restore_phase : NonAdminRestore → NonAdminPhase → NonAdminRestore × Bool
unfolding update_non_admin_phase
set_restore_phase nar new_phase =
    let (phase, changed) = update_non_admin_phase nar.status.phase new_phase in
    (record nar { status = record nar.status { phase = phase } }, changed)

module _ ⦃v : Vendor⦄ where
  -- `meta.SetStatusCondition(&nar.Status.Conditions, …)`
  abbrev pub set_restore_condition : NonAdminRestore → Condition → NonAdminRestore × Bool
  set_restore_condition nar c =
      let (conditions, changed) = v.set_status_condition nar.status.conditions c in
      (record nar { status = record nar.status { conditions = conditions } }, changed)
