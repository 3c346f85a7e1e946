-- ===== src/Backup/Status.antt =====
-- internal/controller/nonadminbackup_controller.go: the functions that bring the status of a
-- NonAdminBackup in line with other objects. Each returns the new status and whether it changed.
use oadp_non_admin.Base.{
  ℕ, suc, String, Bool, true, false, Option, none, some, List, [], ◌∷◌, ◌&&◌, ◌||◌, nat_eq, holds,
  ◌==◌, length, if◌then◌else◌,
}
use oadp_non_admin.Kube.Objects.{
  BackupSpec, BackupSpec-discrete, BackupStatus, BackupStatus-discrete, Backup, DeleteBackupRequest,
  PodVolumeBackup, PodVolumeBackupPhase, DataUpload, DataUploadPhase, NonAdminPhase, phase_eq,
}
use oadp_non_admin.Kube.Status.{
  NonAdminBackup, NonAdminBackupStatus, VeleroBackup, VeleroDeleteBackupRequest, Condition,
  DataMoverDataUploads, FileSystemPodVolumeBackups,
}
use oadp_non_admin.Kube.Vendor.{Vendor}

-- `*phase = newPhase` unless it is the phase already, and whether it was not.
unfoldable pub update_non_admin_phase : NonAdminPhase → NonAdminPhase → NonAdminPhase × Bool
update_non_admin_phase phase new_phase =
    if phase_eq phase new_phase then (phase, false) else (new_phase, true)

-- `if field != n { field = n; updated = true }`
abbrev pub assign : ℕ → ℕ → ℕ × Bool
assign current n = if nat_eq current n then (current, false) else (n, true)

abbrev pub zeros : List ℕ → List ℕ
zeros [] = []
zeros (n ∷ ns) = 0 ∷ zeros ns

-- The zero `velerov1.BackupSpec`, with as many other fields as the given one.
abbrev pub zero_backup_spec : BackupSpec → BackupSpec
zero_backup_spec s = record {
  included_namespaces = none;
  excluded_namespaces = none;
  excluded_resources = none;
  included_cluster_scoped_resources = none;
  excluded_cluster_scoped_resources = none;
  included_namespace_scoped_resources = none;
  excluded_namespace_scoped_resources = none;
  include_cluster_resources = none;
  storage_location = "";
  volume_snapshot_locations = none;
  others = zeros s.others;
}

abbrev pub zero_backup_status : BackupStatus
zero_backup_status = record { completion_timestamp = none; others = 0 }

abbrev pub zero_velero_backup : VeleroBackup
zero_velero_backup = record { spec = none; status = none; nacuuid = ""; name = ""; namespace = "" }

abbrev pub or_else : {A : Type 0} → Option A → A → A
or_else none a = a
or_else (some x) a = x

unfoldable pub same_backup_spec : BackupSpec → BackupSpec → Bool
same_backup_spec a b = holds (BackupSpec-discrete a b)

unfoldable pub same_backup_status : BackupStatus → BackupStatus → Bool
same_backup_status a b = holds (BackupStatus-discrete a b)

unfoldable pub update_velero_backup_spec_status :
    NonAdminBackupStatus → Option Backup → NonAdminBackupStatus × Bool
update_velero_backup_spec_status status none = (status, false)
update_velero_backup_spec_status status (some backup) =
    let reference = or_else status.velero_backup zero_velero_backup in
    let spec = or_else reference.spec (zero_backup_spec backup.spec) in
    let current = or_else reference.status zero_backup_status in
    if same_backup_spec spec backup.spec && same_backup_status current backup.status
    then (
      record status {
        velero_backup = some (record reference { spec = some spec; status = some current });
      },
      false,
    )
    else (
      record status {
        velero_backup =
            some (record reference { spec = some backup.spec; status = some backup.status });
      },
      true,
    )

abbrev pub zero_delete_reference : VeleroDeleteBackupRequest
zero_delete_reference = record { status = none; nacuuid = ""; name = ""; namespace = "" }

unfoldable pub update_delete_backup_request_status :
    NonAdminBackupStatus → Option DeleteBackupRequest → NonAdminBackupStatus × Bool
update_delete_backup_request_status status none = (status, false)
update_delete_backup_request_status status (some request) =
    let reference = or_else status.velero_delete_backup_request zero_delete_reference in
    let (n, changed) = assign (or_else reference.status 0) request.status in
    (
      record status { velero_delete_backup_request = some (record reference { status = some n }) },
      changed,
    )

-- The counters of the loop over the PodVolumeBackups.
pub record PodVolumeBackupCounts : Type 0 where
  pub new : ℕ
  pub in_progress : ℕ
  pub failed : ℕ
  pub completed : ℕ

abbrev pub count_pod_volume_backup :
    PodVolumeBackupPhase → PodVolumeBackupCounts → PodVolumeBackupCounts
count_pod_volume_backup PodVolumeBackupPhase.new c = record c { new = suc c.new }
count_pod_volume_backup PodVolumeBackupPhase.in_progress c = record c {
  in_progress = suc c.in_progress;
}
count_pod_volume_backup PodVolumeBackupPhase.failed c = record c { failed = suc c.failed }
count_pod_volume_backup PodVolumeBackupPhase.completed c = record c { completed = suc c.completed }
count_pod_volume_backup PodVolumeBackupPhase.unset c = c

unfoldable pub count_pod_volume_backups :
    PodVolumeBackupCounts → List PodVolumeBackup → PodVolumeBackupCounts
count_pod_volume_backups c [] = c
count_pod_volume_backups c (p ∷ ps) =
    count_pod_volume_backups (count_pod_volume_backup p.phase c) ps

-- The uploader type of the first item.
abbrev pub assign_uploader : String → List PodVolumeBackup → String × Bool
assign_uploader current [] = (current, false)
assign_uploader current (p ∷ ps) =
    if current == p.uploader_type then (current, false) else (p.uploader_type, true)

abbrev pub zero_pod_volume_backups : FileSystemPodVolumeBackups
zero_pod_volume_backups = record {
  total = 0;
  new = 0;
  in_progress = 0;
  failed = 0;
  completed = 0;
  uploader_type = "";
}

unfoldable pub update_pod_volume_backup_status :
    NonAdminBackupStatus → List PodVolumeBackup → NonAdminBackupStatus × Bool
unfolding count_pod_volume_backups
update_pod_volume_backup_status status items =
    let old = or_else status.file_system_pod_volume_backups zero_pod_volume_backups in
    let start : PodVolumeBackupCounts = record {
      new = 0;
      in_progress = 0;
      failed = 0;
      completed = 0;
    } in
    let counts = count_pod_volume_backups start items in
    let (total, a) = assign old.total (length items) in
    let (new, b) = assign old.new counts.new in
    let (in_progress, c) = assign old.in_progress counts.in_progress in
    let (failed, d) = assign old.failed counts.failed in
    let (completed, e) = assign old.completed counts.completed in
    let (uploader_type, f) = assign_uploader old.uploader_type items in
    (
      record status {
        file_system_pod_volume_backups = some (record {
          total = total;
          new = new;
          in_progress = in_progress;
          failed = failed;
          completed = completed;
          uploader_type = uploader_type;
        });
      },
      a || (b || (c || (d || (e || f)))),
    )

abbrev pub zero_data_uploads : DataMoverDataUploads
zero_data_uploads = record {
  total = 0;
  new = 0;
  accepted = 0;
  prepared = 0;
  in_progress = 0;
  canceling = 0;
  canceled = 0;
  failed = 0;
  completed = 0;
}

-- The counters of the loop over the DataUploads, in a record whose `total` stays 0.
abbrev pub count_data_upload : DataUploadPhase → DataMoverDataUploads → DataMoverDataUploads
count_data_upload DataUploadPhase.new c = record c { new = suc c.new }
count_data_upload DataUploadPhase.accepted c = record c { accepted = suc c.accepted }
count_data_upload DataUploadPhase.prepared c = record c { prepared = suc c.prepared }
count_data_upload DataUploadPhase.in_progress c = record c { in_progress = suc c.in_progress }
count_data_upload DataUploadPhase.canceling c = record c { canceling = suc c.canceling }
count_data_upload DataUploadPhase.canceled c = record c { canceled = suc c.canceled }
count_data_upload DataUploadPhase.failed c = record c { failed = suc c.failed }
count_data_upload DataUploadPhase.completed c = record c { completed = suc c.completed }
count_data_upload DataUploadPhase.unset c = c

unfoldable pub count_data_uploads : DataMoverDataUploads → List DataUpload → DataMoverDataUploads
count_data_uploads c [] = c
count_data_uploads c (u ∷ us) = count_data_uploads (count_data_upload u.phase c) us

unfoldable pub update_data_upload_status :
    NonAdminBackupStatus → List DataUpload → NonAdminBackupStatus × Bool
unfolding count_data_uploads
update_data_upload_status status items =
    let old = or_else status.data_mover_data_uploads zero_data_uploads in
    let counts = count_data_uploads zero_data_uploads items in
    let (total, a) = assign old.total (length items) in
    let (new, b) = assign old.new counts.new in
    let (accepted, c) = assign old.accepted counts.accepted in
    let (prepared, d) = assign old.prepared counts.prepared in
    let (in_progress, e) = assign old.in_progress counts.in_progress in
    let (canceling, f) = assign old.canceling counts.canceling in
    let (canceled, g) = assign old.canceled counts.canceled in
    let (failed, h) = assign old.failed counts.failed in
    let (completed, k) = assign old.completed counts.completed in
    (
      record status {
        data_mover_data_uploads = some (record {
          total = total;
          new = new;
          accepted = accepted;
          prepared = prepared;
          in_progress = in_progress;
          canceling = canceling;
          canceled = canceled;
          failed = failed;
          completed = completed;
        });
      },
      a || (b || (c || (d || (e || (f || (g || (h || k))))))),
    )

-- `updateNonAdminPhase(&nab.Status.Phase, …)`
abbrev pub set_phase : NonAdminBackup → NonAdminPhase → NonAdminBackup × Bool
unfolding update_non_admin_phase
set_phase nab new_phase =
    let (phase, changed) = update_non_admin_phase nab.status.phase new_phase in
    (record nab { status = record nab.status { phase = phase } }, changed)

module _ ⦃v : Vendor⦄ where
  -- `meta.SetStatusCondition(&nab.Status.Conditions, …)`
  abbrev pub set_condition : NonAdminBackup → Condition → NonAdminBackup × Bool
  set_condition nab c =
      let (conditions, changed) = v.set_status_condition nab.status.conditions c in
      (record nab { status = record nab.status { conditions = conditions } }, changed)
