-- ===== src/Tests/Backup.antt =====
-- The controller of NonAdminBackups in a concrete cluster.
use oadp_non_admin.Base.{String, List, [], ◌∷◌, ◌≡◌, refl, true, false, none, some, arith}
use oadp_non_admin.Kube.Objects.{Backup, PodVolumeBackup, PodVolumeBackupPhase}
use oadp_non_admin.Kube.Status.{NonAdminRestore, Message, NonAdminBackupStatus}
use oadp_non_admin.Kube.Api.{run}
use oadp_non_admin.Kube.Rules.{Obeys}
use oadp_non_admin.Function.Metadata.{check_velero_backup_metadata}
use oadp_non_admin.Backup.Status.{
  update_velero_backup_spec_status, set_condition, update_pod_volume_backup_status,
}
use oadp_non_admin.Backup.Creation.{
  accepted_condition, validate_spec, exclude_resources, have_new_resource_filter_parameters,
  new_velero_backup,
}
use oadp_non_admin.Backup.Exact.{
  exact_pod_volume_backups, update_pod_volume_backup_status_exact,
  update_pod_volume_backup_status_settles,
}
use oadp_non_admin.Backup.Exclusion.{KeepsOut, exclude_resources-KeepsOut}
use oadp_non_admin.Function.Validate.{namespaces_differ, validate_backup_spec}
use oadp_non_admin.Backup.Deletion.{delete_restores_of, update_status_if}
use oadp_non_admin.Function.Fields.{check_enforced}
use oadp_non_admin.Function.Permission.{HasPermittedSpec}
use oadp_non_admin.Backup.Mirror.{
  mirrored, update_velero_backup_spec_status_mirrors, update_velero_backup_spec_status_settles,
}
use oadp_non_admin.Backup.Restores.{delete_all, delete_restores_of-delete_all}
use oadp_non_admin.Backup.Validation.{KeepsSpec, validate_spec_permits}
use oadp_non_admin.Backup.Recognition.{new_velero_backup_recognised}
use oadp_non_admin.Backup.Reconcile.{reconcile}
use oadp_non_admin.Backup.Safety.Defs.{safety}
use oadp_non_admin.Backup.Safety.Reconcile.{reconcile-Obeys}
use oadp_non_admin.Kube.Status.{NonAdminBackup}
use oadp_non_admin.Kube.Api.{Call, History}
use oadp_non_admin.Tests.Cluster.{
  new_nar, vendor, vendor_laws, server, server-Lawful, reconciler, request, empty_spec, new_nab,
}

reconcile-Obeys_example :
    Obeys
      (safety ⦃v = vendor⦄ reconciler request)
      (run server [] (reconcile ⦃v = vendor⦄ reconciler request)).1
reconcile-Obeys_example =
    reconcile-Obeys ⦃v = vendor⦄ vendor_laws reconciler request server server-Lawful

exclude_resources-KeepsOut_example :
    KeepsOut
      (exclude_resources empty_spec)
      (have_new_resource_filter_parameters (exclude_resources empty_spec))
      "nonadminbackups"
      "clusterroles"
exclude_resources-KeepsOut_example =
    exclude_resources-KeepsOut empty_spec "nonadminbackups" "clusterroles" refl refl

new_velero_backup_recognised_example :
    check_velero_backup_metadata ⦃v = vendor⦄
      (new_velero_backup ⦃v = vendor⦄ reconciler (new_nab request) "shop-nightly-1" empty_spec).meta
    ≡ true
new_velero_backup_recognised_example =
    new_velero_backup_recognised ⦃v = vendor⦄ reconciler (new_nab request) "shop-nightly-1"
      empty_spec (λ e. cc) (λ e. cc) (omega arith, omega arith) (omega arith, omega arith)
      (omega arith, omega arith)

abbrev transfers : List PodVolumeBackup
transfers =
    record { phase = PodVolumeBackupPhase.completed; uploader_type = "kopia" }
    ∷ record { phase = PodVolumeBackupPhase.in_progress; uploader_type = "kopia" }
    ∷ []

abbrev status : NonAdminBackupStatus
status = (new_nab request).status

update_pod_volume_backup_status_exact_example :
    (update_pod_volume_backup_status status transfers).0 ≡ record status {
      file_system_pod_volume_backups = some (exact_pod_volume_backups none transfers);
    }
update_pod_volume_backup_status_exact_example =
    update_pod_volume_backup_status_exact status transfers

update_pod_volume_backup_status_settles_example :
    (update_pod_volume_backup_status
      (update_pod_volume_backup_status status transfers).0
      transfers).1
    ≡ false
update_pod_volume_backup_status_settles_example =
    update_pod_volume_backup_status_settles status transfers

abbrev made : Backup
made = new_velero_backup ⦃v = vendor⦄ reconciler (new_nab request) "shop-nightly-1" empty_spec

update_velero_backup_spec_status_mirrors_example :
    (update_velero_backup_spec_status status (some made)).0 ≡ mirrored status made
update_velero_backup_spec_status_mirrors_example =
    update_velero_backup_spec_status_mirrors status made

update_velero_backup_spec_status_settles_example :
    (update_velero_backup_spec_status
      (update_velero_backup_spec_status status (some made)).0
      (some made)).1
    ≡ false
update_velero_backup_spec_status_settles_example =
    update_velero_backup_spec_status_settles status made

abbrev accepted_nab : NonAdminBackup
accepted_nab =
    (set_condition ⦃v = vendor⦄ (new_nab request)
      (accepted_condition true "BackupAccepted" (Message.text "backup accepted"))).0

server-KeepsSpec : (g : History) (c : Call) → KeepsSpec c (server g c)
server-KeepsSpec g (Call.update_nab_status nab) = (refl, refl)
server-KeepsSpec g _ = tt

validate_spec_permits_example :
    HasPermittedSpec (new_nab request) empty_spec × HasPermittedSpec accepted_nab empty_spec
unfolding run validate_spec validate_backup_spec check_enforced namespaces_differ update_status_if
validate_spec_permits_example =
    validate_spec_permits ⦃v = vendor⦄ reconciler server (new_nab request) (accepted_nab, false)
      server-KeepsSpec refl

-- A restore of the namespace from the given backup.
abbrev restore_of : String → NonAdminRestore
restore_of backup = new_nar (record { name = "undo"; namespace = "shop" }) backup

delete_restores_of-delete_all_example :
    delete_restores_of "nightly" (restore_of "nightly" ∷ restore_of "weekly" ∷ [])
    ≡ delete_all (restore_of "nightly" ∷ [])
delete_restores_of-delete_all_example =
    delete_restores_of-delete_all "nightly" (restore_of "nightly" ∷ restore_of "weekly" ∷ [])
      (refl, (refl, tt))
