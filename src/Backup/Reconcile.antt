-- ===== src/Backup/Reconcile.antt =====
-- internal/controller/nonadminbackup_controller.go: `Reconcile`.
use oadp_non_admin.Base.{Bool, false, List, [], ◌∷◌, not, if◌then◌else◌}
use oadp_non_admin.Constant.{nab_sync_label}
use oadp_non_admin.Function.Metadata.{check_label_annotation_value_is_valid}
use oadp_non_admin.Kube.Objects.{NamespacedName}
use oadp_non_admin.Kube.Status.{ApiError, Error, NonAdminBackup}
use oadp_non_admin.Kube.Api.{Call, ok, err, Prog, ret, fail, attempt, ◌>>=◌}
use oadp_non_admin.Kube.Vendor.{Vendor}
use oadp_non_admin.Loop.{run_steps}
use oadp_non_admin.Backup.Deletion.{
  Reconciler, Step, is_time_zero, set_status_and_condition_for_deletion_and_call_delete,
  set_status_for_direct_kubernetes_api_deletion, delete_non_admin_restores,
  create_velero_delete_backup_request, delete_velero_backup_objects,
  delete_delete_backup_request_objects,
}
use oadp_non_admin.Backup.Creation.{
  init_nab_create, validate_spec, set_backup_uuid_in_status, set_finalizer_on_non_admin_backup,
  create_velero_backup_and_sync,
}

module _ ⦃v : Vendor⦄ (r : Reconciler) where
  unfoldable pub reconcile_steps : NonAdminBackup → List (NonAdminBackup → Prog Step)
  reconcile_steps nab =
      if nab.spec.delete_backup
      then set_status_and_condition_for_deletion_and_call_delete
        ∷ delete_non_admin_restores
        ∷ create_velero_delete_backup_request r
        ∷ []
      else if not (is_time_zero nab.meta.deletion_timestamp)
      then set_status_for_direct_kubernetes_api_deletion
        ∷ delete_delete_backup_request_objects r
        ∷ delete_velero_backup_objects r
        ∷ []
      else if check_label_annotation_value_is_valid nab.meta.labels nab_sync_label
      then set_backup_uuid_in_status r
        ∷ set_finalizer_on_non_admin_backup
        ∷ create_velero_backup_and_sync r
        ∷ []
      else init_nab_create
        ∷ validate_spec r
        ∷ set_backup_uuid_in_status r
        ∷ set_finalizer_on_non_admin_backup
        ∷ create_velero_backup_and_sync r
        ∷ []

  -- Whether the request is to be put back into the queue.
  unfoldable pub reconcile : NamespacedName → Prog Bool
  unfolding run_steps reconcile_steps
  reconcile request = attempt (Call.get_nab request) >>= λ reply. elim reply [
    | err ApiError.not_found ↦ ret false
    | err e ↦ fail (Error.api e)
    | ok nab ↦ run_steps (reconcile_steps nab) nab
  ]
