-- ===== src/Restore/Reconcile.antt =====
-- internal/controller/nonadminrestore_controller.go: `Reconcile`.
use oadp_non_admin.Base.{Bool, List, [], ◌∷◌, not, false, if◌then◌else◌}
use oadp_non_admin.Kube.Objects.{NamespacedName}
use oadp_non_admin.Kube.Status.{ApiError, Error, NonAdminRestore}
use oadp_non_admin.Kube.Api.{Call, ok, err, Prog, ret, fail, attempt, ◌>>=◌}
use oadp_non_admin.Kube.Vendor.{Vendor}
use oadp_non_admin.Loop.{run_steps}
use oadp_non_admin.Backup.Deletion.{is_time_zero}
use oadp_non_admin.Restore.Steps.{
  RestoreReconciler, RestoreStep, set_status_and_condition_for_deletion,
  delete_velero_restore_and_remove_finalizer, init, validate_spec, set_uuid, set_finalizer,
  create_velero_restore,
}

module _ ⦃v : Vendor⦄ (r : RestoreReconciler) where
  unfoldable pub restore_steps : NonAdminRestore → List (NonAdminRestore → Prog RestoreStep)
  restore_steps nar =
      if not (is_time_zero nar.meta.deletion_timestamp)
      then set_status_and_condition_for_deletion ∷ delete_velero_restore_and_remove_finalizer r ∷ []
      else init ∷ validate_spec r ∷ set_uuid r ∷ set_finalizer ∷ create_velero_restore r ∷ []

  -- Whether the request is to be put back into the queue.
  unfoldable pub reconcile_restore : NamespacedName → Prog Bool
  unfolding run_steps restore_steps
  reconcile_restore request = attempt (Call.get_nar request) >>= λ reply. elim reply [
    | err ApiError.not_found ↦ ret false
    | err e ↦ fail (Error.api e)
    | ok nar ↦ run_steps (restore_steps nar) nar
  ]
