-- ===== src/Backup/Safety/Reconcile.antt =====
-- Every reconcile of a NonAdminBackup keeps the rules.
use oadp_non_admin.Base.{not, [], ◌∷◌, refl}
use oadp_non_admin.Constant.{nab_sync_label}
use oadp_non_admin.Function.Metadata.{check_label_annotation_value_is_valid}
use oadp_non_admin.Kube.Objects.{NamespacedName}
use oadp_non_admin.Kube.Status.{ApiError, NonAdminBackup}
use oadp_non_admin.Kube.Api.{Call, ok, err, History, Server, run}
use oadp_non_admin.Kube.Rules.{Keeps, Obeys, Ends-Obeys, run-Ends}
use oadp_non_admin.Kube.Vendor.{Vendor, VendorLaws}
use oadp_non_admin.Loop.{run_steps, run_step-Keeps, finish, either-Keeps}
use oadp_non_admin.Backup.Deletion.{
  Reconciler, is_time_zero, set_status_and_condition_for_deletion_and_call_delete,
  set_status_for_direct_kubernetes_api_deletion, delete_non_admin_restores,
  create_velero_delete_backup_request, delete_velero_backup_objects,
  delete_delete_backup_request_objects,
}
use oadp_non_admin.Backup.Creation.{
  init_nab_create, validate_spec, set_backup_uuid_in_status, set_finalizer_on_non_admin_backup,
  create_velero_backup_and_sync,
}
use oadp_non_admin.Backup.Reconcile.{reconcile_steps, reconcile}
use oadp_non_admin.Backup.Safety.Defs.{IsCurrent, Lawful, safety}
use oadp_non_admin.Backup.Safety.Calls.{R}
use oadp_non_admin.Backup.Safety.Deletion
use oadp_non_admin.Backup.Safety.Creation

module _ ⦃v : Vendor⦄ (laws : VendorLaws v) (r : Reconciler) (key : NamespacedName) where
  creation_end-Keeps :
      (h : History) (nab : NonAdminBackup)
      → IsCurrent r key h nab
      → Keeps
          (R r key)
          (λ _ _. Unit)
          h
          (run_steps
            (set_backup_uuid_in_status r
              ∷ set_finalizer_on_non_admin_backup
              ∷ create_velero_backup_and_sync r
              ∷ [])
            nab)
  creation_end-Keeps h nab c =
      run_step-Keeps (R r key) (IsCurrent r key) h nab (set_backup_uuid_in_status r) _
        (Creation.set_backup_uuid_in_status-Keeps laws r key h nab c)
        λ g1 nab1 c1.
          run_step-Keeps (R r key) (Creation.Guarded laws r key) g1 nab1
            set_finalizer_on_non_admin_backup _
            (Creation.set_finalizer_on_non_admin_backup-Keeps laws r key g1 nab1 c1)
            λ g2 nab2 c2.
              run_step-Keeps (R r key) (λ _ _. Unit) g2 nab2 (create_velero_backup_and_sync r) _
                (Creation.create_velero_backup_and_sync-Keeps laws r key g2 nab2 c2)
                (λ g3 nab3 _. finish (R r key) g3 nab3)

  creation-Keeps :
      (h : History) (nab : NonAdminBackup)
      → IsCurrent r key h nab
      → Keeps
          (R r key)
          (λ _ _. Unit)
          h
          (run_steps
            (init_nab_create
              ∷ validate_spec r
              ∷ set_backup_uuid_in_status r
              ∷ set_finalizer_on_non_admin_backup
              ∷ create_velero_backup_and_sync r
              ∷ [])
            nab)
  creation-Keeps h nab c =
      run_step-Keeps (R r key) (IsCurrent r key) h nab init_nab_create _
        (Creation.init_nab_create-Keeps laws r key h nab c)
        λ g1 nab1 c1.
          run_step-Keeps (R r key) (IsCurrent r key) g1 nab1 (validate_spec r) _
            (Creation.validate_spec-Keeps laws r key g1 nab1 c1) creation_end-Keeps

  deletion-Keeps :
      (h : History) (nab : NonAdminBackup)
      → IsCurrent r key h nab
      → Keeps
          (R r key)
          (λ _ _. Unit)
          h
          (run_steps
            (set_status_and_condition_for_deletion_and_call_delete
              ∷ delete_non_admin_restores
              ∷ create_velero_delete_backup_request r
              ∷ [])
            nab)
  deletion-Keeps h nab c =
      run_step-Keeps (R r key) (IsCurrent r key) h nab
        set_status_and_condition_for_deletion_and_call_delete _
        (Deletion.set_status_and_condition_for_deletion_and_call_delete-Keeps laws r key h nab c)
        λ g1 nab1 c1.
          run_step-Keeps (R r key) (IsCurrent r key) g1 nab1 delete_non_admin_restores _
            (Deletion.delete_non_admin_restores-Keeps laws r key g1 nab1 c1)
            λ g2 nab2 c2.
              run_step-Keeps (R r key) (λ _ _. Unit) g2 nab2 (create_velero_delete_backup_request r)
                _ (Deletion.create_velero_delete_backup_request-Keeps laws r key g2 nab2 c2)
                (λ g3 nab3 _. finish (R r key) g3 nab3)

  api_deletion-Keeps :
      (h : History) (nab : NonAdminBackup)
      → IsCurrent r key h nab
      → Keeps
          (R r key)
          (λ _ _. Unit)
          h
          (run_steps
            (set_status_for_direct_kubernetes_api_deletion
              ∷ delete_delete_backup_request_objects r
              ∷ delete_velero_backup_objects r
              ∷ [])
            nab)
  api_deletion-Keeps h nab c =
      run_step-Keeps (R r key) (IsCurrent r key) h nab set_status_for_direct_kubernetes_api_deletion
        _ (Deletion.set_status_for_direct_kubernetes_api_deletion-Keeps laws r key h nab c)
        λ g1 nab1 c1.
          run_step-Keeps (R r key) (IsCurrent r key) g1 nab1
            (delete_delete_backup_request_objects r) _
            (Deletion.delete_delete_backup_request_objects-Keeps laws r key g1 nab1 c1)
            λ g2 nab2 c2.
              run_step-Keeps (R r key) (λ _ _. Unit) g2 nab2 (delete_velero_backup_objects r) _
                (Deletion.delete_velero_backup_objects-Keeps laws r key g2 nab2 c2)
                (λ g3 nab3 _. finish (R r key) g3 nab3)

  steps-Keeps :
      (h : History) (nab : NonAdminBackup)
      → IsCurrent r key h nab
      → Keeps (R r key) (λ _ _. Unit) h (run_steps (reconcile_steps r nab) nab)
  unfolding reconcile_steps
  steps-Keeps h nab c =
      either-Keeps (R r key) h nab nab.spec.delete_backup _ _ (deletion-Keeps h nab c) (
        either-Keeps (R r key) h nab (not (is_time_zero nab.meta.deletion_timestamp)) _ _
          (api_deletion-Keeps h nab c)
          (either-Keeps (R r key) h nab
            (check_label_annotation_value_is_valid nab.meta.labels nab_sync_label) _ _
            (creation_end-Keeps h nab c) (creation-Keeps h nab c)))

  reconcile-Keeps : (h : History) → Keeps (safety r key) (λ _ _. Unit) h (reconcile r key)
  unfolding reconcile
  reconcile-Keeps h = (
    tt,
    elim [
      | err ApiError.not_found ↦ λ _. tt
      | err ApiError.conflict ↦ λ _. tt
      | err ApiError.other ↦ λ _. tt
      | ok nab ↦
          λ y. steps-Keeps _ nab (record { last = refl; same_name = y.0; same_namespace = y.1 })
    ],
  )

  -- With finalizer and condition functions that do what their documentation says, in every run of
  -- `Reconcile` for the request `key`, whatever the server answers, as long as a read returns the
  -- object of its name and an update keeps name, namespace and sent finalizers:
  -- a Velero backup is created only in the OADP namespace, for the namespace of the request alone,
  -- annotated with the request's name and namespace, labelled with its own name, and only while the
  -- NonAdminBackup that the server last returned has the finalizer; the NonAdminBackup is updated
  -- only to a list with the finalizer or right after a list call has found no Velero backup for
  -- some UUID; and a NonAdminRestore is deleted only if a list call for the namespace of the request
  -- has answered with it and its spec has the name of the request as its backup name.
  pub reconcile-Obeys :
      (s : Server)
      → ((g : History) (c : Call) → Lawful c (s g c))
      → Obeys (safety r key) (run s [] (reconcile r key)).1
  reconcile-Obeys s lawful =
      Ends-Obeys (safety r key) _ (run s [] (reconcile r key))
        (run-Ends (safety r key) _ s [] (reconcile r key) lawful tt (reconcile-Keeps []))
