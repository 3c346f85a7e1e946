-- ===== src/Backup/Deletion.antt =====
-- internal/controller/nonadminbackup_controller.go: the steps of the two deletion paths. A step
-- takes the NonAdminBackup in hand and returns it as the step leaves it, with whether to requeue.
use oadp_non_admin.Base.{
  String, ◌+s◌, Bool, true, false, Option, none, some, List, [], ◌∷◌, ◌++◌, ◌||◌, not, nat_eq, ◌==◌,
  if◌then◌else◌,
}
use oadp_non_admin.Constant.{nab_finalizer_name, nab_origin_nacuuid_label, empty_string}
use oadp_non_admin.Function.Metadata.{get_non_admin_labels, get_non_admin_backup_annotations}
use oadp_non_admin.Function.Lookup.{
  get_velero_backup_by_label, get_velero_delete_backup_request_by_label,
}
use oadp_non_admin.Kube.Objects.{
  Time, BackupSpec, Backup, DeleteBackupRequest, NonAdminPhase, NonAdminCondition,
}
use oadp_non_admin.Kube.Status.{
  NonAdminBackup, NonAdminRestore, VeleroBackup, VeleroDeleteBackupRequest, Message, Condition,
}
use oadp_non_admin.Kube.Api.{Call, Prog, ret, perform, deref, ◌>>=◌, ◌>>◌}
use oadp_non_admin.Kube.Vendor.{Vendor}
use oadp_non_admin.Backup.Status.{set_phase, set_condition, update_delete_backup_request_status}

-- `NonAdminBackupReconciler`, less the client.
pub record Reconciler : Type 0 where
  pub oadp_namespace : String
  pub enforced_backup_spec : BackupSpec

-- What a reconcile step hands on: the object in hand, and whether to requeue.
abbrev pub Step : Type 0
Step = NonAdminBackup × Bool

-- `DeletionTimestamp.IsZero()`
abbrev pub is_time_zero : Option Time → Bool
is_time_zero none = true
is_time_zero (some t) = nat_eq t 0

-- `nab.Status.VeleroBackup == nil || nab.Status.VeleroBackup.NACUUID == ""`, or the UUID.
abbrev pub nacuuid_of : Option VeleroBackup → Option String
nacuuid_of none = none
nacuuid_of (some b) = if b.nacuuid == empty_string then none else some b.nacuuid

-- `if changed { r.Status().Update(ctx, nab) }`, with the object that the server hands back.
unfoldable pub update_status_if : Bool → NonAdminBackup → Prog NonAdminBackup
update_status_if changed nab = if changed then perform (Call.update_nab_status nab) else ret nab

abbrev pub deleting_condition : String → Condition
deleting_condition message = record {
  type = NonAdminCondition.deleting;
  status = true;
  reason = "DeletionPending";
  message = Message.text message;
}

-- The loop over the NonAdminRestores of the namespace.
unfoldable pub delete_restores_of : String → List NonAdminRestore → Prog (Unit {0})
delete_restores_of name [] = ret tt
delete_restores_of name (nar ∷ nars) =
    let rest = delete_restores_of name nars in
    deref nar.restore_spec >>= λ spec.
    if spec.backup_name == name then perform (Call.delete_nar nar) >> rest else rest

abbrev pub with_finalizers : NonAdminBackup → List String → NonAdminBackup
with_finalizers nab fs = record nab { meta = record nab.meta { finalizers = fs } }

module _ ⦃v : Vendor⦄ where
  -- `updateNonAdminPhase`, `meta.SetStatusCondition`, and an update of the status if either changed
  -- something: the same lines in four steps.
  unfoldable pub update_phase_and_condition :
      NonAdminBackup → NonAdminPhase → Condition → Prog NonAdminBackup
  update_phase_and_condition nab phase condition =
      let (nab1, updated_phase) = set_phase nab phase in
      let (nab2, updated_condition) = set_condition nab1 condition in
      update_status_if (updated_phase || updated_condition) nab2

  unfoldable pub set_status_and_condition_for_deletion_and_call_delete : NonAdminBackup → Prog Step
  unfolding update_phase_and_condition
  set_status_and_condition_for_deletion_and_call_delete nab = do
    nab1 ←
        update_phase_and_condition nab NonAdminPhase.deleting
          (deleting_condition "backup accepted for deletion")
    if is_time_zero nab1.meta.deletion_timestamp
        then perform (Call.delete_nab nab1) >> ret (nab1, true)
        else ret (nab1, false)

  unfoldable pub set_status_for_direct_kubernetes_api_deletion : NonAdminBackup → Prog Step
  unfolding update_phase_and_condition
  set_status_for_direct_kubernetes_api_deletion nab = do
    nab1 ←
        update_phase_and_condition nab NonAdminPhase.deleting (
          deleting_condition "permanent backup deletion requires setting spec.deleteBackup to true")
    ret (nab1, false)

  unfoldable pub delete_non_admin_restores : NonAdminBackup → Prog Step
  unfolding delete_restores_of
  delete_non_admin_restores nab = do
    nars ← perform (Call.list_nar nab.meta.namespace)
    delete_restores_of nab.meta.name nars
    ret (nab, false)

  unfoldable pub remove_nab_finalizer_upon_velero_backup_deletion : NonAdminBackup → Prog Step
  remove_nab_finalizer_upon_velero_backup_deletion nab = do
    nab1 ← perform (
        Call.update_nab
          (with_finalizers nab (v.remove_finalizer nab.meta.finalizers nab_finalizer_name)))
    ret (nab1, false)

  module _ (r : Reconciler) where
    -- The request that the velero builder makes for a backup. A pair that stands first counts.
    abbrev pub new_delete_request : NonAdminBackup → Backup → String → DeleteBackupRequest
    unfolding get_non_admin_labels get_non_admin_backup_annotations
    new_delete_request nab backup uuid = record {
      meta = record {
        name = "";
        namespace = r.oadp_namespace;
        generate_name = backup.meta.name +s "-";
        uid = "";
        labels =
            get_non_admin_labels
            ++ ((v.backup_name_label, v.valid_name backup.meta.name)
                ∷ (v.backup_uid_label, backup.meta.uid)
                ∷ (nab_origin_nacuuid_label, uuid)
                ∷ []);
        annotations = get_non_admin_backup_annotations nab.meta;
        finalizers = [];
        creation_timestamp = 0;
        deletion_timestamp = none;
      };
      backup_name = backup.meta.name;
      status = 0;
    }

    -- The request that is there, or else a new one, recorded in the status.
    -- `CreateRetryGenerateName`, which tries again under another generated name, is one call.
    unfoldable pub ensure_delete_request :
        NonAdminBackup
        → Backup
        → String
        → Option DeleteBackupRequest
        → Prog (NonAdminBackup × DeleteBackupRequest)
    ensure_delete_request nab backup uuid (some request) = ret (nab, request)
    ensure_delete_request nab backup uuid none = do
      request ← perform (Call.create_delete_request (new_delete_request nab backup uuid))
      let reference : VeleroDeleteBackupRequest = record {
        status = none;
        nacuuid = uuid;
        name = request.meta.name;
        namespace = r.oadp_namespace;
      }
      ret (
        record nab { status = record nab.status { velero_delete_backup_request = some reference } },
        request,
      )

    -- The rest of the step, for the backup that was found.
    unfoldable pub request_backup_deletion : NonAdminBackup → Backup → String → Prog Step
    unfolding ensure_delete_request update_delete_backup_request_status
    request_backup_deletion nab backup uuid = do
      found ← get_velero_delete_backup_request_by_label r.oadp_namespace uuid
      (nab1, request) ← ensure_delete_request nab backup uuid found
      let (status, updated) = update_delete_backup_request_status nab1.status (some request)
      nab2 ← update_status_if updated (record nab1 { status = status })
      ret (nab2, false)

    unfoldable pub create_velero_delete_backup_request : NonAdminBackup → Prog Step
    unfolding request_backup_deletion remove_nab_finalizer_upon_velero_backup_deletion
    create_velero_delete_backup_request nab =
        if not (v.contains_finalizer nab.meta.finalizers nab_finalizer_name)
        then ret (nab, false)
        else elim (nacuuid_of nab.status.velero_backup) [
          | none ↦ ret (nab, false)
          | some uuid ↦ get_velero_backup_by_label r.oadp_namespace uuid >>= λ found. elim found [
            | none ↦ remove_nab_finalizer_upon_velero_backup_deletion nab
            | some backup ↦ request_backup_deletion nab backup uuid
          ]
        ]

    unfoldable pub delete_velero_backup_objects : NonAdminBackup → Prog Step
    unfolding remove_nab_finalizer_upon_velero_backup_deletion
    delete_velero_backup_objects nab = elim (nacuuid_of nab.status.velero_backup) [
      | none ↦ ret (nab, false)
      | some uuid ↦ get_velero_backup_by_label r.oadp_namespace uuid >>= λ found. elim found [
        | some backup ↦ perform (Call.delete_backup backup) >> ret (nab, false)
        | none ↦ remove_nab_finalizer_upon_velero_backup_deletion nab
      ]
    ]

    unfoldable pub delete_delete_backup_request_objects : NonAdminBackup → Prog Step
    delete_delete_backup_request_objects nab = elim (nacuuid_of nab.status.velero_backup) [
      | none ↦ ret (nab, false)
      | some uuid ↦ get_velero_delete_backup_request_by_label r.oadp_namespace uuid >>= λ found.
          elim found [
            | some request ↦ perform (Call.delete_delete_request request) >> ret (nab, false)
            | none ↦ ret (nab, false)
          ]
    ]
