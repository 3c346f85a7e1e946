-- ===== src/Restore/Steps.antt =====
-- internal/controller/nonadminrestore_controller.go: the steps of the two reconcile paths. A step
-- takes the NonAdminRestore in hand and returns it as the step leaves it, with whether to requeue.
use oadp_non_admin.Base.{
  String, Bool, true, false, Option, none, some, List, [], ◌∷◌, ◌++◌, ◌||◌, not, ◌==◌, contains,
  if◌then◌else◌,
}
use oadp_non_admin.Constant.{nar_finalizer_name, empty_string, wildcard_string}
use oadp_non_admin.Function.Metadata.{
  get_non_admin_restore_labels, get_non_admin_restore_annotations,
}
use oadp_non_admin.Function.Names.{generate_nac_object_uuid}
use oadp_non_admin.Function.Lookup.{get_velero_restore_by_label}
use oadp_non_admin.Function.Queue.{get_restore_queue_info}
use oadp_non_admin.Function.Fields.{fill_option, fill_text, fill_other, fill_others}
use oadp_non_admin.Function.Validate.{validate_restore_spec}
use oadp_non_admin.Kube.Objects.{RestoreSpec, Restore, NonAdminPhase, NonAdminCondition, phase_eq}
use oadp_non_admin.Kube.Status.{
  Error, NonAdminRestore, VeleroRestore, Message, Condition, QueueInfo,
}
use oadp_non_admin.Kube.Api.{
  Call, Prog, ret, fail, perform, attempt, Result, success, failure, try, deref, ◌>>=◌, ◌>>◌,
}
use oadp_non_admin.Kube.Vendor.{Vendor}
use oadp_non_admin.Backup.Creation.{elements, accepted_condition, or_nil}
use oadp_non_admin.Restore.Status.{
  zero_restore_status, set_restore_phase, set_restore_condition, update_velero_restore_status,
  update_pod_volume_restore_status, update_data_download_status,
}

-- `NonAdminRestoreReconciler`, less the client.
pub record RestoreReconciler : Type 0 where
  pub oadp_namespace : String
  pub enforced_restore_spec : RestoreSpec

abbrev pub RestoreStep : Type 0
RestoreStep = NonAdminRestore × Bool

-- `nar.Status.VeleroRestore == nil || nar.Status.VeleroRestore.NACUUID == ""`, or the UUID.
abbrev pub restore_nacuuid_of : Option VeleroRestore → Option String
restore_nacuuid_of none = none
restore_nacuuid_of (some x) = if x.nacuuid == empty_string then none else some x.nacuuid

-- `if changed { r.Status().Update(ctx, nar) }`, with the object that the server hands back.
unfoldable pub update_restore_status_if : Bool → NonAdminRestore → Prog NonAdminRestore
update_restore_status_if changed nar =
    if changed then perform (Call.update_nar_status nar) else ret nar

abbrev pub restore_deleting_condition : Condition
restore_deleting_condition = record {
  type = NonAdminCondition.deleting;
  status = true;
  reason = "DeletionPending";
  message = Message.text "restore accepted for deletion";
}

abbrev pub restore_queued_condition : Condition
restore_queued_condition = record {
  type = NonAdminCondition.queued;
  status = true;
  reason = "RestoreScheduled";
  message = Message.text "Created Velero Restore object";
}

abbrev pub with_restore_finalizers : NonAdminRestore → List String → NonAdminRestore
with_restore_finalizers nar fs = record nar { meta = record nar.meta { finalizers = fs } }

-- The user's spec with the enforced value in every field that is still zero.
unfoldable pub enforce_restore : RestoreSpec → RestoreSpec → RestoreSpec
enforce_restore e c = record {
  backup_name = fill_text e.backup_name c.backup_name;
  schedule_name = fill_text e.schedule_name c.schedule_name;
  included_namespaces = fill_option e.included_namespaces c.included_namespaces;
  excluded_namespaces = fill_option e.excluded_namespaces c.excluded_namespaces;
  included_resources = fill_option e.included_resources c.included_resources;
  excluded_resources = fill_option e.excluded_resources c.excluded_resources;
  namespace_mapping = fill_other e.namespace_mapping c.namespace_mapping;
  others = fill_others e.others c.others;
}

-- The exclusion of snapshot classes, unless everything is excluded.
unfoldable pub exclude_snapshot_classes : RestoreSpec → RestoreSpec
exclude_snapshot_classes s =
    if not (contains (elements s.excluded_resources) wildcard_string)
    then record s {
      excluded_resources = some (elements s.excluded_resources ++ ("volumesnapshotclasses" ∷ []));
    }
    else s

unfoldable pub init : NonAdminRestore → Prog RestoreStep
init nar =
    if not (phase_eq nar.status.phase NonAdminPhase.unset)
    then ret (nar, false)
    else (let (nar1, updated) = set_restore_phase nar NonAdminPhase.new in
        update_restore_status_if updated nar1 >>= λ nar2. ret (nar2, false))

-- The position is stored only where it could be found.
abbrev pub store_restore_queue_info : NonAdminRestore → Result QueueInfo → NonAdminRestore × Bool
store_restore_queue_info nar (success q) =
    (record nar { status = record nar.status { queue_info = some q } }, true)
store_restore_queue_info nar (failure _) = (nar, false)

module _ ⦃v : Vendor⦄ where
  -- `updateNonAdminPhase`, `meta.SetStatusCondition`, and an update of the status if either changed
  -- something: the same lines in three steps.
  unfoldable pub update_restore_phase_and_condition :
      NonAdminRestore → NonAdminPhase → Condition → Prog NonAdminRestore
  update_restore_phase_and_condition nar phase condition =
      let (nar1, updated_phase) = set_restore_phase nar phase in
      let (nar2, updated_condition) = set_restore_condition nar1 condition in
      update_restore_status_if (updated_phase || updated_condition) nar2

  unfoldable pub set_status_and_condition_for_deletion : NonAdminRestore → Prog RestoreStep
  unfolding update_restore_phase_and_condition
  set_status_and_condition_for_deletion nar =
      update_restore_phase_and_condition nar NonAdminPhase.deleting restore_deleting_condition
      >>= λ nar1. ret (nar1, false)

  -- The finalizer is removed once no Velero restore is left.
  unfoldable pub delete_or_release : NonAdminRestore → Option Restore → Prog RestoreStep
  delete_or_release nar (some restore) = perform (Call.delete_restore restore) >> ret (nar, false)
  delete_or_release nar none = do
    nar1 ← perform (
        Call.update_nar
          (with_restore_finalizers nar (v.remove_finalizer nar.meta.finalizers nar_finalizer_name)))
    ret (nar1, false)

  -- `AddFinalizer`, and an update where it has added one.
  unfoldable pub set_finalizer : NonAdminRestore → Prog RestoreStep
  set_finalizer nar =
      if v.finalizer_added nar.meta.finalizers nar_finalizer_name
      then (do
        nar1 ← perform (
            Call.update_nar (
              with_restore_finalizers nar (v.add_finalizer nar.meta.finalizers nar_finalizer_name)))
        ret (nar1, false))
      else ret (nar, false)

  -- The branch for a restore that was there and is gone.
  unfoldable pub report_missing_restore : NonAdminRestore → Prog Restore
  unfolding update_restore_phase_and_condition
  report_missing_restore nar = do
    update_restore_phase_and_condition nar NonAdminPhase.backing_off (
        accepted_condition false "VeleroRestoreNotFound"
          (Message.of_error Error.finalized_restore_missing))
    fail (Error.terminal Error.finalized_restore_missing)

  module _ (r : RestoreReconciler) where
    unfoldable pub delete_velero_restore_and_remove_finalizer : NonAdminRestore → Prog RestoreStep
    unfolding delete_or_release
    delete_velero_restore_and_remove_finalizer nar =
        elim (restore_nacuuid_of nar.status.velero_restore) [
          | none ↦ ret (nar, false)
          | some uuid ↦ get_velero_restore_by_label r.oadp_namespace uuid >>= λ found.
              delete_or_release nar found
        ]

    -- The two outcomes of the validation.
    unfoldable pub judge_restore_spec : NonAdminRestore → Result (Unit {0}) → Prog RestoreStep
    unfolding update_restore_phase_and_condition
    judge_restore_spec nar (failure e) = do
      update_restore_phase_and_condition nar NonAdminPhase.backing_off
          (accepted_condition false "InvalidRestoreSpec" (Message.of_error e))
      fail (Error.terminal e)
    judge_restore_spec nar (success _) =
        let (nar1, updated) =
          set_restore_condition nar
            (accepted_condition true "RestoreAccepted" (Message.text "restore accepted")) in
        update_restore_status_if updated nar1 >>= λ nar2. ret (nar2, false)

    unfoldable pub validate_spec : NonAdminRestore → Prog RestoreStep
    unfolding judge_restore_spec
    validate_spec nar = try (validate_restore_spec nar r.enforced_restore_spec) >>= λ result.
        judge_restore_spec nar result

    unfoldable pub set_uuid : NonAdminRestore → Prog RestoreStep
    set_uuid original = do
      nar ←
          perform (
            Call.get_nar
              (record { name = original.meta.name; namespace = original.meta.namespace }))
      elim (restore_nacuuid_of nar.status.velero_restore) [
        | some _ ↦ ret (nar, false)
        | none ↦ generate_nac_object_uuid nar.meta.namespace nar.meta.name >>= λ uuid.
            let reference : VeleroRestore = record {
              status = none;
              name = uuid;
              nacuuid = uuid;
              namespace = r.oadp_namespace;
            } in
            perform (
              Call.update_nar_status
                (record nar { status = record nar.status { velero_restore = some reference } }))
            >>= λ nar1. ret (nar1, false)
      ]

    -- The spec of the Velero restore: the user's, from the Velero backup of the NonAdminBackup and
    -- into the user's namespace, with what the administrator enforces in the fields still zero.
    unfoldable pub velero_restore_spec : NonAdminRestore → RestoreSpec → String → RestoreSpec
    unfolding enforce_restore exclude_snapshot_classes
    velero_restore_spec nar user backup = exclude_snapshot_classes (
        enforce_restore r.enforced_restore_spec (record user {
          backup_name = backup;
          included_namespaces = some (nar.meta.namespace ∷ []);
        }))

    unfoldable pub new_velero_restore : NonAdminRestore → String → RestoreSpec → Restore
    unfolding get_non_admin_restore_labels get_non_admin_restore_annotations
    new_velero_restore nar uuid spec = record {
      meta = record {
        name = uuid;
        namespace = r.oadp_namespace;
        generate_name = "";
        uid = "";
        labels = get_non_admin_restore_labels uuid;
        annotations = get_non_admin_restore_annotations nar.meta;
        finalizers = [];
        creation_timestamp = 0;
        deletion_timestamp = none;
      };
      spec = spec;
      status = zero_restore_status;
    }

    -- The Velero restore of the NonAdminRestore: the one that is there, or a new one.
    unfoldable pub ensure_velero_restore : NonAdminRestore → String → Option Restore → Prog Restore
    unfolding report_missing_restore velero_restore_spec new_velero_restore
    ensure_velero_restore nar uuid (some restore) = ret restore
    ensure_velero_restore nar uuid none =
        if v.is_status_condition_true nar.status.conditions NonAdminCondition.queued
        then report_missing_restore nar
        else (do
          user ← deref nar.restore_spec
          nab ←
              perform
                (Call.get_nab (record { name = user.backup_name; namespace = nar.meta.namespace }))
          reference ← deref nab.status.velero_backup
          perform (
              Call.create_restore
                (new_velero_restore nar uuid (velero_restore_spec nar user reference.name))))

    -- The rest of the step: the status follows the Velero restore and its volume transfers.
    unfoldable pub sync_with_velero_restore : NonAdminRestore → Restore → Prog RestoreStep
    unfolding update_velero_restore_status update_pod_volume_restore_status
        update_data_download_status
    sync_with_velero_restore nar restore = do
      queue_info ← try (get_restore_queue_info r.oadp_namespace (some restore))
      let (nar1, updated_queue_info) = store_restore_queue_info nar queue_info
      let (nar2, updated_phase) = set_restore_phase nar1 NonAdminPhase.created
      let (nar3, updated_condition) = set_restore_condition nar2 restore_queued_condition
      let (status4, updated_velero) = update_velero_restore_status nar3.status (some restore)
      let selector = (v.restore_name_label, v.valid_name restore.meta.name) ∷ []
      pod_volume_restores ← attempt (Call.list_pod_volume_restores r.oadp_namespace selector)
      let (status5, updated_pvr) =
          update_pod_volume_restore_status status4 (or_nil pod_volume_restores)
      data_downloads ← attempt (Call.list_data_downloads r.oadp_namespace selector)
      let (status6, updated_dd) = update_data_download_status status5 (or_nil data_downloads)
      nar4 ←
          update_restore_status_if
            (updated_phase
              || (updated_condition
                  || (updated_velero || (updated_queue_info || (updated_pvr || updated_dd)))))
            (record nar3 { status = status6 })
      ret (nar4, false)

    unfoldable pub create_velero_restore : NonAdminRestore → Prog RestoreStep
    unfolding ensure_velero_restore sync_with_velero_restore
    create_velero_restore nar = elim (restore_nacuuid_of nar.status.velero_restore) [
      | none ↦ fail Error.no_restore_uuid
      | some uuid ↦ get_velero_restore_by_label r.oadp_namespace uuid >>= λ found.
          ensure_velero_restore nar uuid found >>= λ restore. sync_with_velero_restore nar restore
    ]
