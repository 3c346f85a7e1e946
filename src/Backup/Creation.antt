-- ===== src/Backup/Creation.antt =====
-- internal/controller/nonadminbackup_controller.go: the steps of the creation and sync paths.
use oadp_non_admin.Base.{
  String, Bool, true, false, Option, none, some, List, [], ◌∷◌, ◌++◌, ◌||◌, not, ◌==◌, contains,
  lookup, if◌then◌else◌,
}
use oadp_non_admin.Constant.{
  nab_finalizer_name, nab_origin_nacuuid_label, nab_origin_namespace_annotation, nab_sync_label,
  empty_string, wildcard_string,
}
use oadp_non_admin.Function.Metadata.{
  get_non_admin_labels, get_non_admin_backup_annotations, check_label_annotation_value_is_valid,
  value_at,
}
use oadp_non_admin.Function.Names.{generate_nac_object_uuid}
use oadp_non_admin.Function.Lookup.{get_velero_backup_by_label}
use oadp_non_admin.Function.Queue.{get_backup_queue_info}
use oadp_non_admin.Function.Fields.{enforce}
use oadp_non_admin.Function.Validate.{validate_backup_spec, is_nonempty}
use oadp_non_admin.Kube.Objects.{BackupSpec, Backup, NonAdminPhase, NonAdminCondition, phase_eq}
use oadp_non_admin.Kube.Status.{Error, NonAdminBackup, VeleroBackup, Message, Condition, QueueInfo}
use oadp_non_admin.Kube.Api.{
  Call, Reply, ok, err, Prog, ret, fail, perform, attempt, Result, success, failure, try, deref,
  ◌>>=◌, ◌>>◌,
}
use oadp_non_admin.Kube.Vendor.{Vendor}
use oadp_non_admin.Backup.Status.{
  set_phase, set_condition, update_velero_backup_spec_status, update_pod_volume_backup_status,
  update_data_upload_status, zero_backup_status,
}
use oadp_non_admin.Backup.Deletion.{
  Reconciler, Step, nacuuid_of, update_status_if, update_phase_and_condition, with_finalizers,
}

abbrev pub always_excluded_namespaced_resources : List String
always_excluded_namespaced_resources =
    "nonadminbackups" ∷ "nonadminrestores" ∷ "nonadminbackupstoragelocations" ∷ []

abbrev pub always_excluded_cluster_resources : List String
always_excluded_cluster_resources =
    "securitycontextconstraints" ∷ "clusterroles" ∷ "clusterrolebindings" ∷ "priorityclasses"
    ∷ "customresourcedefinitions" ∷ "virtualmachineclusterinstancetypes"
    ∷ "virtualmachineclusterpreferences" ∷ []

-- The elements of a slice that may be nil.
abbrev pub elements : Option (List String) → List String
elements none = []
elements (some xs) = xs

-- `append(field, extra...)`, left out where the field holds the wildcard.
abbrev pub exclude : Option (List String) → List String → Option (List String)
exclude field extra =
    if not (contains (elements field) wildcard_string)
    then some (elements field ++ extra)
    else field

unfoldable pub have_new_resource_filter_parameters : BackupSpec → Bool
have_new_resource_filter_parameters s =
    is_nonempty s.included_cluster_scoped_resources
    || (is_nonempty s.excluded_cluster_scoped_resources
        || (is_nonempty s.included_namespace_scoped_resources
            || is_nonempty s.excluded_namespace_scoped_resources))

-- The resources that are kept out of every backup, in the list that the user's filters allow.
unfoldable pub exclude_resources : BackupSpec → BackupSpec
unfolding have_new_resource_filter_parameters
exclude_resources s =
    if have_new_resource_filter_parameters s
    then record s {
      excluded_namespace_scoped_resources =
          exclude s.excluded_namespace_scoped_resources always_excluded_namespaced_resources;
      excluded_cluster_scoped_resources =
          exclude s.excluded_cluster_scoped_resources always_excluded_cluster_resources;
    }
    else record s {
      excluded_resources =
          exclude s.excluded_resources
            (always_excluded_namespaced_resources ++ always_excluded_cluster_resources);
    }

abbrev pub accepted_condition : Bool → String → Message → Condition
accepted_condition status reason message = record {
  type = NonAdminCondition.accepted;
  status = status;
  reason = reason;
  message = message;
}

abbrev pub queued_condition : Condition
queued_condition = record {
  type = NonAdminCondition.queued;
  status = true;
  reason = "BackupScheduled";
  message = Message.text "Created Velero Backup object";
}

unfoldable pub init_nab_create : NonAdminBackup → Prog Step
init_nab_create nab =
    if not (phase_eq nab.status.phase NonAdminPhase.unset)
    then ret (nab, false)
    else (let (nab1, updated) = set_phase nab NonAdminPhase.new in
        update_status_if updated nab1 >>= λ nab2. ret (nab2, false))

-- A list call whose error is only logged; the list stays empty.
abbrev pub or_nil : {A : Type 0} → Reply (List A) → List A
or_nil (ok xs) = xs
or_nil (err _) = []

-- The position is stored only where it could be found.
abbrev pub store_queue_info : NonAdminBackup → Result QueueInfo → NonAdminBackup × Bool
store_queue_info nab (success q) =
    (record nab { status = record nab.status { queue_info = some q } }, true)
store_queue_info nab (failure _) = (nab, false)

module _ ⦃v : Vendor⦄ where
  unfoldable pub set_finalizer_on_non_admin_backup : NonAdminBackup → Prog Step
  set_finalizer_on_non_admin_backup nab =
      if not (v.contains_finalizer nab.meta.finalizers nab_finalizer_name)
      then (do
        nab1 ← perform (
            Call.update_nab
              (with_finalizers nab (v.add_finalizer nab.meta.finalizers nab_finalizer_name)))
        ret (nab1, false))
      else ret (nab, false)

  -- The error that says why there is no Velero backup; `none` is Go's nil.
  unfoldable pub missing_backup_error : NonAdminBackup → Option Error
  missing_backup_error nab =
      if v.is_status_condition_true nab.status.conditions NonAdminCondition.queued
      then some Error.finalized_backup_missing
      else if check_label_annotation_value_is_valid nab.meta.labels nab_sync_label
      then some Error.synced_backup_missing
      else none

  -- The branch for a backup that should be there and is not. `err.Error()` panics on nil.
  unfoldable pub report_missing_backup : NonAdminBackup → Prog Backup
  unfolding missing_backup_error update_phase_and_condition
  report_missing_backup nab = do
    e ← deref (missing_backup_error nab)
    update_phase_and_condition nab NonAdminPhase.backing_off
        (accepted_condition false "VeleroBackupNotFound" (Message.of_error e))
    fail (Error.terminal e)

  module _ (r : Reconciler) where
    -- The error path of the validation.
    unfoldable pub reject_spec : NonAdminBackup → Error → Prog Step
    unfolding update_phase_and_condition
    reject_spec nab e = do
      update_phase_and_condition nab NonAdminPhase.backing_off
          (accepted_condition false "InvalidBackupSpec" (Message.of_error e))
      fail (Error.terminal e)

    unfoldable pub accept_spec : NonAdminBackup → Prog Step
    accept_spec nab =
        let (nab1, updated) =
          set_condition nab
            (accepted_condition true "BackupAccepted" (Message.text "backup accepted")) in
        update_status_if updated nab1 >>= λ nab2. ret (nab2, false)

    unfoldable pub validate_spec : NonAdminBackup → Prog Step
    unfolding reject_spec accept_spec
    validate_spec nab =
        try (validate_backup_spec r.oadp_namespace nab r.enforced_backup_spec) >>= λ result.
        elim result [ success _ ↦ accept_spec nab | failure e ↦ reject_spec nab e ]

    -- The UUID of a NonAdminBackup that has none: that of the synced backup, or a new one.
    unfoldable pub choose_backup_uuid : NonAdminBackup → Prog String
    choose_backup_uuid nab = elim (lookup nab_sync_label nab.meta.labels) [
      | some value ↦ ret value
      | none ↦ generate_nac_object_uuid nab.meta.namespace nab.meta.name
    ]

    unfoldable pub set_backup_uuid_in_status : NonAdminBackup → Prog Step
    unfolding choose_backup_uuid
    set_backup_uuid_in_status original = do
      nab ←
          perform (
            Call.get_nab
              (record { name = original.meta.name; namespace = original.meta.namespace }))
      elim (nacuuid_of nab.status.velero_backup) [
        | some _ ↦ ret (nab, false)
        | none ↦ choose_backup_uuid nab >>= λ uuid.
            let reference : VeleroBackup = record {
              spec = none;
              status = none;
              nacuuid = uuid;
              name = uuid;
              namespace = r.oadp_namespace;
            } in
            perform (
              Call.update_nab_status
                (record nab { status = record nab.status { velero_backup = some reference } }))
            >>= λ nab1. ret (nab1, false)
      ]

    -- The name of the Velero storage location behind the one that the spec names.
    unfoldable pub resolve_storage_location : NonAdminBackup → String → Prog String
    resolve_storage_location nab location =
        if not (location == empty_string)
        then (do
          nabsl ←
              perform (Call.get_nabsl (record { name = location; namespace = nab.meta.namespace }))
          reference ← deref nabsl.velero_bsl
          ret reference.name)
        else ret location

    -- The spec of the Velero backup: the user's, with what the administrator enforces.
    unfoldable pub velero_backup_spec : NonAdminBackup → Prog BackupSpec
    velero_backup_spec nab = do
      user ← deref nab.spec.backup_spec
      let merged = enforce r.enforced_backup_spec user
      location ← resolve_storage_location nab merged.storage_location
      ret (
          exclude_resources (record merged {
            included_namespaces = some (nab.meta.namespace ∷ []);
            storage_location = location;
          }))

    abbrev pub new_velero_backup : NonAdminBackup → String → BackupSpec → Backup
    unfolding get_non_admin_labels get_non_admin_backup_annotations
    new_velero_backup nab uuid spec = record {
      meta = record {
        name = uuid;
        namespace = r.oadp_namespace;
        generate_name = "";
        uid = "";
        labels = (nab_origin_nacuuid_label, uuid) ∷ get_non_admin_labels;
        annotations = get_non_admin_backup_annotations nab.meta;
        finalizers = [];
        creation_timestamp = 0;
        deletion_timestamp = none;
      };
      spec = spec;
      status = zero_backup_status;
    }

    -- The Velero backup of the NonAdminBackup: the one that is there, or a new one.
    -- Nil annotations read as the empty string, which is no namespace of an object.
    unfoldable pub ensure_velero_backup : NonAdminBackup → String → Option Backup → Prog Backup
    unfolding report_missing_backup velero_backup_spec
    ensure_velero_backup nab uuid (some backup) =
        if not
          (value_at backup.meta.annotations nab_origin_namespace_annotation == nab.meta.namespace)
        then fail (Error.terminal Error.foreign_backup)
        else ret backup
    ensure_velero_backup nab uuid none =
        if check_label_annotation_value_is_valid nab.meta.labels nab_sync_label
          || phase_eq nab.status.phase NonAdminPhase.created
        then report_missing_backup nab
        else velero_backup_spec nab >>= λ spec.
            perform (Call.create_backup (new_velero_backup nab uuid spec))

    -- The rest of the step: the status follows the Velero backup and its volume transfers.
    unfoldable pub sync_with_velero_backup : NonAdminBackup → Backup → Prog Step
    unfolding update_velero_backup_spec_status update_pod_volume_backup_status
        update_data_upload_status
    sync_with_velero_backup nab backup = do
      queue_info ← try (get_backup_queue_info r.oadp_namespace (some backup))
      let (nab1, updated_queue_info) = store_queue_info nab queue_info
      let (nab2, updated_phase) = set_phase nab1 NonAdminPhase.created
      let (nab3, updated_condition) = set_condition nab2 queued_condition
      let (status4, updated) = update_velero_backup_spec_status nab3.status (some backup)
      let selector = (v.backup_name_label, v.valid_name backup.meta.name) ∷ []
      pod_volume_backups ← attempt (Call.list_pod_volume_backups r.oadp_namespace selector)
      let (status5, updated_pvb) =
          update_pod_volume_backup_status status4 (or_nil pod_volume_backups)
      data_uploads ← attempt (Call.list_data_uploads r.oadp_namespace selector)
      let (status6, updated_du) = update_data_upload_status status5 (or_nil data_uploads)
      nab4 ←
          update_status_if
            (updated
              || (updated_phase
                  || (updated_condition || (updated_queue_info || (updated_pvb || updated_du)))))
            (record nab3 { status = status6 })
      ret (nab4, false)

    unfoldable pub create_velero_backup_and_sync : NonAdminBackup → Prog Step
    unfolding ensure_velero_backup sync_with_velero_backup
    create_velero_backup_and_sync nab = elim (nacuuid_of nab.status.velero_backup) [
      | none ↦ fail Error.no_backup_uuid
      | some uuid ↦ get_velero_backup_by_label r.oadp_namespace uuid >>= λ found.
          ensure_velero_backup nab uuid found >>= λ backup. sync_with_velero_backup nab backup
    ]
