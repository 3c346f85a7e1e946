-- ===== src/Download/Steps.antt =====
-- internal/controller/nonadmindownloadrequest_controller.go: `Reconcile` and what it calls, with the
-- helpers on NonAdminBackups, NonAdminRestores and NonAdminDownloadRequests of api/v1alpha1.
use oadp_non_admin.Base.{
  ℕ, ◌-◌, String, ◌+s◌, Bool, true, false, Option, none, some, List, [], ◌∷◌, ◌==◌, ◌&&◌, not,
  if◌then◌else◌,
}
use oadp_non_admin.Constant.{
  nadr_origin_nacuuid_label, nadr_origin_name_annotation, nadr_origin_namespace_annotation,
  empty_string,
}
use oadp_non_admin.Function.Metadata.{get_non_admin_labels}
use oadp_non_admin.Function.Validate.{is_set}
use oadp_non_admin.Kube.Objects.{
  Time, ObjectMeta, BackupSpec, NonAdminPhase, DownloadTargetKind, DownloadRequest,
  DownloadRequestStatus,
}
use oadp_non_admin.Kube.Status.{
  ApiError, Error, VeleroBackup, VeleroRestore, NonAdminBackup, NonAdminDownloadRequest,
  DownloadCondition, DownloadConditionType,
}
use oadp_non_admin.Kube.Api.{
  Call, Reply, ok, err, Prog, ret, fail, panic, perform, attempt, deref, ◌>>=◌, ◌>>◌,
}
use oadp_non_admin.Kube.Vendor.{Vendor}

-- `NonAdminDownloadRequestReconciler`, less the client and the scheme.
pub record DownloadReconciler : Type 0 where
  pub oadp_namespace : String

-- `ReadyForProcessing`
unfoldable pub ready_for_processing : List DownloadCondition → Bool
ready_for_processing [] = true
ready_for_processing (c ∷ cs) =
    let rest = ready_for_processing cs in
    elim c.type [
      | DownloadConditionType.nabsl_not_used ↦ if c.status then false else rest
      | _ ↦ rest
    ]

-- `VeleroBackupName`
abbrev pub velero_backup_name : Option VeleroBackup → String
velero_backup_name none = empty_string
velero_backup_name (some x) = x.name

-- `VeleroRestoreName`
abbrev pub velero_restore_name : Option VeleroRestore → String
velero_restore_name none = empty_string
velero_restore_name (some x) = x.name

-- `UsesNaBSL`
abbrev pub uses_nabsl : Option BackupSpec → Bool
uses_nabsl none = false
uses_nabsl (some spec) = not (spec.storage_location == empty_string)

-- `VeleroDownloadRequestName`
abbrev pub velero_download_request_name : ObjectMeta → String
velero_download_request_name m = "nadr-" +s m.uid

-- What the name of a target names.
pub data TargetOf : Type 0 where
  backup restore neither : TargetOf

-- The cases of the `switch` on the kind.
unfoldable pub target_of : DownloadTargetKind → TargetOf
target_of DownloadTargetKind.backup_log = TargetOf.backup
target_of DownloadTargetKind.backup_contents = TargetOf.backup
target_of DownloadTargetKind.backup_volume_snapshots = TargetOf.backup
target_of DownloadTargetKind.backup_item_operations = TargetOf.backup
target_of DownloadTargetKind.backup_resource_list = TargetOf.backup
target_of DownloadTargetKind.backup_results = TargetOf.backup
target_of DownloadTargetKind.csi_backup_volume_snapshots = TargetOf.backup
target_of DownloadTargetKind.csi_backup_volume_snapshot_contents = TargetOf.backup
target_of DownloadTargetKind.backup_volume_infos = TargetOf.backup
target_of DownloadTargetKind.restore_log = TargetOf.restore
target_of DownloadTargetKind.restore_results = TargetOf.restore
target_of DownloadTargetKind.restore_resource_list = TargetOf.restore
target_of DownloadTargetKind.restore_item_operations = TargetOf.restore
target_of DownloadTargetKind.restore_volume_info = TargetOf.restore
target_of DownloadTargetKind.unset = TargetOf.neither
target_of DownloadTargetKind.other = TargetOf.neither

-- `req.Spec.Target.Kind == ""`
abbrev pub is_unset_kind : DownloadTargetKind → Bool
is_unset_kind DownloadTargetKind.unset = true
is_unset_kind _ = false

-- `time.Now()`; a clock can always be read.
abbrev pub read_clock : Prog Time
read_clock = attempt Call.now >>= λ reply. elim reply [ ok t ↦ ret t | err _ ↦ panic ]

-- The object after a patch: as the server has it, or as it was sent where the patch failed.
abbrev pub after_patch :
    NonAdminDownloadRequest → Reply NonAdminDownloadRequest → NonAdminDownloadRequest
after_patch sent (ok stored) = stored
after_patch sent (err _) = sent

-- What `patchAddStatusTrueConditionPhase` makes of the request.
abbrev pub with_condition :
    NonAdminDownloadRequest
    → NonAdminPhase
    → DownloadConditionType
    → String
    → String
    → NonAdminDownloadRequest
with_condition req phase type message reason = record req {
  status = record req.status {
    phase = phase;
    conditions = record { type = type; status = true; reason = reason; message = message } ∷ [];
  };
}

abbrev pub with_velero_status :
    NonAdminDownloadRequest → DownloadRequestStatus → NonAdminDownloadRequest
with_velero_status req status = record req {
  status = record req.status { velero_status = some status };
}

abbrev pub with_phase : NonAdminDownloadRequest → NonAdminPhase → NonAdminDownloadRequest
with_phase req phase = record req { status = record req.status { phase = phase } }

-- The call of `patchAddErrorStatusTrueConditionBackoff`.
abbrev pub back_off :
    NonAdminDownloadRequest → DownloadConditionType → String → NonAdminDownloadRequest
back_off req type message = with_condition req NonAdminPhase.backing_off type message "Error"

-- A failed deletion of something that is not there is none.
unfoldable pub delete_expired_download_request : NonAdminDownloadRequest → Prog (Unit {0})
delete_expired_download_request req = attempt (Call.delete_nadr req) >>= λ reply. elim reply [
  | ok _ ↦ ret tt
  | err ApiError.not_found ↦ ret tt
  | err e ↦ fail (Error.api e)
]

-- The read of an object that the request needs: where it fails, the request backs off, whatever
-- becomes of that patch, and the error is returned.
unfoldable pub needed :
    {A : Type 0} → NonAdminDownloadRequest → NonAdminDownloadRequest → Reply A → Prog A
needed req patched (ok a) = ret a
needed req patched (err e) =
    attempt (Call.patch_nadr_status req patched) >>= λ _. fail (Error.api e)

module _ ⦃v : Vendor⦄ where
  -- A processed Velero request that is not expired hands its URL on.
  unfoldable pub update_nadr_with_url : DownloadRequest → NonAdminDownloadRequest → Prog (Unit {0})
  update_nadr_with_url dr req =
      if not (dr.status.download_url == empty_string) && dr.status.processed
      then (read_clock >>= λ now.
          if v.time_before dr.status.expiration (some now)
          then ret tt
          else (perform (Call.patch_nadr_status req (with_velero_status req dr.status)) >>= λ req1.
              perform (
                Call.patch_nadr_status req1 (
                  with_condition req1 NonAdminPhase.created DownloadConditionType.processed
                    empty_string "Success"))
              >> ret tt))
      else ret tt

  -- The Velero request for the given target.
  abbrev pub with_target : DownloadRequest → String → DownloadRequest
  with_target dr name = record dr { target = name }

  -- The end of `processDownloadRequest`, once the NonAdminBackup is known.
  unfoldable pub request_download :
      DownloadRequest → NonAdminDownloadRequest → NonAdminBackup → Prog (Unit {0})
  request_download dr req nab =
      if not (uses_nabsl nab.spec.backup_spec)
      then (let patched =
            back_off req DownloadConditionType.nabsl_not_used
              "backup does not use nonadminbackupstoragelocation, recreate nadr to process" in
          attempt (Call.patch_nadr_status req patched) >>= λ reply.
          let req1 = after_patch patched reply in
          perform (Call.patch_nadr_status req1 (with_phase req1 NonAdminPhase.backing_off))
          >> ret tt)
      else (let dr1 = with_target dr (
            if dr.target == empty_string
            then velero_backup_name nab.status.velero_backup
            else dr.target) in
          if dr1.resource_version == empty_string
          then perform (Call.create_download_request dr1) >> ret tt
          else ret tt)

  -- The NonAdminBackup of that name, and the rest.
  unfoldable pub request_for_backup :
      DownloadRequest → NonAdminDownloadRequest → String → Prog (Unit {0})
  unfolding needed request_download
  request_for_backup dr req nab_name =
      attempt (Call.get_nab (record { name = nab_name; namespace = req.meta.namespace }))
      >>= λ reply.
          needed req
            (back_off req DownloadConditionType.backup_not_available "cannot get nonadminbackup")
            reply
          >>= λ nab. request_download dr req nab

  -- The `switch`, and what follows it.
  unfoldable pub process_target :
      TargetOf → DownloadRequest → NonAdminDownloadRequest → Prog (Unit {0})
  unfolding needed request_for_backup
  process_target TargetOf.backup dr req = request_for_backup dr req req.target
  process_target TargetOf.neither dr req = request_for_backup dr req empty_string
  process_target TargetOf.restore dr req =
      attempt (Call.get_nar (record { name = req.target; namespace = req.meta.namespace }))
      >>= λ reply.
          needed req
            (back_off req DownloadConditionType.restore_not_available "cannot get nonadminrestore")
            reply
          >>= λ nar. deref nar.restore_spec >>= λ spec.
              request_for_backup (with_target dr (velero_restore_name nar.status.velero_restore))
                req spec.backup_name

  unfoldable pub process_download_request :
      DownloadRequest → NonAdminDownloadRequest → Prog (Unit {0})
  unfolding target_of process_target
  process_download_request dr req = process_target (target_of req.kind) dr req

  module _ (r : DownloadReconciler) where
    -- The Velero request as it is made, with no target.
    unfoldable pub new_download_request : NonAdminDownloadRequest → DownloadRequest
    unfolding get_non_admin_labels
    new_download_request req = record {
      meta = record {
        name = velero_download_request_name req.meta;
        namespace = r.oadp_namespace;
        generate_name = "";
        uid = "";
        labels = (nadr_origin_nacuuid_label, req.meta.uid) ∷ get_non_admin_labels;
        annotations =
            (nadr_origin_namespace_annotation, req.meta.namespace)
            ∷ (nadr_origin_name_annotation, req.meta.name)
            ∷ [];
        finalizers = [];
        creation_timestamp = 0;
        deletion_timestamp = none;
      };
      resource_version = "";
      kind = req.kind;
      target = "";
      status = record { processed = false; download_url = ""; expiration = none };
    }

    -- The part of `Reconcile` behind the look at the status.
    unfoldable pub find_or_process : NonAdminDownloadRequest → Prog (Unit {0})
    unfolding new_download_request update_nadr_with_url process_download_request
    find_or_process req =
        let dr = new_download_request req in
        attempt (
          Call.get_download_request (record { name = dr.meta.name; namespace = dr.meta.namespace }))
        >>= λ reply. elim reply [
          | ok found ↦ update_nadr_with_url found req
          | err ApiError.not_found ↦ process_download_request dr req
          | err e ↦ fail (Error.api e)
        ]

    -- A request with a URL comes back when it expires; an unset expiry panics.
    unfoldable pub wait_or_find : NonAdminDownloadRequest → DownloadRequestStatus → Prog (Option ℕ)
    unfolding find_or_process
    wait_or_find req status =
        if not (status.download_url == empty_string)
        then (deref status.expiration >>= λ t. read_clock >>= λ now. ret (some (t - now)))
        else find_or_process req >> ret none

    -- A request with a status may be expired.
    unfoldable pub look_at_status :
        NonAdminDownloadRequest → DownloadRequestStatus → Prog (Option ℕ)
    unfolding delete_expired_download_request wait_or_find
    look_at_status req status =
        if is_set status.expiration
        then (read_clock >>= λ now.
            if v.time_before status.expiration (some now)
            then delete_expired_download_request req >> ret none
            else wait_or_find req status)
        else wait_or_find req status

    -- After how long to come back, if at all; Go's negative waits are 0 here, and both mean at once.
    unfoldable pub reconcile_download : NonAdminDownloadRequest → Prog (Option ℕ)
    unfolding look_at_status find_or_process
    reconcile_download req =
        if is_unset_kind req.kind then ret none else elim req.status.velero_status [
          | none ↦ find_or_process req >> ret none
          | some status ↦ look_at_status req status
        ]
