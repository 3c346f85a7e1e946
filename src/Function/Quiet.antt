-- ===== src/Function/Quiet.antt =====
-- The functions of internal/common/function/function.go only read: none of their calls is about a
-- NonAdminBackup, and none writes.
use oadp_non_admin.Base.{
  String, ◌≡◌, refl, not, Option, none, some, ◌∷◌, ◌==◌, nat_eq, if◌then◌else◌, Option-cases, inl,
  inr,
}
use oadp_non_admin.Constant.{nabsl_origin_nacuuid_label, empty_string}
use oadp_non_admin.Kube.Objects.{NonAdminPhase, phase_eq, BackupSpec, Backup}
use oadp_non_admin.Kube.Status.{Error, NonAdminBackup}
use oadp_non_admin.Kube.Api.{Call, ok, err, Prog, ret, fail, panic, call, try, event, History}
use oadp_non_admin.Kube.Rules.{Rules, Keeps, Keeps-bind, Keeps-if}
use oadp_non_admin.Kube.Vendor.{Vendor}
use oadp_non_admin.Function.Steps.{
  at_most_one-Keeps, list_objects_by_label-Keeps, check_enforced-Keeps, reject_if-Keeps,
  nabsl_found-Keeps, nabsl_uuid-Keeps, bsl_usable-Keeps,
}
use oadp_non_admin.Function.Fields.{backup_fields}
use oadp_non_admin.Function.Names.{generate_nac_object_uuid, nac_object_name}
use oadp_non_admin.Function.Lookup.{
  get_velero_backup_storage_location_by_label, get_velero_delete_backup_request_by_label,
}
use oadp_non_admin.Function.Queue.{get_backup_queue_info}
use oadp_non_admin.Function.Validate.{
  validate_storage_location, validate_backup_spec, namespaces_differ, is_set, is_true, is_nonempty,
}

-- A call that reads something other than a NonAdminBackup.
abbrev pub IsQuiet : Call → Type 0
IsQuiet Call.new_uuid = Unit
IsQuiet (Call.get_nabsl _) = Unit
IsQuiet (Call.list_backups _ _) = Unit
IsQuiet (Call.list_delete_requests _ _) = Unit
IsQuiet (Call.list_bsls _ _) = Unit
IsQuiet (Call.list_nar _) = Unit
IsQuiet (Call.list_pod_volume_backups _ _) = Unit
IsQuiet (Call.list_data_uploads _ _) = Unit
IsQuiet _ = ⊥

abbrev pub quiet : Rules
quiet = record {
  allows = λ _ c. IsQuiet c;
  lawful = λ _ _. Unit;
  errs = λ _ _. Unit;
  panics = Unit;
}

-- Every call of the program is quiet.
abbrev pub Quiet : {A : Type 0} → History → Prog A → Type 0
Quiet h m = Keeps quiet (λ _ _. Unit) h m

abbrev free : (h : History) (e : Error) → quiet.errs h e
free h e = tt

pub Quiet-try : {A : Type 0} (h : History) (m : Prog A) → Quiet h m → Quiet h (try m)
Quiet-try h (ret a) q = tt
Quiet-try h (fail e) q = tt
Quiet-try h panic q = tt
Quiet-try h (call c k) q = (q.0, λ r l. Quiet-try (event c r ∷ h) (k r) (q.1 r l))

module _ ⦃v : Vendor⦄ where
  pub generate_nac_object_uuid-Quiet :
      (h : History) (namespace name : String) → Quiet h (generate_nac_object_uuid namespace name)
  unfolding generate_nac_object_uuid
  generate_nac_object_uuid-Quiet h namespace name = (
    tt,
    elim [
      | err _ ↦ λ _. tt
      | ok uuid ↦
          λ _. named (event Call.new_uuid (ok uuid) ∷ h) (nac_object_name uuid namespace name)
    ],
  )
    where
      named : (g : History) (o : Option String) → Quiet g (elim o [ none ↦ panic | some s ↦ ret s ])
      named g none = tt
      named g (some s) = tt

  pub get_velero_backup_storage_location_by_label-Quiet :
      (h : History) (namespace uuid : String)
      → Quiet h (get_velero_backup_storage_location_by_label namespace uuid)
  unfolding get_velero_backup_storage_location_by_label
  get_velero_backup_storage_location_by_label-Quiet h namespace uuid =
      list_objects_by_label-Keeps quiet free _ h Call.list_bsls namespace nabsl_origin_nacuuid_label
        uuid _ tt (λ xs. at_most_one-Keeps quiet free _ _ _ xs (λ _. tt) (λ _. tt))

  pub get_velero_delete_backup_request_by_label-Quiet :
      (h : History) (namespace uuid : String)
      → Quiet h (get_velero_delete_backup_request_by_label namespace uuid)
  unfolding get_velero_delete_backup_request_by_label
  get_velero_delete_backup_request_by_label-Quiet h namespace uuid =
      list_objects_by_label-Keeps quiet free _ h Call.list_delete_requests namespace
        v.backup_name_label uuid _ tt
        (λ xs. at_most_one-Keeps quiet free _ _ _ xs (λ _. tt) (λ _. tt))

  pub validate_storage_location-Quiet :
      (h : History) (oadp name namespace : String)
      → Quiet h (validate_storage_location oadp name namespace)
  unfolding validate_storage_location
  validate_storage_location-Quiet h oadp name namespace = (
    tt,
    λ reply _. nabsl_found-Keeps quiet free _ _ reply _ λ nabsl.
        reject_if-Keeps quiet free _ _ (not (phase_eq nabsl.phase NonAdminPhase.created)) _ _ λ _.
          nabsl_uuid-Keeps quiet free _ _ nabsl.velero_bsl _ λ uuid.
            Keeps-bind quiet (λ _ _. Unit) _ _
              (try (get_velero_backup_storage_location_by_label oadp uuid)) _
              (Quiet-try _ _ (get_velero_backup_storage_location_by_label-Quiet _ oadp uuid))
              (λ g found _. bsl_usable-Keeps quiet free _ g uuid found tt),
  )

  Quiet-spec :
      (h : History) (oadp : String) (nab : NonAdminBackup) (enforced : BackupSpec)
      (o : Option BackupSpec)
      → nab.spec.backup_spec ≡ o
      → Quiet h (validate_backup_spec oadp nab enforced)
  unfolding validate_backup_spec
  Quiet-spec h oadp nab enforced none e = rw e tt
  Quiet-spec h oadp nab enforced (some spec) e = rw e (
      reject_if-Keeps quiet free _ h (namespaces_differ spec.included_namespaces nab.meta.namespace)
        _ _
        λ _. reject_if-Keeps quiet free _ h (is_set spec.excluded_namespaces) _ _ λ _.
          reject_if-Keeps quiet free _ h (is_true spec.include_cluster_resources) _ _ λ _.
            reject_if-Keeps quiet free _ h (is_nonempty spec.included_cluster_scoped_resources) _ _
              λ _.
                Keeps-bind quiet (λ _ _. Unit) _ h
                  (if not (spec.storage_location == empty_string)
                    then validate_storage_location oadp spec.storage_location nab.meta.namespace
                    else ret tt)
                  _
                  (Keeps-if quiet _ h (not (spec.storage_location == empty_string)) _ _
                    (λ _.
                      validate_storage_location-Quiet h oadp spec.storage_location
                        nab.meta.namespace)
                    (λ _. tt))
                  (λ g _ _.
                    reject_if-Keeps quiet free _ g (is_set spec.volume_snapshot_locations) _ _ λ _.
                      check_enforced-Keeps quiet free _ g 0 (backup_fields enforced)
                        (backup_fields spec) tt))

  pub validate_backup_spec-Quiet :
      (h : History) (oadp : String) (nab : NonAdminBackup) (enforced : BackupSpec)
      → Quiet h (validate_backup_spec oadp nab enforced)
  validate_backup_spec-Quiet h oadp nab enforced =
      Quiet-spec h oadp nab enforced nab.spec.backup_spec refl

pub get_backup_queue_info-Quiet :
    (h : History) (namespace : String) (o : Option Backup)
    → Quiet h (get_backup_queue_info namespace o)
unfolding get_backup_queue_info
get_backup_queue_info-Quiet h namespace none = tt
get_backup_queue_info-Quiet h namespace (some b) =
    Keeps-if quiet (λ _ _. Unit) h (nat_eq b.meta.creation_timestamp 0) _ _ (λ _. tt)
      λ _. elim (Option-cases b.status.completion_timestamp) [
        | inl e ↦ rw e (tt, elim [ err _ ↦ λ _. tt | ok _ ↦ λ _. tt ])
        | inr (t, e) ↦ rw e tt
      ]
