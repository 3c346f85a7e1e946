-- ===== src/Function/Validate.antt =====
-- internal/common/function/function.go: `ValidateBackupSpec` and `ValidateRestoreSpec`.
use oadp_non_admin.Base.{
  String, Bool, true, false, Option, none, some, List, [], ◌∷◌, not, ltb, nat_eq, ◌==◌, length,
  if◌then◌else◌, len,
}
use oadp_non_admin.Constant.{empty_string}
use oadp_non_admin.Function.Fields.{Done, check_enforced, backup_fields, restore_fields}
use oadp_non_admin.Function.Lookup.{get_velero_backup_storage_location_by_label}
use oadp_non_admin.Kube.Objects.{
  RestoreSpec, BackupSpec, BslPhase, NonAdminPhase, BackupStorageLocation, phase_eq,
}
use oadp_non_admin.Kube.Status.{
  ApiError, Error, NonAdminBackup, NonAdminRestore, NonAdminBackupStorageLocation,
  VeleroBslReference,
}
use oadp_non_admin.Kube.Api.{
  Call, Reply, ok, err, Prog, ret, fail, attempt, Result, try, success, failure, deref, ◌>>=◌, ◌>>◌,
}
use oadp_non_admin.Kube.Vendor.{Vendor}

unfoldable pub contains_only_namespace : List String → String → Bool
contains_only_namespace [] namespace = true
contains_only_namespace (ns ∷ nss) namespace =
    let rest = contains_only_namespace nss namespace in
    if not (ns == namespace) then false else rest

abbrev pub is_available : BslPhase → Bool
is_available BslPhase.available = true
is_available _ = false

-- A test that returns an error when it fails.
abbrev pub reject_if : Bool → Error → Prog Done
reject_if b e = if b then fail e else ret tt

unfoldable pub namespaces_differ : Option (List String) → String → Bool
unfolding contains_only_namespace
namespaces_differ none namespace = false
namespaces_differ (some ns) namespace = not (contains_only_namespace ns namespace)

abbrev pub is_set : {A : Type 0} → Option A → Bool
is_set none = false
is_set (some _) = true

abbrev pub is_true : Option Bool → Bool
is_true (some true) = true
is_true _ = false

-- `len` of a slice that may be nil.
abbrev pub is_nonempty : Option (List String) → Bool
is_nonempty none = false
is_nonempty (some xs) = ltb 0 (length xs)

-- The answers on the way to the Velero storage location, each with its own error.
unfoldable pub nabsl_found :
    Reply NonAdminBackupStorageLocation → Prog NonAdminBackupStorageLocation
nabsl_found (ok nabsl) = ret nabsl
nabsl_found (err ApiError.not_found) = fail (Error.nabsl_not_found ApiError.not_found)
nabsl_found (err e) = fail (Error.nabsl_invalid e)

unfoldable pub nabsl_uuid : Option VeleroBslReference → Prog String
nabsl_uuid none = fail Error.nabsl_no_uuid
nabsl_uuid (some reference) =
    if reference.nacuuid == empty_string then fail Error.nabsl_no_uuid else ret reference.nacuuid

unfoldable pub bsl_usable : String → Result (Option BackupStorageLocation) → Prog Done
bsl_usable uuid (failure e) = fail (Error.bsl_not_valid uuid)
bsl_usable uuid (success none) = fail (Error.bsl_not_found uuid)
bsl_usable uuid (success (some bsl)) =
    reject_if (not (is_available bsl.phase)) (Error.bsl_not_available uuid)

module _ ⦃v : Vendor⦄ where
  -- The branch for a NonAdminBackup that names a storage location.
  unfoldable pub validate_storage_location : String → String → String → Prog Done
  unfolding nabsl_found nabsl_uuid bsl_usable
  validate_storage_location oadp_namespace name namespace = do
    nabsl ← attempt (Call.get_nabsl (record { name = name; namespace = namespace })) >>= nabsl_found
    reject_if (not (phase_eq nabsl.phase NonAdminPhase.created)) Error.nabsl_not_created
    uuid ← nabsl_uuid nabsl.velero_bsl
    bsl ← try (get_velero_backup_storage_location_by_label oadp_namespace uuid)
    bsl_usable uuid bsl

  unfoldable pub validate_backup_spec : String → NonAdminBackup → BackupSpec → Prog Done
  unfolding validate_storage_location
  validate_backup_spec oadp_namespace nab enforced = do
    spec ← deref nab.spec.backup_spec
    reject_if (namespaces_differ spec.included_namespaces nab.meta.namespace)
        (Error.backup_namespaces_restricted nab.meta.namespace)
    reject_if (is_set spec.excluded_namespaces)
        (Error.backup_field_restricted "spec.backupSpec.excludedNamespaces")
    reject_if (is_true spec.include_cluster_resources)
        (Error.backup_field_restricted "spec.backupSpec.includeClusterResources")
    reject_if (is_nonempty spec.included_cluster_scoped_resources)
        (Error.backup_field_restricted "spec.backupSpec.includedScopedResources")
    if not (spec.storage_location == empty_string)
        then validate_storage_location oadp_namespace spec.storage_location nab.meta.namespace
        else ret tt
    reject_if (is_set spec.volume_snapshot_locations)
        (Error.backup_field_restricted "spec.backupSpec.volumeSnapshotLocations")
    check_enforced 0 (backup_fields enforced) (backup_fields spec)

unfoldable pub backup_found : Reply NonAdminBackup → Prog NonAdminBackup
backup_found (ok nab) = ret nab
backup_found (err e) = fail (Error.backup_name_invalid e)

unfoldable pub validate_restore_spec : NonAdminRestore → RestoreSpec → Prog Done
unfolding backup_found
validate_restore_spec nar enforced = do
  spec ← deref nar.restore_spec
  reject_if (ltb 0 (len spec.schedule_name))
      (Error.restore_field_restricted "nonAdminRestore.spec.restoreSpec.scheduleName")
  reject_if (spec.backup_name == empty_string) Error.backup_name_unset
  nab ←
      attempt (Call.get_nab (record { name = spec.backup_name; namespace = nar.meta.namespace }))
      >>= backup_found
  reject_if (not (phase_eq nab.status.phase NonAdminPhase.created)) Error.backup_not_ready
  reject_if (is_set spec.included_namespaces)
      (Error.restore_field_restricted "nonAdminRestore.spec.restoreSpec.includedNamespaces")
  reject_if (is_set spec.excluded_namespaces)
      (Error.restore_field_restricted "nonAdminRestore.spec.restoreSpec.excludedNamespaces")
  reject_if (not (nat_eq spec.namespace_mapping 0))
      (Error.restore_field_restricted "nonAdminRestore.spec.restoreSpec.namespaceMapping")
  check_enforced 0 (restore_fields enforced) (restore_fields spec)
