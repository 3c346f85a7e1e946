-- ===== src/Function/Lookup.antt =====
-- internal/common/function/function.go: finding the objects of the OADP namespace by a label.
use oadp_non_admin.Base.{
  String, Bool, Option, none, some, List, [], ◌∷◌, ◌==◌, ◌||◌, keep, if◌then◌else◌,
}
use oadp_non_admin.Constant.{
  empty_string, nab_origin_nacuuid_label, nar_origin_nacuuid_label, nabsl_origin_nacuuid_label,
}
use oadp_non_admin.Kube.Objects.{
  Backup, Restore, DeleteBackupRequest, BackupStorageLocation, Secret, Time,
}
use oadp_non_admin.Kube.Status.{Error, NonAdminBackupStorageLocationRequest}
use oadp_non_admin.Kube.Api.{
  Call, Payload, Selector, ok, err, Prog, ret, fail, perform, attempt, ◌>>=◌,
}
use oadp_non_admin.Kube.Vendor.{Vendor}

-- The guard of `ListObjectsByLabel`, and the selector that it lists by.
unfoldable pub list_objects_by_label :
    (list : String → Selector → Call)
    → (namespace label_key label_value : String)
    → Prog (Payload (list namespace ((label_key, label_value) ∷ [])))
list_objects_by_label list namespace label_key label_value =
    if namespace == empty_string || (label_key == empty_string || label_value == empty_string)
    then fail (Error.invalid_input namespace label_key label_value)
    else (attempt (list namespace ((label_key, label_value) ∷ [])) >>= λ reply. elim reply [
      | ok items ↦ ret items
      | err e ↦ fail (Error.list_failed namespace e)
    ])

-- The `switch len(list.Items)` of the lookups: none, the one, or an error.
unfoldable pub at_most_one : {A : Type 0} → Error → List A → Prog (Option A)
at_most_one e [] = ret none
at_most_one e (x ∷ []) = ret (some x)
at_most_one e (x ∷ y ∷ xs) = fail e

module _ ⦃v : Vendor⦄ where
  unfoldable pub get_velero_backup_by_label : String → String → Prog (Option Backup)
  unfolding list_objects_by_label at_most_one
  get_velero_backup_by_label namespace value = do
    items ← list_objects_by_label Call.list_backups namespace nab_origin_nacuuid_label value
    at_most_one (Error.multiple_found nab_origin_nacuuid_label value namespace) items

  unfoldable pub get_velero_delete_backup_request_by_label :
      String → String → Prog (Option DeleteBackupRequest)
  unfolding list_objects_by_label at_most_one
  get_velero_delete_backup_request_by_label namespace value = do
    items ← list_objects_by_label Call.list_delete_requests namespace v.backup_name_label value
    at_most_one (Error.multiple_found v.backup_name_label value namespace) items

  unfoldable pub get_velero_restore_by_label : String → String → Prog (Option Restore)
  unfolding list_objects_by_label at_most_one
  get_velero_restore_by_label namespace value = do
    items ← list_objects_by_label Call.list_restores namespace nar_origin_nacuuid_label value
    at_most_one (Error.multiple_found nar_origin_nacuuid_label value namespace) items

  unfoldable pub get_nabsl_request_by_label :
      String → String → Prog (Option NonAdminBackupStorageLocationRequest)
  unfolding list_objects_by_label at_most_one
  get_nabsl_request_by_label namespace value = do
    items ←
        list_objects_by_label Call.list_nabsl_requests namespace nabsl_origin_nacuuid_label value
    at_most_one (Error.multiple_found nabsl_origin_nacuuid_label value namespace) items

  -- The error for several objects names velero's storage location label, not the one listed by.
  unfoldable pub get_bsl_secret_by_label : String → String → Prog (Option Secret)
  unfolding list_objects_by_label at_most_one
  get_bsl_secret_by_label namespace value = do
    items ← list_objects_by_label Call.list_secrets namespace nabsl_origin_nacuuid_label value
    at_most_one (Error.multiple_found v.storage_location_label value namespace) items

  unfoldable pub get_velero_backup_storage_location_by_label :
      String → String → Prog (Option BackupStorageLocation)
  unfolding list_objects_by_label at_most_one
  get_velero_backup_storage_location_by_label namespace value = do
    items ← list_objects_by_label Call.list_bsls namespace nabsl_origin_nacuuid_label value
    at_most_one (Error.multiple_found v.storage_location_label value namespace) items

abbrev pub is_nil : Option Time → Bool
is_nil none = Bool.true
is_nil (some _) = Bool.false

-- The backups of a list that are not completed; Go's nil for none of them is the empty list.
unfoldable pub get_active_velero_backups_by_label : String → String → String → Prog (List Backup)
get_active_velero_backups_by_label namespace label_key label_value = do
  items ← perform (Call.list_backups namespace ((label_key, label_value) ∷ []))
  ret (keep (λ b. is_nil b.status.completion_timestamp) items)

unfoldable pub get_active_velero_restores_by_label : String → String → String → Prog (List Restore)
get_active_velero_restores_by_label namespace label_key label_value = do
  items ← perform (Call.list_restores namespace ((label_key, label_value) ∷ []))
  ret (keep (λ b. is_nil b.status.completion_timestamp) items)
