-- ===== src/Watch/Predicates.antt =====
-- internal/predicate: the event filters of the NonAdminBackup and the NonAdminRestore controller. A
-- filter that reads the owner of an object is a program.
use oadp_non_admin.Base.{
  String, Bool, true, false, Option, List, [], ◌∷◌, ◌==◌, ◌&&◌, ◌||◌, not, nat_eq, if◌then◌else◌,
}
use oadp_non_admin.Constant.{empty_string}
use oadp_non_admin.Function.Metadata.{check_velero_backup_metadata, check_velero_restore_metadata}
use oadp_non_admin.Function.Validate.{is_set}
use oadp_non_admin.Kube.Objects.{Time}
use oadp_non_admin.Kube.Api.{Call, ok, err, Prog, ret, attempt, ◌>>=◌}
use oadp_non_admin.Kube.Vendor.{Vendor}
use oadp_non_admin.Watch.Events.{Owner, Content, Object}

-- The spec has changed.
abbrev pub generation_changed : Object → Object → Bool
generation_changed old new = not (nat_eq new.generation old.generation)

-- `old.Status.CompletionTimestamp == nil && new.Status.CompletionTimestamp != nil`
abbrev pub newly_set : Option Time → Option Time → Bool
newly_set old new = not (is_set old) && is_set new

-- Two Velero backups, of which the new one is completed and the old one is not.
abbrev pub newly_completed_backup : Content → Content → Bool
newly_completed_backup (Content.backup old) (Content.backup new) = newly_set old new
newly_completed_backup _ _ = false

abbrev pub newly_completed_restore : Content → Content → Bool
newly_completed_restore (Content.restore old) (Content.restore new) = newly_set old new
newly_completed_restore _ _ = false

-- `Update` of `VeleroBackupQueuePredicate`.
unfoldable pub velero_backup_queue_predicate : String → Object → Object → Bool
velero_backup_queue_predicate oadp old new =
    if new.meta.namespace == oadp then newly_completed_backup old.content new.content else false

-- `Update` of `VeleroRestoreQueuePredicate`.
unfoldable pub velero_restore_queue_predicate : String → Object → Object → Bool
velero_restore_queue_predicate oadp old new =
    if new.meta.namespace == oadp then newly_completed_restore old.content new.content else false

abbrev pub create_backup_predicate : Content → Bool
create_backup_predicate Content.nab = true
create_backup_predicate _ = false

abbrev pub create_restore_predicate : Content → Bool
create_restore_predicate Content.nar = true
create_restore_predicate _ = false

module _ ⦃v : Vendor⦄ where
  -- `Update` and `Delete` of `VeleroBackupPredicate`.
  unfoldable pub velero_backup_predicate : String → Object → Bool
  velero_backup_predicate oadp x =
      if x.meta.namespace == oadp then check_velero_backup_metadata x.meta else false

  -- `Update` and `Delete` of `VeleroRestorePredicate`.
  unfoldable pub velero_restore_predicate : String → Object → Bool
  velero_restore_predicate oadp x =
      if x.meta.namespace == oadp then check_velero_restore_metadata x.meta else false

  -- `owner.Kind == … && owner.APIVersion == velerov1.SchemeGroupVersion.String()`
  abbrev pub is_owner_of_kind : String → Owner → Bool
  is_owner_of_kind kind owner = owner.kind == kind && owner.api_version == v.velero_group_version

  -- The loop over the owners of a PodVolumeBackup or a DataUpload.
  unfoldable pub some_backup_owner : String → List Owner → Prog Bool
  some_backup_owner oadp [] = ret false
  some_backup_owner oadp (owner ∷ owners) =
      let rest = some_backup_owner oadp owners in
      if is_owner_of_kind "Backup" owner
      then (attempt (Call.get_backup (record { name = owner.name; namespace = oadp })) >>= λ reply.
          elim reply [
            | err _ ↦ ret false
            | ok backup ↦ if check_velero_backup_metadata backup.meta then ret true else rest
          ])
      else rest

  -- The loop over the owners of a PodVolumeRestore or a DataDownload.
  unfoldable pub some_restore_owner : String → List Owner → Prog Bool
  some_restore_owner oadp [] = ret false
  some_restore_owner oadp (owner ∷ owners) =
      let rest = some_restore_owner oadp owners in
      if is_owner_of_kind "Restore" owner
      then (attempt (Call.get_restore (record { name = owner.name; namespace = oadp })) >>= λ reply.
          elim reply [
            | err _ ↦ ret false
            | ok restore ↦ if check_velero_restore_metadata restore.meta then ret true else rest
          ])
      else rest

  -- `Update` of `VeleroDataUploadPredicate`.
  unfoldable pub velero_data_upload_predicate : String → Object → Prog Bool
  unfolding some_backup_owner
  velero_data_upload_predicate oadp x =
      if x.meta.namespace == oadp then some_backup_owner oadp x.owners else ret false

  -- `Update` of `VeleroPodVolumeBackupPredicate`: the loop is the same as for a DataUpload.
  unfoldable pub velero_pod_volume_backup_predicate : String → Object → Prog Bool
  unfolding some_backup_owner
  velero_pod_volume_backup_predicate oadp x =
      if x.meta.namespace == oadp then some_backup_owner oadp x.owners else ret false

  -- `Update` of `VeleroDataDownloadPredicate`.
  unfoldable pub velero_data_download_predicate : String → Object → Prog Bool
  unfolding some_restore_owner
  velero_data_download_predicate oadp x =
      if x.meta.namespace == oadp then some_restore_owner oadp x.owners else ret false

  -- `Update` of `VeleroPodVolumeRestorePredicate`: the loop is the same as for a DataDownload.
  unfoldable pub velero_pod_volume_restore_predicate : String → Object → Prog Bool
  unfolding some_restore_owner
  velero_pod_volume_restore_predicate oadp x =
      if x.meta.namespace == oadp then some_restore_owner oadp x.owners else ret false

  -- The `switch` of `CompositeBackupPredicate.Update` on the type of the new object.
  unfoldable pub update_backup_predicate_for : Content → String → Object → Object → Prog Bool
  unfolding velero_backup_queue_predicate velero_backup_predicate velero_pod_volume_backup_predicate
      velero_data_upload_predicate
  update_backup_predicate_for Content.nab oadp old new = ret (generation_changed old new)
  update_backup_predicate_for (Content.backup _) oadp old new =
      ret (velero_backup_queue_predicate oadp old new || velero_backup_predicate oadp new)
  update_backup_predicate_for Content.pod_volume_backup oadp old new =
      velero_pod_volume_backup_predicate oadp new
  update_backup_predicate_for Content.data_upload oadp old new =
      velero_data_upload_predicate oadp new
  update_backup_predicate_for _ oadp old new = ret false

  unfoldable pub update_backup_predicate : String → Object → Object → Prog Bool
  unfolding update_backup_predicate_for
  update_backup_predicate oadp old new = update_backup_predicate_for new.content oadp old new

  -- The `switch` of `CompositeRestorePredicate.Update` on the type of the new object. The queue
  -- predicate has a namespace of its own, which is the first string.
  unfoldable pub update_restore_predicate_for :
      Content → String → String → Object → Object → Prog Bool
  unfolding velero_restore_queue_predicate velero_restore_predicate
      velero_pod_volume_restore_predicate velero_data_download_predicate
  update_restore_predicate_for Content.nar queue oadp old new = ret (generation_changed old new)
  update_restore_predicate_for (Content.restore _) queue oadp old new =
      ret (velero_restore_queue_predicate queue old new || velero_restore_predicate oadp new)
  update_restore_predicate_for Content.pod_volume_restore queue oadp old new =
      velero_pod_volume_restore_predicate oadp new
  update_restore_predicate_for Content.data_download queue oadp old new =
      velero_data_download_predicate oadp new
  update_restore_predicate_for _ queue oadp old new = ret false

  -- The filter that `SetupWithManager` of the restore controller registers: it leaves the namespace
  -- of the queue predicate unset.
  unfoldable pub update_restore_predicate : String → Object → Object → Prog Bool
  unfolding update_restore_predicate_for
  update_restore_predicate oadp old new =
      update_restore_predicate_for new.content empty_string oadp old new

  -- `CompositeBackupPredicate.Delete` and `CompositeRestorePredicate.Delete`.
  unfoldable pub delete_backup_predicate : Content → String → Object → Bool
  unfolding velero_backup_predicate
  delete_backup_predicate Content.nab oadp x = true
  delete_backup_predicate (Content.backup _) oadp x = velero_backup_predicate oadp x
  delete_backup_predicate _ oadp x = false

  unfoldable pub delete_restore_predicate : Content → String → Object → Bool
  unfolding velero_restore_predicate
  delete_restore_predicate Content.nar oadp x = true
  delete_restore_predicate (Content.restore _) oadp x = velero_restore_predicate oadp x
  delete_restore_predicate _ oadp x = false
