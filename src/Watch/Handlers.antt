-- ===== src/Watch/Handlers.antt =====
-- internal/handler: the requests that events add to the queues of the NonAdminBackup and the
-- NonAdminRestore controller, in their order.
use oadp_non_admin.Base.{String, Bool, List, [], ◌∷◌, ◌==◌, ◌||◌, not, if◌then◌else◌}
use oadp_non_admin.Constant.{
  managed_by_label, managed_by_label_value, nab_origin_name_annotation,
  nab_origin_namespace_annotation, nar_origin_name_annotation, nar_origin_namespace_annotation,
}
use oadp_non_admin.Function.Lookup.{
  get_active_velero_backups_by_label, get_active_velero_restores_by_label,
}
use oadp_non_admin.Function.Metadata.{value_at}
use oadp_non_admin.Kube.Objects.{NamespacedName, ObjectMeta, Backup, Restore}
use oadp_non_admin.Kube.Api.{Call, ok, err, Prog, ret, attempt, try, success, failure, ◌>>=◌}
use oadp_non_admin.Kube.Vendor.{Vendor}
use oadp_non_admin.Watch.Events.{Owner, Object}
use oadp_non_admin.Watch.Predicates.{is_owner_of_kind}

module _ ⦃v : Vendor⦄ where
  abbrev pub backup_origin : ObjectMeta → NamespacedName
  backup_origin m = record {
    name = value_at m.annotations nab_origin_name_annotation;
    namespace = value_at m.annotations nab_origin_namespace_annotation;
  }

  abbrev pub restore_origin : ObjectMeta → NamespacedName
  restore_origin m = record {
    name = value_at m.annotations nar_origin_name_annotation;
    namespace = value_at m.annotations nar_origin_namespace_annotation;
  }

  -- `Update` and `Delete` of `VeleroBackupHandler`.
  unfoldable pub velero_backup_handler : Object → List NamespacedName
  velero_backup_handler x = backup_origin x.meta ∷ []

  -- `Update` and `Delete` of `VeleroRestoreHandler`.
  unfoldable pub velero_restore_handler : Object → List NamespacedName
  velero_restore_handler x = restore_origin x.meta ∷ []

  -- The test of the queue handlers' loops.
  abbrev pub differs : NamespacedName → NamespacedName → Bool
  differs a b = not (a.namespace == b.namespace) || not (a.name == b.name)

  -- The loop over the active backups: the NonAdminBackups of the others.
  unfoldable pub backup_queue_requests : NamespacedName → List Backup → List NamespacedName
  backup_queue_requests event [] = []
  backup_queue_requests event (b ∷ bs) =
      let rest = backup_queue_requests event bs in
      if differs (backup_origin b.meta) event then backup_origin b.meta ∷ rest else rest

  unfoldable pub restore_queue_requests : NamespacedName → List Restore → List NamespacedName
  restore_queue_requests event [] = []
  restore_queue_requests event (x ∷ xs) =
      let rest = restore_queue_requests event xs in
      if differs (restore_origin x.meta) event then restore_origin x.meta ∷ rest else rest

  -- `Update` of `VeleroBackupQueueHandler`; an error of the list call is only logged.
  unfoldable pub velero_backup_queue_handler : String → Object → Prog (List NamespacedName)
  unfolding get_active_velero_backups_by_label backup_queue_requests
  velero_backup_queue_handler oadp x =
      try (get_active_velero_backups_by_label oadp managed_by_label managed_by_label_value)
      >>= λ result. elim result [
        | failure _ ↦ ret []
        | success backups ↦ ret (backup_queue_requests (backup_origin x.meta) backups)
      ]

  unfoldable pub velero_restore_queue_handler : String → Object → Prog (List NamespacedName)
  unfolding get_active_velero_restores_by_label restore_queue_requests
  velero_restore_queue_handler oadp x =
      try (get_active_velero_restores_by_label oadp managed_by_label managed_by_label_value)
      >>= λ result. elim result [
        | failure _ ↦ ret []
        | success restores ↦ ret (restore_queue_requests (restore_origin x.meta) restores)
      ]

  -- The loop over the owners of a PodVolumeBackup or a DataUpload, which ends at the first Velero backup.
  unfoldable pub backup_request_of : String → List Owner → Prog (List NamespacedName)
  backup_request_of oadp [] = ret []
  backup_request_of oadp (owner ∷ owners) =
      let rest = backup_request_of oadp owners in
      if is_owner_of_kind "Backup" owner
      then (attempt (Call.get_backup (record { name = owner.name; namespace = oadp })) >>= λ reply.
          elim reply [ err _ ↦ ret [] | ok backup ↦ ret (backup_origin backup.meta ∷ []) ])
      else rest

  -- The loop over the owners of a PodVolumeRestore or a DataDownload.
  unfoldable pub restore_request_of : String → List Owner → Prog (List NamespacedName)
  restore_request_of oadp [] = ret []
  restore_request_of oadp (owner ∷ owners) =
      let rest = restore_request_of oadp owners in
      if is_owner_of_kind "Restore" owner
      then (attempt (Call.get_restore (record { name = owner.name; namespace = oadp })) >>= λ reply.
          elim reply [ err _ ↦ ret [] | ok restore ↦ ret (restore_origin restore.meta ∷ []) ])
      else rest

  -- `Update` of `VeleroPodVolumeBackupHandler`.
  unfoldable pub velero_pod_volume_backup_handler : String → Object → Prog (List NamespacedName)
  unfolding backup_request_of
  velero_pod_volume_backup_handler oadp x = backup_request_of oadp x.owners

  -- `Update` of `VeleroDataUploadHandler`.
  unfoldable pub velero_data_upload_handler : String → Object → Prog (List NamespacedName)
  unfolding backup_request_of
  velero_data_upload_handler oadp x = backup_request_of oadp x.owners

  -- `Update` of `VeleroPodVolumeRestoreHandler`.
  unfoldable pub velero_pod_volume_restore_handler : String → Object → Prog (List NamespacedName)
  unfolding restore_request_of
  velero_pod_volume_restore_handler oadp x = restore_request_of oadp x.owners

  -- `Update` of `VeleroDataDownloadHandler`.
  unfoldable pub velero_data_download_handler : String → Object → Prog (List NamespacedName)
  unfolding restore_request_of
  velero_data_download_handler oadp x = restore_request_of oadp x.owners
