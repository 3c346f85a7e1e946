-- ===== src/Synchronizer/Steps.antt =====
-- internal/controller/nonadminbackupsynchronizer_controller.go: the loops of `Reconcile`.
use oadp_non_admin.Base.{
  String, Bool, true, false, ◌&&◌, Option, none, some, List, [], ◌∷◌, ◌++◌, keep, contains, lookup,
  if◌then◌else◌,
}
use oadp_non_admin.Constant.{
  nab_origin_nacuuid_label, nab_sync_label, nab_origin_name_annotation,
  nab_origin_namespace_annotation, nabsl_origin_name_annotation, nabsl_origin_namespace_annotation,
  empty_string,
}
use oadp_non_admin.Function.Metadata.{
  value_at, get_non_admin_labels, check_label_annotation_value_is_valid,
  check_velero_backup_annotations, check_velero_backup_storage_location_metadata,
}
use oadp_non_admin.Kube.Objects.{
  NamespacedName, ObjectMeta, StringMap, Backup, BackupStorageLocation, NonAdminPhase, Time,
}
use oadp_non_admin.Kube.Status.{ApiError, Error, NonAdminBackup}
use oadp_non_admin.Kube.Api.{Call, ok, err, Prog, ret, fail, perform, attempt, ◌>>=◌, ◌>>◌}
use oadp_non_admin.Kube.Vendor.{Vendor}

-- `NonAdminBackupSynchronizerReconciler`, less the client, the scheme and the period.
pub record SynchronizerReconciler : Type 0 where
  pub oadp_namespace : String

-- `watchedBackupStorageLocations` and `relatedNonAdminBackupStorageLocations`.
pub record Watched : Type 0 where
  pub names : List String
  pub related : StringMap

abbrev pub is_completed : Option Time → Bool
is_completed none = false
is_completed (some _) = true

-- The storage location of the new NonAdminBackup, from the lookup among the related ones.
abbrev pub location_of : Option String → String
location_of none = empty_string
location_of (some value) = value

abbrev pub watch_default : BackupStorageLocation → Watched → Watched
watch_default bsl w =
    if bsl.is_default then record w { names = w.names ++ (bsl.meta.name ∷ []) } else w

module _ ⦃v : Vendor⦄ where
  -- The NonAdminBackupStorageLocation and the NonAdminBackup that annotations name.
  abbrev pub nabsl_key : ObjectMeta → NamespacedName
  nabsl_key m = record {
    name = value_at m.annotations nabsl_origin_name_annotation;
    namespace = value_at m.annotations nabsl_origin_namespace_annotation;
  }

  abbrev pub nab_key : ObjectMeta → NamespacedName
  nab_key m = record {
    name = value_at m.annotations nab_origin_name_annotation;
    namespace = value_at m.annotations nab_origin_namespace_annotation;
  }

  -- A storage location whose NonAdminBackupStorageLocation is there.
  abbrev pub watch_related : BackupStorageLocation → Watched → Watched
  watch_related bsl w = record {
    names = w.names ++ (bsl.meta.name ∷ []);
    related = (bsl.meta.name, (nabsl_key bsl.meta).name) ∷ w.related;
  }

  -- The loop over the storage locations.
  unfoldable pub watch_storage_locations : List BackupStorageLocation → Watched → Prog Watched
  watch_storage_locations [] w = ret w
  watch_storage_locations (bsl ∷ bsls) w =
      let rest : Watched → Prog Watched = watch_storage_locations bsls in
      let w1 = watch_default bsl w in
      if check_velero_backup_storage_location_metadata bsl.meta
      then (attempt (Call.get_nabsl (nabsl_key bsl.meta)) >>= λ reply. elim reply [
        | ok _ ↦ rest (watch_related bsl w1)
        | err ApiError.not_found ↦ rest w1
        | err e ↦ fail (Error.api e)
      ])
      else rest w1

  -- The test of the loop over the listed backups.
  unfoldable pub is_possible : List String → Backup → Bool
  is_possible names b =
      check_velero_backup_annotations b.meta
      && (check_label_annotation_value_is_valid b.meta.labels nab_origin_nacuuid_label
          && (is_completed b.status.completion_timestamp && contains names b.spec.storage_location))

  -- The loop over the possible backups: those whose namespace is there and whose NonAdminBackup is
  -- not.
  unfoldable pub backups_to_sync : List Backup → Prog (List Backup)
  backups_to_sync [] = ret []
  backups_to_sync (b ∷ bs) =
      let rest = backups_to_sync bs in
      attempt (Call.get_namespace (nab_key b.meta).namespace) >>= λ reply. elim reply [
        | ok _ ↦ attempt (Call.get_nab (nab_key b.meta)) >>= λ found. elim found [
          | ok _ ↦ rest
          | err ApiError.not_found ↦ rest >>= λ missing. ret (b ∷ missing)
          | err e ↦ fail (Error.api e)
        ]
        | err ApiError.not_found ↦ rest
        | err e ↦ fail (Error.api e)
      ]

  -- The NonAdminBackup that is made for a Velero backup.
  unfoldable pub synced_backup : StringMap → Backup → NonAdminBackup
  synced_backup related b = record {
    meta = record {
      name = (nab_key b.meta).name;
      namespace = (nab_key b.meta).namespace;
      generate_name = "";
      uid = "";
      labels = (nab_sync_label, value_at b.meta.labels nab_origin_nacuuid_label) ∷ [];
      annotations = [];
      finalizers = [];
      creation_timestamp = 0;
      deletion_timestamp = none;
    };
    spec = record {
      backup_spec = some (record b.spec {
        storage_location = location_of (lookup b.spec.storage_location related);
      });
      delete_backup = false;
    };
    status = record {
      velero_backup = none;
      velero_delete_backup_request = none;
      data_mover_data_uploads = none;
      file_system_pod_volume_backups = none;
      queue_info = none;
      phase = NonAdminPhase.unset;
      conditions = [];
    };
  }

  -- The last loop.
  unfoldable pub create_backups : StringMap → List Backup → Prog (Unit {0})
  unfolding synced_backup
  create_backups related [] = ret tt
  create_backups related (b ∷ bs) =
      perform (Call.create_nab (synced_backup related b)) >> create_backups related bs

  unfoldable pub synchronize : SynchronizerReconciler → Prog (Unit {0})
  unfolding watch_storage_locations is_possible backups_to_sync create_backups get_non_admin_labels
  synchronize r = perform (Call.list_bsls r.oadp_namespace []) >>= λ bsls.
      watch_storage_locations bsls (record { names = []; related = [] }) >>= λ w.
      perform (Call.list_backups r.oadp_namespace get_non_admin_labels) >>= λ bs.
      backups_to_sync (keep (is_possible w.names) bs) >>= λ missing.
      create_backups w.related missing
