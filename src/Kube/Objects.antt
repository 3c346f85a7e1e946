-- ===== src/Kube/Objects.antt =====
-- The Kubernetes objects that the controllers read and write: api/v1alpha1/nonadmin_types.go,
-- nonadminbackup_types.go, nonadminrestore_types.go, nonadminbackupstoragelocation_types.go and
-- nonadminbackupstoragelocationrequest_types.go, and the fields of the Velero and core objects
-- that the source reads. A pointer is an `Option`, a nil map or slice of a map type is `[]`.
use oadp_non_admin.Base.{ℕ, String, Bool, true, false, Option, List, String_discrete, ℕ_discrete}

-- 0 is the zero time.
abbrev pub Time : Type 0
Time = ℕ

abbrev pub StringMap : Type 0
StringMap = List (String × String)

pub record ObjectMeta : Type 0 where
  pub name : String
  pub namespace : String
  pub generate_name : String
  pub uid : String
  pub labels : StringMap
  pub annotations : StringMap
  pub finalizers : List String
  pub creation_timestamp : Time
  pub deletion_timestamp : Option Time

-- `types.NamespacedName`
pub record NamespacedName : Type 0 where
  pub name : String
  pub namespace : String

-- The value of a field of a spec as `reflect` sees it: a slice of strings or a pointer to a Boolean
-- (`none` is nil), a string, or a value of another type, of which only its identity under
-- `reflect.DeepEqual` matters; `other 0` is the zero value of such a type.
pub data FieldValue : Type 0 where
  strs : Option (List String) → FieldValue
  flag : Option Bool → FieldValue
  text : String → FieldValue
  other : ℕ → FieldValue

unfoldable pub FieldValue-discrete : Discrete FieldValue
FieldValue-discrete = hlevel (ℕ_discrete, String_discrete)

-- `velerov1.BackupSpec`: the fields that the source names, and the values of the rest in order.
pub record BackupSpec : Type 0 where
  pub included_namespaces : Option (List String)
  pub excluded_namespaces : Option (List String)
  pub excluded_resources : Option (List String)
  pub included_cluster_scoped_resources : Option (List String)
  pub excluded_cluster_scoped_resources : Option (List String)
  pub included_namespace_scoped_resources : Option (List String)
  pub excluded_namespace_scoped_resources : Option (List String)
  pub include_cluster_resources : Option Bool
  pub storage_location : String
  pub volume_snapshot_locations : Option (List String)
  pub others : List ℕ

-- `velerov1.BackupStatus`; `others` stands for the fields that are only copied and compared.
pub record BackupStatus : Type 0 where
  pub completion_timestamp : Option Time
  pub others : ℕ

unfoldable pub BackupSpec-discrete : Discrete BackupSpec
BackupSpec-discrete = hlevel (ℕ_discrete, String_discrete)

unfoldable pub BackupStatus-discrete : Discrete BackupStatus
BackupStatus-discrete = hlevel ℕ_discrete

-- `velerov1.Backup`
pub record Backup : Type 0 where
  pub meta : ObjectMeta
  pub spec : BackupSpec
  pub status : BackupStatus

-- `velerov1.RestoreSpec`; a `namespace_mapping` of 0 is the nil map.
pub record RestoreSpec : Type 0 where
  pub backup_name : String
  pub schedule_name : String
  pub included_namespaces : Option (List String)
  pub excluded_namespaces : Option (List String)
  pub included_resources : Option (List String)
  pub excluded_resources : Option (List String)
  pub namespace_mapping : ℕ
  pub others : List ℕ

-- `velerov1.RestoreStatus`; `others` stands for the fields that are only copied and compared.
pub record RestoreStatus : Type 0 where
  pub completion_timestamp : Option Time
  pub others : ℕ

unfoldable pub RestoreStatus-discrete : Discrete RestoreStatus
RestoreStatus-discrete = hlevel ℕ_discrete

-- `velerov1.Restore`
pub record Restore : Type 0 where
  pub meta : ObjectMeta
  pub spec : RestoreSpec
  pub status : RestoreStatus

-- `velerov1.DeleteBackupRequest`; the status is known up to `reflect.DeepEqual`, 0 is its zero value.
pub record DeleteBackupRequest : Type 0 where
  pub meta : ObjectMeta
  pub backup_name : String
  pub status : ℕ

pub data BslPhase : Type 0 where
  unset available unavailable : BslPhase

-- `velerov1.BackupStorageLocation`
pub record BackupStorageLocation : Type 0 where
  pub meta : ObjectMeta
  pub is_default : Bool
  pub phase : BslPhase

-- `corev1.SecretKeySelector`
pub record SecretKeySelector : Type 0 where
  pub name : String
  pub key : String

-- `velerov1.BackupStorageLocationSpec`: the field that the handlers read.
pub record BslSpec : Type 0 where
  pub credential : Option SecretKeySelector

-- `corev1.Secret`
pub record Secret : Type 0 where
  pub meta : ObjectMeta

-- `unset` stands for every phase that the controllers do not count, here and for volume restores.
pub data PodVolumeBackupPhase : Type 0 where
  unset new in_progress failed completed : PodVolumeBackupPhase

-- `velerov1.PodVolumeBackup`
pub record PodVolumeBackup : Type 0 where
  pub phase : PodVolumeBackupPhase
  pub uploader_type : String

pub data DataUploadPhase : Type 0 where
  unset new accepted prepared in_progress canceling canceled failed completed : DataUploadPhase

-- `velerov2alpha1.DataUpload`
pub record DataUpload : Type 0 where
  pub phase : DataUploadPhase

pub data PodVolumeRestorePhase : Type 0 where
  unset new in_progress failed completed : PodVolumeRestorePhase

-- `velerov1.PodVolumeRestore`
pub record PodVolumeRestore : Type 0 where
  pub phase : PodVolumeRestorePhase

pub data DataDownloadPhase : Type 0 where
  unset new accepted prepared in_progress canceling canceled failed completed : DataDownloadPhase

-- `velerov2alpha1.DataDownload`
pub record DataDownload : Type 0 where
  pub phase : DataDownloadPhase

-- `NonAdminPhase`; `unset` is the empty string.
pub data NonAdminPhase : Type 0 where
  unset new backing_off created deleting : NonAdminPhase

-- `==` on phases.
abbrev pub phase_eq : NonAdminPhase → NonAdminPhase → Bool
phase_eq NonAdminPhase.unset NonAdminPhase.unset = true
phase_eq NonAdminPhase.new NonAdminPhase.new = true
phase_eq NonAdminPhase.backing_off NonAdminPhase.backing_off = true
phase_eq NonAdminPhase.created NonAdminPhase.created = true
phase_eq NonAdminPhase.deleting NonAdminPhase.deleting = true
phase_eq _ _ = false

-- `NonAdminCondition`
pub data NonAdminCondition : Type 0 where
  accepted queued deleting : NonAdminCondition

-- `velerov1.DownloadTargetKind`; `unset` is the empty string, `other` a value that is none of them.
pub data DownloadTargetKind : Type 0 where
  unset other : DownloadTargetKind
  backup_log backup_contents backup_volume_snapshots backup_item_operations : DownloadTargetKind
  backup_resource_list backup_results csi_backup_volume_snapshots : DownloadTargetKind
  csi_backup_volume_snapshot_contents backup_volume_infos : DownloadTargetKind
  restore_log restore_results restore_resource_list restore_item_operations : DownloadTargetKind
  restore_volume_info : DownloadTargetKind

-- `velerov1.DownloadRequestStatus`; `processed` says whether the phase is `Processed`.
pub record DownloadRequestStatus : Type 0 where
  pub processed : Bool
  pub download_url : String
  pub expiration : Option Time

-- `velerov1.DownloadRequest`
pub record DownloadRequest : Type 0 where
  pub meta : ObjectMeta
  pub resource_version : String
  pub kind : DownloadTargetKind
  pub target : String
  pub status : DownloadRequestStatus
