-- ===== src/Kube/Status.antt =====
-- The non-admin objects themselves: api/v1alpha1/nonadminbackup_types.go and the parts of the
-- other non-admin types that the backup, validation and clean-up code reads.
use oadp_non_admin.Base.{ℕ, String, Bool, Option, List}
use oadp_non_admin.Kube.Objects.{
  DownloadTargetKind, DownloadRequestStatus, ObjectMeta, BackupSpec, BackupStatus, RestoreSpec,
  RestoreStatus, NonAdminPhase, NonAdminCondition, BslSpec,
}

-- An API server's refusal of a call.
pub data ApiError : Type 0 where
  not_found conflict other : ApiError

-- The errors that the source builds, one constructor for each message.
pub data Error : Type 0 where
  api : ApiError → Error
  terminal : Error → Error
  invalid_input : String → String → String → Error
  list_failed : String → ApiError → Error
  multiple_found : String → String → String → Error
  backup_namespaces_restricted : String → Error
  backup_field_restricted : String → Error
  restore_field_restricted : String → Error
  nabsl_not_found nabsl_invalid : ApiError → Error
  nabsl_not_created nabsl_no_uuid : Error
  bsl_not_valid bsl_not_found bsl_not_available : String → Error
  admin_restricted : ℕ → Error
  backup_name_unset : Error
  backup_name_invalid : ApiError → Error
  backup_not_ready : Error
  no_backup_uuid : Error
  synced_backup_missing finalized_backup_missing : Error
  foreign_backup : Error
  no_restore_uuid finalized_restore_missing : Error

-- The message of a condition: a fixed text, or `err.Error()`.
pub data Message : Type 0 where
  text : String → Message
  of_error : Error → Message

-- `metav1.Condition`
pub record Condition : Type 0 where
  pub type : NonAdminCondition
  pub status : Bool
  pub reason : String
  pub message : Message

pub record VeleroBackup : Type 0 where
  pub spec : Option BackupSpec
  pub status : Option BackupStatus
  pub nacuuid : String
  pub name : String
  pub namespace : String

pub record VeleroDeleteBackupRequest : Type 0 where
  pub status : Option ℕ
  pub nacuuid : String
  pub name : String
  pub namespace : String

pub record DataMoverDataUploads : Type 0 where
  pub total : ℕ
  pub new : ℕ
  pub accepted : ℕ
  pub prepared : ℕ
  pub in_progress : ℕ
  pub canceling : ℕ
  pub canceled : ℕ
  pub failed : ℕ
  pub completed : ℕ

pub record FileSystemPodVolumeBackups : Type 0 where
  pub total : ℕ
  pub new : ℕ
  pub in_progress : ℕ
  pub failed : ℕ
  pub completed : ℕ
  pub uploader_type : String

pub record QueueInfo : Type 0 where
  pub estimated_queue_position : ℕ

pub record NonAdminBackupStatus : Type 0 where
  pub velero_backup : Option VeleroBackup
  pub velero_delete_backup_request : Option VeleroDeleteBackupRequest
  pub data_mover_data_uploads : Option DataMoverDataUploads
  pub file_system_pod_volume_backups : Option FileSystemPodVolumeBackups
  pub queue_info : Option QueueInfo
  pub phase : NonAdminPhase
  pub conditions : List Condition

pub record NonAdminBackupSpec : Type 0 where
  pub backup_spec : Option BackupSpec
  pub delete_backup : Bool

pub record NonAdminBackup : Type 0 where
  pub meta : ObjectMeta
  pub spec : NonAdminBackupSpec
  pub status : NonAdminBackupStatus

-- `VeleroRestore`
pub record VeleroRestore : Type 0 where
  pub status : Option RestoreStatus
  pub name : String
  pub nacuuid : String
  pub namespace : String

pub record DataMoverDataDownloads : Type 0 where
  pub total : ℕ
  pub new : ℕ
  pub accepted : ℕ
  pub prepared : ℕ
  pub in_progress : ℕ
  pub canceling : ℕ
  pub canceled : ℕ
  pub failed : ℕ
  pub completed : ℕ

pub record FileSystemPodVolumeRestores : Type 0 where
  pub total : ℕ
  pub new : ℕ
  pub in_progress : ℕ
  pub failed : ℕ
  pub completed : ℕ

pub record NonAdminRestoreStatus : Type 0 where
  pub velero_restore : Option VeleroRestore
  pub data_mover_data_downloads : Option DataMoverDataDownloads
  pub file_system_pod_volume_restores : Option FileSystemPodVolumeRestores
  pub queue_info : Option QueueInfo
  pub phase : NonAdminPhase
  pub conditions : List Condition

-- `NonAdminRestore`; `restore_spec` is the one field of its spec.
pub record NonAdminRestore : Type 0 where
  pub meta : ObjectMeta
  pub restore_spec : Option RestoreSpec
  pub status : NonAdminRestoreStatus

-- `VeleroBackupStorageLocation` in the status of a NonAdminBackupStorageLocation.
pub record VeleroBslReference : Type 0 where
  pub nacuuid : String
  pub name : String
  pub namespace : String

-- `NonAdminBackupStorageLocation`: the metadata, `spec.backupStorageLocationSpec`, and the parts of
-- the status that other objects use.
pub record NonAdminBackupStorageLocation : Type 0 where
  pub meta : ObjectMeta
  pub bsl_spec : Option BslSpec
  pub phase : NonAdminPhase
  pub velero_bsl : Option VeleroBslReference

-- `SourceNonAdminBSL`
pub record SourceNonAdminBsl : Type 0 where
  pub nacuuid : String
  pub name : String
  pub namespace : String

-- `NonAdminBackupStorageLocationRequest`: the metadata and `status.nonAdminBackupStorageLocation`.
pub record NonAdminBackupStorageLocationRequest : Type 0 where
  pub meta : ObjectMeta
  pub source : Option SourceNonAdminBsl

-- `NonAdminDownloadRequestConditionType`
pub data DownloadConditionType : Type 0 where
  nabsl_not_used backup_not_available restore_not_available processed : DownloadConditionType

-- A condition of a NonAdminDownloadRequest, less its time.
pub record DownloadCondition : Type 0 where
  pub type : DownloadConditionType
  pub status : Bool
  pub reason : String
  pub message : String

-- `NonAdminDownloadRequestStatus`; `velero_status` is the one field of `VeleroDownloadRequest`.
pub record NonAdminDownloadRequestStatus : Type 0 where
  pub velero_status : Option DownloadRequestStatus
  pub phase : NonAdminPhase
  pub conditions : List DownloadCondition

-- `NonAdminDownloadRequest`, with the kind and the name of its target.
pub record NonAdminDownloadRequest : Type 0 where
  pub meta : ObjectMeta
  pub kind : DownloadTargetKind
  pub target : String
  pub status : NonAdminDownloadRequestStatus
