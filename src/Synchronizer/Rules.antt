-- ===== src/Synchronizer/Rules.antt =====
-- The rules for the calls of the synchronizer.
use oadp_non_admin.Base.{
  String, ◌≡◌, ◌≢◌, ◌⊎◌, inl, inr, true, false, some, List, [], ◌∷◌, All, All-map,
}
use oadp_non_admin.Constant.{empty_string, nab_origin_nacuuid_label, nab_sync_label}
use oadp_non_admin.Function.Metadata.{
  value_at, get_non_admin_labels, check_label_annotation_value_is_valid,
  check_velero_backup_annotations, check_velero_backup_storage_location_metadata,
}
use oadp_non_admin.Kube.Objects.{Backup, BackupStorageLocation}
use oadp_non_admin.Kube.Status.{NonAdminBackup}
use oadp_non_admin.Kube.Api.{Call, History}
use oadp_non_admin.Kube.Rules.{Rules}
use oadp_non_admin.Kube.Facts.{Missing, Succeeded, Stays, Listing, Answered, Listed, Listed-Stays}
use oadp_non_admin.Kube.Vendor.{Vendor}
use oadp_non_admin.Synchronizer.Steps.{
  SynchronizerReconciler, Watched, is_completed, nabsl_key, nab_key,
}

module _ ⦃v : Vendor⦄ (r : SynchronizerReconciler) where
  abbrev pub bsls : Listing BackupStorageLocation
  bsls = record { list = Call.list_bsls r.oadp_namespace []; give = λ xs. xs }

  abbrev pub backups : Listing Backup
  backups = record {
    list = Call.list_backups r.oadp_namespace get_non_admin_labels;
    give = λ xs. xs;
  }

  -- The storage location of that name was listed and is marked, and its annotations name a
  -- NonAdminBackupStorageLocation of that name that was read.
  pub record IsOwned (name owner : String) (bsl : BackupStorageLocation) (h : History)
      : Type 0 where
    pub listed : Listed bsls bsl h
    pub same_name : name ≡ bsl.meta.name
    pub named : owner ≡ (nabsl_key bsl.meta).name
    pub marked : check_velero_backup_storage_location_metadata bsl.meta ≡ true
    pub there : Succeeded (Call.get_nabsl (nabsl_key bsl.meta)) h

  abbrev pub IsRelated : String → String → History → Type 0
  IsRelated name owner h = (bsl : BackupStorageLocation) × IsOwned name owner bsl h

  -- The storage location of that name was listed and is a default one.
  abbrev pub IsDefault : String → History → Type 0
  IsDefault name h =
      (bsl : BackupStorageLocation) × Listed bsls bsl h
      × (name ≡ bsl.meta.name)
      × (bsl.is_default ≡ true)

  abbrev pub IsWatched : String → History → Type 0
  IsWatched name h = IsDefault name h ⊎ ((owner : String) × IsRelated name owner h)

  -- What the first loop has collected.
  abbrev pub AllWatched : Watched → History → Type 0
  AllWatched w h = All (λ n. IsWatched n h) w.names × All (λ e. IsRelated e.0 e.1 h) w.related

  -- A listed backup that may get a NonAdminBackup.
  pub record IsPossible (b : Backup) (h : History) : Type 0 where
    pub listed : Listed backups b h
    pub annotated : check_velero_backup_annotations b.meta ≡ true
    pub labelled :
        check_label_annotation_value_is_valid b.meta.labels nab_origin_nacuuid_label ≡ true
    pub completed : is_completed b.status.completion_timestamp ≡ true
    pub watched : IsWatched b.spec.storage_location h

  -- One whose namespace was read, and whose NonAdminBackup was not there.
  pub record IsUnsynced (b : Backup) (h : History) : Type 0 where
    pub possible : IsPossible b h
    pub there : Succeeded (Call.get_namespace (nab_key b.meta).namespace) h
    pub missing : Missing (Call.get_nab (nab_key b.meta)) h

  -- The storage location is not of that name, or is not marked, or its NonAdminBackupStorageLocation
  -- was not there.
  abbrev pub IsUnrelated : String → BackupStorageLocation → History → Type 0
  IsUnrelated name bsl h =
      (name ≢ bsl.meta.name)
      ⊎ ((check_velero_backup_storage_location_metadata bsl.meta ≡ false)
          ⊎ Missing (Call.get_nabsl (nabsl_key bsl.meta)) h)

  -- That holds of every storage location that was listed.
  abbrev pub IsForeign : String → History → Type 0
  IsForeign name h =
      (items : List BackupStorageLocation) × Answered bsls items h
      × All (λ bsl. IsUnrelated name bsl h) items

  -- The NonAdminBackup has the name and the namespace of the annotations, the UUID as the sync
  -- label, and the spec of the backup with the storage location of the user, or none where no storage location
  -- of that name is related to one of a user.
  pub record IsSyncOf (nab : NonAdminBackup) (b : Backup) (h : History) : Type 0 where
    pub same_name : nab.meta.name ≡ (nab_key b.meta).name
    pub same_namespace : nab.meta.namespace ≡ (nab_key b.meta).namespace
    pub synced :
        nab.meta.labels ≡ (nab_sync_label, value_at b.meta.labels nab_origin_nacuuid_label) ∷ []
    pub kept : nab.spec.delete_backup ≡ false
    pub location : String
    pub same_spec : nab.spec.backup_spec ≡ some (record b.spec { storage_location = location })
    pub translated :
        ((location ≡ empty_string) × IsForeign b.spec.storage_location h)
        ⊎ IsRelated b.spec.storage_location location h

  abbrev pub AllowsSynchronizer : History → Call → Type 0
  AllowsSynchronizer h (Call.list_bsls _ _) = Unit
  AllowsSynchronizer h (Call.list_backups _ _) = Unit
  AllowsSynchronizer h (Call.get_nabsl _) = Unit
  AllowsSynchronizer h (Call.get_namespace _) = Unit
  AllowsSynchronizer h (Call.get_nab _) = Unit
  AllowsSynchronizer h (Call.create_nab nab) = (b : Backup) × IsUnsynced b h × IsSyncOf nab b h
  AllowsSynchronizer h _ = ⊥

  abbrev pub synchronizer_rules : Rules
  synchronizer_rules = record {
    allows = AllowsSynchronizer;
    lawful = λ _ _. Unit;
    errs = λ _ _. Unit;
    panics = ⊥;
  }

  pub IsRelated-Stays : (name owner : String) → Stays (IsRelated name owner)
  IsRelated-Stays name owner h g i (bsl, o) = (
    bsl,
    record {
      listed = Listed-Stays bsls bsl h g i o.listed;
      same_name = o.same_name;
      named = o.named;
      marked = o.marked;
      there = i _ o.there;
    },
  )

  pub IsWatched-Stays : (name : String) → Stays (IsWatched name)
  IsWatched-Stays name h g i (inl (bsl, l, e, d)) = inl (bsl, Listed-Stays bsls bsl h g i l, e, d)
  IsWatched-Stays name h g i (inr (owner, o)) = inr (owner, IsRelated-Stays name owner h g i o)

  pub AllWatched-Stays : (w : Watched) → Stays (AllWatched w)
  AllWatched-Stays w h g i a = (
    All-map _ _ w.names (λ n. IsWatched-Stays n h g i) a.0,
    All-map _ _ w.related (λ e. IsRelated-Stays e.0 e.1 h g i) a.1,
  )

  pub IsPossible-Stays : (b : Backup) → Stays (IsPossible b)
  IsPossible-Stays b h g i p = record {
    listed = Listed-Stays backups b h g i p.listed;
    annotated = p.annotated;
    labelled = p.labelled;
    completed = p.completed;
    watched = IsWatched-Stays b.spec.storage_location h g i p.watched;
  }

  pub IsUnsynced-Stays : (b : Backup) → Stays (IsUnsynced b)
  IsUnsynced-Stays b h g i u = record {
    possible = IsPossible-Stays b h g i u.possible;
    there = i _ u.there;
    missing = i _ u.missing;
  }
