-- ===== src/Download/Rules.antt =====
-- The rules for the calls of the NonAdminDownloadRequest controller.
use oadp_non_admin.Base.{String, ◌+s◌, ◌≡◌, ◌⊎◌, Bool, true, false, Option, some, ◌==◌}
use oadp_non_admin.Constant.{
  nadr_origin_nacuuid_label, nadr_origin_name_annotation, nadr_origin_namespace_annotation,
  empty_string,
}
use oadp_non_admin.Function.Metadata.{value_at}
use oadp_non_admin.Kube.Objects.{
  Time, NamespacedName, ObjectMeta, RestoreSpec, DownloadRequest, DownloadRequestStatus,
}
use oadp_non_admin.Kube.Status.{NonAdminBackup, NonAdminRestore, NonAdminDownloadRequest}
use oadp_non_admin.Kube.Api.{Call, Payload, Reply, ok, event, History}
use oadp_non_admin.Kube.Rules.{Rules}
use oadp_non_admin.Kube.Facts.{Saw}
use oadp_non_admin.Kube.Vendor.{Vendor}
use oadp_non_admin.Download.Steps.{
  DownloadReconciler, TargetOf, target_of, uses_nabsl, velero_backup_name, velero_restore_name,
}

-- What the server's documentation says of a patch of the status: it does not rename the object.
abbrev pub LawfulDownload : (c : Call) → Reply (Payload c) → Type 0
LawfulDownload (Call.patch_nadr_status before sent) (ok stored) =
    (stored.meta.name ≡ sent.meta.name) × (stored.meta.namespace ≡ sent.meta.namespace)
LawfulDownload _ _ = Unit

-- The call has answered with that.
abbrev pub Read : (c : Call) → Payload c → History → Type 0
Read c x h = Saw (λ e. e ≡ event c (ok x)) h

module _ ⦃v : Vendor⦄ (r : DownloadReconciler) (req : NonAdminDownloadRequest) where
  -- The clock has shown a time at which that time has passed, or has not.
  abbrev pub Passed : Bool → Option Time → History → Type 0
  Passed b expiration h =
      (now : Time) × Read Call.now now h × (v.time_before expiration (some now) ≡ b)

  -- Which object the target of a Velero request is, for a NonAdminBackup that was read by a key.
  abbrev pub NamesTarget : TargetOf → NamespacedName → NonAdminBackup → String → History → Type 0
  NamesTarget TargetOf.backup key nab target h =
      (key.name ≡ req.target) × (target ≡ velero_backup_name nab.status.velero_backup)
  NamesTarget TargetOf.neither key nab target h =
      (key.name ≡ empty_string) × (target ≡ velero_backup_name nab.status.velero_backup)
  NamesTarget TargetOf.restore key nab target h =
      (nar : NonAdminRestore) × Read
        (Call.get_nar (record { name = req.target; namespace = req.meta.namespace })) nar h
      × (spec : RestoreSpec) × (nar.restore_spec ≡ some spec)
      × (key.name ≡ spec.backup_name)
      × (((velero_restore_name nar.status.velero_restore == empty_string) ≡ false)
            × (target ≡ velero_restore_name nar.status.velero_restore)
          ⊎ ((velero_restore_name nar.status.velero_restore == empty_string) ≡ true)
            × (target ≡ velero_backup_name nab.status.velero_backup))

  -- The target stands behind a NonAdminBackup of the namespace of the request that was read and that
  -- uses a NonAdminBackupStorageLocation.
  abbrev pub IsBacked : String → History → Type 0
  IsBacked target h =
      (key : NamespacedName) × (nab : NonAdminBackup) × Read (Call.get_nab key) nab h
      × (key.namespace ≡ req.meta.namespace)
      × (uses_nabsl nab.spec.backup_spec ≡ true)
      × NamesTarget (target_of req.kind) key nab target h

  pub record IsDownloadOf (dr : DownloadRequest) (h : History) : Type 0 where
    pub in_oadp : dr.meta.namespace ≡ r.oadp_namespace
    pub named : dr.meta.name ≡ "nadr-" +s req.meta.uid
    pub labelled : value_at dr.meta.labels nadr_origin_nacuuid_label ≡ req.meta.uid
    pub origin_namespace :
        value_at dr.meta.annotations nadr_origin_namespace_annotation ≡ req.meta.namespace
    pub origin_name : value_at dr.meta.annotations nadr_origin_name_annotation ≡ req.meta.name
    pub same_kind : dr.kind ≡ req.kind
    pub backed : IsBacked dr.target h

  -- The object has the name and the namespace of the request.
  abbrev pub IsOfRequest : ObjectMeta → Type 0
  IsOfRequest m = (m.name ≡ req.meta.name) × (m.namespace ≡ req.meta.namespace)

  -- The status is that of the Velero request of this name, which is processed, has a URL, and was
  -- not expired by the clock.
  pub record IsHandedOn (status : Option DownloadRequestStatus) (h : History) : Type 0 where
    pub found : DownloadRequest
    pub read :
        Read
          (Call.get_download_request
            (record { name = "nadr-" +s req.meta.uid; namespace = r.oadp_namespace }))
          found
          h
    pub same_status : status ≡ some found.status
    pub processed : found.status.processed ≡ true
    pub has_url : (found.status.download_url == empty_string) ≡ false
    pub not_expired : Passed false found.status.expiration h

  abbrev pub AllowsDownload : History → Call → Type 0
  AllowsDownload h Call.now = Unit
  AllowsDownload h (Call.get_nab _) = Unit
  AllowsDownload h (Call.get_nar _) = Unit
  AllowsDownload h (Call.get_download_request _) = Unit
  AllowsDownload h (Call.create_download_request dr) = IsDownloadOf dr h
  AllowsDownload h (Call.delete_nadr x) =
      (x ≡ req)
      × (status : DownloadRequestStatus) × (req.status.velero_status ≡ some status)
      × Passed true status.expiration h
  AllowsDownload h (Call.patch_nadr_status before sent) =
      IsOfRequest sent.meta
      × ((sent.status.velero_status ≡ before.status.velero_status)
          ⊎ IsHandedOn sent.status.velero_status h)
  AllowsDownload h _ = ⊥

  abbrev pub download_rules : Rules
  download_rules = record {
    allows = AllowsDownload;
    lawful = LawfulDownload;
    errs = λ _ _. Unit;
    panics = Unit;
  }
