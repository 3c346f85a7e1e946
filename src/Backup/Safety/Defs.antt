-- ===== src/Backup/Safety/Defs.antt =====
-- The rules for the calls of the NonAdminBackup controller.
use oadp_non_admin.Base.{String, ◌≡◌, ◌⊎◌, true, Option, none, some, [], ◌∷◌}
use oadp_non_admin.Constant.{
  nab_finalizer_name, nab_origin_nacuuid_label, nab_origin_namespace_annotation,
  nab_origin_name_annotation,
}
use oadp_non_admin.Function.Metadata.{value_at}
use oadp_non_admin.Kube.Objects.{RestoreSpec, NamespacedName, Backup}
use oadp_non_admin.Kube.Status.{NonAdminBackup, NonAdminRestore}
use oadp_non_admin.Kube.Api.{Call, Payload, Reply, ok, event, History}
use oadp_non_admin.Kube.Rules.{Rules}
use oadp_non_admin.Kube.Facts.{Listing, Listed}
use oadp_non_admin.Kube.Vendor.{Vendor}
use oadp_non_admin.Backup.Deletion.{Reconciler}

-- The NonAdminBackup as the server last handed it over.
abbrev pub latest : History → Option NonAdminBackup
latest [] = none
latest (event (Call.get_nab _) (ok nab) ∷ h) = some nab
latest (event (Call.update_nab _) (ok nab) ∷ h) = some nab
latest (event (Call.update_nab_status _) (ok nab) ∷ h) = some nab
latest (event _ _ ∷ h) = latest h

-- What the server's documentation says of its answers: a read returns the object of that name, a
-- write does not rename the object, and an update stores the finalizers that it is given.
abbrev pub Lawful : (c : Call) → Reply (Payload c) → Type 0
Lawful (Call.get_nab key) (ok nab) =
    (nab.meta.name ≡ key.name) × (nab.meta.namespace ≡ key.namespace)
Lawful (Call.update_nab sent) (ok nab) =
    (nab.meta.name ≡ sent.meta.name)
    × (nab.meta.namespace ≡ sent.meta.namespace)
    × (nab.meta.finalizers ≡ sent.meta.finalizers)
Lawful (Call.update_nab_status sent) (ok nab) =
    (nab.meta.name ≡ sent.meta.name) × (nab.meta.namespace ≡ sent.meta.namespace)
Lawful _ _ = Unit

abbrev pub Refers : Option RestoreSpec → String → Type 0
Refers none name = ⊥
Refers (some spec) name = spec.backup_name ≡ name

-- The NonAdminRestores of a namespace.
abbrev pub restores_in : String → Listing NonAdminRestore
restores_in namespace = record { list = Call.list_nar namespace; give = λ xs. xs }

module _ ⦃v : Vendor⦄ (r : Reconciler) (key : NamespacedName) where
  -- The Velero backup is made in the OADP namespace, covers the namespace of the request and no
  -- other, and its annotations name the NonAdminBackup of the request.
  pub record IsIsolated (b : Backup) : Type 0 where
    pub in_oadp : b.meta.namespace ≡ r.oadp_namespace
    pub covers : b.spec.included_namespaces ≡ some (key.namespace ∷ [])
    pub origin_namespace :
        value_at b.meta.annotations nab_origin_namespace_annotation ≡ key.namespace
    pub origin_name : value_at b.meta.annotations nab_origin_name_annotation ≡ key.name
    pub labelled : value_at b.meta.labels nab_origin_nacuuid_label ≡ b.meta.name

  abbrev pub HasFinalizer : Option NonAdminBackup → Type 0
  HasFinalizer none = ⊥
  HasFinalizer (some nab) = v.contains_finalizer nab.meta.finalizers nab_finalizer_name ≡ true

  -- The last call listed the Velero backups of the OADP namespace by some UUID, and found none.
  abbrev pub FoundNone : History → Type 0
  FoundNone (event (Call.list_backups namespace ((label, uuid) ∷ [])) (ok []) ∷ h) =
      (namespace ≡ r.oadp_namespace) × (label ≡ nab_origin_nacuuid_label)
  FoundNone _ = ⊥

  abbrev pub Allows : History → Call → Type 0
  Allows h (Call.create_backup b) = IsIsolated b × HasFinalizer (latest h)
  Allows h (Call.update_nab nab) =
      (v.contains_finalizer nab.meta.finalizers nab_finalizer_name ≡ true) ⊎ FoundNone h
  Allows h (Call.delete_nar nar) =
      Refers nar.restore_spec key.name × Listed (restores_in key.namespace) nar h
  Allows h _ = Unit

  abbrev pub safety : Rules
  safety = record { allows = Allows; lawful = Lawful; errs = λ _ _. Unit; panics = Unit }

  -- Between two steps the object in hand is that of the request, as the server last gave it.
  pub record IsCurrent (h : History) (nab : NonAdminBackup) : Type 0 where
    pub last : latest h ≡ some nab
    pub same_name : nab.meta.name ≡ key.name
    pub same_namespace : nab.meta.namespace ≡ key.namespace
