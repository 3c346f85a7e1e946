-- ===== src/Restore/Safety/Defs.antt =====
-- The rules for the calls of the NonAdminRestore controller.
use oadp_non_admin.Base.{String, ◌≡◌, ◌≢◌, ◌⊎◌, true, false, ◌==◌, Option, none, some, [], ◌∷◌}
use oadp_non_admin.Constant.{
  empty_string, nar_finalizer_name, nar_origin_nacuuid_label, nar_origin_namespace_annotation,
  nar_origin_name_annotation,
}
use oadp_non_admin.Function.Metadata.{value_at}
use oadp_non_admin.Kube.Objects.{NamespacedName, ObjectMeta, Restore, RestoreSpec}
use oadp_non_admin.Kube.Status.{NonAdminRestore, VeleroBackup}
use oadp_non_admin.Kube.Api.{Call, Payload, Reply, ok, event, History}
use oadp_non_admin.Kube.Rules.{Rules}
use oadp_non_admin.Kube.Vendor.{Vendor}
use oadp_non_admin.Restore.Steps.{RestoreReconciler}

-- The NonAdminRestore as the server last handed it over.
abbrev pub latest_restore : History → Option NonAdminRestore
latest_restore [] = none
latest_restore (event (Call.get_nar _) (ok nar) ∷ h) = some nar
latest_restore (event (Call.update_nar _) (ok nar) ∷ h) = some nar
latest_restore (event (Call.update_nar_status _) (ok nar) ∷ h) = some nar
latest_restore (event _ _ ∷ h) = latest_restore h

-- What the server's documentation says of its answers: a read returns the object of that name, a
-- write does not rename the object, and an update stores the finalizers that it is given.
abbrev pub LawfulRestore : (c : Call) → Reply (Payload c) → Type 0
LawfulRestore (Call.get_nar key) (ok nar) =
    (nar.meta.name ≡ key.name) × (nar.meta.namespace ≡ key.namespace)
LawfulRestore (Call.update_nar sent) (ok nar) =
    (nar.meta.name ≡ sent.meta.name)
    × (nar.meta.namespace ≡ sent.meta.namespace)
    × (nar.meta.finalizers ≡ sent.meta.finalizers)
LawfulRestore (Call.update_nar_status sent) (ok nar) =
    (nar.meta.name ≡ sent.meta.name) × (nar.meta.namespace ≡ sent.meta.namespace)
LawfulRestore _ _ = Unit

module _ ⦃v : Vendor⦄ (r : RestoreReconciler) (key : NamespacedName) where
  -- The object is the one of the request.
  abbrev pub IsRequested : ObjectMeta → Type 0
  IsRequested m = (m.name ≡ key.name) × (m.namespace ≡ key.namespace)

  -- The Velero restore is made in the OADP namespace, includes the namespace of the request and no
  -- other, and its annotations name the NonAdminRestore of the request.
  pub record IsIsolatedRestore (x : Restore) : Type 0 where
    pub in_oadp : x.meta.namespace ≡ r.oadp_namespace
    pub covers : x.spec.included_namespaces ≡ some (key.namespace ∷ [])
    pub origin_namespace :
        value_at x.meta.annotations nar_origin_namespace_annotation ≡ key.namespace
    pub origin_name : value_at x.meta.annotations nar_origin_name_annotation ≡ key.name
    pub labelled : value_at x.meta.labels nar_origin_nacuuid_label ≡ x.meta.name

  abbrev pub HoldsFinalizer : Option NonAdminRestore → Type 0
  HoldsFinalizer none = ⊥
  HoldsFinalizer (some nar) = v.contains_finalizer nar.meta.finalizers nar_finalizer_name ≡ true

  -- The namespace mapping of the Velero restore is the enforced one where the NonAdminRestore has
  -- none, and that of the NonAdminRestore otherwise.
  abbrev pub MapsAs : Option NonAdminRestore → Restore → Type 0
  MapsAs none x = ⊥
  MapsAs (some nar) x =
      (user : RestoreSpec) × (nar.restore_spec ≡ some user)
      × (user.namespace_mapping ≡ 0
          → x.spec.namespace_mapping ≡ r.enforced_restore_spec.namespace_mapping)
      × (user.namespace_mapping ≢ 0 → x.spec.namespace_mapping ≡ user.namespace_mapping)

  -- The last call listed the Velero restores of the OADP namespace by some UUID, and found none.
  abbrev pub FoundNoRestore : History → Type 0
  FoundNoRestore (event (Call.list_restores namespace ((label, uuid) ∷ [])) (ok []) ∷ h) =
      (namespace ≡ r.oadp_namespace) × (label ≡ nar_origin_nacuuid_label)
  FoundNoRestore _ = ⊥

  -- The same, and found this one alone.
  abbrev pub FoundOnly : Restore → History → Type 0
  FoundOnly x (event (Call.list_restores namespace ((label, uuid) ∷ [])) (ok (y ∷ [])) ∷ h) =
      (namespace ≡ r.oadp_namespace) × (label ≡ nar_origin_nacuuid_label) × (y ≡ x)
  FoundOnly x _ = ⊥

  -- The last call read a NonAdminBackup of the namespace of the request, whose status refers to the
  -- Velero backup of that name; a reference without a name says nothing.
  abbrev pub FoundBackup : String → History → Type 0
  FoundBackup name (event (Call.get_nab k) (ok nab) ∷ h) =
      (k.namespace ≡ key.namespace)
      × (reference : VeleroBackup) × (nab.status.velero_backup ≡ some reference)
      × ((reference.name == empty_string) ≡ false → name ≡ reference.name)
  FoundBackup name _ = ⊥

  -- The reads, and what the writes need; no other call is allowed.
  abbrev pub AllowsRestore : History → Call → Type 0
  AllowsRestore h Call.new_uuid = Unit
  AllowsRestore h (Call.get_nab _) = Unit
  AllowsRestore h (Call.get_nar _) = Unit
  AllowsRestore h (Call.list_restores _ _) = Unit
  AllowsRestore h (Call.list_pod_volume_restores _ _) = Unit
  AllowsRestore h (Call.list_data_downloads _ _) = Unit
  AllowsRestore h (Call.create_restore x) =
      IsIsolatedRestore x
      × MapsAs (latest_restore h) x
      × HoldsFinalizer (latest_restore h)
      × FoundBackup x.spec.backup_name h
  AllowsRestore h (Call.delete_restore x) = FoundOnly x h
  AllowsRestore h (Call.update_nar nar) =
      IsRequested nar.meta
      × ((v.contains_finalizer nar.meta.finalizers nar_finalizer_name ≡ true) ⊎ FoundNoRestore h)
  AllowsRestore h (Call.update_nar_status nar) = IsRequested nar.meta
  AllowsRestore h _ = ⊥

  abbrev pub restore_safety : Rules
  restore_safety = record {
    allows = AllowsRestore;
    lawful = LawfulRestore;
    errs = λ _ _. Unit;
    panics = Unit;
  }

  -- Between two steps the object in hand is that of the request, as the server last gave it.
  pub record IsCurrentRestore (h : History) (nar : NonAdminRestore) : Type 0 where
    pub last : latest_restore h ≡ some nar
    pub requested : IsRequested nar.meta
