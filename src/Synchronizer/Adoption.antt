-- ===== src/Synchronizer/Adoption.antt =====
-- How the NonAdminBackup controller takes over a NonAdminBackup that the synchronizer has made.
use oadp_non_admin.Base.{
  String, ◌≡◌, refl, ap, ◌∙◌, if◌then◌else◌, true, false, Bool, none, some, [], ◌∷◌, lookup, not,
  eq_refl, ltb, len, ◌&&◌, Option,
}
use oadp_non_admin.Constant.{nab_origin_nacuuid_label, nab_sync_label}
use oadp_non_admin.Function.Entries.{lookup_here}
use oadp_non_admin.Function.Metadata.{value_at, check_label_annotation_value_is_valid}
use oadp_non_admin.Kube.Objects.{StringMap, Backup}
use oadp_non_admin.Function.Names.{generate_nac_object_uuid}
use oadp_non_admin.Kube.Status.{Error}
use oadp_non_admin.Kube.Api.{Prog, ret, fail}
use oadp_non_admin.Kube.Vendor.{Vendor}
use oadp_non_admin.Backup.Deletion.{Reconciler}
use oadp_non_admin.Backup.Creation.{
  set_backup_uuid_in_status, set_finalizer_on_non_admin_backup, create_velero_backup_and_sync,
  choose_backup_uuid, ensure_velero_backup,
}
use oadp_non_admin.Backup.Reconcile.{reconcile_steps}
use oadp_non_admin.Synchronizer.Steps.{synced_backup, nab_key}

module _ ⦃v : Vendor⦄ (r : Reconciler) (related : StringMap) (b : Backup) where
  abbrev uuid : String
  uuid = value_at b.meta.labels nab_origin_nacuuid_label

  -- Whether a value may be that of a label.
  abbrev fits : Option String → Bool
  fits o = elim o [
    | none ↦ false
    | some value ↦ ltb 0 (len value) && ltb (len value) v.dns1123_subdomain_max_length
  ]

  fits_found :
      (o : Option String) → fits o ≡ true → fits (some (elim o [ none ↦ "" | some x ↦ x ])) ≡ true
  fits_found none e = absurd (cc e)
  fits_found (some x) e = e

  sync_label_found : lookup nab_sync_label ((nab_sync_label, uuid) ∷ []) ≡ some uuid
  sync_label_found = lookup_here nab_sync_label uuid []

  sync_label_valid :
      check_label_annotation_value_is_valid b.meta.labels nab_origin_nacuuid_label ≡ true
      → check_label_annotation_value_is_valid ((nab_sync_label, uuid) ∷ []) nab_sync_label ≡ true
  unfolding check_label_annotation_value_is_valid
  sync_label_valid e =
      ap fits sync_label_found ∙ fits_found (lookup nab_origin_nacuuid_label b.meta.labels) e

  abbrev chosen : Option String → Prog String
  chosen o = elim o [
    | some value ↦ ret value
    | none ↦ generate_nac_object_uuid (nab_key b.meta).namespace (nab_key b.meta).name
  ]

  then_first : {A : Type 0} (t : Bool) (x y : A) → t ≡ true → (if t then x else y) ≡ x
  then_first t x y e = rw e refl

  -- Where the UUID label of the Velero backup is valid, the NonAdminBackup that the synchronizer
  -- makes for it goes through the sync steps of `Reconcile`, takes over the UUID label of the Velero
  -- backup without asking for a new one, and is given that Velero backup where the lookup finds it.
  pub synced_backup_adopted :
      check_label_annotation_value_is_valid b.meta.labels nab_origin_nacuuid_label ≡ true
      → (reconcile_steps r (synced_backup related b)
          ≡ set_backup_uuid_in_status r
            ∷ set_finalizer_on_non_admin_backup
            ∷ create_velero_backup_and_sync r
            ∷ [])
        × (choose_backup_uuid r (synced_backup related b) ≡ ret uuid)
        × (ensure_velero_backup r (synced_backup related b) uuid (some b) ≡ ret b)
  unfolding synced_backup reconcile_steps choose_backup_uuid ensure_velero_backup
  synced_backup_adopted e = (
    then_first (check_label_annotation_value_is_valid ((nab_sync_label, uuid) ∷ []) nab_sync_label)
        _ _ (sync_label_valid e),
    ap chosen sync_label_found,
    ap (λ t. if not t then fail (Error.terminal Error.foreign_backup) else ret b)
        (eq_refl (nab_key b.meta).namespace),
  )
