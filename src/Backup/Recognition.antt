-- ===== src/Backup/Recognition.antt =====
-- The predicates and handlers recognise the Velero backups that the controller makes.
use oadp_non_admin.Base.{String, ◌≡◌, ◌≢◌, refl, ◌∙◌, some, [], ◌∷◌, lookup, true}
use oadp_non_admin.Constant.{
  oadp_label, managed_by_label, nab_origin_nacuuid_label, nab_origin_name_annotation,
  nab_origin_namespace_annotation,
}
use oadp_non_admin.Kube.Objects.{BackupSpec, ObjectMeta, StringMap}
use oadp_non_admin.Kube.Status.{NonAdminBackup}
use oadp_non_admin.Kube.Vendor.{Vendor}
use oadp_non_admin.Function.Metadata.{
  check_label_value, check_label_annotation_value_is_valid, check_velero_backup_annotations,
  check_velero_backup_metadata, get_non_admin_labels, get_non_admin_backup_annotations,
}
use oadp_non_admin.Function.Entries.{
  append_differs, append_longer, lookup_behind, lookup_here, label_checked, value_checked,
  IsValidLength,
}
use oadp_non_admin.Backup.Deletion.{Reconciler}
use oadp_non_admin.Backup.Creation.{new_velero_backup}

module _ ⦃v : Vendor⦄ where
  abbrev managed : StringMap
  managed = (managed_by_label, "oadp-nac-controller") ∷ []

  -- The labels of an object whose UUID is under the key.
  abbrev pub labels : String → String → StringMap
  labels key uuid = (key, uuid) ∷ (oadp_label, "True") ∷ managed

  pub oadp_found :
      (key uuid : String)
      → key ≢ oadp_label
      → check_label_value (labels key uuid) oadp_label "True" ≡ true
  oadp_found key uuid f = label_checked (labels key uuid) oadp_label "True" (
      lookup_behind key oadp_label uuid ((oadp_label, "True") ∷ managed) f
      ∙ lookup_here oadp_label "True" managed)

  pub managed_found :
      (key uuid : String)
      → oadp_label ≢ managed_by_label
      → key ≢ managed_by_label
      → check_label_value (labels key uuid) managed_by_label "oadp-nac-controller" ≡ true
  managed_found key uuid f g =
      label_checked (labels key uuid) managed_by_label "oadp-nac-controller" (
        lookup_behind key managed_by_label uuid ((oadp_label, "True") ∷ managed) g
        ∙ lookup_behind oadp_label managed_by_label "True" managed f
        ∙ lookup_here managed_by_label "oadp-nac-controller" [])

  name_found :
      (owner : ObjectMeta)
      → lookup nab_origin_name_annotation (get_non_admin_backup_annotations owner) ≡ some owner.name
  unfolding get_non_admin_backup_annotations
  name_found owner =
      lookup_behind nab_origin_namespace_annotation nab_origin_name_annotation owner.namespace
        ((nab_origin_name_annotation, owner.name) ∷ [])
        (append_differs oadp_label "-nab-origin-namespace" "-nab-origin-name" (λ e. cc))
      ∙ lookup_here nab_origin_name_annotation owner.name []

  checked :
      (m : ObjectMeta)
      → check_label_value m.labels oadp_label "True" ≡ true
      → check_label_value m.labels managed_by_label "oadp-nac-controller" ≡ true
      → check_label_annotation_value_is_valid m.labels nab_origin_nacuuid_label ≡ true
      → check_label_annotation_value_is_valid m.annotations nab_origin_namespace_annotation ≡ true
      → check_label_annotation_value_is_valid m.annotations nab_origin_name_annotation ≡ true
      → check_velero_backup_metadata m ≡ true
  unfolding check_velero_backup_metadata check_velero_backup_annotations
  checked m a b c d e =
      rw (check_velero_backup_metadata, check_velero_backup_annotations, a, b, c, d, e) refl

  -- Where the operator's label and the label of the UUID differ from the managed-by label, and the
  -- UUID, name and namespace are of a length that the checks accept, the labels and annotations of
  -- the Velero backup that the controller makes pass the check by which the predicates and handlers
  -- recognise it.
  pub new_velero_backup_recognised :
      (r : Reconciler) (nab : NonAdminBackup) (uuid : String) (spec : BackupSpec)
      → oadp_label ≢ managed_by_label
      → nab_origin_nacuuid_label ≢ managed_by_label
      → IsValidLength uuid
      → IsValidLength nab.meta.name
      → IsValidLength nab.meta.namespace
      → check_velero_backup_metadata (new_velero_backup r nab uuid spec).meta ≡ true
  unfolding get_non_admin_labels get_non_admin_backup_annotations
  new_velero_backup_recognised r nab uuid spec f g hu hn hs =
      let annotations = get_non_admin_backup_annotations nab.meta in
      checked (new_velero_backup r nab uuid spec).meta
        (oadp_found nab_origin_nacuuid_label uuid
          (append_longer oadp_label "-nab-origin-nacuuid" (λ e. cc)))
        (managed_found nab_origin_nacuuid_label uuid f g)
        (value_checked (labels nab_origin_nacuuid_label uuid) nab_origin_nacuuid_label uuid
          (lookup_here nab_origin_nacuuid_label uuid ((oadp_label, "True") ∷ managed)) hu)
        (value_checked annotations nab_origin_namespace_annotation nab.meta.namespace
          (lookup_here nab_origin_namespace_annotation nab.meta.namespace
            ((nab_origin_name_annotation, nab.meta.name) ∷ []))
          hs)
        (value_checked annotations nab_origin_name_annotation nab.meta.name (name_found nab.meta)
          hn)
