-- ===== src/Function/Metadata.antt =====
-- internal/common/function/function.go: the labels and annotations by which the controllers mark
-- and recognise their objects.
use oadp_non_admin.Base.{
  String, len, Bool, true, false, none, some, [], ◌∷◌, ◌&&◌, not, ltb, lookup, ◌==◌, if◌then◌else◌,
}
use oadp_non_admin.Constant.{
  oadp_label, oadp_label_value, managed_by_label, managed_by_label_value, nab_origin_nacuuid_label,
  nar_origin_nacuuid_label, nabsl_origin_nacuuid_label, nab_origin_name_annotation,
  nab_origin_namespace_annotation, nar_origin_name_annotation, nar_origin_namespace_annotation,
  nabsl_origin_name_annotation, nabsl_origin_namespace_annotation,
}
use oadp_non_admin.Kube.Objects.{ObjectMeta, StringMap}
use oadp_non_admin.Kube.Vendor.{Vendor}

-- `m[key]` for a map of strings: the empty string where the key is missing.
abbrev pub value_at : StringMap → String → String
value_at m key = elim (lookup key m) [ none ↦ "" | some x ↦ x ]

unfoldable pub check_label_value : StringMap → String → String → Bool
check_label_value obj_labels key value = elim (lookup key obj_labels) [
  | none ↦ false
  | some got ↦ got == value
]

module _ ⦃v : Vendor⦄ where
  unfoldable pub get_non_admin_labels : StringMap
  get_non_admin_labels =
      (oadp_label, oadp_label_value) ∷ (managed_by_label, managed_by_label_value) ∷ []

  unfoldable pub get_non_admin_restore_labels : String → StringMap
  unfolding get_non_admin_labels
  get_non_admin_restore_labels unique_identifier =
      (nar_origin_nacuuid_label, unique_identifier) ∷ get_non_admin_labels

  unfoldable pub get_non_admin_backup_annotations : ObjectMeta → StringMap
  get_non_admin_backup_annotations m =
      (nab_origin_namespace_annotation, m.namespace) ∷ (nab_origin_name_annotation, m.name) ∷ []

  unfoldable pub get_non_admin_restore_annotations : ObjectMeta → StringMap
  get_non_admin_restore_annotations m =
      (nar_origin_namespace_annotation, m.namespace) ∷ (nar_origin_name_annotation, m.name) ∷ []

  unfoldable pub get_non_admin_backup_storage_location_annotations : ObjectMeta → StringMap
  get_non_admin_backup_storage_location_annotations m =
      (nabsl_origin_namespace_annotation, m.namespace) ∷ (nabsl_origin_name_annotation, m.name) ∷ []

  unfoldable pub check_label_annotation_value_is_valid : StringMap → String → Bool
  check_label_annotation_value_is_valid m key = elim (lookup key m) [
    | none ↦ false
    | some value ↦ ltb 0 (len value) && ltb (len value) v.dns1123_subdomain_max_length
  ]

  unfoldable pub check_velero_backup_annotations : ObjectMeta → Bool
  unfolding check_label_annotation_value_is_valid
  check_velero_backup_annotations obj =
      if not (check_label_annotation_value_is_valid obj.annotations nab_origin_namespace_annotation)
      then false
      else if not (check_label_annotation_value_is_valid obj.annotations nab_origin_name_annotation)
      then false
      else true

  unfoldable pub check_velero_backup_metadata : ObjectMeta → Bool
  unfolding check_label_value check_velero_backup_annotations
  check_velero_backup_metadata obj =
      if not (check_label_value obj.labels oadp_label oadp_label_value)
      then false
      else if not (check_label_value obj.labels managed_by_label managed_by_label_value)
      then false
      else if not (check_label_annotation_value_is_valid obj.labels nab_origin_nacuuid_label)
      then false
      else check_velero_backup_annotations obj

  unfoldable pub check_velero_restore_annotations : ObjectMeta → Bool
  unfolding check_label_annotation_value_is_valid
  check_velero_restore_annotations obj =
      if not (check_label_annotation_value_is_valid obj.annotations nar_origin_namespace_annotation)
      then false
      else if not (check_label_annotation_value_is_valid obj.annotations nar_origin_name_annotation)
      then false
      else true

  -- The UUID label of a restore has to be there and not empty, with no bound on its length.
  unfoldable pub check_velero_restore_metadata : ObjectMeta → Bool
  unfolding check_label_value check_velero_restore_annotations
  check_velero_restore_metadata obj =
      if not (check_label_value obj.labels oadp_label oadp_label_value)
      then false
      else if not (check_label_value obj.labels managed_by_label managed_by_label_value)
      then false
      else elim (lookup nar_origin_nacuuid_label obj.labels) [
        | none ↦ false
        | some value ↦
            if not (ltb 0 (len value)) then false else check_velero_restore_annotations obj
      ]

  unfoldable pub check_velero_backup_storage_location_annotations : ObjectMeta → Bool
  unfolding check_label_annotation_value_is_valid
  check_velero_backup_storage_location_annotations obj =
      if not
        (check_label_annotation_value_is_valid obj.annotations nabsl_origin_namespace_annotation)
      then false
      else if not
          (check_label_annotation_value_is_valid obj.annotations nabsl_origin_name_annotation)
      then false
      else true

  unfoldable pub check_velero_backup_storage_location_metadata : ObjectMeta → Bool
  unfolding check_label_value check_velero_backup_storage_location_annotations
  check_velero_backup_storage_location_metadata obj =
      if not (check_label_value obj.labels oadp_label oadp_label_value)
      then false
      else if not (check_label_value obj.labels managed_by_label managed_by_label_value)
      then false
      else if not (check_label_annotation_value_is_valid obj.labels nabsl_origin_nacuuid_label)
      then false
      else check_velero_backup_storage_location_annotations obj
