-- ===== src/Function/Fields.antt =====
-- The loops of internal/common/function/function.go and
-- internal/controller/nonadminbackup_controller.go that go over the fields of a spec by reflection.
use oadp_non_admin.Base.{
  ℕ, suc, String, Bool, true, false, Option, none, some, List, [], ◌∷◌, ◌&&◌, not, nat_eq, ◌==◌,
  holds, if◌then◌else◌,
}
use oadp_non_admin.Constant.{empty_string}
use oadp_non_admin.Kube.Objects.{RestoreSpec, FieldValue, FieldValue-discrete, BackupSpec}
use oadp_non_admin.Kube.Status.{Error}
use oadp_non_admin.Kube.Api.{Prog, ret, fail}

abbrev pub Done : Type 0
Done = Unit {0}

-- `reflect.Value.IsZero`: a nil slice or pointer, the empty string, the zero of another type.
unfoldable pub is_zero : FieldValue → Bool
is_zero (FieldValue.strs none) = true
is_zero (FieldValue.strs (some _)) = false
is_zero (FieldValue.flag none) = true
is_zero (FieldValue.flag (some _)) = false
is_zero (FieldValue.text s) = s == empty_string
is_zero (FieldValue.other n) = nat_eq n 0

-- `reflect.DeepEqual` on fields of one type.
unfoldable pub deep_equal : FieldValue → FieldValue → Bool
deep_equal a b = holds (FieldValue-discrete a b)

-- A field that the administrator enforces and the user sets to something else.
unfoldable pub conflicts : FieldValue → FieldValue → Bool
unfolding is_zero deep_equal
conflicts enforced current =
    not (is_zero enforced) && (not (is_zero current) && not (deep_equal enforced current))

-- The loop over the fields of the enforced spec: an error at the first conflict, by its index.
unfoldable pub check_enforced : ℕ → List FieldValue → List FieldValue → Prog Done
unfolding conflicts
check_enforced i (e ∷ es) (c ∷ cs) =
    let rest = check_enforced (suc i) es cs in
    if conflicts e c then fail (Error.admin_restricted i) else rest
check_enforced i [] cs = ret tt
check_enforced i (e ∷ es) [] = ret tt

abbrev pub others_fields : List ℕ → List FieldValue
others_fields [] = []
others_fields (n ∷ ns) = FieldValue.other n ∷ others_fields ns

-- The fields of a `velerov1.BackupSpec`, those without a name of their own last: an index is that of
-- this list.
abbrev pub backup_fields : BackupSpec → List FieldValue
backup_fields s =
    FieldValue.strs s.included_namespaces
    ∷ FieldValue.strs s.excluded_namespaces
    ∷ FieldValue.strs s.excluded_resources
    ∷ FieldValue.strs s.included_cluster_scoped_resources
    ∷ FieldValue.strs s.excluded_cluster_scoped_resources
    ∷ FieldValue.strs s.included_namespace_scoped_resources
    ∷ FieldValue.strs s.excluded_namespace_scoped_resources
    ∷ FieldValue.flag s.include_cluster_resources
    ∷ FieldValue.text s.storage_location
    ∷ FieldValue.strs s.volume_snapshot_locations
    ∷ others_fields s.others

-- The fields of a `velerov1.RestoreSpec`, in the same order.
abbrev pub restore_fields : RestoreSpec → List FieldValue
restore_fields s =
    FieldValue.text s.backup_name
    ∷ FieldValue.text s.schedule_name
    ∷ FieldValue.strs s.included_namespaces
    ∷ FieldValue.strs s.excluded_namespaces
    ∷ FieldValue.strs s.included_resources
    ∷ FieldValue.strs s.excluded_resources
    ∷ FieldValue.other s.namespace_mapping
    ∷ others_fields s.others

-- `if !enforcedField.IsZero() && currentField.IsZero() { currentField.Set(enforcedField) }`
abbrev pub fill_option : {A : Type 0} → Option A → Option A → Option A
fill_option e none = e
fill_option e (some x) = some x

abbrev pub fill_text : String → String → String
fill_text e c = if c == empty_string then e else c

abbrev pub fill_other : ℕ → ℕ → ℕ
fill_other e c = if nat_eq c 0 then e else c

-- A field that a list does not have is zero.
abbrev pub fill_others : List ℕ → List ℕ → List ℕ
fill_others [] cs = cs
fill_others (e ∷ es) [] = e ∷ es
fill_others (e ∷ es) (c ∷ cs) = fill_other e c ∷ fill_others es cs

-- The user's spec with the enforced value in every field that the user left at zero.
unfoldable pub enforce : BackupSpec → BackupSpec → BackupSpec
enforce e c = record {
  included_namespaces = fill_option e.included_namespaces c.included_namespaces;
  excluded_namespaces = fill_option e.excluded_namespaces c.excluded_namespaces;
  excluded_resources = fill_option e.excluded_resources c.excluded_resources;
  included_cluster_scoped_resources =
      fill_option e.included_cluster_scoped_resources c.included_cluster_scoped_resources;
  excluded_cluster_scoped_resources =
      fill_option e.excluded_cluster_scoped_resources c.excluded_cluster_scoped_resources;
  included_namespace_scoped_resources =
      fill_option e.included_namespace_scoped_resources c.included_namespace_scoped_resources;
  excluded_namespace_scoped_resources =
      fill_option e.excluded_namespace_scoped_resources c.excluded_namespace_scoped_resources;
  include_cluster_resources = fill_option e.include_cluster_resources c.include_cluster_resources;
  storage_location = fill_text e.storage_location c.storage_location;
  volume_snapshot_locations = fill_option e.volume_snapshot_locations c.volume_snapshot_locations;
  others = fill_others e.others c.others;
}
