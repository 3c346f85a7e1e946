-- ===== src/Tests/Cluster.antt =====
-- Concrete third-party functions, and a cluster with one new NonAdminBackup.
use oadp_non_admin.Base.{
  ℕ, Option, ltb, String, ◌≡◌, Bool, true, false, none, some, List, [], ◌∷◌, ◌==◌, ◌&&◌, not, refl,
  keep, contains, if◌then◌else◌, Bool-cases, inl, inr, eq_refl,
}
use oadp_non_admin.Kube.Objects.{
  RestoreSpec, ObjectMeta, BackupSpec, NamespacedName, NonAdminPhase, NonAdminCondition,
}
use oadp_non_admin.Kube.Status.{NonAdminRestore, ApiError, Condition, NonAdminBackup}
use oadp_non_admin.Kube.Api.{Call, ok, err, History, Server}
use oadp_non_admin.Kube.Vendor.{Vendor, VendorLaws}
use oadp_non_admin.Backup.Deletion.{Reconciler}
use oadp_non_admin.Backup.Safety.Defs.{Lawful}

abbrev pub same_type : NonAdminCondition → NonAdminCondition → Bool
same_type NonAdminCondition.accepted NonAdminCondition.accepted = true
same_type NonAdminCondition.queued NonAdminCondition.queued = true
same_type NonAdminCondition.deleting NonAdminCondition.deleting = true
same_type _ _ = false

abbrev pub is_true_in : List Condition → NonAdminCondition → Bool
is_true_in [] t = false
is_true_in (c ∷ cs) t = let rest = is_true_in cs t in if same_type c.type t then c.status else rest

-- The condition goes first, unless one of its type has its status already.
abbrev pub set_in : List Condition → Condition → List Condition × Bool
set_in cs c =
    if is_true_in cs c.type && c.status
    then (cs, false)
    else (c ∷ keep (λ d. not (same_type d.type c.type)) cs, true)

abbrev pub add_to : List String → String → List String
add_to fs f = if contains fs f then fs else f ∷ fs

abbrev pub before_in : Option ℕ → Option ℕ → Bool
before_in (some a) (some b) = ltb a b
before_in _ _ = false

abbrev pub vendor : Vendor
vendor = record {
  oadp_operator_label = "openshift.io/oadp";
  restore_name_label = "velero.io/restore-name";
  backup_name_label = "velero.io/backup-name";
  backup_uid_label = "velero.io/backup-uid";
  storage_location_label = "velero.io/storage-location";
  velero_group_version = "velero.io/v1";
  secret_type_opaque = "Opaque";
  time_before = before_in;
  dns1123_label_max_length = 63;
  dns1123_subdomain_max_length = 253;
  valid_name = λ s. s;
  set_status_condition = set_in;
  is_status_condition_true = is_true_in;
  contains_finalizer = contains;
  add_finalizer = add_to;
  finalizer_added = λ fs f. not (contains fs f);
  remove_finalizer = λ fs f. keep (λ g. not (g == f)) fs;
}

contains-add_to : (fs : List String) (f : String) → contains (add_to fs f) f ≡ true
contains-add_to fs f = elim (Bool-cases (contains fs f)) [
  | inl e ↦ rw e e
  | inr e ↦ rw (e, eq_refl f) refl
]

set_in_unchanged :
    (cs : List Condition) (c : Condition) → (set_in cs c).1 ≡ false → (set_in cs c).0 ≡ cs
set_in_unchanged cs c e = elim (Bool-cases (is_true_in cs c.type && c.status)) [
  | inl p ↦ rw p refl
  | inr p ↦ cc
]

not_added_in : (b : Bool) → not b ≡ false → b ≡ true
not_added_in true e = refl
not_added_in false e = absurd (cc e)

pub vendor_laws : VendorLaws vendor
vendor_laws = record {
  contains-add = contains-add_to;
  set_unchanged = set_in_unchanged;
  not_added = λ fs f e. not_added_in (contains fs f) e;
}

abbrev pub empty_spec : BackupSpec
empty_spec = record {
  included_namespaces = none;
  excluded_namespaces = none;
  excluded_resources = none;
  included_cluster_scoped_resources = none;
  excluded_cluster_scoped_resources = none;
  included_namespace_scoped_resources = none;
  excluded_namespace_scoped_resources = none;
  include_cluster_resources = none;
  storage_location = "";
  volume_snapshot_locations = none;
  others = [];
}

abbrev pub object : String → String → ObjectMeta
object name namespace = record {
  name = name;
  namespace = namespace;
  generate_name = "";
  uid = "";
  labels = [];
  annotations = [];
  finalizers = [];
  creation_timestamp = 7;
  deletion_timestamp = none;
}

abbrev pub restore_spec_of : String → RestoreSpec
restore_spec_of backup = record {
  backup_name = backup;
  schedule_name = "";
  included_namespaces = none;
  excluded_namespaces = none;
  included_resources = none;
  excluded_resources = none;
  namespace_mapping = 0;
  others = [];
}

abbrev pub new_nar : NamespacedName → String → NonAdminRestore
new_nar key backup = record {
  meta = object key.name key.namespace;
  restore_spec = some (restore_spec_of backup);
  status = record {
    velero_restore = none;
    data_mover_data_downloads = none;
    file_system_pod_volume_restores = none;
    queue_info = none;
    phase = NonAdminPhase.unset;
    conditions = [];
  };
}

-- What the status of a NonAdminBackup says once its Velero backup is there.
abbrev pub created_nab : NamespacedName → NonAdminBackup
created_nab key = record {
  meta = object key.name key.namespace;
  spec = record { backup_spec = some empty_spec; delete_backup = false };
  status = record {
    velero_backup = some (record {
      spec = none;
      status = none;
      nacuuid = "shop-nightly-1";
      name = "shop-nightly-1";
      namespace = "openshift-adp";
    });
    velero_delete_backup_request = none;
    data_mover_data_uploads = none;
    file_system_pod_volume_backups = none;
    queue_info = none;
    phase = NonAdminPhase.created;
    conditions = [];
  };
}

abbrev pub new_nab : NamespacedName → NonAdminBackup
new_nab key = record {
  meta = object key.name key.namespace;
  spec = record { backup_spec = some empty_spec; delete_backup = false };
  status = record {
    velero_backup = none;
    velero_delete_backup_request = none;
    data_mover_data_uploads = none;
    file_system_pod_volume_backups = none;
    queue_info = none;
    phase = NonAdminPhase.unset;
    conditions = [];
  };
}

-- Reads return the new object, writes store what they are given, and lists are empty.
abbrev pub server : Server
server h Call.new_uuid = ok "1b4e28ba-2fa1-11d2-883f-0016d3cca427"
server h (Call.get_nab key) = ok (new_nab key)
server h (Call.update_nab nab) = ok nab
server h (Call.update_nab_status nab) = ok nab
server h (Call.list_backups _ _) = ok []
server h (Call.create_backup b) = ok b
server h (Call.list_nar _) = ok []
server h _ = err ApiError.other

pub server-Lawful : (g : History) (c : Call) → Lawful c (server g c)
server-Lawful g (Call.get_nab key) = (refl, refl)
server-Lawful g (Call.update_nab nab) = (refl, refl, refl)
server-Lawful g (Call.update_nab_status nab) = (refl, refl)
server-Lawful g _ = tt

abbrev pub reconciler : Reconciler
reconciler = record { oadp_namespace = "openshift-adp"; enforced_backup_spec = empty_spec }

abbrev pub request : NamespacedName
request = record { name = "nightly"; namespace = "shop" }
