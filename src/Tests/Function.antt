-- ===== src/Tests/Function.antt =====
-- The shared functions at concrete inputs.
use oadp_non_admin.Base.{
  String, [], ◌∷◌, ◌++◌, ◌≡◌, ◌≤◌, ◌<◌, ◌+◌, ◌↔◌, refl, none, some, true, false, len, All, keep,
  length, arith, String_discrete,
}
use oadp_non_admin.Kube.Objects.{NonAdminPhase, Backup, Restore, BackupSpec, FieldValue-discrete}
use oadp_non_admin.Kube.Status.{NonAdminRestore, NonAdminBackup}
use oadp_non_admin.Kube.Api.{ok, Server, Call, run, ret, perform, ◌>>=◌}
use oadp_non_admin.Function.Names.{nac_object_name}
use oadp_non_admin.Function.Bounds.{nac_object_name_bounded}
use oadp_non_admin.Function.Namespaces.{contains_only_namespace_iff}
use oadp_non_admin.Function.Fields.{backup_fields, check_enforced, enforce, conflicts}
use oadp_non_admin.Function.Enforcement.{
  AllFields, Preserves, Respects, enforce-Preserves, enforce-Respects,
}
use oadp_non_admin.Function.Queue.{
  position, count_backups_before, get_backup_queue_info, get_restore_queue_info,
}
use oadp_non_admin.Function.Queue.Order.{
  is_ahead, is_restore_ahead, get_backup_queue_info_counts, get_restore_queue_info_counts,
  count_backups_before_increases,
}
use oadp_non_admin.Function.Validate.{
  validate_restore_spec, namespaces_differ, contains_only_namespace, validate_backup_spec,
}
use oadp_non_admin.Function.RestorePermission.{Restorable, validate_restore_spec_permits}
use oadp_non_admin.Function.Permission.{
  HasPermittedSpec, validate_backup_spec_permits, validate_backup_spec_accepts,
}
use oadp_non_admin.Tests.Cluster.{
  new_nar, restore_spec_of, vendor, server, empty_spec, object, new_nab, request,
}

abbrev uuid : String
uuid = "1b4e28ba-2fa1-11d2-883f-0016d3cca427"

nac_object_name_bounded_example :
    (s : String) × (nac_object_name ⦃v = vendor⦄ uuid "a-namespace-of-some-length" "nightly"
      ≡ some s)
    × (len s ≤ 63)
nac_object_name_bounded_example =
    nac_object_name_bounded ⦃v = vendor⦄ uuid "a-namespace-of-some-length" "nightly" (omega arith)

contains_only_namespace_iff_example :
    (contains_only_namespace ("shop" ∷ "shop" ∷ []) "shop" ≡ true)
    ↔ All (λ (n : String). n ≡ "shop") ("shop" ∷ "shop" ∷ [])
contains_only_namespace_iff_example = contains_only_namespace_iff ("shop" ∷ "shop" ∷ []) "shop"

abbrev enforced_spec : BackupSpec
enforced_spec = record empty_spec {
  excluded_resources = some ("secrets" ∷ []);
  storage_location = "default";
  others = 0 ∷ 5 ∷ 4 ∷ [];
}

abbrev user_spec : BackupSpec
user_spec = record empty_spec {
  included_namespaces = some ("shop" ∷ []);
  storage_location = "default";
  others = 3 ∷ 0 ∷ [];
}

enforce-Preserves_example :
    AllFields Preserves (backup_fields user_spec) (backup_fields (enforce enforced_spec user_spec))
enforce-Preserves_example = enforce-Preserves enforced_spec user_spec

enforce-Respects_example :
    AllFields Respects
      (backup_fields enforced_spec)
      (backup_fields (enforce enforced_spec user_spec))
unfolding check_enforced FieldValue-discrete String_discrete
enforce-Respects_example = enforce-Respects enforced_spec user_spec refl

abbrev permitted_spec : BackupSpec
permitted_spec = record empty_spec { included_namespaces = some ("shop" ∷ []) }

abbrev user_nab : NonAdminBackup
user_nab = record (new_nab request) {
  spec = record { backup_spec = some permitted_spec; delete_backup = false };
}

validate_backup_spec_permits_example : HasPermittedSpec user_nab enforced_spec
unfolding run validate_backup_spec namespaces_differ check_enforced
validate_backup_spec_permits_example =
    validate_backup_spec_permits ⦃v = vendor⦄ server "openshift-adp" user_nab enforced_spec refl

validate_backup_spec_accepts_example :
    validate_backup_spec ⦃v = vendor⦄ "openshift-adp" user_nab enforced_spec ≡ ret tt
unfolding conflicts namespaces_differ
validate_backup_spec_accepts_example =
    validate_backup_spec_accepts ⦃v = vendor⦄ "openshift-adp" user_nab enforced_spec permitted_spec
      refl
      (record {
        own_namespace = refl;
        none_excluded = refl;
        no_cluster_resources = refl;
        no_cluster_scoped = refl;
        no_snapshot_locations = refl;
        as_enforced =
            (refl, (refl, (refl, (refl, (refl, (refl, (refl, (refl, (refl, (refl, tt))))))))));
      })
      refl

abbrev waiting : Backup
waiting = record {
  meta = object "b" "openshift-adp";
  spec = empty_spec;
  status = record { completion_timestamp = none; others = 0 };
}

abbrev waiting_restore : Restore
waiting_restore = record {
  meta = object "r" "openshift-adp";
  spec = restore_spec_of "b";
  status = record { completion_timestamp = none; others = 0 };
}

get_backup_queue_info_counts_example : get_backup_queue_info "openshift-adp" (some waiting) ≡ (
    perform (Call.list_backups "openshift-adp" []) >>= λ items.
    ret (position (1 + length (keep (is_ahead 7) items))))
get_backup_queue_info_counts_example =
    get_backup_queue_info_counts "openshift-adp" waiting refl refl

get_restore_queue_info_counts_example :
    get_restore_queue_info "openshift-adp" (some waiting_restore) ≡ (
      perform (Call.list_restores "openshift-adp" []) >>= λ items.
      ret (position (1 + length (keep (is_restore_ahead 7) items))))
get_restore_queue_info_counts_example =
    get_restore_queue_info_counts "openshift-adp" waiting_restore refl refl

count_backups_before_increases_example :
    count_backups_before 7 1 ((waiting ∷ []) ++ (waiting ∷ []))
    < count_backups_before 9 1 ((waiting ∷ []) ++ (waiting ∷ []))
count_backups_before_increases_example =
    count_backups_before_increases waiting 9 (waiting ∷ []) [] refl (omega arith)

-- The server whose NonAdminBackups are created.
abbrev created_server : Server
created_server h (Call.get_nab key) = ok (record (new_nab key) {
  status = record (new_nab key).status { phase = NonAdminPhase.created };
})
created_server h c = server h c

abbrev user_nar : NonAdminRestore
user_nar = new_nar (record { name = "undo"; namespace = "shop" }) "nightly"

validate_restore_spec_permits_example :
    Restorable user_nar
      (restore_spec_of "")
      (run created_server [] (validate_restore_spec user_nar (restore_spec_of ""))).1
unfolding run validate_restore_spec check_enforced
validate_restore_spec_permits_example =
    validate_restore_spec_permits created_server user_nar (restore_spec_of "") refl
