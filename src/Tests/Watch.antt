-- ===== src/Tests/Watch.antt =====
-- Watch events of Velero backups in a concrete cluster.
use oadp_non_admin.Base.{[], ◌∷◌, ◌++◌, none, some, List, arith, ◌≡◌, true}
use oadp_non_admin.Kube.Objects.{Backup}
use oadp_non_admin.Kube.Status.{ApiError}
use oadp_non_admin.Kube.Api.{Call, ok, err, ret, Server}
use oadp_non_admin.Backup.Creation.{new_velero_backup}
use oadp_non_admin.Watch.Events.{Content, Object}
use oadp_non_admin.Watch.Predicates.{update_backup_predicate, delete_backup_predicate}
use oadp_non_admin.Watch.Handlers.{velero_backup_handler}
use oadp_non_admin.Watch.Observed.{observed, velero_backup_events_reach_owner}
use oadp_non_admin.Function.Metadata.{get_non_admin_labels, get_non_admin_backup_annotations}
use oadp_non_admin.Tests.Cluster.{vendor, new_nab, reconciler, request, empty_spec, object}

abbrev event : Object
event = observed ⦃v = vendor⦄ reconciler (new_nab request) "shop-nightly-1" empty_spec 1 [] none

abbrev before : Object
before = record {
  meta = object "shop-nightly-1" "openshift-adp";
  generation = 0;
  owners = [];
  content = Content.backup none;
}

velero_backup_events_reach_owner_example :
    (update_backup_predicate ⦃v = vendor⦄ "openshift-adp" before event ≡ ret true)
    × (delete_backup_predicate ⦃v = vendor⦄ (Content.backup none) "openshift-adp" event ≡ true)
    × (velero_backup_handler ⦃v = vendor⦄ event ≡ request ∷ [])
velero_backup_events_reach_owner_example =
    velero_backup_events_reach_owner ⦃v = vendor⦄ reconciler (new_nab request) "shop-nightly-1"
      empty_spec before 1 [] none (λ e. cc) (λ e. cc) (omega arith, omega arith)
      (omega arith, omega arith) (omega arith, omega arith)

abbrev done : Backup
done = record {
  meta = object "gone" "openshift-adp";
  spec = empty_spec;
  status = record { completion_timestamp = some 9; others = 0 };
}

abbrev waiting : List Backup
unfolding get_non_admin_labels get_non_admin_backup_annotations
waiting =
    new_velero_backup ⦃v = vendor⦄ reconciler (new_nab request) "shop-nightly-1" empty_spec
    ∷ new_velero_backup ⦃v = vendor⦄ reconciler
        (new_nab (record { name = "weekly"; namespace = "shop" })) "shop-weekly-1" empty_spec
    ∷ []

-- The operator's namespace has these two, and one that is completed.
abbrev watch_server : Server
watch_server h (Call.list_backups _ _) = ok (waiting ++ (done ∷ []))
watch_server h _ = err ApiError.other
