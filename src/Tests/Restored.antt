-- ===== src/Tests/Restored.antt =====
-- Watch events of Velero restores, and the counters of their volume restores, in a concrete cluster.
use oadp_non_admin.Base.{[], ◌∷◌, none, some, List, arith, ◌≡◌, true, false}
use oadp_non_admin.Kube.Objects.{NamespacedName, PodVolumeRestore, PodVolumeRestorePhase}
use oadp_non_admin.Kube.Status.{NonAdminRestore}
use oadp_non_admin.Kube.Api.{ret}
use oadp_non_admin.Restore.Status.{update_pod_volume_restore_status}
use oadp_non_admin.Restore.Exact.{
  update_pod_volume_restore_status_exact, update_pod_volume_restore_status_settles,
}
use oadp_non_admin.Restore.Steps.{RestoreReconciler, new_velero_restore}
use oadp_non_admin.Watch.Events.{Content, Object}
use oadp_non_admin.Watch.Predicates.{update_restore_predicate, delete_restore_predicate}
use oadp_non_admin.Watch.Handlers.{velero_restore_handler}
use oadp_non_admin.Watch.Restored.{observed_restore, velero_restore_events_reach_owner}
use oadp_non_admin.Tests.Cluster.{vendor, new_nar, restore_spec_of, object}

abbrev key : NamespacedName
key = record { name = "undo"; namespace = "shop" }

abbrev undo : NonAdminRestore
undo = new_nar key "nightly"

abbrev reconciler : RestoreReconciler
reconciler = record { oadp_namespace = "openshift-adp"; enforced_restore_spec = restore_spec_of "" }

abbrev event : Object
unfolding new_velero_restore
event =
    observed_restore ⦃v = vendor⦄ reconciler undo "shop-undo-1" (restore_spec_of "nightly") 1 []
      none

abbrev before : Object
before = record {
  meta = object "shop-undo-1" "openshift-adp";
  generation = 0;
  owners = [];
  content = Content.restore none;
}

velero_restore_events_reach_owner_example :
    (update_restore_predicate ⦃v = vendor⦄ "openshift-adp" before event ≡ ret true)
    × (delete_restore_predicate ⦃v = vendor⦄ (Content.restore none) "openshift-adp" event ≡ true)
    × (velero_restore_handler ⦃v = vendor⦄ event ≡ key ∷ [])
unfolding new_velero_restore
velero_restore_events_reach_owner_example =
    velero_restore_events_reach_owner ⦃v = vendor⦄ reconciler undo "shop-undo-1"
      (restore_spec_of "nightly") before 1 [] none (λ e. cc) (λ e. cc) (omega arith)
      (omega arith, omega arith) (omega arith, omega arith)

abbrev transfers : List PodVolumeRestore
transfers =
    record { phase = PodVolumeRestorePhase.completed }
    ∷ record { phase = PodVolumeRestorePhase.in_progress }
    ∷ record { phase = PodVolumeRestorePhase.completed }
    ∷ []

update_pod_volume_restore_status_exact_example :
    (update_pod_volume_restore_status undo.status transfers).0 ≡ record undo.status {
      file_system_pod_volume_restores =
          some (record { total = 3; new = 0; in_progress = 1; failed = 0; completed = 2 });
    }
update_pod_volume_restore_status_exact_example =
    update_pod_volume_restore_status_exact undo.status transfers

update_pod_volume_restore_status_settles_example :
    (update_pod_volume_restore_status
      (update_pod_volume_restore_status undo.status transfers).0
      transfers).1
    ≡ false
update_pod_volume_restore_status_settles_example =
    update_pod_volume_restore_status_settles undo.status transfers
