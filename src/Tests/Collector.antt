-- ===== src/Tests/Collector.antt =====
-- The garbage collector and the synchronizer in concrete clusters.
use oadp_non_admin.Base.{ℕ, List, [], ◌∷◌, ◌≡◌, refl, true, some}
use oadp_non_admin.Kube.Objects.{Backup, BackupStorageLocation, BslPhase}
use oadp_non_admin.Kube.Status.{ApiError, Error}
use oadp_non_admin.Kube.Api.{Call, ok, err, ret, Server, run}
use oadp_non_admin.Kube.Rules.{Obeys}
use oadp_non_admin.Function.Metadata.{
  check_label_annotation_value_is_valid, check_velero_backup_annotations,
}
use oadp_non_admin.Collector.Sweeps.{
  CollectorReconciler, delete_if_missing, delete_orphans, delete_requests, collect_secrets,
  collect_bsls, collect_backups, collect_restores, collect_requests, goroutines,
}
use oadp_non_admin.Collector.Group.{advance, turn_among, turn, take_turns, reconcile_collector}
use oadp_non_admin.Collector.Rules.{IsRefusal, collector_rules, goals}
use oadp_non_admin.Collector.Turns.{Reached}
use oadp_non_admin.Collector.Safety.{
  reconcile_collector-Obeys, reconcile_collector_complete, reconcile_collector_refused,
}
use oadp_non_admin.Backup.Creation.{
  set_backup_uuid_in_status, set_finalizer_on_non_admin_backup, create_velero_backup_and_sync,
  choose_backup_uuid, ensure_velero_backup,
}
use oadp_non_admin.Backup.Reconcile.{reconcile_steps}
use oadp_non_admin.Synchronizer.Steps.{SynchronizerReconciler, synchronize, synced_backup}
use oadp_non_admin.Synchronizer.Rules.{synchronizer_rules}
use oadp_non_admin.Synchronizer.Safety.{synchronize-Ends}
use oadp_non_admin.Synchronizer.Adoption.{synced_backup_adopted}
use oadp_non_admin.Kube.Rules.{Ends}
use oadp_non_admin.Tests.Cluster.{object, vendor, reconciler, empty_spec}

-- The Velero backup of the NonAdminBackup `nightly` of the namespace `shop`.
abbrev nightly : Backup
nightly = record {
  meta = record (object "shop-nightly-1" "openshift-adp") {
    labels = ("openshift.io/oadp-nab-origin-nacuuid", "shop-nightly-1") ∷ [];
    annotations =
        ("openshift.io/oadp-nab-origin-name", "nightly")
        ∷ ("openshift.io/oadp-nab-origin-namespace", "shop")
        ∷ [];
  };
  spec = empty_spec;
  status = record { completion_timestamp = some 9; others = 0 };
}

-- A cluster with that backup alone, whose NonAdminBackup is not there.
abbrev orphan_server : Server
orphan_server h (Call.list_backups _ _) = ok (nightly ∷ [])
orphan_server h (Call.get_nab _) = err ApiError.not_found
orphan_server h (Call.delete_backup _) = ok tt
orphan_server h (Call.list_secrets _ _) = ok []
orphan_server h (Call.list_bsls _ _) = ok []
orphan_server h (Call.list_restores _ _) = ok []
orphan_server h (Call.list_nabsl_requests _ _) = ok []
orphan_server h _ = err ApiError.other

-- A cluster that refuses every call.
abbrev refusing_server : Server
refusing_server h _ = err ApiError.conflict

abbrev collector : CollectorReconciler
collector = record { oadp_namespace = "openshift-adp"; require_approval_for_bsl = true }

-- The goroutine for backups has the first, third and fifth turn.
abbrev turns : List ℕ
turns = 2 ∷ 0 ∷ 2 ∷ 1 ∷ 2 ∷ 3 ∷ 4 ∷ []

reconcile_collector-Obeys_example :
    Obeys
      (collector_rules ⦃v = vendor⦄ collector)
      (reconcile_collector ⦃v = vendor⦄ collector orphan_server turns).history
reconcile_collector-Obeys_example =
    reconcile_collector-Obeys ⦃v = vendor⦄ collector orphan_server turns

reconcile_collector_complete_example :
    Reached
      (goals ⦃v = vendor⦄ collector)
      (reconcile_collector ⦃v = vendor⦄ collector orphan_server turns).history
unfolding reconcile_collector take_turns turn turn_among advance goroutines collect_secrets
    collect_bsls collect_backups collect_restores collect_requests delete_orphans delete_requests
    delete_if_missing check_label_annotation_value_is_valid check_velero_backup_annotations
reconcile_collector_complete_example =
    reconcile_collector_complete ⦃v = vendor⦄ collector orphan_server turns refl
      (refl, (refl, (refl, (refl, (refl, tt)))))

reconcile_collector_refused_example :
    IsRefusal
      (reconcile_collector ⦃v = vendor⦄ collector refusing_server (1 ∷ 1 ∷ [])).history
      (Error.api ApiError.conflict)
unfolding reconcile_collector take_turns turn turn_among advance goroutines collect_bsls
reconcile_collector_refused_example =
    reconcile_collector_refused ⦃v = vendor⦄ collector refusing_server (1 ∷ 1 ∷ [])
      (Error.api ApiError.conflict) refl

-- A cluster with that backup and a default storage location.
abbrev default_location : BackupStorageLocation
default_location = record {
  meta = object "" "openshift-adp";
  is_default = true;
  phase = BslPhase.available;
}

abbrev sync_server : Server
sync_server h (Call.list_bsls _ _) = ok (default_location ∷ [])
sync_server h (Call.list_backups _ _) = ok (nightly ∷ [])
sync_server h (Call.get_namespace _) = ok tt
sync_server h (Call.get_nab _) = err ApiError.not_found
sync_server h (Call.create_nab nab) = ok nab
sync_server h _ = err ApiError.other

abbrev synchronizer : SynchronizerReconciler
synchronizer = record { oadp_namespace = "openshift-adp" }

synchronize-Ends_example :
    Ends
      (synchronizer_rules ⦃v = vendor⦄ synchronizer)
      (λ _ _. Unit)
      (run sync_server [] (synchronize ⦃v = vendor⦄ synchronizer))
synchronize-Ends_example = synchronize-Ends ⦃v = vendor⦄ synchronizer sync_server

synced_backup_adopted_example :
    (reconcile_steps ⦃v = vendor⦄ reconciler (synced_backup ⦃v = vendor⦄ [] nightly)
      ≡ set_backup_uuid_in_status ⦃v = vendor⦄ reconciler
        ∷ set_finalizer_on_non_admin_backup ⦃v = vendor⦄
        ∷ create_velero_backup_and_sync ⦃v = vendor⦄ reconciler
        ∷ [])
    × (choose_backup_uuid ⦃v = vendor⦄ reconciler (synced_backup ⦃v = vendor⦄ [] nightly)
        ≡ ret "shop-nightly-1")
    × (ensure_velero_backup ⦃v = vendor⦄ reconciler
          (synced_backup ⦃v = vendor⦄ [] nightly)
          "shop-nightly-1"
          (some nightly)
        ≡ ret nightly)
unfolding check_label_annotation_value_is_valid
synced_backup_adopted_example = synced_backup_adopted ⦃v = vendor⦄ reconciler [] nightly refl
