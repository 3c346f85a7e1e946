-- ===== src/Tests/Restore.antt =====
-- The controller of NonAdminRestores in a concrete cluster.
use oadp_non_admin.Base.{[], refl}
use oadp_non_admin.Kube.Objects.{NamespacedName}
use oadp_non_admin.Kube.Status.{ApiError}
use oadp_non_admin.Kube.Api.{Call, ok, err, History, Server, run}
use oadp_non_admin.Kube.Rules.{Obeys}
use oadp_non_admin.Restore.Steps.{RestoreReconciler}
use oadp_non_admin.Restore.Reconcile.{reconcile_restore}
use oadp_non_admin.Restore.Safety.Defs.{LawfulRestore, restore_safety}
use oadp_non_admin.Restore.Safety.Reconcile.{reconcile_restore-Obeys}
use oadp_non_admin.Tests.Cluster.{new_nar, created_nab, restore_spec_of, vendor, vendor_laws}

-- Reads return a new restore of the backup `nightly`, writes store what they are given, and lists are
-- empty.
abbrev restore_server : Server
restore_server h Call.new_uuid = ok "1b4e28ba-2fa1-11d2-883f-0016d3cca427"
restore_server h (Call.get_nab key) = ok (created_nab key)
restore_server h (Call.get_nar key) = ok (new_nar key "nightly")
restore_server h (Call.update_nar nar) = ok nar
restore_server h (Call.update_nar_status nar) = ok nar
restore_server h (Call.list_restores _ _) = ok []
restore_server h (Call.create_restore x) = ok x
restore_server h (Call.list_pod_volume_restores _ _) = ok []
restore_server h (Call.list_data_downloads _ _) = ok []
restore_server h _ = err ApiError.other

restore_server-LawfulRestore : (g : History) (c : Call) → LawfulRestore c (restore_server g c)
restore_server-LawfulRestore g (Call.get_nar key) = (refl, refl)
restore_server-LawfulRestore g (Call.update_nar nar) = (refl, refl, refl)
restore_server-LawfulRestore g (Call.update_nar_status nar) = (refl, refl)
restore_server-LawfulRestore g _ = tt

abbrev restorer : RestoreReconciler
restorer = record { oadp_namespace = "openshift-adp"; enforced_restore_spec = restore_spec_of "" }

abbrev undo : NamespacedName
undo = record { name = "undo"; namespace = "shop" }

reconcile_restore-Obeys_example :
    Obeys
      (restore_safety ⦃v = vendor⦄ restorer undo)
      (run restore_server [] (reconcile_restore ⦃v = vendor⦄ restorer undo)).1
reconcile_restore-Obeys_example =
    reconcile_restore-Obeys ⦃v = vendor⦄ vendor_laws restorer undo restore_server
      restore_server-LawfulRestore
