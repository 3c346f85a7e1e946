-- ===== src/Restore/Safety/Reconcile.antt =====
-- Every reconcile of a NonAdminRestore keeps the rules.
use oadp_non_admin.Base.{not, [], ◌∷◌, refl}
use oadp_non_admin.Kube.Objects.{NamespacedName}
use oadp_non_admin.Kube.Status.{ApiError, NonAdminRestore}
use oadp_non_admin.Kube.Api.{Call, ok, err, event, History, Server, run}
use oadp_non_admin.Kube.Rules.{Keeps, Obeys, Ends-Obeys, run-Ends}
use oadp_non_admin.Kube.Vendor.{Vendor, VendorLaws}
use oadp_non_admin.Loop.{run_steps, run_step-Keeps, finish, either-Keeps}
use oadp_non_admin.Backup.Deletion.{is_time_zero}
use oadp_non_admin.Restore.Steps.{
  RestoreReconciler, set_status_and_condition_for_deletion,
  delete_velero_restore_and_remove_finalizer, init, validate_spec, set_uuid, set_finalizer,
  create_velero_restore,
}
use oadp_non_admin.Restore.Reconcile.{restore_steps, reconcile_restore}
use oadp_non_admin.Restore.Safety.Defs.{IsCurrentRestore, LawfulRestore, restore_safety}
use oadp_non_admin.Restore.Safety.Calls.{R}
use oadp_non_admin.Restore.Safety.Steps
use oadp_non_admin.Restore.Safety.Creation

module _ ⦃v : Vendor⦄ (laws : VendorLaws v) (r : RestoreReconciler) (key : NamespacedName) where
  deletion-Keeps :
      (h : History) (nar : NonAdminRestore)
      → IsCurrentRestore r key h nar
      → Keeps
          (R r key)
          (λ _ _. Unit)
          h
          (run_steps
            (set_status_and_condition_for_deletion
              ∷ delete_velero_restore_and_remove_finalizer r
              ∷ [])
            nar)
  deletion-Keeps h nar c =
      run_step-Keeps (R r key) (IsCurrentRestore r key) h nar set_status_and_condition_for_deletion
        _ (Steps.set_status_and_condition_for_deletion-Keeps laws r key h nar c)
        λ g1 nar1 c1.
          run_step-Keeps (R r key) (λ _ _. Unit) g1 nar1
            (delete_velero_restore_and_remove_finalizer r) _
            (Steps.delete_velero_restore_and_remove_finalizer-Keeps laws r key g1 nar1 c1)
            (λ g2 nar2 _. finish (R r key) g2 nar2)

  creation-Keeps :
      (h : History) (nar : NonAdminRestore)
      → IsCurrentRestore r key h nar
      → Keeps
          (R r key)
          (λ _ _. Unit)
          h
          (run_steps
            (init ∷ validate_spec r ∷ set_uuid r ∷ set_finalizer ∷ create_velero_restore r ∷ [])
            nar)
  creation-Keeps h nar c =
      run_step-Keeps (R r key) (IsCurrentRestore r key) h nar init _
        (Steps.init-Keeps laws r key h nar c)
        λ g1 nar1 c1.
          run_step-Keeps (R r key) (IsCurrentRestore r key) g1 nar1 (validate_spec r) _
            (Steps.validate_spec-Keeps laws r key g1 nar1 c1)
            λ g2 nar2 c2.
              run_step-Keeps (R r key) (IsCurrentRestore r key) g2 nar2 (set_uuid r) _
                (Creation.set_uuid-Keeps laws r key g2 nar2 c2) create_behind_finalizer
    where
      create_behind_finalizer :
          (g2 : History) (nar2 : NonAdminRestore)
          → IsCurrentRestore r key g2 nar2
          → Keeps
              (R r key)
              (λ _ _. Unit)
              g2
              (run_steps (set_finalizer ∷ create_velero_restore r ∷ []) nar2)
      create_behind_finalizer g2 nar2 c2 =
          run_step-Keeps (R r key) (Creation.GuardedRestore laws r key) g2 nar2 set_finalizer _
            (Creation.set_finalizer-Keeps laws r key g2 nar2 c2)
            λ g3 nar3 c3.
              run_step-Keeps (R r key) (λ _ _. Unit) g3 nar3 (create_velero_restore r) _
                (Creation.create_velero_restore-Keeps laws r key g3 nar3 c3)
                (λ g4 nar4 _. finish (R r key) g4 nar4)

  reconcile_restore-Keeps :
      (h : History) → Keeps (restore_safety r key) (λ _ _. Unit) h (reconcile_restore r key)
  unfolding reconcile_restore restore_steps
  reconcile_restore-Keeps h = (
    tt,
    elim [
      | err ApiError.not_found ↦ λ _. tt
      | err ApiError.conflict ↦ λ _. tt
      | err ApiError.other ↦ λ _. tt
      | ok nar ↦ λ y.
          let g = event (Call.get_nar key) (ok nar) ∷ h in
          let c : IsCurrentRestore r key g nar = record { last = refl; requested = y } in
          either-Keeps (R r key) g nar (not (is_time_zero nar.meta.deletion_timestamp)) _ _
            (deletion-Keeps g nar c) (creation-Keeps g nar c)
    ],
  )

  -- With finalizer and condition functions that do what their documentation says, in every run of
  -- the NonAdminRestore controller's `Reconcile` for the request `key`, whatever the server answers,
  -- as long as a read returns the object of its name and an update keeps name, namespace and sent
  -- finalizers: a Velero restore is created only in the OADP namespace, with the namespace of the
  -- request as its only included namespace, with the enforced namespace mapping where the
  -- NonAdminRestore that the server last returned has none and with the mapping of that
  -- NonAdminRestore otherwise, annotated with the request's name and namespace, labelled with its own name,
  -- while the NonAdminRestore that the server last returned has the finalizer, and from the Velero
  -- backup to which a NonAdminBackup of the namespace of the request, read just before, refers by
  -- a name; a Velero restore is deleted only if the list call before found it alone under some
  -- UUID label in the OADP namespace; the NonAdminRestore is updated only to a list with the
  -- finalizer or right after such a list call has found none; every object or status that is
  -- updated has the name and namespace of the request; and no other call writes anything.
  pub reconcile_restore-Obeys :
      (s : Server)
      → ((g : History) (c : Call) → LawfulRestore c (s g c))
      → Obeys (restore_safety r key) (run s [] (reconcile_restore r key)).1
  reconcile_restore-Obeys s lawful =
      Ends-Obeys (restore_safety r key) _ (run s [] (reconcile_restore r key)) (
        run-Ends (restore_safety r key) _ s [] (reconcile_restore r key) lawful tt
          (reconcile_restore-Keeps []))
