-- ===== src/Collector/Safety.antt =====
-- What the garbage collector of internal/controller/garbagecollector_controller.go does, in whatever
-- order its goroutines take turns.
use oadp_non_admin.Base.{ℕ, ◌≡◌, subst, none, some, List, []}
use oadp_non_admin.Kube.Status.{Error}
use oadp_non_admin.Kube.Api.{Server}
use oadp_non_admin.Kube.Rules.{Obeys}
use oadp_non_admin.Kube.Vendor.{Vendor}
use oadp_non_admin.Collector.Sweeps.{CollectorReconciler, goroutines}
use oadp_non_admin.Collector.Group.{started, reconcile_collector}
use oadp_non_admin.Collector.Rules.{
  IsRefusal, collector_rules, collector_rules-Patient, goals, goals-AllStay,
}
use oadp_non_admin.Collector.Orphans.{goroutines-AllSound}
use oadp_non_admin.Collector.Turns.{
  Explained, AllSound, take_turns-Sound, Reached, IsThrough, Reached-through,
}

module _ ⦃v : Vendor⦄ (r : CollectorReconciler) where
  sound :
      (s : Server) (schedule : List ℕ)
      → let o = reconcile_collector r s schedule in
        Obeys (collector_rules r) o.history
        × Explained (collector_rules r) o.history o.first_error
        × AllSound (collector_rules r) (goals r) o.history o.first_error o.running
  unfolding reconcile_collector goroutines
  sound s schedule =
      take_turns-Sound (collector_rules r) (collector_rules-Patient r) (λ x. x) s (λ _ _. tt)
        schedule (goals r) (started r) (goals-AllStay r) tt tt (goroutines-AllSound r [])

  -- In every run of the garbage collector's `Reconcile`, whatever the server answers and in whatever
  -- order the goroutines take turns: a secret, storage location, backup or restore is deleted only
  -- if it was listed by the labels in the OADP namespace, has its UUID label and origin annotations,
  -- and the owner that they name was read and was not there; a storage location request is deleted
  -- only if it was listed so and approvals are not required, or it refers to no storage location, or
  -- to one that was read and was not there; and no other call writes anything.
  pub reconcile_collector-Obeys :
      (s : Server) (schedule : List ℕ)
      → Obeys (collector_rules r) (reconcile_collector r s schedule).history
  reconcile_collector-Obeys s schedule = (sound s schedule).0

  -- Once all goroutines are through without an error, each of the five list calls has been
  -- answered; of the secrets, storage locations, backups and restores in these answers each one
  -- with its UUID label and origin annotations has an owner that was read or has been deleted, and
  -- each request has been deleted, unless approvals are required and its storage location was read.
  pub reconcile_collector_complete :
      (s : Server) (schedule : List ℕ)
      → (reconcile_collector r s schedule).first_error ≡ none
      → IsThrough (reconcile_collector r s schedule).running
      → Reached (goals r) (reconcile_collector r s schedule).history
  reconcile_collector_complete s schedule e t =
      let o = reconcile_collector r s schedule in
      Reached-through (collector_rules r) (goals r) o.history o.running
        (subst (λ d. AllSound (collector_rules r) (goals r) o.history d o.running) e
          (sound s schedule).2)
        t

  -- The error that the garbage collector's `Reconcile` returns is always one with which the server
  -- has refused a call of this run.
  pub reconcile_collector_refused :
      (s : Server) (schedule : List ℕ) (e : Error)
      → (reconcile_collector r s schedule).first_error ≡ some e
      → IsRefusal (reconcile_collector r s schedule).history e
  reconcile_collector_refused s schedule e q =
      let o = reconcile_collector r s schedule in
      subst (λ d. Explained (collector_rules r) o.history d) q (sound s schedule).1
