-- ===== src/Restore/Safety/Steps.antt =====
-- The steps of the two reconcile paths keep the rules: a Velero restore is made only behind a
-- finalizer, for the namespace of the request and no other.
use oadp_non_admin.Base.{
  ◌≡◌, refl, sym, ap, ◌∙◌, or_false, false, Option, none, some, ◌||◌, not, inr, arith,
}
use oadp_non_admin.Function.Fields.{Done}
use oadp_non_admin.Function.Lookup.{get_velero_restore_by_label}
use oadp_non_admin.Function.Validate.{validate_restore_spec}
use oadp_non_admin.Kube.Objects.{NamespacedName, NonAdminPhase, phase_eq, Restore}
use oadp_non_admin.Kube.Status.{NonAdminRestore, Condition}
use oadp_non_admin.Kube.Api.{ok, err, Prog, ◌>>=◌, try, Result, success, failure, History}
use oadp_non_admin.Kube.Rules.{Keeps, Keeps-bind, Keeps-if, Keeps-option}
use oadp_non_admin.Kube.Vendor.{Vendor, VendorLaws}
use oadp_non_admin.Backup.Status.{update_non_admin_phase}
use oadp_non_admin.Restore.Status.{set_restore_phase, set_restore_condition}
use oadp_non_admin.Restore.Steps.{
  RestoreReconciler, restore_nacuuid_of, update_restore_phase_and_condition,
  set_status_and_condition_for_deletion, delete_or_release,
  delete_velero_restore_and_remove_finalizer, init, judge_restore_spec, validate_spec,
}
use oadp_non_admin.Restore.Safety.Defs.{FoundNoRestore, FoundOnly, IsRequested, IsCurrentRestore}
use oadp_non_admin.Restore.Safety.Calls.{
  R, Reads-first, Reads-try, validate_restore_spec-Reads, get_velero_restore_by_label-Keeps,
  update_restore_status_if-Keeps, CurrentStep,
}

set_restore_phase_unchanged :
    (nar : NonAdminRestore) (p : NonAdminPhase)
    → (set_restore_phase nar p).1 ≡ false
    → (set_restore_phase nar p).0 ≡ nar
unfolding update_non_admin_phase
set_restore_phase_unchanged nar p e = ground arith

module _ ⦃v : Vendor⦄ (laws : VendorLaws v) where
  set_restore_condition_unchanged :
      (nar : NonAdminRestore) (c : Condition)
      → (set_restore_condition nar c).1 ≡ false
      → (set_restore_condition nar c).0 ≡ nar
  set_restore_condition_unchanged nar c e = rw (laws.set_unchanged nar.status.conditions c e)

  module _ (r : RestoreReconciler) (key : NamespacedName) where
    pub update_restore_phase_and_condition-Keeps :
        {B : Type 0} (S : History → B → Type 0) (h : History) (nar : NonAdminRestore)
        (p : NonAdminPhase) (c : Condition) (f : NonAdminRestore → Prog B)
        → IsCurrentRestore r key h nar
        → ((g : History) (nar' : NonAdminRestore)
            → IsCurrentRestore r key g nar'
            → Keeps (R r key) S g (f nar'))
        → Keeps (R r key) S h (update_restore_phase_and_condition nar p c >>= f)
    unfolding update_restore_phase_and_condition update_non_admin_phase
    update_restore_phase_and_condition-Keeps S h nar p c f cur k =
        let nar1 = (set_restore_phase nar p).0 in
        update_restore_status_if-Keeps r key S h
          ((set_restore_phase nar p).1 || (set_restore_condition nar1 c).1)
          (set_restore_condition nar1 c).0 f
          (λ e.
            let (e1, e2) =
              or_false (set_restore_phase nar p).1 (set_restore_condition nar1 c).1 e in
            cur.last
            ∙ ap some (
                sym (
                  set_restore_condition_unchanged nar1 c e2
                  ∙ set_restore_phase_unchanged nar p e1)))
          cur.requested k

    pub init-Keeps :
        (h : History) (nar : NonAdminRestore)
        → IsCurrentRestore r key h nar
        → Keeps (R r key) (CurrentStep r key) h (init nar)
    unfolding init update_non_admin_phase
    init-Keeps h nar c =
        Keeps-if (R r key) _ h (not (phase_eq nar.status.phase NonAdminPhase.unset)) _ _ (λ _. c)
          λ _.
            update_restore_status_if-Keeps r key _ h (set_restore_phase nar NonAdminPhase.new).1 _ _
              (λ e. c.last ∙ ap some (sym (set_restore_phase_unchanged nar NonAdminPhase.new e)))
              c.requested (λ g nar' d. d)

    judge_restore_spec-Keeps :
        (h : History) (nar : NonAdminRestore) (result : Result Done)
        → IsCurrentRestore r key h nar
        → Keeps (R r key) (CurrentStep r key) h (judge_restore_spec r nar result)
    unfolding judge_restore_spec
    judge_restore_spec-Keeps h nar (success _) c =
        update_restore_status_if-Keeps r key _ h (set_restore_condition nar _).1 _ _
          (λ e. c.last ∙ ap some (sym (set_restore_condition_unchanged nar _ e))) c.requested
          (λ g nar' d. d)
    judge_restore_spec-Keeps h nar (failure e) c =
        update_restore_phase_and_condition-Keeps _ h nar NonAdminPhase.backing_off _ _ c
          (λ _ _ _. tt)

    pub validate_spec-Keeps :
        (h : History) (nar : NonAdminRestore)
        → IsCurrentRestore r key h nar
        → Keeps (R r key) (CurrentStep r key) h (validate_spec r nar)
    unfolding validate_spec
    validate_spec-Keeps h nar c =
        Reads-first r key _ h nar (try (validate_restore_spec nar r.enforced_restore_spec)) _
          (Reads-try h _ (validate_restore_spec-Reads h nar r.enforced_restore_spec)) c
          (λ g result d. judge_restore_spec-Keeps g nar result d)

    pub set_status_and_condition_for_deletion-Keeps :
        (h : History) (nar : NonAdminRestore)
        → IsCurrentRestore r key h nar
        → Keeps (R r key) (CurrentStep r key) h (set_status_and_condition_for_deletion nar)
    unfolding set_status_and_condition_for_deletion
    set_status_and_condition_for_deletion-Keeps h nar c =
        update_restore_phase_and_condition-Keeps _ h nar NonAdminPhase.deleting _ _ c
          (λ g nar' d. d)

    delete_or_release-Keeps :
        (h : History) (nar : NonAdminRestore) (found : Option Restore)
        → IsRequested r key nar.meta
        → (found ≡ none → FoundNoRestore r key h)
        → ((x : Restore) → found ≡ some x → FoundOnly r key x h)
        → Keeps (R r key) (λ _ _. Unit) h (delete_or_release nar found)
    unfolding delete_or_release
    delete_or_release-Keeps h nar none q n s =
        ((q, inr (n refl)), elim [ err _ ↦ λ _. tt | ok _ ↦ λ _. tt ])
    delete_or_release-Keeps h nar (some x) q n s =
        (s x refl, elim [ err _ ↦ λ _. tt | ok _ ↦ λ _. tt ])

    pub delete_velero_restore_and_remove_finalizer-Keeps :
        (h : History) (nar : NonAdminRestore)
        → IsCurrentRestore r key h nar
        → Keeps (R r key) (λ _ _. Unit) h (delete_velero_restore_and_remove_finalizer r nar)
    unfolding delete_velero_restore_and_remove_finalizer
    delete_velero_restore_and_remove_finalizer-Keeps h nar c =
        Keeps-option (R r key) _ h (restore_nacuuid_of nar.status.velero_restore) _ _ (λ _. tt)
          λ uuid _.
            Keeps-bind (R r key) _ _ h (get_velero_restore_by_label r.oadp_namespace uuid) _
              (get_velero_restore_by_label-Keeps r key h uuid)
              λ g found q. delete_or_release-Keeps g nar found c.requested q.1 q.2
