-- ===== src/Backup/Safety/Deletion.antt =====
-- The steps of the deletion paths keep the rules: only NonAdminRestores of the deleted backup are
-- deleted, and the finalizer is given up only when no Velero backup is found.
use oadp_non_admin.Base.{
  String, ◌≡◌, refl, sym, ap, ◌∙◌, subst, or_false, false, Option, none, some, List, [], ◌∷◌, ◌==◌,
  ◌||◌, not, inl, inr, eq_iff, arith, Mem, mem-cons_self, mem-cons_of_mem,
}
use oadp_non_admin.Constant.{nab_finalizer_name}
use oadp_non_admin.Function.Lookup.{
  get_velero_backup_by_label, get_velero_delete_backup_request_by_label,
}
use oadp_non_admin.Function.Quiet.{get_velero_delete_backup_request_by_label-Quiet}
use oadp_non_admin.Kube.Objects.{NamespacedName, Backup, DeleteBackupRequest, NonAdminPhase}
use oadp_non_admin.Kube.Status.{NonAdminBackup, NonAdminRestore, Condition}
use oadp_non_admin.Kube.Api.{Call, ok, err, Prog, ret, perform, ◌>>=◌, ◌>>◌, event, History}
use oadp_non_admin.Kube.Rules.{Keeps, Keeps-bind, Keeps-mono, Keeps-if, Keeps-deref, Keeps-option}
use oadp_non_admin.Kube.Facts.{Listed, Listed-Stays, Includes-next}
use oadp_non_admin.Kube.Vendor.{Vendor, VendorLaws}
use oadp_non_admin.Backup.Status.{set_phase, set_condition, update_non_admin_phase}
use oadp_non_admin.Backup.Deletion.{
  Reconciler, update_phase_and_condition, nacuuid_of, is_time_zero, delete_restores_of,
  set_status_and_condition_for_deletion_and_call_delete,
  set_status_for_direct_kubernetes_api_deletion, delete_non_admin_restores,
  remove_nab_finalizer_upon_velero_backup_deletion, request_backup_deletion,
  create_velero_delete_backup_request, delete_velero_backup_objects,
  delete_delete_backup_request_objects,
}
use oadp_non_admin.Backup.Safety.Harmless.{Harmless-Keeps, request_backup_deletion-Harmless}
use oadp_non_admin.Backup.Safety.Defs.{latest, FoundNone, Refers, IsCurrent, restores_in}
use oadp_non_admin.Backup.Safety.Calls.{
  R, Current, Quiet-first, update_status_if-Keeps, get_velero_backup_by_label-Keeps,
}

pub set_phase_unchanged :
    (nab : NonAdminBackup) (p : NonAdminPhase)
    → (set_phase nab p).1 ≡ false
    → (set_phase nab p).0 ≡ nab
unfolding update_non_admin_phase
set_phase_unchanged nab p e = ground arith

module _ ⦃v : Vendor⦄ (laws : VendorLaws v) where
  pub set_condition_unchanged :
      (nab : NonAdminBackup) (c : Condition)
      → (set_condition nab c).1 ≡ false
      → (set_condition nab c).0 ≡ nab
  set_condition_unchanged nab c e = rw (laws.set_unchanged nab.status.conditions c e)

  module _ (r : Reconciler) (key : NamespacedName) where
    pub update_phase_and_condition-Keeps :
        {B : Type 0} (S : History → B → Type 0) (h : History) (nab : NonAdminBackup)
        (p : NonAdminPhase) (c : Condition) (f : NonAdminBackup → Prog B)
        → IsCurrent r key h nab
        → ((g : History) (nab' : NonAdminBackup)
            → IsCurrent r key g nab'
            → Keeps (R r key) S g (f nab'))
        → Keeps (R r key) S h (update_phase_and_condition nab p c >>= f)
    unfolding update_phase_and_condition update_non_admin_phase
    update_phase_and_condition-Keeps S h nab p c f cur k =
        update_status_if-Keeps r key S h
          ((set_phase nab p).1 || (set_condition (set_phase nab p).0 c).1)
          (set_condition (set_phase nab p).0 c).0 f
          (λ e.
            let (e1, e2) = or_false (set_phase nab p).1 (set_condition (set_phase nab p).0 c).1 e in
            cur.last
            ∙ ap some (
                sym (
                  set_condition_unchanged (set_phase nab p).0 c e2 ∙ set_phase_unchanged nab p e1)))
          cur.same_name cur.same_namespace k

    pub set_status_and_condition_for_deletion_and_call_delete-Keeps :
        (h : History) (nab : NonAdminBackup)
        → IsCurrent r key h nab
        → Keeps
            (R r key)
            (Current r key)
            h
            (set_status_and_condition_for_deletion_and_call_delete nab)
    unfolding set_status_and_condition_for_deletion_and_call_delete
    set_status_and_condition_for_deletion_and_call_delete-Keeps h nab c =
        update_phase_and_condition-Keeps _ h nab NonAdminPhase.deleting _ _ c λ g nab1 d.
          Keeps-if (R r key) _ g (is_time_zero nab1.meta.deletion_timestamp) _ _
            (λ _. (
              tt,
              elim [
                | err x ↦ λ _. tt
                | ok _ ↦ λ _. record {
                  last = d.last;
                  same_name = d.same_name;
                  same_namespace = d.same_namespace;
                }
              ],
            ))
            (λ _. d)

    pub set_status_for_direct_kubernetes_api_deletion-Keeps :
        (h : History) (nab : NonAdminBackup)
        → IsCurrent r key h nab
        → Keeps (R r key) (Current r key) h (set_status_for_direct_kubernetes_api_deletion nab)
    unfolding set_status_for_direct_kubernetes_api_deletion
    set_status_for_direct_kubernetes_api_deletion-Keeps h nab c =
        update_phase_and_condition-Keeps _ h nab NonAdminPhase.deleting _ _ c λ g nab1 d. d

    remove-Keeps :
        (h : History) (nab : NonAdminBackup)
        → FoundNone r key h
        → nab.meta.name ≡ key.name
        → nab.meta.namespace ≡ key.namespace
        → Keeps (R r key) (Current r key) h (remove_nab_finalizer_upon_velero_backup_deletion nab)
    unfolding remove_nab_finalizer_upon_velero_backup_deletion
    remove-Keeps h nab f n s = (
      inr f,
      elim [
        | err x ↦ λ _. tt
        | ok nab' ↦ λ y. record { last = refl; same_name = y.0 ∙ n; same_namespace = y.1 ∙ s }
      ],
    )

    delete_restores_of-Keeps :
        (o : Option NonAdminBackup) (h : History) (name : String) (nars : List NonAdminRestore)
        → name ≡ key.name
        → ((nar : NonAdminRestore) → Mem nar nars → Listed (restores_in key.namespace) nar h)
        → latest h ≡ o
        → Keeps (R r key) (λ g _. latest g ≡ o) h (delete_restores_of name nars)
    unfolding delete_restores_of
    delete_restores_of-Keeps o h name [] n f e = e
    delete_restores_of-Keeps o h name (nar ∷ nars) n f e =
        Keeps-deref (R r key) _ h nar.restore_spec _ tt λ spec s.
          Keeps-if (R r key) _ h (spec.backup_name == name) _ _
            (λ q. (
              (subst (λ x. Refers x key.name) (sym s) ((eq_iff _ _).0 q ∙ n), f nar mem-cons_self),
              elim [
                | err x ↦ λ _. tt
                | ok x ↦ λ _.
                    let g = event (Call.delete_nar nar) (ok x) ∷ h in
                    delete_restores_of-Keeps o g name nars n
                      (λ y m.
                        Listed-Stays (restores_in key.namespace) y h g (Includes-next _ h)
                          (f y (mem-cons_of_mem nar m)))
                      e
              ],
            ))
            (λ _. delete_restores_of-Keeps o h name nars n (λ y m. f y (mem-cons_of_mem nar m)) e)

    pub delete_non_admin_restores-Keeps :
        (h : History) (nab : NonAdminBackup)
        → IsCurrent r key h nab
        → Keeps (R r key) (Current r key) h (delete_non_admin_restores nab)
    unfolding delete_non_admin_restores
    delete_non_admin_restores-Keeps h nab c = (
      tt,
      elim [
        | err x ↦ λ _. tt
        | ok nars ↦ λ _.
            Keeps-bind (R r key) (λ g _. latest g ≡ some nab) _ _
              (delete_restores_of nab.meta.name nars) _
              (delete_restores_of-Keeps (some nab)
                (event (Call.list_nar nab.meta.namespace) (ok nars) ∷ h) nab.meta.name nars
                c.same_name
                (λ nar m.
                  subst
                    (λ n.
                      Listed (restores_in n) nar
                        (event (Call.list_nar nab.meta.namespace) (ok nars) ∷ h))
                    c.same_namespace (nars, m, inl refl))
                c.last)
              (λ g _ e. record {
                last = e;
                same_name = c.same_name;
                same_namespace = c.same_namespace;
              })
      ],
    )

    -- The last step of the deletion on request, by the lookup of the Velero backup.
    request_or_release-Keeps :
        (h : History) (nab : NonAdminBackup) (uuid : String) (found : Option Backup)
        → IsCurrent r key h nab
        → (found ≡ none → FoundNone r key h)
        → Keeps
            (R r key)
            (λ _ _. Unit)
            h
            (elim found [
              | none ↦ remove_nab_finalizer_upon_velero_backup_deletion nab
              | some backup ↦ request_backup_deletion r nab backup uuid
            ])
    request_or_release-Keeps h nab uuid none c f =
        Keeps-mono (R r key) (Current r key) _ h
          (remove_nab_finalizer_upon_velero_backup_deletion nab)
          (remove-Keeps h nab (f refl) c.same_name c.same_namespace) (λ _ _ _. tt)
    request_or_release-Keeps h nab uuid (some backup) c f =
        Harmless-Keeps r key h _ (request_backup_deletion-Harmless r h nab backup uuid)

    -- The last step of the deletion through the API, by the lookup of the Velero backup.
    delete_or_release-Keeps :
        (h : History) (nab : NonAdminBackup) (found : Option Backup)
        → IsCurrent r key h nab
        → (found ≡ none → FoundNone r key h)
        → Keeps
            (R r key)
            (λ _ _. Unit)
            h
            (elim found [
              | some backup ↦ perform (Call.delete_backup backup) >> ret (nab, false)
              | none ↦ remove_nab_finalizer_upon_velero_backup_deletion nab
            ])
    delete_or_release-Keeps h nab none c f =
        Keeps-mono (R r key) (Current r key) _ h
          (remove_nab_finalizer_upon_velero_backup_deletion nab)
          (remove-Keeps h nab (f refl) c.same_name c.same_namespace) (λ _ _ _. tt)
    delete_or_release-Keeps h nab (some backup) c f =
        (tt, elim [ err _ ↦ λ _. tt | ok _ ↦ λ _. tt ])

    -- The lookup of the Velero backup, and what is done with its result.
    by_lookup-Keeps :
        {B : Type 0} (S : History → B → Type 0) (h : History) (nab : NonAdminBackup) (uuid : String)
        (f : Option Backup → Prog B)
        → IsCurrent r key h nab
        → ((g : History) (found : Option Backup)
            → IsCurrent r key g nab
            → (found ≡ none → FoundNone r key g)
            → Keeps (R r key) S g (f found))
        → Keeps (R r key) S h (get_velero_backup_by_label r.oadp_namespace uuid >>= f)
    by_lookup-Keeps S h nab uuid f c k =
        Keeps-bind (R r key) _ S h (get_velero_backup_by_label r.oadp_namespace uuid) f
          (get_velero_backup_by_label-Keeps r key h uuid)
          λ g found q.
            k g found
              (record {
                last = q.0 ∙ c.last;
                same_name = c.same_name;
                same_namespace = c.same_namespace;
              })
              q.1

    pub create_velero_delete_backup_request-Keeps :
        (h : History) (nab : NonAdminBackup)
        → IsCurrent r key h nab
        → Keeps (R r key) (λ _ _. Unit) h (create_velero_delete_backup_request r nab)
    unfolding create_velero_delete_backup_request
    create_velero_delete_backup_request-Keeps h nab c =
        Keeps-if (R r key) _ h (not (v.contains_finalizer nab.meta.finalizers nab_finalizer_name)) _
          _ (λ _. tt)
          λ _.
            Keeps-option (R r key) _ h (nacuuid_of nab.status.velero_backup) _ _ (λ _. tt)
              λ uuid _.
                by_lookup-Keeps _ h nab uuid _ c
                  (λ g found d f. request_or_release-Keeps g nab uuid found d f)

    pub delete_velero_backup_objects-Keeps :
        (h : History) (nab : NonAdminBackup)
        → IsCurrent r key h nab
        → Keeps (R r key) (λ _ _. Unit) h (delete_velero_backup_objects r nab)
    unfolding delete_velero_backup_objects
    delete_velero_backup_objects-Keeps h nab c =
        Keeps-option (R r key) _ h (nacuuid_of nab.status.velero_backup) _ _ (λ _. tt)
          λ uuid _.
            by_lookup-Keeps _ h nab uuid _ c
              (λ g found d f. delete_or_release-Keeps g nab found d f)

    delete_request-Keeps :
        (h : History) (nab : NonAdminBackup) (found : Option DeleteBackupRequest)
        → IsCurrent r key h nab
        → Keeps (R r key) (Current r key) h (elim found [
          | some request ↦ perform (Call.delete_delete_request request) >> ret (nab, false)
          | none ↦ ret (nab, false)
        ])
    delete_request-Keeps h nab none c = c
    delete_request-Keeps h nab (some request) c = (
      tt,
      elim [
        | err _ ↦ λ _. tt
        | ok _ ↦ λ _. record {
          last = c.last;
          same_name = c.same_name;
          same_namespace = c.same_namespace;
        }
      ],
    )

    pub delete_delete_backup_request_objects-Keeps :
        (h : History) (nab : NonAdminBackup)
        → IsCurrent r key h nab
        → Keeps (R r key) (Current r key) h (delete_delete_backup_request_objects r nab)
    unfolding delete_delete_backup_request_objects
    delete_delete_backup_request_objects-Keeps h nab c =
        Keeps-option (R r key) _ h (nacuuid_of nab.status.velero_backup) _ _ (λ _. c)
          λ uuid _.
            Quiet-first r key _ h nab
              (get_velero_delete_backup_request_by_label r.oadp_namespace uuid) _
              (get_velero_delete_backup_request_by_label-Quiet h r.oadp_namespace uuid) c
              (λ g found d. delete_request-Keeps g nab found d)
