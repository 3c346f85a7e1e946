-- ===== src/Restore/Safety/Creation.antt =====
-- The steps of the creation path from the UUID on: a Velero restore is made only behind a finalizer,
-- for the namespace of the request and no other.
use oadp_non_admin.Base.{
  ℕ, String, ◌≡◌, ◌≢◌, refl, arith, not, List, ◌++◌, if◌then◌else◌, sym, ap, ◌∙◌, subst, true,
  false, ◌==◌, Bool, Option, none, some, [], ◌∷◌, contains, inl,
}
use oadp_non_admin.Constant.{
  empty_string, nar_finalizer_name, wildcard_string, nar_origin_namespace_annotation,
  nar_origin_name_annotation, nar_origin_nacuuid_label,
}
use oadp_non_admin.Function.Metadata.{get_non_admin_restore_annotations, get_non_admin_labels}
use oadp_non_admin.Function.Entries.{value_at_head, value_at_next, not_equal, append_differs}
use oadp_non_admin.Function.Fields.{fill_text, fill_other}
use oadp_non_admin.Function.Lookup.{get_velero_restore_by_label}
use oadp_non_admin.Function.Names.{generate_nac_object_uuid}
use oadp_non_admin.Function.Queue.{get_restore_queue_info}
use oadp_non_admin.Kube.Objects.{
  NamespacedName, NonAdminPhase, NonAdminCondition, Restore, RestoreSpec,
}
use oadp_non_admin.Kube.Status.{NonAdminRestore, NonAdminRestoreStatus, VeleroRestore, QueueInfo}
use oadp_non_admin.Kube.Api.{
  Call, Selector, ok, err, ret, perform, ◌>>=◌, try, Result, success, failure, event, History,
}
use oadp_non_admin.Kube.Rules.{Keeps, Keeps-bind, Keeps-if, Keeps-deref, Keeps-option}
use oadp_non_admin.Kube.Vendor.{Vendor, VendorLaws}
use oadp_non_admin.Backup.Status.{update_non_admin_phase}
use oadp_non_admin.Backup.Creation.{elements}
use oadp_non_admin.Restore.Steps.{
  RestoreReconciler, RestoreStep, restore_nacuuid_of, set_finalizer, report_missing_restore,
  set_uuid, velero_restore_spec, new_velero_restore, ensure_velero_restore,
  sync_with_velero_restore, create_velero_restore, update_restore_status_if,
  store_restore_queue_info, exclude_snapshot_classes, enforce_restore,
}
use oadp_non_admin.Restore.Safety.Defs.{
  latest_restore, IsIsolatedRestore, MapsAs, HoldsFinalizer, IsRequested, IsCurrentRestore,
}
use oadp_non_admin.Restore.Safety.Calls.{
  R, Reads-first, Reads-Keeps, Reads-try, generate_nac_object_uuid-Reads,
  get_restore_queue_info-Reads, get_velero_restore_by_label-Keeps, CurrentStep,
}
use oadp_non_admin.Restore.Safety.Steps.{update_restore_phase_and_condition-Keeps}

-- The exclusion of snapshot classes changes no field but the excluded resources.
exclude_snapshot_classes-keeps :
    {A : Type 0} (field : RestoreSpec → A) (s : RestoreSpec)
    → ((x : Option (List String)) → field (record s { excluded_resources = x }) ≡ field s)
    → field (exclude_snapshot_classes s) ≡ field s
unfolding exclude_snapshot_classes
exclude_snapshot_classes-keeps field s e =
    if_kept (not (contains (elements s.excluded_resources) wildcard_string))
  where
    if_kept :
        (b : Bool)
        → field (
            if b
            then record s {
              excluded_resources =
                  some (elements s.excluded_resources ++ ("volumesnapshotclasses" ∷ []));
            }
            else s)
          ≡ field s
    if_kept true = e _
    if_kept false = refl

store_restore_queue_info-meta :
    (nar : NonAdminRestore) (q : Result QueueInfo)
    → (store_restore_queue_info nar q).0.meta ≡ nar.meta
store_restore_queue_info-meta nar (success q) = refl
store_restore_queue_info-meta nar (failure e) = refl

fill_other-unset : (e c : ℕ) → c ≡ 0 → fill_other e c ≡ e
fill_other-unset e c z = rw z refl

fill_other-set : (e c : ℕ) → c ≢ 0 → fill_other e c ≡ c
fill_other-set e c z = ground arith

filled : (e c : String) → (c == empty_string) ≡ false → fill_text e c ≡ c
filled e c q = rw q refl

module _ ⦃v : Vendor⦄ (laws : VendorLaws v) (r : RestoreReconciler) (key : NamespacedName) where
  store_uuid-Keeps :
      (h : History) (nar : NonAdminRestore) (reference : VeleroRestore)
      → IsCurrentRestore r key h nar
      → Keeps (R r key) (CurrentStep r key) h (
          perform (
            Call.update_nar_status
              (record nar { status = record nar.status { velero_restore = some reference } }))
          >>= λ nar1. ret (nar1, Bool.false))
  store_uuid-Keeps h nar reference c = (
    c.requested,
    elim [
      | err _ ↦ λ _. tt
      | ok nar' ↦
          λ y. record { last = refl; requested = (y.0 ∙ c.requested.0, y.1 ∙ c.requested.1) }
    ],
  )

  pub set_uuid-Keeps :
      (h : History) (nar : NonAdminRestore)
      → IsCurrentRestore r key h nar
      → Keeps (R r key) (CurrentStep r key) h (set_uuid r nar)
  unfolding set_uuid
  set_uuid-Keeps h original c = (
    tt,
    elim [
      | err _ ↦ λ _. tt
      | ok nar ↦ λ y.
          let g =
            event
              (Call.get_nar
                (record { name = original.meta.name; namespace = original.meta.namespace }))
              (ok nar)
            ∷ h in
          let d : IsCurrentRestore r key g nar = record {
            last = refl;
            requested = (y.0 ∙ c.requested.0, y.1 ∙ c.requested.1);
          } in
          Keeps-option (R r key) _ g (restore_nacuuid_of nar.status.velero_restore) _ _
            (λ _.
              Reads-first r key _ g nar (generate_nac_object_uuid nar.meta.namespace nar.meta.name)
                _ (generate_nac_object_uuid-Reads g nar.meta.namespace nar.meta.name) d
                (λ g2 uuid d2. store_uuid-Keeps g2 nar _ d2))
            (λ _ _. d)
    ],
  )

  -- What holds behind the step that adds the finalizer.
  abbrev pub GuardedRestore : History → NonAdminRestore → Type 0
  GuardedRestore g nar =
      IsCurrentRestore r key g nar
      × (v.contains_finalizer nar.meta.finalizers nar_finalizer_name ≡ true)

  pub set_finalizer-Keeps :
      (h : History) (nar : NonAdminRestore)
      → IsCurrentRestore r key h nar
      → Keeps (R r key) (λ g s. GuardedRestore g s.0) h (set_finalizer nar)
  unfolding set_finalizer
  set_finalizer-Keeps h nar c =
      let contained = laws.contains-add nar.meta.finalizers nar_finalizer_name in
      Keeps-if (R r key) _ h (v.finalizer_added nar.meta.finalizers nar_finalizer_name) _ _
        (λ _. (
          (c.requested, inl contained),
          elim [
            | err _ ↦ λ _. tt
            | ok nar' ↦ λ y. (
              record { last = refl; requested = (y.0 ∙ c.requested.0, y.1 ∙ c.requested.1) },
              ap (λ fs. v.contains_finalizer fs nar_finalizer_name) y.2 ∙ contained,
            )
          ],
        ))
        (λ e. (c, laws.not_added nar.meta.finalizers nar_finalizer_name e))

  abbrev enforced_spec : NonAdminRestore → RestoreSpec → String → RestoreSpec
  enforced_spec nar user backup =
      enforce_restore r.enforced_restore_spec
        (record user { backup_name = backup; included_namespaces = some (nar.meta.namespace ∷ []) })

  new_velero_restore-IsIsolatedRestore :
      (nar : NonAdminRestore) (uuid : String) (user : RestoreSpec) (backup : String)
      → IsRequested r key nar.meta
      → IsIsolatedRestore r key
          (new_velero_restore r nar uuid (velero_restore_spec r nar user backup))
  unfolding get_non_admin_restore_annotations get_non_admin_labels enforce_restore
      new_velero_restore velero_restore_spec
  new_velero_restore-IsIsolatedRestore nar uuid user backup q = record {
    in_oadp = refl;
    covers =
        exclude_snapshot_classes-keeps (λ s. s.included_namespaces) (enforced_spec nar user backup)
          (λ _. refl)
        ∙ ap (λ x. some (x ∷ [])) q.1;
    origin_namespace =
        value_at_head nar_origin_namespace_annotation nar.meta.namespace
          ((nar_origin_name_annotation, nar.meta.name) ∷ [])
        ∙ q.1;
    origin_name =
        value_at_next nar_origin_namespace_annotation nar_origin_name_annotation nar.meta.namespace
          ((nar_origin_name_annotation, nar.meta.name) ∷ [])
          (not_equal _ _ (
            append_differs v.oadp_operator_label "-nar-origin-namespace" "-nar-origin-name"
              (λ e. cc e)))
        ∙ (value_at_head nar_origin_name_annotation nar.meta.name [] ∙ q.0);
    labelled = value_at_head nar_origin_nacuuid_label uuid get_non_admin_labels;
  }

  velero_restore_spec-backup :
      (nar : NonAdminRestore) (user : RestoreSpec) (backup : String)
      → (backup == empty_string) ≡ false
      → (velero_restore_spec r nar user backup).backup_name ≡ backup
  unfolding enforce_restore velero_restore_spec
  velero_restore_spec-backup nar user backup e =
      exclude_snapshot_classes-keeps (λ s. s.backup_name) (enforced_spec nar user backup)
        (λ _. refl)
      ∙ filled (r.enforced_restore_spec.backup_name) backup e

  velero_restore_spec-mapping :
      (nar : NonAdminRestore) (user : RestoreSpec) (backup : String)
      → (velero_restore_spec r nar user backup).namespace_mapping
        ≡ fill_other r.enforced_restore_spec.namespace_mapping user.namespace_mapping
  unfolding enforce_restore velero_restore_spec
  velero_restore_spec-mapping nar user backup =
      exclude_snapshot_classes-keeps (λ s. s.namespace_mapping) (enforced_spec nar user backup)
        (λ _. refl)

  new_velero_restore-MapsAs :
      (nar : NonAdminRestore) (uuid : String) (user : RestoreSpec) (backup : String)
      → nar.restore_spec ≡ some user
      → MapsAs r key
          (some nar)
          (new_velero_restore r nar uuid (velero_restore_spec r nar user backup))
  unfolding new_velero_restore
  new_velero_restore-MapsAs nar uuid user backup e = (
    user,
    e,
    (λ z.
        velero_restore_spec-mapping nar user backup
        ∙ fill_other-unset r.enforced_restore_spec.namespace_mapping user.namespace_mapping z),
    (λ z.
        velero_restore_spec-mapping nar user backup
        ∙ fill_other-set r.enforced_restore_spec.namespace_mapping user.namespace_mapping z),
  )

  report_missing_restore-Keeps :
      (h : History) (nar : NonAdminRestore)
      → IsCurrentRestore r key h nar
      → Keeps (R r key) (λ _ _. Unit) h (report_missing_restore nar)
  unfolding report_missing_restore
  report_missing_restore-Keeps h nar c =
      update_restore_phase_and_condition-Keeps laws r key _ h nar NonAdminPhase.backing_off _ _ c
        (λ _ _ _. tt)

  pub ensure_velero_restore-Keeps :
      (h : History) (nar : NonAdminRestore) (uuid : String) (found : Option Restore)
      → GuardedRestore h nar
      → Keeps (R r key) (λ _ _. Unit) h (ensure_velero_restore r nar uuid found)
  unfolding ensure_velero_restore
  ensure_velero_restore-Keeps h nar uuid (some restore) c = tt
  ensure_velero_restore-Keeps h nar uuid none c =
      Keeps-if (R r key) _ h
        (v.is_status_condition_true nar.status.conditions NonAdminCondition.queued) _ _
        (λ _. report_missing_restore-Keeps h nar c.0)
        λ _. Keeps-deref (R r key) _ h nar.restore_spec _ tt λ user spec. (
          tt,
          elim [
            | err _ ↦ λ _. tt
            | ok nab ↦ λ _. Keeps-deref (R r key) _ _ nab.status.velero_backup _ tt λ reference e. (
              (
                new_velero_restore-IsIsolatedRestore nar uuid user reference.name c.0.requested,
                subst
                    (λ o. MapsAs r key o (
                      new_velero_restore r nar uuid
                        (velero_restore_spec r nar user reference.name)))
                    (sym c.0.last) (new_velero_restore-MapsAs nar uuid user reference.name spec),
                subst (HoldsFinalizer r key) (sym c.0.last) c.1,
                (c.0.requested.1, reference, e, velero_restore_spec-backup nar user reference.name),
              ),
              elim [ err _ ↦ λ _. tt | ok _ ↦ λ _. tt ],
            )
          ],
        )

  write_status-Keeps :
      (h : History) (changed : Bool) (nar : NonAdminRestore) (status : NonAdminRestoreStatus)
      → IsRequested r key nar.meta
      → Keeps {A = RestoreStep}
          (R r key)
          (λ _ _. Unit)
          h
          (update_restore_status_if changed (record nar { status = status }) >>= λ nar1.
            ret (nar1, false))
  unfolding update_restore_status_if
  write_status-Keeps h true nar status q = (q, elim [ err _ ↦ λ _. tt | ok _ ↦ λ _. tt ])
  write_status-Keeps h false nar status q = tt

  abbrev selector : Restore → Selector
  selector restore = (v.restore_name_label, v.valid_name restore.meta.name) ∷ []

  sync_with_velero_restore-Keeps :
      (h : History) (nar : NonAdminRestore) (restore : Restore)
      → IsRequested r key nar.meta
      → Keeps (R r key) (λ _ _. Unit) h (sync_with_velero_restore r nar restore)
  unfolding sync_with_velero_restore update_non_admin_phase
  sync_with_velero_restore-Keeps h nar restore q =
      Keeps-bind (R r key) _ _ h (try (get_restore_queue_info r.oadp_namespace (some restore))) _
        (Reads-Keeps r key (latest_restore h) h _
          (Reads-try h _ (get_restore_queue_info-Reads h r.oadp_namespace (some restore))) refl)
        λ g result _. (
          tt,
          λ x _. (
            tt,
            λ y _.
                write_status-Keeps
                  (event (Call.list_data_downloads r.oadp_namespace (selector restore)) y
                    ∷ event (Call.list_pod_volume_restores r.oadp_namespace (selector restore)) x
                    ∷ g)
                  _ (store_restore_queue_info nar result).0 _
                  (subst (λ m. IsRequested r key m) (sym (store_restore_queue_info-meta nar result))
                    q),
          ),
        )

  pub create_velero_restore-Keeps :
      (h : History) (nar : NonAdminRestore)
      → GuardedRestore h nar
      → Keeps (R r key) (λ _ _. Unit) h (create_velero_restore r nar)
  unfolding create_velero_restore
  create_velero_restore-Keeps h nar c =
      Keeps-option (R r key) _ h (restore_nacuuid_of nar.status.velero_restore) _ _ (λ _. tt)
        λ uuid _.
          Keeps-bind (R r key) _ _ h (get_velero_restore_by_label r.oadp_namespace uuid) _
            (get_velero_restore_by_label-Keeps r key h uuid)
            λ g found q.
              Keeps-bind (R r key) _ _ g (ensure_velero_restore r nar uuid found) _
                (ensure_velero_restore-Keeps g nar uuid found
                  (record { last = q.0 ∙ c.0.last; requested = c.0.requested }, c.1))
                λ g2 restore _. sync_with_velero_restore-Keeps g2 nar restore c.0.requested
