-- ===== src/Backup/Safety/Creation.antt =====
-- The steps of the creation and sync paths keep the rules: a Velero backup is made only behind a
-- finalizer, for the namespace of the request and no other.
use oadp_non_admin.Base.{
  String, ◌≡◌, refl, sym, ap, ◌∙◌, subst, true, false, Option, none, some, [], ◌∷◌, ◌==◌, ◌||◌, not,
  inl, inr, lookup, Bool-cases,
}
use oadp_non_admin.Constant.{
  nab_finalizer_name, nab_origin_namespace_annotation, nab_origin_name_annotation, nab_sync_label,
  empty_string, nab_origin_nacuuid_label,
}
use oadp_non_admin.Function.Metadata.{
  get_non_admin_backup_annotations, get_non_admin_labels, check_label_annotation_value_is_valid,
  value_at,
}
use oadp_non_admin.Function.Entries.{
  not-false, value_at_head, value_at_next, not_equal, append_differs,
}
use oadp_non_admin.Function.Fields.{Done, enforce}
use oadp_non_admin.Function.Lookup.{get_velero_backup_by_label}
use oadp_non_admin.Function.Validate.{validate_backup_spec}
use oadp_non_admin.Function.Quiet.{
  quiet, Quiet, Quiet-try, validate_backup_spec-Quiet, generate_nac_object_uuid-Quiet,
}
use oadp_non_admin.Kube.Objects.{NamespacedName, Backup, BackupSpec, NonAdminPhase, phase_eq}
use oadp_non_admin.Kube.Status.{NonAdminBackup}
use oadp_non_admin.Kube.Api.{
  Call, ok, err, ret, try, Result, success, failure, perform, ◌>>=◌, event, History,
}
use oadp_non_admin.Kube.Rules.{Keeps, Keeps-bind, Keeps-if, Keeps-deref, Keeps-option}
use oadp_non_admin.Kube.Vendor.{Vendor, VendorLaws}
use oadp_non_admin.Backup.Status.{set_phase, set_condition, update_non_admin_phase}
use oadp_non_admin.Backup.Deletion.{Reconciler, nacuuid_of}
use oadp_non_admin.Backup.Creation.{
  init_nab_create, set_finalizer_on_non_admin_backup, accept_spec, reject_spec, validate_spec,
  choose_backup_uuid, set_backup_uuid_in_status, resolve_storage_location, velero_backup_spec,
  exclude_resources, new_velero_backup, ensure_velero_backup, create_velero_backup_and_sync,
  have_new_resource_filter_parameters,
}
use oadp_non_admin.Backup.Safety.Harmless.{
  Harmless-Keeps, report_missing_backup-Harmless, sync_with_velero_backup-Harmless,
}
use oadp_non_admin.Backup.Safety.Defs.{HasFinalizer, IsIsolated, IsCurrent}
use oadp_non_admin.Backup.Safety.Calls.{
  R, Current, Quiet-first, update_status_if-Keeps, get_velero_backup_by_label-Keeps,
}
use oadp_non_admin.Backup.Safety.Deletion.{
  set_phase_unchanged, set_condition_unchanged, update_phase_and_condition-Keeps,
}

module _ ⦃v : Vendor⦄ (laws : VendorLaws v) (r : Reconciler) (key : NamespacedName) where
  pub init_nab_create-Keeps :
      (h : History) (nab : NonAdminBackup)
      → IsCurrent r key h nab
      → Keeps (R r key) (Current r key) h (init_nab_create nab)
  unfolding init_nab_create update_non_admin_phase
  init_nab_create-Keeps h nab c =
      Keeps-if (R r key) _ h (not (phase_eq nab.status.phase NonAdminPhase.unset)) _ _ (λ _. c)
        λ _.
          update_status_if-Keeps r key _ h (set_phase nab NonAdminPhase.new).1 _ _
            (λ e. c.last ∙ ap some (sym (set_phase_unchanged nab NonAdminPhase.new e))) c.same_name
            c.same_namespace (λ g nab' d. d)

  accept_spec-Keeps :
      (h : History) (nab : NonAdminBackup)
      → IsCurrent r key h nab
      → Keeps (R r key) (Current r key) h (accept_spec r nab)
  unfolding accept_spec
  accept_spec-Keeps h nab c =
      update_status_if-Keeps r key _ h (set_condition nab _).1 _ _
        (λ e. c.last ∙ ap some (sym (set_condition_unchanged laws nab _ e))) c.same_name
        c.same_namespace (λ g nab' d. d)

  judge-Keeps :
      (h : History) (nab : NonAdminBackup) (result : Result Done)
      → IsCurrent r key h nab
      → Keeps
          (R r key)
          (Current r key)
          h
          (elim result [ success _ ↦ accept_spec r nab | failure e ↦ reject_spec r nab e ])
  unfolding reject_spec
  judge-Keeps h nab (success _) c = accept_spec-Keeps h nab c
  judge-Keeps h nab (failure e) c =
      update_phase_and_condition-Keeps laws r key _ h nab NonAdminPhase.backing_off _ _ c
        (λ _ _ _. tt)

  pub validate_spec-Keeps :
      (h : History) (nab : NonAdminBackup)
      → IsCurrent r key h nab
      → Keeps (R r key) (Current r key) h (validate_spec r nab)
  unfolding validate_spec
  validate_spec-Keeps h nab c =
      Quiet-first r key _ h nab
        (try (validate_backup_spec r.oadp_namespace nab r.enforced_backup_spec)) _
        (Quiet-try h _ (validate_backup_spec-Quiet h r.oadp_namespace nab r.enforced_backup_spec)) c
        (λ g result d. judge-Keeps g nab result d)

  choose_backup_uuid-Quiet :
      (h : History) (nab : NonAdminBackup) → Quiet h (choose_backup_uuid r nab)
  unfolding choose_backup_uuid
  choose_backup_uuid-Quiet h nab =
      Keeps-option quiet _ h (lookup nab_sync_label nab.meta.labels) _ _
        (λ _. generate_nac_object_uuid-Quiet h nab.meta.namespace nab.meta.name) (λ _ _. tt)

  store_uuid-Keeps :
      (h : History) (nab : NonAdminBackup) (uuid : String)
      → IsCurrent r key h nab
      → Keeps (R r key) (Current r key) h (
          perform (
            Call.update_nab_status (record nab {
              status = record nab.status {
                velero_backup = some (record {
                  spec = none;
                  status = none;
                  nacuuid = uuid;
                  name = uuid;
                  namespace = r.oadp_namespace;
                });
              };
            }))
          >>= λ nab1. ret (nab1, false))
  store_uuid-Keeps h nab uuid c = (
    tt,
    elim [
      | err _ ↦ λ _. tt
      | ok nab' ↦ λ y. record {
        last = refl;
        same_name = y.0 ∙ c.same_name;
        same_namespace = y.1 ∙ c.same_namespace;
      }
    ],
  )

  pub set_backup_uuid_in_status-Keeps :
      (h : History) (nab : NonAdminBackup)
      → IsCurrent r key h nab
      → Keeps (R r key) (Current r key) h (set_backup_uuid_in_status r nab)
  unfolding set_backup_uuid_in_status
  set_backup_uuid_in_status-Keeps h original c = (
    tt,
    elim [
      | err _ ↦ λ _. tt
      | ok nab ↦ λ y.
          let g =
            event
              (Call.get_nab
                (record { name = original.meta.name; namespace = original.meta.namespace }))
              (ok nab)
            ∷ h in
          let d : IsCurrent r key g nab = record {
            last = refl;
            same_name = y.0 ∙ c.same_name;
            same_namespace = y.1 ∙ c.same_namespace;
          } in
          Keeps-option (R r key) _ g (nacuuid_of nab.status.velero_backup) _ _
            (λ _.
              Quiet-first r key _ g nab (choose_backup_uuid r nab) _
                (choose_backup_uuid-Quiet g nab) d (λ g2 uuid d2. store_uuid-Keeps g2 nab uuid d2))
            (λ _ _. d)
    ],
  )

  -- What holds behind the step that adds the finalizer.
  abbrev pub Guarded : History → NonAdminBackup → Type 0
  Guarded g nab =
      IsCurrent r key g nab × (v.contains_finalizer nab.meta.finalizers nab_finalizer_name ≡ true)

  pub set_finalizer_on_non_admin_backup-Keeps :
      (h : History) (nab : NonAdminBackup)
      → IsCurrent r key h nab
      → Keeps (R r key) (λ g s. Guarded g s.0) h (set_finalizer_on_non_admin_backup nab)
  unfolding set_finalizer_on_non_admin_backup
  set_finalizer_on_non_admin_backup-Keeps h nab c =
      Keeps-if (R r key) _ h (not (v.contains_finalizer nab.meta.finalizers nab_finalizer_name)) _ _
        (λ _. (
          inl (laws.contains-add nab.meta.finalizers nab_finalizer_name),
          elim [
            | err _ ↦ λ _. tt
            | ok nab' ↦ λ y. (
              record {
                last = refl;
                same_name = y.0 ∙ c.same_name;
                same_namespace = y.1 ∙ c.same_namespace;
              },
              ap (λ fs. v.contains_finalizer fs nab_finalizer_name) y.2
                  ∙ laws.contains-add nab.meta.finalizers nab_finalizer_name,
            )
          ],
        ))
        (λ e. (c, not-false _ e))

  exclude_resources-included :
      (s : BackupSpec) → (exclude_resources s).included_namespaces ≡ s.included_namespaces
  unfolding exclude_resources
  exclude_resources-included s = elim (Bool-cases (have_new_resource_filter_parameters s)) [
    | inl e ↦ rw e
    | inr e ↦ rw e
  ]

  resolve_storage_location-Quiet :
      (h : History) (nab : NonAdminBackup) (location : String)
      → Quiet h (resolve_storage_location r nab location)
  unfolding resolve_storage_location
  resolve_storage_location-Quiet h nab location =
      Keeps-if quiet _ h (not (location == empty_string)) _ _
        (λ _. (
          tt,
          elim [
            | err _ ↦ λ _. tt
            | ok nabsl ↦ λ _. Keeps-deref quiet (λ _ _. Unit) _ nabsl.velero_bsl _ tt (λ _ _. tt)
          ],
        ))
        (λ _. tt)

  velero_backup_spec-Keeps :
      (h : History) (nab : NonAdminBackup)
      → Guarded h nab
      → Keeps
          (R r key)
          (λ g spec. Guarded g nab × (spec.included_namespaces ≡ some (nab.meta.namespace ∷ [])))
          h
          (velero_backup_spec r nab)
  unfolding velero_backup_spec
  velero_backup_spec-Keeps h nab c = Keeps-deref (R r key) _ h nab.spec.backup_spec _ tt λ user _.
      Quiet-first r key _ h nab
        (resolve_storage_location r nab (enforce r.enforced_backup_spec user).storage_location) _
        (resolve_storage_location-Quiet h nab
          (enforce r.enforced_backup_spec user).storage_location)
        c.0 (λ g location d. ((d, c.1), exclude_resources-included _))

  new_velero_backup-IsIsolated :
      (nab : NonAdminBackup) (uuid : String) (spec : BackupSpec)
      → nab.meta.name ≡ key.name
      → nab.meta.namespace ≡ key.namespace
      → spec.included_namespaces ≡ some (nab.meta.namespace ∷ [])
      → IsIsolated r key (new_velero_backup r nab uuid spec)
  unfolding get_non_admin_backup_annotations get_non_admin_labels
  new_velero_backup-IsIsolated nab uuid spec n s e = record {
    in_oadp = refl;
    covers = e ∙ ap (λ x. some (x ∷ [])) s;
    origin_namespace =
        value_at_head nab_origin_namespace_annotation nab.meta.namespace
          ((nab_origin_name_annotation, nab.meta.name) ∷ [])
        ∙ s;
    origin_name =
        value_at_next nab_origin_namespace_annotation nab_origin_name_annotation nab.meta.namespace
          ((nab_origin_name_annotation, nab.meta.name) ∷ [])
          (not_equal _ _ (
            append_differs v.oadp_operator_label "-nab-origin-namespace" "-nab-origin-name"
              (λ e. cc e)))
        ∙ (value_at_head nab_origin_name_annotation nab.meta.name [] ∙ n);
    labelled = value_at_head nab_origin_nacuuid_label uuid get_non_admin_labels;
  }

  pub ensure_velero_backup-Keeps :
      (h : History) (nab : NonAdminBackup) (uuid : String) (found : Option Backup)
      → Guarded h nab
      → Keeps (R r key) (λ _ _. Unit) h (ensure_velero_backup r nab uuid found)
  unfolding ensure_velero_backup
  ensure_velero_backup-Keeps h nab uuid (some backup) c =
      Keeps-if (R r key) _ h
        (not
          (value_at backup.meta.annotations nab_origin_namespace_annotation == nab.meta.namespace))
        _ _ (λ _. tt) (λ _. tt)
  ensure_velero_backup-Keeps h nab uuid none c =
      Keeps-if (R r key) _ h
        (check_label_annotation_value_is_valid nab.meta.labels nab_sync_label
          || phase_eq nab.status.phase NonAdminPhase.created)
        _ _ (λ _. Harmless-Keeps r key h _ (report_missing_backup-Harmless h nab))
        λ _.
          Keeps-bind (R r key) _ _ h (velero_backup_spec r nab) _ (velero_backup_spec-Keeps h nab c)
            λ g spec q. (
              (
                new_velero_backup-IsIsolated nab uuid spec c.0.same_name c.0.same_namespace q.1,
                subst (HasFinalizer r key) (sym q.0.0.last) c.1,
              ),
              elim [ err _ ↦ λ _. tt | ok _ ↦ λ _. tt ],
            )

  pub create_velero_backup_and_sync-Keeps :
      (h : History) (nab : NonAdminBackup)
      → Guarded h nab
      → Keeps (R r key) (λ _ _. Unit) h (create_velero_backup_and_sync r nab)
  unfolding create_velero_backup_and_sync
  create_velero_backup_and_sync-Keeps h nab c =
      Keeps-option (R r key) _ h (nacuuid_of nab.status.velero_backup) _ _ (λ _. tt)
        λ uuid _.
          Keeps-bind (R r key) _ _ h (get_velero_backup_by_label r.oadp_namespace uuid) _
            (get_velero_backup_by_label-Keeps r key h uuid)
            λ g found q.
              Keeps-bind (R r key) _ _ g (ensure_velero_backup r nab uuid found) _
                (ensure_velero_backup-Keeps g nab uuid found (
                  record {
                    last = q.0 ∙ c.0.last;
                    same_name = c.0.same_name;
                    same_namespace = c.0.same_namespace;
                  },
                  c.1,
                ))
                λ g2 backup _.
                  Harmless-Keeps r key g2 _ (sync_with_velero_backup-Harmless r g2 nab backup)
