-- ===== src/Function/Permission.antt =====
-- Which backup specs `ValidateBackupSpec` lets through.
use oadp_non_admin.Base.{
  ℕ, suc, String, ◌≡◌, refl, Bool, true, false, not, some, List, [], ◌∷◌, ◌==◌, if◌then◌else◌,
  eq_iff,
}
use oadp_non_admin.Constant.{empty_string}
use oadp_non_admin.Kube.Objects.{BackupSpec, FieldValue}
use oadp_non_admin.Kube.Status.{Error, NonAdminBackup}
use oadp_non_admin.Kube.Api.{
  Prog, ret, fail, panic, call, ◌>>=◌, event, History, Server, run, Outcome, returned, failed,
  panicked,
}
use oadp_non_admin.Kube.Rules.{
  Rules, Keeps, Keeps-bind, Keeps-deref, Keeps-if, Keeps-mono, Ends, run-Ends,
}
use oadp_non_admin.Kube.Vendor.{Vendor}
use oadp_non_admin.Function.Fields.{Done, conflicts, check_enforced, backup_fields}
use oadp_non_admin.Function.Enforcement.{Fieldwise, Compatible}
use oadp_non_admin.Function.Validate.{
  namespaces_differ, is_set, is_true, is_nonempty, reject_if, validate_storage_location,
  validate_backup_spec,
}

-- What the administrator allows in the spec of a NonAdminBackup, less its storage location.
pub record IsPermitted (namespace : String) (enforced spec : BackupSpec) : Type 0 where
  pub own_namespace : namespaces_differ spec.included_namespaces namespace ≡ false
  pub none_excluded : is_set spec.excluded_namespaces ≡ false
  pub no_cluster_resources : is_true spec.include_cluster_resources ≡ false
  pub no_cluster_scoped : is_nonempty spec.included_cluster_scoped_resources ≡ false
  pub no_snapshot_locations : is_set spec.volume_snapshot_locations ≡ false
  pub as_enforced : Fieldwise Compatible (backup_fields enforced) (backup_fields spec)

-- Rules that forbid nothing, to state what holds of a program's results.
abbrev pub anything : Rules
anything = record { allows = λ _ _. Unit; lawful = λ _ _. Unit; errs = λ _ _. Unit; panics = Unit }

pub anything-Keeps : {A : Type 0} (h : History) (m : Prog A) → Keeps anything (λ _ _. Unit) h m
anything-Keeps h (ret a) = tt
anything-Keeps h (fail e) = tt
anything-Keeps h panic = tt
anything-Keeps h (call c k) = (tt, λ r _. anything-Keeps (event c r ∷ h) (k r))

-- A test that rejects, and what comes behind it.
pub passes :
    (Q : History → Done → Type 0) (h : History) (b : Bool) (e : Error) (rest : Prog Done)
    → (b ≡ false → Keeps anything Q h rest)
    → Keeps anything Q h (reject_if b e >>= λ _. rest)
passes Q h true e rest k = tt
passes Q h false e rest k = k refl

check_enforced-Keeps :
    (h : History) (i : ℕ) (es cs : List FieldValue)
    → Keeps anything (λ _ _. Fieldwise Compatible es cs) h (check_enforced i es cs)
unfolding check_enforced
check_enforced-Keeps h i (e ∷ es) (c ∷ cs) =
    Keeps-if anything _ h (conflicts e c) _ (check_enforced (suc i) es cs) (λ _. tt)
      (λ p.
        Keeps-mono anything _ _ h (check_enforced (suc i) es cs)
          (check_enforced-Keeps h (suc i) es cs) (λ _ _ q. (p, q)))
check_enforced-Keeps h i [] cs = tt
check_enforced-Keeps h i (e ∷ es) [] = tt

abbrev pub HasPermittedSpec : NonAdminBackup → BackupSpec → Type 0
HasPermittedSpec nab enforced =
    (spec : BackupSpec) × (nab.spec.backup_spec ≡ some spec)
    × IsPermitted nab.meta.namespace enforced spec

pub Ends_const :
    {A P : Type 0} (o : Outcome A × History) (a : A)
    → o.0 ≡ returned a
    → Ends anything (λ _ _. P) o
    → P
Ends_const (returned b, h) a e p = p.0
Ends_const (failed x, h) a e p = absurd (cc e)
Ends_const (panicked, h) a e p = absurd (cc e)

check_enforced_passes :
    (i : ℕ) (es cs : List FieldValue) → Fieldwise Compatible es cs → check_enforced i es cs ≡ ret tt
unfolding check_enforced
check_enforced_passes i (e ∷ es) (c ∷ cs) k = rw (k.0, check_enforced_passes (suc i) es cs k.1) refl
check_enforced_passes i [] cs k = refl
check_enforced_passes i (e ∷ es) [] k = refl

module _ ⦃v : Vendor⦄ where
  pub validate_backup_spec-Keeps :
      (h : History) (namespace : String) (nab : NonAdminBackup) (enforced : BackupSpec)
      → Keeps anything
          (λ _ _. HasPermittedSpec nab enforced)
          h
          (validate_backup_spec namespace nab enforced)
  unfolding validate_backup_spec
  validate_backup_spec-Keeps h namespace nab enforced =
      Keeps-deref anything _ h nab.spec.backup_spec _ tt λ spec e.
        let last = check_enforced 0 (backup_fields enforced) (backup_fields spec) in
        let snapshots =
          reject_if (is_set spec.volume_snapshot_locations)
            (Error.backup_field_restricted "spec.backupSpec.volumeSnapshotLocations")
          >>= λ _. last in
        let locate =
          if not (spec.storage_location == empty_string)
          then validate_storage_location namespace spec.storage_location nab.meta.namespace
          else ret tt in
        let location = locate >>= λ _. snapshots in
        let scoped =
          reject_if (is_nonempty spec.included_cluster_scoped_resources)
            (Error.backup_field_restricted "spec.backupSpec.includedScopedResources")
          >>= λ _. location in
        let cluster =
          reject_if (is_true spec.include_cluster_resources)
            (Error.backup_field_restricted "spec.backupSpec.includeClusterResources")
          >>= λ _. scoped in
        let excluded =
          reject_if (is_set spec.excluded_namespaces)
            (Error.backup_field_restricted "spec.backupSpec.excludedNamespaces")
          >>= λ _. cluster in
        passes _ h _ _ excluded λ a. passes _ h _ _ cluster λ b. passes _ h _ _ scoped λ c.
          passes _ h _ _ location λ d.
            Keeps-bind anything _ _ h locate _ (anything-Keeps h locate) λ g _ _.
              passes _ g _ _ last λ f.
                Keeps-mono anything _ _ g last (check_enforced-Keeps g 0 _ _) λ _ _ k. (
                  spec,
                  e,
                  record {
                    own_namespace = a;
                    none_excluded = b;
                    no_cluster_resources = c;
                    no_cluster_scoped = d;
                    no_snapshot_locations = f;
                    as_enforced = k;
                  },
                )

  -- In every run against any server, `ValidateBackupSpec` returns no error only where the
  -- NonAdminBackup has a backup spec, its included namespaces are at most its own namespace, it sets
  -- no excluded namespaces, no cluster resources, no included cluster-scoped resources and no volume
  -- snapshot locations, and no field differs from a non-zero enforced one unless it is zero.
  pub validate_backup_spec_permits :
      (s : Server) (namespace : String) (nab : NonAdminBackup) (enforced : BackupSpec)
      → (run s [] (validate_backup_spec namespace nab enforced)).0 ≡ returned tt
      → HasPermittedSpec nab enforced
  validate_backup_spec_permits s namespace nab enforced e =
      Ends_const (run s [] (validate_backup_spec namespace nab enforced)) tt e (
        run-Ends anything _ s [] (validate_backup_spec namespace nab enforced) (λ _ _. tt) tt
          (validate_backup_spec-Keeps [] namespace nab enforced))

  -- `ValidateBackupSpec` returns no error, and makes no call, for a NonAdminBackup whose spec is
  -- permitted (`IsPermitted`) and names no storage location.
  pub validate_backup_spec_accepts :
      (namespace : String) (nab : NonAdminBackup) (enforced spec : BackupSpec)
      → nab.spec.backup_spec ≡ some spec
      → IsPermitted nab.meta.namespace enforced spec
      → spec.storage_location ≡ ""
      → validate_backup_spec namespace nab enforced ≡ ret tt
  unfolding validate_backup_spec
  validate_backup_spec_accepts namespace nab enforced spec e p l =
      rw
        (
          e,
          p.own_namespace,
          p.none_excluded,
          p.no_cluster_resources,
          p.no_cluster_scoped,
          (eq_iff spec.storage_location "").1 l,
          p.no_snapshot_locations,
        )
        (check_enforced_passes 0 (backup_fields enforced) (backup_fields spec) p.as_enforced)
