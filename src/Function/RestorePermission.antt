-- ===== src/Function/RestorePermission.antt =====
-- Which restore specs `ValidateRestoreSpec` lets through.
use oadp_non_admin.Base.{
  String, ◌≡◌, refl, true, false, not, Bool, some, ℕ, suc, List, [], ◌∷◌, len, ltb, nat_eq, ◌==◌,
}
use oadp_non_admin.Constant.{empty_string}
use oadp_non_admin.Kube.Objects.{RestoreSpec, FieldValue, NamespacedName, NonAdminPhase, phase_eq}
use oadp_non_admin.Kube.Status.{Error, NonAdminBackup, NonAdminRestore}
use oadp_non_admin.Kube.Api.{
  Call, ok, err, Prog, attempt, ◌>>=◌, event, History, Server, run, Outcome, returned, failed,
  panicked,
}
use oadp_non_admin.Kube.Rules.{Keeps, Keeps-mono, Keeps-if, Keeps-deref, Ends, run-Ends}
use oadp_non_admin.Function.Fields.{conflicts, check_enforced, restore_fields}
use oadp_non_admin.Function.Enforcement.{Fieldwise, Compatible}
use oadp_non_admin.Function.Validate.{is_set, reject_if, backup_found, validate_restore_spec}
use oadp_non_admin.Function.Permission.{anything, passes}

-- The last call looked up the NonAdminBackup of that name, and found it created.
abbrev pub FoundCreated : String → String → History → Type 0
FoundCreated name namespace (event (Call.get_nab key) (ok nab) ∷ h) =
    (key.name ≡ name)
    × (key.namespace ≡ namespace)
    × (phase_eq nab.status.phase NonAdminPhase.created ≡ true)
FoundCreated name namespace _ = ⊥

-- What the administrator allows in the spec of a NonAdminRestore.
pub record IsPermittedRestore (enforced spec : RestoreSpec) : Type 0 where
  pub no_schedule : ltb 0 (len spec.schedule_name) ≡ false
  pub names_backup : (spec.backup_name == "") ≡ false
  pub none_included : is_set spec.included_namespaces ≡ false
  pub none_excluded : is_set spec.excluded_namespaces ≡ false
  pub no_mapping : nat_eq spec.namespace_mapping 0 ≡ true
  pub as_enforced : Fieldwise Compatible (restore_fields enforced) (restore_fields spec)

abbrev pub Restorable : NonAdminRestore → RestoreSpec → History → Type 0
Restorable nar enforced h =
    (spec : RestoreSpec) × (nar.restore_spec ≡ some spec)
    × IsPermittedRestore enforced spec
    × FoundCreated spec.backup_name nar.meta.namespace h

double_negation : (b : Bool) → not b ≡ false → b ≡ true
double_negation true e = refl
double_negation false e = absurd (cc e)

-- The check of the enforced fields makes no call.
check_enforced_after :
    (P : History → Type 0) (h : History)
    → P h
    → (i : ℕ) (es cs : List FieldValue)
    → Keeps anything (λ g _. P g × Fieldwise Compatible es cs) h (check_enforced i es cs)
unfolding check_enforced
check_enforced_after P h p i (e ∷ es) (c ∷ cs) =
    Keeps-if anything _ h (conflicts e c) _ (check_enforced (suc i) es cs) (λ _. tt)
      (λ q.
        Keeps-mono anything _ _ h (check_enforced (suc i) es cs)
          (check_enforced_after P h p (suc i) es cs) (λ _ _ k. (k.0, (q, k.1))))
check_enforced_after P h p i [] cs = (p, tt)
check_enforced_after P h p i (e ∷ es) [] = (p, tt)

validate_restore_spec-Keeps :
    (h : History) (nar : NonAdminRestore) (enforced : RestoreSpec)
    → Keeps anything (λ g _. Restorable nar enforced g) h (validate_restore_spec nar enforced)
unfolding validate_restore_spec backup_found
validate_restore_spec-Keeps h nar enforced =
    Keeps-deref anything _ h nar.restore_spec _ tt λ spec e.
      let last = check_enforced 0 (restore_fields enforced) (restore_fields spec) in
      let mapping =
        reject_if (not (nat_eq spec.namespace_mapping 0))
          (Error.restore_field_restricted "nonAdminRestore.spec.restoreSpec.namespaceMapping")
        >>= λ _. last in
      let excluded =
        reject_if (is_set spec.excluded_namespaces)
          (Error.restore_field_restricted "nonAdminRestore.spec.restoreSpec.excludedNamespaces")
        >>= λ _. mapping in
      let included =
        reject_if (is_set spec.included_namespaces)
          (Error.restore_field_restricted "nonAdminRestore.spec.restoreSpec.includedNamespaces")
        >>= λ _. excluded in
      let ready : NonAdminBackup → Prog (Unit {0}) = λ nab.
        reject_if (not (phase_eq nab.status.phase NonAdminPhase.created)) Error.backup_not_ready
        >>= λ _. included in
      let key : NamespacedName = record {
        name = spec.backup_name;
        namespace = nar.meta.namespace;
      } in
      let found : History → Type 0 = FoundCreated spec.backup_name nar.meta.namespace in
      let named = attempt (Call.get_nab key) >>= backup_found >>= ready in
      let unnamed =
        reject_if (spec.backup_name == empty_string) Error.backup_name_unset >>= λ _. named in
      passes _ h _ _ unnamed λ a. passes _ h _ _ named λ b. (
        tt,
        elim [
          | err x ↦ λ _. tt
          | ok nab ↦ λ _.
              let g = event (Call.get_nab key) (ok nab) ∷ h in
              passes _ g _ _ included λ c. passes _ g _ _ excluded λ d. passes _ g _ _ mapping λ f.
                passes _ g _ _ last λ k.
                  Keeps-mono anything _ _ g last
                    (check_enforced_after found g (refl, refl, double_negation _ c) 0
                      (restore_fields enforced) (restore_fields spec))
                    λ g' _ l. (
                      spec,
                      e,
                      record {
                        no_schedule = a;
                        names_backup = b;
                        none_included = d;
                        none_excluded = f;
                        no_mapping = double_negation _ k;
                        as_enforced = l.1;
                      },
                      l.0,
                    )
        ],
      )

Ends_returned :
    {A : Type 0} (Q : History → Type 0) (o : Outcome A × History) (a : A)
    → o.0 ≡ returned a
    → Ends anything (λ h _. Q h) o
    → Q o.1
Ends_returned Q (returned b, h) a e p = p.0
Ends_returned Q (failed x, h) a e p = absurd (cc e)
Ends_returned Q (panicked, h) a e p = absurd (cc e)

-- In every run against any server, `ValidateRestoreSpec` returns no error only where the
-- NonAdminRestore has a restore spec with no schedule name, a backup name, no included or excluded
-- namespaces and no namespace mapping, no field of it differs from a non-zero enforced one unless it
-- is zero, and its last call found a NonAdminBackup of that name in its namespace that is created.
pub validate_restore_spec_permits :
    (s : Server) (nar : NonAdminRestore) (enforced : RestoreSpec)
    → (run s [] (validate_restore_spec nar enforced)).0 ≡ returned tt
    → Restorable nar enforced (run s [] (validate_restore_spec nar enforced)).1
validate_restore_spec_permits s nar enforced e =
    Ends_returned (Restorable nar enforced) (run s [] (validate_restore_spec nar enforced)) tt e (
      run-Ends anything _ s [] (validate_restore_spec nar enforced) (λ _ _. tt) tt
        (validate_restore_spec-Keeps [] nar enforced))
