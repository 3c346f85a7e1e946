-- ===== src/Backup/Validation.antt =====
-- internal/controller/nonadminbackup_controller.go: what `validateSpec` lets through.
use oadp_non_admin.Base.{◌≡◌, [], ◌∷◌, false, true, Bool, ap, sym, ◌∙◌, subst, refl, String}
use oadp_non_admin.Kube.Objects.{NonAdminPhase, BackupSpec}
use oadp_non_admin.Kube.Status.{Error, Message, NonAdminBackup}
use oadp_non_admin.Kube.Api.{
  Call, Payload, Reply, ok, err, ret, fail, panic, call, event, returned, failed, panicked, Outcome,
  try, success, failure, History, Server, run, Prog, ◌>>=◌,
}
use oadp_non_admin.Kube.Rules.{Rules, Keeps, Keeps-bind, Keeps-try, Settles, run-Ends, Ends}
use oadp_non_admin.Kube.Vendor.{Vendor}
use oadp_non_admin.Function.Validate.{validate_backup_spec}
use oadp_non_admin.Function.Permission.{
  HasPermittedSpec, IsPermitted, anything, validate_backup_spec-Keeps,
}
use oadp_non_admin.Backup.Deletion.{Reconciler, Step, update_phase_and_condition, update_status_if}
use oadp_non_admin.Backup.Creation.{accepted_condition, accept_spec, reject_spec, validate_spec}

-- What the server's documentation says of an update of the status: it changes neither the spec nor
-- the namespace.
abbrev pub KeepsSpec : (c : Call) → Reply (Payload c) → Type 0
KeepsSpec (Call.update_nab_status sent) (ok nab) =
    (nab.spec ≡ sent.spec) × (nab.meta.namespace ≡ sent.meta.namespace)
KeepsSpec _ _ = Unit

abbrev keeping : Rules
keeping = record { allows = λ _ _. Unit; lawful = KeepsSpec; errs = λ _ _. Unit; panics = Unit }

keeping-anything :
    {A : Type 0} (Q : History → A → Type 0) (h : History) (m : Prog A)
    → Keeps anything Q h m
    → Keeps keeping Q h m
keeping-anything Q h (ret a) k = k
keeping-anything Q h (fail e) k = tt
keeping-anything Q h panic k = tt
keeping-anything Q h (call c f) k = (tt, λ r _. keeping-anything Q (event c r ∷ h) (f r) (k.1 r tt))

keeping-nothing : {A : Type 0} (h : History) (m : Prog A) → Keeps keeping (λ _ _. Unit) h m
keeping-nothing h (ret a) = tt
keeping-nothing h (fail e) = tt
keeping-nothing h panic = tt
keeping-nothing h (call c f) = (tt, λ r _. keeping-nothing (event c r ∷ h) (f r))

HasPermittedSpec-same :
    (nab nab' : NonAdminBackup) (enforced : BackupSpec)
    → nab'.spec ≡ nab.spec
    → nab'.meta.namespace ≡ nab.meta.namespace
    → HasPermittedSpec nab enforced
    → HasPermittedSpec nab' enforced
HasPermittedSpec-same nab nab' enforced e n (spec, q, p) = (
  spec,
  ap (λ s. s.backup_spec) e ∙ q,
  subst (λ (x : String). IsPermitted x enforced spec) (sym n) p,
)

module _ ⦃v : Vendor⦄ (r : Reconciler) where
  -- Both the object that the step was given and the one that it hands on have a permitted spec.
  abbrev BothPermitted : NonAdminBackup → Step → Type 0
  BothPermitted nab next =
      HasPermittedSpec nab r.enforced_backup_spec × HasPermittedSpec next.0 r.enforced_backup_spec

  -- The error path returns nothing, so nothing has to hold of what it returns.
  reject_spec-Keeps :
      (Q : History → Step → Type 0) (h : History) (nab : NonAdminBackup) (e : Error)
      → Keeps keeping Q h (reject_spec r nab e)
  unfolding reject_spec
  reject_spec-Keeps Q h nab e =
      let report =
        update_phase_and_condition nab NonAdminPhase.backing_off
          (accepted_condition false "InvalidBackupSpec" (Message.of_error e)) in
      let refuse : NonAdminBackup → Prog Step = λ _. fail (Error.terminal e) in
      Keeps-bind keeping (λ _ _. Unit) Q h report refuse (keeping-nothing h report) (λ _ _ _. tt)

  hand_on-Keeps :
      (h : History) (nab nab1 : NonAdminBackup) (changed : Bool)
      → nab1.spec ≡ nab.spec
      → nab1.meta.namespace ≡ nab.meta.namespace
      → HasPermittedSpec nab r.enforced_backup_spec
      → Keeps keeping
          (λ _ next. BothPermitted nab next)
          h
          (update_status_if changed nab1 >>= λ nab2. ret (nab2, false))
  unfolding update_status_if
  hand_on-Keeps h nab nab1 false e n p =
      (p, HasPermittedSpec-same nab nab1 r.enforced_backup_spec e n p)
  hand_on-Keeps h nab nab1 true e n p = (
    tt,
    elim [
      | err _ ↦ λ _. tt
      | ok nab2 ↦
          λ l. (p, HasPermittedSpec-same nab nab2 r.enforced_backup_spec (l.0 ∙ e) (l.1 ∙ n) p)
    ],
  )

  accept_spec-Keeps :
      (h : History) (nab : NonAdminBackup)
      → HasPermittedSpec nab r.enforced_backup_spec
      → Keeps keeping (λ _ next. BothPermitted nab next) h (accept_spec r nab)
  unfolding accept_spec
  accept_spec-Keeps h nab p = hand_on-Keeps h nab _ _ refl refl p

  validate_spec-Keeps :
      (h : History) (nab : NonAdminBackup)
      → Keeps keeping (λ _ next. BothPermitted nab next) h (validate_spec r nab)
  unfolding validate_spec
  validate_spec-Keeps h nab =
      let P = HasPermittedSpec nab r.enforced_backup_spec in
      let checked = validate_backup_spec r.oadp_namespace nab r.enforced_backup_spec in
      Keeps-bind keeping (Settles keeping (λ _ _. P) (λ _ _. Unit))
        (λ _ next. BothPermitted nab next) h (try checked) _
        (Keeps-try keeping (λ _ _. P) (λ _ _. Unit) h checked
          (keeping-anything (λ _ _. P) h checked
            (validate_backup_spec-Keeps h r.oadp_namespace nab r.enforced_backup_spec)))
        (λ g. elim [
          | success _ ↦ λ p. accept_spec-Keeps g nab p
          | failure e ↦ λ _. reject_spec-Keeps _ g nab e
        ])

  abbrev Handed : NonAdminBackup → Outcome Step → Type 0
  Handed nab (returned next) = BothPermitted nab next
  Handed nab _ = Unit

  returned-BothPermitted :
      (nab : NonAdminBackup) (o : Outcome Step × History) (next : Step)
      → o.0 ≡ returned next
      → Ends keeping (λ _ next. BothPermitted nab next) o
      → BothPermitted nab next
  returned-BothPermitted nab (returned b, h) next e p = subst (λ o. Handed nab o) e p.0
  returned-BothPermitted nab (failed x, h) next e p = absurd (cc e)
  returned-BothPermitted nab (panicked, h) next e p = absurd (cc e)

  -- In every run against a server that keeps spec and namespace when it updates a status, where the
  -- validation step of the reconcile loop hands on a NonAdminBackup to the next step, both the one
  -- that it was given and the one that it hands on have a permitted backup spec, in the sense of
  -- `validate_backup_spec_permits`.
  pub validate_spec_permits :
      (s : Server) (nab : NonAdminBackup) (next : Step)
      → ((g : History) (c : Call) → KeepsSpec c (s g c))
      → (run s [] (validate_spec r nab)).0 ≡ returned next
      → HasPermittedSpec nab r.enforced_backup_spec × HasPermittedSpec next.0 r.enforced_backup_spec
  validate_spec_permits s nab next lawful e =
      returned-BothPermitted nab (run s [] (validate_spec r nab)) next e
        (run-Ends keeping _ s [] (validate_spec r nab) lawful tt (validate_spec-Keeps [] nab))
