-- ===== src/Backup/Safety/Harmless.antt =====
-- The programs of the NonAdminBackup controller whose calls are under no rule: they neither create
-- a Velero backup, nor touch a finalizer, nor delete a NonAdminRestore.
use oadp_non_admin.Base.{String, Bool, true, false, Option, none, some, ◌∷◌, ◌||◌}
use oadp_non_admin.Function.Lookup.{get_velero_delete_backup_request_by_label}
use oadp_non_admin.Function.Queue.{get_backup_queue_info}
use oadp_non_admin.Function.Quiet.{
  IsQuiet, Quiet, Quiet-try, get_velero_delete_backup_request_by_label-Quiet,
  get_backup_queue_info-Quiet,
}
use oadp_non_admin.Kube.Objects.{NamespacedName, Backup, DeleteBackupRequest, NonAdminPhase}
use oadp_non_admin.Kube.Status.{Error, NonAdminBackup, Condition}
use oadp_non_admin.Kube.Api.{
  Call, ok, err, Prog, ret, fail, panic, call, ◌>>=◌, try, event, History,
}
use oadp_non_admin.Kube.Rules.{Rules, Keeps, Keeps-bind, Keeps-deref}
use oadp_non_admin.Kube.Vendor.{Vendor}
use oadp_non_admin.Backup.Status.{set_phase, set_condition}
use oadp_non_admin.Backup.Deletion.{
  Reconciler, update_status_if, update_phase_and_condition, ensure_delete_request,
  request_backup_deletion,
}
use oadp_non_admin.Backup.Creation.{
  report_missing_backup, missing_backup_error, reject_spec, sync_with_velero_backup,
}
use oadp_non_admin.Backup.Safety.Defs.{Allows, safety}

abbrev pub IsHarmless : Call → Type 0
IsHarmless (Call.create_backup _) = ⊥
IsHarmless (Call.update_nab _) = ⊥
IsHarmless (Call.delete_nar _) = ⊥
IsHarmless _ = Unit

abbrev pub harmless : Rules
harmless = record {
  allows = λ _ c. IsHarmless c;
  lawful = λ _ _. Unit;
  errs = λ _ _. Unit;
  panics = Unit;
}

abbrev pub Harmless : {A : Type 0} → History → Prog A → Type 0
Harmless h m = Keeps harmless (λ _ _. Unit) h m

IsHarmless-of_quiet : (c : Call) → IsQuiet c → IsHarmless c
IsHarmless-of_quiet (Call.create_backup _) q = q
IsHarmless-of_quiet (Call.update_nab _) q = q
IsHarmless-of_quiet (Call.delete_nar _) q = q
IsHarmless-of_quiet _ q = tt

pub Quiet-Harmless : {A : Type 0} (h : History) (m : Prog A) → Quiet h m → Harmless h m
Quiet-Harmless h (ret a) q = tt
Quiet-Harmless h (fail e) q = tt
Quiet-Harmless h panic q = tt
Quiet-Harmless h (call c k) q =
    (IsHarmless-of_quiet c q.0, λ x _. Quiet-Harmless (event c x ∷ h) (k x) (q.1 x tt))

module _ ⦃v : Vendor⦄ (r : Reconciler) (key : NamespacedName) where
  harmless_call : (h : History) (c : Call) → IsHarmless c → Allows r key h c
  harmless_call h (Call.create_backup _) q = absurd q
  harmless_call h (Call.update_nab _) q = absurd q
  harmless_call h (Call.delete_nar _) q = absurd q
  harmless_call h _ q = tt

  -- A harmless program keeps the rules.
  pub Harmless-Keeps :
      {A : Type 0} (h : History) (m : Prog A)
      → Harmless h m
      → Keeps (safety r key) (λ _ _. Unit) h m
  Harmless-Keeps h (ret a) q = tt
  Harmless-Keeps h (fail e) q = tt
  Harmless-Keeps h panic q = tt
  Harmless-Keeps h (call c k) q =
      (harmless_call h c q.0, λ x _. Harmless-Keeps (event c x ∷ h) (k x) (q.1 x tt))

pub update_status_if-Harmless :
    {B : Type 0} (h : History) (changed : Bool) (nab : NonAdminBackup) (f : NonAdminBackup → Prog B)
    → ((g : History) (nab' : NonAdminBackup) → Harmless g (f nab'))
    → Harmless h (update_status_if changed nab >>= f)
unfolding update_status_if
update_status_if-Harmless h false nab f k = k h nab
update_status_if-Harmless h true nab f k = (tt, elim [ err _ ↦ λ _. tt | ok x ↦ λ _. k _ x ])

module _ ⦃v : Vendor⦄ where
  pub fail_after_update-Harmless :
      {B : Type 0} (h : History) (nab : NonAdminBackup) (p : NonAdminPhase) (c : Condition)
      (f : NonAdminBackup → Prog B)
      → ((g : History) (nab' : NonAdminBackup) → Harmless g (f nab'))
      → Harmless h (update_phase_and_condition nab p c >>= f)
  unfolding update_phase_and_condition
  fail_after_update-Harmless h nab p c f k =
      update_status_if-Harmless h ((set_phase nab p).1 || (set_condition (set_phase nab p).0 c).1) _
        f k

  pub report_missing_backup-Harmless :
      (h : History) (nab : NonAdminBackup) → Harmless h (report_missing_backup nab)
  unfolding report_missing_backup
  report_missing_backup-Harmless h nab =
      Keeps-deref harmless (λ _ _. Unit) h (missing_backup_error nab) _ tt
        λ e _. fail_after_update-Harmless h nab NonAdminPhase.backing_off _ _ (λ _ _. tt)

  module _ (r : Reconciler) where
    pub reject_spec-Harmless :
        (h : History) (nab : NonAdminBackup) (e : Error) → Harmless h (reject_spec r nab e)
    unfolding reject_spec
    reject_spec-Harmless h nab e =
        fail_after_update-Harmless h nab NonAdminPhase.backing_off _ _ (λ _ _. tt)

    ensure_delete_request-Harmless :
        (h : History) (nab : NonAdminBackup) (backup : Backup) (uuid : String)
        (found : Option DeleteBackupRequest)
        → Harmless h (ensure_delete_request r nab backup uuid found)
    unfolding ensure_delete_request
    ensure_delete_request-Harmless h nab backup uuid (some x) = tt
    ensure_delete_request-Harmless h nab backup uuid none =
        (tt, elim [ err _ ↦ λ _. tt | ok _ ↦ λ _. tt ])

    pub request_backup_deletion-Harmless :
        (h : History) (nab : NonAdminBackup) (backup : Backup) (uuid : String)
        → Harmless h (request_backup_deletion r nab backup uuid)
    unfolding request_backup_deletion
    request_backup_deletion-Harmless h nab backup uuid =
        Keeps-bind harmless (λ _ _. Unit) (λ _ _. Unit) h
          (get_velero_delete_backup_request_by_label r.oadp_namespace uuid) _
          (Quiet-Harmless h _
            (get_velero_delete_backup_request_by_label-Quiet h r.oadp_namespace uuid))
          λ g found _.
            Keeps-bind harmless (λ _ _. Unit) (λ _ _. Unit) g
              (ensure_delete_request r nab backup uuid found) _
              (ensure_delete_request-Harmless g nab backup uuid found)
              λ g2 x _. update_status_if-Harmless g2 _ _ _ λ _ _. tt

    pub sync_with_velero_backup-Harmless :
        (h : History) (nab : NonAdminBackup) (backup : Backup)
        → Harmless h (sync_with_velero_backup r nab backup)
    unfolding sync_with_velero_backup
    sync_with_velero_backup-Harmless h nab backup =
        Keeps-bind harmless (λ _ _. Unit) (λ _ _. Unit) h
          (try (get_backup_queue_info r.oadp_namespace (some backup))) _
          (Quiet-Harmless h _
            (Quiet-try h _ (get_backup_queue_info-Quiet h r.oadp_namespace (some backup))))
          λ g q _. (tt, λ x _. (tt, λ y _. update_status_if-Harmless _ _ _ _ (λ _ _. tt)))
