-- ===== src/Backup/Safety/Calls.antt =====
-- The functions that the steps call, under the rules of the NonAdminBackup controller.
use oadp_non_admin.Base.{String, ◌≡◌, refl, ◌∙◌, Bool, true, false, Option, none, some, ◌∷◌}
use oadp_non_admin.Constant.{nab_origin_nacuuid_label}
use oadp_non_admin.Function.Lookup.{get_velero_backup_by_label}
use oadp_non_admin.Function.Steps.{at_most_one-Keeps, list_objects_by_label-Keeps}
use oadp_non_admin.Function.Quiet.{IsQuiet, Quiet}
use oadp_non_admin.Kube.Objects.{NamespacedName}
use oadp_non_admin.Kube.Status.{ApiError, Error, NonAdminBackup}
use oadp_non_admin.Kube.Api.{
  Call, Payload, Reply, ok, err, Prog, ret, fail, panic, call, ◌>>=◌, event, History,
}
use oadp_non_admin.Kube.Rules.{Rules, Keeps, Keeps-bind}
use oadp_non_admin.Kube.Vendor.{Vendor}
use oadp_non_admin.Backup.Deletion.{Reconciler, update_status_if, Step}
use oadp_non_admin.Backup.Safety.Defs.{latest, FoundNone, Allows, safety, IsCurrent}

module _ ⦃v : Vendor⦄ (r : Reconciler) (key : NamespacedName) where
  abbrev pub R : Rules
  R = safety r key

  abbrev pub free : (h : History) (e : Error) → R.errs h e
  free h e = tt

  -- A lookup changes nothing about the NonAdminBackup, and where it finds no backup, a list of the
  -- backups has just come back empty.
  pub get_velero_backup_by_label-Keeps :
      (h : History) (uuid : String)
      → Keeps R
          (λ g found. (latest g ≡ latest h) × (found ≡ none → FoundNone r key g))
          h
          (get_velero_backup_by_label r.oadp_namespace uuid)
  unfolding get_velero_backup_by_label
  get_velero_backup_by_label-Keeps h uuid =
      list_objects_by_label-Keeps R free _ h Call.list_backups r.oadp_namespace
        nab_origin_nacuuid_label uuid _ tt
        (λ xs.
          at_most_one-Keeps R free _ (event (Call.list_backups _ _) (ok xs) ∷ h) _ xs
            (λ e. (refl, λ _. rw e (refl, refl))) (λ x. (refl, λ e. cc)))

  -- A quiet call is allowed, and tells nothing new of the NonAdminBackup.
  quiet_call :
      (h : History) (c : Call) (x : Reply (Payload c))
      → IsQuiet c
      → Allows r key h c × (latest (event c x ∷ h) ≡ latest h)
  quiet_call h Call.new_uuid x q = (tt, refl)
  quiet_call h (Call.get_nab _) x q = absurd q
  quiet_call h (Call.get_nar _) x q = absurd q
  quiet_call h (Call.create_nab _) x q = absurd q
  quiet_call h (Call.update_nab _) x q = absurd q
  quiet_call h (Call.update_nab_status _) x q = absurd q
  quiet_call h (Call.create_backup _) x q = absurd q
  quiet_call h (Call.delete_nar _) x q = absurd q
  quiet_call h _ x q = (tt, refl)

  -- What a quiet program leaves as it was.
  pub Quiet-Keeps :
      {A : Type 0} (o : Option NonAdminBackup) (h : History) (m : Prog A)
      → Quiet h m
      → latest h ≡ o
      → Keeps R (λ g _. latest g ≡ o) h m
  Quiet-Keeps o h (ret a) q e = e
  Quiet-Keeps o h (fail x) q e = tt
  Quiet-Keeps o h panic q e = tt
  Quiet-Keeps o h (call c k) q e = (
    (quiet_call h c (err ApiError.other) q.0).0,
    λ x _. Quiet-Keeps o (event c x ∷ h) (k x) (q.1 x tt) ((quiet_call h c x q.0).1 ∙ e),
  )

  -- A step that runs a quiet program first, with the object in hand unchanged.
  pub Quiet-first :
      {A B : Type 0} (S : History → B → Type 0) (h : History) (nab : NonAdminBackup) (m : Prog A)
      (f : A → Prog B)
      → Quiet h m
      → IsCurrent r key h nab
      → ((g : History) (a : A) → IsCurrent r key g nab → Keeps R S g (f a))
      → Keeps R S h (m >>= f)
  Quiet-first S h nab m f q c k =
      Keeps-bind R (λ g _. latest g ≡ some nab) S h m f (Quiet-Keeps (some nab) h m q c.last)
        λ g a e.
          k g a (record { last = e; same_name = c.same_name; same_namespace = c.same_namespace })

  -- The result of a step is the object that the server last gave.
  abbrev pub Current : History → Step → Type 0
  Current g s = IsCurrent r key g s.0

  -- A write of the status keeps the name, so what comes back is the object in hand.
  pub update_status_if-Keeps :
      {B : Type 0} (S : History → B → Type 0) (h : History) (changed : Bool) (nab : NonAdminBackup)
      (f : NonAdminBackup → Prog B)
      → (changed ≡ false → latest h ≡ some nab)
      → nab.meta.name ≡ key.name
      → nab.meta.namespace ≡ key.namespace
      → ((g : History) (nab' : NonAdminBackup) → IsCurrent r key g nab' → Keeps R S g (f nab'))
      → Keeps R S h (update_status_if changed nab >>= f)
  unfolding update_status_if
  update_status_if-Keeps S h false nab f l n s k =
      k h nab (record { last = l refl; same_name = n; same_namespace = s })
  update_status_if-Keeps S h true nab f l n s k = (
    tt,
    elim [
      | err x ↦ λ _. tt
      | ok nab' ↦ λ y.
          k (event (Call.update_nab_status nab) (ok nab') ∷ h) nab'
            (record { last = refl; same_name = y.0 ∙ n; same_namespace = y.1 ∙ s })
    ],
  )
