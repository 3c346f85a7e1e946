-- ===== src/Backup/Restores.antt =====
-- internal/controller/nonadminbackup_controller.go: which restores `deleteNonAdminRestores` deletes.
use oadp_non_admin.Base.{
  String, ◌≡◌, refl, ap, Bool, true, false, Option, none, some, List, [], ◌∷◌, ◌==◌, keep, All,
  if◌then◌else◌,
}
use oadp_non_admin.Kube.Objects.{RestoreSpec}
use oadp_non_admin.Kube.Status.{NonAdminRestore}
use oadp_non_admin.Kube.Api.{Call, Prog, ret, perform, deref, ◌>>=◌}
use oadp_non_admin.Function.Validate.{is_set}
use oadp_non_admin.Backup.Deletion.{delete_restores_of}

-- The spec names the backup.
abbrev pub names_backup : String → Option RestoreSpec → Bool
names_backup name none = false
names_backup name (some spec) = spec.backup_name == name

-- The given restores are deleted one by one, up to the first error.
abbrev pub delete_all : List NonAdminRestore → Prog (Unit {0})
delete_all [] = ret tt
delete_all (nar ∷ nars) = perform (Call.delete_nar nar) >>= λ _. delete_all nars

by_test :
    (b : Bool) (nar : NonAdminRestore) (nars : List NonAdminRestore) (rest : Prog (Unit {0}))
    → rest ≡ delete_all nars
    → (if b then perform (Call.delete_nar nar) >>= (λ _. rest) else rest)
      ≡ delete_all (if b then nar ∷ nars else nars)
by_test true nar nars rest e = ap (λ m. perform (Call.delete_nar nar) >>= λ _. m) e
by_test false nar nars rest e = e

by_spec :
    (o : Option RestoreSpec) (name : String) (nar : NonAdminRestore) (nars : List NonAdminRestore)
    (rest : Prog (Unit {0}))
    → is_set o ≡ true
    → rest ≡ delete_all nars
    → (deref o >>= λ spec.
        if spec.backup_name == name then perform (Call.delete_nar nar) >>= (λ _. rest) else rest)
      ≡ delete_all (if names_backup name o then nar ∷ nars else nars)
by_spec none name nar nars rest s e = absurd (cc s)
by_spec (some spec) name nar nars rest s e = by_test (spec.backup_name == name) nar nars rest e

-- Where every listed NonAdminRestore has a restore spec, the loop of `deleteNonAdminRestores` deletes
-- the restores whose spec names the backup, all of them and in their order up to the first error,
-- and makes no other call.
pub delete_restores_of-delete_all :
    (name : String) (nars : List NonAdminRestore)
    → All (λ nar. is_set nar.restore_spec ≡ true) nars
    → delete_restores_of name nars
      ≡ delete_all (keep (λ nar. names_backup name nar.restore_spec) nars)
unfolding delete_restores_of
delete_restores_of-delete_all name [] a = refl
delete_restores_of-delete_all name (nar ∷ nars) a =
    by_spec nar.restore_spec name nar (keep (λ n. names_backup name n.restore_spec) nars)
      (delete_restores_of name nars) a.0 (delete_restores_of-delete_all name nars a.1)
