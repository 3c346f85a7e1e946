-- ===== src/Backup/Mirror.antt =====
-- internal/controller/nonadminbackup_controller.go: the copy of the Velero backup in the status.
use oadp_non_admin.Base.{
  ◌≡◌, refl, ap, ◌∙◌, Bool, true, false, ◌&&◌, some, holds-true, holds, and_true, if◌then◌else◌,
}
use oadp_non_admin.Kube.Objects.{
  Backup, BackupSpec, BackupStatus, BackupSpec-discrete, BackupStatus-discrete,
}
use oadp_non_admin.Kube.Status.{NonAdminBackupStatus}
use oadp_non_admin.Backup.Status.{
  or_else, zero_velero_backup, zero_backup_spec, zero_backup_status, same_backup_spec,
  same_backup_status, update_velero_backup_spec_status,
}

same_backup_spec-true : (a b : BackupSpec) → same_backup_spec a b ≡ true → a ≡ b
unfolding same_backup_spec
same_backup_spec-true a b e = holds-true (BackupSpec-discrete a b) e

same_backup_status-true : (a b : BackupStatus) → same_backup_status a b ≡ true → a ≡ b
unfolding same_backup_status
same_backup_status-true a b e = holds-true (BackupStatus-discrete a b) e

holds_of : {P : Type 0} (d : Dec P) → P → holds d ≡ true
holds_of (yes _) p = refl
holds_of (no f) p = absurd (f p)

-- The reference in the status with the spec and the status of the Velero backup.
abbrev pub mirrored : NonAdminBackupStatus → Backup → NonAdminBackupStatus
mirrored status backup = record status {
  velero_backup = some (record (or_else status.velero_backup zero_velero_backup) {
    spec = some backup.spec;
    status = some backup.status;
  });
}

either :
    {A : Type 0} (b : Bool) (x y z : A)
    → (b ≡ true → x ≡ z)
    → y ≡ z
    → (if◌then◌else◌ {A = A × Bool} b (x, false) (y, true)).0 ≡ z
either true x y z f e = f refl
either false x y z f e = e

unmoved :
    {A : Type 0} (b : Bool) (x y : A)
    → b ≡ true
    → (if◌then◌else◌ {A = A × Bool} b (x, false) (y, true)).1 ≡ false
unmoved b x y e = rw e refl

-- Called with a Velero backup, `updateNonAdminBackupVeleroBackupSpecStatus` leaves the backup's spec
-- and status in the reference, whether or not it reports a change, and the rest as it was.
pub update_velero_backup_spec_status_mirrors :
    (status : NonAdminBackupStatus) (backup : Backup)
    → (update_velero_backup_spec_status status (some backup)).0 ≡ mirrored status backup
unfolding update_velero_backup_spec_status
update_velero_backup_spec_status_mirrors status backup =
    let reference = or_else status.velero_backup zero_velero_backup in
    let spec = or_else reference.spec (zero_backup_spec backup.spec) in
    let current = or_else reference.status zero_backup_status in
    let a = same_backup_spec spec backup.spec in
    let b = same_backup_status current backup.status in
    either (a && b) _ (mirrored status backup) (mirrored status backup)
      (λ e i. record status {
        velero_backup = some (record reference {
          spec = some (same_backup_spec-true spec backup.spec (and_true a b e).0 i);
          status = some (same_backup_status-true current backup.status (and_true a b e).1 i);
        });
      })
      refl

mirrored_settles :
    (status : NonAdminBackupStatus) (backup : Backup)
    → (update_velero_backup_spec_status (mirrored status backup) (some backup)).1 ≡ false
unfolding update_velero_backup_spec_status same_backup_spec same_backup_status
mirrored_settles status backup =
    unmoved
      (same_backup_spec backup.spec backup.spec && same_backup_status backup.status backup.status) _
      _
      (rw
        (
          holds_of (BackupSpec-discrete backup.spec backup.spec) refl,
          holds_of (BackupStatus-discrete backup.status backup.status) refl,
        )
        refl)

-- A second `updateNonAdminBackupVeleroBackupSpecStatus` with the same backup reports no change.
pub update_velero_backup_spec_status_settles :
    (status : NonAdminBackupStatus) (backup : Backup)
    → (update_velero_backup_spec_status
        (update_velero_backup_spec_status status (some backup)).0
        (some backup)).1
      ≡ false
update_velero_backup_spec_status_settles status backup =
    ap (λ s. (update_velero_backup_spec_status s (some backup)).1)
      (update_velero_backup_spec_status_mirrors status backup)
    ∙ mirrored_settles status backup
