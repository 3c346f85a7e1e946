-- ===== src/Backup/Exact.antt =====
-- What the functions that update the status compute.
use oadp_non_admin.Base.{
  ℕ, suc, ◌+◌, ◌≡◌, refl, sym, ◌∙◌, ap, Bool, true, false, Option, some, List, [], ◌∷◌, nat_eq,
  ◌==◌, ◌||◌, length, keep, Bool-cases, inl, inr, arith, if◌then◌else◌, eq_refl, eq_iff, String,
}
use oadp_non_admin.Kube.Objects.{PodVolumeBackup, PodVolumeBackupPhase, NonAdminPhase, phase_eq}
use oadp_non_admin.Kube.Status.{NonAdminBackupStatus, FileSystemPodVolumeBackups}
use oadp_non_admin.Backup.Status.{
  assign, assign_uploader, or_else, zero_pod_volume_backups, PodVolumeBackupCounts,
  count_pod_volume_backup, count_pod_volume_backups, update_pod_volume_backup_status,
}

nat_eq-true : (m n : ℕ) → nat_eq m n ≡ true → m ≡ n
nat_eq-true m n e = ground arith

nat_eq_self : (n : ℕ) → nat_eq n n ≡ true
nat_eq_self n = ground arith

pub assign_value : (m n : ℕ) → (assign m n).0 ≡ n
assign_value m n = elim (Bool-cases (nat_eq m n)) [
  | inl e ↦ rw e (nat_eq-true m n e)
  | inr e ↦ rw e refl
]

assign_again : (m n : ℕ) → assign (assign m n).0 n ≡ (n, false)
assign_again m n = rw (assign_value m n, nat_eq_self n) refl

abbrev is_phase : PodVolumeBackupPhase → PodVolumeBackupPhase → Bool
is_phase PodVolumeBackupPhase.unset PodVolumeBackupPhase.unset = true
is_phase PodVolumeBackupPhase.new PodVolumeBackupPhase.new = true
is_phase PodVolumeBackupPhase.in_progress PodVolumeBackupPhase.in_progress = true
is_phase PodVolumeBackupPhase.failed PodVolumeBackupPhase.failed = true
is_phase PodVolumeBackupPhase.completed PodVolumeBackupPhase.completed = true
is_phase _ _ = false

-- How many of the items are in a phase.
abbrev pub number_in : PodVolumeBackupPhase → List PodVolumeBackup → ℕ
number_in phase items = length (keep (λ p. is_phase p.phase phase) items)

one_more :
    (n : ℕ) (b : Bool) (x : PodVolumeBackup) (xs : List PodVolumeBackup)
    → (if b then suc n else n) + length xs ≡ n + length (if b then x ∷ xs else xs)
one_more n true x xs = omega arith
one_more n false x xs = refl

-- A counter that goes up by one at each item in a phase holds the number of such items.
counted :
    (counter : PodVolumeBackupCounts → ℕ) (phase : PodVolumeBackupPhase)
    → ((p : PodVolumeBackupPhase) (c : PodVolumeBackupCounts)
        → counter (count_pod_volume_backup p c)
          ≡ (if is_phase p phase then suc (counter c) else counter c))
    → (c : PodVolumeBackupCounts) (items : List PodVolumeBackup)
    → counter (count_pod_volume_backups c items) ≡ counter c + number_in phase items
unfolding count_pod_volume_backups
counted counter phase step c [] = omega arith
counted counter phase step c (p ∷ ps) =
    counted counter phase step (count_pod_volume_backup p.phase c) ps
    ∙ ap (λ n. n + number_in phase ps) (step p.phase c)
    ∙ one_more (counter c) (is_phase p.phase phase) p _

abbrev no_counts : PodVolumeBackupCounts
no_counts = record { new = 0; in_progress = 0; failed = 0; completed = 0 }

abbrev exact_uploader : String → List PodVolumeBackup → String
exact_uploader current [] = current
exact_uploader current (p ∷ ps) = p.uploader_type

-- The counters as they should be: how many items there are, and how many in each phase.
abbrev pub exact_pod_volume_backups :
    Option FileSystemPodVolumeBackups → List PodVolumeBackup → FileSystemPodVolumeBackups
exact_pod_volume_backups old items = record {
  total = length items;
  new = number_in PodVolumeBackupPhase.new items;
  in_progress = number_in PodVolumeBackupPhase.in_progress items;
  failed = number_in PodVolumeBackupPhase.failed items;
  completed = number_in PodVolumeBackupPhase.completed items;
  uploader_type = exact_uploader (or_else old zero_pod_volume_backups).uploader_type items;
}

from_zero : (n : ℕ) → 0 + n ≡ n
from_zero n = omega arith

new_counted :
    (items : List PodVolumeBackup)
    → (count_pod_volume_backups no_counts items).new ≡ number_in PodVolumeBackupPhase.new items
new_counted items =
    counted (λ c. c.new) PodVolumeBackupPhase.new
      (elim [
        | PodVolumeBackupPhase.unset ↦ λ _. refl
        | PodVolumeBackupPhase.new ↦ λ _. refl
        | PodVolumeBackupPhase.in_progress ↦ λ _. refl
        | PodVolumeBackupPhase.failed ↦ λ _. refl
        | PodVolumeBackupPhase.completed ↦ λ _. refl
      ])
      no_counts items
    ∙ from_zero _

in_progress_counted :
    (items : List PodVolumeBackup)
    → (count_pod_volume_backups no_counts items).in_progress
      ≡ number_in PodVolumeBackupPhase.in_progress items
in_progress_counted items =
    counted (λ c. c.in_progress) PodVolumeBackupPhase.in_progress
      (elim [
        | PodVolumeBackupPhase.unset ↦ λ _. refl
        | PodVolumeBackupPhase.new ↦ λ _. refl
        | PodVolumeBackupPhase.in_progress ↦ λ _. refl
        | PodVolumeBackupPhase.failed ↦ λ _. refl
        | PodVolumeBackupPhase.completed ↦ λ _. refl
      ])
      no_counts items
    ∙ from_zero _

failed_counted :
    (items : List PodVolumeBackup)
    → (count_pod_volume_backups no_counts items).failed
      ≡ number_in PodVolumeBackupPhase.failed items
failed_counted items =
    counted (λ c. c.failed) PodVolumeBackupPhase.failed
      (elim [
        | PodVolumeBackupPhase.unset ↦ λ _. refl
        | PodVolumeBackupPhase.new ↦ λ _. refl
        | PodVolumeBackupPhase.in_progress ↦ λ _. refl
        | PodVolumeBackupPhase.failed ↦ λ _. refl
        | PodVolumeBackupPhase.completed ↦ λ _. refl
      ])
      no_counts items
    ∙ from_zero _

completed_counted :
    (items : List PodVolumeBackup)
    → (count_pod_volume_backups no_counts items).completed
      ≡ number_in PodVolumeBackupPhase.completed items
completed_counted items =
    counted (λ c. c.completed) PodVolumeBackupPhase.completed
      (elim [
        | PodVolumeBackupPhase.unset ↦ λ _. refl
        | PodVolumeBackupPhase.new ↦ λ _. refl
        | PodVolumeBackupPhase.in_progress ↦ λ _. refl
        | PodVolumeBackupPhase.failed ↦ λ _. refl
        | PodVolumeBackupPhase.completed ↦ λ _. refl
      ])
      no_counts items
    ∙ from_zero _

uploader_value :
    (current : String) (items : List PodVolumeBackup)
    → (assign_uploader current items).0 ≡ exact_uploader current items
uploader_value current [] = refl
uploader_value current (p ∷ ps) = elim (Bool-cases (current == p.uploader_type)) [
  | inl e ↦ rw e ((eq_iff current p.uploader_type).0 e)
  | inr e ↦ rw e refl
]

-- `updatePodVolumeBackupStatus` sets the total to the number of items, each counter to the number of
-- items in its phase, and the uploader type to that of the first item or leaves it where there is
-- none, and leaves the rest of the status as it is.
pub update_pod_volume_backup_status_exact :
    (status : NonAdminBackupStatus) (items : List PodVolumeBackup)
    → (update_pod_volume_backup_status status items).0 ≡ record status {
      file_system_pod_volume_backups =
          some (exact_pod_volume_backups status.file_system_pod_volume_backups items);
    }
unfolding update_pod_volume_backup_status
update_pod_volume_backup_status_exact status items =
    let old = or_else status.file_system_pod_volume_backups zero_pod_volume_backups in
    λ i. record status {
      file_system_pod_volume_backups = some (record {
        total = assign_value old.total (length items) i;
        new = (assign_value old.new _ ∙ new_counted items) i;
        in_progress = (assign_value old.in_progress _ ∙ in_progress_counted items) i;
        failed = (assign_value old.failed _ ∙ failed_counted items) i;
        completed = (assign_value old.completed _ ∙ completed_counted items) i;
        uploader_type = uploader_value old.uploader_type items i;
      });
    }

pub unchanged : (m n : ℕ) → m ≡ n → (assign m n).1 ≡ false
unchanged m n e = rw (e, nat_eq_self n) refl

uploader_unchanged :
    (current : String) (items : List PodVolumeBackup)
    → (assign_uploader (exact_uploader current items) items).1 ≡ false
uploader_unchanged current [] = refl
uploader_unchanged current (p ∷ ps) = rw (eq_refl p.uploader_type) refl

none_of :
    (a b c d e f : Bool)
    → a ≡ false
    → b ≡ false
    → c ≡ false
    → d ≡ false
    → e ≡ false
    → f ≡ false
    → (a || (b || (c || (d || (e || f))))) ≡ false
none_of a b c d e f p q r s t u = rw (p, q, r, s, t, u) refl

settled :
    (status : NonAdminBackupStatus) (items : List PodVolumeBackup)
    → (update_pod_volume_backup_status
        (record status {
          file_system_pod_volume_backups =
              some (exact_pod_volume_backups status.file_system_pod_volume_backups items);
        })
        items).1
      ≡ false
unfolding update_pod_volume_backup_status
settled status items =
    none_of _ _ _ _ _ _ (unchanged (length items) _ refl) (unchanged _ _ (sym (new_counted items)))
      (unchanged _ _ (sym (in_progress_counted items))) (unchanged _ _ (sym (failed_counted items)))
      (unchanged _ _ (sym (completed_counted items))) (uploader_unchanged _ items)

-- A second `updatePodVolumeBackupStatus` with the same items reports no change.
pub update_pod_volume_backup_status_settles :
    (status : NonAdminBackupStatus) (items : List PodVolumeBackup)
    → (update_pod_volume_backup_status (update_pod_volume_backup_status status items).0 items).1
      ≡ false
update_pod_volume_backup_status_settles status items =
    ap (λ s. (update_pod_volume_backup_status s items).1)
      (update_pod_volume_backup_status_exact status items)
    ∙ settled status items

phase_eq_self : (p : NonAdminPhase) → phase_eq p p ≡ true
phase_eq_self NonAdminPhase.unset = refl
phase_eq_self NonAdminPhase.new = refl
phase_eq_self NonAdminPhase.backing_off = refl
phase_eq_self NonAdminPhase.created = refl
phase_eq_self NonAdminPhase.deleting = refl
