-- ===== src/Restore/Exact.antt =====
-- What `updateNonAdminBackupPodVolumeRestoreStatus` of the restore controller computes.
use oadp_non_admin.Base.{
  ℕ, suc, ◌+◌, ◌≡◌, refl, sym, ◌∙◌, ap, Bool, true, false, some, List, [], ◌∷◌, ◌||◌, length, arith,
}
use oadp_non_admin.Kube.Objects.{PodVolumeRestore, PodVolumeRestorePhase}
use oadp_non_admin.Kube.Status.{NonAdminRestoreStatus, FileSystemPodVolumeRestores}
use oadp_non_admin.Backup.Status.{or_else}
use oadp_non_admin.Backup.Exact.{assign_value, unchanged}
use oadp_non_admin.Restore.Status.{
  zero_pod_volume_restores, count_pod_volume_restore, count_pod_volume_restores,
  update_pod_volume_restore_status,
}

abbrev is_phase : PodVolumeRestorePhase → PodVolumeRestorePhase → Bool
is_phase PodVolumeRestorePhase.unset PodVolumeRestorePhase.unset = true
is_phase PodVolumeRestorePhase.new PodVolumeRestorePhase.new = true
is_phase PodVolumeRestorePhase.in_progress PodVolumeRestorePhase.in_progress = true
is_phase PodVolumeRestorePhase.failed PodVolumeRestorePhase.failed = true
is_phase PodVolumeRestorePhase.completed PodVolumeRestorePhase.completed = true
is_phase _ _ = false

abbrev one_if : Bool → ℕ → ℕ
one_if true n = suc n
one_if false n = n

-- How many of the items are in a phase.
abbrev pub number_in : PodVolumeRestorePhase → List PodVolumeRestore → ℕ
number_in phase [] = 0
number_in phase (p ∷ ps) = one_if (is_phase p.phase phase) (number_in phase ps)

-- Counters that go up by the given numbers.
abbrev plus : FileSystemPodVolumeRestores → (n i f d : ℕ) → FileSystemPodVolumeRestores
plus c n i f d = record {
  total = c.total;
  new = c.new + n;
  in_progress = c.in_progress + i;
  failed = c.failed + f;
  completed = c.completed + d;
}

shift : (m n : ℕ) → suc m + n ≡ m + suc n
shift m n = omega arith

counted_one :
    (q : PodVolumeRestorePhase) (c : FileSystemPodVolumeRestores) (n i f d : ℕ)
    → plus (count_pod_volume_restore q c) n i f d
      ≡ plus c
          (one_if (is_phase q PodVolumeRestorePhase.new) n)
          (one_if (is_phase q PodVolumeRestorePhase.in_progress) i)
          (one_if (is_phase q PodVolumeRestorePhase.failed) f)
          (one_if (is_phase q PodVolumeRestorePhase.completed) d)
counted_one PodVolumeRestorePhase.unset c n i f d = refl
counted_one PodVolumeRestorePhase.new c n i f d =
    λ j. record (plus c n i f d) { new = shift c.new n j }
counted_one PodVolumeRestorePhase.in_progress c n i f d =
    λ j. record (plus c n i f d) { in_progress = shift c.in_progress i j }
counted_one PodVolumeRestorePhase.failed c n i f d =
    λ j. record (plus c n i f d) { failed = shift c.failed f j }
counted_one PodVolumeRestorePhase.completed c n i f d =
    λ j. record (plus c n i f d) { completed = shift c.completed d j }

nothing : (n : ℕ) → n ≡ n + 0
nothing n = omega arith

counted :
    (c : FileSystemPodVolumeRestores) (items : List PodVolumeRestore)
    → count_pod_volume_restores c items
      ≡ plus c
          (number_in PodVolumeRestorePhase.new items)
          (number_in PodVolumeRestorePhase.in_progress items)
          (number_in PodVolumeRestorePhase.failed items)
          (number_in PodVolumeRestorePhase.completed items)
unfolding count_pod_volume_restores
counted c [] = λ j. record {
  total = c.total;
  new = nothing c.new j;
  in_progress = nothing c.in_progress j;
  failed = nothing c.failed j;
  completed = nothing c.completed j;
}
counted c (p ∷ ps) = counted (count_pod_volume_restore p.phase c) ps ∙ counted_one p.phase c _ _ _ _

-- The counters as they should be: how many items there are, and how many in each phase.
abbrev pub exact_pod_volume_restores : List PodVolumeRestore → FileSystemPodVolumeRestores
exact_pod_volume_restores items = record {
  total = length items;
  new = number_in PodVolumeRestorePhase.new items;
  in_progress = number_in PodVolumeRestorePhase.in_progress items;
  failed = number_in PodVolumeRestorePhase.failed items;
  completed = number_in PodVolumeRestorePhase.completed items;
}

from_zero : (n : ℕ) → 0 + n ≡ n
from_zero n = omega arith

-- The update from pod volume restores sets the total to the number of items and each counter to the
-- number of items in its phase, and leaves the rest of the status as it is.
pub update_pod_volume_restore_status_exact :
    (status : NonAdminRestoreStatus) (items : List PodVolumeRestore)
    → (update_pod_volume_restore_status status items).0
      ≡ record status { file_system_pod_volume_restores = some (exact_pod_volume_restores items) }
unfolding update_pod_volume_restore_status
update_pod_volume_restore_status_exact status items =
    let old = or_else status.file_system_pod_volume_restores zero_pod_volume_restores in
    let e = counted zero_pod_volume_restores items in
    λ i. record status {
      file_system_pod_volume_restores = some (record {
        total = assign_value old.total (length items) i;
        new = (assign_value old.new _ ∙ ap (λ c. c.new) e ∙ from_zero _) i;
        in_progress = (assign_value old.in_progress _ ∙ ap (λ c. c.in_progress) e ∙ from_zero _) i;
        failed = (assign_value old.failed _ ∙ ap (λ c. c.failed) e ∙ from_zero _) i;
        completed = (assign_value old.completed _ ∙ ap (λ c. c.completed) e ∙ from_zero _) i;
      });
    }

none_of :
    (a b c d e : Bool)
    → a ≡ false
    → b ≡ false
    → c ≡ false
    → d ≡ false
    → e ≡ false
    → (a || (b || (c || (d || e)))) ≡ false
none_of a b c d e p q r s t = rw (p, q, r, s, t) refl

settled :
    (status : NonAdminRestoreStatus) (items : List PodVolumeRestore)
    → (update_pod_volume_restore_status
        (record status { file_system_pod_volume_restores = some (exact_pod_volume_restores items) })
        items).1
      ≡ false
unfolding update_pod_volume_restore_status
settled status items =
    let e = counted zero_pod_volume_restores items in
    none_of _ _ _ _ _ (unchanged (length items) _ refl)
      (unchanged _ _ (sym (ap (λ c. c.new) e ∙ from_zero _)))
      (unchanged _ _ (sym (ap (λ c. c.in_progress) e ∙ from_zero _)))
      (unchanged _ _ (sym (ap (λ c. c.failed) e ∙ from_zero _)))
      (unchanged _ _ (sym (ap (λ c. c.completed) e ∙ from_zero _)))

-- A second update from the same pod volume restores reports no change.
pub update_pod_volume_restore_status_settles :
    (status : NonAdminRestoreStatus) (items : List PodVolumeRestore)
    → (update_pod_volume_restore_status (update_pod_volume_restore_status status items).0 items).1
      ≡ false
update_pod_volume_restore_status_settles status items =
    ap (λ s. (update_pod_volume_restore_status s items).1)
      (update_pod_volume_restore_status_exact status items)
    ∙ settled status items
