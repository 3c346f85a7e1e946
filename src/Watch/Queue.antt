-- ===== src/Watch/Queue.antt =====
-- internal/handler/velerobackup_queue_handler.go: which requests the queue handler of Velero backups
-- adds.
use oadp_non_admin.Base.{keep, Bool, ◌≡◌, ◌≢◌, List, [], ◌∷◌, ◌⊎◌, not, if◌then◌else◌, All, Mem}
use oadp_non_admin.Kube.Objects.{NamespacedName, Backup}
use oadp_non_admin.Kube.Vendor.{Vendor}
use oadp_non_admin.Function.Lookup.{is_nil}
use oadp_non_admin.Function.Validate.{is_set}
use oadp_non_admin.Kube.Api.{Reply, Prog, ret, settle, try, success, failure, ◌>>=◌}
use oadp_non_admin.Watch.Events.{Object}
use oadp_non_admin.Watch.Handlers.{backup_origin, backup_queue_requests}

module _ ⦃v : Vendor⦄ where
  -- A request that goes first where the test holds.
  abbrev added : Bool → NamespacedName → List NamespacedName → List NamespacedName
  added t q qs = if t then q ∷ qs else qs

  -- The NonAdminBackups that the annotations of the backups name.
  abbrev pub origins : List Backup → List NamespacedName
  origins [] = []
  origins (b ∷ bs) = backup_origin b.meta ∷ origins bs

  -- The requests are for others than the event's, and for every other one of the backups.
  abbrev pub IsExact : NamespacedName → List Backup → List NamespacedName → Type 0
  IsExact changed backups requests =
      All (λ q. q ≢ changed) requests
      × All (λ q. Mem q (origins backups)) requests
      × All (λ b. (backup_origin b.meta ≡ changed) ⊎ Mem (backup_origin b.meta) requests) backups

  -- The backups of a list that have no completion time.
  abbrev pub active : List Backup → List Backup
  active backups = keep (λ b. not (is_set b.status.completion_timestamp)) backups

  -- What the queue handler does with the answer to its list call.
  abbrev handled : Object → Reply (List Backup) → Prog (List NamespacedName)
  handled x reply =
      try (settle reply >>= λ items. ret (keep (λ b. is_nil b.status.completion_timestamp) items))
      >>= λ result. elim result [
        | failure _ ↦ ret []
        | success backups ↦ ret (backup_queue_requests (backup_origin x.meta) backups)
      ]
