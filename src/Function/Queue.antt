-- ===== src/Function/Queue.antt =====
-- internal/common/function/function.go: `GetBackupQueueInfo` and `GetRestoreQueueInfo`.
pub mod Order
use oadp_non_admin.Base.{
  ℕ, suc, String, Bool, Option, none, some, List, [], ◌∷◌, ltb, nat_eq, if◌then◌else◌,
}
use oadp_non_admin.Kube.Objects.{Backup, Restore, Time}
use oadp_non_admin.Kube.Status.{QueueInfo}
use oadp_non_admin.Kube.Api.{Call, Prog, ret, perform, ◌>>=◌}

abbrev pub position : ℕ → QueueInfo
position n = record { estimated_queue_position = n }

-- The loop over the listed backups, from the position so far.
unfoldable pub count_backups_before : Time → ℕ → List Backup → ℕ
count_backups_before target n [] = n
count_backups_before target n (b ∷ bs) =
    count_backups_before target
      (elim b.status.completion_timestamp [
        | some _ ↦ n
        | none ↦ if ltb b.meta.creation_timestamp target then suc n else n
      ])
      bs

unfoldable pub get_backup_queue_info : String → Option Backup → Prog QueueInfo
unfolding count_backups_before
get_backup_queue_info namespace none = ret (position 0)
get_backup_queue_info namespace (some target) =
    if nat_eq target.meta.creation_timestamp 0
    then ret (position 0)
    else elim target.status.completion_timestamp [
      | some _ ↦ ret (position 0)
      | none ↦ (do
        items ← perform (Call.list_backups namespace [])
        ret (position (count_backups_before target.meta.creation_timestamp 1 items)))
    ]

unfoldable pub count_restores_before : Time → ℕ → List Restore → ℕ
count_restores_before target n [] = n
count_restores_before target n (r ∷ rs) =
    count_restores_before target
      (elim r.status.completion_timestamp [
        | some _ ↦ n
        | none ↦ if ltb r.meta.creation_timestamp target then suc n else n
      ])
      rs

unfoldable pub get_restore_queue_info : String → Option Restore → Prog QueueInfo
unfolding count_restores_before
get_restore_queue_info namespace none = ret (position 0)
get_restore_queue_info namespace (some target) =
    if nat_eq target.meta.creation_timestamp 0
    then ret (position 0)
    else elim target.status.completion_timestamp [
      | some _ ↦ ret (position 0)
      | none ↦ (do
        items ← perform (Call.list_restores namespace [])
        ret (position (count_restores_before target.meta.creation_timestamp 1 items)))
    ]
