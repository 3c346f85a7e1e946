-- ===== src/Function/Queue/Order.antt =====
-- The queue positions of the backups and restores that are not completed.
use oadp_non_admin.Base.{
  ℕ, suc, ◌+◌, ◌<◌, String, ◌≡◌, refl, ◌∙◌, Bool, true, false, ◌&&◌, Option, none, some, List, [],
  ◌∷◌, ◌++◌, ltb, nat_eq, length, keep, keep_mono_strictly, if◌then◌else◌, arith,
}
use oadp_non_admin.Kube.Objects.{Backup, Restore, Time}
use oadp_non_admin.Kube.Api.{Call, ret, perform, ◌>>=◌}
use oadp_non_admin.Function.Lookup.{is_nil}
use oadp_non_admin.Function.Queue.{
  position, count_backups_before, get_backup_queue_info, count_restores_before,
  get_restore_queue_info,
}

-- A backup that is not completed and was created before the given time.
abbrev pub is_ahead : Time → Backup → Bool
is_ahead target b = is_nil b.status.completion_timestamp && ltb b.meta.creation_timestamp target

abbrev pub is_restore_ahead : Time → Restore → Bool
is_restore_ahead target r =
    is_nil r.status.completion_timestamp && ltb r.meta.creation_timestamp target

-- One pass of the loop, against the element kept or left out.
counted :
    {A : Type 0} (o : Option Time) (n : ℕ) (b : Bool) (x : A) (xs : List A)
    → elim o [ some _ ↦ n | none ↦ if b then suc n else n ] + length xs
      ≡ n + length (if is_nil o && b then x ∷ xs else xs)
counted (some t) n b x xs = refl
counted none n true x xs = omega arith
counted none n false x xs = refl

count_backups_before-keep :
    (target : Time) (bs : List Backup) (n : ℕ)
    → count_backups_before target n bs ≡ n + length (keep (is_ahead target) bs)
unfolding count_backups_before
count_backups_before-keep target [] n = omega arith
count_backups_before-keep target (b ∷ bs) n =
    count_backups_before-keep target bs _
    ∙ counted b.status.completion_timestamp n (ltb b.meta.creation_timestamp target) b _

count_restores_before-keep :
    (target : Time) (rs : List Restore) (n : ℕ)
    → count_restores_before target n rs ≡ n + length (keep (is_restore_ahead target) rs)
unfolding count_restores_before
count_restores_before-keep target [] n = omega arith
count_restores_before-keep target (r ∷ rs) n =
    count_restores_before-keep target rs _
    ∙ counted r.status.completion_timestamp n (ltb r.meta.creation_timestamp target) r _

-- For a backup that has a creation time and is not completed, `GetBackupQueueInfo` lists all
-- backups of the namespace, returns the list call's error, and otherwise the position one after the
-- number of listed backups that are not completed and were created before it.
pub get_backup_queue_info_counts :
    (namespace : String) (b : Backup)
    → nat_eq b.meta.creation_timestamp 0 ≡ false
    → b.status.completion_timestamp ≡ none
    → get_backup_queue_info namespace (some b) ≡ (
        perform (Call.list_backups namespace []) >>= λ items.
        ret (position (1 + length (keep (is_ahead b.meta.creation_timestamp) items))))
unfolding get_backup_queue_info
get_backup_queue_info_counts namespace b e f =
    rw (e, f)
      (λ i. perform (Call.list_backups namespace []) >>= λ items.
        ret (position (count_backups_before-keep b.meta.creation_timestamp items 1 i)))

-- For a restore that has a creation time and is not completed, `GetRestoreQueueInfo` lists all
-- restores of the namespace, returns the list call's error, and otherwise the position one after
-- the number of listed restores that are not completed and were created before it.
pub get_restore_queue_info_counts :
    (namespace : String) (r : Restore)
    → nat_eq r.meta.creation_timestamp 0 ≡ false
    → r.status.completion_timestamp ≡ none
    → get_restore_queue_info namespace (some r) ≡ (
        perform (Call.list_restores namespace []) >>= λ items.
        ret (position (1 + length (keep (is_restore_ahead r.meta.creation_timestamp) items))))
unfolding get_restore_queue_info
get_restore_queue_info_counts namespace r e f =
    rw (e, f)
      (λ i. perform (Call.list_restores namespace []) >>= λ items.
        ret (position (count_restores_before-keep r.meta.creation_timestamp items 1 i)))

later_ahead :
    (target later : Time) (o : Option Time) (t : Time)
    → target < later
    → (is_nil o && ltb t target) ≡ true
    → (is_nil o && ltb t later) ≡ true
later_ahead target later none t h e = ground arith
later_ahead target later (some _) t h e = e

not_before_itself : (t : Time) → ltb t t ≡ false
not_before_itself t = ground arith

before_later : (t later : Time) → t < later → ltb t later ≡ true
before_later t later h = ground arith

itself_behind : (o : Option Time) (t : Time) → (is_nil o && ltb t t) ≡ false
itself_behind none t = not_before_itself t
itself_behind (some _) t = refl

ahead_of_later :
    (o : Option Time) (t later : Time) → o ≡ none → t < later → (is_nil o && ltb t later) ≡ true
ahead_of_later o t later e h = rw e (before_later t later h)

-- In one list, the creation time of a listed backup that is not completed has a strictly smaller
-- position than every later time.
pub count_backups_before_increases :
    (b : Backup) (later : Time) (before after : List Backup)
    → b.status.completion_timestamp ≡ none
    → b.meta.creation_timestamp < later
    → count_backups_before b.meta.creation_timestamp 1 (before ++ (b ∷ after))
      < count_backups_before later 1 (before ++ (b ∷ after))
count_backups_before_increases b later before after e h =
    let t = b.meta.creation_timestamp in
    let l = before ++ (b ∷ after) in
    let fewer =
      keep_mono_strictly (is_ahead t) (is_ahead later)
        (λ x. later_ahead t later x.status.completion_timestamp x.meta.creation_timestamp h) before
        after b (itself_behind b.status.completion_timestamp t)
        (ahead_of_later b.status.completion_timestamp t later e h) in
    let p = count_backups_before-keep t l 1 in
    let q = count_backups_before-keep later l 1 in omega arith
