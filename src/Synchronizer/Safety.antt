-- ===== src/Synchronizer/Safety.antt =====
-- What the synchronizer of internal/controller/nonadminbackupsynchronizer_controller.go creates.
use oadp_non_admin.Base.{
  String, ◌≡◌, refl, sym, ap, ◌∙◌, ◌⊎◌, inl, inr, true, and_true, none, some, Option, List, [], ◌∷◌,
  All, All-map, keep, keep-All, contains-All, lookup, lookup-All,
}
use oadp_non_admin.Constant.{nab_origin_nacuuid_label, empty_string}
use oadp_non_admin.Function.Metadata.{
  check_label_annotation_value_is_valid, check_velero_backup_annotations,
}
use oadp_non_admin.Kube.Objects.{Backup, BackupStorageLocation, StringMap}
use oadp_non_admin.Kube.Status.{ApiError}
use oadp_non_admin.Kube.Api.{Call, ok, err, ◌>>=◌, event, History, Server, run}
use oadp_non_admin.Kube.Rules.{Keeps, Keeps-bind, Ends, run-Ends}
use oadp_non_admin.Kube.Facts.{Stays, Answered, Includes, Includes-next, Keeps-stays, Listed}
use oadp_non_admin.Kube.Vendor.{Vendor}
use oadp_non_admin.Synchronizer.Steps.{
  SynchronizerReconciler, Watched, location_of, watch_storage_locations, is_possible, is_completed,
  backups_to_sync, synced_backup, create_backups, synchronize, nab_key,
}
use oadp_non_admin.Synchronizer.Rules.{
  bsls, backups, IsUnrelated, IsForeign, IsRelated, IsRelated-Stays, AllWatched, AllWatched-Stays,
  IsPossible, IsPossible-Stays, IsUnsynced, IsUnsynced-Stays, IsSyncOf, synchronizer_rules,
}
use oadp_non_admin.Synchronizer.Survey.{R, Settled, Settled-Stays, watch_storage_locations-Keeps}

module _ ⦃v : Vendor⦄ (r : SynchronizerReconciler) where
  is_possible-IsPossible :
      (h : History) (w : Watched) (b : Backup)
      → AllWatched r w h
      → Listed (backups r) b h
      → is_possible w.names b ≡ true
      → IsPossible r b h
  unfolding is_possible
  is_possible-IsPossible h w b a l e =
      let (e1, d1) = and_true (check_velero_backup_annotations b.meta) _ e in
      let (e2, d2) =
        and_true (check_label_annotation_value_is_valid b.meta.labels nab_origin_nacuuid_label) _
          d1 in
      let (e3, e4) = and_true (is_completed b.status.completion_timestamp) _ d2 in
      record {
        listed = l;
        annotated = e1;
        labelled = e2;
        completed = e3;
        watched = contains-All _ w.names b.spec.storage_location e4 a.0;
      }

  abbrev AllPossible : List Backup → History → Type 0
  AllPossible bs h = All (λ b. IsPossible r b h) bs

  abbrev AllUnsynced : List Backup → History → Type 0
  AllUnsynced bs h = All (λ b. IsUnsynced r b h) bs

  AllPossible-Stays : (bs : List Backup) → Stays (AllPossible bs)
  AllPossible-Stays bs h g i a = All-map _ _ bs (λ b. IsPossible-Stays r b h g i) a

  AllUnsynced-Stays : (bs : List Backup) → Stays (AllUnsynced bs)
  AllUnsynced-Stays bs h g i a = All-map _ _ bs (λ b. IsUnsynced-Stays r b h g i) a

  backups_to_sync-Keeps :
      (h : History) (bs : List Backup)
      → AllPossible bs h
      → Keeps (R r) (λ g missing. AllUnsynced missing g) h (backups_to_sync bs)
  unfolding backups_to_sync
  backups_to_sync-Keeps h [] a = tt
  backups_to_sync-Keeps h (b ∷ bs) a =
      let rest : (g : History)
          → Includes h g
          → Keeps (R r) (λ k missing. AllUnsynced missing k) g (backups_to_sync bs) =
        λ g i. backups_to_sync-Keeps g bs (AllPossible-Stays bs h g i a.1) in
      let namespace_call = Call.get_namespace (nab_key b.meta).namespace in
      let nab_call = Call.get_nab (nab_key b.meta) in
      (
        tt,
        elim [
          | ok x ↦ λ _.
              let g = event namespace_call (ok x) ∷ h in
              (
                tt,
                elim [
                  | ok y ↦ λ _. rest (event nab_call (ok y) ∷ g) (λ P s. inr (inr s))
                  | err ApiError.not_found ↦ λ _.
                      let k = event nab_call (err ApiError.not_found) ∷ g in
                      Keeps-bind (R r) _ _ k (backups_to_sync bs) _
                        (Keeps-stays (R r) _ (IsUnsynced r b) (IsUnsynced-Stays r b) k
                          (backups_to_sync bs)
                          (record {
                            possible = IsPossible-Stays r b h k (λ P s. inr (inr s)) a.0;
                            there = inr (inl (x, refl));
                            missing = inl refl;
                          })
                          (rest k (λ P s. inr (inr s))))
                        (λ k2 missing q. q)
                  | err ApiError.conflict ↦ λ _. tt
                  | err ApiError.other ↦ λ _. tt
                ],
              )
          | err ApiError.not_found ↦
              λ _. rest (event namespace_call (err ApiError.not_found) ∷ h) (Includes-next _ h)
          | err ApiError.conflict ↦ λ _. tt
          | err ApiError.other ↦ λ _. tt
        ],
      )

  abbrev AllRelated : StringMap → History → Type 0
  AllRelated m h = All (λ e. IsRelated r e.0 e.1 h) m

  -- What is known of all storage locations that were listed.
  abbrev AllSettled : StringMap → History → Type 0
  AllSettled m h =
      (items : List BackupStorageLocation) × Answered (bsls r) items h
      × All (λ bsl. Settled r m bsl h) items

  abbrev Known : StringMap → History → Type 0
  Known m h = AllRelated m h × AllSettled m h

  Known-Stays : (m : StringMap) → Stays (Known m)
  Known-Stays m h g i (a, (items, l, s)) = (
    All-map _ _ m (λ e. IsRelated-Stays r e.0 e.1 h g i) a,
    (items, i _ l, All-map _ _ items (λ bsl. Settled-Stays r m bsl h g i) s),
  )

  unrelated :
      (m : StringMap) (name : String) (bsl : BackupStorageLocation) (h : History)
      → lookup name m ≡ none
      → Settled r m bsl h
      → IsUnrelated r name bsl h
  unrelated m name bsl h e (inl f) = inl (λ q. f (ap (λ k. lookup k m) (sym q) ∙ e))
  unrelated m name bsl h e (inr s) = inr s

  -- The location of a lookup that has found an owner, or nothing.
  located :
      (related : StringMap) (name : String) (o : Option String)
      → lookup name related ≡ o
      → (h : History) → Known related h
      → ((location_of o ≡ empty_string) × IsForeign r name h) ⊎ IsRelated r name (location_of o) h
  located related name none e h (a, (items, l, s)) =
      inl (refl, (items, l, All-map _ _ items (λ bsl. unrelated related name bsl h e) s))
  located related name (some value) e h k =
      inr (lookup-All (λ n owner. IsRelated r n owner h) name value related e k.0)

  synced_backup-IsSyncOf :
      (h : History) (related : StringMap) (b : Backup)
      → Known related h
      → IsSyncOf r (synced_backup related b) b h
  unfolding synced_backup
  synced_backup-IsSyncOf h related b a = record {
    same_name = refl;
    same_namespace = refl;
    synced = refl;
    kept = refl;
    location = location_of (lookup b.spec.storage_location related);
    same_spec = refl;
    translated =
        located related b.spec.storage_location (lookup b.spec.storage_location related) refl h a;
  }

  create_backups-Keeps :
      (h : History) (related : StringMap) (bs : List Backup)
      → Known related h
      → AllUnsynced bs h
      → Keeps (R r) (λ _ _. Unit) h (create_backups related bs)
  unfolding create_backups
  create_backups-Keeps h related [] m a = tt
  create_backups-Keeps h related (b ∷ bs) m a = (
    (b, a.0, synced_backup-IsSyncOf h related b m),
    elim [
      | err x ↦ λ _. tt
      | ok y ↦ λ _.
          let g = event (Call.create_nab (synced_backup related b)) (ok y) ∷ h in
          create_backups-Keeps g related bs (Known-Stays related h g (Includes-next _ h) m)
            (AllUnsynced-Stays bs h g (Includes-next _ h) a.1)
    ],
  )

  -- The two loops over the listed backups.
  synchronize_listed :
      (h : History) (w : Watched) (bs : List Backup)
      → AllWatched r w h
      → AllSettled w.related h
      → let g = event (backups r).list (ok bs) ∷ h in
        Keeps
          (R r)
          (λ _ _. Unit)
          g
          (backups_to_sync (keep (is_possible w.names) bs) >>= λ missing.
            create_backups w.related missing)
  synchronize_listed h w bs a t =
      let g = event (backups r).list (ok bs) ∷ h in
      let b = AllWatched-Stays r w h g (Includes-next _ h) a in
      let m = backups_to_sync (keep (is_possible w.names) bs) in
      let k = Known-Stays w.related h g (Includes-next _ h) (a.1, t) in
      Keeps-bind (R r) _ _ g m _
        (Keeps-stays (R r) _ (Known w.related) (Known-Stays w.related) g m k (
          backups_to_sync-Keeps g (keep (is_possible w.names) bs) (
            keep-All _ (is_possible w.names) bs
              (λ x i e. is_possible-IsPossible g w x b (bs, i, inl refl) e))))
        (λ g1 missing q. create_backups-Keeps g1 w.related missing q.0 q.1)

  synchronize-Keeps : (h : History) → Keeps (R r) (λ _ _. Unit) h (synchronize r)
  unfolding synchronize
  synchronize-Keeps h = (
    tt,
    elim [
      | err x ↦ λ _. tt
      | ok items ↦ λ _.
          let g = event (bsls r).list (ok items) ∷ h in
          let w0 : Watched = record { names = []; related = [] } in
          let listed : History → Type 0 = Answered (bsls r) items in
          Keeps-bind (R r) _ _ g (watch_storage_locations items w0) _
            (Keeps-stays (R r) _ listed (λ h g i s. i _ s) g (watch_storage_locations items w0)
              (inl refl)
              (watch_storage_locations-Keeps r g items w0 (λ y m. (items, m, inl refl)) (tt, tt)))
            λ g1 w a. (
              tt,
              elim [
                | err x ↦ λ _. tt
                | ok bs ↦ λ _. synchronize_listed g1 w bs a.1.0 (items, a.0, a.1.2)
              ],
            )
    ],
  )

  -- In every run of the synchronizer's `Reconcile`, whatever the server answers, a NonAdminBackup is
  -- created only for a Velero backup that was listed by the labels in the OADP namespace, has its
  -- UUID label and origin annotations, is completed, and lies in a listed storage location that is
  -- a default one or whose NonAdminBackupStorageLocation was read; the namespace of the origin was
  -- read, and no NonAdminBackup of that name was there; it gets the name and namespace of the
  -- origin, the UUID as its sync label, no wish to be deleted, and the spec of the backup with the
  -- name of the NonAdminBackupStorageLocation as its storage location, or with none only where every
  -- listed storage location has another name, is not marked, or has a NonAdminBackupStorageLocation
  -- that was read and not found; no other call writes anything, and the run does not panic.
  pub synchronize-Ends :
      (s : Server) → Ends (synchronizer_rules r) (λ _ _. Unit) (run s [] (synchronize r))
  synchronize-Ends s =
      run-Ends (synchronizer_rules r) _ s [] (synchronize r) (λ _ _. tt) tt (synchronize-Keeps [])
