-- ===== src/Collector/Orphans.antt =====
-- Each goroutine of the garbage collector keeps the rules up to its goal.
use oadp_non_admin.Base.{
  ◌≡◌, refl, inl, inr, Bool, true, false, not, none, List, [], ◌∷◌, All, Mem, mem-cons_self,
  mem-cons_of_mem, arith,
}
use oadp_non_admin.Function.Entries.{not-false}
use oadp_non_admin.Kube.Status.{ApiError, Error, NonAdminBackupStorageLocationRequest}
use oadp_non_admin.Kube.Api.{Call, ok, err, perform, ◌>>◌, event, History}
use oadp_non_admin.Kube.Rules.{Rules, Keeps, Keeps-mono, Keeps-if, Keeps-option}
use oadp_non_admin.Kube.Facts.{
  Includes, Includes-next, Keeps-stays, Listing, Answered, Listed, Listed-Stays,
}
use oadp_non_admin.Kube.Vendor.{Vendor}
use oadp_non_admin.Collector.Sweeps.{
  CollectorReconciler, Kind, delete_if_missing, delete_orphans, delete_requests, source_key,
  secret_kind, bsl_kind, backup_kind, restore_kind, collect_secrets, collect_bsls, collect_backups,
  collect_restores, collect_requests, goroutines,
}
use oadp_non_admin.Collector.Rules.{
  IsOrphan, IsSettled, IsSettled-Stays, Swept, IsUnneeded, IsServed, IsServed-Stays, IsRefusal,
  secrets, bsls, backups, restores, requests, AllowsCollector, collector_rules, Served, goals,
}
use oadp_non_admin.Collector.Turns.{AllSound}

not-true : (b : Bool) → not b ≡ true → b ≡ false
not-true b e = ground arith

refused : (h : History) (c : Call) (a : ApiError) → IsRefusal (event c (err a) ∷ h) (Error.api a)
refused h c a = (c, a, inl refl, refl)

module _ ⦃v : Vendor⦄ (r : CollectorReconciler) where
  abbrev R : Rules
  R = collector_rules r

  module _ {A : Type 0} (kind : Kind A) (l : Listing A)
      (readable : (h : History) (x : A) → AllowsCollector r h (kind.owner x))
      (deletable : (h : History) (x : A)
        → IsOrphan kind l x h
        → AllowsCollector r h (kind.delete x)) where
    abbrev AllSettled : List A → History → Type 0
    AllSettled xs h = All (λ x. IsSettled kind x h) xs

    -- One object that is settled, and the rest of the list behind it.
    settle_first :
        (h : History) (x : A) (xs : List A)
        → IsSettled kind x h
        → Keeps R (λ g _. AllSettled xs g) h (delete_orphans kind xs)
        → Keeps R (λ g _. AllSettled (x ∷ xs) g) h (delete_orphans kind xs)
    settle_first h x xs s k =
        Keeps-stays R (λ g _. AllSettled xs g) (λ g. IsSettled kind x g) (IsSettled-Stays kind x) h
          (delete_orphans kind xs) s k

    delete_orphans-Keeps :
        (h : History) (xs : List A)
        → ((x : A) → Mem x xs → Listed l x h)
        → Keeps R (λ g _. AllSettled xs g) h (delete_orphans kind xs)
    unfolding delete_orphans delete_if_missing
    delete_orphans-Keeps h [] f = tt
    delete_orphans-Keeps h (x ∷ xs) f =
        let later : (g : History) → Includes h g → (y : A) → Mem y xs → Listed l y g =
          λ g i y m. Listed-Stays l y h g i (f y (mem-cons_of_mem x m)) in
        let rest = delete_orphans kind xs in
        Keeps-if R _ h (not (kind.labelled x)) rest _
          (λ e.
            settle_first h x xs (λ a _. cc (a, not-true _ e))
              (delete_orphans-Keeps h xs (later h (λ P s. s))))
          λ e.
            Keeps-if R _ h (not (kind.annotated x)) rest _
              (λ d.
                settle_first h x xs (λ _ b. cc (b, not-true _ d))
                  (delete_orphans-Keeps h xs (later h (λ P s. s))))
              λ d. (
                readable h x,
                elim [
                  | ok y ↦ λ _.
                      let g = event (kind.owner x) (ok y) ∷ h in
                      settle_first g x xs (λ _ _. inl (inl (y, refl)))
                        (delete_orphans-Keeps g xs (later g (Includes-next _ h)))
                  | err ApiError.not_found ↦ λ _.
                      let g = event (kind.owner x) (err ApiError.not_found) ∷ h in
                      (
                        deletable g x (record {
                          listed = Listed-Stays l x h g (Includes-next _ h) (f x mem-cons_self);
                          labelled = not-false _ e;
                          annotated = not-false _ d;
                          missing = inl refl;
                        }),
                        elim [
                          | err a ↦ λ _. refused g (kind.delete x) a
                          | ok z ↦ λ _.
                              let k = event (kind.delete x) (ok z) ∷ g in
                              settle_first k x xs (λ _ _. inr (inl (z, refl)))
                                (delete_orphans-Keeps k xs (later k (λ P s. inr (inr s))))
                        ],
                      )
                  | err ApiError.conflict ↦ λ _. refused h (kind.owner x) ApiError.conflict
                  | err ApiError.other ↦ λ _. refused h (kind.owner x) ApiError.other
                ],
              )

    answered-Keeps :
        (h : History) (xs : List A)
        → let g = event l.list (ok (l.give xs)) ∷ h in
          Keeps R (λ k _. Swept kind l k) g (delete_orphans kind xs)
    answered-Keeps h xs =
        let g = event l.list (ok (l.give xs)) ∷ h in
        Keeps-mono R _ _ g (delete_orphans kind xs)
          (Keeps-stays R _ (Answered l xs) (λ f k i s. i _ s) g (delete_orphans kind xs) (inl refl)
            (delete_orphans-Keeps g xs (λ x m. (xs, m, inl refl))))
          (λ k _ q. (xs, q.0, q.1))

  secrets-Keeps :
      (h : History) → Keeps R (λ g _. Swept secret_kind (secrets r) g) h (collect_secrets r)
  unfolding collect_secrets
  secrets-Keeps h = (
    tt,
    elim [
      | err a ↦ λ _. refused h (secrets r).list a
      | ok xs ↦ λ _. answered-Keeps secret_kind (secrets r) (λ _ _. tt) (λ _ _ o. o) h xs
    ],
  )

  bsls-Keeps : (h : History) → Keeps R (λ g _. Swept bsl_kind (bsls r) g) h (collect_bsls r)
  unfolding collect_bsls
  bsls-Keeps h = (
    tt,
    elim [
      | err a ↦ λ _. refused h (bsls r).list a
      | ok xs ↦ λ _. answered-Keeps bsl_kind (bsls r) (λ _ _. tt) (λ _ _ o. o) h xs
    ],
  )

  backups-Keeps :
      (h : History) → Keeps R (λ g _. Swept backup_kind (backups r) g) h (collect_backups r)
  unfolding collect_backups
  backups-Keeps h = (
    tt,
    elim [
      | err a ↦ λ _. refused h (backups r).list a
      | ok xs ↦ λ _. answered-Keeps backup_kind (backups r) (λ _ _. tt) (λ _ _ o. o) h xs
    ],
  )

  restores-Keeps :
      (h : History) → Keeps R (λ g _. Swept restore_kind (restores r) g) h (collect_restores r)
  unfolding collect_restores
  restores-Keeps h = (
    tt,
    elim [
      | err a ↦ λ _. refused h (restores r).list a
      | ok xs ↦ λ _. answered-Keeps restore_kind (restores r) (λ _ _. tt) (λ _ _ o. o) h xs
    ],
  )

  abbrev AllServed : List NonAdminBackupStorageLocationRequest → History → Type 0
  AllServed qs h = All (λ q. IsServed r.require_approval_for_bsl q h) qs

  serve_first :
      (h : History) (q : NonAdminBackupStorageLocationRequest)
      (qs : List NonAdminBackupStorageLocationRequest)
      → IsServed r.require_approval_for_bsl q h
      → Keeps R (λ g _. AllServed qs g) h (delete_requests r.require_approval_for_bsl qs)
      → Keeps R (λ g _. AllServed (q ∷ qs) g) h (delete_requests r.require_approval_for_bsl qs)
  serve_first h q qs s k =
      Keeps-stays R (λ g _. AllServed qs g) (IsServed r.require_approval_for_bsl q)
        (IsServed-Stays r.require_approval_for_bsl q) h
        (delete_requests r.require_approval_for_bsl qs) s k

  -- The deletion of a request that is not needed, and the rest of the list behind it.
  delete_request-Keeps :
      (h : History) (q : NonAdminBackupStorageLocationRequest)
      (qs : List NonAdminBackupStorageLocationRequest)
      → Listed (requests r) q h
      → IsUnneeded r.require_approval_for_bsl q h
      → ((g : History)
          → Includes h g
          → Keeps R (λ k _. AllServed qs k) g (delete_requests r.require_approval_for_bsl qs))
      → Keeps R
          (λ k _. AllServed (q ∷ qs) k)
          h
          (perform (Call.delete_nabsl_request q) >> delete_requests r.require_approval_for_bsl qs)
  delete_request-Keeps h q qs l u f = (
    (l, u),
    elim [
      | err a ↦ λ _. refused h (Call.delete_nabsl_request q) a
      | ok z ↦ λ _.
          let g = event (Call.delete_nabsl_request q) (ok z) ∷ h in
          serve_first g q qs (inr (inl (z, refl))) (f g (Includes-next _ h))
    ],
  )

  delete_requests-Keeps :
      (h : History) (qs : List NonAdminBackupStorageLocationRequest)
      → ((q : NonAdminBackupStorageLocationRequest) → Mem q qs → Listed (requests r) q h)
      → Keeps R (λ g _. AllServed qs g) h (delete_requests r.require_approval_for_bsl qs)
  unfolding delete_requests delete_if_missing
  delete_requests-Keeps h [] f = tt
  delete_requests-Keeps h (q ∷ qs) f =
      let approval = r.require_approval_for_bsl in
      let rest : (g : History)
          → Includes h g
          → Keeps R (λ k _. AllServed qs k) g (delete_requests approval qs) =
        λ g i.
          delete_requests-Keeps g qs
            (λ p m. Listed-Stays (requests r) p h g i (f p (mem-cons_of_mem q m))) in
      Keeps-if R _ h (not approval)
        (perform (Call.delete_nabsl_request q) >> delete_requests approval qs) _
        (λ e. delete_request-Keeps h q qs (f q mem-cons_self) (inl (not-true _ e)) rest)
        λ e.
          Keeps-option R _ h (source_key q.source) _ _
            (λ d. delete_request-Keeps h q qs (f q mem-cons_self) (inr (inl d)) rest)
            λ key d. (
              tt,
              elim [
                | ok y ↦ λ _.
                    let g = event (Call.get_nabsl key) (ok y) ∷ h in
                    serve_first g q qs (inl (not-false _ e, key, d, inl (y, refl)))
                      (rest g (Includes-next _ h))
                | err ApiError.not_found ↦ λ _.
                    let g = event (Call.get_nabsl key) (err ApiError.not_found) ∷ h in
                    delete_request-Keeps g q qs
                      (Listed-Stays (requests r) q h g (Includes-next _ h) (f q mem-cons_self))
                      (inr (inr (key, d, inl refl))) (λ k i. rest k (λ P s. i P (inr s)))
                | err ApiError.conflict ↦ λ _. refused h (Call.get_nabsl key) ApiError.conflict
                | err ApiError.other ↦ λ _. refused h (Call.get_nabsl key) ApiError.other
              ],
            )

  requests-Keeps : (h : History) → Keeps R (λ g _. Served r g) h (collect_requests r)
  unfolding collect_requests
  requests-Keeps h = (
    tt,
    elim [
      | err a ↦ λ _. refused h (requests r).list a
      | ok qs ↦ λ _.
          let g = event (requests r).list (ok qs) ∷ h in
          let m = delete_requests r.require_approval_for_bsl qs in
          Keeps-mono R _ _ g m
            (Keeps-stays R _ (Answered (requests r) qs) (λ f k i s. i _ s) g m (inl refl)
              (delete_requests-Keeps g qs (λ q m. (qs, m, inl refl))))
            (λ k _ q. (qs, q.0, q.1))
    ],
  )

  pub goroutines-AllSound : (h : History) → AllSound R (goals r) h none (goroutines r)
  unfolding goroutines
  goroutines-AllSound h = (
    inl (secrets-Keeps h),
    (
      inl (bsls-Keeps h),
      (inl (backups-Keeps h), (inl (restores-Keeps h), (inl (requests-Keeps h), tt))),
    ),
  )
