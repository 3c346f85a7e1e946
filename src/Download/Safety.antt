-- ===== src/Download/Safety.antt =====
-- What the controller of internal/controller/nonadmindownloadrequest_controller.go writes.
use oadp_non_admin.Base.{
  String, ◌≡◌, refl, ap, ◌∙◌, ◌⊎◌, inl, inr, Bool, true, false, Bool-cases, and_true, some, [], ◌∷◌,
  ◌==◌, ◌&&◌, not, if◌then◌else◌, subst,
}
use oadp_non_admin.Constant.{
  nadr_origin_nacuuid_label, nadr_origin_name_annotation, nadr_origin_namespace_annotation,
  empty_string,
}
use oadp_non_admin.Function.Entries.{
  not-false, value_at_head, value_at_next, not_equal, append_differs,
}
use oadp_non_admin.Function.Metadata.{get_non_admin_labels}
use oadp_non_admin.Function.Validate.{is_set}
use oadp_non_admin.Kube.Objects.{NamespacedName, DownloadRequest, DownloadRequestStatus}
use oadp_non_admin.Kube.Status.{
  ApiError, NonAdminBackup, NonAdminDownloadRequest, DownloadConditionType,
}
use oadp_non_admin.Kube.Api.{Call, Reply, ok, err, Prog, ◌>>=◌, event, History, Server, run}
use oadp_non_admin.Kube.Rules.{
  Rules, Keeps, Keeps-bind, Keeps-if, Keeps-deref, Keeps-option, Obeys, Ends-Obeys, run-Ends,
}
use oadp_non_admin.Kube.Facts.{Saw}
use oadp_non_admin.Kube.Vendor.{Vendor}
use oadp_non_admin.Download.Steps.{
  DownloadReconciler, TargetOf, target_of, uses_nabsl, velero_backup_name, velero_restore_name,
  back_off, is_unset_kind, delete_expired_download_request, needed, update_nadr_with_url,
  with_target, request_download, request_for_backup, process_target, process_download_request,
  new_download_request, find_or_process, wait_or_find, look_at_status, reconcile_download,
}
use oadp_non_admin.Download.Rules.{
  LawfulDownload, Read, NamesTarget, IsBacked, IsDownloadOf, download_rules,
}

not-true : (b : Bool) → not b ≡ true → b ≡ false
not-true true e = absurd (cc e)
not-true false e = refl

module _ ⦃v : Vendor⦄ (r : DownloadReconciler) (req : NonAdminDownloadRequest) where
  abbrev R : Rules
  R = download_rules r req

  abbrev made : DownloadRequest
  made = new_download_request r req

  update_nadr_with_url-Keeps :
      (h : History) (dr : DownloadRequest)
      → Read
          (Call.get_download_request
            (record { name = made.meta.name; namespace = made.meta.namespace }))
          dr
          h
      → Keeps R (λ _ _. Unit) h (update_nadr_with_url dr req)
  unfolding update_nadr_with_url new_download_request
  update_nadr_with_url-Keeps h dr s =
      Keeps-if R _ h (not (dr.status.download_url == empty_string) && dr.status.processed) _ _
        (λ e.
          let (e1, e2) = and_true (not (dr.status.download_url == empty_string)) _ e in
          (
            tt,
            elim [
              | err _ ↦ λ _. tt
              | ok now ↦ λ _.
                  let g = event Call.now (ok now) ∷ h in
                  Keeps-if R _ g (v.time_before dr.status.expiration (some now)) _ _ (λ _. tt)
                    λ d. (
                      (
                        (refl, refl),
                        inr (record {
                          found = dr;
                          read = inr s;
                          same_status = refl;
                          processed = e2;
                          has_url = not-true _ e1;
                          not_expired = (now, inl refl, d);
                        }),
                      ),
                      elim [
                        | err _ ↦ λ _. tt
                        | ok req1 ↦ λ y. ((y, inl refl), elim [ err _ ↦ λ _. tt | ok _ ↦ λ _. tt ])
                      ],
                    )
            ],
          ))
        (λ _. tt)

  -- A Velero request that is the one of this request but for its target.
  abbrev IsMade : DownloadRequest → Type 0
  IsMade dr = (target : String) × (dr ≡ with_target made target)

  made-IsDownloadOf :
      (h : History) (target : String)
      → IsBacked r req target h
      → IsDownloadOf r req (with_target made target) h
  unfolding new_download_request get_non_admin_labels
  made-IsDownloadOf h target b = record {
    in_oadp = refl;
    named = refl;
    labelled = value_at_head nadr_origin_nacuuid_label req.meta.uid get_non_admin_labels;
    origin_namespace =
        value_at_head nadr_origin_namespace_annotation req.meta.namespace
          ((nadr_origin_name_annotation, req.meta.name) ∷ []);
    origin_name =
        value_at_next nadr_origin_namespace_annotation nadr_origin_name_annotation
          req.meta.namespace ((nadr_origin_name_annotation, req.meta.name) ∷ [])
          (not_equal _ _ (
            append_differs v.oadp_operator_label "-nadr-origin-namespace" "-nadr-origin-name"
              (λ e. cc e)))
        ∙ value_at_head nadr_origin_name_annotation req.meta.name [];
    same_kind = refl;
    backed = b;
  }

  -- The target that is put in where there is none.
  abbrev filled_target : String → NonAdminBackup → String
  filled_target target nab =
      if target == empty_string then velero_backup_name nab.status.velero_backup else target

  request_download-Keeps :
      (h : History) (target : String) (nab : NonAdminBackup)
      → (uses_nabsl nab.spec.backup_spec ≡ true → IsBacked r req (filled_target target nab) h)
      → Keeps R (λ _ _. Unit) h (request_download (with_target made target) req nab)
  unfolding request_download new_download_request
  request_download-Keeps h target nab b =
      Keeps-if R _ h (not (uses_nabsl nab.spec.backup_spec)) _ _
        (λ _. (
          ((refl, refl), inl refl),
          elim [
            | err _ ↦ λ _. (((refl, refl), inl refl), elim [ err _ ↦ λ _. tt | ok _ ↦ λ _. tt ])
            | ok req1 ↦ λ y. ((y, inl refl), elim [ err _ ↦ λ _. tt | ok _ ↦ λ _. tt ])
          ],
        ))
        (λ e. (
          made-IsDownloadOf h (filled_target target nab) (b (not-false _ e)),
          elim [ err _ ↦ λ _. tt | ok _ ↦ λ _. tt ],
        ))

  -- A read that the request needs: where it fails, the request backs off.
  needed-Keeps :
      {A B : Type 0} (S : History → B → Type 0) (h : History) (type : DownloadConditionType)
      (message : String) (reply : Reply A) (f : A → Prog B)
      → ((x : A) → reply ≡ ok x → Keeps R S h (f x))
      → Keeps R S h (needed req (back_off req type message) reply >>= f)
  unfolding needed
  needed-Keeps S h type message (ok x) f k = k x refl
  needed-Keeps S h type message (err e) f k = (((refl, refl), inl refl), λ _ _. tt)

  request_for_backup-Keeps :
      (h : History) (target name : String)
      → ((key : NamespacedName) (nab : NonAdminBackup) (g : History)
          → key.name ≡ name
          → ((P : _) → Saw P h → Saw P g)
          → NamesTarget r req (target_of req.kind) key nab (filled_target target nab) g)
      → Keeps R (λ _ _. Unit) h (request_for_backup (with_target made target) req name)
  unfolding request_for_backup
  request_for_backup-Keeps h target name f =
      let key : NamespacedName = record { name = name; namespace = req.meta.namespace } in
      (
        tt,
        λ reply _.
            needed-Keeps _ (event (Call.get_nab key) reply ∷ h)
              DownloadConditionType.backup_not_available "cannot get nonadminbackup" reply
              (λ nab. request_download (with_target made target) req nab)
              λ nab e. request_download-Keeps (event (Call.get_nab key) reply ∷ h) target nab λ u. (
                key,
                nab,
                inl (ap (λ x. event (Call.get_nab key) x) e),
                refl,
                u,
                f key nab (event (Call.get_nab key) reply ∷ h) refl (λ P s. inr s),
              ),
      )

  -- A restore's name is the target, unless it is empty.
  restore_target :
      (target : String) (nab : NonAdminBackup)
      → ((target == empty_string) ≡ false) × (filled_target target nab ≡ target)
        ⊎ ((target == empty_string) ≡ true)
          × (filled_target target nab ≡ velero_backup_name nab.status.velero_backup)
  restore_target target nab = elim (Bool-cases (target == empty_string)) [
    | inl e ↦ inr (e, rw e refl)
    | inr e ↦ inl (e, rw e refl)
  ]

  process_target-Keeps :
      (h : History) (t : TargetOf)
      → t ≡ target_of req.kind
      → Keeps R (λ _ _. Unit) h (process_target t made req)
  unfolding process_target new_download_request
  process_target-Keeps h TargetOf.backup e =
      request_for_backup-Keeps h "" req.target λ key nab g q i.
        subst (λ t. NamesTarget r req t key nab (filled_target "" nab) g) e (q, refl)
  process_target-Keeps h TargetOf.neither e =
      request_for_backup-Keeps h "" empty_string λ key nab g q i.
        subst (λ t. NamesTarget r req t key nab (filled_target "" nab) g) e (q, refl)
  process_target-Keeps h TargetOf.restore e =
      let nar_call = Call.get_nar (record { name = req.target; namespace = req.meta.namespace }) in
      (
        tt,
        λ reply _.
            needed-Keeps _ (event nar_call reply ∷ h) DownloadConditionType.restore_not_available
              "cannot get nonadminrestore" reply _
              λ nar a. Keeps-deref R _ (event nar_call reply ∷ h) nar.restore_spec _ tt λ spec b.
                let target = velero_restore_name nar.status.velero_restore in
                request_for_backup-Keeps (event nar_call reply ∷ h) target spec.backup_name
                  λ key nab g q i.
                    subst (λ t. NamesTarget r req t key nab (filled_target target nab) g) e
                      (
                        nar,
                        i _ (inl (ap (λ x. event nar_call x) a)),
                        spec,
                        b,
                        q,
                        restore_target target nab,
                      ),
      )

  find_or_process-Keeps : (h : History) → Keeps R (λ _ _. Unit) h (find_or_process r req)
  unfolding find_or_process process_download_request
  find_or_process-Keeps h = (
    tt,
    elim [
      | ok found ↦ λ _. update_nadr_with_url-Keeps _ found (inl refl)
      | err ApiError.not_found ↦ λ _. process_target-Keeps _ (target_of req.kind) refl
      | err ApiError.conflict ↦ λ _. tt
      | err ApiError.other ↦ λ _. tt
    ],
  )

  wait_or_find-Keeps :
      (h : History) (status : DownloadRequestStatus)
      → Keeps R (λ _ _. Unit) h (wait_or_find r req status)
  unfolding wait_or_find
  wait_or_find-Keeps h status =
      Keeps-if R _ h (not (status.download_url == empty_string)) _ _
        (λ _.
          Keeps-deref R (λ _ _. Unit) h status.expiration _ tt
            (λ t _. (tt, elim [ err _ ↦ λ _. tt | ok _ ↦ λ _. tt ])))
        (λ _.
          Keeps-bind R (λ _ _. Unit) _ h (find_or_process r req) _ (find_or_process-Keeps h)
            (λ _ _ _. tt))

  look_at_status-Keeps :
      (h : History) (status : DownloadRequestStatus)
      → req.status.velero_status ≡ some status
      → Keeps R (λ _ _. Unit) h (look_at_status r req status)
  unfolding look_at_status delete_expired_download_request
  look_at_status-Keeps h status e =
      Keeps-if R _ h (is_set status.expiration) _ _
        (λ _. (
          tt,
          elim [
            | err _ ↦ λ _. tt
            | ok now ↦ λ _.
                Keeps-if R _ (event Call.now (ok now) ∷ h)
                  (v.time_before status.expiration (some now)) _ _
                  (λ d. (
                    (refl, status, e, (now, inl refl, d)),
                    elim [
                      | ok _ ↦ λ _. tt
                      | err ApiError.not_found ↦ λ _. tt
                      | err ApiError.conflict ↦ λ _. tt
                      | err ApiError.other ↦ λ _. tt
                    ],
                  ))
                  (λ _. wait_or_find-Keeps (event Call.now (ok now) ∷ h) status)
          ],
        ))
        (λ _. wait_or_find-Keeps h status)

  reconcile_download-Keeps : (h : History) → Keeps R (λ _ _. Unit) h (reconcile_download r req)
  unfolding reconcile_download
  reconcile_download-Keeps h =
      Keeps-if R _ h (is_unset_kind req.kind) _ _ (λ _. tt)
        (λ _.
          Keeps-option R _ h req.status.velero_status _ _
            (λ _.
              Keeps-bind R (λ _ _. Unit) _ h (find_or_process r req) _ (find_or_process-Keeps h)
                (λ _ _ _. tt))
            (λ status e. look_at_status-Keeps h status e))

  -- In every run of the download controller's `Reconcile` for a request, whatever the server answers,
  -- as long as a patch of the status keeps name and namespace: a Velero request is created only in
  -- the OADP namespace, with the kind, UID, name and namespace of the request, and only for a
  -- NonAdminBackup of the namespace of the request that was read and uses a
  -- NonAdminBackupStorageLocation; its target is the Velero backup of the NonAdminBackup that the
  -- request names or, for a restore's kind, the Velero restore of the NonAdminRestore that it names
  -- or, where that has no name, the Velero backup; the request is deleted only if by the clock its
  -- expiry has passed; a patch of the status keeps the name, and hands on a URL only of the Velero
  -- request of the UID, processed and by the clock not expired; no other call writes anything.
  pub reconcile_download-Obeys :
      (s : Server)
      → ((g : History) (c : Call) → LawfulDownload c (s g c))
      → Obeys (download_rules r req) (run s [] (reconcile_download r req)).1
  reconcile_download-Obeys s lawful =
      Ends-Obeys (download_rules r req) _ (run s [] (reconcile_download r req)) (
        run-Ends (download_rules r req) _ s [] (reconcile_download r req) lawful tt
          (reconcile_download-Keeps []))
