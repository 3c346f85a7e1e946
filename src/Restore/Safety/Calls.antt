-- ===== src/Restore/Safety/Calls.antt =====
-- The functions that the steps call, under the rules of the NonAdminRestore controller.
use oadp_non_admin.Base.{
  String, ◌≡◌, refl, ◌∙◌, Bool, true, false, not, Option, none, some, [], ◌∷◌, ◌==◌, nat_eq,
  Option-cases, ltb, len, inl, inr,
}
use oadp_non_admin.Constant.{nar_origin_nacuuid_label, empty_string}
use oadp_non_admin.Function.Fields.{restore_fields}
use oadp_non_admin.Function.Lookup.{get_velero_restore_by_label, at_most_one}
use oadp_non_admin.Function.Names.{generate_nac_object_uuid, nac_object_name}
use oadp_non_admin.Function.Queue.{get_restore_queue_info}
use oadp_non_admin.Function.Steps.{
  list_objects_by_label-Keeps, check_enforced-Keeps, reject_if-Keeps,
}
use oadp_non_admin.Function.Validate.{is_set, backup_found, validate_restore_spec}
use oadp_non_admin.Kube.Objects.{NamespacedName, NonAdminPhase, phase_eq, Restore, RestoreSpec}
use oadp_non_admin.Kube.Status.{ApiError, Error, NonAdminRestore}
use oadp_non_admin.Kube.Api.{
  Call, Payload, Reply, ok, err, Prog, ret, fail, panic, call, ◌>>=◌, try, event, History,
}
use oadp_non_admin.Kube.Rules.{Rules, Keeps, Keeps-bind, Keeps-if, Keeps-deref, Keeps-option}
use oadp_non_admin.Kube.Vendor.{Vendor}
use oadp_non_admin.Restore.Steps.{RestoreReconciler, RestoreStep, update_restore_status_if}
use oadp_non_admin.Restore.Safety.Defs.{
  latest_restore, FoundNoRestore, FoundOnly, AllowsRestore, IsRequested, restore_safety,
  IsCurrentRestore,
}

-- A call that reads something other than a NonAdminRestore.
abbrev pub IsRead : Call → Type 0
IsRead Call.new_uuid = Unit
IsRead (Call.get_nab _) = Unit
IsRead (Call.list_restores _ _) = Unit
IsRead (Call.list_pod_volume_restores _ _) = Unit
IsRead (Call.list_data_downloads _ _) = Unit
IsRead _ = ⊥

abbrev pub reading : Rules
reading = record {
  allows = λ _ c. IsRead c;
  lawful = λ _ _. Unit;
  errs = λ _ _. Unit;
  panics = Unit;
}

-- Every call of the program is such a read.
abbrev pub Reads : {A : Type 0} → History → Prog A → Type 0
Reads h m = Keeps reading (λ _ _. Unit) h m

abbrev unfailing : (h : History) (e : Error) → reading.errs h e
unfailing h e = tt

pub Reads-try : {A : Type 0} (h : History) (m : Prog A) → Reads h m → Reads h (try m)
Reads-try h (ret a) q = tt
Reads-try h (fail e) q = tt
Reads-try h panic q = tt
Reads-try h (call c k) q = (q.0, λ r l. Reads-try (event c r ∷ h) (k r) (q.1 r l))

pub get_restore_queue_info-Reads :
    (h : History) (namespace : String) (o : Option Restore)
    → Reads h (get_restore_queue_info namespace o)
unfolding get_restore_queue_info
get_restore_queue_info-Reads h namespace none = tt
get_restore_queue_info-Reads h namespace (some b) =
    Keeps-if reading (λ _ _. Unit) h (nat_eq b.meta.creation_timestamp 0) _ _ (λ _. tt)
      λ _. elim (Option-cases b.status.completion_timestamp) [
        | inl e ↦ rw e (tt, elim [ err _ ↦ λ _. tt | ok _ ↦ λ _. tt ])
        | inr (t, e) ↦ rw e tt
      ]

module _ ⦃v : Vendor⦄ where
  pub generate_nac_object_uuid-Reads :
      (h : History) (namespace name : String) → Reads h (generate_nac_object_uuid namespace name)
  unfolding generate_nac_object_uuid
  generate_nac_object_uuid-Reads h namespace name = (
    tt,
    elim [
      | err _ ↦ λ _. tt
      | ok uuid ↦ λ _.
          Keeps-option reading _ (event Call.new_uuid (ok uuid) ∷ h)
            (nac_object_name uuid namespace name) panic ret (λ _. tt) (λ _ _. tt)
    ],
  )

pub validate_restore_spec-Reads :
    (h : History) (nar : NonAdminRestore) (enforced : RestoreSpec)
    → Reads h (validate_restore_spec nar enforced)
unfolding validate_restore_spec backup_found
validate_restore_spec-Reads h nar enforced =
    Keeps-deref reading (λ _ _. Unit) h nar.restore_spec _ tt
      λ spec e. reject_if-Keeps reading unfailing _ h (ltb 0 (len spec.schedule_name)) _ _ λ _.
        reject_if-Keeps reading unfailing _ h (spec.backup_name == empty_string) _ _ λ _. (
          tt,
          elim [
            | err x ↦ λ _. tt
            | ok nab ↦ λ _.
                reject_if-Keeps reading unfailing _ _
                  (not (phase_eq nab.status.phase NonAdminPhase.created)) _ _
                  λ _.
                    reject_if-Keeps reading unfailing _ _ (is_set spec.included_namespaces) _ _ λ _.
                      reject_if-Keeps reading unfailing _ _ (is_set spec.excluded_namespaces) _ _
                        λ _.
                          reject_if-Keeps reading unfailing _ _
                            (not (nat_eq spec.namespace_mapping 0)) _ _
                            λ _.
                              check_enforced-Keeps reading unfailing (λ _ _. Unit) _ 0
                                (restore_fields enforced) (restore_fields spec) tt
          ],
        )

same_restore : (x y : Restore) → Option.some x ≡ some y → x ≡ y
same_restore x y e = cc e

module _ ⦃v : Vendor⦄ (r : RestoreReconciler) (key : NamespacedName) where
  abbrev pub R : Rules
  R = restore_safety r key

  abbrev free : (h : History) (e : Error) → R.errs h e
  free h e = tt

  -- A lookup changes nothing about the NonAdminRestore, and its answer is that of the list call.
  pub get_velero_restore_by_label-Keeps :
      (h : History) (uuid : String)
      → Keeps R
          (λ g found.
            (latest_restore g ≡ latest_restore h)
            × (found ≡ none → FoundNoRestore r key g)
            × ((x : Restore) → found ≡ some x → FoundOnly r key x g))
          h
          (get_velero_restore_by_label r.oadp_namespace uuid)
  unfolding get_velero_restore_by_label at_most_one
  get_velero_restore_by_label-Keeps h uuid =
      list_objects_by_label-Keeps R free _ h Call.list_restores r.oadp_namespace
        nar_origin_nacuuid_label uuid _ tt
        (elim [
          | [] ↦ (refl, λ _. (refl, refl), λ x e. cc e)
          | x ∷ [] ↦ (refl, λ e. cc e, λ y e. (refl, refl, same_restore x y e))
          | x ∷ y ∷ xs ↦ tt
        ])

  -- A read is allowed, and tells nothing new of the NonAdminRestore.
  read_call :
      (h : History) (c : Call) (x : Reply (Payload c))
      → IsRead c
      → AllowsRestore r key h c × (latest_restore (event c x ∷ h) ≡ latest_restore h)
  read_call h Call.new_uuid x q = (tt, refl)
  read_call h (Call.get_nab _) x q = (tt, refl)
  read_call h (Call.list_restores _ _) x q = (tt, refl)
  read_call h (Call.list_pod_volume_restores _ _) x q = (tt, refl)
  read_call h (Call.list_data_downloads _ _) x q = (tt, refl)
  read_call h _ x q = absurd q

  pub Reads-Keeps :
      {A : Type 0} (o : Option NonAdminRestore) (h : History) (m : Prog A)
      → Reads h m
      → latest_restore h ≡ o
      → Keeps R (λ g _. latest_restore g ≡ o) h m
  Reads-Keeps o h (ret a) q e = e
  Reads-Keeps o h (fail x) q e = tt
  Reads-Keeps o h panic q e = tt
  Reads-Keeps o h (call c k) q e = (
    (read_call h c (err ApiError.other) q.0).0,
    λ x _. Reads-Keeps o (event c x ∷ h) (k x) (q.1 x tt) ((read_call h c x q.0).1 ∙ e),
  )

  -- A step that runs a reading program first, with the object in hand unchanged.
  pub Reads-first :
      {A B : Type 0} (S : History → B → Type 0) (h : History) (nar : NonAdminRestore) (m : Prog A)
      (f : A → Prog B)
      → Reads h m
      → IsCurrentRestore r key h nar
      → ((g : History) (a : A) → IsCurrentRestore r key g nar → Keeps R S g (f a))
      → Keeps R S h (m >>= f)
  Reads-first S h nar m f q c k =
      Keeps-bind R (λ g _. latest_restore g ≡ some nar) S h m f
        (Reads-Keeps (some nar) h m q c.last)
        λ g a e. k g a (record { last = e; requested = c.requested })

  -- The result of a step is the object that the server last gave.
  abbrev pub CurrentStep : History → RestoreStep → Type 0
  CurrentStep g s = IsCurrentRestore r key g s.0

  -- A write of the status keeps the name, so what comes back is the object in hand.
  pub update_restore_status_if-Keeps :
      {B : Type 0} (S : History → B → Type 0) (h : History) (changed : Bool) (nar : NonAdminRestore)
      (f : NonAdminRestore → Prog B)
      → (changed ≡ false → latest_restore h ≡ some nar)
      → IsRequested r key nar.meta
      → ((g : History) (nar' : NonAdminRestore)
          → IsCurrentRestore r key g nar'
          → Keeps R S g (f nar'))
      → Keeps R S h (update_restore_status_if changed nar >>= f)
  unfolding update_restore_status_if
  update_restore_status_if-Keeps S h false nar f l n k =
      k h nar (record { last = l refl; requested = n })
  update_restore_status_if-Keeps S h true nar f l n k = (
    n,
    elim [
      | err x ↦ λ _. tt
      | ok nar' ↦ λ y.
          k (event (Call.update_nar_status nar) (ok nar') ∷ h) nar'
            (record { last = refl; requested = (y.0 ∙ n.0, y.1 ∙ n.1) })
    ],
  )
