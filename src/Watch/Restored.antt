-- ===== src/Watch/Restored.antt =====
-- What the filters and the handlers of internal/predicate and internal/handler make of the events
-- of Velero restores.
use oadp_non_admin.Base.{
  ℕ, String, ◌≡◌, ◌≢◌, refl, ap, ◌∙◌, true, false, Option, some, List, [], ◌∷◌, ◌==◌, ◌<◌, ltb, len,
  lookup, if◌then◌else◌, eq_refl, arith,
}
use oadp_non_admin.Constant.{
  empty_string, oadp_label, managed_by_label, nar_origin_nacuuid_label, nar_origin_name_annotation,
  nar_origin_namespace_annotation,
}
use oadp_non_admin.Kube.Objects.{RestoreSpec, ObjectMeta, NamespacedName, Time, StringMap}
use oadp_non_admin.Kube.Status.{NonAdminRestore}
use oadp_non_admin.Kube.Api.{ret}
use oadp_non_admin.Kube.Vendor.{Vendor}
use oadp_non_admin.Function.Metadata.{
  value_at, check_label_value, check_velero_restore_metadata, check_velero_restore_annotations,
  get_non_admin_restore_annotations, get_non_admin_restore_labels, get_non_admin_labels,
}
use oadp_non_admin.Function.Entries.{
  IsValidLength, value_at_head, value_at_next, not_equal, append_differs, append_longer,
  lookup_behind, lookup_here, value_checked,
}
use oadp_non_admin.Backup.Recognition.{oadp_found, managed_found}
use oadp_non_admin.Restore.Steps.{RestoreReconciler, new_velero_restore}
use oadp_non_admin.Watch.Events.{Owner, Content, Object}
use oadp_non_admin.Watch.Predicates.{
  velero_restore_predicate, velero_restore_queue_predicate, update_restore_predicate_for,
  update_restore_predicate, delete_restore_predicate,
}
use oadp_non_admin.Watch.Handlers.{velero_restore_handler}
use oadp_non_admin.Watch.Observed.{or_holds}

positive : (s : String) → 0 < len s → ltb 0 (len s) ≡ true
positive s h = ground arith

module _ ⦃v : Vendor⦄ where
  keys_differ : nar_origin_namespace_annotation ≢ nar_origin_name_annotation
  keys_differ = append_differs oadp_label "-nar-origin-namespace" "-nar-origin-name" (λ e. cc)

  annotated :
      (owner : ObjectMeta)
      → IsValidLength owner.name
      → IsValidLength owner.namespace
      → (m : ObjectMeta) → m.annotations ≡ get_non_admin_restore_annotations owner
      → check_velero_restore_annotations m ≡ true
  unfolding check_velero_restore_annotations get_non_admin_restore_annotations
  annotated owner hn hs m e =
      let rest = (nar_origin_name_annotation, owner.name) ∷ [] in
      let all = (nar_origin_namespace_annotation, owner.namespace) ∷ rest in
      let namespace =
        value_checked all nar_origin_namespace_annotation owner.namespace
          (lookup_here nar_origin_namespace_annotation owner.namespace rest) hs in
      let name =
        value_checked all nar_origin_name_annotation owner.name
          (lookup_behind nar_origin_namespace_annotation nar_origin_name_annotation owner.namespace
              rest keys_differ
            ∙ lookup_here nar_origin_name_annotation owner.name [])
          hn in
      rw (e, namespace, name) refl

  labelled :
      (m : ObjectMeta) (uuid : String)
      → check_label_value m.labels oadp_label "True" ≡ true
      → check_label_value m.labels managed_by_label "oadp-nac-controller" ≡ true
      → lookup nar_origin_nacuuid_label m.labels ≡ some uuid
      → ltb 0 (len uuid) ≡ true
      → check_velero_restore_annotations m ≡ true
      → check_velero_restore_metadata m ≡ true
  unfolding check_velero_restore_metadata
  labelled m uuid a b c d e = rw (check_velero_restore_metadata, a, b, c, d, e) refl

  abbrev origin_in : StringMap → NamespacedName
  origin_in m = record {
    name = value_at m nar_origin_name_annotation;
    namespace = value_at m nar_origin_namespace_annotation;
  }

  origin_of_annotations :
      (owner : ObjectMeta)
      → origin_in (get_non_admin_restore_annotations owner)
        ≡ record { name = owner.name; namespace = owner.namespace }
  unfolding get_non_admin_restore_annotations
  origin_of_annotations owner =
      let m = (nar_origin_name_annotation, owner.name) ∷ [] in
      let next =
        value_at_next nar_origin_namespace_annotation nar_origin_name_annotation owner.namespace m
          (not_equal nar_origin_namespace_annotation nar_origin_name_annotation keys_differ)
        ∙ value_at_head nar_origin_name_annotation owner.name [] in
      let here = value_at_head nar_origin_namespace_annotation owner.namespace m in
      λ i. record { name = next i; namespace = here i }

  -- The Velero restore that the controller makes, as an event shows it.
  abbrev pub observed_restore :
      RestoreReconciler
      → NonAdminRestore
      → String
      → RestoreSpec
      → ℕ
      → List Owner
      → Option Time
      → Object
  unfolding new_velero_restore
  observed_restore r nar uuid spec generation owners completion = record {
    meta = (new_velero_restore r nar uuid spec).meta;
    generation = generation;
    owners = owners;
    content = Content.restore completion;
  }

  accepted :
      (oadp : String) (old new : Object) (t : Option Time)
      → new.meta.namespace ≡ oadp
      → check_velero_restore_metadata new.meta ≡ true
      → (update_restore_predicate_for (Content.restore t) empty_string oadp old new ≡ ret true)
        × (velero_restore_predicate oadp new ≡ true)
  unfolding update_restore_predicate_for velero_restore_predicate
  accepted oadp old new t e c =
      let p =
        ap (λ s. if s == oadp then check_velero_restore_metadata new.meta else false) e
        ∙ ap (λ b. if b then check_velero_restore_metadata new.meta else false) (eq_refl oadp)
        ∙ c in
      (ap ret (or_holds (velero_restore_queue_predicate empty_string old new) _ p), p)

  recognised :
      (r : RestoreReconciler) (nar : NonAdminRestore) (uuid : String) (spec : RestoreSpec)
      → oadp_label ≢ managed_by_label
      → nar_origin_nacuuid_label ≢ managed_by_label
      → 0 < len uuid
      → IsValidLength nar.meta.name
      → IsValidLength nar.meta.namespace
      → check_velero_restore_metadata (new_velero_restore r nar uuid spec).meta ≡ true
  unfolding new_velero_restore get_non_admin_restore_labels get_non_admin_labels
  recognised r nar uuid spec f g hu hn hs =
      labelled (new_velero_restore r nar uuid spec).meta uuid
        (oadp_found nar_origin_nacuuid_label uuid
          (append_longer oadp_label "-nar-origin-nacuuid" (λ e. cc)))
        (managed_found nar_origin_nacuuid_label uuid f g)
        (lookup_here nar_origin_nacuuid_label uuid get_non_admin_labels) (positive uuid hu)
        (annotated nar.meta hn hs (new_velero_restore r nar uuid spec).meta refl)

  -- Where the operator's label and the label of the UUID differ from the managed-by label, the UUID
  -- is not empty, and the name and namespace are of a length that the checks accept, the update
  -- filter of the restore controller accepts every update to an object with the metadata of the
  -- Velero restore that the controller makes, and the delete filter its deletion, and the handler of
  -- both events puts one request in the queue, for the NonAdminRestore that it was made for.
  pub velero_restore_events_reach_owner :
      (r : RestoreReconciler) (nar : NonAdminRestore) (uuid : String) (spec : RestoreSpec)
      (old : Object) (generation : ℕ) (owners : List Owner) (completion : Option Time)
      → oadp_label ≢ managed_by_label
      → nar_origin_nacuuid_label ≢ managed_by_label
      → 0 < len uuid
      → IsValidLength nar.meta.name
      → IsValidLength nar.meta.namespace
      → (update_restore_predicate r.oadp_namespace old
            (observed_restore r nar uuid spec generation owners completion)
          ≡ ret true)
        × (delete_restore_predicate
              (Content.restore completion)
              r.oadp_namespace
              (observed_restore r nar uuid spec generation owners completion)
            ≡ true)
        × (velero_restore_handler (observed_restore r nar uuid spec generation owners completion)
            ≡ record { name = nar.meta.name; namespace = nar.meta.namespace } ∷ [])
  unfolding update_restore_predicate delete_restore_predicate velero_restore_handler
      new_velero_restore
  velero_restore_events_reach_owner r nar uuid spec old generation owners completion f g hu hn hs =
      let e =
        accepted r.oadp_namespace old
          (observed_restore r nar uuid spec generation owners completion) completion refl
          (recognised r nar uuid spec f g hu hn hs) in
      (e.0, e.1, ap (λ q. q ∷ []) (origin_of_annotations nar.meta))
