-- ===== src/Watch/Observed.antt =====
-- What the filters and the handlers of internal/predicate and internal/handler make of the events
-- of Velero backups.
use oadp_non_admin.Base.{
  ℕ, String, Bool, ◌≡◌, ◌≢◌, refl, ap, ◌∙◌, true, false, Option, List, [], ◌∷◌, ◌||◌, if◌then◌else◌,
  eq_iff, arith,
}
use oadp_non_admin.Constant.{
  oadp_label, managed_by_label, nab_origin_nacuuid_label, nab_origin_name_annotation,
  nab_origin_namespace_annotation,
}
use oadp_non_admin.Kube.Objects.{BackupSpec, ObjectMeta, NamespacedName, Time, StringMap}
use oadp_non_admin.Kube.Status.{NonAdminBackup}
use oadp_non_admin.Kube.Api.{ret}
use oadp_non_admin.Kube.Vendor.{Vendor}
use oadp_non_admin.Function.Metadata.{
  value_at, check_velero_backup_metadata, get_non_admin_backup_annotations, get_non_admin_labels,
}
use oadp_non_admin.Function.Entries.{
  IsValidLength, value_at_head, value_at_next, not_equal, append_differs,
}
use oadp_non_admin.Backup.Deletion.{Reconciler}
use oadp_non_admin.Backup.Creation.{new_velero_backup}
use oadp_non_admin.Backup.Recognition.{new_velero_backup_recognised}
use oadp_non_admin.Watch.Events.{Owner, Content, Object}
use oadp_non_admin.Watch.Predicates.{
  velero_backup_predicate, velero_backup_queue_predicate, update_backup_predicate_for,
  update_backup_predicate, delete_backup_predicate,
}
use oadp_non_admin.Watch.Handlers.{velero_backup_handler}

pub or_holds : (a b : Bool) → b ≡ true → (a || b) ≡ true
or_holds a b e = ground arith

module _ ⦃v : Vendor⦄ where
  abbrev origin_in : StringMap → NamespacedName
  origin_in m = record {
    name = value_at m nab_origin_name_annotation;
    namespace = value_at m nab_origin_namespace_annotation;
  }

  origin_of_annotations :
      (owner : ObjectMeta)
      → origin_in (get_non_admin_backup_annotations owner)
        ≡ record { name = owner.name; namespace = owner.namespace }
  unfolding get_non_admin_backup_annotations
  origin_of_annotations owner =
      let m = (nab_origin_name_annotation, owner.name) ∷ [] in
      let next =
        value_at_next nab_origin_namespace_annotation nab_origin_name_annotation owner.namespace m (
          not_equal nab_origin_namespace_annotation nab_origin_name_annotation
            (append_differs oadp_label "-nab-origin-namespace" "-nab-origin-name" (λ e. cc)))
        ∙ value_at_head nab_origin_name_annotation owner.name [] in
      let here = value_at_head nab_origin_namespace_annotation owner.namespace m in
      λ i. record { name = next i; namespace = here i }

  in_namespace :
      (oadp : String) (x : Object)
      → x.meta.namespace ≡ oadp
      → check_velero_backup_metadata x.meta ≡ true
      → velero_backup_predicate oadp x ≡ true
  unfolding velero_backup_predicate
  in_namespace oadp x e c =
      ap (λ t. if t then check_velero_backup_metadata x.meta else false)
        ((eq_iff x.meta.namespace oadp).1 e)
      ∙ c

  accepted :
      (oadp : String) (old new : Object) (t : Option Time)
      → velero_backup_predicate oadp new ≡ true
      → update_backup_predicate_for (Content.backup t) oadp old new ≡ ret true
  unfolding update_backup_predicate_for
  accepted oadp old new t e = ap ret (or_holds (velero_backup_queue_predicate oadp old new) _ e)

  -- The Velero backup that the controller makes, as an event shows it.
  abbrev pub observed :
      Reconciler → NonAdminBackup → String → BackupSpec → ℕ → List Owner → Option Time → Object
  observed r nab uuid spec generation owners completion = record {
    meta = (new_velero_backup r nab uuid spec).meta;
    generation = generation;
    owners = owners;
    content = Content.backup completion;
  }

  -- Under the conditions under which the Velero backup that the controller makes is recognised, the
  -- update filter of the backup controller accepts every update to an object with its metadata, and
  -- the delete filter its deletion, and the handler of both events puts one request in the queue,
  -- for the NonAdminBackup that the Velero backup was made for.
  pub velero_backup_events_reach_owner :
      (r : Reconciler) (nab : NonAdminBackup) (uuid : String) (spec : BackupSpec) (old : Object)
      (generation : ℕ) (owners : List Owner) (completion : Option Time)
      → oadp_label ≢ managed_by_label
      → nab_origin_nacuuid_label ≢ managed_by_label
      → IsValidLength uuid
      → IsValidLength nab.meta.name
      → IsValidLength nab.meta.namespace
      → (update_backup_predicate r.oadp_namespace old
            (observed r nab uuid spec generation owners completion)
          ≡ ret true)
        × (delete_backup_predicate
              (Content.backup completion)
              r.oadp_namespace
              (observed r nab uuid spec generation owners completion)
            ≡ true)
        × (velero_backup_handler (observed r nab uuid spec generation owners completion)
            ≡ record { name = nab.meta.name; namespace = nab.meta.namespace } ∷ [])
  unfolding update_backup_predicate delete_backup_predicate velero_backup_handler
      get_non_admin_labels get_non_admin_backup_annotations
  velero_backup_events_reach_owner r nab uuid spec old generation owners completion f g hu hn hs =
      let new = observed r nab uuid spec generation owners completion in
      let e =
        in_namespace r.oadp_namespace new refl
          (new_velero_backup_recognised r nab uuid spec f g hu hn hs) in
      (
        accepted r.oadp_namespace old new completion e,
        e,
        ap (λ q. q ∷ []) (origin_of_annotations nab.meta),
      )
