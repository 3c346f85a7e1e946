-- ===== src/Collector/Sweeps.antt =====
-- internal/controller/garbagecollector_controller.go: what each goroutine of `Reconcile` does.
use oadp_non_admin.Base.{
  String, Bool, Option, none, some, List, [], ◌∷◌, ◌||◌, ◌==◌, not, if◌then◌else◌,
}
use oadp_non_admin.Constant.{
  oadp_label, oadp_label_value, managed_by_label, managed_by_label_value, nab_origin_nacuuid_label,
  nar_origin_nacuuid_label, nabsl_origin_nacuuid_label, nab_origin_name_annotation,
  nab_origin_namespace_annotation, nar_origin_name_annotation, nar_origin_namespace_annotation,
  nabsl_origin_name_annotation, nabsl_origin_namespace_annotation, empty_string,
}
use oadp_non_admin.Function.Metadata.{
  value_at, check_label_annotation_value_is_valid, check_velero_backup_annotations,
  check_velero_restore_annotations, check_velero_backup_storage_location_annotations,
}
use oadp_non_admin.Kube.Objects.{
  NamespacedName, ObjectMeta, Secret, BackupStorageLocation, Backup, Restore,
}
use oadp_non_admin.Kube.Status.{
  ApiError, Error, SourceNonAdminBsl, NonAdminBackupStorageLocationRequest,
}
use oadp_non_admin.Kube.Api.{
  Call, Selector, Reply, ok, err, Prog, ret, fail, perform, attempt, ◌>>=◌, ◌>>◌,
}
use oadp_non_admin.Kube.Vendor.{Vendor}

-- `GarbageCollectorReconciler`, less the client, the scheme and the frequency.
pub record CollectorReconciler : Type 0 where
  pub oadp_namespace : String
  pub require_approval_for_bsl : Bool

-- An object whose owner was read: it is deleted where the owner is not there, another error ends
-- the goroutine, and the loop goes on.
unfoldable pub delete_if_missing :
    {A : Type 0} → Reply A → Prog (Unit {0}) → Prog (Unit {0}) → Prog (Unit {0})
delete_if_missing (ok _) delete rest = rest
delete_if_missing (err ApiError.not_found) delete rest = delete >> rest
delete_if_missing (err ApiError.conflict) delete rest = fail (Error.api ApiError.conflict)
delete_if_missing (err ApiError.other) delete rest = fail (Error.api ApiError.other)

-- The name of an object of `Type` with what the collector knows of such objects: how it reads
-- its owner and how it deletes it, and whether its label and its annotations are there.
pub record Kind (A : Type 0) : Type 0 where
  pub labelled : A → Bool
  pub annotated : A → Bool
  pub owner : A → Call
  pub delete : A → Call

-- The loop that the goroutines for secrets, storage locations, backups and restores share, up to
-- the type of the object.
unfoldable pub delete_orphans : {A : Type 0} → Kind A → List A → Prog (Unit {0})
unfolding delete_if_missing
delete_orphans kind [] = ret tt
delete_orphans kind (x ∷ xs) =
    let rest = delete_orphans kind xs in
    if not (kind.labelled x)
    then rest
    else if not (kind.annotated x)
    then rest
    else (attempt (kind.owner x) >>= λ reply.
        delete_if_missing reply (perform (kind.delete x) >> ret tt) rest)

-- The owner that a request refers to, unless the reference is missing or incomplete.
unfoldable pub source_key : Option SourceNonAdminBsl → Option NamespacedName
source_key none = none
source_key (some source) =
    if source.name == empty_string || source.namespace == empty_string
    then none
    else some (record { name = source.name; namespace = source.namespace })

unfoldable pub delete_requests : Bool → List NonAdminBackupStorageLocationRequest → Prog (Unit {0})
unfolding delete_if_missing source_key
delete_requests approval [] = ret tt
delete_requests approval (request ∷ requests) =
    let rest = delete_requests approval requests in
    let delete = perform (Call.delete_nabsl_request request) in
    if not approval then delete >> rest else elim (source_key request.source) [
      | none ↦ delete >> rest
      | some key ↦ attempt (Call.get_nabsl key) >>= λ reply. delete_if_missing reply delete rest
    ]

module _ ⦃v : Vendor⦄ where
  abbrev pub label_selector : Selector
  label_selector = (oadp_label, oadp_label_value) ∷ (managed_by_label, managed_by_label_value) ∷ []

  -- The NonAdminBackupStorageLocation that annotations name.
  abbrev pub nabsl_owner : ObjectMeta → Call
  nabsl_owner m = Call.get_nabsl (record {
    name = value_at m.annotations nabsl_origin_name_annotation;
    namespace = value_at m.annotations nabsl_origin_namespace_annotation;
  })

  abbrev pub secret_kind : Kind Secret
  secret_kind = record {
    labelled = λ x. check_label_annotation_value_is_valid x.meta.labels nabsl_origin_nacuuid_label;
    annotated = λ x. check_velero_backup_storage_location_annotations x.meta;
    owner = λ x. nabsl_owner x.meta;
    delete = Call.delete_secret;
  }

  abbrev pub bsl_kind : Kind BackupStorageLocation
  bsl_kind = record {
    labelled = λ x. check_label_annotation_value_is_valid x.meta.labels nabsl_origin_nacuuid_label;
    annotated = λ x. check_velero_backup_storage_location_annotations x.meta;
    owner = λ x. nabsl_owner x.meta;
    delete = Call.delete_bsl;
  }

  abbrev pub backup_kind : Kind Backup
  backup_kind = record {
    labelled = λ x. check_label_annotation_value_is_valid x.meta.labels nab_origin_nacuuid_label;
    annotated = λ x. check_velero_backup_annotations x.meta;
    owner = λ x. Call.get_nab (record {
      name = value_at x.meta.annotations nab_origin_name_annotation;
      namespace = value_at x.meta.annotations nab_origin_namespace_annotation;
    });
    delete = Call.delete_backup;
  }

  abbrev pub restore_kind : Kind Restore
  restore_kind = record {
    labelled = λ x. check_label_annotation_value_is_valid x.meta.labels nar_origin_nacuuid_label;
    annotated = λ x. check_velero_restore_annotations x.meta;
    owner = λ x. Call.get_nar (record {
      name = value_at x.meta.annotations nar_origin_name_annotation;
      namespace = value_at x.meta.annotations nar_origin_namespace_annotation;
    });
    delete = Call.delete_restore;
  }

  module _ (r : CollectorReconciler) where
    unfoldable pub collect_secrets : Prog (Unit {0})
    unfolding delete_orphans
    collect_secrets = perform (Call.list_secrets r.oadp_namespace label_selector) >>= λ items.
        delete_orphans secret_kind items

    unfoldable pub collect_bsls : Prog (Unit {0})
    unfolding delete_orphans
    collect_bsls = perform (Call.list_bsls r.oadp_namespace label_selector) >>= λ items.
        delete_orphans bsl_kind items

    unfoldable pub collect_backups : Prog (Unit {0})
    unfolding delete_orphans
    collect_backups = perform (Call.list_backups r.oadp_namespace label_selector) >>= λ items.
        delete_orphans backup_kind items

    unfoldable pub collect_restores : Prog (Unit {0})
    unfolding delete_orphans
    collect_restores = perform (Call.list_restores r.oadp_namespace label_selector) >>= λ items.
        delete_orphans restore_kind items

    unfoldable pub collect_requests : Prog (Unit {0})
    unfolding delete_requests
    collect_requests =
        perform (Call.list_nabsl_requests r.oadp_namespace label_selector) >>= λ items.
        delete_requests r.require_approval_for_bsl items

    -- The goroutines that `Reconcile` starts, in the order in which it starts them.
    unfoldable pub goroutines : List (Prog (Unit {0}))
    unfolding collect_secrets collect_bsls collect_backups collect_restores collect_requests
    goroutines =
        collect_secrets ∷ collect_bsls ∷ collect_backups ∷ collect_restores ∷ collect_requests ∷ []
