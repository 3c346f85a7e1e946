-- ===== src/Watch/Storage.antt =====
-- internal/predicate and internal/handler for the NonAdminBackupStorageLocation controller: its event
-- filters, and the requests that events of secrets, Velero BackupStorageLocations and requests for
-- approval add to its queue.
use oadp_non_admin.Base.{String, Bool, true, false, List, [], ◌∷◌, ◌==◌, if◌then◌else◌}
use oadp_non_admin.Constant.{nabsl_origin_name_annotation, nabsl_origin_namespace_annotation}
use oadp_non_admin.Function.Metadata.{value_at, check_velero_backup_storage_location_metadata}
use oadp_non_admin.Kube.Objects.{NamespacedName, ObjectMeta}
use oadp_non_admin.Kube.Status.{NonAdminBackupStorageLocation}
use oadp_non_admin.Kube.Api.{Call, ok, err, Prog, ret, attempt, deref, ◌>>=◌}
use oadp_non_admin.Kube.Vendor.{Vendor}
use oadp_non_admin.Watch.Events.{Content, Object}
use oadp_non_admin.Watch.Predicates.{generation_changed}

abbrev pub key_of : ObjectMeta → NamespacedName
key_of m = record { name = m.name; namespace = m.namespace }

-- The loop of `NonAdminBslSecretHandler.Create` over the storage locations of a namespace. The
-- credential is read through two pointers.
unfoldable pub secret_requests :
    String → List NonAdminBackupStorageLocation → Prog (List NamespacedName)
secret_requests secret [] = ret []
secret_requests secret (nabsl ∷ nabsls) =
    let rest = secret_requests secret nabsls in
    deref nabsl.bsl_spec >>= λ spec. deref spec.credential >>= λ credential.
    if credential.name == secret
    then (rest >>= λ requests. ret (key_of nabsl.meta ∷ requests))
    else rest

-- `Create` of `NonAdminBslSecretHandler`.
unfoldable pub non_admin_bsl_secret_handler : Object → Prog (List NamespacedName)
unfolding secret_requests
non_admin_bsl_secret_handler x = elim x.content [
  | Content.secret _ ↦ attempt (Call.list_nabsls x.meta.namespace) >>= λ reply. elim reply [
    | err _ ↦ ret []
    | ok nabsls ↦ secret_requests x.meta.name nabsls
  ]
  | _ ↦ ret []
]

module _ ⦃v : Vendor⦄ where
  -- `Create` of `NonAdminBslSecretPredicate`.
  abbrev pub non_admin_bsl_secret_predicate : Content → Bool
  non_admin_bsl_secret_predicate (Content.secret type) = type == v.secret_type_opaque
  non_admin_bsl_secret_predicate _ = false

  -- `Update` of `VeleroBackupStorageLocationPredicate`.
  unfoldable pub velero_backup_storage_location_predicate : String → Object → Bool
  velero_backup_storage_location_predicate oadp x =
      if x.meta.namespace == oadp
      then check_velero_backup_storage_location_metadata x.meta
      else false

  -- `CompositeNaBSLPredicate.Create`
  abbrev pub create_nabsl_predicate : Content → Bool
  create_nabsl_predicate Content.nabsl = true
  create_nabsl_predicate (Content.secret type) =
      non_admin_bsl_secret_predicate (Content.secret type)
  create_nabsl_predicate _ = false

  -- `CompositeNaBSLPredicate.Update`: the `switch` on the type of the new object.
  unfoldable pub update_nabsl_predicate : Content → String → Object → Object → Bool
  unfolding velero_backup_storage_location_predicate
  update_nabsl_predicate Content.nabsl oadp old new = generation_changed old new
  update_nabsl_predicate Content.bsl oadp old new =
      velero_backup_storage_location_predicate oadp new
  update_nabsl_predicate Content.nabsl_request oadp old new = generation_changed old new
  update_nabsl_predicate _ oadp old new = false

  -- `CompositeNaBSLPredicate.Delete`
  abbrev pub delete_nabsl_predicate : Content → Bool
  delete_nabsl_predicate Content.nabsl = true
  delete_nabsl_predicate Content.nabsl_request = true
  delete_nabsl_predicate _ = false

  abbrev pub nabsl_origin : ObjectMeta → NamespacedName
  nabsl_origin m = record {
    name = value_at m.annotations nabsl_origin_name_annotation;
    namespace = value_at m.annotations nabsl_origin_namespace_annotation;
  }

  -- `Update` of `VeleroBackupStorageLocationHandler`.
  abbrev pub velero_backup_storage_location_handler : Object → List NamespacedName
  velero_backup_storage_location_handler x = nabsl_origin x.meta ∷ []

  -- `Update` and `Delete` of `NonAdminBackupStorageLocationRequestHandler`.
  abbrev pub nabsl_request_handler : Object → List NamespacedName
  nabsl_request_handler x = nabsl_origin x.meta ∷ []
