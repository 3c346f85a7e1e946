-- ===== src/Tests/Secrets.antt =====
-- A new secret in a namespace with two storage locations, and with one that names no credential.
use oadp_non_admin.Base.{[], ◌∷◌, none, some, refl, ◌≡◌}
use oadp_non_admin.Kube.Objects.{NonAdminPhase, BslSpec}
use oadp_non_admin.Kube.Status.{NonAdminBackupStorageLocation}
use oadp_non_admin.Kube.Api.{ret, panic}
use oadp_non_admin.Watch.Storage.{secret_requests}
use oadp_non_admin.Watch.Secrets.{secret_requests_exact}
use oadp_non_admin.Tests.Cluster.{object}

abbrev location : BslSpec → NonAdminBackupStorageLocation
location spec = record {
  meta = object "bucket" "shop";
  bsl_spec = some spec;
  phase = NonAdminPhase.created;
  velero_bsl = none;
}

abbrev with_keys : NonAdminBackupStorageLocation
with_keys = location (record { credential = some (record { name = "keys"; key = "cloud" }) })

abbrev with_others : NonAdminBackupStorageLocation
with_others = location (record { credential = some (record { name = "others"; key = "cloud" }) })

abbrev with_none : NonAdminBackupStorageLocation
with_none = location (record { credential = none })

secret_requests_exact_example :
    secret_requests "keys" (with_others ∷ with_keys ∷ [])
    ≡ ret (record { name = "bucket"; namespace = "shop" } ∷ [])
secret_requests_exact_example = secret_requests_exact "keys" (with_others ∷ with_keys ∷ [])

-- The storage location that uses the secret comes first, and the handler panics nevertheless.
secret_requests-panic : secret_requests "keys" (with_keys ∷ with_none ∷ []) ≡ panic
unfolding secret_requests
secret_requests-panic = refl
