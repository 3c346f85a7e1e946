-- ===== src/Watch/Events.antt =====
-- What internal/predicate and internal/handler read of the objects of watch events.
use oadp_non_admin.Base.{ℕ, String, Option, List}
use oadp_non_admin.Kube.Objects.{ObjectMeta, Time}

-- An owner reference.
pub record Owner : Type 0 where
  pub kind : String
  pub api_version : String
  pub name : String

-- The Go type of the object; a Velero backup or restore comes with its completion time, and a secret
-- with its type.
pub data Content : Type 0 where
  nab nar nabsl nabsl_request bsl : Content
  secret : String → Content
  backup : Option Time → Content
  restore : Option Time → Content
  pod_volume_backup data_upload pod_volume_restore data_download other : Content

-- `client.Object`
pub record Object : Type 0 where
  pub meta : ObjectMeta
  pub generation : ℕ
  pub owners : List Owner
  pub content : Content
