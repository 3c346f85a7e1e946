-- ===== src/Kube/Api.antt =====
-- The calls that the controllers make of the API server through controller-runtime's
-- `client.Client`, and programs that make them. What a call answers is not modelled: a program
-- takes any answer, so it covers every state of the cluster and every change that others make
-- between two calls.
use oadp_non_admin.Base.{String, Option, List, ◌∷◌}
use oadp_non_admin.Kube.Objects.{
  NamespacedName, Backup, Restore, DeleteBackupRequest, BackupStorageLocation, Secret,
  PodVolumeBackup, DataUpload, PodVolumeRestore, DataDownload, DownloadRequest, Time,
}
use oadp_non_admin.Kube.Status.{
  ApiError, Error, NonAdminBackup, NonAdminRestore, NonAdminBackupStorageLocation,
  NonAdminBackupStorageLocationRequest, NonAdminDownloadRequest,
}

-- A label selector: every pair has to be on the object.
abbrev pub Selector : Type 0
Selector = List (String × String)

-- A list call carries the namespace and the selector, `[]` for none; a patch carries the object that
-- it starts from and the one that it is to become. Reading the clock is a call, too.
pub data Call : Type 0 where
  new_uuid : Call
  get_nab : NamespacedName → Call
  get_nar : NamespacedName → Call
  get_nabsl : NamespacedName → Call
  get_namespace : String → Call
  update_nab : NonAdminBackup → Call
  update_nab_status : NonAdminBackup → Call
  create_nab : NonAdminBackup → Call
  delete_nab : NonAdminBackup → Call
  list_nar : String → Call
  delete_nar : NonAdminRestore → Call
  list_backups : String → Selector → Call
  create_backup : Backup → Call
  delete_backup : Backup → Call
  list_delete_requests : String → Selector → Call
  create_delete_request : DeleteBackupRequest → Call
  delete_delete_request : DeleteBackupRequest → Call
  list_restores : String → Selector → Call
  delete_restore : Restore → Call
  list_nabsls : String → Call
  list_bsls : String → Selector → Call
  delete_bsl : BackupStorageLocation → Call
  list_secrets : String → Selector → Call
  delete_secret : Secret → Call
  list_nabsl_requests : String → Selector → Call
  delete_nabsl_request : NonAdminBackupStorageLocationRequest → Call
  list_pod_volume_backups : String → Selector → Call
  list_data_uploads : String → Selector → Call
  update_nar : NonAdminRestore → Call
  update_nar_status : NonAdminRestore → Call
  create_restore : Restore → Call
  list_pod_volume_restores : String → Selector → Call
  list_data_downloads : String → Selector → Call
  now : Call
  get_backup : NamespacedName → Call
  get_restore : NamespacedName → Call
  get_download_request : NamespacedName → Call
  create_download_request : DownloadRequest → Call
  delete_nadr : NonAdminDownloadRequest → Call
  patch_nadr_status : NonAdminDownloadRequest → NonAdminDownloadRequest → Call

-- What a successful call hands back. A write of an object returns it as the server has stored it.
abbrev pub Payload : Call → Type 0
Payload Call.new_uuid = String
Payload (Call.get_nab _) = NonAdminBackup
Payload (Call.get_nar _) = NonAdminRestore
Payload (Call.get_nabsl _) = NonAdminBackupStorageLocation
Payload (Call.get_namespace _) = Unit {0}
Payload (Call.update_nab _) = NonAdminBackup
Payload (Call.update_nab_status _) = NonAdminBackup
Payload (Call.create_nab _) = NonAdminBackup
Payload (Call.delete_nab _) = Unit {0}
Payload (Call.list_nar _) = List NonAdminRestore
Payload (Call.delete_nar _) = Unit {0}
Payload (Call.list_backups _ _) = List Backup
Payload (Call.create_backup _) = Backup
Payload (Call.delete_backup _) = Unit {0}
Payload (Call.list_delete_requests _ _) = List DeleteBackupRequest
Payload (Call.create_delete_request _) = DeleteBackupRequest
Payload (Call.delete_delete_request _) = Unit {0}
Payload (Call.list_restores _ _) = List Restore
Payload (Call.delete_restore _) = Unit {0}
Payload (Call.list_nabsls _) = List NonAdminBackupStorageLocation
Payload (Call.list_bsls _ _) = List BackupStorageLocation
Payload (Call.delete_bsl _) = Unit {0}
Payload (Call.list_secrets _ _) = List Secret
Payload (Call.delete_secret _) = Unit {0}
Payload (Call.list_nabsl_requests _ _) = List NonAdminBackupStorageLocationRequest
Payload (Call.delete_nabsl_request _) = Unit {0}
Payload (Call.list_pod_volume_backups _ _) = List PodVolumeBackup
Payload (Call.list_data_uploads _ _) = List DataUpload
Payload (Call.update_nar _) = NonAdminRestore
Payload (Call.update_nar_status _) = NonAdminRestore
Payload (Call.create_restore _) = Restore
Payload (Call.list_pod_volume_restores _ _) = List PodVolumeRestore
Payload (Call.list_data_downloads _ _) = List DataDownload
Payload Call.now = Time
Payload (Call.get_backup _) = Backup
Payload (Call.get_restore _) = Restore
Payload (Call.get_download_request _) = DownloadRequest
Payload (Call.create_download_request _) = DownloadRequest
Payload (Call.delete_nadr _) = Unit {0}
Payload (Call.patch_nadr_status _ _) = NonAdminDownloadRequest

pub data Reply (A : Type 0) : Type 0 where
  ok : A → Reply A
  err : ApiError → Reply A

-- A Go function that talks to the API server: it returns a value, returns an error, panics (a nil
-- dereference or a slice out of range), or makes a call and goes on with the answer.
pub data Prog (A : Type 0) : Type 0 where
  ret : A → Prog A
  fail : Error → Prog A
  panic : Prog A
  call : (c : Call) → (Reply (Payload c) → Prog A) → Prog A

infixl 5 ◌>>=◌ ◌>>◌
abbrev pub ◌>>=◌ : {A B : Type 0} → Prog A → (A → Prog B) → Prog B
ret a >>= f = f a
fail e >>= f = fail e
panic >>= f = panic
call c k >>= f = call c (λ r. k r >>= f)

abbrev pub ◌>>◌ : {A B : Type 0} → Prog A → Prog B → Prog B
m >> k = m >>= λ _. k

abbrev pub settle : {A : Type 0} → Reply A → Prog A
settle (ok a) = ret a
settle (err e) = fail (Error.api e)

-- `if err := …; err != nil { return …, err }`
abbrev pub perform : (c : Call) → Prog (Payload c)
perform c = call c settle

-- The answer with its error, for code that looks at `err`.
abbrev pub attempt : (c : Call) → Prog (Reply (Payload c))
attempt c = call c ret

pub data Result (A : Type 0) : Type 0 where
  success : A → Result A
  failure : Error → Result A

-- A function's results `(value, err)`, for callers that look at `err`.
abbrev pub try : {A : Type 0} → Prog A → Prog (Result A)
try (ret a) = ret (success a)
try (fail e) = ret (failure e)
try panic = panic
try (call c k) = call c (λ r. try (k r))

-- A read through a pointer that may be nil.
abbrev pub deref : {A : Type 0} → Option A → Prog A
deref Option.none = panic
deref (Option.some a) = ret a

-- How a run ends.
pub data Outcome (A : Type 0) : Type 0 where
  returned : A → Outcome A
  failed : Error → Outcome A
  panicked : Outcome A

pub data Event : Type 0 where
  event : (c : Call) → Reply (Payload c) → Event

-- The calls made so far with their answers, the latest first.
abbrev pub History : Type 0
History = List Event

-- A server's answer to a call, which may depend on all that went before.
abbrev pub Server : Type 0
Server = History → (c : Call) → Reply (Payload c)

-- Runs a program against a server.
unfoldable pub run : {A : Type 0} → Server → History → Prog A → Outcome A × History
run s h (ret a) = (returned a, h)
run s h (fail e) = (failed e, h)
run s h panic = (panicked, h)
run s h (call c k) = run s (event c (s h c) ∷ h) (k (s h c))
