-- ===== src/Lib.antt =====
-- The controllers of migtools/oadp-non-admin, which let users without administrator rights back up
-- their namespaces with Velero. A user writes a NonAdminBackup; its controller checks the spec,
-- makes a Velero backup in the namespace of the OADP operator, and keeps the status of the
-- NonAdminBackup in line with it. A NonAdminRestore is handled the same way, from the Velero backup of
-- a NonAdminBackup of its namespace. The garbage collector deletes what is left in the operator's
-- namespace of objects whose owner has gone, and the synchronizer makes a NonAdminBackup for a
-- Velero backup that has none, which the backup controller then takes over. The download controller
-- asks Velero for a URL under which a user can fetch what a backup or restore has left.
--
-- Which file models which part:
-- - Kube/Objects and Kube/Status: the types of api/v1alpha1 and the fields of Velero's and
--   Kubernetes' types that the source reads. A pointer is an `Option`. The fields of a spec that no
--   code names are numbers that stand for their identity under `reflect.DeepEqual`.
-- - Kube/Api: the calls of controller-runtime's client, and programs `Prog` that return, fail, panic
--   or make a call and go on with its answer. A program takes any answer of a call, so a theorem
--   about a program is one about every state of the cluster and every change by others between two
--   calls. `run` runs a program against a server, a function from the history of calls to an answer;
--   it needs no fuel, since a program is a finite tree along every run.
-- - Kube/Rules: rules on calls, and lemmas by which a program keeps them whatever is answered.
-- - Kube/Facts: what a history of calls says that stays true while others make calls.
-- - Kube/Vendor: constants and functions of the Go packages that the source calls, as parameters, and
--   what their documentation says of three of them.
-- - Constant: internal/common/constant/constant.go.
-- - Function and its children: internal/common/function/function.go. Metadata has the labels,
--   annotations and checks, Names `GenerateNacObjectUUID`, Lookup the lookups by label, Queue the
--   queue positions, Fields the loops over the fields of enforced specs, Validate
--   `ValidateBackupSpec` and `ValidateRestoreSpec`. Bounds, Permission, RestorePermission, Enforcement,
--   Namespaces and Queue/Order have theorems; Steps and Quiet have the lemmas on which calls the
--   functions make, and Entries those on what lookups of labels find.
-- - Loop: the loop over reconcile steps that the backup and restore controllers share.
-- - Backup and its children: internal/controller/nonadminbackup_controller.go. Status has the
--   functions that update the status, Deletion and Creation the steps of the reconcile paths, and
--   Reconcile the choice of a path and the loop over its steps; a step takes the NonAdminBackup in
--   hand and returns it as Go's pointer is left. Exact, Mirror, Exclusion, Recognition, Restores
--   and Validation have theorems, and Safety the rules for the calls of a reconcile, step by step.
-- - Restore and its children: internal/controller/nonadminrestore_controller.go, laid out as Backup.
--   Exact has theorems on the counters in the status.
-- - Collector and its children: internal/controller/garbagecollector_controller.go. Sweeps has the
--   goroutines of `Reconcile`, and Group the errgroup in which they run: a schedule says whose turn
--   it is, a turn is one call with its answer, and the first error is kept. Rules and Orphans have
--   what each goroutine keeps to and reaches, Turns carries that over to every schedule,
--   and Safety has the theorems.
-- - Synchronizer and its children: internal/controller/nonadminbackupsynchronizer_controller.go. Steps
--   has the loops of `Reconcile`, Survey what its first loop knows, Rules and Safety what it may
--   create, and Adoption how the backup controller goes on from there.
-- - Download and its children: internal/controller/nonadmindownloadrequest_controller.go, with the
--   helpers of api/v1alpha1 that it calls. The clock is a call of its own.
-- - Watch and its children: internal/predicate and internal/handler. Events has what they read of an
--   object, Predicates the filters and Handlers the requests that events become, for the backup and
--   the restore controller; Storage has both for the storage location controller. Observed, Restored,
--   Queue, Requests and Secrets have the theorems. A filter or handler that calls the API server is a
--   program.
-- - Tests: concrete clusters, and the theorems at concrete inputs.
--
-- A Go map is an association list in which the first entry of a key counts, a time a number with 0
-- for the zero time, and a string its text with lengths in bytes. A log line is not modelled. Loops
-- are structural recursion on the list they go over.
--
-- Not modelled: the controller of NonAdminBackupStorageLocation with `ValidateBslSpec`,
-- internal/source, whose timer adds requests, and cmd/main.go, which starts all of it.
pub mod Base
pub mod Kube
pub mod Constant
pub mod Function
pub mod Loop
pub mod Backup
pub mod Restore
pub mod Collector
pub mod Synchronizer
pub mod Download
pub mod Watch
pub mod Tests
