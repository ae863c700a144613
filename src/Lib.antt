-- ===== src/Lib.antt =====
-- Sandboxes that teleport: a model of the control plane.
--
-- A session is a sandbox with a name. It runs on a worker pod, is checkpointed to object storage when
-- it is idle, and is restored on any other worker when a request arrives. The control plane
-- (checkpoint-restore/controlplane) decides where a session runs. All that it knows is the assignment
-- table, which is kept in Valkey and is written by several processes: the operator's workflows and
-- sweepers, and the router, which stamps activity.
--
-- The parts:
-- Prelude: names of the library, Boolean tests, list helpers and results.
-- Api: the records of checkpoint-restore/shared/resumeapi/resumeapi.go and the messages of
--   checkpoint-restore/shared/sbxapi/sbxapi.go.
-- Valkey: the server, as records of commands and their documented laws. `Valkey/Memory` meets
--   them, so that every definition runs on concrete inputs.
-- Assign: checkpoint-restore/controlplane/internal/assign/assign.go. `Assign/Table` is the state;
--   `Assign/Sessions` and `Assign/Workers` have one function per method of Client, with its Lua
--   script; `Assign/History` has any sequence of calls as a relation.
-- Resume: checkpoint-restore/controlplane/internal/resume. `Resume/Types` has the state of a
--   workflow (`Plane`: the table, the calls of the mirror, the pools that were notified) and what
--   surrounds it (`World`); `Resume/Cas` has the compare-and-set loops; `Resume/Plan`,
--   `Resume/Start` and `Resume/Workflow` have Resume of resume.go; `Resume/Suspend` has suspend.go,
--   `Resume/Checkpoint` has checkpoint.go, and `Resume/Heal` has selfheal.go.
-- Discovery: checkpoint-restore/controlplane/internal/controller/worker_discovery.go. It registers
--   pods in the table, prunes the entries of pods that are gone, and reclaims workers whose binding
--   leaked.
-- Gc: checkpoint-restore/controlplane/internal/gc/gc.go. `Ground` is the table with the prefixes that
--   were deleted and the sessions that the reaper was asked for.
-- Router: checkpoint-restore/controlplane/internal/router/router.go, with the operator as an argument.
--
-- Cluster: the custom resources of checkpoint-restore/controlplane/api/v1alpha1, as far as the
--   controllers read and write them, with upsertCondition of internal/controller/helpers.go. The API
--   server is a record of calls and their documented behaviour, which `Cluster/Memory` meets, and
--   `Answers` says which calls fail.
-- Durability: session_durability.go of internal/controller: the mirror of a session's entry in its
--   Session resource, the reaper of Session resources, and the rebuild of the entries from them.
-- Controllers: the reconcilers of internal/controller. `Controllers/Requests` has
--   session_controller.go, `Controllers/Pools` has warmpool_controller.go, `Controllers/Forks` has
--   forkset_controller.go, `Controllers/Promotion` has basesnapshot_controller.go,
--   `Controllers/Reaper` has basereaper.go, and `Controllers/Plans` has what resume_glue.go makes of the
--   resources for the workflows.
-- Resume/Handler: handler.go of internal/resume with resumeclient.go of internal/router, so both
--   ends of POST /resume.
-- Storage: internal/snapshot/snapshot.go, over a record of calls of S3 that `Storage/Memory` meets
--   with pages of one key.
-- Sandboxd: memlimit.go, credvendor.go and supervisor.go of checkpoint-restore/sandboxd, the worker.
--
-- Conventions. A Lua script is atomic in Valkey, so one call of a script is one step from table to table.
-- DeleteSession, the sweeps and PoolWorkers are several commands: `Assign/History` lets each run to its
-- end, and `Assign/Sessions/Interleaved` has a write that comes between the commands of a delete. Between
-- two calls of a workflow other clients may write: `World.others` gives what they do around each turn
-- of a compare-and-set loop, and is arbitrary unless a theorem says that the world is quiet.
-- Times are milliseconds, or seconds in the credential vendor, and numbers are natural: the source has no negative ones in these fields.
-- Identifiers and addresses are texts, "" when they are not set. The answer of a worker is a function
-- of its address and the request. The compare-and-set loops have the five turns of the source and
-- return a conflict after them; every other loop is over a list, except the one over the pages of a
-- listing, whose fuel is one for each page that is to come: that the pages of a bucket come to an end is
-- assumed of the service.
--
-- Not modelled: failures of the connection to Valkey, JSON encoding, metrics and logs. A deadline is an
-- answer that does not come, and `World.late` says whether it has passed once a call of a worker has
-- failed, where what follows the failure runs under it (the undoing of a resume, the release of a
-- deleted session); a deadline that passes between two calls that succeed is not modelled. Also not
-- modelled: the glue of the controllers; the
-- worker's handlers and its engines, which call runsc, Cloud Hypervisor and
-- the kernel.
pub mod Prelude
pub mod Api
pub mod Cluster
pub mod Valkey
pub mod Assign
pub mod Resume
pub mod Discovery
pub mod Gc
pub mod Router
pub mod Durability
pub mod Controllers
pub mod Storage
pub mod Sandboxd
mod Tests
