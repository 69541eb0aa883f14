-- ===== src/Lib.antt =====
-- Entropy manages resources, such as a Kafka consumer on a Kubernetes cluster, through modules. This
-- library models the core of the server and the job queue beside it, and proves what they promise.
--
-- The parts and how they interact. The resource service (core/) reads and writes resources in a store.
-- To plan a change, to sync a resource or to read its output it asks the module service
-- (core/module/), which finds the module of the resource's kind in its own store, checks the
-- request against the module's descriptor and calls the driver that the registry
-- (modules/registry.go) has made for it. The worker (pkg/worker/) runs jobs from a queue, which is a
-- table of PostgreSQL (pkg/worker/pgq/).
--
-- The files:
--   Base          what all share: Boolean tests, lists, Go's maps and strings
--   Errors        pkg/errors/errors.go; Errors/Category internal/server/serverutils/grpcerror.go
--   Io            calls that fail, change the world or run out of fuel, and rules to reason on them
--   Resource      core/resource/: Resource, State, Validate, GenerateURN; Resource/Filter Filter
--   Module        core/module/: Module, ActionDesc, Driver; Module/Checks the checks on a request,
--                 Module/Service the service, Module/Registry modules/registry.go
--   Core          core/core.go and core/read.go: GetResource, ListResources, GetLog, GetRevisions and
--                 generateModuleSpec; Core/Write core/write.go: CreateResource, UpdateResource,
--                 DeleteResource, ApplyAction; Core/Sync core/sync.go: handleSync
--   Worker        pkg/worker/job.go: Sanitise, Attempt; Worker/Run pkg/worker/worker.go and
--                 worker_option.go; Worker/Pgq pkg/worker/pgq/: Dequeue, runHeartbeat; its Insert Enqueue
--   Postgres      internal/store/postgres/utils.go: translateErr, withinTx, runAllHooks, and the tables of
--                 schema.sql; Postgres/Modules module_store.go and module_model.go; Postgres/Tags
--                 tags_model.go; Postgres/Resources resource_store.go and resource_model.go: GetByURN;
--                 its Writes Create, Update, Delete and insertRevision, Listing List, Due
--                 fetchResourceForSync and runHeartbeat, Syncing SyncOne and the loop of RunSyncer in
--                 core/sync.go; Postgres/Revisions revision_store.go: Revisions
--   Helpers       modules/utils.go: CloneAndMergeMaps and SafeName
--   Kafka         pkg/kafka/consumer_reset.go
--   Firehose      modules/firehose/: the types, and modules/kubernetes/output.go; Firehose/Scaling keda.go
--                 and autoscaler.go, HelmValues their GetHelmValues, Configs config.go: readConfig,
--                 Templates, Charts and Release driver.go: renderTpl, mergeChartValues and
--                 getHelmRelease, Numbers and Plans driver_plan.go: getNewConsumerGroupID and Plan,
--                 Syncs driver_sync.go and driver_output.go: Sync and Output
--   Tests         the theorems at concrete inputs
-- The files below one of these hold the theorems on it and are named for what they prove.
--
-- How the code is modelled. A Go function is a function of the same name; `(T, error)` is a `Result`.
-- A function that calls out takes a world and returns it: the store, the module service, the drivers,
-- the clock and the counters are records of functions over any world, so that the theorems hold for
-- every implementation of these interfaces. Maps are association lists, whose order stands for that
-- of `range`. Times and durations are natural numbers, and a zero time is 0. The text of an error is
-- built as in the code; a formatted text is the argument of `with_msgf` and `with_causef`.
--
-- Fuel. GetResource and generateModuleSpec call one another along the dependencies, which the code
-- does not keep free of cycles. The fuel of `get_resource` bounds the depth of this recursion, so it
-- has to exceed the depth of the dependencies below the resource. All other functions are
-- structurally recursive.
--
-- The job queue's statements are functions on a table with the database's time, the rows that others
-- have locked and a list of the faults to come, each of which makes one statement fail; so are those
-- on the tables of the store. A transaction that fails puts back the rows that it found, but no number
-- that a sequence has given. A nil slice is stored as an empty one, and read as that. A hook of a write
-- gets no transaction: it is the error that it returns, and what it does elsewhere is not modelled. The 30 seconds of a lease are the interval of `open_queue`.
--
-- Not modelled: the logs, the text and attributes of the counters, the starting of the threads of
-- RunSyncer and of Worker.Run, the connections of the queue and the store, the logs and the
-- making of the driver of a firehose, whose calls of the cluster are the record `Cluster`, the drivers
-- of the other modules and the names that they build with BuildResourceName, the gRPC handlers, the
-- command line and the clients of Helm and Kubernetes. A map that a function changes in place is a
-- value that it returns, and a nil map of a trigger's metadata is not modelled.
-- Parameters stand for the JSON library, the JSON schema library, the templates of Go, SHA-256 and
-- strings.ToLower.
pub mod Base
pub mod Errors
pub mod Io
pub mod Resource
pub mod Module
pub mod Core
pub mod Worker
pub mod Postgres
pub mod Helpers
pub mod Kafka
pub mod Firehose
pub mod Tests
