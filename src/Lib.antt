-- ===== src/Lib.antt =====
-- The gardener resource manager: controllers that apply the objects of ManagedResources to a target
-- cluster, watch their health, and keep the secrets that they refer to.
--
-- Parts, and the files that model them (paths from the repository's root):
--
-- - api/resources/v1alpha1/types.go and helper/helper.go: Api/Types and Api/Conditions. The types are
--   records, and of the object metadata stands there what the controllers read. `Now()` is an argument.
-- - pkg/filter/filter.go: Filter. ClassFilter, Responsible, Active and the predicate made of them.
-- - pkg/controller/managedresource: objectindex.go in Keys and ObjectIndex, equivalences.go in
--   Equivalences, merger.go in Merge and its children, cleaner.go in Reconciler/Cleaner, and
--   reconciler.go in Reconciler: Annotations, Scaling (computeAllScaledObjectKeys, isScaled), Labels
--   (injectLabels), Cleaning (cleanOldResources), Applying (applyNewResources), Decoding (the loops over
--   secrets, keys and documents), Control (status updates), Steps (the first steps of reconcile) and Run
--   (Reconcile, reconcile, delete). sort.go is in Sorting, add.go in Controllers.
-- - pkg/controller/utils/utils.go: Utils, with Backoff (exponentialBackoff), Update (tryUpdate),
--   Finalizers (EnsureFinalizer, DeleteFinalizer) and CreateOrUpdate (TypedCreateOrUpdate).
--   multierror.go is in ErrorLists.
-- - pkg/health/health.go and pkg/controller/health: Health, with the checks, the dispatch on the kind
--   (CheckHealth) and the reconciler of the condition ResourcesHealthy.
-- - pkg/controller/secret/reconciler.go: Secrets.
-- - pkg/mapper: Mapper. pkg/predicate: Predicates.
-- - pkg/cmd: Cmd, with Manager, Source and Target. The add.go of the three controllers: Controllers, with
--   the options, what is watched, and the cluster id.
-- - cmd/gardener-resource-manager/app/app.go: App, the set-up of the command, and App/Running, its end.
--   pkg/healthz: Healthz. The libraries that these call are the records Platform and Registrar.
-- - pkg/manager: Builders, with Resources and Secrets.
--
-- Prelude holds the shared types, tests and lemmas, Errors the errors with the reasons by which the code
-- tells them apart, Exec the effects, Objects the objects of the target cluster.
--
-- State. Code that talks to an API server is a function from a world to a result beside a world. The
-- world is a parameter, as are the calls of clients: what other clients do between two calls is part of
-- the step that a call makes. A pointer that a call overwrites is a value beside the world (Run in
-- Reconciler/Control). Go maps are association lists. The sets of Equivalences are shared between kinds
-- through a table of positions, as the code shares map values. Members of a set are tried in the
-- order in which they came, where Go leaves the order open. The REST mapper answers for all objects of a
-- run as at its start. Pod templates and metadata that two objects
-- share are written through to both.
--
-- Goroutines. A goroutine is a tree of the calls that it makes (Task in Goroutines), and a schedule any
-- sequence of their steps, with changes of the world by other clients in between. The goroutines of
-- cleanOldResources and of applyNewResources are modelled so in Reconciler/Cleaning/Concurrent and
-- Reconciler/Applying/Concurrent, beside the reading in which they run one after the other, which the
-- rest of the reconciler uses.
--
-- Parameters. Clients, the scheme with its conversions, the REST mapper, the YAML decoder, retries,
-- deep equality, the clock and sort.Sort are arguments; records named Is… state what is relied on of
-- them. What sort.Sort may do, and how it leaves the references, is a step relation (Sorting).
--
-- Loops. Loops over lists are structural. The loop of exponentialBackoff is recursion on the steps that
-- remain, so that no fuel is needed; a document stream is the finite list of what the decoder yields.
--
-- The end of the command (App/Running) is a step relation of RunE, its two goroutines with the wait group
-- and the channel of errors, and the signal; Start of the libraries may return at any time.
--
-- The digits of a number take fuel, one more than the number (Prelude/Decimals).
--
-- Not modelled: time limits of contexts; logging; how flags are parsed; the registration of types in
-- schemes; generated deep copies and mocks.
pub mod Prelude
pub mod Errors
pub mod Exec
pub mod Api
pub mod Filter
pub mod Keys
pub mod Equivalences
pub mod ObjectIndex
pub mod Objects
pub mod Merge
pub mod Health
pub mod Utils
pub mod Sorting
pub mod Goroutines
pub mod ErrorLists
pub mod Reconciler
pub mod Secrets
pub mod Mapper
pub mod Predicates
pub mod Cmd
pub mod Controllers
pub mod Healthz
pub mod App
pub mod Builders
pub mod Tests
