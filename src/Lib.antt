-- ===== src/Lib.antt =====
-- service-provider-otel-collector: a Kubernetes service provider that runs one OpenTelemetry collector on
-- each managed control plane (MCP) whose user asks for it by an OtelCollectorService object.
--
-- The parts, and the files that model them:
-- * internal/resources, in Resources: the objects on the MCP. Namespace (ReconcileNamespace), PullSecrets
--   (ReconcileImagePullSecrets), Prerequisites (CheckPrerequisites), ConfigHash (computeConfigHash),
--   Deployment and Service (ReconcileDeployment, ReconcileService), Cleanup (DeleteManagedResources) and
--   Constants.
-- * internal/controller/otelcollectorservice_controller.go, in Controller: Resolve (the four resolve
--   functions) and Reconciler (CreateOrUpdate and Delete), which call the resources in order,
--   and Provider (the generic reconciler of pkg/spruntime with these two as its domain).
-- * pkg/spruntime, in Spruntime: Api (the interfaces), Status (status.go), Access (clusters,
--   areAccessRequestsInDeletion, retrieveSecretKey), Reconciler (Reconcile, delete, createOrUpdate,
--   updateStatus), which calls the controller, and ConfigEvents (pcreconciler.go and the event handler of
--   SetupWithManager), which replaces the cached config. Builders has the constructors New* and With* of
--   both reconcilers, Setup their methods SetupWithManager, and System the two reconcilers together: runs
--   of each, and the events between them, in any order.
-- * api/v1alpha1, in Api: the two types and their methods; their registration is in Entry/Schemes.
-- * api/v1alpha1/zz_generated.deepcopy.go, in Api/DeepCopy: Heap (memory and the objects in it), Service,
--   Config and Objects (the copies), and the shapes by which the proofs go through the fields.
-- * cmd/service-provider-otel-collector/main.go, in Entry: Permissions (the requested rules, and what RBAC
--   says of rules), Options (flags and the options of the servers), Schemes (init, and SchemeBuilder of
--   api/v1alpha1), Clusters (the settings of the access to the other clusters) and Program (main), which
--   wires the reconcilers and starts the manager.
-- The child modules of a module are named for what they say of it. Base has the shared names, numbers and
-- the monad of calls, Kube the objects of Kubernetes, the client's interface and the laws of a client, and
-- Examples an in-memory installation that meets the laws, with runs on it.
--
-- How the code is read. A function that calls a cluster takes the state of all clusters and returns a
-- result, or an error, with the new state (`Exec`, `Call`); a method that changes an object through its
-- pointer has the object in its state too (`Step`). Go's `(value, error)` is `Result`; where a caller reads
-- the value beside an error, it is a pair. A nil pointer is `none`, and following it gives the error that
-- controller-runtime makes of a panic, which `is_panic` tells from a returned one: the status of the object
-- is neither set nor written after it (`failing`, `report`). Outside of Api/DeepCopy an object is a value,
-- so that a deep copy is the object itself. A Go map is the list of its entries. Bodies of Go functions
-- that have several tests in a row are split into functions of their own, which the comments name by the
-- code they stand for.
--
-- Parameters. The client of a cluster, the access provider of openmcp-operator, SetStatusCondition, the
-- finalizer functions, `errors.New`, `%w` and `%q`, the SHA-256 digest and semantic equality are code of
-- other repositories. They are fields of `Runtime`, `Client`, `ClusterAccessProvider` and `ObjectClient`.
-- What is relied on of them is written down in Kube/Laws (`IsLawful`: what a reply means and what a call
-- leaves alone, where a call may fail at any time; `Serves`: a cluster that answers meets a request that
-- can be met; `Ignores`: a client works on another cluster), in Spruntime/Status/Reported, and for the
-- two reconcilers together with the collector in Controller/Finalized (`Separate`), Controller/Served
-- (`Connects`, `Hosts`) and Controller/Ending (`Ending`), and for the schemes in Entry/Schemes/Known
-- (`IsAdditive`).
--
-- What main calls is in `Environment`: flag parsing, the access manager, the CRD manager, the manager,
-- and what the builder of controller-runtime makes of the reconcilers that are set up. A panic in a call
-- whose error ends the program is not told from that error; one in a call whose error the init job logs ends
-- the program.
--
-- A run of `delete` relies on this: access requests that are missing or in deletion mean that the cleanup
-- was done in an earlier run. The code skips the cleanup then, whoever removed the requests.
--
-- There is no fuel: the only loops run over lists that are given. The runs that a deletion takes are counted
-- by how often the access provider still asks to be called again.
--
-- Not modelled: the CRDs that are embedded, logging, contexts, the queue that calls Reconcile, and the
-- end-to-end tests. In Spruntime/System a run of a reconciler is one step.
pub mod Base
pub mod Kube
pub mod Spruntime
pub mod Api
pub mod Resources
pub mod Controller
pub mod Entry
mod Examples
