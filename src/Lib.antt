-- ===== src/Lib.antt =====
-- Verification of the Logic operator: the API types with their conditions and phases and the
-- admission webhooks (api/v1), the reconciliation of workflow definitions, runtimes, services and
-- platforms (internal/controller), and the workflow gateway (workflow-gateway), which routes HTTP
-- requests for workflows to the runners.
--
-- The parts and how they interact. The webhooks decide which resources exist. The reconciler of
-- definitions puts labels on a LogicFlowDefinition and writes its document into a ConfigMap; the
-- reconciler of runtimes mounts the ConfigMaps of a runtime into its Deployment and keeps one
-- lease for each replica; the reconciler of services exposes a runtime and puts a URL into the
-- status of a LogicFlowService; the reconciler of platforms runs its components and sums up their
-- statuses. The gateway's informers keep these resources; `Watcher.doRecompute` builds the routing
-- table from them, the `Resolver` answers a destination from the table, from its cache of
-- instances and from the leases of the runners, and the HTTP server proxies to that destination,
-- or asks the Data Index whose endpoint the platform watcher keeps.
--
-- The files:
--
--   Prelude: what the parts share. Prelude/Tests has Boolean tests and equality, Prelude/Lists
--     slices, Prelude/Results values with errors, Prelude/Assoc Go's maps, Prelude/Text texts and
--     their tests.
--   Api/Conditions: api/v1/status_types.go (SetCondition, FindCondition, DerivePhase).
--   Api/Definition, Api/Service, Api/Application, Api/Platform, Api/Runtime: the resource types of
--     api/v1, with ParseFlow and TotalWeight.
--   Admission: the webhooks of api/v1. Service is logicflowservice_webhook.go, Definition
--     logicflowdefinition_webhook.go, Platform logicplatform_webhook.go, Runtime
--     logicflowruntime_webhook.go and validation.go.
--   Controller/Definition: internal/controller/logicflowdefinition_controller.go (Reconcile,
--     updateFlowIDLabels, checkRuntimeConsistency, applyConfigMap).
--   Api/Container: api/v1/podtemplate_types.go.
--   Controller/Objects: internal/controller/common_objects.go.
--   Controller/Workload: internal/controller/application_objects.go (ToDeploymentSpec and the main
--     container).
--   Controller/Quarkus, Controller/Variables: internal/controller/quarkus_config.go (Service,
--     image, probes and mounts; environment variables).
--   Controller/Pool: reconcileLeases and reconcilePodRBAC of
--     internal/controller/logicflowruntime_controller.go, with newMemberLease of
--     logicflowruntime_objects.go.
--   Controller/Runner, Controller/Status, Controller/Runtime: applyDeployment, updateStatus and
--     Reconcile of internal/controller/logicflowruntime_controller.go.
--   Controller/Ingress: internal/controller/logicflowservice_objects.go.
--   Controller/Address: internal/controller/ingress_helpers.go.
--   Controller/Service, Controller/Networking: internal/controller/logicflowservice_controller.go
--     (the definitions, the URL and the status; applyNetworking and Reconcile).
--   Controller/Platform: internal/controller/logicplatform_controller.go (the phases of Reconcile,
--     updateLogicPlatformReadiness, writeStatus) over the interface of platform_component.go.
--   Controller/Persistence: updateStatusPersistence of internal/controller/platform_dataindex.go.
--   Controller/DataIndex: updateDataIndexStatus of internal/controller/platform_dataindex.go. Of a
--     step that fails it gives the error, and not what was written into the status before.
--   Controller/Traffic: splitTrafficTargets and buildTrafficTargets of
--     internal/controller/logicflowservice_controller.go.
--   Gateway/Routing: workflow-gateway/internal/routing (Resolver, ExecutionEndpointStore,
--     InstanceStore).
--   Gateway/Lease: workflow-gateway/internal/lease (PodFor).
--   Gateway/Catalog: workflow-gateway/internal/catalog. Urls is validate.go, Build is build.go,
--     Watcher is doRecompute of watcher.go.
--   Gateway/Platform: workflow-gateway/internal/platform (PlatformStore and its watcher).
--   Gateway/DataIndex: workflow-gateway/internal/dataindex (the GraphQL client).
--   Gateway/Definitions: workflow-gateway/internal/definitions (FetchDefinition).
--   Gateway/Server: workflow-gateway/internal/server/server.go (the handlers).
--   Examples: data, and the theorems at that data.
--
-- Conventions. A method that changes its receiver is a function from the old state to the new one.
-- A pointer that may be nil is an Option, an error result an Outcome. A Go map is an association
-- list; a loop over a map, whose order Go leaves open, takes the order as the parameter `range`.
-- Each method that holds a lock is one step. Where a reconciler changes the cluster, the state of
-- the cluster is a type `W`, and each request to the API server is a parameter that gives an
-- answer and the next state; a list is that of the state, without the lag of a cache. A 32-bit
-- weight is kept as its bit pattern, with the wrap-around of its sum written out; the schema of
-- the resource keeps it between 0 and 100, which is a hypothesis where it matters. Loops are
-- recursion on the list they visit, so no fuel is used.
--
-- What is not under this repository is a parameter: the Kubernetes client and its caches,
-- `meta.SetStatusCondition` and `meta.FindStatusCondition` of apimachinery, the workflow parser of
-- the Serverless Workflow SDK, net/url, encoding/json, the reverse proxy with the runner behind
-- it, and the HTTP exchange with the Data Index. Letters fold to lower case as ASCII does.
--
-- Not modelled: the three components of a platform (Data Index, but for its status, Vector and
-- Workflow Gateway), which the reconciler of platforms calls through an interface, the
-- registration of watches, transition times, contexts and logging, the delay that joins
-- recomputations, the router of the HTTP server, starting and stopping, the command-line client
-- and generated code.
mod Prelude
pub mod Api
pub mod Gateway
pub mod Admission
pub mod Controller
pub mod Examples
