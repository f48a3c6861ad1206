-- ===== src/Lib.antt =====
-- A verification library for nvidia-gpu-scheduler: a scheduler extender for nvidia gpus by model,
-- with a controller of node health.
--
-- gpuserver-ds runs on each node and publishes the node's gpus as a GpuNode object and the gpu
-- pods as GpuPod objects. gpuserver watches these objects: the reconcilers put each GpuNode into
-- the shared GpuNodeCache and notify the clients that watch; the lifecycle controller marks a
-- GpuNode as healthy or not by its lease; the extender answers the cluster's scheduler from the
-- cache, through the framework and its one plugin, GpuModelFit.
--
--   Prelude, Words: lists, maps, tests, and int64 arithmetic
--   Sets: sets.String of k8s.io/apimachinery as a parameter, and a plain value of it
--   Api: api/jsonstruct, api/gpunode/v1/gpunode_types.go, api/gpupod/v1/gpupod_types.go
--   ModelName: pkg/util/stringfmt.go (NormalizeModelName, MetadataToName)
--   PodSpec: pkg/util/server/common.go (GetPodRequestGpuNum) and
--     pkg/gpuserver-ds/controller/podwatcher.go (isGpuPod, isActivePod)
--   NodeCache: pkg/util/server/cache/nodeinfo_cache.go (GpuNodeCache)
--   Scheduler: pkg/gpuserver/scheduler/framework and its runtime (NewFramework, RunFilterPlugins,
--     RunScorePlugins)
--   GpuModelFit: pkg/gpuserver/scheduler/framework/plugins (Filter, Score, the registry) and
--     pkg/gpuserver/controller/controller.go
--   Extender: pkg/gpuserver/router/schedulerserver/schedulerserver.go, with Workers for the parallel
--     check of the nodes and Handlers for the three handlers
--   Watch: pkg/util/server/watcher, the notification in pkg/gpuserver/controller, and the close of a
--     channel when a client goes away
--   Session: pkg/gpuserver/router/metricserver/metricserver.go (getGpuPodHandler, getGpuNodeHandler),
--     the steps of a watch request, of its goroutine and of the notifications
--   Reconcile: gpunode_reconciler.go and gpupod_reconciler.go of pkg/gpuserver/controller
--   Lifecycle: pkg/gpuserver/controller/gpunode_lifecycle_controller.go
--   Report: pkg/util/serverds/common.go and the report of the GpuNode in
--     pkg/gpuserver-ds/controller/controller.go
--   Tables: pkg/util/server/nodeinfocache.go, pkg/util/server/nodestatuscache.go and
--     pkg/util/serverds/gpuinfocache.go
--   PodReport: the rounds over the gpu pods (fileterPodResource, updatePodResourceFunc) and ToGpuPod
--     of pkg/gpuserver-ds/controller/controller.go and pkg/util/serverds/common.go
--   PodStore: the GpuPods in the api server (ensureGpuPod, getAndUpdateGpuPod, producePodResourceCrd,
--     cleanGpuPod, cleanPodResourceCrd, cleanPodResourceCrdInit) of the same controller
--   PodJobs: the same functions as goroutines that interleave, in moves of one lock section or call
--   DsLoop: NewServerDSController and the loop of Start of the same controller
--   GpuCheck: pkg/gpuserver-ds/controller/hostgpuchecker.go, and updateGpuInfo of controller.go
--   PodWatcher: pkg/gpuserver-ds/controller/podwatcher.go (NewPodWatcher, Start)
--   Startup: cmd/gpuserver/app/server.go (Server), cmd/gpuserver-ds/app/server.go (Agent),
--     pkg/util/server/server.go (Clients), pkg/gpuserver/certs/util/util.go (Certs) and
--     pkg/gpuserver/controller/gpu_manager.go (Manager)
--   CommandLine: cmd/gpuserver/app/app.go and cmd/gpuserver-ds/app/app.go
--   Shutdown: pkg/util/signal/signal.go, and what it does to the indexes of Watch (Watchers)
--   Routing: pkg/gpuserver/router (local.go, init/register.go and the routes of both servers)
--   Lease: pkg/util/serverds/gpunodelease.go and pkg/gpuserver-ds/controller/lease_controller.go
--   Metadata, NameFlag, Secrets: pkg/util/info/metadata/metadata.go, pkg/nameflag/nameflag.go and
--     pkg/util/serverds/server.go
--   Examples: concrete runs
--
-- State is passed explicitly: a method under a lock is one step on the state. Errors, panics,
-- exits and bad requests are values. int64 counts are numbers below 2 ^ 64, and the int32 counter
-- of the handlers wraps at 2 ^ 32. There is no fuel: loops are recursion on lists, the loops that
-- run until a signal take the turns that they are given, the workers of a request and a watch
-- request are step relations, and a poll and a report have the attempts that they are given. Maps
-- are association lists in the order of one run.
--
-- The parts meet where the code has them meet: DsLoop calls Report and PodStore, and NodeGpuInfo
-- is what GpuCheck sends to it; Report makes the GpuNode that Reconcile receives and puts into
-- the NodeCache that GpuModelFit reads; Startup makes the states in which the loops begin.
--
-- Parameters: sets of texts, the gpu info of a device in a round over the pods, NVML,
-- reflect.DeepEqual of pods, workqueue.ParallelizeUntil, the answers of the api server, of the
-- lease lister and of the kubelet, the clock, how often wait.PollImmediate and retry.OnError run
-- what they are given, and what the library calls of the start-up answer. That the api server
-- holds what it answers with, with the spec that it was sent, is a hypothesis where a result
-- needs it (Storing).
--
-- Not modelled: the interleaving of the loop of gpuserver-ds with the goroutines that its rounds
-- start, which interleave with each other in PodJobs; the loop takes a whole turn at a time, and
-- lists them as jobs. Blocking sends of the pod watcher, the shutdown of the server and the logs
-- are glue around libraries. The certificate writers and the pod resources client are copies of
-- other projects' code, and pkg/generated is generated.
mod Prelude
pub mod Sets
pub mod Api
pub mod ModelName
pub mod Words
pub mod PodSpec
pub mod NodeCache
pub mod Scheduler
pub mod GpuModelFit
pub mod Extender
pub mod Watch
pub mod Reconcile
pub mod Lifecycle
pub mod Report
pub mod Tables
pub mod PodReport
pub mod PodStore
pub mod DsLoop
pub mod CommandLine
pub mod Shutdown
pub mod PodJobs
pub mod GpuCheck
pub mod PodWatcher
pub mod Startup
pub mod Routing
pub mod Lease
pub mod Metadata
pub mod NameFlag
pub mod Secrets
pub mod Session
mod Examples
