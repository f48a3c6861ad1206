-- ===== src/Reconcile.antt =====
-- The reconcilers of gpuserver: pkg/gpuserver/controller/gpunode_reconciler.go and
-- gpupod_reconciler.go. What the api server answers to a Get is an argument. A panic of a
-- notification ends the round without a result: `none`.
pub mod Effects
use nvidia_gpu_scheduler.Prelude.{Option, none, some, List, [], String}
use nvidia_gpu_scheduler.Api.{GpuNode, GpuPod}
use nvidia_gpu_scheduler.NodeCache.{GpuNodeCache, set_gpu_node}
use nvidia_gpu_scheduler.Watch.{WatchIndex, deleted, synced, EventType, notify_watchers}

-- What r.Get returns: the object, IsNotFound, or another error.
pub data Got (A : Type 0) : Type 0 where
  found : A → Got A
  not_found : Got A
  failed : String → Got A

-- What getGpuNode and getGpuPod return: a nil pointer for a deleted object.
pub data Fetched (A : Type 0) : Type 0 where
  fetched : Option A → Fetched A
  fetch_error : String → Fetched A

unfoldable pub get_object : {A : Type 0} → Got A → Fetched A
get_object (found a) = fetched (some a)
get_object not_found = fetched none
get_object (failed e) = fetch_error e

-- The object that stands for a deleted one: its namespace and name only.
abbrev pub deleted_gpu_node : String → String → GpuNode
deleted_gpu_node namespace name = record {
  namespace = namespace;
  name = name;
  uid = "";
  resource_version = "";
  spec = record { gpu_infos = []; models = []; node_device_in_use = []; report_time = none };
  status = record {
    node_name = "";
    health = "";
    message = "";
    last_healthy_time = none;
    last_transition_time = none;
  };
}

abbrev pub deleted_gpu_pod : String → String → GpuPod
deleted_gpu_pod namespace name = record {
  namespace = namespace;
  name = name;
  resource_version = "";
  labels = [];
  spec = record { name = ""; namespace = ""; node_name = ""; container_devices = [] };
  last_changed_time = none;
}

-- DefaultGpuNodeCache and GpuNodeWatcher.
pub record NodeServer : Type 0 where
  pub cache : GpuNodeCache
  pub watchers : WatchIndex GpuNode

-- A round of a reconciler: the new state, and the error for which the request is queued again.
abbrev pub Round : Type 0 → Type 0
Round S = Option (S × Option String)

abbrev notified : GpuNodeCache → Option (WatchIndex GpuNode) → Round NodeServer
notified cache none = none
notified cache (some w) = some (record { cache = cache; watchers = w }, none)

node_round : String → String → Fetched GpuNode → NodeServer → Round NodeServer
node_round namespace name (fetch_error e) s = some (s, some e)
node_round namespace name (fetched none) s =
    notified s.cache (notify_watchers (deleted_gpu_node namespace name) deleted s.watchers)
node_round namespace name (fetched (some n)) s =
    notified (set_gpu_node n.name n s.cache) (notify_watchers n synced s.watchers)

-- Reconcile of GpuNodeReconciler, for a request that names an object.
unfoldable pub reconcile_gpu_node : String → String → Got GpuNode → NodeServer → Round NodeServer
unfolding node_round get_object
reconcile_gpu_node namespace name got s = node_round namespace name (get_object got) s

-- getGpuPod
abbrev pub get_gpu_pod : Got GpuPod → Fetched GpuPod
get_gpu_pod got = get_object got

-- notifyWatchersGpuPod
abbrev pub notify_watchers_gpu_pod :
    GpuPod → EventType → WatchIndex GpuPod → Option (WatchIndex GpuPod)
notify_watchers_gpu_pod gpu_pod etype w = notify_watchers gpu_pod etype w

abbrev pod_notified : Option (WatchIndex GpuPod) → Round (WatchIndex GpuPod)
pod_notified none = none
pod_notified (some w) = some (w, none)

pod_round : String → String → Fetched GpuPod → WatchIndex GpuPod → Round (WatchIndex GpuPod)
pod_round namespace name (fetch_error e) w = some (w, some e)
pod_round namespace name (fetched none) w =
    pod_notified (notify_watchers_gpu_pod (deleted_gpu_pod namespace name) deleted w)
pod_round namespace name (fetched (some p)) w = pod_notified (notify_watchers_gpu_pod p synced w)

-- Reconcile of GpuPodReconciler.
unfoldable pub reconcile_gpu_pod :
    String → String → Got GpuPod → WatchIndex GpuPod → Round (WatchIndex GpuPod)
unfolding pod_round get_object
reconcile_gpu_pod namespace name got w = pod_round namespace name (get_gpu_pod got) w
