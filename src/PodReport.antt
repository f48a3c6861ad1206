-- ===== src/PodReport.antt =====
-- The report of a node's gpu pods by gpuserver-ds: fileterPodResource and updatePodResourceFunc of
-- pkg/gpuserver-ds/controller/controller.go, and ToGpuPod of pkg/util/serverds/common.go. The gpu
-- info of a device (updateGpuInfo, which asks the driver) and reflect.DeepEqual are parameters. The
-- goroutines that a round starts are its jobs, in the order in which it starts them.
pub mod Jobs
pub mod Keyed
pub mod Listed
pub mod Sent
pub mod Unchanged
use Prim.Native.String.{◌++◌ as concat}
use nvidia_gpu_scheduler.Prelude.{
  ℕ, Bool, true, false, not, ◌||◌, List, [], ◌∷◌, ◌++◌, map, Option, none, some, String, str_eq,
  Map, lookup, insert, if◌then◌else◌,
}
use nvidia_gpu_scheduler.Api.{GpuInfo, ContainerResourcesDetail, GpuPodSpec, GpuPod}
use nvidia_gpu_scheduler.ModelName.{metadata_to_name}
use nvidia_gpu_scheduler.PodSpec.{nvidia_gpu_resource_name}
use nvidia_gpu_scheduler.Report.{ContainerDevices, ContainerResources, PodResources}

pub record PodResourcesDetail : Type 0 where
  pub pod_resources : PodResources
  pub container_devices : List ContainerResourcesDetail

-- The devices of the first entry for nvidia gpus.
gpu_infos_of : (String → GpuInfo) → List ContainerDevices → List GpuInfo
gpu_infos_of info [] = []
gpu_infos_of info (d ∷ ds) =
    let rest = gpu_infos_of info ds in
    if str_eq d.resource_name nvidia_gpu_resource_name then map info d.device_ids else rest

abbrev has_entry : List ContainerDevices → Bool
has_entry [] = false
has_entry (d ∷ ds) = true

pub container_details : (String → GpuInfo) → List ContainerResources → List ContainerResourcesDetail
unfolding gpu_infos_of
container_details info [] = []
container_details info (c ∷ cs) =
    let rest = container_details info cs in
    if has_entry c.devices
    then record { name = c.name; device_info = gpu_infos_of info c.devices } ∷ rest
    else rest

has_device : List ContainerResources → Bool
has_device [] = false
has_device (c ∷ cs) = has_entry c.devices || has_device cs

unfoldable pub fileter_pod_resource :
    (String → GpuInfo) → List PodResources → List PodResourcesDetail
unfolding container_details has_device
fileter_pod_resource info [] = []
fileter_pod_resource info (pr ∷ prlist) =
    let rest = fileter_pod_resource info prlist in
    if has_device pr.containers
    then record { pod_resources = pr; container_devices = container_details info pr.containers }
      ∷ rest
    else rest

-- What a round starts: producePodResourceCrd, or cleanPodResourceCrd with the name of a GpuPod.
pub data Job : Type 0 where
  produce : PodResourcesDetail → Job
  clean : String → Job

pub record Sync : Type 0 where
  pub prmap_new : Map PodResources
  pub jobs : List Job
  pub changed : Bool

abbrev pub podidx : PodResources → String
podidx pr = concat pr.namespace (concat "/" pr.name)

-- `go …; changed = true`, under a test that it is not needed
pub start_unless : Bool → Job → Sync → Sync
start_unless true job u = u
start_unless false job u = record u { jobs = u.jobs ++ job ∷ []; changed = true }

abbrev pub exist : Option PodResources → Bool
exist none = false
exist (some pr) = true

unfoldable pub sync_old : Map PodResources → Sync → Sync
unfolding lookup metadata_to_name start_unless
sync_old [] u = u
sync_old ((k, pr) ∷ prmap_old) u = sync_old prmap_old (
    start_unless (exist (lookup (podidx pr) u.prmap_new))
      (clean (metadata_to_name pr.namespace pr.name)) u)

module _ (deep_equal : PodResources → PodResources → Bool) where
  -- DeepEqual of the old entry, nil for a missing one, and the new one
  abbrev pub is_same : Option PodResources → PodResources → Bool
  is_same none pr = false
  is_same (some old) pr = deep_equal old pr

  unfoldable pub sync_new : Map PodResources → List PodResourcesDetail → Sync → Sync
  unfolding insert lookup start_unless
  sync_new prmap_old [] u = u
  sync_new prmap_old (prd ∷ prds) u =
      let pr = prd.pod_resources in
      sync_new prmap_old prds (
        start_unless (is_same (lookup (podidx pr) prmap_old) pr) (produce prd)
          (record u { prmap_new = insert (podidx pr) pr u.prmap_new }))

  unfoldable pub update_pod_resource_func :
      (String → GpuInfo) → List PodResources → Map PodResources → Sync
  unfolding fileter_pod_resource sync_new sync_old
  update_pod_resource_func info prlist prmap_old = sync_old prmap_old (
      sync_new prmap_old (fileter_pod_resource info prlist)
        (record { prmap_new = []; jobs = []; changed = false }))

-- An empty GpuPod for the pod, or a copy of the base.
base_pod : String → Option GpuPod → PodResourcesDetail → GpuPod
unfolding metadata_to_name
base_pod node_name none prd = record {
  namespace = "";
  name = metadata_to_name prd.pod_resources.namespace prd.pod_resources.name;
  resource_version = "";
  labels = ("nvidia-gpu-scheduler.node", node_name) ∷ [];
  spec = record {
    name = prd.pod_resources.name;
    namespace = prd.pod_resources.namespace;
    node_name = node_name;
    container_devices = [];
  };
  last_changed_time = none;
}
base_pod node_name (some base) prd = base

unfoldable pub to_gpu_pod : ℕ → String → Option GpuPod → PodResourcesDetail → GpuPod
unfolding base_pod
to_gpu_pod now node_name base prd =
    let p = base_pod node_name base prd in
    record p {
      spec = record p.spec { container_devices = prd.container_devices };
      last_changed_time = some now;
    }
