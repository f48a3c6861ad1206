-- ===== src/Report.antt =====
-- The report of a node's gpus by gpuserver-ds: pkg/util/serverds/common.go (ToGpuNode,
-- mapSetToList, getBusyDeviceSet) and ensureGpuNode, getAndUpdateGpuNode and produceNodeGpuInfoCrd
-- of pkg/gpuserver-ds/controller/controller.go. The api server is a parameter on a state of its own;
-- each try that retry.OnError makes has its own time, and the list of the times is an argument.
pub mod Content
pub mod Scheduled
pub mod Stored
pub mod Recreate
use nvidia_gpu_scheduler.Prelude.{
  ℕ, Bool, true, false, List, [], ◌∷◌, ◌++◌, map, Option, none, some, String, Map, if◌then◌else◌,
}
use nvidia_gpu_scheduler.Sets.{StringSet}
use nvidia_gpu_scheduler.Api.{GpuInfo, GpuNodeSpec, GpuNodeStatus, GpuNode}
use nvidia_gpu_scheduler.Reconcile.{Got, found, not_found, failed}

-- The kubelet's answer to List: the devices of each container of each pod.
pub record ContainerDevices : Type 0 where
  pub resource_name : String
  pub device_ids : List String

pub record ContainerResources : Type 0 where
  pub name : String
  pub devices : List ContainerDevices

pub record PodResources : Type 0 where
  pub name : String
  pub namespace : String
  pub containers : List ContainerResources

device_ids_of : List ContainerDevices → List String
device_ids_of [] = []
device_ids_of (d ∷ ds) = d.device_ids ++ device_ids_of ds

container_ids_of : List ContainerResources → List String
unfolding device_ids_of
container_ids_of [] = []
container_ids_of (c ∷ cs) = device_ids_of c.devices ++ container_ids_of cs

unfoldable pub get_busy_device_set : Map PodResources → List String
unfolding container_ids_of
get_busy_device_set [] = []
get_busy_device_set ((k, pr) ∷ prm) = container_ids_of pr.containers ++ get_busy_device_set prm

module _ (S : StringSet) where
  pub record NodeGpuInfo : Type 0 where
    pub node_name : String
    pub gpu_infos : Map GpuInfo
    pub models : Map S.Set

  unfoldable pub map_set_to_list : Map S.Set → Map (List String)
  map_set_to_list [] = []
  map_set_to_list ((k, v) ∷ mapset) = (k, S.to_list v) ∷ map_set_to_list mapset

  -- An empty GpuNode with the node's name, or a copy of the base.
  base_node : String → Option GpuNode → GpuNode
  base_node node_name none = record {
    namespace = "";
    name = node_name;
    uid = "";
    resource_version = "";
    spec = record { gpu_infos = []; models = []; node_device_in_use = []; report_time = none };
    status = record {
      node_name = "";
      health = "";
      message = "";
      last_healthy_time = none;
      last_transition_time = none;
    };
  }
  base_node node_name (some base) = base

  with_info : ℕ → Option NodeGpuInfo → GpuNode → GpuNode
  unfolding map_set_to_list
  with_info now none n = n
  with_info now (some ngi) n = record n {
    spec = record n.spec {
      gpu_infos = ngi.gpu_infos;
      models = map_set_to_list ngi.models;
      report_time = some now;
    };
    status = record n.status { node_name = ngi.node_name };
  }

  with_pods : Option (Map PodResources) → GpuNode → GpuNode
  unfolding get_busy_device_set
  with_pods none n = n
  with_pods (some prm) n = record n {
    spec = record n.spec { node_device_in_use = get_busy_device_set prm };
  }

  unfoldable pub to_gpu_node :
      ℕ → String → Option GpuNode → Option NodeGpuInfo → Option (Map PodResources) → GpuNode
  unfolding base_node with_info with_pods
  to_gpu_node now node_name base ngi prm =
      let n = with_pods prm (with_info now ngi (base_node node_name base)) in
      record n {
        status = record n.status {
          last_healthy_time = some now;
          last_transition_time = some now;
          message = "Just Populate from gpuserver-ds.";
        };
      }

  -- The fields of ServerDSController that the report uses.
  pub record Reporter : Type 0 where
    pub node_name : String
    pub gpu_node_last : Option GpuNode
    pub last_node_gpu_info : Option NodeGpuInfo
    pub podresources_last : Option (Map PodResources)

  -- The GpuNode that a reporter sends, from a base.
  abbrev pub report_of : ℕ → Reporter → Option GpuNode → GpuNode
  report_of now s base = to_gpu_node now s.node_name base s.last_node_gpu_info s.podresources_last

-- The api server's GpuNodes: an update or a creation answers with the stored object, or an error.
pub record GpuNodes (W : Type 0) : Type 0 where
  pub get : String → W → Got GpuNode
  pub update : GpuNode → W → Option GpuNode × W
  pub create : GpuNode → W → Option GpuNode × W

module _ (S : StringSet) {W : Type 0} (api : GpuNodes W) where
  -- The new state, and whether there is no error.
  abbrev pub Reported : Type 0
  Reported = (Reporter S × W) × Bool

  remember : Reporter S → Option GpuNode × W → Reported
  remember s (none, w) = ((s, w), false)
  remember s (some n, w) = ((record s { gpu_node_last = some n }, w), true)

  answer_get : ℕ → Reporter S → W → Got GpuNode → Reported
  unfolding remember to_gpu_node
  answer_get now s w not_found = remember s (api.create (report_of S now s s.gpu_node_last) w)
  answer_get now s w (failed e) = ((s, w), false)
  answer_get now s w (found n) = remember s (api.update (report_of S now s (some n)) w)

  unfoldable pub get_and_update_gpu_node : ℕ → Reporter S × W → Reported
  unfolding answer_get
  get_and_update_gpu_node now (s, w) = answer_get now s w (api.get s.node_name w)

  answer_update : ℕ → Reporter S → Option GpuNode × W → Reported
  unfolding get_and_update_gpu_node remember
  answer_update now s (none, w) = get_and_update_gpu_node now (s, w)
  answer_update now s (some n, w) = remember s (some n, w)

  ensure_from : ℕ → Reporter S → W → Option GpuNode → Reported
  unfolding get_and_update_gpu_node answer_update to_gpu_node
  ensure_from now s w none = get_and_update_gpu_node now (s, w)
  ensure_from now s w (some last) =
      answer_update now s (api.update (report_of S now s (some last)) w)

  unfoldable pub ensure_gpu_node : ℕ → Reporter S × W → Reported
  unfolding ensure_from
  ensure_gpu_node now (s, w) = ensure_from now s w s.gpu_node_last

  -- The tries end with the first that has no error.
  unfoldable pub produce_node_gpu_info_crd : List ℕ → Reporter S × W → Reported
  unfolding ensure_gpu_node
  produce_node_gpu_info_crd [] x = (x, false)
  produce_node_gpu_info_crd (now ∷ times) x =
      let r = ensure_gpu_node now x in
      let rest = produce_node_gpu_info_crd times r.0 in if r.1 then (r.0, true) else rest
