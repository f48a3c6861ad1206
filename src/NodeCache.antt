-- ===== src/NodeCache.antt =====
-- GpuNodeCache of pkg/util/server/cache/nodeinfo_cache.go: the last seen GpuNode of each node. The
-- program shares one value, DefaultGpuNodeCache; its lock makes each method one step. The pointers
-- that are stored are not nil.
pub mod Free
use nvidia_gpu_scheduler.Prelude.{
  ℕ, Bool, true, false, List, [], ◌∷◌, Option, none, some, String, str_eq, Map, lookup, insert,
  length, ◌==◌, if◌then◌else◌,
}
use nvidia_gpu_scheduler.Api.{GpuNode, status_health}
use nvidia_gpu_scheduler.Sets.{StringSet}

pub record GpuNodeCache : Type 0 where
  pub gpu_node_map : Map GpuNode

abbrev pub new_gpu_node_cache : GpuNodeCache
new_gpu_node_cache = record { gpu_node_map = [] }

unfoldable pub set_gpu_node : String → GpuNode → GpuNodeCache → GpuNodeCache
unfolding insert
set_gpu_node node value c = record { gpu_node_map = insert node value c.gpu_node_map }

-- The list of a key, nil where the key is missing.
abbrev pub list_of : Option (List String) → List String
list_of none = []
list_of (some xs) = xs

module _ (S : StringSet) where
  open S use {Set, new, insert as insert_all, delete as delete_all}

  device_in_use_of : Option GpuNode → Set
  device_in_use_of none = new
  device_in_use_of (some n) = insert_all new n.spec.node_device_in_use

  unfoldable pub get_device_in_use : String → GpuNodeCache → Set
  unfolding device_in_use_of lookup
  get_device_in_use node c = device_in_use_of (lookup node c.gpu_node_map)

  free_device_of : String → Option GpuNode → Set
  unfolding lookup
  free_device_of model none = new
  free_device_of model (some n) =
      let model_list = list_of (lookup model n.spec.models) in
      if length model_list == 0
      then new
      else delete_all (insert_all new model_list) n.spec.node_device_in_use

  unfoldable pub get_free_device_by_model : String → String → GpuNodeCache → Set
  unfolding free_device_of lookup
  get_free_device_by_model node model c = free_device_of model (lookup node c.gpu_node_map)

health_of : Option GpuNode → Bool × Bool
health_of none = (false, false)
health_of (some n) = (true, str_eq n.status.health status_health)

-- (exist, health)
unfoldable pub check_node_health : String → GpuNodeCache → Bool × Bool
unfolding health_of lookup
check_node_health node c = health_of (lookup node c.gpu_node_map)
