-- ===== src/Tables.antt =====
-- The tables that gpuserver keeps by node and gpuserver-ds by device:
-- pkg/util/server/nodeinfocache.go, pkg/util/server/nodestatuscache.go and
-- pkg/util/serverds/gpuinfocache.go. A lock makes each method one step; the clock is an argument.
pub mod Reads
use nvidia_gpu_scheduler.Prelude.{
  ℕ, ◌+◌, Bool, List, [], Option, none, some, String, Map, lookup, insert, values, ltb,
  if◌then◌else◌,
}
use nvidia_gpu_scheduler.Sets.{StringSet}
use nvidia_gpu_scheduler.Api.{GpuInfo}
use nvidia_gpu_scheduler.Report.{NodeGpuInfo}

module _ (S : StringSet) where
  pub record NodeGpuInfoMap : Type 0 where
    pub nodegpuinfo : Map (NodeGpuInfo S)
    pub node_device_in_use : Map S.Set

  abbrev pub new_node_gpu_info_map : NodeGpuInfoMap
  new_node_gpu_info_map = record { nodegpuinfo = []; node_device_in_use = [] }

  unfoldable pub get_node_gpu_info : String → NodeGpuInfoMap → Option (NodeGpuInfo S)
  unfolding lookup
  get_node_gpu_info node gim = lookup node gim.nodegpuinfo

  unfoldable pub set_node_gpu_info : String → NodeGpuInfo S → NodeGpuInfoMap → NodeGpuInfoMap
  unfolding insert
  set_node_gpu_info node value gim = record gim { nodegpuinfo = insert node value gim.nodegpuinfo }

  unfoldable pub get_all_node_gpu_info : NodeGpuInfoMap → List (NodeGpuInfo S)
  get_all_node_gpu_info gim = values gim.nodegpuinfo

  -- The set of a node after the devices are told: the first set is stored as it is, a later one is
  -- put into the stored set, from which the rest is then deleted.
  devices_after : S.Set → Option S.Set → S.Set
  devices_after device_in_use none = device_in_use
  devices_after device_in_use (some old) =
      let all = S.insert old (S.to_list device_in_use) in
      let did2delete = S.difference all device_in_use in S.delete all (S.to_list did2delete)

  unfoldable pub set_node_device_in_use : String → S.Set → NodeGpuInfoMap → NodeGpuInfoMap
  unfolding devices_after lookup insert
  set_node_device_in_use node device_in_use gim = record gim {
    node_device_in_use =
        insert node (devices_after device_in_use (lookup node gim.node_device_in_use))
          gim.node_device_in_use;
  }

  -- An empty set is stored for a node without one.
  devices_or_new : String → NodeGpuInfoMap → Option S.Set → S.Set × NodeGpuInfoMap
  unfolding insert
  devices_or_new node gim none =
      (S.new, record gim { node_device_in_use = insert node S.new gim.node_device_in_use })
  devices_or_new node gim (some s) = (s, gim)

  unfoldable pub get_node_device_in_use : String → NodeGpuInfoMap → S.Set × NodeGpuInfoMap
  unfolding devices_or_new lookup
  get_node_device_in_use node gim = devices_or_new node gim (lookup node gim.node_device_in_use)

pub record NodeStatus : Type 0 where
  pub name : String
  pub health : Bool
  pub last_healthy_time : Option ℕ

pub record NodeStatusMap : Type 0 where
  pub nodestatusinfo : Map NodeStatus

unfoldable pub get_node_status : String → NodeStatusMap → Option NodeStatus
unfolding lookup
get_node_status node m = lookup node m.nodestatusinfo

-- SetNodeGpuInfo of NodeStatusMap
unfoldable pub set_node_status : String → NodeStatus → NodeStatusMap → NodeStatusMap
unfolding insert
set_node_status node value m = record { nodestatusinfo = insert node value m.nodestatusinfo }

unfoldable pub list_node_status : NodeStatusMap → List NodeStatus
list_node_status m = values m.nodestatusinfo

pub record CacheGpuInfo : Type 0 where
  pub gpu_info : GpuInfo
  pub last_update_time : ℕ

pub record TtlCacheGpu : Type 0 where
  pub gpuinfo : Map CacheGpuInfo
  pub cache_ttl : ℕ

abbrev pub new_ttl_cache_gpu : ℕ → TtlCacheGpu
new_ttl_cache_gpu ttl = record { gpuinfo = []; cache_ttl = ttl }

abbrev pub is_object_fresh : ℕ → ℕ → CacheGpuInfo → Bool
is_object_fresh now cachettl cgi = ltb now (cgi.last_update_time + cachettl)

info_of : Option CacheGpuInfo → Option GpuInfo
info_of none = none
info_of (some cgi) = some cgi.gpu_info

unfoldable pub get_cache_gpu_info_ignore_ttl : String → TtlCacheGpu → Option GpuInfo
unfolding info_of lookup
get_cache_gpu_info_ignore_ttl did cg = info_of (lookup did cg.gpuinfo)

fresh_info_of : ℕ → ℕ → Option CacheGpuInfo → Option GpuInfo
fresh_info_of now cachettl none = none
fresh_info_of now cachettl (some cgi) =
    if is_object_fresh now cachettl cgi then some cgi.gpu_info else none

unfoldable pub get_cache_gpu_info : ℕ → String → TtlCacheGpu → Option GpuInfo
unfolding fresh_info_of lookup
get_cache_gpu_info now did cg = fresh_info_of now cg.cache_ttl (lookup did cg.gpuinfo)

unfoldable pub set_cache_gpu_info : String → CacheGpuInfo → TtlCacheGpu → TtlCacheGpu
unfolding insert
set_cache_gpu_info did cgpuinfo cg = record cg { gpuinfo = insert did cgpuinfo cg.gpuinfo }
