-- ===== src/Api.antt =====
-- The resources that the two programs exchange: api/jsonstruct/jsondstruct.go,
-- api/gpunode/v1/gpunode_types.go and api/gpupod/v1/gpupod_types.go, with the parts of the
-- cluster's own Pod that the code reads.
-- A time is a number of nanoseconds; `none` is the zero time. A nil map is the empty one, and a nil
-- pointer is `none`.
use nvidia_gpu_scheduler.Prelude.{ℕ, Bool, List, Option, String, Map}

pub record GpuInfo : Type 0 where
  pub device_id : String
  pub brand : String
  pub model : String
  pub bus_id : String
  pub node_name : String

pub record ContainerResourcesDetail : Type 0 where
  pub name : String
  pub device_info : List GpuInfo

pub record GpuNodeSpec : Type 0 where
  pub gpu_infos : Map GpuInfo
  pub models : Map (List String)
  pub node_device_in_use : List String
  pub report_time : Option ℕ

pub record GpuNodeStatus : Type 0 where
  pub node_name : String
  pub health : String
  pub message : String
  pub last_healthy_time : Option ℕ
  pub last_transition_time : Option ℕ

-- `namespace`, `name`, `uid` and `resource_version` are of the embedded ObjectMeta.
pub record GpuNode : Type 0 where
  pub namespace : String
  pub name : String
  pub uid : String
  pub resource_version : String
  pub spec : GpuNodeSpec
  pub status : GpuNodeStatus

abbrev pub status_health : String
status_health = "True"

abbrev pub status_not_health : String
status_not_health = "False"

pub record GpuPodSpec : Type 0 where
  pub name : String
  pub namespace : String
  pub node_name : String
  pub container_devices : List ContainerResourcesDetail

pub record GpuPod : Type 0 where
  pub namespace : String
  pub name : String
  pub resource_version : String
  pub labels : Map String
  pub spec : GpuPodSpec
  pub last_changed_time : Option ℕ

-- What resource.Quantity answers of an amount: Value(), as an int64 that is not negative, and
-- IsZero().
pub record Quantity : Type 0 where
  pub value : ℕ
  pub is_zero : Bool

pub record Container : Type 0 where
  pub limits : Map Quantity
  pub requests : Map Quantity

pub record Pod : Type 0 where
  pub namespace : String
  pub name : String
  pub annotations : Map String
  pub phase : String
  pub deletion_timestamp : Option ℕ
  pub containers : List Container
