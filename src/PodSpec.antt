-- ===== src/PodSpec.antt =====
-- What the programs read of a pod: GetPodRequestGpuNum of pkg/util/server/common.go, isGpuPod and
-- isActivePod of pkg/gpuserver-ds/controller/podwatcher.go.
pub mod Requests
use nvidia_gpu_scheduler.Prelude.{
  ℕ, Bool, true, false, not, ◌&&◌, ◌||◌, List, [], ◌∷◌, Option, none, some, String, str_eq, Map,
  lookup, if◌then◌else◌,
}
use nvidia_gpu_scheduler.Words.{add_i64}
use nvidia_gpu_scheduler.Api.{Quantity, Container, Pod}

abbrev pub nvidia_gpu_resource_name : String
nvidia_gpu_resource_name = "nvidia.com/gpu"

abbrev pub schedule_annotation : String
schedule_annotation = "nvidia-gpu-scheduler/gpu.model"

-- `if gpulimit, exist := …; exist { if !gpulimit.IsZero() { numLimit += gpulimit.Value() } }`
unfoldable pub add_limit : ℕ → Option Quantity → ℕ
add_limit num none = num
add_limit num (some q) = if not q.is_zero then add_i64 num q.value else num

unfoldable pub count_limits : ℕ → List Container → ℕ
unfolding add_limit lookup
count_limits num [] = num
count_limits num (c ∷ cs) =
    count_limits (add_limit num (lookup nvidia_gpu_resource_name c.limits)) cs

unfoldable pub get_pod_request_gpu_num : Pod → ℕ
unfolding count_limits
get_pod_request_gpu_num pod = count_limits 0 pod.containers

-- An amount of the gpu resource that is there and is not zero.
abbrev pub asks : Option Quantity → Bool
asks none = false
asks (some q) = not q.is_zero

unfoldable pub some_container_asks : List Container → Bool
unfolding lookup
some_container_asks [] = false
some_container_asks (c ∷ cs) =
    let rest = some_container_asks cs in
    if asks (lookup nvidia_gpu_resource_name c.limits)
    then true
    else if asks (lookup nvidia_gpu_resource_name c.requests)
    then true
    else rest

unfoldable pub is_gpu_pod : Pod → Bool
unfolding some_container_asks
is_gpu_pod pod = some_container_asks pod.containers

abbrev pub is_set : Option ℕ → Bool
is_set none = false
is_set (some t) = true

unfoldable pub is_active_pod : Pod → Bool
is_active_pod pod =
    if is_set pod.deletion_timestamp || not (str_eq pod.phase "Running") then false else true
