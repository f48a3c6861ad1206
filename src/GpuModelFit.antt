-- ===== src/GpuModelFit.antt =====
-- The plugin of pkg/gpuserver/scheduler/framework/plugins/noderesources/gpumodel.go, the registry
-- that holds it, and ServerController of pkg/gpuserver/controller/controller.go.
pub mod Decision
use nvidia_gpu_scheduler.Prelude.{
  ℕ, Bool, true, false, not, List, [], ◌∷◌, Option, none, some, String, Map, lookup, length, ◌==◌,
  ltb, if◌then◌else◌,
}
use nvidia_gpu_scheduler.Sets.{StringSet}
use nvidia_gpu_scheduler.Words.{gt_i64}
use nvidia_gpu_scheduler.Api.{Pod}
use nvidia_gpu_scheduler.PodSpec.{schedule_annotation, get_pod_request_gpu_num}
use nvidia_gpu_scheduler.ModelName.{normalize_model_name}
use nvidia_gpu_scheduler.NodeCache.{GpuNodeCache, check_node_health, get_free_device_by_model}
use nvidia_gpu_scheduler.Scheduler.{
  Status, accepted, refused, node_not_exist, node_not_healthy, too_few, model_not_exist, Filter,
  Score, Plugin, Registry, Made, made, failed, Framework, new_framework,
}

abbrev pub gpu_model_fit_name : String
gpu_model_fit_name = "GpuModelFit"

-- pod.Annotations[options.SCHEDULE_ANNOTATION], under the test that there is an annotation at all
unfoldable pub requested_model : Pod → Option String
unfolding lookup
requested_model pod =
    if not (length pod.annotations == 0) then lookup schedule_annotation pod.annotations else none

module _ (S : StringSet) where
  filter_devices : String → String → S.Set → Pod → Status
  filter_devices node req_model free_device pod =
      if not (S.size free_device == 0)
      then (let req_device_num = get_pod_request_gpu_num pod in
          if gt_i64 req_device_num (S.size free_device)
          then refused (too_few node req_device_num (S.size free_device))
          else accepted)
      else refused (model_not_exist node req_model)

  filter_model : GpuNodeCache → Pod → String → String → Status
  filter_model cache pod node req_model =
      let health = check_node_health node cache in
      if not health.0
      then refused (node_not_exist node)
      else if not health.1
      then refused (node_not_healthy node)
      else filter_devices node req_model (get_free_device_by_model S node req_model cache) pod

  filter_request : GpuNodeCache → Pod → String → Option String → Status
  filter_request cache pod node none = accepted
  filter_request cache pod node (some model) =
      filter_model cache pod node (normalize_model_name model)

  unfoldable pub filter : Filter
  unfolding requested_model filter_request filter_model filter_devices
  filter cache pod node = filter_request cache pod node (requested_model pod)

  score_devices : String → String → S.Set → ℕ × Status
  score_devices node req_model free_device =
      if not (S.size free_device == 0)
      then (S.size free_device, accepted)
      else (0, refused (model_not_exist node req_model))

  score_model : GpuNodeCache → String → String → ℕ × Status
  score_model cache node req_model =
      let health = check_node_health node cache in
      if not health.0
      then (0, refused (node_not_exist node))
      else if not health.1
      then (0, refused (node_not_healthy node))
      else score_devices node req_model (get_free_device_by_model S node req_model cache)

  score_request : GpuNodeCache → String → Option String → ℕ × Status
  score_request cache node none = (0, accepted)
  score_request cache node (some model) =
      score_model cache node (normalize_model_name (normalize_model_name model))

  unfoldable pub score : Score
  unfolding requested_model score_request score_model score_devices
  score cache pod node = score_request cache node (requested_model pod)

  unfoldable pub new_gpu_model_fit : Made Plugin
  new_gpu_model_fit =
      made (record { name = gpu_model_fit_name; filter = some filter; score = some score })

  unfoldable pub new_in_tree_registry : Registry
  unfolding new_gpu_model_fit
  new_in_tree_registry = (gpu_model_fit_name, new_gpu_model_fit) ∷ []

-- `parallelism` is the flag's value where that is positive, as NewServerController stores it.
pub record ServerController : Type 0 where
  pub fw : Framework
  pub parallelism : ℕ

unfoldable pub get_parallelism : ServerController → ℕ
get_parallelism sc = if ltb 0 sc.parallelism then sc.parallelism else 10

controller_of : ℕ → Made Framework → Made ServerController
controller_of parallelism (failed e) = failed e
controller_of parallelism (made fw) = made (record { fw = fw; parallelism = parallelism })

unfoldable pub new_server_controller : StringSet → ℕ → Made ServerController
unfolding controller_of new_framework new_in_tree_registry
new_server_controller S parallelism =
    controller_of parallelism (new_framework (new_in_tree_registry S))
