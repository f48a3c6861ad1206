-- ===== src/Examples/Deciding.antt =====
-- The decisions of the plugin, of the cache and of the framework on the concrete cluster.
use nvidia_gpu_scheduler.Prelude.{◌<◌, ◌≡◌, ◌↔◌, refl, true, false, [], none, some, lookup, arith}
use nvidia_gpu_scheduler.Sets.Plain.{plain}
use nvidia_gpu_scheduler.Api.{Pod}
use nvidia_gpu_scheduler.ModelName.{normalize_model_name}
use nvidia_gpu_scheduler.PodSpec.{get_pod_request_gpu_num}
use nvidia_gpu_scheduler.PodSpec.Requests.{get_pod_request_gpu_num-eq-total, total_limits}
use nvidia_gpu_scheduler.NodeCache.{check_node_health, get_free_device_by_model}
use nvidia_gpu_scheduler.Scheduler.{Reason, accepted}
use nvidia_gpu_scheduler.GpuModelFit.{requested_model, filter, score}
use nvidia_gpu_scheduler.GpuModelFit.Decision.{
  Fits, free_count, filter-accepted_iff, score_of_filter, Refusal, filter-Refusal,
}
use nvidia_gpu_scheduler.Examples.Cluster.{model, cache, pod, asked, few_gpus, few_devices}

filter-accepted_iff_example :
    ((filter plain cache pod "a").is_accepted ≡ true) ↔ Fits plain cache pod "a" model
filter-accepted_iff_example =
    filter-accepted_iff plain cache pod "a" model asked few_gpus (few_devices "a")

passes_on_a : (filter plain cache pod "a").is_accepted ≡ true
unfolding filter normalize_model_name check_node_health get_free_device_by_model
    get_pod_request_gpu_num lookup plain requested_model
passes_on_a = refl

score_of_filter_example :
    (score plain cache pod "a" ≡ (free_count plain cache "a" model, accepted))
    × (0 < free_count plain cache "a" model)
score_of_filter_example = score_of_filter plain cache pod "a" model asked passes_on_a

refused_on_b : (filter plain cache pod "b").is_accepted ≡ false
unfolding filter normalize_model_name check_node_health get_free_device_by_model
    get_pod_request_gpu_num lookup plain requested_model
refused_on_b = refl

filter-Refusal_example :
    (r : Reason) × ((filter plain cache pod "b").err ≡ some r) × Refusal plain cache pod "b" model r
filter-Refusal_example = filter-Refusal plain cache pod "b" model asked refused_on_b

-- A pod that does not ask for a model.
abbrev plain_pod : Pod
plain_pod = record pod { annotations = [] }

unasked : requested_model plain_pod ≡ none
unfolding requested_model
unasked = refl

get_pod_request_gpu_num-eq-total_example : get_pod_request_gpu_num pod ≡ total_limits pod.containers
unfolding lookup
get_pod_request_gpu_num-eq-total_example =
    get_pod_request_gpu_num-eq-total pod (refl, tt) (omega arith)
