-- ===== src/PodReport/Sent.antt =====
-- What stands in the GpuPod that is sent.
use nvidia_gpu_scheduler.Prelude.{ℕ, ◌≡◌, refl, Option, none, some, String}
use nvidia_gpu_scheduler.Api.{GpuPod}
use nvidia_gpu_scheduler.ModelName.{metadata_to_name}
use nvidia_gpu_scheduler.PodReport.{PodResourcesDetail, base_pod, to_gpu_pod}

-- The name that a GpuPod gets from its base.
abbrev pub name_from : Option GpuPod → PodResourcesDetail → String
name_from none prd = metadata_to_name prd.pod_resources.namespace prd.pod_resources.name
name_from (some base) prd = base.name

pub to_gpu_pod-name :
    (now : ℕ) (node_name : String) (base : Option GpuPod) (prd : PodResourcesDetail)
    → (to_gpu_pod now node_name base prd).name ≡ name_from base prd
unfolding to_gpu_pod base_pod
to_gpu_pod-name now node_name none prd = refl
to_gpu_pod-name now node_name (some base) prd = refl

pub to_gpu_pod-devices :
    (now : ℕ) (node_name : String) (base : Option GpuPod) (prd : PodResourcesDetail)
    → (to_gpu_pod now node_name base prd).spec.container_devices ≡ prd.container_devices
unfolding to_gpu_pod
to_gpu_pod-devices now node_name base prd = refl
