-- ===== src/Examples/Syncing.antt =====
-- A round in which one pod is new and one is gone.
use nvidia_gpu_scheduler.Prelude.{◌≡◌, Bool, not, List, [], ◌∷◌, ◌++◌, String, str_eq, Map, lookup}
use nvidia_gpu_scheduler.Api.{GpuInfo}
use nvidia_gpu_scheduler.Report.{PodResources}
use nvidia_gpu_scheduler.PodReport.{update_pod_resource_func}
use nvidia_gpu_scheduler.PodReport.Jobs.{is_empty}
use nvidia_gpu_scheduler.PodReport.Listed.{
  due_productions, due_cleans, last_listed, round_starts_lem,
}

abbrev info : String → GpuInfo
info =
    λ did. record { device_id = did; brand = ""; model = "Tesla T4"; bus_id = ""; node_name = "a" }

-- On these pods the name tells them apart.
abbrev by_name : PodResources → PodResources → Bool
by_name = λ p q. str_eq p.name q.name

-- A pod that holds one gpu.
abbrev pod_with_gpu : String → PodResources
pod_with_gpu name = record {
  name = name;
  namespace = "ns";
  containers =
      record {
        name = "c";
        devices = record { resource_name = "nvidia.com/gpu"; device_ids = "d2" ∷ [] } ∷ [];
      }
      ∷ [];
}

abbrev prlist : List PodResources
prlist = pod_with_gpu "p" ∷ []

abbrev before : Map PodResources
before = ("ns/q", pod_with_gpu "q") ∷ []

round_starts_lem_example :
    let u = update_pod_resource_func by_name info prlist before in
    (u.jobs ≡ due_productions by_name info before prlist ++ due_cleans prlist before)
    × (u.changed ≡ not (is_empty u.jobs))
    × ((k : String) → lookup k u.prmap_new ≡ last_listed k prlist)
round_starts_lem_example = round_starts_lem by_name info prlist before
