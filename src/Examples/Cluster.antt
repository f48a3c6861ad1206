-- ===== src/Examples/Cluster.antt =====
-- The data of the concrete runs.
use mathlib.Core.List.{Memᴰ}
use nvidia_gpu_scheduler.Prelude.{
  ℕ, zero, suc, ◌<◌, ◌≡◌, refl, inl, inr, true, false, Bool-cases, List, [], ◌∷◌, none, some,
  String, str_eq, eq_iff, ◌==◌, lookup, arith,
}
use nvidia_gpu_scheduler.Sets.Plain.{plain}
use nvidia_gpu_scheduler.Words.{i64_sign}
use nvidia_gpu_scheduler.Api.{GpuNode, Pod}
use nvidia_gpu_scheduler.PodSpec.{
  get_pod_request_gpu_num, schedule_annotation, nvidia_gpu_resource_name,
}
use nvidia_gpu_scheduler.NodeCache.{GpuNodeCache, get_free_device_by_model}
use nvidia_gpu_scheduler.ModelName.{normalize_model_name}
use nvidia_gpu_scheduler.Scheduler.{Framework, made}
use nvidia_gpu_scheduler.GpuModelFit.{
  requested_model, gpu_model_fit_name, filter, score, new_in_tree_registry, ServerController,
  new_server_controller,
}
use nvidia_gpu_scheduler.GpuModelFit.Decision.{free_count}
use nvidia_gpu_scheduler.Extender.Workers.{Piece, Handling, Step, reserve, reserve_place, begin}
use nvidia_gpu_scheduler.Extender.Finish.{work, work-begin}
use nvidia_gpu_scheduler.Extender.Handlers.{ParallelizeUntil}

abbrev pub model : String
model = "Tesla T4"

-- Three devices of the model, one of them in use.
abbrev pub node_a : GpuNode
node_a = record {
  namespace = "";
  name = "a";
  uid = "1";
  resource_version = "7";
  spec = record {
    gpu_infos = [];
    models = ("tesla t4", "d1" ∷ "d2" ∷ "d3" ∷ []) ∷ [];
    node_device_in_use = "d2" ∷ [];
    report_time = none;
  };
  status = record {
    node_name = "a";
    health = "True";
    message = "";
    last_healthy_time = none;
    last_transition_time = none;
  };
}

abbrev pub cache : GpuNodeCache
cache = record { gpu_node_map = ("a", node_a) ∷ [] }

abbrev pub pod : Pod
pod = record {
  namespace = "default";
  name = "trainer";
  annotations = (schedule_annotation, model) ∷ [];
  phase = "Running";
  deletion_timestamp = none;
  containers =
      record {
        limits = (nvidia_gpu_resource_name, record { value = 2; is_zero = false }) ∷ [];
        requests = [];
      }
      ∷ [];
}

abbrev pub nodes : List String
nodes = "a" ∷ "b" ∷ []

-- One worker, which scores the nodes from the last to the first.
pub count_down : ℕ → List ℕ
count_down zero = []
count_down (suc n) = n ∷ count_down n

pub count_down_covers : (n i : ℕ) → i < n → Memᴰ i (count_down n)
unfolding count_down
count_down_covers zero i h = absurd (omega arith)
count_down_covers (suc n) i h = elim (Bool-cases (i == n)) [
  | inl e ↦ Memᴰ.head (ground arith)
  | inr e ↦ Memᴰ.tail (count_down_covers n i (ground arith))
]

abbrev pub one_worker : ParallelizeUntil
unfolding count_down
one_worker = record {
  finish = λ pieces. work pieces (begin pieces);
  order = count_down;
  finish-Run = λ pieces. (work-begin pieces).0;
  finish-IsDone = λ pieces. (work-begin pieces).1;
  order_covers = count_down_covers;
}

abbrev pub framework : Framework
framework = record {
  registry = new_in_tree_registry plain;
  filter_plugins = record { name = gpu_model_fit_name; filter = filter plain } ∷ [];
  score_plugins = record { name = gpu_model_fit_name; score = score plain } ∷ [];
}

abbrev pub controller : ServerController
controller = record { fw = framework; parallelism = 10 }

pub controller_built : new_server_controller plain 10 ≡ made controller
unfolding new_server_controller
controller_built = refl

pub free_on_a : free_count plain cache "a" model ≡ 2
unfolding get_free_device_by_model normalize_model_name lookup plain
free_on_a = refl

pub asked : requested_model pod ≡ some model
unfolding requested_model
asked = refl

pub two_gpus : get_pod_request_gpu_num pod ≡ 2
unfolding get_pod_request_gpu_num
two_gpus = refl

pub few_gpus : get_pod_request_gpu_num pod < i64_sign
few_gpus = omega (arith, two_gpus)

-- No node of the cluster has 2 ^ 63 devices.
pub few_devices : (n : String) → free_count plain cache n model < i64_sign
unfolding get_free_device_by_model normalize_model_name lookup plain
few_devices n = elim (Bool-cases (str_eq "a" n)) [
  | inl e ↦
      (let same : "a" ≡ n = ground (arith, eq_iff "a" n) in rw (← same) (omega (arith, free_on_a)))
  | inr e ↦ rw (free_count, get_free_device_by_model, lookup, e) (omega arith)
]

-- Three pieces of work, of which the second is refused.
abbrev pub checked : List Piece
checked = ("a", true) ∷ ("b", false) ∷ ("c", true) ∷ []

-- The first of them has its place, and has not written yet.
abbrev pub one_reserved : Handling
one_reserved = record {
  idle = ("b", false) ∷ ("c", true) ∷ [];
  reserved = (0, "a") ∷ [];
  feasible_nodes = "" ∷ "" ∷ "" ∷ [];
  feasible_nodes_len = 1;
}

pub first_reserve : Step (begin checked) one_reserved
unfolding begin reserve_place
first_reserve = reserve [] (("b", false) ∷ ("c", true) ∷ []) "a" refl refl
