-- ===== src/Examples/Agent.antt =====
-- The goroutines of gpuserver-ds on a node with one gpu.
use nvidia_gpu_scheduler.Prelude.{
  ℕ, ◌≡◌, refl, Bool, false, true, [], ◌∷◌, ◌++◌, none, some, String, str_eq, lookup, insert,
  replicate,
}
use nvidia_gpu_scheduler.Sets.Plain.{plain}
use nvidia_gpu_scheduler.Api.{GpuInfo, GpuPod}
use nvidia_gpu_scheduler.ModelName.{normalize_model_name}
use nvidia_gpu_scheduler.Report.{PodResources, NodeGpuInfo, GpuNodes}
use nvidia_gpu_scheduler.Reconcile.{not_found, NodeServer}
use nvidia_gpu_scheduler.Tables.{get_cache_gpu_info_ignore_ttl, set_cache_gpu_info}
use nvidia_gpu_scheduler.GpuCheck.{
  Nvml, HostGpuInfoChecker, round, check_round, update_gpu_info, check_devices, checked, empty_info,
  add_device, add_under, notify, deep_equal_models, bus_id_text,
}
use nvidia_gpu_scheduler.GpuCheck.Told.{after_rounds, last_told, last_told-run_rounds}
use nvidia_gpu_scheduler.GpuCheck.Notices.{run_rounds, Changing, run_rounds-Changing}
use nvidia_gpu_scheduler.PodStore.{GpuPods, PodReporter}
use nvidia_gpu_scheduler.DsLoop.{Loop, running, blocked, stop, go_on, run_loop}
use nvidia_gpu_scheduler.DsLoop.Turns.{go_on_deadlock}
use nvidia_gpu_scheduler.PodWatcher.{
  PodWatcher, watching, modified, deleted, watch_ended, run_watcher, stop as stop_signal,
}
use nvidia_gpu_scheduler.PodWatcher.Signals.{signals_of_all, Granted, run_watcher-sent}
use nvidia_gpu_scheduler.Examples.Cluster.{pod, cache}

-- A driver with one gpu.
abbrev pub one_gpu : Nvml
one_gpu = record {
  Device = ℕ;
  device_get_count = some 1;
  device_get_handle_by_index = λ i. some i;
  device_get_handle_by_uuid = λ did. some 0;
  get_uuid = λ device. some "d1";
  get_brand = λ device. some 2;
  get_name = λ device. some "Tesla T4";
  get_pci_info = λ device. some [];
}

abbrev pub new_checker : HostGpuInfoChecker plain
new_checker = record { model_set_last = []; ttl_cache_gpu = record { gpuinfo = []; cache_ttl = 5 } }

abbrev pub gpu : GpuInfo
gpu = record {
  device_id = "d1";
  brand = "BRAND_TESLA";
  model = "Tesla T4";
  bus_id = "";
  node_name = "a";
}

abbrev pub sent : NodeGpuInfo plain
sent = record {
  node_name = "";
  gpu_infos = ("d1", gpu) ∷ [];
  models = ("tesla t4", plain.insert plain.new ("d1" ∷ [])) ∷ [];
}

abbrev pub told_checker : HostGpuInfoChecker plain
told_checker = record {
  model_set_last = sent.models;
  ttl_cache_gpu = record {
    gpuinfo = ("d1", record { gpu_info = gpu; last_update_time = 9 }) ∷ [];
    cache_ttl = 5;
  };
}

pub sends : check_round plain one_gpu 9 "a" new_checker ≡ round told_checker (some sent)
unfolding check_round check_devices update_gpu_info add_device add_under notify deep_equal_models
    bus_id_text get_cache_gpu_info_ignore_ttl set_cache_gpu_info normalize_model_name lookup insert
    plain
sends = refl

abbrev pub server : NodeServer
server = record {
  cache = cache;
  watchers = record {
    chan_watch_index = [];
    heap = λ c. record { cap = 1; buffer = []; is_closed = false };
  };
}

run_rounds-Changing_example :
    Changing plain [] (run_rounds plain "a" ((one_gpu, 9) ∷ (one_gpu, 10) ∷ []) new_checker)
run_rounds-Changing_example =
    run_rounds-Changing plain "a" ((one_gpu, 9) ∷ (one_gpu, 10) ∷ []) new_checker

abbrev nodes : GpuNodes ℕ
nodes = record { get = λ name w. not_found; update = λ n w. (none, w); create = λ n w. (some n, w) }

abbrev old_pod : GpuPod
old_pod = record {
  namespace = "kube-system";
  name = "ns-q";
  resource_version = "3";
  labels = [];
  spec = record { name = "q"; namespace = "ns"; node_name = "a"; container_devices = [] };
  last_changed_time = none;
}

abbrev pods : GpuPods ℕ
pods = record {
  get = λ name w. not_found;
  update = λ p w. (none, w);
  create = λ p w. (some p, w);
  delete_pod = λ name w. (true, w);
  list = λ w. some (old_pod ∷ []);
}

abbrev pod_reporter : PodReporter
pod_reporter = record { node_name = "a"; gpu_pod_last = ("ns-q", old_pod) ∷ [] }

-- The loop at its start.
abbrev start : Loop plain ℕ
start = record {
  status = running;
  relist_chan = 1;
  node = record {
    node_name = "a";
    gpu_node_last = none;
    last_node_gpu_info = none;
    podresources_last = none;
  };
  pods = pod_reporter;
  world = 0;
  node_pushed = false;
  is_cleaned = false;
  jobs = [];
}

abbrev same_name : PodResources → PodResources → Bool
same_name = λ p q. str_eq p.name q.name

abbrev pub info : String → GpuInfo
info = λ did. gpu

go_on_deadlock_example :
    run_loop plain nodes pods same_name info (replicate 10 go_on ++ stop ∷ []) start
    ≡ record start { relist_chan = 10; status = blocked }
go_on_deadlock_example =
    go_on_deadlock plain nodes pods same_name info 9 (stop ∷ []) start refl refl

abbrev watcher : PodWatcher
watcher = record { node_name = "a"; status = watching; sent = [] }

granted : Granted (modified (some pod) ∷ watch_ended true ∷ stop_signal ∷ deleted (some pod) ∷ [])
unfolding Granted
granted = (refl, tt)

run_watcher-sent_example :
    run_watcher
      (modified (some pod) ∷ watch_ended true ∷ stop_signal ∷ deleted (some pod) ∷ [])
      watcher
    ≡ record watcher {
      sent =
          signals_of_all
            (modified (some pod) ∷ watch_ended true ∷ stop_signal ∷ deleted (some pod) ∷ []);
    }
run_watcher-sent_example =
    run_watcher-sent
      (modified (some pod) ∷ watch_ended true ∷ stop_signal ∷ deleted (some pod) ∷ []) watcher refl
      granted

found_again :
    check_devices plain one_gpu 10 "a" 1 0 (empty_info plain) told_checker.ttl_cache_gpu
    ≡ checked sent told_checker.ttl_cache_gpu
unfolding check_devices update_gpu_info add_device add_under bus_id_text
    get_cache_gpu_info_ignore_ttl set_cache_gpu_info normalize_model_name lookup insert plain
found_again = refl

after_one_round : after_rounds plain "a" ((one_gpu, 9) ∷ []) new_checker ≡ some told_checker
unfolding after_rounds check_round check_devices update_gpu_info add_device add_under notify
    deep_equal_models bus_id_text get_cache_gpu_info_ignore_ttl set_cache_gpu_info
    normalize_model_name lookup insert plain
after_one_round = refl

last_told-run_rounds_example :
    deep_equal_models plain
      (last_told plain [] (run_rounds plain "a" ((one_gpu, 9) ∷ (one_gpu, 10) ∷ []) new_checker))
      sent.models
    ≡ true
last_told-run_rounds_example =
    last_told-run_rounds plain one_gpu 10 1 "a" ((one_gpu, 9) ∷ []) new_checker told_checker sent
      told_checker.ttl_cache_gpu after_one_round refl found_again
