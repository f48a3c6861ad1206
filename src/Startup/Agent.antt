-- ===== src/Startup/Agent.antt =====
-- runserverds of cmd/gpuserver-ds/app/server.go.
use nvidia_gpu_scheduler.Prelude.{ℕ, not, Option, none, some, String, str_eq, if◌then◌else◌}
use nvidia_gpu_scheduler.Sets.{StringSet}
use nvidia_gpu_scheduler.Tables.{TtlCacheGpu}
use nvidia_gpu_scheduler.GpuCheck.{HostGpuInfoChecker, new_host_gpu_info_checker}
use nvidia_gpu_scheduler.PodWatcher.{
  PodWatcher, NewPodWatcher, new_watcher, new_error, new_pod_watcher,
}
use nvidia_gpu_scheduler.DsLoop.{
  Loop, NewLoop, new_loop, new_error as loop_error, new_server_ds_controller,
}
use nvidia_gpu_scheduler.Lease.{Namespace, start_lease_controller_err_exit}
use nvidia_gpu_scheduler.Startup.{returned, exited, Outcome, end_with, act, check}
use nvidia_gpu_scheduler.Startup.Clients.{
  ConfigFile, log_or_write_config, ClientConfig, get_kube_and_aggregator_clientset,
}

-- The environment's NODENAME, and what the calls of the libraries answer.
pub record AgentEnv : Type 0 where
  pub write_config_to : String
  pub config_file : ConfigFile
  pub node_name : String
  pub nvml_init : Option String
  pub client_config : ClientConfig
  pub watch_pods : Option String
  pub get_namespace : Namespace
  pub create_namespace : Option String
  pub get_client : Option String

module _ (S : StringSet) (W : Type 0) where
  -- The goroutines that are started, with the state in which each begins.
  pub data AgentAct : Type 0 where
    pod_watcher : PodWatcher → AgentAct
    lease_controller : AgentAct
    gpu_checker : HostGpuInfoChecker S → AgentAct
    server_ds : Loop S W → AgentAct

module _ (S : StringSet) {W : Type 0} (cache : TtlCacheGpu) (w : W) (env : AgentEnv) where
  abbrev pub Agent : Type 0
  Agent = Outcome (AgentAct S W)

  -- The program waits for the stop signal and returns nil.
  pub start_server_ds : NewLoop S W → Agent
  start_server_ds (loop_error e) = end_with (returned (some e))
  start_server_ds (new_loop s) = act (server_ds s) (end_with (returned none))

  pub start_checker : HostGpuInfoChecker S → Option ℕ → Agent
  unfolding start_server_ds new_server_ds_controller
  start_checker gic (some code) = end_with (exited code)
  start_checker gic none = act lease_controller (
      act (gpu_checker gic)
        (start_server_ds (new_server_ds_controller S env.node_name w env.get_client)))

  pub start_watcher : HostGpuInfoChecker S → NewPodWatcher → Agent
  unfolding start_checker start_lease_controller_err_exit
  start_watcher gic (new_error e) = end_with (returned (some e))
  start_watcher gic (new_watcher pw) = check env.watch_pods (
      act (pod_watcher pw) (
        start_checker gic
          (start_lease_controller_err_exit env.node_name env.get_namespace env.create_namespace)))

  pub with_checker : Option (HostGpuInfoChecker S) × String → Agent
  unfolding start_watcher new_pod_watcher get_kube_and_aggregator_clientset
  with_checker (none, e) = end_with (returned (some e))
  with_checker (some gic, e) =
      check (get_kube_and_aggregator_clientset env.client_config)
        (start_watcher gic (new_pod_watcher env.node_name))

  unfoldable pub runserverds : Agent
  unfolding with_checker log_or_write_config new_host_gpu_info_checker
  runserverds =
      if not (str_eq env.write_config_to "")
      then end_with (log_or_write_config env.config_file env.write_config_to)
      else with_checker (new_host_gpu_info_checker S cache env.nvml_init)
