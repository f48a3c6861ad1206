-- ===== src/Startup/Manager.antt =====
-- StartGpuManagerAndLifecycleControllerErrExit and startNLCC of
-- pkg/gpuserver/controller/gpu_manager.go.
use Prim.Native.String.{◌++◌ as concat}
use nvidia_gpu_scheduler.Prelude.{ℕ, Option, none, some, String}

abbrev pub exit_code : ℕ
exit_code = 100

-- GetConfigOrDie, which exits with 1, NewManager, SetupWithManager of the two reconcilers, AddHealthzCheck and AddReadyzCheck
pub record Manager : Type 0 where
  pub get_config_or_die : Option String
  pub new_manager : Option String
  pub setup_gpu_node : Option String
  pub setup_gpu_pod : Option String
  pub add_healthz_check : Option String
  pub add_readyz_check : Option String

abbrev pub or_exit : ℕ → Option String → Option ℕ → Option ℕ
or_exit code none rest = rest
or_exit code (some e) rest = some code

-- The code that the process exits with, or nothing: then the goroutines of startNLCC and of the
-- manager are started, and the client is returned.
unfoldable pub start_gpu_manager : Manager → Option ℕ
start_gpu_manager m = or_exit 1 m.get_config_or_die (
    or_exit exit_code m.new_manager (
      or_exit exit_code m.setup_gpu_node (
        or_exit exit_code m.setup_gpu_pod
          (or_exit exit_code m.add_healthz_check (or_exit exit_code m.add_readyz_check none)))))

-- GetGpuNodeHasSynced and NewFromKubeconfig. RunOrDie returns when the lease is lost.
pub record Election : Type 0 where
  pub get_informer : Option String
  pub new_lock : Option String

-- The informer's HasSynced, or its error.
unfoldable pub get_gpu_node_has_synced : Election → Option String
get_gpu_node_has_synced e = e.get_informer

pub after_lock : Option String → Option String
after_lock none = none
after_lock (some e) = some (concat "error creating lock: " e)

pub after_synced : Election → Option String → Option String
unfolding after_lock
after_synced e none = after_lock e.new_lock
after_synced e (some err) = some err

-- The error of startNLCC, where the elected controller has run in between if there is none.
unfoldable pub start_nlcc : Election → Option String
unfolding after_synced get_gpu_node_has_synced
start_nlcc e = after_synced e (get_gpu_node_has_synced e)
