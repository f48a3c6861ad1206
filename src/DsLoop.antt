-- ===== src/DsLoop.antt =====
-- The loop of gpuserver-ds: NewServerDSController and Start of
-- pkg/gpuserver-ds/controller/controller.go. One goroutine selects among the channels, and is also
-- the only one that receives from relistChan. A turn is what the select takes, with what the calls of
-- that turn meet: the times of the tries, and the kubelet's answer.
pub mod Turns
pub mod Kept
pub mod Shown
pub mod Stale
pub mod Received
use nvidia_gpu_scheduler.Prelude.{
  ℕ, ◌-◌, ◌+◌, Bool, true, false, List, [], ◌∷◌, ◌++◌, Option, none, some, String, str_eq, Map,
  delete, ltb, ◌==◌, if◌then◌else◌,
}
use Prim.Native.String.{◌++◌ as concat}
use nvidia_gpu_scheduler.Sets.{StringSet}
use nvidia_gpu_scheduler.Api.{GpuInfo}
use nvidia_gpu_scheduler.ModelName.{metadata_to_name}
use nvidia_gpu_scheduler.Report.{
  PodResources, NodeGpuInfo, Reporter, GpuNodes, produce_node_gpu_info_crd,
}
use nvidia_gpu_scheduler.PodReport.{Job, Sync, update_pod_resource_func}
use nvidia_gpu_scheduler.PodStore.{
  GpuPods, PodReporter, clean_pod_resource_crd, clean_pod_resource_crd_init,
}

-- relistChan := make(chan struct{}, 10)
abbrev pub relist_cap : ℕ
relist_cap = 10

-- options.PRODUCE_MAX_ERRORCOUNT, the steps of updateBackoff
abbrev pub produce_max_errorcount : ℕ
produce_max_errorcount = 4

pub data LoopStatus : Type 0 where
  running : LoopStatus
  -- LOOP is left
  stopped : LoopStatus
  -- the goroutine waits for itself to receive from relistChan
  blocked : LoopStatus

pub data Turn (S : StringSet) : Type 0 where
  stop : Turn S
  gpu_info : List ℕ → NodeGpuInfo S → Turn S
  -- the namespace and the name of prupdate.PodResourcesDEL[0]
  remove : List ℕ → String → String → Turn S
  go_on : Turn S
  relist : List ℕ → Option (List PodResources) → Turn S

pub record Loop (S : StringSet) (W : Type 0) : Type 0 where
  pub status : LoopStatus
  pub relist_chan : ℕ
  pub node : Reporter S
  pub pods : PodReporter
  pub world : W
  -- serverdsutil.NodePushed
  pub node_pushed : Bool
  -- dsc.once has run
  pub is_cleaned : Bool
  -- the goroutines that updatePodResourceFunc has started
  pub jobs : List Job

-- What NewServerDSController makes of the environment's NODENAME and of whether the kubelet's socket
-- can be dialled: an error, or the state in which Start begins.
pub data NewLoop (S : StringSet) (W : Type 0) : Type 0 where
  new_loop : Loop S W → NewLoop S W
  new_error : String → NewLoop S W

unfoldable pub begin_loop : (S : StringSet) {W : Type 0} → String → W → Loop S W
begin_loop S node_name w = record {
  status = running;
  relist_chan = 1;
  node = record {
    node_name = node_name;
    gpu_node_last = none;
    last_node_gpu_info = none;
    podresources_last = none;
  };
  pods = record { node_name = node_name; gpu_pod_last = [] };
  world = w;
  node_pushed = false;
  is_cleaned = false;
  jobs = [];
}

dialled : (S : StringSet) {W : Type 0} → String → W → Option String → NewLoop S W
unfolding begin_loop
dialled S node_name w none = new_loop (begin_loop S node_name w)
dialled S node_name w (some e) = new_error (concat "error getting grpc client: " e)

-- The last argument is the error of podresources.GetClient.
unfoldable pub new_server_ds_controller :
    (S : StringSet) {W : Type 0} → String → W → Option String → NewLoop S W
unfolding dialled
new_server_ds_controller S node_name w err =
    if str_eq node_name "" then new_error "unable get env NODENAME" else dialled S node_name w err

module _ (S : StringSet) {W : Type 0} (nodes : GpuNodes W) (pods : GpuPods W)
    (deep_equal : PodResources → PodResources → Bool) (info : String → GpuInfo) where
  abbrev pub produce_node : List ℕ → Loop S W → Loop S W
  produce_node times s =
      let r = produce_node_gpu_info_crd S nodes times (s.node, s.world) in
      record s { node = r.0.0; world = r.0.1 }

  abbrev pub clean_pod : String → Loop S W → Loop S W
  clean_pod name s =
      let r = clean_pod_resource_crd pods produce_max_errorcount name (s.pods, s.world) in
      record s { pods = r.0.0; world = r.0.1 }

  -- case ngi := <-dsc.gpuinfoChan
  unfoldable pub on_gpu_info : List ℕ → NodeGpuInfo S → Loop S W → Loop S W
  unfolding produce_node_gpu_info_crd
  on_gpu_info times ngi s =
      let told = record ngi { node_name = s.node.node_name } in
      record (produce_node times
        (record s { node = record s.node { last_node_gpu_info = some told } })) {
          node_pushed = true;
        }

  abbrev pub forget_pod : String → Option (Map PodResources) → Option (Map PodResources)
  forget_pod podidx none = none
  forget_pod podidx (some m) = some (delete podidx m)

  -- case prupdate := <-dsc.removeChan
  unfoldable pub on_remove : List ℕ → String → String → Loop S W → Loop S W
  unfolding produce_node_gpu_info_crd clean_pod_resource_crd metadata_to_name delete
  on_remove times namespace name s =
      let podidx = concat namespace (concat "/" name) in
      let forgotten = record s.node {
        podresources_last = forget_pod podidx s.node.podresources_last;
      } in
      produce_node times
        (clean_pod (metadata_to_name namespace name) (record s { node = forgotten }))

  -- case <-dsc.goonChan
  unfoldable pub on_go_on : Loop S W → Loop S W
  on_go_on s =
      if ltb s.relist_chan relist_cap
      then record s { relist_chan = s.relist_chan + 1 }
      else record s { status = blocked }

  abbrev pub old_pods : Option (Map PodResources) → Map PodResources
  old_pods none = []
  old_pods (some m) = m

  -- dsc.once.Do(dsc.cleanPodResourceCrdInit)
  unfoldable pub clean_once : Map PodResources → Loop S W → Loop S W
  unfolding clean_pod_resource_crd_init
  clean_once new s =
      let r = clean_pod_resource_crd_init pods produce_max_errorcount new (s.pods, s.world) in
      if s.is_cleaned then s else record s { pods = r.0; world = r.1; is_cleaned = true }

  abbrev pub tell_sync : Sync → Loop S W → Loop S W
  tell_sync u s = record s {
    node = record s.node { podresources_last = some u.prmap_new };
    jobs = s.jobs ++ u.jobs;
  }

  unfoldable pub finish_sync : List ℕ → Sync → Loop S W → Loop S W
  unfolding produce_node_gpu_info_crd clean_once
  finish_sync times u s =
      let told = tell_sync u s in
      clean_once u.prmap_new (if u.changed then produce_node times told else told)

  -- The round that List's answer starts.
  unfoldable pub sync_pods : List ℕ → List PodResources → Loop S W → Loop S W
  unfolding update_pod_resource_func finish_sync
  sync_pods times prlist s =
      finish_sync times
        (update_pod_resource_func deep_equal info prlist (old_pods s.node.podresources_last)) s

  -- case <-relistChan
  unfoldable pub on_relist : List ℕ → Option (List PodResources) → Loop S W → Loop S W
  unfolding sync_pods
  on_relist times none s = record s { status = stopped }
  on_relist times (some prlist) s = sync_pods times prlist s

  -- What the select takes. Nothing is received from an empty relistChan.
  unfoldable pub take_turn : Turn S → Loop S W → Loop S W
  unfolding on_gpu_info on_remove on_go_on on_relist
  take_turn stop s = record s { status = stopped }
  take_turn (gpu_info times ngi) s = on_gpu_info times ngi s
  take_turn (remove times namespace name) s = on_remove times namespace name s
  take_turn go_on s = on_go_on s
  take_turn (relist times answer) s =
      if s.relist_chan == 0
      then s
      else on_relist times answer (record s { relist_chan = s.relist_chan - 1 })

  unfoldable pub loop_step : Turn S → LoopStatus → Loop S W → Loop S W
  unfolding take_turn
  loop_step t running s = take_turn t s
  loop_step t stopped s = s
  loop_step t blocked s = s

  unfoldable pub run_loop : List (Turn S) → Loop S W → Loop S W
  unfolding loop_step
  run_loop [] s = s
  run_loop (t ∷ turns) s = run_loop turns (loop_step t s.status s)
