-- ===== src/Shutdown/Watchers.antt =====
-- What a signal does to the watchers of gpuserver: init of pkg/util/server/watcher/watcher_index.go
-- adds the CleanWatcher of both indexes to the clean-up functions. A panic ends the process: `none`.
use nvidia_gpu_scheduler.Prelude.{
  ℕ, ◌≡◌, refl, ◌∙◌, true, List, [], ◌∷◌, Option, none, some, if◌then◌else◌,
}
use nvidia_gpu_scheduler.Api.{GpuNode, GpuPod}
use nvidia_gpu_scheduler.Watch.{WatchIndex, clean_watcher}
use nvidia_gpu_scheduler.Watch.Heap.{has_chan, shut}
use nvidia_gpu_scheduler.Watch.Laws.{IsLive, watched, clean_watcher_lem}
use nvidia_gpu_scheduler.Shutdown.{add_clean_funcs, SignalEvent, setup_signal_handler, run_signals}
use nvidia_gpu_scheduler.Shutdown.Twice.{after, cancelled-after, run_signals_lem}

-- GpuPodWatcher and GpuNodeWatcher
abbrev pub Watchers : Type 0
Watchers = Option (WatchIndex GpuPod × WatchIndex GpuNode)

or_panic_pods : Option (WatchIndex GpuPod) → WatchIndex GpuNode → Watchers
or_panic_pods none nodes = none
or_panic_pods (some pods) nodes = some (pods, nodes)

or_panic_nodes : WatchIndex GpuPod → Option (WatchIndex GpuNode) → Watchers
or_panic_nodes pods none = none
or_panic_nodes pods (some nodes) = some (pods, nodes)

unfoldable pub clean_gpu_pod_watcher : Watchers → Watchers
unfolding or_panic_pods clean_watcher
clean_gpu_pod_watcher none = none
clean_gpu_pod_watcher (some (pods, nodes)) = or_panic_pods (clean_watcher pods) nodes

unfoldable pub clean_gpu_node_watcher : Watchers → Watchers
unfolding or_panic_nodes clean_watcher
clean_gpu_node_watcher none = none
clean_gpu_node_watcher (some (pods, nodes)) = or_panic_nodes pods (clean_watcher nodes)

-- signal.AddCleanFuncs(GpuPodWatcher.CleanWatcher, GpuNodeWatcher.CleanWatcher)
unfoldable pub watcher_clean_funs : List (Watchers → Watchers)
unfolding clean_gpu_pod_watcher clean_gpu_node_watcher
watcher_clean_funs = add_clean_funcs (clean_gpu_pod_watcher ∷ clean_gpu_node_watcher ∷ []) []

-- No watcher is left in the index, and exactly the channels that were watched have been closed.
unfoldable pub IsShut : {A : Type 0} → WatchIndex A → WatchIndex A → Type 0
IsShut before after =
    (watched after ≡ [])
    × ((c : ℕ)
        → after.heap c
          ≡ (if has_chan (watched before) c then shut (before.heap c) else before.heap c))

cleaned_both :
    (pods : WatchIndex GpuPod) (nodes : WatchIndex GpuNode)
    → IsLive pods
    → IsLive nodes
    → (t : WatchIndex GpuPod) × (u : WatchIndex GpuNode) × (after
          (some (pods, nodes))
          watcher_clean_funs
        ≡ some (t, u))
      × IsShut pods t
      × IsShut nodes u
unfolding watcher_clean_funs clean_gpu_pod_watcher clean_gpu_node_watcher or_panic_pods
    or_panic_nodes IsShut
cleaned_both pods nodes v l =
    let (t, ran, none_left, closed) = clean_watcher_lem pods v in
    let (u, ran', none_left', closed') = clean_watcher_lem nodes l in
    (t, u, rw (ran, ran') refl, (none_left, closed), (none_left', closed'))

-- Whatever signals arrive and whenever the goroutine goes on, if the channels of both indexes are
-- open and different: once the context is done, the clean-up has not panicked, no watcher is left in
-- either index, and exactly the channels that were watched have been closed, each once.
pub signal_shuts_watchers :
    (events : List SignalEvent) (pods : WatchIndex GpuPod) (nodes : WatchIndex GpuNode)
    → IsLive pods
    → IsLive nodes
    → let s = run_signals events (setup_signal_handler watcher_clean_funs (some (pods, nodes))) in
      s.is_cancelled ≡ true
      → (t : WatchIndex GpuPod) × (u : WatchIndex GpuNode) × (s.world ≡ some (t, u))
        × IsShut pods t
        × IsShut nodes u
signal_shuts_watchers events pods nodes v l h =
    let (t, u, ran, pods_shut, nodes_shut) = cleaned_both pods nodes v l in
    let w : Watchers = some (pods, nodes) in
    let (cleaned, bound) = run_signals_lem events watcher_clean_funs w in
    let s = run_signals events (setup_signal_handler watcher_clean_funs w) in
    (t, u, cancelled-after watcher_clean_funs w s cleaned h ∙ ran, pods_shut, nodes_shut)
