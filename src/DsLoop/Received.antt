-- ===== src/DsLoop/Received.antt =====
-- The way of a device from the driver of its node, through the loop of gpuserver-ds and the api
-- server, to the scheduler's cache.
use nvidia_gpu_scheduler.Prelude.{
  ℕ, ◌<◌, ◌≡◌, ◌⊎◌, ap, ◌∙◌, Bool, true, ◌&&◌, not, List, ◌∷◌, none, some, String, Map,
}
use nvidia_gpu_scheduler.Sets.{StringSet}
use nvidia_gpu_scheduler.Api.{GpuInfo, GpuNode}
use nvidia_gpu_scheduler.NodeCache.{get_free_device_by_model}
use nvidia_gpu_scheduler.Report.{PodResources, NodeGpuInfo, GpuNodes}
use nvidia_gpu_scheduler.Report.Content.{is_busy}
use nvidia_gpu_scheduler.Report.Stored.{Storing}
use nvidia_gpu_scheduler.Report.Scheduled.{in_lookup, received_is_free}
use nvidia_gpu_scheduler.PodStore.{GpuPods}
use nvidia_gpu_scheduler.GpuCheck.{Nvml, HostGpuInfoChecker, round, check_round}
use nvidia_gpu_scheduler.GpuCheck.Groups.{is_of_model}
use nvidia_gpu_scheduler.GpuCheck.Sent.{check_round-models}
use nvidia_gpu_scheduler.Watch.Laws.{IsLive}
use nvidia_gpu_scheduler.Reconcile.{found, NodeServer, reconcile_gpu_node}
use nvidia_gpu_scheduler.DsLoop.{Turn, running, relist, Loop, run_loop}
use nvidia_gpu_scheduler.DsLoop.Shown.{sync_of, AllHeard, InSync}
use nvidia_gpu_scheduler.DsLoop.Shown.Runs.{run_from-InSync}

module _ (S : StringSet) {W : Type 0} (nodes : GpuNodes W) (pods : GpuPods W)
    (deep_equal : PodResources → PodResources → Bool) (info : String → GpuInfo) (st : Storing nodes)
    (sound : (p q : PodResources) → deep_equal p q ≡ true → p ≡ q)
    (apart : (name : String) (w : W) → st.held (pods.delete_pod name w).1 ≡ st.held w) where
  -- Let DeepEqual hold only of equal pods, let the api server hold what it answers with, with the
  -- spec that it was sent, and let deleting a GpuPod leave the GpuNode alone. Let the running loop take
  -- a round over the pods that finds a change or comes before the first gpu check, and any turns after
  -- it, without a report that ends with an error, and let the last gpu check that it took be what a
  -- round of the checker sent. Then the server holds a GpuNode, and if the reconciler, whose watchers'
  -- channels are open and different, receives it, its round succeeds, and in the cache that it leaves
  -- a device is free for a model exactly if the check found it with a name that is normalised to that
  -- model and no container of a pod that the loop knows lists it.
  pub received_from_loop :
      (nvml : Nvml) (now : ℕ) (check_name : String) (gic gic' : HostGpuInfoChecker S)
      (ngi : NodeGpuInfo S) (times : List ℕ) (prlist : List PodResources) (turns : List (Turn S))
      (s : Loop S W)
      → check_round S nvml now check_name gic ≡ round gic' (some ngi)
      → s.status ≡ running
      → 0 < s.relist_chan
      → ((sync_of S nodes pods deep_equal info prlist s).changed ≡ true)
        ⊎ (s.node.last_node_gpu_info ≡ none)
      → AllHeard S nodes pods deep_equal info (relist times (some prlist) ∷ turns) s
      → (name : String)
      → (run_loop S nodes pods deep_equal info
          (relist times (some prlist) ∷ turns)
          s).node.last_node_gpu_info
        ≡ some (record ngi { node_name = name })
      → (server : NodeServer) (namespace : String) → IsLive server.watchers
      → let l = run_loop S nodes pods deep_equal info (relist times (some prlist) ∷ turns) s in
        (n : GpuNode) × (t : NodeServer) × (prm : Map PodResources) × (st.held l.world ≡ some n)
        × (l.node.podresources_last ≡ some prm)
        × (reconcile_gpu_node namespace n.name (found n) server ≡ some (t, none))
        × ((model d : String)
            → S.has (get_free_device_by_model S n.name model t.cache) d
              ≡ (is_of_model S ngi model d && not (is_busy prm d)))
  unfolding InSync
  received_from_loop nvml now check_name gic gic' ngi times prlist turns s e run pos h heard name k
        server namespace v =
      let (prm, known, keyed, shows) =
        run_from-InSync S nodes pods deep_equal info st sound apart times prlist turns s run pos h
          heard in
      let (n, there, free) = shows (record ngi { node_name = name }) k in
      let (t, ran, cached) =
        received_is_free S n (λ model d. is_of_model S ngi model d && not (is_busy prm d))
          (λ model d.
            free model d
            ∙ ap (λ b. b && not (is_busy prm d))
                (in_lookup S ngi model d
                  ∙ check_round-models S nvml now check_name gic gic' ngi e model d))
          namespace server v in
      (n, t, prm, there, known, ran, cached)
