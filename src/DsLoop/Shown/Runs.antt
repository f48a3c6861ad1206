-- ===== src/DsLoop/Shown/Runs.antt =====
-- How a run of the loop keeps what the api server shows of the node, and from when on.
use nvidia_gpu_scheduler.Prelude.{
  ℕ, ◌-◌, ◌<◌, ◌⊎◌, arith, ◌≡◌, refl, inl, inr, Bool, true, false, List, [], ◌∷◌, Option, none,
  some, String, ◌==◌,
}
use nvidia_gpu_scheduler.Sets.{StringSet}
use nvidia_gpu_scheduler.Api.{GpuInfo}
use nvidia_gpu_scheduler.Report.{PodResources, NodeGpuInfo, GpuNodes}
use nvidia_gpu_scheduler.Report.Stored.{Storing}
use nvidia_gpu_scheduler.PodReport.Unchanged.{update-IsKeyed}
use nvidia_gpu_scheduler.PodStore.{GpuPods}
use nvidia_gpu_scheduler.DsLoop.{
  LoopStatus, running, stopped, blocked, Turn, relist, Loop, on_relist, sync_pods, tell_sync,
  old_pods, take_turn, loop_step, run_loop,
}
use nvidia_gpu_scheduler.DsLoop.Shown.{sync_of, Heard, AllHeard, InSync}
use nvidia_gpu_scheduler.DsLoop.Shown.Rounds.{take_turn-InSync, finish-InSync, Heard-chan}

module _ (S : StringSet) {W : Type 0} (nodes : GpuNodes W) (pods : GpuPods W)
    (deep_equal : PodResources → PodResources → Bool) (info : String → GpuInfo) (st : Storing nodes)
    (sound : (p q : PodResources) → deep_equal p q ≡ true → p ≡ q)
    (apart : (name : String) (w : W) → st.held (pods.delete_pod name w).1 ≡ st.held w) where
  step-InSync :
      (t : Turn S) (x : LoopStatus) (s : Loop S W)
      → Heard S nodes pods deep_equal info t s
      → InSync S nodes pods deep_equal info st s
      → InSync S nodes pods deep_equal info st (loop_step S nodes pods deep_equal info t x s)
  unfolding loop_step
  step-InSync t running s heard v =
      take_turn-InSync S nodes pods deep_equal info st sound apart t s heard v
  step-InSync t stopped s heard v = v
  step-InSync t blocked s heard v = v

  pub run_loop-InSync :
      (turns : List (Turn S)) (s : Loop S W)
      → AllHeard S nodes pods deep_equal info turns s
      → InSync S nodes pods deep_equal info st s
      → InSync S nodes pods deep_equal info st (run_loop S nodes pods deep_equal info turns s)
  unfolding run_loop AllHeard
  run_loop-InSync [] s heard v = v
  run_loop-InSync (t ∷ turns) s (now, later) v =
      run_loop-InSync turns (loop_step S nodes pods deep_equal info t s.status s) later
        (step-InSync t s.status s now v)

  some_info :
      (o : Option (NodeGpuInfo S)) (ngi : NodeGpuInfo S) {A : Type 0} → o ≡ none → o ≡ some ngi → A
  some_info o ngi h k = absurd (ground arith)

  -- A round before the first gpu check.
  first-InSync :
      (prlist : List PodResources) (s : Loop S W)
      → s.node.last_node_gpu_info ≡ none
      → InSync S nodes pods deep_equal info st
          (tell_sync S nodes pods deep_equal info (sync_of S nodes pods deep_equal info prlist s) s)
  unfolding InSync
  first-InSync prlist s h = (
    (sync_of S nodes pods deep_equal info prlist s).prmap_new,
    refl,
    update-IsKeyed deep_equal sound info prlist
        (old_pods S nodes pods deep_equal info s.node.podresources_last),
    λ ngi k. some_info s.node.last_node_gpu_info ngi h k,
  )

  told-InSync :
      (prlist : List PodResources) (s : Loop S W)
      → ((sync_of S nodes pods deep_equal info prlist s).changed ≡ true)
        ⊎ (s.node.last_node_gpu_info ≡ none)
      → (sync_of S nodes pods deep_equal info prlist s).changed ≡ false
      → InSync S nodes pods deep_equal info st
          (tell_sync S nodes pods deep_equal info (sync_of S nodes pods deep_equal info prlist s) s)
  told-InSync prlist s (inl change) same = absurd (ground arith)
  told-InSync prlist s (inr h) same = first-InSync prlist s h

  round-InSync :
      (times : List ℕ) (prlist : List PodResources) (x : LoopStatus) (s : Loop S W)
      → x ≡ running
      → (s.relist_chan == 0) ≡ false
      → ((sync_of S nodes pods deep_equal info prlist s).changed ≡ true)
        ⊎ (s.node.last_node_gpu_info ≡ none)
      → Heard S nodes pods deep_equal info (relist times (some prlist)) s
      → InSync S nodes pods deep_equal info st
          (loop_step S nodes pods deep_equal info (relist times (some prlist)) x s)
  unfolding loop_step take_turn on_relist sync_pods
  round-InSync times prlist x s e pos h heard =
      let t : Loop S W = record s { relist_chan = s.relist_chan - 1 } in
      rw e (
        rw pos (
          finish-InSync S nodes pods deep_equal info st sound apart times prlist t
            (Heard-chan S nodes pods deep_equal info st sound apart times (some prlist)
              (s.relist_chan - 1) s heard)
            (told-InSync prlist t h)))

  pos→eqb : (n : ℕ) → 0 < n → (n == 0) ≡ false
  pos→eqb n h = ground arith

  -- Let DeepEqual hold only of equal pods, let the api server hold what it answers with, with the
  -- spec that it was sent, and let deleting a GpuPod leave the GpuNode alone. If the running loop takes
  -- a round over the pods that finds a change or comes before the first gpu check, and no report of
  -- this turn or a later one ends with an error, then after every later turn, whatever the turns are,
  -- the server shows exactly what the loop knows: once the gpu check has told of gpus, a device is
  -- free for a model in the held GpuNode exactly if the check told of it last under the model and no
  -- container of a known pod lists it.
  pub run_from-InSync :
      (times : List ℕ) (prlist : List PodResources) (turns : List (Turn S)) (s : Loop S W)
      → s.status ≡ running
      → 0 < s.relist_chan
      → ((sync_of S nodes pods deep_equal info prlist s).changed ≡ true)
        ⊎ (s.node.last_node_gpu_info ≡ none)
      → AllHeard S nodes pods deep_equal info (relist times (some prlist) ∷ turns) s
      → InSync S nodes pods deep_equal info st
          (run_loop S nodes pods deep_equal info (relist times (some prlist) ∷ turns) s)
  unfolding run_loop AllHeard
  run_from-InSync times prlist turns s e pos h (now, later) =
      run_loop-InSync turns
        (loop_step S nodes pods deep_equal info (relist times (some prlist)) s.status s) later
        (round-InSync times prlist s.status s e (pos→eqb s.relist_chan pos) h now)
