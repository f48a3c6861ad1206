-- ===== src/DsLoop/Stale.antt =====
-- What the loop leaves in the api server if the gpu check comes before the first round over the pods.
use nvidia_gpu_scheduler.Prelude.{
  ℕ, ◌-◌, ◌≡◌, refl, ap, ◌∙◌, inl, inr, Bool, Bool-cases, true, false, List, [], ◌∷◌, Option, none,
  some, String, Map, ltb, ◌==◌, if◌then◌else◌,
}
use nvidia_gpu_scheduler.Sets.{StringSet}
use nvidia_gpu_scheduler.Api.{GpuInfo, GpuNode}
use nvidia_gpu_scheduler.Reconcile.{found}
use nvidia_gpu_scheduler.Report.{PodResources, NodeGpuInfo, GpuNodes, to_gpu_node}
use nvidia_gpu_scheduler.Report.Stored.{Storing}
use nvidia_gpu_scheduler.Report.Recreate.{first_report, in_use_kept}
use nvidia_gpu_scheduler.PodReport.{
  fileter_pod_resource, sync_new, sync_old, update_pod_resource_func,
}
use nvidia_gpu_scheduler.PodStore.{GpuPods}
use nvidia_gpu_scheduler.DsLoop.Kept.{clean_init_held}
use nvidia_gpu_scheduler.DsLoop.{
  relist_cap, LoopStatus, running, stopped, blocked, Turn, stop, gpu_info, remove, go_on, relist,
  Loop, begin_loop, on_gpu_info, on_go_on, on_relist, sync_pods, finish_sync, old_pods, tell_sync,
  produce_max_errorcount, clean_once, take_turn, loop_step, run_loop,
}

module _ (S : StringSet) {W : Type 0} (nodes : GpuNodes W) (pods : GpuPods W)
    (deep_equal : PodResources → PodResources → Bool) (info : String → GpuInfo) (st : Storing nodes)
    (apart : (name : String) (w : W) → st.held (pods.delete_pod name w).1 ≡ st.held w) where
  -- A signal, or a round in which the kubelet lists no pod with a device.
  unfoldable pub IsIdle : Turn S → Type 0
  unfolding fileter_pod_resource
  IsIdle stop = Unit
  IsIdle (gpu_info times ngi) = ⊥
  IsIdle (remove times namespace name) = ⊥
  IsIdle go_on = Unit
  IsIdle (relist times none) = Unit
  IsIdle (relist times (some prlist)) = fileter_pod_resource info prlist ≡ []

  -- No pods are known, and the server holds this GpuNode.
  IsLeft : GpuNode → Loop S W → Type 0
  IsLeft m s =
      (old_pods S nodes pods deep_equal info s.node.podresources_last ≡ [])
      × (st.held s.world ≡ some m)

  no_pods :
      (prlist : List PodResources)
      → fileter_pod_resource info prlist ≡ []
      → update_pod_resource_func deep_equal info prlist []
        ≡ record { prmap_new = []; jobs = []; changed = false }
  unfolding update_pod_resource_func sync_new sync_old
  no_pods prlist h = rw h refl

  clean_once-IsLeft :
      (m : GpuNode) (new : Map PodResources) (s : Loop S W)
      → IsLeft m s
      → IsLeft m (clean_once S nodes pods deep_equal info new s)
  unfolding clean_once IsLeft
  clean_once-IsLeft m new s (empty, there) = elim (Bool-cases s.is_cleaned) [
    | inl e ↦ rw e (empty, there)
    | inr e ↦ rw e (
      empty,
      clean_init_held pods st.held apart produce_max_errorcount new (s.pods, s.world) ∙ there,
    )
  ]

  sync-IsLeft :
      (m : GpuNode) (times : List ℕ) (prlist : List PodResources) (s : Loop S W)
      → fileter_pod_resource info prlist ≡ []
      → IsLeft m s
      → IsLeft m (sync_pods S nodes pods deep_equal info times prlist s)
  unfolding sync_pods finish_sync IsLeft
  sync-IsLeft m times prlist s h (empty, there) =
      rw (empty, no_pods prlist h)
        (clean_once-IsLeft m []
          (tell_sync S nodes pods deep_equal info
            (record { prmap_new = []; jobs = []; changed = false }) s)
          (refl, there))

  IsLeft-if :
      (m : GpuNode) (b : Bool) (x y : Loop S W)
      → IsLeft m x
      → IsLeft m y
      → IsLeft m (if b then x else y)
  IsLeft-if m true x y p q = p
  IsLeft-if m false x y p q = q

  relist-IsLeft :
      (m : GpuNode) (times : List ℕ) (answer : Option (List PodResources)) (s : Loop S W)
      → IsIdle (relist times answer)
      → IsLeft m s
      → IsLeft m (on_relist S nodes pods deep_equal info times answer s)
  unfolding on_relist IsLeft IsIdle
  relist-IsLeft m times none s h v = v
  relist-IsLeft m times (some prlist) s h v = sync-IsLeft m times prlist s h v

  take_turn-IsLeft :
      (m : GpuNode) (t : Turn S) (s : Loop S W)
      → IsIdle t
      → IsLeft m s
      → IsLeft m (take_turn S nodes pods deep_equal info t s)
  unfolding take_turn on_go_on IsLeft IsIdle
  take_turn-IsLeft m stop s h v = v
  take_turn-IsLeft m (gpu_info times ngi) s h v = absurd h
  take_turn-IsLeft m (remove times namespace name) s h v = absurd h
  take_turn-IsLeft m go_on s h v = IsLeft-if m (ltb s.relist_chan relist_cap) _ _ v v
  take_turn-IsLeft m (relist times answer) s h v =
      IsLeft-if m (s.relist_chan == 0) _ _ v
        (relist-IsLeft m times answer (record s { relist_chan = s.relist_chan - 1 }) h v)

  step-IsLeft :
      (m : GpuNode) (t : Turn S) (x : LoopStatus) (s : Loop S W)
      → IsIdle t
      → IsLeft m s
      → IsLeft m (loop_step S nodes pods deep_equal info t x s)
  unfolding loop_step
  step-IsLeft m t running s h v = take_turn-IsLeft m t s h v
  step-IsLeft m t stopped s h v = v
  step-IsLeft m t blocked s h v = v

  unfoldable pub AllIdle : List (Turn S) → Type 0
  AllIdle [] = Unit
  AllIdle (t ∷ turns) = IsIdle t × AllIdle turns

  run-IsLeft :
      (m : GpuNode) (turns : List (Turn S)) (s : Loop S W)
      → AllIdle turns
      → IsLeft m s
      → IsLeft m (run_loop S nodes pods deep_equal info turns s)
  unfolding run_loop AllIdle
  run-IsLeft m [] s h v = v
  run-IsLeft m (t ∷ turns) s (idle, all) v =
      run-IsLeft m turns (loop_step S nodes pods deep_equal info t s.status s) all
        (step-IsLeft m t s.status s idle v)

  after_first :
      (now : ℕ) (later : List ℕ) (ngi : NodeGpuInfo S) (node_name : String) (w v : W)
      (n m : GpuNode)
      → nodes.get node_name w ≡ found n
      → nodes.update
          (to_gpu_node S now node_name (some n) (some (record ngi { node_name = node_name })) none)
          w
        ≡ (some m, v)
      → IsLeft m
          (on_gpu_info S nodes pods deep_equal info (now ∷ later) ngi (begin_loop S node_name w))
  unfolding on_gpu_info begin_loop IsLeft
  after_first now later ngi node_name w v n m there took =
      let e =
        first_report S nodes now later
          (record {
            node_name = node_name;
            gpu_node_last = none;
            last_node_gpu_info = some (record ngi { node_name = node_name });
            podresources_last = none;
          })
          w v n m refl there took in
      (
        ap (λ r. old_pods S nodes pods deep_equal info r.0.0.podresources_last) e,
        ap (λ r. st.held r.0.1) e ∙ (st.update-held _ m w v took).0,
      )

  -- If the loop takes a gpu check before its first round over the pods, and its node has a GpuNode,
  -- say from before a restart, whose update the server takes, then the devices that this GpuNode had
  -- in use are those in use in what the server holds, as long as the loop takes no other gpu check and
  -- no removal and the kubelet lists no pod with a device, however many rounds there are.
  pub stale_in_use :
      (now : ℕ) (later : List ℕ) (ngi : NodeGpuInfo S) (turns : List (Turn S)) (node_name : String)
      (w v : W) (n m : GpuNode)
      → nodes.get node_name w ≡ found n
      → nodes.update
          (to_gpu_node S now node_name (some n) (some (record ngi { node_name = node_name })) none)
          w
        ≡ (some m, v)
      → AllIdle turns
      → (r : GpuNode) × (st.held
            (run_loop S nodes pods deep_equal info
              (gpu_info (now ∷ later) ngi ∷ turns)
              (begin_loop S node_name w)).world
          ≡ some r)
        × (r.spec.node_device_in_use ≡ n.spec.node_device_in_use)
  unfolding run_loop loop_step take_turn begin_loop IsLeft
  stale_in_use now later ngi turns node_name w v n m there took idle =
      let begin : Loop S W = begin_loop S node_name w in
      let (empty, held) =
        run-IsLeft m turns (on_gpu_info S nodes pods deep_equal info (now ∷ later) ngi begin) idle
          (after_first now later ngi node_name w v n m there took) in
      (
        m,
        held,
        ap (λ x. x.node_device_in_use) (st.update-held _ m w v took).1
            ∙ in_use_kept S now node_name n (some (record ngi { node_name = node_name })),
      )
