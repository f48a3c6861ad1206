-- ===== src/Report/Scheduled.antt =====
-- The way of a device from the driver of its node to the scheduler's choice: a round of the gpu
-- check, the report of the node, and the round of the reconciler that receives it.
use nvidia_gpu_scheduler.Prelude.{
  ℕ, ◌≡◌, refl, ap, ◌∙◌, Bool, ◌&&◌, not, Option, none, some, String, eq_refl, Map, lookup,
}
use nvidia_gpu_scheduler.Sets.{StringSet}
use nvidia_gpu_scheduler.Api.{GpuNode}
use nvidia_gpu_scheduler.NodeCache.{GpuNodeCache, set_gpu_node, get_free_device_by_model}
use nvidia_gpu_scheduler.NodeCache.Free.{is_free, set_gpu_node_lem}
use nvidia_gpu_scheduler.Report.{PodResources, NodeGpuInfo, to_gpu_node}
use nvidia_gpu_scheduler.Report.Content.{is_busy, is_free-to_gpu_node}
use nvidia_gpu_scheduler.Report.Content.{in_model as is_in}
use nvidia_gpu_scheduler.GpuCheck.{Nvml, HostGpuInfoChecker, round, check_round}
use nvidia_gpu_scheduler.GpuCheck.Groups.{has_in, in_model, is_of_model}
use nvidia_gpu_scheduler.GpuCheck.Sent.{check_round-models}
use nvidia_gpu_scheduler.Watch.Laws.{IsLive}
use nvidia_gpu_scheduler.Reconcile.{found, NodeServer, reconcile_gpu_node}
use nvidia_gpu_scheduler.Reconcile.Effects.{reconcile_gpu_node_lem}

module _ (S : StringSet) where
  same_in : (o : Option S.Set) (d : String) → is_in S o d ≡ has_in S o d
  same_in none d = refl
  same_in (some s) d = refl

  pub in_lookup :
      (ngi : NodeGpuInfo S) (model d : String)
      → is_in S (lookup model ngi.models) d ≡ in_model S ngi model d
  unfolding in_model
  in_lookup ngi model d = same_in (lookup model ngi.models) d

  free_in :
      (name : String) (value : GpuNode) (model d : String) (c : GpuNodeCache)
      → S.has (get_free_device_by_model S name model (set_gpu_node name value c)) d
        ≡ is_free model d (some value)
  free_in name value model d c =
      (set_gpu_node_lem S name name model value c).1 d ∙ rw (eq_refl name) refl

  -- The reconciler's round with a GpuNode, whose watchers' channels are open and different, succeeds
  -- and leaves its free devices in the cache.
  pub received_is_free :
      (n : GpuNode) (is_wanted : String → String → Bool)
      → ((model d : String) → is_free model d (some n) ≡ is_wanted model d)
      → (namespace : String) (s : NodeServer) → IsLive s.watchers
      → (t : NodeServer) × (reconcile_gpu_node namespace n.name (found n) s ≡ some (t, none))
        × ((model d : String)
            → S.has (get_free_device_by_model S n.name model t.cache) d ≡ is_wanted model d)
  received_is_free n is_wanted free namespace s v =
      let (t, ran, kept, sent) = reconcile_gpu_node_lem namespace n.name (found n) s v in
      (
        t,
        ran,
        λ model d.
            ap (λ c. S.has (get_free_device_by_model S n.name model c) d) kept
            ∙ free_in n.name n model d s.cache
            ∙ free model d,
      )

  -- If a round of the gpu check sends what it has found, the node reports it with the devices of its
  -- pods, and the reconciler, whose watchers' channels are open and different, receives the report,
  -- then the reconciler's round succeeds, and in the cache that it leaves a device is free for a
  -- model exactly if the check found it with a name that is normalised to that model and no container
  -- of a pod on the node lists it, whatever was reported or cached before.
  pub found_is_free :
      (nvml : Nvml) (now : ℕ) (node_name : String) (gic gic' : HostGpuInfoChecker S)
      (ngi : NodeGpuInfo S)
      → check_round S nvml now node_name gic ≡ round gic' (some ngi)
      → (later : ℕ) (base : Option GpuNode) (prm : Map PodResources) (namespace : String)
        (s : NodeServer)
      → IsLive s.watchers
      → let n =
          to_gpu_node S later node_name base
            (some (record ngi { node_name = node_name }))
            (some prm) in
        (t : NodeServer) × (reconcile_gpu_node namespace n.name (found n) s ≡ some (t, none))
        × ((model d : String)
            → S.has (get_free_device_by_model S n.name model t.cache) d
              ≡ (is_of_model S ngi model d && not (is_busy prm d)))
  found_is_free nvml now node_name gic gic' ngi e later base prm namespace s v =
      let n =
        to_gpu_node S later node_name base (some (record ngi { node_name = node_name }))
          (some prm) in
      received_is_free n (λ model d. is_of_model S ngi model d && not (is_busy prm d))
        (λ model d.
          is_free-to_gpu_node S later node_name base (record ngi { node_name = node_name }) prm
            model d
          ∙ ap (λ b. b && not (is_busy prm d))
              (in_lookup ngi model d
                ∙ check_round-models S nvml now node_name gic gic' ngi e model d))
        namespace s v
