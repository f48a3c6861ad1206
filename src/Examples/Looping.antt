-- ===== src/Examples/Looping.antt =====
-- The loop of gpuserver-ds on a node with one pod, from its start to the scheduler's cache.
use nvidia_gpu_scheduler.Prelude.{
  ◌<◌, arith, ◌≡◌, inr, ◌&&◌, not, refl, true, List, [], ◌∷◌, Option, none, some, String, Map,
}
use nvidia_gpu_scheduler.Sets.Plain.{plain}
use nvidia_gpu_scheduler.Api.{GpuNode}
use nvidia_gpu_scheduler.Report.{PodResources, GpuNodes}
use nvidia_gpu_scheduler.Report.{ensure_gpu_node, produce_node_gpu_info_crd, to_gpu_node}
use nvidia_gpu_scheduler.Report.Content.{is_busy}
use nvidia_gpu_scheduler.Reconcile.{found, not_found, NodeServer, reconcile_gpu_node}
use nvidia_gpu_scheduler.PodReport.{fileter_pod_resource, update_pod_resource_func}
use nvidia_gpu_scheduler.NodeCache.{get_free_device_by_model}
use nvidia_gpu_scheduler.GpuCheck.Groups.{is_of_model}
use nvidia_gpu_scheduler.Report.Stored.{Storing}
use nvidia_gpu_scheduler.PodStore.{GpuPods}
use nvidia_gpu_scheduler.DsLoop.{
  Loop, Turn, gpu_info, remove, go_on, relist, begin_loop, loop_step, take_turn, on_gpu_info,
  on_remove, on_go_on, on_relist, sync_pods, finish_sync, clean_once, run_loop,
}
use nvidia_gpu_scheduler.DsLoop.Shown.{Heard, AllHeard, InSync}
use nvidia_gpu_scheduler.DsLoop.Shown.Runs.{run_from-InSync}
use nvidia_gpu_scheduler.DsLoop.Received.{received_from_loop}
use nvidia_gpu_scheduler.DsLoop.Stale.{IsIdle, AllIdle, stale_in_use}
use nvidia_gpu_scheduler.Examples.Agent.{
  sent, told_checker, new_checker, one_gpu, sends, server, info,
}
use nvidia_gpu_scheduler.Examples.Reporting.{
  one_object, one_object-Storing, answers_held, versioned,
}
use nvidia_gpu_scheduler.Examples.Cluster.{node_a}
use nvidia_gpu_scheduler.Examples.Equality.{same_pods, same_pods_sound}

abbrev pub one_pod : PodResources
one_pod = record {
  name = "p";
  namespace = "ns";
  containers =
      record {
        name = "c";
        devices = record { resource_name = "nvidia.com/gpu"; device_ids = "d1" ∷ [] } ∷ [];
      }
      ∷ [];
}

-- A server of GpuPods that takes every deletion, and lists none.
abbrev quiet : GpuPods (Option GpuNode)
quiet = record {
  get = λ name w. not_found;
  update = λ p w. (none, w);
  create = λ p w. (some p, w);
  delete_pod = λ name w. (true, w);
  list = λ w. some [];
}

-- The pod is listed, the check tells of the gpu, the pod is removed, a round finds no pod.
abbrev turns : List (Turn plain)
turns =
    gpu_info (12 ∷ []) sent ∷ remove (13 ∷ []) "ns" "p" ∷ go_on ∷ relist (14 ∷ []) (some []) ∷ []

abbrev at_start : Loop plain (Option GpuNode)
at_start = begin_loop plain "a" none

heard :
    AllHeard plain one_object quiet same_pods info
      (relist (11 ∷ []) (some (one_pod ∷ [])) ∷ turns)
      at_start
unfolding AllHeard Heard loop_step take_turn on_gpu_info on_remove on_go_on on_relist sync_pods
    finish_sync clean_once update_pod_resource_func same_pods begin_loop produce_node_gpu_info_crd
    ensure_gpu_node
heard = ((λ e. refl), (refl, (refl, (tt, ((λ e. refl), tt)))))

one_left : 0 < 1
one_left = omega arith

run_from-InSync_example : InSync plain one_object quiet same_pods info one_object-Storing (
    run_loop plain one_object quiet same_pods info
      (relist (11 ∷ []) (some (one_pod ∷ [])) ∷ turns)
      at_start)
unfolding begin_loop
run_from-InSync_example =
    run_from-InSync plain one_object quiet same_pods info one_object-Storing same_pods_sound
      (λ name w. refl) (11 ∷ []) (one_pod ∷ []) turns at_start refl one_left (inr refl) heard

last_told :
    (run_loop plain one_object quiet same_pods info
      (relist (11 ∷ []) (some (one_pod ∷ [])) ∷ turns)
      at_start).node.last_node_gpu_info
    ≡ some (record sent { node_name = "a" })
unfolding run_loop loop_step take_turn on_gpu_info on_remove on_go_on on_relist sync_pods
    finish_sync clean_once update_pod_resource_func same_pods begin_loop produce_node_gpu_info_crd
    ensure_gpu_node
last_told = refl

received_from_loop_example :
    let l =
      run_loop plain one_object quiet same_pods info
        (relist (11 ∷ []) (some (one_pod ∷ [])) ∷ turns)
        at_start in
    (n : GpuNode) × (t : NodeServer) × (prm : Map PodResources) × (one_object-Storing.held l.world
      ≡ some n)
    × (l.node.podresources_last ≡ some prm)
    × (reconcile_gpu_node "ns" n.name (found n) server ≡ some (t, none))
    × ((model d : String)
        → plain.has (get_free_device_by_model plain n.name model t.cache) d
          ≡ (is_of_model plain sent model d && not (is_busy prm d)))
unfolding begin_loop
received_from_loop_example =
    received_from_loop plain one_object quiet same_pods info one_object-Storing same_pods_sound
      (λ name w. refl) one_gpu 9 "a" new_checker told_checker sent (11 ∷ []) (one_pod ∷ []) turns
      at_start sends refl one_left (inr refl) heard "a" last_told server "ns"
      (record { different = tt; all_open = tt })

-- A server whose GpuNode has a device in use from before a restart.
abbrev used : GpuNode
used = record node_a { spec = record node_a.spec { node_device_in_use = "d1" ∷ [] } }

abbrev keeping : GpuNodes (Option GpuNode)
keeping = record one_object { get = λ name w. found used }

keeping-Storing : Storing keeping
keeping-Storing = record {
  held = λ w. w;
  update-held = λ n m w v e. answers_held n m w v e;
  create-held = λ n m w v e. answers_held n m w v e;
}

idle :
    AllIdle plain keeping quiet same_pods info keeping-Storing
      (λ name w. refl)
      (relist (11 ∷ []) (some []) ∷ go_on ∷ relist (12 ∷ []) (some []) ∷ [])
unfolding AllIdle IsIdle fileter_pod_resource
idle = (refl, (tt, (refl, tt)))

stale_in_use_example :
    (r : GpuNode) × (keeping-Storing.held
        (run_loop plain keeping quiet same_pods info
          (gpu_info (9 ∷ []) sent
            ∷ relist (11 ∷ []) (some [])
            ∷ go_on
            ∷ relist (12 ∷ []) (some [])
            ∷ [])
          (begin_loop plain "a" none)).world
      ≡ some r)
    × (r.spec.node_device_in_use ≡ used.spec.node_device_in_use)
stale_in_use_example =
    stale_in_use plain keeping quiet same_pods info keeping-Storing (λ name w. refl) 9 [] sent
      (relist (11 ∷ []) (some []) ∷ go_on ∷ relist (12 ∷ []) (some []) ∷ []) "a" none
      (some (
        versioned
          (to_gpu_node plain 9 "a" (some used) (some (record sent { node_name = "a" })) none)))
      used
      (versioned
        (to_gpu_node plain 9 "a" (some used) (some (record sent { node_name = "a" })) none))
      refl refl idle
