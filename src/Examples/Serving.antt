-- ===== src/Examples/Serving.antt =====
-- The requests of the scheduler on the concrete cluster.
use mathlib.Core.List.{Perm}
use nvidia_gpu_scheduler.Prelude.{
  ◌≡◌, ◌↔◌, refl, true, ◌&&◌, List, [], ◌∷◌, map, keys, Option, none, some, String, Map, has_text,
  keep, lookup, arith, if◌then◌else◌,
}
use nvidia_gpu_scheduler.Sets.Plain.{plain}
use nvidia_gpu_scheduler.Scheduler.Scoring.{priorities, run_score_plugins-priorities}
use nvidia_gpu_scheduler.Scheduler.{run_score_plugins}
use nvidia_gpu_scheduler.GpuModelFit.Decision.{Fits}
use nvidia_gpu_scheduler.Extender.Workers.{begin, feasible, accepted_of}
use nvidia_gpu_scheduler.Extender.Permutation.{feasible-perm}
use nvidia_gpu_scheduler.Extender.Finish.{work, work-begin}
use nvidia_gpu_scheduler.Extender.Handlers.{
  MetaVictims, ok, panicked, nil_or, accepts, post_schedule_filter_handler,
  post_schedule_prioritize_handler, post_schedule_preempt_handler,
}
use nvidia_gpu_scheduler.Extender.Handlers.Replies.{has_null, filter_reply, preempt_reply}
use nvidia_gpu_scheduler.Extender.EndToEnd.{
  due_score, controller_filter_reply, controller_prioritize_reply,
}
use nvidia_gpu_scheduler.Examples.Cluster.{
  model, cache, pod, nodes, one_worker, framework, controller, controller_built, asked, few_gpus,
  few_devices, count_down, count_down_covers, checked,
}

controller_filter_reply_example :
    (names : List String) × (post_schedule_filter_handler one_worker controller.fw cache
        (some (record { pod = some pod; node_names = some nodes }))
      ≡ ok names)
    × ((n : String)
        → (has_text names n ≡ true) ↔ ((has_text nodes n ≡ true) × Fits plain cache pod n model))
controller_filter_reply_example =
    controller_filter_reply plain one_worker 10 controller controller_built cache pod model asked
      nodes (omega arith) few_gpus few_devices

controller_prioritize_reply_example :
    post_schedule_prioritize_handler one_worker controller.fw cache
      (some (record { pod = some pod; node_names = some nodes }))
    ≡ ok (map (λ n. record { host = n; score = due_score plain cache model n }) nodes)
controller_prioritize_reply_example =
    controller_prioritize_reply plain one_worker 10 controller controller_built cache pod model
      asked nodes few_devices

filter_reply_example :
    (names : List String) × (post_schedule_filter_handler one_worker framework cache
        (some (record { pod = some pod; node_names = some nodes }))
      ≡ ok names)
    × Perm names (keep (accepts framework cache pod) nodes)
filter_reply_example = filter_reply one_worker framework cache pod nodes (omega arith)

-- A pod on each node is to make way.
abbrev victims : Map (Option MetaVictims)
victims =
    ("a", some (record { pods = some "p1" ∷ []; num_pdb_violations = 0 }))
    ∷ ("b", some (record { pods = some "p2" ∷ []; num_pdb_violations = 1 }))
    ∷ []

preempt_reply_example :
    (result : Map (Option MetaVictims)) × (post_schedule_preempt_handler one_worker framework cache
        (some (record { pod = some pod; node_name_to_meta_victims = victims }))
      ≡ (if has_null victims then panicked else ok result))
    × ((n : String)
        → lookup n result ≡ (
            if has_text (keys victims) n && accepts framework cache pod n
            then some (nil_or (lookup n victims))
            else none))
preempt_reply_example = preempt_reply one_worker framework cache pod victims (omega arith)

run_score_plugins-priorities_example :
    run_score_plugins framework cache pod nodes (count_down 2)
    ≡ priorities cache pod framework.score_plugins nodes
run_score_plugins-priorities_example =
    run_score_plugins-priorities framework cache pod nodes (count_down 2) (refl, tt)
      (count_down_covers 2)

feasible-perm_example : Perm (feasible (work checked (begin checked))) (accepted_of checked)
feasible-perm_example =
    feasible-perm checked (omega arith) (work-begin checked).0 (work-begin checked).1
