-- ===== src/Extender/EndToEnd.antt =====
-- The scheduler extender as NewServerController builds it: the one plugin behind the handlers.
use nvidia_gpu_scheduler.Prelude.{
  ℕ, ◌<◌, ◌≡◌, ◌↔◌, refl, ap, ◌∙◌, Bool, true, ◌&&◌, List, [], ◌∷◌, map, some, String, length,
  has_text, arith, if◌then◌else◌,
}
use nvidia_gpu_scheduler.Sets.{StringSet, Distinct}
use nvidia_gpu_scheduler.Words.{i64_sign, add_i64}
use nvidia_gpu_scheduler.Api.{Pod}
use nvidia_gpu_scheduler.PodSpec.{get_pod_request_gpu_num}
use nvidia_gpu_scheduler.NodeCache.{GpuNodeCache, check_node_health}
use nvidia_gpu_scheduler.Scheduler.{Framework, made, run_filter_plugins}
use nvidia_gpu_scheduler.Scheduler.Scoring.{priorities, total_score}
use nvidia_gpu_scheduler.Scheduler.Rows.{names_of}
use nvidia_gpu_scheduler.GpuModelFit.{
  gpu_model_fit_name, requested_model, filter, score, new_in_tree_registry, ServerController,
  new_server_controller,
}
use nvidia_gpu_scheduler.GpuModelFit.Decision.{Fits, free_count, filter-accepted_iff, score_value}
use nvidia_gpu_scheduler.Extender.Handlers.{
  ParallelizeUntil, ok, accepts, post_schedule_filter_handler, post_schedule_prioritize_handler,
}
use nvidia_gpu_scheduler.Extender.Handlers.Replies.{
  filter_reply, prioritize_reply, has_text-perm, has_text-keep,
}

module _ (S : StringSet) where
  fit_framework : Framework
  fit_framework = record {
    registry = new_in_tree_registry S;
    filter_plugins = record { name = gpu_model_fit_name; filter = filter S } ∷ [];
    score_plugins = record { name = gpu_model_fit_name; score = score S } ∷ [];
  }

  new_server_controller_made :
      (parallelism : ℕ)
      → new_server_controller S parallelism
        ≡ made (record { fw = fit_framework; parallelism = parallelism })
  unfolding new_server_controller fit_framework
  new_server_controller_made parallelism = refl

  built_framework :
      (parallelism : ℕ) {sc : ServerController}
      → new_server_controller S parallelism ≡ made sc
      → fit_framework ≡ sc.fw
  built_framework parallelism e = cc (new_server_controller_made parallelism, e)

  accepts-fit :
      (cache : GpuNodeCache) (pod : Pod) (node : String)
      → accepts fit_framework cache pod node ≡ (filter S cache pod node).is_accepted
  unfolding fit_framework run_filter_plugins
  accepts-fit cache pod node = ground arith

  -- The score that a node is due: its free devices of the model if it is known and healthy.
  abbrev pub due_score : GpuNodeCache → String → String → ℕ
  due_score cache model n =
      if (check_node_health n cache).0 && (check_node_health n cache).1
      then free_count S cache n model
      else 0

  module _ (P : ParallelizeUntil) (parallelism : ℕ) (sc : ServerController)
      (built : new_server_controller S parallelism ≡ made sc) (cache : GpuNodeCache) (pod : Pod)
      (model : String) (asked : requested_model pod ≡ some model) where
    accepts_iff :
        (small : get_pod_request_gpu_num pod < i64_sign)
        → (n : String) → free_count S cache n model < i64_sign
        → (accepts sc.fw cache pod n ≡ true) ↔ Fits S cache pod n model
    accepts_iff small n few =
        rw (← built_framework parallelism built, accepts-fit cache pod n)
          (filter-accepted_iff S cache pod n model asked small few)

    -- For a pod with the model annotation, the filter request of the controller that
    -- NewServerController builds is answered with names among which stand exactly those of the
    -- request whose node is known and healthy, has a free device of the model, and has not fewer of
    -- them than the pod asks for. The request has fewer than 2 ^ 31 nodes, and the counts are below
    -- 2 ^ 63.
    pub controller_filter_reply :
        (nodes : List String)
        → length nodes < 2147483648
        → get_pod_request_gpu_num pod < i64_sign
        → ((n : String) → free_count S cache n model < i64_sign)
        → (names : List String) × (post_schedule_filter_handler P sc.fw cache
              (some (record { pod = some pod; node_names = some nodes }))
            ≡ ok names)
          × ((n : String)
              → (has_text names n ≡ true) ↔ ((has_text nodes n ≡ true) × Fits S cache pod n model))
    controller_filter_reply nodes h small few =
        let (names, answered, same) = filter_reply P sc.fw cache pod nodes h in
        (
          names,
          answered,
          λ n. exactly n (has_text-perm n same ∙ has_text-keep (accepts sc.fw cache pod) nodes n),
        )
      where
        exactly :
            (n : String) {b : Bool}
            → b ≡ (has_text nodes n && accepts sc.fw cache pod n)
            → (b ≡ true) ↔ ((has_text nodes n ≡ true) × Fits S cache pod n model)
        exactly n e = (
          λ t. (ground arith, (accepts_iff small n (few n)).0 (ground arith)),
          λ t. e ∙ both t.0 ((accepts_iff small n (few n)).1 t.1),
        )
          where
            both : {a b : Bool} → a ≡ true → b ≡ true → (a && b) ≡ true
            both p q = ground arith

    fit_total :
        (n : String)
        → total_score cache pod fit_framework.score_plugins n 0 ≡ add_i64 0 (score S cache pod n).0
    unfolding fit_framework
    fit_total n = refl

    total-score :
        (n : String)
        → total_score cache pod sc.fw.score_plugins n 0 ≡ add_i64 0 (score S cache pod n).0
    total-score n = rw (← built_framework parallelism built) (fit_total n)

    priorities_due :
        (nodes : List String)
        → ((n : String) → free_count S cache n model < i64_sign)
        → priorities cache pod sc.fw.score_plugins nodes
          ≡ map (λ n. record { host = n; score = due_score cache model n }) nodes
    priorities_due [] few = refl
    priorities_due (n ∷ nodes) few =
        let here : total_score cache pod sc.fw.score_plugins n 0 ≡ due_score cache model n =
          total-score n
          ∙ ap (λ x. add_i64 0 x) (score_value S cache pod n model asked)
          ∙ small_sum _ _ (few n) in
        rw (here, priorities_due nodes few) refl
      where
        small_sum :
            (b : Bool) (c : ℕ)
            → c < i64_sign
            → add_i64 0 (if b then c else 0) ≡ (if b then c else 0)
        small_sum b c h = ground arith

    one_score_plugin : Distinct (names_of fit_framework.score_plugins)
    unfolding fit_framework
    one_score_plugin = (refl, tt)

    -- For a pod with the model annotation, the prioritize request of that controller is answered
    -- with one entry for each node, in the order of the request: the number of the node's free
    -- devices of the model if the node is known and healthy, and else 0. The counts are below 2 ^ 63.
    pub controller_prioritize_reply :
        (nodes : List String)
        → ((n : String) → free_count S cache n model < i64_sign)
        → post_schedule_prioritize_handler P sc.fw cache
            (some (record { pod = some pod; node_names = some nodes }))
          ≡ ok (map (λ n. record { host = n; score = due_score cache model n }) nodes)
    controller_prioritize_reply nodes few =
        prioritize_reply P sc.fw cache pod nodes
          (rw (← built_framework parallelism built) one_score_plugin)
        ∙ ap ok (priorities_due nodes few)
