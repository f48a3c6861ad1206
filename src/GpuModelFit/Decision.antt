-- ===== src/GpuModelFit/Decision.antt =====
-- When GpuModelFit lets a node through, and how its score goes with that.
use nvidia_gpu_scheduler.Prelude.{
  ℕ, ◌≡◌, refl, ◌↔◌, ◌≤◌, ◌<◌, inl, inr, true, false, none, some, String, Bool-cases, ◌==◌, ltb,
  ◌&&◌, if◌then◌else◌, arith,
}
use nvidia_gpu_scheduler.Sets.{StringSet}
use nvidia_gpu_scheduler.Words.{gt_i64, gt_i64-ltb, i64_sign}
use nvidia_gpu_scheduler.Api.{Pod}
use nvidia_gpu_scheduler.PodSpec.{get_pod_request_gpu_num}
use nvidia_gpu_scheduler.ModelName.{normalize_model_name}
use nvidia_gpu_scheduler.ModelName.Laws.{normalize_model_name_idem}
use nvidia_gpu_scheduler.NodeCache.{GpuNodeCache, check_node_health, get_free_device_by_model}
use nvidia_gpu_scheduler.Scheduler.{
  Reason, node_not_exist, node_not_healthy, too_few, model_not_exist, accepted,
}
use nvidia_gpu_scheduler.GpuModelFit.{
  requested_model, filter_devices, filter_model, filter_request, filter, score_devices, score_model,
  score_request, score,
}

module _ (S : StringSet) where
  -- How many devices of the model are free on the node.
  abbrev pub free_count : GpuNodeCache → String → String → ℕ
  free_count cache node model =
      S.size (get_free_device_by_model S node (normalize_model_name model) cache)

  -- The pod's demand can be met on the node: the node is known and healthy, it has a free device of
  -- the model, and not fewer than the pod asks for.
  pub record Fits (cache : GpuNodeCache) (pod : Pod) (node model : String) : Type 0 where
    pub exist : (check_node_health node cache).0 ≡ true
    pub health : (check_node_health node cache).1 ≡ true
    pub some_free : 0 < free_count cache node model
    pub enough : get_pod_request_gpu_num pod ≤ free_count cache node model

  module _ (cache : GpuNodeCache) (pod : Pod) (node : String) where
    filter_by_request :
        filter S cache pod node ≡ filter_request S cache pod node (requested_model pod)
    unfolding filter
    filter_by_request = refl

    score_by_request : score S cache pod node ≡ score_request S cache node (requested_model pod)
    unfolding score
    score_by_request = refl

    filter_asked :
        (model : String)
        → requested_model pod ≡ some model
        → filter S cache pod node ≡ filter_model S cache pod node (normalize_model_name model)
    unfolding filter_request
    filter_asked model asked = rw (filter_by_request, asked)

    score_asked :
        (model : String)
        → requested_model pod ≡ some model
        → score S cache pod node ≡ score_model S cache node (normalize_model_name model)
    unfolding score_request
    score_asked model asked = rw (score_by_request, asked, normalize_model_name_idem model)

    -- A pod with the annotation is let through by Filter exactly where its demand can be met, if the
    -- number of gpus that it requests and the number of free devices of the model are below 2 ^ 63.
    pub filter-accepted_iff :
        (model : String)
        → requested_model pod ≡ some model
        → get_pod_request_gpu_num pod < i64_sign
        → free_count cache node model < i64_sign
        → ((filter S cache pod node).is_accepted ≡ true) ↔ Fits cache pod node model
    unfolding filter_model filter_devices
    filter-accepted_iff model asked small few =
        rw (filter_asked model asked) (λ h. ground (arith, same), λ f. ground (arith, same))
      where
        same :
            gt_i64 (get_pod_request_gpu_num pod) (free_count cache node model)
            ≡ ltb (free_count cache node model) (get_pod_request_gpu_num pod)
        same = gt_i64-ltb _ _ small few

    -- Where Filter lets a pod with the annotation through, Score accepts too, and the score is the
    -- number of free devices of the model, which is positive.
    pub score_of_filter :
        (model : String)
        → requested_model pod ≡ some model
        → (filter S cache pod node).is_accepted ≡ true
        → (score S cache pod node ≡ (free_count cache node model, accepted))
          × (0 < free_count cache node model)
    unfolding filter_model filter_devices score_model score_devices
    score_of_filter model asked h =
        let k : (filter_model S cache pod node (normalize_model_name model)).is_accepted ≡ true =
          rw (filter_asked model asked) at h in
        rw (score_asked model asked) (ground arith, ground arith)

    -- The score as a number: that of the free devices on a node that is known and healthy, else 0.
    pub score_value :
        (model : String)
        → requested_model pod ≡ some model
        → (score S cache pod node).0 ≡ (
            if (check_node_health node cache).0 && (check_node_health node cache).1
            then free_count cache node model
            else 0)
    unfolding score_model score_devices
    score_value model asked = rw (score_asked model asked) (ground arith)

    -- Without the annotation Filter lets every node through and Score gives 0.
    pub unannotated_accepted :
        requested_model pod ≡ none
        → (filter S cache pod node ≡ accepted) × (score S cache pod node ≡ (0, accepted))
    unfolding filter_request score_request
    unannotated_accepted free = (rw (filter_by_request, free), rw (score_by_request, free))

    -- Why Filter refuses a node: the first of the conditions that fails, in this order.
    pub data Refusal (model : String) : Reason → Type 0 where
      unknown : (check_node_health node cache).0 ≡ false → Refusal model (node_not_exist node)
      unhealthy :
          (check_node_health node cache).0 ≡ true
          → (check_node_health node cache).1 ≡ false
          → Refusal model (node_not_healthy node)
      no_device :
          (check_node_health node cache).0 ≡ true
          → (check_node_health node cache).1 ≡ true
          → free_count cache node model ≡ 0
          → Refusal model (model_not_exist node (normalize_model_name model))
      not_enough :
          (check_node_health node cache).0 ≡ true
          → (check_node_health node cache).1 ≡ true
          → 0 < free_count cache node model
          → gt_i64 (get_pod_request_gpu_num pod) (free_count cache node model) ≡ true
          → Refusal model (too_few node (get_pod_request_gpu_num pod) (free_count cache node model))

    -- A refusal by Filter carries a reason, which names the first condition that fails: the node is
    -- unknown, then not healthy, then without a free device of the model, then with too few.
    pub filter-Refusal :
        (model : String)
        → requested_model pod ≡ some model
        → (filter S cache pod node).is_accepted ≡ false
        → (r : Reason) × ((filter S cache pod node).err ≡ some r) × Refusal model r
    unfolding filter_model filter_devices
    filter-Refusal model asked h =
        let k : (filter_model S cache pod node (normalize_model_name model)).is_accepted ≡ false =
          rw (filter_asked model asked) at h in
        rw (filter_asked model asked) (elim (Bool-cases (check_node_health node cache).0) [
          | inr p ↦ (node_not_exist node, ground arith, unknown p)
          | inl p ↦ elim (Bool-cases (check_node_health node cache).1) [
            | inr q ↦ (node_not_healthy node, ground arith, unhealthy p q)
            | inl q ↦ elim (Bool-cases (free_count cache node model == 0)) [
              | inl e ↦ (
                model_not_exist node (normalize_model_name model),
                ground arith,
                no_device p q (ground arith),
              )
              | inr e ↦ (
                too_few node (get_pod_request_gpu_num pod) (free_count cache node model),
                ground arith,
                not_enough p q (ground arith) (ground arith),
              )
            ]
          ]
        ])
