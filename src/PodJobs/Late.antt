-- ===== src/PodJobs/Late.antt =====
-- A production and a clean-up of the same pod that run at the same time.
use nvidia_gpu_scheduler.Prelude.{
  ℕ, zero, suc, ◌+◌, ◌*◌, ◌≡◌, refl, ap, ◌∙◌, Bool, true, List, [], ◌∷◌, ◌++◌, none, some, insert,
  length, replicate, arith,
}
use nvidia_gpu_scheduler.Api.{GpuPod}
use nvidia_gpu_scheduler.Reconcile.{not_found}
use nvidia_gpu_scheduler.PodReport.{PodResourcesDetail, to_gpu_pod}
use nvidia_gpu_scheduler.PodStore.{GpuPods, PodReporter, gpu_pod_uuid, clean_pod_resource_crd}
use nvidia_gpu_scheduler.PodJobs.Alone.{run_alone, run_alone_lem}
use nvidia_gpu_scheduler.PodJobs.{
  Thread, get_pod, create_pod, forget_pod, ended, after_write, after_get, move, move_at, run_jobs,
}

module _ {W : Type 0} (api : GpuPods W) where
  run_jobs-append :
      (is js : List ℕ) (y : List Thread × (PodReporter × W))
      → run_jobs api (is ++ js) y ≡ run_jobs api js (run_jobs api is y)
  unfolding run_jobs
  run_jobs-append [] js y = refl
  run_jobs-append (i ∷ is) js (ts, x) = run_jobs-append is js (move_at api i ts x)

  -- Only the second of two goroutines moves.
  run_second :
      (k : ℕ) (t u : Thread) (x : PodReporter × W)
      → let y = run_alone api k u x in
        run_jobs api (replicate k 1) (t ∷ u ∷ [], x) ≡ (t ∷ y.0 ∷ [], y.1)
  unfolding run_jobs move_at run_alone
  run_second zero t u x = refl
  run_second (suc k) t u x = let y = move api u x in run_second k t y.0 y.1

  module _ (now : ℕ) (times : List ℕ) (prd : PodResourcesDetail) where
    create_then_store :
        (u : Thread) (s : PodReporter) (w v : W) (p : GpuPod)
        → api.create (to_gpu_pod now s.node_name none prd) w ≡ (some p, v)
        → run_jobs api (0 ∷ 0 ∷ []) (create_pod now times prd ∷ u ∷ [], (s, w)) ≡ (
          ended true ∷ u ∷ [],
          (record s { gpu_pod_last = insert (gpu_pod_uuid prd) p s.gpu_pod_last }, v),
        )
    unfolding run_jobs move_at move after_write
    create_then_store u s w v p e = rw e refl

    ask_first :
        (u : Thread) (s : PodReporter) (w : W)
        → api.get (gpu_pod_uuid prd) w ≡ not_found
        → run_jobs api (0 ∷ []) (get_pod now times prd ∷ u ∷ [], (s, w))
          ≡ (create_pod now times prd ∷ u ∷ [], (s, w))
    unfolding run_jobs move_at move after_get
    ask_first u s w e = rw e refl

    -- A production that has been answered that the GpuPod does not exist and a clean-up of the same
    -- GpuPod can interleave so that the clean-up runs to its end, whatever it comes to, and the
    -- production then creates the GpuPod, where the server takes that creation: both have ended, and
    -- the GpuPod of the removed pod is what the server answered last and what is kept under its name.
    pub late_creation :
        (tries : ℕ) (s s' : PodReporter) (w w' v : W) (ok : Bool) (p : GpuPod)
        → api.get (gpu_pod_uuid prd) w ≡ not_found
        → clean_pod_resource_crd api tries (gpu_pod_uuid prd) (s, w) ≡ ((s', w'), ok)
        → api.create (to_gpu_pod now s'.node_name none prd) w' ≡ (some p, v)
        → (order : List ℕ) × (run_jobs api order
              (get_pod now times prd ∷ forget_pod tries (gpu_pod_uuid prd) ∷ [], (s, w))
            ≡ (
              ended true ∷ ended ok ∷ [],
              (record s' { gpu_pod_last = insert (gpu_pod_uuid prd) p s'.gpu_pod_last }, v),
            ))
    late_creation tries s s' w w' v ok p missing cleaned took =
        let uuid = gpu_pod_uuid prd in
        let k = 5 * length times + 2 * tries + 1 in
        let alone =
          (run_alone_lem api k tries times prd uuid (s, w) (omega arith) (omega arith)).1 in
        (
          0 ∷ replicate k 1 ++ 0 ∷ 0 ∷ [],
          run_jobs-append (0 ∷ []) (replicate k 1 ++ 0 ∷ 0 ∷ []) _
              ∙ ap (run_jobs api (replicate k 1 ++ 0 ∷ 0 ∷ []))
                  (ask_first (forget_pod tries uuid) s w missing)
              ∙ run_jobs-append (replicate k 1) (0 ∷ 0 ∷ []) _
              ∙ ap (run_jobs api (0 ∷ 0 ∷ [])) (
                  run_second k (create_pod now times prd) (forget_pod tries uuid) (s, w)
                  ∙ ap
                      (λ (y : Thread × (PodReporter × W)).
                        (create_pod now times prd ∷ y.0 ∷ [], y.1))
                      (alone ∙ ap (λ (r : (PodReporter × W) × Bool). (ended r.1, r.0)) cleaned))
              ∙ create_then_store (ended ok) s' w' v p took,
        )
