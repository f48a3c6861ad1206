-- ===== src/PodStore/Tries.antt =====
-- What a try of ensureGpuPod comes to, also after the GpuPod has been deleted.
use nvidia_gpu_scheduler.Prelude.{
  ℕ, ◌≡◌, refl, ap, ◌∙◌, Bool, true, false, Option, none, some, String, insert, lookup,
}
use nvidia_gpu_scheduler.Api.{GpuPod}
use nvidia_gpu_scheduler.Reconcile.{Got, found, not_found, failed}
use nvidia_gpu_scheduler.PodReport.{PodResourcesDetail, to_gpu_pod}
use nvidia_gpu_scheduler.PodStore.{
  GpuPods, PodReporter, gpu_pod_uuid, remember, answer_get, get_and_update_gpu_pod, answer_update,
  ensure_from, ensure_gpu_pod,
}

module _ {W : Type 0} (api : GpuPods W) (prd : PodResourcesDetail) where
  -- The server stored an object, which is kept under the pod's name, or nothing was stored, and
  -- nothing is kept.
  pub data PodOutcome (s : PodReporter) (r : (PodReporter × W) × Bool) : Type 0 where
    stored :
        (p : GpuPod) (w : W)
        → r ≡ ((record s { gpu_pod_last = insert (gpu_pod_uuid prd) p s.gpu_pod_last }, w), true)
        → PodOutcome s r
    not_stored : (w : W) → r ≡ ((s, w), false) → PodOutcome s r

  remember_outcome :
      (s : PodReporter) (x : Option GpuPod × W) → PodOutcome s (remember api (gpu_pod_uuid prd) s x)
  unfolding remember
  remember_outcome s (none, w) = not_stored w refl
  remember_outcome s (some p, w) = stored p w refl

  answer_get_outcome :
      (now : ℕ) (s : PodReporter) (w : W) (g : Got GpuPod)
      → PodOutcome s (answer_get api now (gpu_pod_uuid prd) prd s w g)
  unfolding answer_get
  answer_get_outcome now s w not_found = remember_outcome s _
  answer_get_outcome now s w (failed e) = not_stored w refl
  answer_get_outcome now s w (found n) = remember_outcome s _

  get_outcome :
      (now : ℕ) (s : PodReporter) (w : W)
      → PodOutcome s (get_and_update_gpu_pod api now (gpu_pod_uuid prd) prd (s, w))
  unfolding get_and_update_gpu_pod
  get_outcome now s w = answer_get_outcome now s w _

  answer_update_outcome :
      (now : ℕ) (s : PodReporter) (x : Option GpuPod × W)
      → PodOutcome s (answer_update api now prd s x)
  unfolding answer_update
  answer_update_outcome now s (none, w) = get_outcome now s w
  answer_update_outcome now s (some p, w) = remember_outcome s (some p, w)

  ensure_from_outcome :
      (now : ℕ) (s : PodReporter) (w : W) (o : Option GpuPod)
      → PodOutcome s (ensure_from api now prd s w o)
  unfolding ensure_from
  ensure_from_outcome now s w none = get_outcome now s w
  ensure_from_outcome now s w (some last) = answer_update_outcome now s _

  -- ensureGpuPod returns no error exactly where the server stored the pod's report, by an update or
  -- by a creation; then what the server answered is kept under the pod's name, and else nothing that
  -- is kept changes.
  pub ensure_gpu_pod_outcome :
      (now : ℕ) (s : PodReporter) (w : W) → PodOutcome s (ensure_gpu_pod api now prd (s, w))
  unfolding ensure_gpu_pod
  ensure_gpu_pod_outcome now s w = ensure_from_outcome now s w _

  new_report_unversioned :
      (now : ℕ) (node_name : String) → (to_gpu_pod now node_name none prd).resource_version ≡ ""
  unfolding to_gpu_pod
  new_report_unversioned now node_name = refl

  -- A GpuPod that was deleted is created again at the next try, from the pod alone, whatever is kept
  -- of it: the server refuses the update, has no such object, and takes a creation without a
  -- resource version.
  pub created_again :
      (now : ℕ) (s : PodReporter) (w : W) (last p : GpuPod) (w' : W)
      → lookup (gpu_pod_uuid prd) s.gpu_pod_last ≡ some last
      → ((q : GpuPod) → api.update q w ≡ (none, w))
      → api.get (gpu_pod_uuid prd) w ≡ not_found
      → ((q : GpuPod) → q.resource_version ≡ "" → api.create q w ≡ (some p, w'))
      → ensure_gpu_pod api now prd (s, w)
        ≡ ((record s { gpu_pod_last = insert (gpu_pod_uuid prd) p s.gpu_pod_last }, w'), true)
  unfolding ensure_gpu_pod ensure_from answer_update get_and_update_gpu_pod answer_get remember
  created_again now s w last p w' kept no_update gone takes =
      ap (ensure_from api now prd s w) kept
      ∙ ap (answer_update api now prd s) (no_update (to_gpu_pod now s.node_name (some last) prd))
      ∙ ap (answer_get api now (gpu_pod_uuid prd) prd s w) gone
      ∙ ap (remember api (gpu_pod_uuid prd) s)
          (takes (to_gpu_pod now s.node_name none prd) (new_report_unversioned now s.node_name))
