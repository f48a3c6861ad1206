-- ===== src/PodStore.antt =====
-- How gpuserver-ds keeps the GpuPods of its node in the api server: ensureGpuPod,
-- getAndUpdateGpuPod, producePodResourceCrd, cleanGpuPod, cleanPodResourceCrd and
-- cleanPodResourceCrdInit of pkg/gpuserver-ds/controller/controller.go. The api server is a parameter
-- on a state of its own. retry.OnError makes the tries that it is given: the time of each for a
-- production, their number for a clean-up.
pub mod Tries
pub mod Stored
pub mod Cleaning
use nvidia_gpu_scheduler.Prelude.{
  ℕ, zero, suc, Bool, true, false, List, [], ◌∷◌, Option, none, some, String, Map, lookup, insert,
  delete, if◌then◌else◌,
}
use Prim.Native.String.{◌++◌ as concat}
use nvidia_gpu_scheduler.Api.{GpuPod}
use nvidia_gpu_scheduler.ModelName.{metadata_to_name}
use nvidia_gpu_scheduler.Reconcile.{Got, found, not_found, failed}
use nvidia_gpu_scheduler.Report.{PodResources}
use nvidia_gpu_scheduler.PodReport.{PodResourcesDetail, to_gpu_pod, exist}

-- The api server's GpuPods: an update or a creation answers with the stored object, or an error, a
-- deletion with whether it succeeded, and a listing of the node's pods with them, or an error.
pub record GpuPods (W : Type 0) : Type 0 where
  pub get : String → W → Got GpuPod
  pub update : GpuPod → W → Option GpuPod × W
  pub create : GpuPod → W → Option GpuPod × W
  pub delete_pod : String → W → Bool × W
  pub list : W → Option (List GpuPod)

-- The fields of ServerDSController that are used.
pub record PodReporter : Type 0 where
  pub node_name : String
  pub gpu_pod_last : Map GpuPod

abbrev pub gpu_pod_uuid : PodResourcesDetail → String
gpu_pod_uuid prd = metadata_to_name prd.pod_resources.namespace prd.pod_resources.name

module _ {W : Type 0} (api : GpuPods W) where
  -- The new state, and whether there is no error.
  abbrev pub Done : Type 0
  Done = (PodReporter × W) × Bool

  unfoldable pub remember : String → PodReporter → Option GpuPod × W → Done
  unfolding insert
  remember uuid s (none, w) = ((s, w), false)
  remember uuid s (some p, w) =
      ((record s { gpu_pod_last = insert uuid p s.gpu_pod_last }, w), true)

  unfoldable pub answer_get : ℕ → String → PodResourcesDetail → PodReporter → W → Got GpuPod → Done
  unfolding remember to_gpu_pod
  answer_get now uuid prd s w not_found =
      remember uuid s (api.create (to_gpu_pod now s.node_name none prd) w)
  answer_get now uuid prd s w (failed e) = ((s, w), false)
  answer_get now uuid prd s w (found p) =
      remember uuid s (api.update (to_gpu_pod now s.node_name (some p) prd) w)

  unfoldable pub get_and_update_gpu_pod : ℕ → String → PodResourcesDetail → PodReporter × W → Done
  unfolding answer_get metadata_to_name
  get_and_update_gpu_pod now uuid prd (s, w) =
      answer_get now uuid prd s w (api.get (gpu_pod_uuid prd) w)

  unfoldable pub answer_update : ℕ → PodResourcesDetail → PodReporter → Option GpuPod × W → Done
  unfolding get_and_update_gpu_pod remember metadata_to_name
  answer_update now prd s (none, w) = get_and_update_gpu_pod now (gpu_pod_uuid prd) prd (s, w)
  answer_update now prd s (some p, w) = remember (gpu_pod_uuid prd) s (some p, w)

  unfoldable pub ensure_from : ℕ → PodResourcesDetail → PodReporter → W → Option GpuPod → Done
  unfolding get_and_update_gpu_pod answer_update to_gpu_pod metadata_to_name
  ensure_from now prd s w none = get_and_update_gpu_pod now (gpu_pod_uuid prd) prd (s, w)
  ensure_from now prd s w (some last) =
      answer_update now prd s (api.update (to_gpu_pod now s.node_name (some last) prd) w)

  unfoldable pub ensure_gpu_pod : ℕ → PodResourcesDetail → PodReporter × W → Done
  unfolding ensure_from lookup metadata_to_name
  ensure_gpu_pod now prd (s, w) = ensure_from now prd s w (lookup (gpu_pod_uuid prd) s.gpu_pod_last)

  unfoldable pub produce_pod_resource_crd : List ℕ → PodResourcesDetail → PodReporter × W → Done
  unfolding ensure_gpu_pod
  produce_pod_resource_crd [] prd x = (x, false)
  produce_pod_resource_crd (now ∷ times) prd x =
      let r = ensure_gpu_pod now prd x in
      let rest = produce_pod_resource_crd times prd r.0 in if r.1 then (r.0, true) else rest

  -- The entry goes before the call, whatever the call answers.
  unfoldable pub clean_gpu_pod : String → PodReporter × W → Done
  unfolding delete
  clean_gpu_pod name_gpu_pod (s, w) =
      let (ok, w') = api.delete_pod name_gpu_pod w in
      ((record s { gpu_pod_last = delete name_gpu_pod s.gpu_pod_last }, w'), ok)

  unfoldable pub clean_pod_resource_crd : ℕ → String → PodReporter × W → Done
  unfolding clean_gpu_pod
  clean_pod_resource_crd zero name_gpu_pod x = (x, false)
  clean_pod_resource_crd (suc tries) name_gpu_pod x =
      let r = clean_gpu_pod name_gpu_pod x in
      let rest = clean_pod_resource_crd tries name_gpu_pod r.0 in if r.1 then (r.0, true) else rest

  -- The key of a GpuPod in podresourcesLast.
  abbrev pub pod_key : GpuPod → String
  pod_key gp = concat gp.spec.namespace (concat "/" gp.spec.name)

  unfoldable pub clean_listed :
      ℕ → Map PodResources → List GpuPod → PodReporter × W → PodReporter × W
  unfolding clean_pod_resource_crd lookup
  clean_listed tries podresources_last [] x = x
  clean_listed tries podresources_last (gp ∷ items) x =
      let cleaned = (clean_pod_resource_crd tries gp.name x).0 in
      clean_listed tries podresources_last items
        (if exist (lookup (pod_key gp) podresources_last) then x else cleaned)

  unfoldable pub clean_answer :
      ℕ → Map PodResources → Option (List GpuPod) → PodReporter × W → PodReporter × W
  unfolding clean_listed
  clean_answer tries podresources_last none x = x
  clean_answer tries podresources_last (some items) x = clean_listed tries podresources_last items x

  unfoldable pub clean_pod_resource_crd_init :
      ℕ → Map PodResources → PodReporter × W → PodReporter × W
  unfolding clean_answer
  clean_pod_resource_crd_init tries podresources_last (s, w) =
      clean_answer tries podresources_last (api.list w) (s, w)
