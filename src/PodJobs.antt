-- ===== src/PodJobs.antt =====
-- The goroutines that keep the GpuPods, step by step: producePodResourceCrd and cleanPodResourceCrd of
-- pkg/gpuserver-ds/controller/controller.go, with ensureGpuPod, getAndUpdateGpuPod and cleanGpuPod. A
-- move is one section under gpuPodLock or one call to the api server; between two moves any other
-- goroutine may move.
pub mod Moves
pub mod Alone
pub mod Pool
pub mod Late
use nvidia_gpu_scheduler.Prelude.{
  ℕ, zero, suc, Bool, true, false, List, [], ◌∷◌, map, Option, none, some, String, lookup, insert,
  delete, if◌then◌else◌,
}
use nvidia_gpu_scheduler.Api.{GpuPod}
use nvidia_gpu_scheduler.Reconcile.{Got, found, not_found, failed}
use nvidia_gpu_scheduler.PodReport.{PodResourcesDetail, to_gpu_pod, Job, produce, clean}
use nvidia_gpu_scheduler.PodStore.{GpuPods, PodReporter, gpu_pod_uuid}

-- Where a goroutine stands. The times are those of the tries that are left, the numbers how many are
-- left.
pub data Thread : Type 0 where
  read_last : List ℕ → PodResourcesDetail → Thread
  update_last : ℕ → List ℕ → PodResourcesDetail → GpuPod → Thread
  get_pod : ℕ → List ℕ → PodResourcesDetail → Thread
  create_pod : ℕ → List ℕ → PodResourcesDetail → Thread
  update_got : ℕ → List ℕ → PodResourcesDetail → GpuPod → Thread
  store_pod : PodResourcesDetail → GpuPod → Thread
  forget_pod : ℕ → String → Thread
  delete_pod : ℕ → String → Thread
  -- whether without an error
  ended : Bool → Thread

-- The goroutine of a job of a round.
abbrev pub start_job : List ℕ → ℕ → Job → Thread
start_job times tries (produce prd) = read_last times prd
start_job times tries (clean name) = forget_pod tries name

-- if gpuPodLast == nil
pub after_read : ℕ → List ℕ → PodResourcesDetail → Option GpuPod → Thread
after_read now times prd none = get_pod now times prd
after_read now times prd (some last) = update_last now times prd last

pub after_get : ℕ → List ℕ → PodResourcesDetail → Got GpuPod → Thread
after_get now times prd not_found = create_pod now times prd
after_get now times prd (failed e) = read_last times prd
after_get now times prd (found p) = update_got now times prd p

module _ {W : Type 0} where
  -- An update from what is kept, which is followed by a get if it fails.
  after_update :
      ℕ → List ℕ → PodResourcesDetail → PodReporter → Option GpuPod × W → Thread × (PodReporter × W)
  after_update now times prd s (none, w) = (get_pod now times prd, (s, w))
  after_update now times prd s (some p, w) = (store_pod prd p, (s, w))

  -- A write after a get, whose failure ends the try.
  after_write :
      List ℕ → PodResourcesDetail → PodReporter → Option GpuPod × W → Thread × (PodReporter × W)
  after_write times prd s (none, w) = (read_last times prd, (s, w))
  after_write times prd s (some p, w) = (store_pod prd p, (s, w))

  after_delete : ℕ → String → PodReporter → Bool × W → Thread × (PodReporter × W)
  after_delete tries name s (true, w) = (ended true, (s, w))
  after_delete tries name s (false, w) = (forget_pod tries name, (s, w))

module _ {W : Type 0} (api : GpuPods W) where
  unfoldable pub move : Thread → PodReporter × W → Thread × (PodReporter × W)
  unfolding after_read after_update after_write after_get after_delete lookup insert delete
      to_gpu_pod
  move (read_last [] prd) x = (ended false, x)
  move (read_last (now ∷ times) prd) (s, w) =
      (after_read now times prd (lookup (gpu_pod_uuid prd) s.gpu_pod_last), (s, w))
  move (update_last now times prd last) (s, w) =
      after_update now times prd s (api.update (to_gpu_pod now s.node_name (some last) prd) w)
  move (get_pod now times prd) (s, w) =
      (after_get now times prd (api.get (gpu_pod_uuid prd) w), (s, w))
  move (create_pod now times prd) (s, w) =
      after_write times prd s (api.create (to_gpu_pod now s.node_name none prd) w)
  move (update_got now times prd p) (s, w) =
      after_write times prd s (api.update (to_gpu_pod now s.node_name (some p) prd) w)
  move (store_pod prd p) (s, w) =
      (ended true, (record s { gpu_pod_last = insert (gpu_pod_uuid prd) p s.gpu_pod_last }, w))
  move (forget_pod zero name) x = (ended false, x)
  move (forget_pod (suc tries) name) (s, w) =
      (delete_pod tries name, (record s { gpu_pod_last = delete name s.gpu_pod_last }, w))
  move (delete_pod tries name) (s, w) = after_delete tries name s (api.delete_pod name w)
  move (ended ok) x = (ended ok, x)

  -- The goroutine at a place of the list moves.
  unfoldable pub move_at : ℕ → List Thread → PodReporter × W → List Thread × (PodReporter × W)
  unfolding move
  move_at i [] x = ([], x)
  move_at zero (t ∷ ts) x = let (u, y) = move t x in (u ∷ ts, y)
  move_at (suc i) (t ∷ ts) x = let (us, y) = move_at i ts x in (t ∷ us, y)

  -- The goroutines move in this order.
  unfoldable pub run_jobs :
      List ℕ → List Thread × (PodReporter × W) → List Thread × (PodReporter × W)
  unfolding move_at
  run_jobs [] x = x
  run_jobs (i ∷ is) (ts, x) = run_jobs is (move_at i ts x)
