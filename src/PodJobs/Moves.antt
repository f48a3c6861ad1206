-- ===== src/PodJobs/Moves.antt =====
-- How many moves a goroutine has left.
use nvidia_gpu_scheduler.Prelude.{
  ℕ, zero, suc, ◌+◌, ◌-◌, ◌*◌, ◌≤◌, Bool, true, false, List, [], ◌∷◌, Option, none, some, String,
  lookup, length, arith,
}
use nvidia_gpu_scheduler.Api.{GpuPod}
use nvidia_gpu_scheduler.Reconcile.{Got, found, not_found, failed}
use nvidia_gpu_scheduler.PodReport.{PodResourcesDetail, to_gpu_pod}
use nvidia_gpu_scheduler.PodStore.{GpuPods, PodReporter, gpu_pod_uuid}
use nvidia_gpu_scheduler.PodJobs.{
  Thread, read_last, update_last, get_pod, create_pod, update_got, store_pod, forget_pod,
  delete_pod, ended, after_read, after_update, after_write, after_get, after_delete, move,
}

-- A bound on the moves that are left.
unfoldable pub moves_left : Thread → ℕ
moves_left (read_last times prd) = 5 * length times + 1
moves_left (update_last now times prd last) = 5 * length times + 5
moves_left (get_pod now times prd) = 5 * length times + 4
moves_left (create_pod now times prd) = 5 * length times + 3
moves_left (update_got now times prd p) = 5 * length times + 3
moves_left (store_pod prd p) = 1
moves_left (forget_pod tries name) = 2 * tries + 1
moves_left (delete_pod tries name) = 2 * tries + 2
moves_left (ended ok) = 0

module _ {W : Type 0} (api : GpuPods W) where
  left_after_read :
      (now : ℕ) (times : List ℕ) (prd : PodResourcesDetail) (o : Option GpuPod)
      → moves_left (after_read now times prd o) ≤ 5 * length times + 5
  unfolding moves_left after_read
  left_after_read now times prd none = omega arith
  left_after_read now times prd (some last) = omega arith

  left_after_update :
      (now : ℕ) (times : List ℕ) (prd : PodResourcesDetail) (s : PodReporter)
      (o : Option GpuPod × W)
      → moves_left (after_update now times prd s o).0 ≤ 5 * length times + 4
  unfolding moves_left after_update
  left_after_update now times prd s (none, w) = omega arith
  left_after_update now times prd s (some p, w) = omega arith

  left_after_write :
      (times : List ℕ) (prd : PodResourcesDetail) (s : PodReporter) (o : Option GpuPod × W)
      → moves_left (after_write times prd s o).0 ≤ 5 * length times + 1
  unfolding moves_left after_write
  left_after_write times prd s (none, w) = omega arith
  left_after_write times prd s (some p, w) = omega arith

  left_after_get :
      (now : ℕ) (times : List ℕ) (prd : PodResourcesDetail) (g : Got GpuPod)
      → moves_left (after_get now times prd g) ≤ 5 * length times + 3
  unfolding moves_left after_get
  left_after_get now times prd not_found = omega arith
  left_after_get now times prd (failed e) = omega arith
  left_after_get now times prd (found p) = omega arith

  left_after_delete :
      (tries : ℕ) (name : String) (s : PodReporter) (o : Bool × W)
      → moves_left (after_delete tries name s o).0 ≤ 2 * tries + 1
  unfolding moves_left after_delete
  left_after_delete tries name s (true, w) = omega arith
  left_after_delete tries name s (false, w) = omega arith

  -- A move uses up one of the moves that are left.
  pub moves_left-move :
      (t : Thread) (x : PodReporter × W) → moves_left (move api t x).0 ≤ moves_left t - 1
  unfolding move moves_left
  moves_left-move (read_last [] prd) x = omega arith
  moves_left-move (read_last (now ∷ times) prd) (s, w) =
      omega (arith, left_after_read now times prd (lookup (gpu_pod_uuid prd) s.gpu_pod_last))
  moves_left-move (update_last now times prd last) (s, w) = omega (
    arith,
    left_after_update now times prd s (api.update (to_gpu_pod now s.node_name (some last) prd) w),
  )
  moves_left-move (get_pod now times prd) (s, w) =
      omega (arith, left_after_get now times prd (api.get (gpu_pod_uuid prd) w))
  moves_left-move (create_pod now times prd) (s, w) =
      omega
        (arith, left_after_write times prd s (api.create (to_gpu_pod now s.node_name none prd) w))
  moves_left-move (update_got now times prd p) (s, w) =
      omega (
        arith,
        left_after_write times prd s (api.update (to_gpu_pod now s.node_name (some p) prd) w),
      )
  moves_left-move (store_pod prd p) (s, w) = omega arith
  moves_left-move (forget_pod zero name) x = omega arith
  moves_left-move (forget_pod (suc tries) name) (s, w) = omega arith
  moves_left-move (delete_pod tries name) (s, w) =
      omega (arith, left_after_delete tries name s (api.delete_pod name w))
  moves_left-move (ended ok) x = omega arith
