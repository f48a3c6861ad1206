-- ===== src/PodJobs/Alone.antt =====
-- A goroutine that runs without another in between.
use nvidia_gpu_scheduler.Prelude.{
  ℕ, zero, suc, ◌+◌, ◌*◌, ◌≤◌, ◌≡◌, refl, ap, ◌∙◌, Bool, true, false, List, [], ◌∷◌, Option, none,
  some, String, lookup, length, arith, if◌then◌else◌,
}
use nvidia_gpu_scheduler.Api.{GpuPod}
use nvidia_gpu_scheduler.Reconcile.{Got, found, not_found, failed}
use nvidia_gpu_scheduler.PodReport.{PodResourcesDetail, to_gpu_pod}
use nvidia_gpu_scheduler.PodStore.{
  GpuPods, PodReporter, gpu_pod_uuid, Done, remember, answer_get, get_and_update_gpu_pod,
  answer_update, ensure_from, ensure_gpu_pod, produce_pod_resource_crd, clean_gpu_pod,
  clean_pod_resource_crd,
}
use nvidia_gpu_scheduler.PodJobs.Moves.{moves_left, moves_left-move}
use nvidia_gpu_scheduler.PodJobs.{
  Thread, read_last, update_last, get_pod, create_pod, update_got, store_pod, forget_pod,
  delete_pod, ended, after_read, after_update, after_write, after_get, after_delete, move,
}

module _ {W : Type 0} (api : GpuPods W) where
  -- The tries that are left, after one.
  retry : List ℕ → PodResourcesDetail → Done api → Done api
  unfolding produce_pod_resource_crd
  retry times prd r =
      let rest = produce_pod_resource_crd api times prd r.0 in if r.1 then (r.0, true) else rest

  retry_clean : ℕ → String → Done api → Done api
  unfolding clean_pod_resource_crd
  retry_clean tries name r =
      let rest = clean_pod_resource_crd api tries name r.0 in if r.1 then (r.0, true) else rest

  deleted : PodReporter → Bool × W → Done api
  deleted s (ok, w) = ((s, w), ok)

  -- What producePodResourceCrd and cleanPodResourceCrd still do from where the goroutine stands.
  pub what_is_left : Thread → PodReporter × W → Done api
  unfolding retry retry_clean deleted produce_pod_resource_crd clean_pod_resource_crd answer_update
      get_and_update_gpu_pod remember to_gpu_pod
  what_is_left (read_last times prd) x = produce_pod_resource_crd api times prd x
  what_is_left (update_last now times prd last) (s, w) =
      retry times prd
        (answer_update api now prd s (api.update (to_gpu_pod now s.node_name (some last) prd) w))
  what_is_left (get_pod now times prd) x =
      retry times prd (get_and_update_gpu_pod api now (gpu_pod_uuid prd) prd x)
  what_is_left (create_pod now times prd) (s, w) =
      retry times prd
        (remember api (gpu_pod_uuid prd) s (api.create (to_gpu_pod now s.node_name none prd) w))
  what_is_left (update_got now times prd p) (s, w) =
      retry times prd
        (remember api (gpu_pod_uuid prd) s (api.update (to_gpu_pod now s.node_name (some p) prd) w))
  what_is_left (store_pod prd p) (s, w) = remember api (gpu_pod_uuid prd) s (some p, w)
  what_is_left (forget_pod tries name) x = clean_pod_resource_crd api tries name x
  what_is_left (delete_pod tries name) (s, w) =
      retry_clean tries name (deleted s (api.delete_pod name w))
  what_is_left (ended ok) x = (x, ok)

  read_left :
      (now : ℕ) (times : List ℕ) (prd : PodResourcesDetail) (s : PodReporter) (w : W)
      (o : Option GpuPod)
      → what_is_left (after_read now times prd o) (s, w)
        ≡ retry times prd (ensure_from api now prd s w o)
  unfolding what_is_left after_read ensure_from
  read_left now times prd s w none = refl
  read_left now times prd s w (some last) = refl

  update_left :
      (now : ℕ) (times : List ℕ) (prd : PodResourcesDetail) (s : PodReporter)
      (o : Option GpuPod × W)
      → let y = after_update now times prd s o in
        what_is_left y.0 y.1 ≡ retry times prd (answer_update api now prd s o)
  unfolding what_is_left after_update answer_update retry remember
  update_left now times prd s (none, w) = refl
  update_left now times prd s (some p, w) = refl

  write_left :
      (times : List ℕ) (prd : PodResourcesDetail) (s : PodReporter) (o : Option GpuPod × W)
      → let y = after_write times prd s o in
        what_is_left y.0 y.1 ≡ retry times prd (remember api (gpu_pod_uuid prd) s o)
  unfolding what_is_left after_write retry remember
  write_left times prd s (none, w) = refl
  write_left times prd s (some p, w) = refl

  get_left :
      (now : ℕ) (times : List ℕ) (prd : PodResourcesDetail) (s : PodReporter) (w : W)
      (g : Got GpuPod)
      → what_is_left (after_get now times prd g) (s, w)
        ≡ retry times prd (answer_get api now (gpu_pod_uuid prd) prd s w g)
  unfolding what_is_left after_get answer_get retry
  get_left now times prd s w not_found = refl
  get_left now times prd s w (failed e) = refl
  get_left now times prd s w (found p) = refl

  delete_left :
      (tries : ℕ) (name : String) (s : PodReporter) (o : Bool × W)
      → let y = after_delete tries name s o in
        what_is_left y.0 y.1 ≡ retry_clean tries name (deleted s o)
  unfolding what_is_left after_delete deleted retry_clean
  delete_left tries name s (true, w) = refl
  delete_left tries name s (false, w) = refl

  -- A move leaves it to the goroutine to do the same.
  pub what_is_left-move :
      (t : Thread) (x : PodReporter × W)
      → let y = move api t x in what_is_left y.0 y.1 ≡ what_is_left t x
  unfolding move what_is_left produce_pod_resource_crd ensure_gpu_pod get_and_update_gpu_pod
      remember clean_pod_resource_crd clean_gpu_pod retry retry_clean deleted
  what_is_left-move (read_last [] prd) x = refl
  what_is_left-move (read_last (now ∷ times) prd) (s, w) =
      read_left now times prd s w (lookup (gpu_pod_uuid prd) s.gpu_pod_last)
  what_is_left-move (update_last now times prd last) (s, w) =
      update_left now times prd s (api.update (to_gpu_pod now s.node_name (some last) prd) w)
  what_is_left-move (get_pod now times prd) (s, w) =
      get_left now times prd s w (api.get (gpu_pod_uuid prd) w)
  what_is_left-move (create_pod now times prd) (s, w) =
      write_left times prd s (api.create (to_gpu_pod now s.node_name none prd) w)
  what_is_left-move (update_got now times prd p) (s, w) =
      write_left times prd s (api.update (to_gpu_pod now s.node_name (some p) prd) w)
  what_is_left-move (store_pod prd p) (s, w) = refl
  what_is_left-move (forget_pod zero name) x = refl
  what_is_left-move (forget_pod (suc tries) name) (s, w) = refl
  what_is_left-move (delete_pod tries name) (s, w) =
      delete_left tries name s (api.delete_pod name w)
  what_is_left-move (ended ok) x = refl

  unfoldable pub run_alone : ℕ → Thread → PodReporter × W → Thread × (PodReporter × W)
  unfolding move
  run_alone zero t x = (t, x)
  run_alone (suc n) t x = let (u, y) = move api t x in run_alone n u y

  AsLeft : Thread → PodReporter × W → Thread × (PodReporter × W) → Type 0
  AsLeft t x y = y ≡ (ended (what_is_left t x).1, (what_is_left t x).0)

  none_left : (t : Thread) (x : PodReporter × W) → moves_left t ≤ 0 → AsLeft t x (t, x)
  unfolding AsLeft what_is_left moves_left
  none_left (read_last times prd) x h = absurd (omega arith)
  none_left (update_last now times prd last) x h = absurd (omega arith)
  none_left (get_pod now times prd) x h = absurd (omega arith)
  none_left (create_pod now times prd) x h = absurd (omega arith)
  none_left (update_got now times prd p) x h = absurd (omega arith)
  none_left (store_pod prd p) x h = absurd (omega arith)
  none_left (forget_pod tries name) x h = absurd (omega arith)
  none_left (delete_pod tries name) x h = absurd (omega arith)
  none_left (ended ok) x h = refl

  alone_ends :
      (n : ℕ) (t : Thread) (x : PodReporter × W) → moves_left t ≤ n → AsLeft t x (run_alone n t x)
  unfolding run_alone AsLeft
  alone_ends zero t x h = unfold AsLeft in none_left t x h
  alone_ends (suc n) t x h =
      let y = move api t x in
      alone_ends n y.0 y.1 (omega (arith, moves_left-move api t x))
      ∙ ap (λ (r : Done api). (ended r.1, r.0)) (what_is_left-move t x)

  -- A goroutine of producePodResourceCrd that is not disturbed has ended after five moves for each
  -- try and one more, and one of cleanPodResourceCrd after two moves for each try and one more, with
  -- the store, the api server and the error that the whole function gives, and no move after that
  -- changes anything.
  pub run_alone_lem :
      (n tries : ℕ) (times : List ℕ) (prd : PodResourcesDetail) (name : String)
      (x : PodReporter × W)
      → 5 * length times + 1 ≤ n
      → 2 * tries + 1 ≤ n
      → let made = produce_pod_resource_crd api times prd x in
        let cleaned = clean_pod_resource_crd api tries name x in
        (run_alone n (read_last times prd) x ≡ (ended made.1, made.0))
        × (run_alone n (forget_pod tries name) x ≡ (ended cleaned.1, cleaned.0))
  unfolding AsLeft what_is_left moves_left
  run_alone_lem n tries times prd name x h k =
      (alone_ends n (read_last times prd) x h, alone_ends n (forget_pod tries name) x k)
