-- ===== src/PodJobs/Pool.antt =====
-- Goroutines that run at the same time, in any order of their moves.
use nvidia_gpu_scheduler.Prelude.{
  ℕ, zero, suc, ◌+◌, ◌≤◌, ◌<◌, ◌≡◌, refl, ◌∙◌, Bool, true, false, List, [], ◌∷◌, Option, none, some,
  String, str_eq, lookup, lookup-insert, lookup-delete, length, arith,
}
use nvidia_gpu_scheduler.Api.{GpuPod}
use nvidia_gpu_scheduler.Reconcile.{Got, found, not_found, failed}
use nvidia_gpu_scheduler.PodReport.{PodResourcesDetail}
use nvidia_gpu_scheduler.PodStore.{GpuPods, PodReporter, gpu_pod_uuid}
use nvidia_gpu_scheduler.PodJobs.Moves.{moves_left, moves_left-move}
use nvidia_gpu_scheduler.PodJobs.{
  Thread, read_last, update_last, get_pod, create_pod, update_got, store_pod, forget_pod,
  delete_pod, ended, after_read, after_update, after_write, after_get, after_delete, move, move_at,
  run_jobs,
}

-- The moves that the goroutines have left.
unfoldable pub all_left : List Thread → ℕ
unfolding moves_left
all_left [] = 0
all_left (t ∷ ts) = moves_left t + all_left ts

-- The goroutine at this place has not ended.
unfoldable pub IsBusy : ℕ → List Thread → Type 0
unfolding moves_left
IsBusy i [] = ⊥
IsBusy zero (t ∷ ts) = 0 < moves_left t
IsBusy (suc i) (t ∷ ts) = IsBusy i ts

-- The goroutine keeps the GpuPod of this name.
is_for : String → Thread → Bool
is_for k (read_last times prd) = str_eq (gpu_pod_uuid prd) k
is_for k (update_last now times prd last) = str_eq (gpu_pod_uuid prd) k
is_for k (get_pod now times prd) = str_eq (gpu_pod_uuid prd) k
is_for k (create_pod now times prd) = str_eq (gpu_pod_uuid prd) k
is_for k (update_got now times prd p) = str_eq (gpu_pod_uuid prd) k
is_for k (store_pod prd p) = str_eq (gpu_pod_uuid prd) k
is_for k (forget_pod tries name) = str_eq name k
is_for k (delete_pod tries name) = str_eq name k
is_for k (ended ok) = false

-- None of the goroutines keeps the GpuPod of this name.
unfoldable pub NoneFor : String → List Thread → Type 0
unfolding is_for
NoneFor k [] = Unit
NoneFor k (t ∷ ts) = (is_for k t ≡ false) × NoneFor k ts

module _ {W : Type 0} (api : GpuPods W) where
  -- Every move of the order is one of a goroutine that has not ended.
  unfoldable pub AllBusy : List ℕ → List Thread × (PodReporter × W) → Type 0
  unfolding IsBusy move_at
  AllBusy [] y = Unit
  AllBusy (i ∷ is) (ts, x) = IsBusy i ts × AllBusy is (move_at api i ts x)

  move_at-left :
      (i : ℕ) (ts : List Thread) (x : PodReporter × W)
      → IsBusy i ts
      → all_left (move_at api i ts x).0 < all_left ts
  unfolding move_at all_left IsBusy
  move_at-left i [] x h = absurd h
  move_at-left zero (t ∷ ts) x h = omega (arith, moves_left-move api t x)
  move_at-left (suc i) (t ∷ ts) x h = omega (arith, move_at-left i ts x h)

  -- However goroutines of producePodResourceCrd and cleanPodResourceCrd interleave and whatever the
  -- api server answers, they come to their end: an order in which every move is one of a goroutine
  -- that has not ended has at most as many moves as the goroutines have left at its beginning, less
  -- those that they have left at its end, which for a production are at most five for each try that is
  -- left and five more, and for a clean-up two for each and two more.
  pub busy_bound :
      (is : List ℕ) (ts : List Thread) (x : PodReporter × W)
      → AllBusy is (ts, x)
      → length is + all_left (run_jobs api is (ts, x)).0 ≤ all_left ts
  unfolding AllBusy run_jobs
  busy_bound [] ts x h = omega arith
  busy_bound (i ∷ is) ts x (here, later) =
      let y = move_at api i ts x in
      omega (arith, move_at-left i ts x here, busy_bound is y.0 y.1 later)

  -- What a move does to the entry and to the place of a goroutine that keeps another GpuPod.
  abbrev Apart : String → PodReporter × W → Thread × (PodReporter × W) → Type 0
  Apart k x y = (lookup k y.1.0.gpu_pod_last ≡ lookup k x.0.gpu_pod_last) × (is_for k y.0 ≡ false)

  update-Apart :
      (k : String) (now : ℕ) (times : List ℕ) (prd : PodResourcesDetail) (s : PodReporter) (w : W)
      (o : Option GpuPod × W)
      → str_eq (gpu_pod_uuid prd) k ≡ false
      → Apart k (s, w) (after_update now times prd s o)
  unfolding after_update is_for
  update-Apart k now times prd s w (none, v) h = (refl, h)
  update-Apart k now times prd s w (some p, v) h = (refl, h)

  write-Apart :
      (k : String) (times : List ℕ) (prd : PodResourcesDetail) (s : PodReporter) (w : W)
      (o : Option GpuPod × W)
      → str_eq (gpu_pod_uuid prd) k ≡ false
      → Apart k (s, w) (after_write times prd s o)
  unfolding after_write is_for
  write-Apart k times prd s w (none, v) h = (refl, h)
  write-Apart k times prd s w (some p, v) h = (refl, h)

  delete-Apart :
      (k : String) (tries : ℕ) (name : String) (s : PodReporter) (w : W) (o : Bool × W)
      → str_eq name k ≡ false
      → Apart k (s, w) (after_delete tries name s o)
  unfolding after_delete is_for
  delete-Apart k tries name s w (true, v) h = (refl, refl)
  delete-Apart k tries name s w (false, v) h = (refl, h)

  read_apart :
      (k : String) (now : ℕ) (times : List ℕ) (prd : PodResourcesDetail) (o : Option GpuPod)
      → str_eq (gpu_pod_uuid prd) k ≡ false
      → is_for k (after_read now times prd o) ≡ false
  unfolding after_read is_for
  read_apart k now times prd none h = h
  read_apart k now times prd (some last) h = h

  get_apart :
      (k : String) (now : ℕ) (times : List ℕ) (prd : PodResourcesDetail) (g : Got GpuPod)
      → str_eq (gpu_pod_uuid prd) k ≡ false
      → is_for k (after_get now times prd g) ≡ false
  unfolding after_get is_for
  get_apart k now times prd not_found h = h
  get_apart k now times prd (failed e) h = h
  get_apart k now times prd (found p) h = h

  move-Apart :
      (k : String) (t : Thread) (x : PodReporter × W)
      → is_for k t ≡ false
      → Apart k x (move api t x)
  unfolding move is_for
  move-Apart k (read_last [] prd) x h = (refl, refl)
  move-Apart k (read_last (now ∷ times) prd) (s, w) h =
      (refl, read_apart k now times prd (lookup (gpu_pod_uuid prd) s.gpu_pod_last) h)
  move-Apart k (update_last now times prd last) (s, w) h = update-Apart k now times prd s w _ h
  move-Apart k (get_pod now times prd) (s, w) h =
      (refl, get_apart k now times prd (api.get (gpu_pod_uuid prd) w) h)
  move-Apart k (create_pod now times prd) (s, w) h = write-Apart k times prd s w _ h
  move-Apart k (update_got now times prd p) (s, w) h = write-Apart k times prd s w _ h
  move-Apart k (store_pod prd p) (s, w) h =
      (lookup-insert (gpu_pod_uuid prd) k p s.gpu_pod_last ∙ rw h refl, refl)
  move-Apart k (forget_pod zero name) x h = (refl, refl)
  move-Apart k (forget_pod (suc tries) name) (s, w) h =
      (lookup-delete name k s.gpu_pod_last ∙ rw h refl, h)
  move-Apart k (delete_pod tries name) (s, w) h = delete-Apart k tries name s w _ h
  move-Apart k (ended ok) x h = (refl, refl)

  move_at_apart :
      (k : String) (i : ℕ) (ts : List Thread) (x : PodReporter × W)
      → NoneFor k ts
      → (lookup k (move_at api i ts x).1.0.gpu_pod_last ≡ lookup k x.0.gpu_pod_last)
        × NoneFor k (move_at api i ts x).0
  unfolding move_at NoneFor
  move_at_apart k i [] x h = (refl, tt)
  move_at_apart k zero (t ∷ ts) x (here, later) =
      let (kept, still) = move-Apart k t x here in (kept, (still, later))
  move_at_apart k (suc i) (t ∷ ts) x (here, later) =
      let (kept, still) = move_at_apart k i ts x later in (kept, (here, still))

  -- However goroutines interleave and whatever the api server answers, what gpuPodLast holds under the
  -- name of a GpuPod stays as it is if none of them produces or cleans the GpuPod of that name.
  pub others_kept :
      (k : String) (is : List ℕ) (ts : List Thread) (x : PodReporter × W)
      → NoneFor k ts
      → lookup k (run_jobs api is (ts, x)).1.0.gpu_pod_last ≡ lookup k x.0.gpu_pod_last
  unfolding run_jobs
  others_kept k [] ts x h = refl
  others_kept k (i ∷ is) ts x h =
      let y = move_at api i ts x in
      let (kept, still) = move_at_apart k i ts x h in others_kept k is y.0 y.1 still ∙ kept
