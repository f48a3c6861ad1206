-- ===== src/Examples/Racing.antt =====
-- A pod that is removed while its GpuPod is produced.
use nvidia_gpu_scheduler.Prelude.{
  ℕ, ◌+◌, ◌*◌, ◌≤◌, ◌≡◌, refl, arith, Bool, false, true, List, [], ◌∷◌, Option, none, some, lookup,
  insert, delete, length,
}
use nvidia_gpu_scheduler.Api.{GpuPod}
use nvidia_gpu_scheduler.ModelName.{metadata_to_name}
use nvidia_gpu_scheduler.Reconcile.{Got, found, not_found}
use nvidia_gpu_scheduler.PodReport.{PodResourcesDetail, to_gpu_pod}
use nvidia_gpu_scheduler.PodStore.{GpuPods, PodReporter, clean_gpu_pod, clean_pod_resource_crd}
use nvidia_gpu_scheduler.PodJobs.{Thread, read_last, get_pod, forget_pod, ended, move_at, run_jobs}
use nvidia_gpu_scheduler.PodJobs.Pool.{all_left, IsBusy, AllBusy, busy_bound}
use nvidia_gpu_scheduler.PodJobs.Late.{late_creation}
use nvidia_gpu_scheduler.Examples.Looping.{one_pod}

abbrev got_of : Option GpuPod → Got GpuPod
got_of none = not_found
got_of (some p) = found p

abbrev update_pod : GpuPod → Option GpuPod → Option GpuPod × Option GpuPod
update_pod p none = (none, none)
update_pod p (some q) = (some p, some p)

abbrev create_pod : GpuPod → Option GpuPod → Option GpuPod × Option GpuPod
create_pod p none = (some p, some p)
create_pod p (some q) = (none, some q)

abbrev remove_pod : Option GpuPod → Bool × Option GpuPod
remove_pod none = (false, none)
remove_pod (some q) = (true, none)

-- A server with room for one GpuPod.
abbrev one_place : GpuPods (Option GpuPod)
one_place = record {
  get = λ name w. got_of w;
  update = update_pod;
  create = create_pod;
  delete_pod = λ name w. remove_pod w;
  list = λ w. some [];
}

abbrev detail : PodResourcesDetail
detail = record { pod_resources = one_pod; container_devices = [] }

abbrev keeper : PodReporter
keeper = record { node_name = "a"; gpu_pod_last = [] }

abbrev two_times : List ℕ
two_times = 9 ∷ 10 ∷ []

abbrev in_turn : List ℕ
in_turn = 0 ∷ 1 ∷ 0 ∷ []

fits : 5 * length two_times + 1 ≤ 11
fits = omega arith

fits_too : 2 * 4 + 1 ≤ 11
fits_too = omega arith

abbrev both : List Thread
both = read_last (9 ∷ []) detail ∷ forget_pod 1 "ns-p" ∷ []

busy : AllBusy one_place in_turn (both, (keeper, none))
unfolding AllBusy IsBusy move_at metadata_to_name lookup delete
busy = (omega arith, (omega arith, (omega arith, tt)))

busy_bound_example :
    length in_turn + all_left (run_jobs one_place in_turn (both, (keeper, none))).0 ≤ all_left both
busy_bound_example = busy_bound one_place in_turn both (keeper, none) busy

cleaned_in_vain :
    clean_pod_resource_crd one_place 4 (metadata_to_name "ns" "p") (keeper, none)
    ≡ ((keeper, none), false)
unfolding clean_pod_resource_crd clean_gpu_pod delete
cleaned_in_vain = refl

abbrev made_late : GpuPod
made_late = to_gpu_pod 9 "a" none detail

late_creation_example :
    (order : List ℕ) × (run_jobs one_place order
        (get_pod 9 [] detail ∷ forget_pod 4 (metadata_to_name "ns" "p") ∷ [], (keeper, none))
      ≡ (
        ended true ∷ ended false ∷ [],
        (
          record keeper { gpu_pod_last = insert (metadata_to_name "ns" "p") made_late [] },
          some made_late,
        ),
      ))
late_creation_example =
    late_creation one_place 9 [] detail 4 keeper keeper none none (some made_late) false made_late
      refl cleaned_in_vain refl
