-- ===== src/Examples/Holding.antt =====
-- A server that holds GpuPods by their names.
use nvidia_gpu_scheduler.Prelude.{
  ◌≡◌, refl, sym, ap, ◌∙◌, arith, true, [], ◌∷◌, Option, none, some, String, eq_refl, Map, lookup,
  insert, lookup-insert,
}
use nvidia_gpu_scheduler.Api.{GpuPod}
use nvidia_gpu_scheduler.ModelName.{metadata_to_name}
use nvidia_gpu_scheduler.Reconcile.{Got, found, not_found, failed}
use nvidia_gpu_scheduler.PodReport.{PodResourcesDetail}
use nvidia_gpu_scheduler.PodStore.{GpuPods, PodReporter, ensure_gpu_pod, produce_pod_resource_crd}
use nvidia_gpu_scheduler.PodStore.Stored.{Storing, IsNamed, produce_pod_resource_crd-held}
use nvidia_gpu_scheduler.Examples.Agent.{gpu}
use nvidia_gpu_scheduler.Examples.Looping.{one_pod}

abbrev named_got : String → Option GpuPod → Got GpuPod
named_got name none = not_found
named_got name (some p) = found (record p { name = name })

abbrev by_name : GpuPods (Map GpuPod)
by_name = record {
  get = λ name w. named_got name (lookup name w);
  update = λ p w. (some p, insert p.name p w);
  create = λ p w. (some p, insert p.name p w);
  delete_pod = λ name w. (true, w);
  list = λ w. some [];
}

abbrev pod_or : GpuPod → Option GpuPod → GpuPod
pod_or p none = p
pod_or p (some q) = q

answers_kept :
    (n m : GpuPod) (w v : Map GpuPod)
    → by_name.update n w ≡ (some m, v)
    → (lookup n.name v ≡ some m) × (m.name ≡ n.name) × (m.spec ≡ n.spec)
answers_kept n m w v e =
    let same : m ≡ n = sym (ap (λ x. pod_or n x.0) e) in
    (
      ap (λ x. lookup n.name x.1) (sym e)
          ∙ lookup-insert n.name n.name n w
          ∙ rw (eq_refl n.name) (ap some (sym same)),
      ap (λ x. x.name) same,
      ap (λ x. x.spec) same,
    )

abbrev got_name : String → Got GpuPod → String
got_name name (found p) = p.name
got_name name not_found = name
got_name name (failed e) = name

name_of :
    (name : String) (o : Option GpuPod) (p : GpuPod) → named_got name o ≡ found p → p.name ≡ name
name_of name none p e = absurd (ground arith)
name_of name (some q) p e = ap (λ x. got_name name x) (sym e)

by_name-Storing : Storing by_name
by_name-Storing = record {
  held = λ name w. lookup name w;
  update-held = λ n m w v e. answers_kept n m w v e;
  create-held = λ n m w v e. answers_kept n m w v e;
  get-name = λ name w p e. name_of name (lookup name w) p e;
}

abbrev detail : PodResourcesDetail
detail = record {
  pod_resources = one_pod;
  container_devices = record { name = "c"; device_info = gpu ∷ [] } ∷ [];
}

abbrev keeper : PodReporter
keeper = record { node_name = "a"; gpu_pod_last = [] }

none-IsNamed : IsNamed []
unfolding IsNamed lookup
none-IsNamed = λ k p e. absurd (ground arith)

taken_at_once : (produce_pod_resource_crd by_name (9 ∷ 10 ∷ []) detail (keeper, [])).1 ≡ true
unfolding produce_pod_resource_crd ensure_gpu_pod lookup
taken_at_once = refl

produce_pod_resource_crd-held_example :
    let r = produce_pod_resource_crd by_name (9 ∷ 10 ∷ []) detail (keeper, []) in
    IsNamed r.0.0.gpu_pod_last
    × ((p : GpuPod) × (by_name-Storing.held (metadata_to_name "ns" "p") r.0.1 ≡ some p)
        × (lookup (metadata_to_name "ns" "p") r.0.0.gpu_pod_last ≡ some p)
        × (p.spec.container_devices ≡ detail.container_devices))
produce_pod_resource_crd-held_example =
    produce_pod_resource_crd-held by_name by_name-Storing detail (9 ∷ 10 ∷ []) keeper []
      none-IsNamed taken_at_once
