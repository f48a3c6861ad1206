-- ===== src/PodStore/Cleaning.antt =====
-- Which GpuPods are forgotten by a clean-up.
use nvidia_gpu_scheduler.Prelude.{
  ℕ, zero, suc, ◌≡◌, refl, ap, ◌∙◌, inl, inr, Bool, Bool-cases, true, false, not, ◌&&◌, ◌||◌, List,
  [], ◌∷◌, Option, none, some, String, str_eq, Map, lookup, lookup-delete, arith, if◌then◌else◌,
}
use nvidia_gpu_scheduler.Api.{GpuPod}
use nvidia_gpu_scheduler.Report.{PodResources}
use nvidia_gpu_scheduler.PodReport.{exist}
use nvidia_gpu_scheduler.PodStore.{
  GpuPods, PodReporter, pod_key, clean_gpu_pod, clean_pod_resource_crd, clean_listed, clean_answer,
  clean_pod_resource_crd_init,
}

module _ {W : Type 0} (api : GpuPods W) where
  -- A listed GpuPod of this name belongs to a pod that the kubelet does not list.
  abbrev pub is_orphan : Map PodResources → List GpuPod → String → Bool
  is_orphan last [] k = false
  is_orphan last (gp ∷ items) k =
      (not (exist (lookup (pod_key api gp) last)) && str_eq gp.name k) || is_orphan last items k

  abbrev pub listed_of : Option (List GpuPod) → List GpuPod
  listed_of none = []
  listed_of (some items) = items

  -- What is kept of a pod after it may have been cleaned.
  abbrev after_clean : Bool → Option GpuPod → Option GpuPod
  after_clean true o = none
  after_clean false o = o

  lookup-clean_gpu_pod :
      (name k : String) (x : PodReporter × W)
      → lookup k (clean_gpu_pod api name x).0.0.gpu_pod_last
        ≡ after_clean (str_eq name k) (lookup k x.0.gpu_pod_last)
  unfolding clean_gpu_pod
  lookup-clean_gpu_pod name k (s, w) = ground (arith, lookup-delete name k s.gpu_pod_last)

  -- Further tries forget nothing more.
  after_clean_twice :
      (b : Bool) (o : Option GpuPod) → after_clean b (after_clean b o) ≡ after_clean b o
  after_clean_twice true o = refl
  after_clean_twice false o = refl

  clean_crd_lookup :
      (tries : ℕ) (name k : String) (x : PodReporter × W)
      → lookup k (clean_pod_resource_crd api (suc tries) name x).0.0.gpu_pod_last
        ≡ after_clean (str_eq name k) (lookup k x.0.gpu_pod_last)
  unfolding clean_pod_resource_crd
  clean_crd_lookup zero name k x = elim (Bool-cases (clean_gpu_pod api name x).1) [
    | inl ok ↦ rw ok (lookup-clean_gpu_pod name k x)
    | inr err ↦ rw err (lookup-clean_gpu_pod name k x)
  ]
  clean_crd_lookup (suc tries) name k x = elim (Bool-cases (clean_gpu_pod api name x).1) [
    | inl ok ↦ rw ok (lookup-clean_gpu_pod name k x)
    | inr err ↦ rw err (
        clean_crd_lookup tries name k (clean_gpu_pod api name x).0
        ∙ ap (after_clean (str_eq name k)) (lookup-clean_gpu_pod name k x)
        ∙ after_clean_twice (str_eq name k) (lookup k x.0.gpu_pod_last))
  ]

  clean_one_lookup :
      (tries : ℕ) (b : Bool) (name k : String) (x : PodReporter × W)
      → lookup k (if b then x else (clean_pod_resource_crd api (suc tries) name x).0).0.gpu_pod_last
        ≡ after_clean (not b && str_eq name k) (lookup k x.0.gpu_pod_last)
  clean_one_lookup tries true name k x = refl
  clean_one_lookup tries false name k x = clean_crd_lookup tries name k x

  after_clean-or :
      (b c : Bool) (o : Option GpuPod) → after_clean b (after_clean c o) ≡ after_clean (c || b) o
  after_clean-or b c o = ground arith

  lookup-clean_listed :
      (tries : ℕ) (last : Map PodResources) (items : List GpuPod) (k : String) (x : PodReporter × W)
      → lookup k (clean_listed api (suc tries) last items x).0.gpu_pod_last
        ≡ after_clean (is_orphan last items k) (lookup k x.0.gpu_pod_last)
  unfolding clean_listed
  lookup-clean_listed tries last [] k x = refl
  lookup-clean_listed tries last (gp ∷ items) k x =
      let b = exist (lookup (pod_key api gp) last) in
      lookup-clean_listed tries last items k
        (if b then x else (clean_pod_resource_crd api (suc tries) gp.name x).0)
      ∙ ap (after_clean (is_orphan last items k)) (clean_one_lookup tries b gp.name k x)
      ∙ after_clean-or (is_orphan last items k) (not b && str_eq gp.name k)
          (lookup k x.0.gpu_pod_last)

  lookup-clean_answer :
      (tries : ℕ) (last : Map PodResources) (o : Option (List GpuPod)) (k : String)
      (x : PodReporter × W)
      → lookup k (clean_answer api (suc tries) last o x).0.gpu_pod_last
        ≡ after_clean (is_orphan last (listed_of o) k) (lookup k x.0.gpu_pod_last)
  unfolding clean_answer
  lookup-clean_answer tries last none k x = refl
  lookup-clean_answer tries last (some items) k x = lookup-clean_listed tries last items k x

  after_clean-if : (b : Bool) (o : Option GpuPod) → after_clean b o ≡ (if b then none else o)
  after_clean-if b o = ground arith

  -- The clean-up at the start forgets exactly the GpuPods of the node's list whose pod the kubelet
  -- does not list any more, whether or not their deletion succeeds, and keeps all others; it forgets
  -- nothing where the list fails.
  pub clean_init_lookup :
      (tries : ℕ) (last : Map PodResources) (s : PodReporter) (w : W) (k : String)
      → lookup k (clean_pod_resource_crd_init api (suc tries) last (s, w)).0.gpu_pod_last
        ≡ (if is_orphan last (listed_of (api.list w)) k then none else lookup k s.gpu_pod_last)
  unfolding clean_pod_resource_crd_init
  clean_init_lookup tries last s w k =
      lookup-clean_answer tries last (api.list w) k (s, w)
      ∙ after_clean-if (is_orphan last (listed_of (api.list w)) k) (lookup k s.gpu_pod_last)
