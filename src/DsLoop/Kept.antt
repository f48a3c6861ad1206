-- ===== src/DsLoop/Kept.antt =====
-- What a turn of the loop leaves as it was: the sources of a report by the report, and the GpuNode by
-- the clean-ups.
use nvidia_gpu_scheduler.Prelude.{
  ℕ, zero, suc, ◌≡◌, refl, ◌∙◌, inl, inr, Bool, Bool-cases, true, false, List, [], ◌∷◌, Option,
  none, some, String, Map, lookup, if◌then◌else◌,
}
use nvidia_gpu_scheduler.Sets.{StringSet}
use nvidia_gpu_scheduler.Api.{GpuPod}
use nvidia_gpu_scheduler.Report.{
  PodResources, Reporter, GpuNodes, ensure_gpu_node, produce_node_gpu_info_crd,
}
use nvidia_gpu_scheduler.Report.Recreate.{TryOutcome, ensure_gpu_node_outcome}
use nvidia_gpu_scheduler.Report.Recreate.{stored as was_stored, not_stored as was_not}
use nvidia_gpu_scheduler.PodReport.{exist}
use nvidia_gpu_scheduler.PodStore.{
  GpuPods, PodReporter, pod_key, clean_gpu_pod, clean_pod_resource_crd, clean_listed, clean_answer,
  clean_pod_resource_crd_init,
}

-- A report leaves what it is made of as it was.
module _ (S : StringSet) {W : Type 0} (nodes : GpuNodes W) where
  unfoldable pub SameSources : Reporter S → Reporter S → Type 0
  SameSources r s =
      (r.last_node_gpu_info ≡ s.last_node_gpu_info) × (r.podresources_last ≡ s.podresources_last)

  after_try :
      (s : Reporter S) (r rest : (Reporter S × W) × Bool)
      → TryOutcome S nodes s r
      → ((w : W) → r ≡ ((s, w), false) → SameSources rest.0.0 s)
      → SameSources (if r.1 then (r.0, true) else rest).0.0 s
  unfolding SameSources
  after_try s r rest (was_stored n w e) f = rw e (refl, refl)
  after_try s r rest (was_not w e) f = rw e (f w e)

  pub produce-SameSources :
      (times : List ℕ) (s : Reporter S) (w : W)
      → SameSources (produce_node_gpu_info_crd S nodes times (s, w)).0.0 s
  unfolding produce_node_gpu_info_crd
  produce-SameSources [] s w = unfold SameSources in (refl, refl)
  produce-SameSources (now ∷ times) s w =
      let r = ensure_gpu_node S nodes now (s, w) in
      after_try s r (produce_node_gpu_info_crd S nodes times r.0)
        (ensure_gpu_node_outcome S nodes now s w) (λ v e. rw e (produce-SameSources times s v))

-- Deletions of GpuPods keep what is held of the node.
module _ {W : Type 0} (pods : GpuPods W) {A : Type 0} (held : W → A)
    (apart : (name : String) (w : W) → held (pods.delete_pod name w).1 ≡ held w) where
  clean_gpu_pod_held :
      (name : String) (x : PodReporter × W) → held (clean_gpu_pod pods name x).0.1 ≡ held x.1
  unfolding clean_gpu_pod
  clean_gpu_pod_held name (s, w) = apart name w

  pub clean_crd_held :
      (tries : ℕ) (name : String) (x : PodReporter × W)
      → held (clean_pod_resource_crd pods tries name x).0.1 ≡ held x.1
  unfolding clean_pod_resource_crd
  clean_crd_held zero name x = refl
  clean_crd_held (suc tries) name x = elim (Bool-cases (clean_gpu_pod pods name x).1) [
    | inl ok ↦ rw ok (clean_gpu_pod_held name x)
    | inr err ↦
        rw err (clean_crd_held tries name (clean_gpu_pod pods name x).0 ∙ clean_gpu_pod_held name x)
  ]

  held_if :
      (b : Bool) (x y : PodReporter × W)
      → held y.1 ≡ held x.1
      → held (if b then x else y).1 ≡ held x.1
  held_if true x y h = refl
  held_if false x y h = h

  clean_listed_held :
      (tries : ℕ) (last : Map PodResources) (items : List GpuPod) (x : PodReporter × W)
      → held (clean_listed pods tries last items x).1 ≡ held x.1
  unfolding clean_listed
  clean_listed_held tries last [] x = refl
  clean_listed_held tries last (gp ∷ items) x =
      let cleaned = (clean_pod_resource_crd pods tries gp.name x).0 in
      let kept = exist (lookup (pod_key pods gp) last) in
      clean_listed_held tries last items (if kept then x else cleaned)
      ∙ held_if kept x cleaned (clean_crd_held tries gp.name x)

  clean_answer_held :
      (tries : ℕ) (last : Map PodResources) (o : Option (List GpuPod)) (x : PodReporter × W)
      → held (clean_answer pods tries last o x).1 ≡ held x.1
  unfolding clean_answer
  clean_answer_held tries last none x = refl
  clean_answer_held tries last (some items) x = clean_listed_held tries last items x

  pub clean_init_held :
      (tries : ℕ) (last : Map PodResources) (x : PodReporter × W)
      → held (clean_pod_resource_crd_init pods tries last x).1 ≡ held x.1
  unfolding clean_pod_resource_crd_init
  clean_init_held tries last (s, w) = clean_answer_held tries last (pods.list w) (s, w)
