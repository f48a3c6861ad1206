-- ===== src/PodStore/Stored.antt =====
-- What the api server holds of a pod after a production, where it stores what it accepts.
use nvidia_gpu_scheduler.Prelude.{
  ℕ, ◌≡◌, refl, sym, ap, ◌∙◌, inl, inr, Bool, Bool-cases, true, false, List, [], ◌∷◌, Option, none,
  some, String, str_eq, eq_iff, eq_refl, Map, insert, lookup, lookup-insert, arith, if◌then◌else◌,
}
use nvidia_gpu_scheduler.Api.{GpuPod}
use nvidia_gpu_scheduler.Reconcile.{Got, found, not_found, failed}
use nvidia_gpu_scheduler.PodReport.{PodResourcesDetail, to_gpu_pod}
use nvidia_gpu_scheduler.PodReport.Sent.{to_gpu_pod-name, to_gpu_pod-devices}
use nvidia_gpu_scheduler.PodReport.Keyed.{if_true, if_false}
use nvidia_gpu_scheduler.PodStore.{
  GpuPods, PodReporter, gpu_pod_uuid, remember, answer_get, get_and_update_gpu_pod, answer_update,
  ensure_from, ensure_gpu_pod, produce_pod_resource_crd,
}

-- What the api server holds under a name: what it has answered to a write of an object of that name,
-- which has that name and the spec that was sent. It answers to a get with an object of that name.
pub record Storing {W : Type 0} (api : GpuPods W) : Type 0 where
  pub held : String → W → Option GpuPod
  pub update-held :
      (n m : GpuPod) (w v : W)
      → api.update n w ≡ (some m, v)
      → (held n.name v ≡ some m) × (m.name ≡ n.name) × (m.spec ≡ n.spec)
  pub create-held :
      (n m : GpuPod) (w v : W)
      → api.create n w ≡ (some m, v)
      → (held n.name v ≡ some m) × (m.name ≡ n.name) × (m.spec ≡ n.spec)
  pub get-name : (name : String) (w : W) (p : GpuPod) → api.get name w ≡ found p → p.name ≡ name

-- Every GpuPod is kept under its name.
unfoldable pub IsNamed : Map GpuPod → Type 0
IsNamed m = (k : String) (p : GpuPod) → lookup k m ≡ some p → p.name ≡ k

pod_or : GpuPod → Option GpuPod → GpuPod
pod_or p none = p
pod_or p (some q) = q

some_same : {p q : GpuPod} → some p ≡ some q → p ≡ q
unfolding pod_or
some_same {p} h = ap (pod_or p) h

insert-IsNamed :
    (m : Map GpuPod) (k : String) (p : GpuPod) → IsNamed m → p.name ≡ k → IsNamed (insert k p m)
unfolding IsNamed
insert-IsNamed m k p named own j q e = elim (Bool-cases (str_eq k j)) [
  | inl same ↦
      ap (λ x. x.name)
        (sym
          (some_same (sym (if_true (some p) (lookup j m) same) ∙ sym (lookup-insert k j p m) ∙ e)))
      ∙ own
      ∙ (eq_iff k j).0 same
  | inr other ↦
      named j q (sym (if_false (some p) (lookup j m) other) ∙ sym (lookup-insert k j p m) ∙ e)
]

module _ {W : Type 0} (api : GpuPods W) (st : Storing api) (prd : PodResourcesDetail) where
  -- The server holds the pod's devices in an object that is kept, or nothing was stored, and nothing
  -- is kept.
  data TryHeld (s : PodReporter) (r : (PodReporter × W) × Bool) : Type 0 where
    was_held :
        (p : GpuPod)
        → r.1 ≡ true
        → r.0.0 ≡ record s { gpu_pod_last = insert (gpu_pod_uuid prd) p s.gpu_pod_last }
        → st.held (gpu_pod_uuid prd) r.0.1 ≡ some p
        → p.name ≡ gpu_pod_uuid prd
        → p.spec.container_devices ≡ prd.container_devices
        → TryHeld s r
    not_held : (w : W) → r ≡ ((s, w), false) → TryHeld s r

  -- What a write of this object comes to.
  Writes : GpuPod → Option GpuPod × W → Type 0
  Writes n x =
      (m : GpuPod) (v : W)
      → x ≡ (some m, v)
      → (st.held n.name v ≡ some m) × (m.name ≡ n.name) × (m.spec ≡ n.spec)

  remember-TryHeld :
      (s : PodReporter) (n : GpuPod) (x : Option GpuPod × W)
      → n.name ≡ gpu_pod_uuid prd
      → n.spec.container_devices ≡ prd.container_devices
      → Writes n x
      → TryHeld s (remember api (gpu_pod_uuid prd) s x)
  unfolding remember Writes
  remember-TryHeld s n (none, w) named same h = not_held w refl
  remember-TryHeld s n (some p, w) named same h =
      let (there, name, spec) = h p w refl in
      was_held p refl refl (ap (λ k. st.held k w) (sym named) ∙ there) (name ∙ named)
        (ap (λ x. x.container_devices) spec ∙ same)

  answer_get-TryHeld :
      (now : ℕ) (s : PodReporter) (w : W) (g : Got GpuPod)
      → ((p : GpuPod) → g ≡ found p → p.name ≡ gpu_pod_uuid prd)
      → TryHeld s (answer_get api now (gpu_pod_uuid prd) prd s w g)
  unfolding answer_get Writes
  answer_get-TryHeld now s w not_found h =
      let n = to_gpu_pod now s.node_name none prd in
      remember-TryHeld s n (api.create n w) (to_gpu_pod-name now s.node_name none prd)
        (to_gpu_pod-devices now s.node_name none prd) (λ m v e. st.create-held n m w v e)
  answer_get-TryHeld now s w (failed e) h = not_held w refl
  answer_get-TryHeld now s w (found p) h =
      let n = to_gpu_pod now s.node_name (some p) prd in
      remember-TryHeld s n (api.update n w)
        (to_gpu_pod-name now s.node_name (some p) prd ∙ h p refl)
        (to_gpu_pod-devices now s.node_name (some p) prd) (λ m v e. st.update-held n m w v e)

  get-TryHeld :
      (now : ℕ) (s : PodReporter) (w : W)
      → TryHeld s (get_and_update_gpu_pod api now (gpu_pod_uuid prd) prd (s, w))
  unfolding get_and_update_gpu_pod
  get-TryHeld now s w =
      answer_get-TryHeld now s w (api.get (gpu_pod_uuid prd) w)
        (λ p e. st.get-name (gpu_pod_uuid prd) w p e)

  answer_update-TryHeld :
      (now : ℕ) (s : PodReporter) (n : GpuPod) (x : Option GpuPod × W)
      → n.name ≡ gpu_pod_uuid prd
      → n.spec.container_devices ≡ prd.container_devices
      → Writes n x
      → TryHeld s (answer_update api now prd s x)
  unfolding answer_update
  answer_update-TryHeld now s n (none, w) named same h = get-TryHeld now s w
  answer_update-TryHeld now s n (some p, w) named same h =
      remember-TryHeld s n (some p, w) named same h

  ensure_from-TryHeld :
      (now : ℕ) (s : PodReporter) (w : W) (o : Option GpuPod)
      → ((p : GpuPod) → o ≡ some p → p.name ≡ gpu_pod_uuid prd)
      → TryHeld s (ensure_from api now prd s w o)
  unfolding ensure_from Writes
  ensure_from-TryHeld now s w none h = get-TryHeld now s w
  ensure_from-TryHeld now s w (some last) h =
      let n = to_gpu_pod now s.node_name (some last) prd in
      answer_update-TryHeld now s n (api.update n w)
        (to_gpu_pod-name now s.node_name (some last) prd ∙ h last refl)
        (to_gpu_pod-devices now s.node_name (some last) prd) (λ m v e. st.update-held n m w v e)

  ensure-TryHeld :
      (now : ℕ) (s : PodReporter) (w : W)
      → IsNamed s.gpu_pod_last
      → TryHeld s (ensure_gpu_pod api now prd (s, w))
  unfolding ensure_gpu_pod IsNamed
  ensure-TryHeld now s w named =
      ensure_from-TryHeld now s w (lookup (gpu_pod_uuid prd) s.gpu_pod_last)
        (λ p e. named (gpu_pod_uuid prd) p e)

  again :
      (s : PodReporter) (r rest : (PodReporter × W) × Bool)
      → TryHeld s r
      → ((w : W) → r ≡ ((s, w), false) → TryHeld s rest)
      → TryHeld s (if r.1 then (r.0, true) else rest)
  again s r rest (was_held p ok kept there named same) f =
      rw ok (was_held p refl kept there named same)
  again s r rest (not_held w e) f = rw e (f w e)

  produce-TryHeld :
      (times : List ℕ) (s : PodReporter) (w : W)
      → IsNamed s.gpu_pod_last
      → TryHeld s (produce_pod_resource_crd api times prd (s, w))
  unfolding produce_pod_resource_crd
  produce-TryHeld [] s w named = not_held w refl
  produce-TryHeld (now ∷ times) s w named =
      let r = ensure_gpu_pod api now prd (s, w) in
      again s r (produce_pod_resource_crd api times prd r.0) (ensure-TryHeld now s w named)
        (λ v e. rw e (produce-TryHeld times s v named))

  no_error : false ≡ true → ⊥
  no_error h = ground arith

  AllHeld : PodReporter → (PodReporter × W) × Bool → Type 0
  AllHeld s r =
      IsNamed r.0.0.gpu_pod_last
      × ((p : GpuPod) × (st.held (gpu_pod_uuid prd) r.0.1 ≡ some p)
          × (lookup (gpu_pod_uuid prd) r.0.0.gpu_pod_last ≡ some p)
          × (p.spec.container_devices ≡ prd.container_devices))

  AllHeld-TryHeld :
      (s : PodReporter) (r : (PodReporter × W) × Bool)
      → IsNamed s.gpu_pod_last
      → TryHeld s r
      → r.1 ≡ true
      → AllHeld s r
  unfolding AllHeld
  AllHeld-TryHeld s r named (was_held p ok kept there own same) h = (
    rw kept (insert-IsNamed s.gpu_pod_last (gpu_pod_uuid prd) p named own),
    (
      p,
      there,
      rw kept (
          lookup-insert (gpu_pod_uuid prd) (gpu_pod_uuid prd) p s.gpu_pod_last
          ∙ rw (eq_refl (gpu_pod_uuid prd)) refl),
      same,
    ),
  )
  AllHeld-TryHeld s r named (not_held w e) h = absurd (no_error (sym (ap (λ x. x.1) e) ∙ h))

  -- Let the api server hold under its name what it answers to a write, with the name and the spec that
  -- it was sent, and answer a get with an object of that name, and let every GpuPod that is kept stand
  -- under its name. Then a production that ends without an error, after whatever refused tries and
  -- from whatever base, leaves the server with a GpuPod under the pod's name that has exactly the
  -- devices of the pod's containers, keeps that GpuPod, and again keeps every GpuPod under its name.
  pub produce_pod_resource_crd-held :
      (times : List ℕ) (s : PodReporter) (w : W)
      → IsNamed s.gpu_pod_last
      → (produce_pod_resource_crd api times prd (s, w)).1 ≡ true
      → let r = produce_pod_resource_crd api times prd (s, w) in
        IsNamed r.0.0.gpu_pod_last
        × ((p : GpuPod) × (st.held (gpu_pod_uuid prd) r.0.1 ≡ some p)
            × (lookup (gpu_pod_uuid prd) r.0.0.gpu_pod_last ≡ some p)
            × (p.spec.container_devices ≡ prd.container_devices))
  unfolding AllHeld
  produce_pod_resource_crd-held times s w named h =
      AllHeld-TryHeld s (produce_pod_resource_crd api times prd (s, w)) named
        (produce-TryHeld times s w named) h
