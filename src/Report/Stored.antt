-- ===== src/Report/Stored.antt =====
-- What the api server holds after a report, where it stores what it accepts.
use nvidia_gpu_scheduler.Prelude.{
  ℕ, Bool, Map, ◌≡◌, refl, ap, sym, ◌∙◌, true, false, ◌&&◌, not, List, [], ◌∷◌, Option, none, some,
  String, lookup, has_text, arith, if◌then◌else◌,
}
use nvidia_gpu_scheduler.Sets.{StringSet}
use nvidia_gpu_scheduler.Api.{GpuNode, GpuNodeSpec}
use nvidia_gpu_scheduler.NodeCache.{list_of}
use nvidia_gpu_scheduler.NodeCache.Free.{is_free}
use nvidia_gpu_scheduler.Reconcile.{Got, found, not_found, failed}
use nvidia_gpu_scheduler.Report.{
  to_gpu_node, NodeGpuInfo, PodResources, Reporter, report_of, GpuNodes, remember, answer_get,
  get_and_update_gpu_node, answer_update, ensure_from, ensure_gpu_node, produce_node_gpu_info_crd,
}
use nvidia_gpu_scheduler.Report.Content.{in_model, is_busy, is_free-to_gpu_node}

-- What the api server holds of the node, and that it holds what it answers with, whose spec is the
-- one that it was sent.
pub record Storing {W : Type 0} (api : GpuNodes W) : Type 0 where
  pub held : W → Option GpuNode
  pub update-held :
      (n m : GpuNode) (w v : W)
      → api.update n w ≡ (some m, v)
      → (held v ≡ some m) × (m.spec ≡ n.spec)
  pub create-held :
      (n m : GpuNode) (w v : W)
      → api.create n w ≡ (some m, v)
      → (held v ≡ some m) × (m.spec ≡ n.spec)

no_success : false ≡ true → ⊥
no_success h = ground arith

module _ (S : StringSet) {W : Type 0} (api : GpuNodes W) (st : Storing api) where
  -- The server holds a report of this reporter, or nothing was stored, and the reporter is as it was.
  data TryStored (s : Reporter S) (r : (Reporter S × W) × Bool) : Type 0 where
    stored :
        (now : ℕ) (base : Option GpuNode) (n : GpuNode)
        → r.1 ≡ true
        → st.held r.0.1 ≡ some n
        → n.spec ≡ (report_of S now s base).spec
        → TryStored s r
    not_stored : (w : W) → r ≡ ((s, w), false) → TryStored s r

  remember_stored :
      (s : Reporter S) (now : ℕ) (base : Option GpuNode) (x : Option GpuNode × W)
      → ((m : GpuNode) (v : W)
          → x ≡ (some m, v)
          → (st.held v ≡ some m) × (m.spec ≡ (report_of S now s base).spec))
      → TryStored s (remember S api s x)
  unfolding remember
  remember_stored s now base (none, w) h = not_stored w refl
  remember_stored s now base (some n, w) h =
      let (there, same) = h n w refl in stored now base n refl there same

  answer_get_stored :
      (now : ℕ) (s : Reporter S) (w : W) (g : Got GpuNode)
      → TryStored s (answer_get S api now s w g)
  unfolding answer_get
  answer_get_stored now s w not_found =
      remember_stored s now s.gpu_node_last (api.create (report_of S now s s.gpu_node_last) w)
        (λ m v e. st.create-held (report_of S now s s.gpu_node_last) m w v e)
  answer_get_stored now s w (failed e) = not_stored w refl
  answer_get_stored now s w (found n) =
      remember_stored s now (some n) (api.update (report_of S now s (some n)) w)
        (λ m v e. st.update-held (report_of S now s (some n)) m w v e)

  get_stored :
      (now : ℕ) (s : Reporter S) (w : W) → TryStored s (get_and_update_gpu_node S api now (s, w))
  unfolding get_and_update_gpu_node
  get_stored now s w = answer_get_stored now s w (api.get s.node_name w)

  answer_update_stored :
      (now : ℕ) (s : Reporter S) (base : Option GpuNode) (x : Option GpuNode × W)
      → ((m : GpuNode) (v : W)
          → x ≡ (some m, v)
          → (st.held v ≡ some m) × (m.spec ≡ (report_of S now s base).spec))
      → TryStored s (answer_update S api now s x)
  unfolding answer_update
  answer_update_stored now s base (none, w) h = get_stored now s w
  answer_update_stored now s base (some n, w) h = remember_stored s now base (some n, w) h

  ensure_from_stored :
      (now : ℕ) (s : Reporter S) (w : W) (o : Option GpuNode)
      → TryStored s (ensure_from S api now s w o)
  unfolding ensure_from
  ensure_from_stored now s w none = get_stored now s w
  ensure_from_stored now s w (some last) =
      answer_update_stored now s (some last) (api.update (report_of S now s (some last)) w)
        (λ m v e. st.update-held (report_of S now s (some last)) m w v e)

  ensure_stored :
      (now : ℕ) (s : Reporter S) (w : W) → TryStored s (ensure_gpu_node S api now (s, w))
  unfolding ensure_gpu_node
  ensure_stored now s w = ensure_from_stored now s w s.gpu_node_last

  again :
      (s : Reporter S) (r rest : (Reporter S × W) × Bool)
      → TryStored s r
      → ((w : W) → r ≡ ((s, w), false) → TryStored s rest)
      → TryStored s (if r.1 then (r.0, true) else rest)
  again s r rest (stored now base n ok there same) f = rw ok (stored now base n refl there same)
  again s r rest (not_stored w e) f = rw e (f w e)

  produce_stored :
      (times : List ℕ) (s : Reporter S) (w : W)
      → TryStored s (produce_node_gpu_info_crd S api times (s, w))
  unfolding produce_node_gpu_info_crd
  produce_stored [] s w = not_stored w refl
  produce_stored (now ∷ times) s w =
      let r = ensure_gpu_node S api now (s, w) in
      again s r (produce_node_gpu_info_crd S api times r.0) (ensure_stored now s w)
        (λ v e. rw e (produce_stored times s v))

  abbrev free_spec : String → String → GpuNodeSpec → Bool
  free_spec model d spec =
      has_text (list_of (lookup model spec.models)) d && not (has_text spec.node_device_in_use d)

  told_by :
      (now : ℕ) (s : Reporter S) (base : Option GpuNode) (ngi : NodeGpuInfo S)
      (prm : Map PodResources)
      → s.last_node_gpu_info ≡ some ngi
      → s.podresources_last ≡ some prm
      → report_of S now s base ≡ to_gpu_node S now s.node_name base (some ngi) (some prm)
  told_by now s base ngi prm h k =
      ap (λ i. to_gpu_node S now s.node_name base i s.podresources_last) h
      ∙ ap (λ p. to_gpu_node S now s.node_name base (some ngi) p) k

  abbrev Told : Reporter S → (Reporter S × W) × Bool → NodeGpuInfo S → Map PodResources → Type 0
  Told s r ngi prm =
      (n : GpuNode) × (st.held r.0.1 ≡ some n)
      × ((model d : String)
          → is_free model d (some n)
            ≡ (in_model S (lookup model ngi.models) d && not (is_busy prm d)))

  Told-TryStored :
      (s : Reporter S) (r : (Reporter S × W) × Bool) (ngi : NodeGpuInfo S) (prm : Map PodResources)
      → s.last_node_gpu_info ≡ some ngi
      → s.podresources_last ≡ some prm
      → TryStored s r
      → r.1 ≡ true
      → Told s r ngi prm
  Told-TryStored s r ngi prm h k (stored now base n ok there same) t = (
    n,
    there,
    λ model d.
        ap (free_spec model d) same
        ∙ ap (λ m. is_free model d (some m)) (told_by now s base ngi prm h k)
        ∙ is_free-to_gpu_node S now s.node_name base ngi prm model d,
  )
  Told-TryStored s r ngi prm h k (not_stored w e) t =
      absurd (no_success (sym (ap (λ x. x.1) e) ∙ t))

  -- If the api server holds what it answers with, and the spec of that is the one it was sent, then a
  -- report that ends without an error, after whatever refused tries, leaves the server with a GpuNode
  -- in which a device counts as free for a model exactly if the gpu check last told of it under the
  -- model and no container of a pod on the node lists it.
  pub produce_node_gpu_info_crd-held :
      (times : List ℕ) (s : Reporter S) (w : W) (ngi : NodeGpuInfo S) (prm : Map PodResources)
      → s.last_node_gpu_info ≡ some ngi
      → s.podresources_last ≡ some prm
      → (produce_node_gpu_info_crd S api times (s, w)).1 ≡ true
      → (n : GpuNode) × (st.held (produce_node_gpu_info_crd S api times (s, w)).0.1 ≡ some n)
        × ((model d : String)
            → is_free model d (some n)
              ≡ (in_model S (lookup model ngi.models) d && not (is_busy prm d)))
  produce_node_gpu_info_crd-held times s w ngi prm h k t =
      Told-TryStored s (produce_node_gpu_info_crd S api times (s, w)) ngi prm h k
        (produce_stored times s w) t
