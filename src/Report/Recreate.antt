-- ===== src/Report/Recreate.antt =====
-- What becomes of the reports after a GpuNode is deleted.
use nvidia_gpu_scheduler.Prelude.{
  ℕ, Bool, Map, ◌≡◌, refl, ap, ◌∙◌, true, false, List, [], ◌∷◌, Option, none, some, String, str_eq,
}
use nvidia_gpu_scheduler.Sets.{StringSet}
use nvidia_gpu_scheduler.Api.{GpuNode}
use nvidia_gpu_scheduler.Reconcile.{Got, found, not_found, failed}
use nvidia_gpu_scheduler.Report.{
  to_gpu_node, base_node, with_info, with_pods, NodeGpuInfo, PodResources, Reporter, report_of,
  GpuNodes, remember, answer_get, get_and_update_gpu_node, answer_update, ensure_from,
  ensure_gpu_node, produce_node_gpu_info_crd,
}

module _ (S : StringSet) {W : Type 0} (api : GpuNodes W) where
  -- What a try comes to: the server stored an object, which the reporter keeps, or nothing was
  -- stored, and the reporter is as it was.
  pub data TryOutcome (s : Reporter S) (r : (Reporter S × W) × Bool) : Type 0 where
    stored :
        (n : GpuNode) (w : W)
        → r ≡ ((record s { gpu_node_last = some n }, w), true)
        → TryOutcome s r
    not_stored : (w : W) → r ≡ ((s, w), false) → TryOutcome s r

  remember_outcome : (s : Reporter S) (x : Option GpuNode × W) → TryOutcome s (remember S api s x)
  unfolding remember
  remember_outcome s (none, w) = not_stored w refl
  remember_outcome s (some n, w) = stored n w refl

  answer_get_outcome :
      (now : ℕ) (s : Reporter S) (w : W) (g : Got GpuNode)
      → TryOutcome s (answer_get S api now s w g)
  unfolding answer_get
  answer_get_outcome now s w not_found = remember_outcome s _
  answer_get_outcome now s w (failed e) = not_stored w refl
  answer_get_outcome now s w (found n) = remember_outcome s _

  get_outcome :
      (now : ℕ) (s : Reporter S) (w : W) → TryOutcome s (get_and_update_gpu_node S api now (s, w))
  unfolding get_and_update_gpu_node
  get_outcome now s w = answer_get_outcome now s w _

  answer_update_outcome :
      (now : ℕ) (s : Reporter S) (x : Option GpuNode × W)
      → TryOutcome s (answer_update S api now s x)
  unfolding answer_update
  answer_update_outcome now s (none, w) = get_outcome now s w
  answer_update_outcome now s (some n, w) = remember_outcome s (some n, w)

  ensure_from_outcome :
      (now : ℕ) (s : Reporter S) (w : W) (o : Option GpuNode)
      → TryOutcome s (ensure_from S api now s w o)
  unfolding ensure_from
  ensure_from_outcome now s w none = get_outcome now s w
  ensure_from_outcome now s w (some last) = answer_update_outcome now s _

  -- ensureGpuNode returns no error exactly where the server stored the report, by an update or by a
  -- creation; then the reporter keeps what the server answered, and else it is as it was.
  pub ensure_gpu_node_outcome :
      (now : ℕ) (s : Reporter S) (w : W) → TryOutcome s (ensure_gpu_node S api now (s, w))
  unfolding ensure_gpu_node
  ensure_gpu_node_outcome now s w = ensure_from_outcome now s w s.gpu_node_last

  -- A report keeps the resource version of the GpuNode that it is made from.
  version_kept :
      (now : ℕ) (node_name : String) (base : GpuNode) (ngi : Option (NodeGpuInfo S))
      (prm : Option (Map PodResources))
      → (to_gpu_node S now node_name (some base) ngi prm).resource_version ≡ base.resource_version
  unfolding to_gpu_node base_node with_info with_pods
  version_kept now node_name base none none = refl
  version_kept now node_name base none (some prm) = refl
  version_kept now node_name base (some ngi) none = refl
  version_kept now node_name base (some ngi) (some prm) = refl

  module _ (s : Reporter S) (w : W) (last : GpuNode) (kept : s.gpu_node_last ≡ some last)
      (versioned : str_eq last.resource_version "" ≡ false)
      (gone : api.get s.node_name w ≡ not_found)
      (no_update : (n : GpuNode) → api.update n w ≡ (none, w))
      (rejects : (n : GpuNode)
        → str_eq n.resource_version "" ≡ false
        → api.create n w ≡ (none, w)) where
    fails_again : (now : ℕ) → ensure_gpu_node S api now (s, w) ≡ ((s, w), false)
    unfolding ensure_gpu_node ensure_from answer_update get_and_update_gpu_node answer_get remember
    fails_again now =
        let r = report_of S now s (some last) in
        let refused : api.create r w ≡ (none, w) = rejects r (
          rw (version_kept now s.node_name last s.last_node_gpu_info s.podresources_last)
            versioned) in
        ap (ensure_from S api now s w) kept
        ∙ ap (answer_update S api now s) (no_update r)
        ∙ ap (answer_get S api now s w) gone
        ∙ ap (λ o. remember S api s (api.create (report_of S now s o) w)) kept
        ∙ ap (remember S api s) refused

    -- Once a reporter keeps a stored GpuNode and that object is deleted, no try creates it again: the
    -- creation carries the old resource version, and a server that rejects such a creation (and an
    -- update of what is not there) stays as it is, however often the report is tried.
    pub never_created_again :
        (times : List ℕ) → produce_node_gpu_info_crd S api times (s, w) ≡ ((s, w), false)
    unfolding produce_node_gpu_info_crd
    never_created_again [] = refl
    never_created_again (now ∷ times) = rw (fails_again now) (never_created_again times)

  -- The first report of a reporter whose node has a GpuNode.
  pub first_report :
      (now : ℕ) (later : List ℕ) (s : Reporter S) (w v : W) (n m : GpuNode)
      → s.gpu_node_last ≡ none
      → api.get s.node_name w ≡ found n
      → api.update (report_of S now s (some n)) w ≡ (some m, v)
      → produce_node_gpu_info_crd S api (now ∷ later) (s, w)
        ≡ ((record s { gpu_node_last = some m }, v), true)
  unfolding produce_node_gpu_info_crd ensure_gpu_node ensure_from get_and_update_gpu_node answer_get
      remember
  first_report now later s w v n m h there took = rw (h, there, took) refl

-- A report without pods keeps the devices in use of the GpuNode that it is made from.
pub in_use_kept :
    (S : StringSet) (now : ℕ) (node_name : String) (base : GpuNode) (ngi : Option (NodeGpuInfo S))
    → (to_gpu_node S now node_name (some base) ngi none).spec.node_device_in_use
      ≡ base.spec.node_device_in_use
unfolding to_gpu_node base_node with_info with_pods
in_use_kept S now node_name base none = refl
in_use_kept S now node_name base (some ngi) = refl
