-- ===== src/NodeCache/Free.antt =====
-- What the cache answers, in terms of the GpuNode that was set last.
use nvidia_gpu_scheduler.Prelude.{
  ◌≡◌, Bool, true, false, ◌&&◌, not, List, [], ◌∷◌, Option, none, some, String, str_eq, lookup,
  lookup-insert, has_text, arith, if◌then◌else◌, length, ◌==◌,
}
use nvidia_gpu_scheduler.Api.{GpuNode, status_health}
use nvidia_gpu_scheduler.Sets.{StringSet}
use nvidia_gpu_scheduler.NodeCache.{
  GpuNodeCache, set_gpu_node, list_of, free_device_of, get_free_device_by_model, check_node_health,
}

-- The free devices of a model on a node: those listed under the model and not in use.
abbrev pub is_free : String → String → Option GpuNode → Bool
is_free model d none = false
is_free model d (some n) =
    has_text (list_of (lookup model n.spec.models)) d && not (has_text n.spec.node_device_in_use d)

module _ (S : StringSet) where
  has-free_device_of :
      (model d : String) (o : Option GpuNode)
      → S.has (free_device_of S model o) d ≡ is_free model d o
  unfolding free_device_of
  has-free_device_of model d none = S.has-new d
  has-free_device_of model d (some n) = go (list_of (lookup model n.spec.models))
    where
      go :
          (xs : List String)
          → S.has
              (if length xs == 0
                then S.new
                else S.delete (S.insert S.new xs) n.spec.node_device_in_use)
              d
            ≡ (has_text xs d && not (has_text n.spec.node_device_in_use d))
      go [] = S.has-new d
      go (x ∷ xs) = ground (
        arith,
        S.has-delete (S.insert S.new (x ∷ xs)) n.spec.node_device_in_use d,
        S.has-insert S.new (x ∷ xs) d,
        S.has-new d,
      )

  -- GetFreeDeviceByModel returns exactly the devices that the node's cached GpuNode lists under the
  -- model and does not list as in use; it returns none for a node that is not cached.
  pub has-get_free_device_by_model :
      (node model d : String) (c : GpuNodeCache)
      → S.has (get_free_device_by_model S node model c) d
        ≡ is_free model d (lookup node c.gpu_node_map)
  unfolding get_free_device_by_model
  has-get_free_device_by_model node model d c =
      has-free_device_of model d (lookup node c.gpu_node_map)

  -- After SetGpuNode the cache answers for that node from the new GpuNode, and for every other node
  -- as before: its health, its devices in use and its free devices of a model.
  pub set_gpu_node_lem :
      (node other model : String) (value : GpuNode) (c : GpuNodeCache)
      → (check_node_health other (set_gpu_node node value c) ≡ (
          if str_eq node other
          then (true, str_eq value.status.health status_health)
          else check_node_health other c))
        × ((d : String)
            → S.has (get_free_device_by_model S other model (set_gpu_node node value c)) d ≡ (
                if str_eq node other
                then is_free model d (some value)
                else is_free model d (lookup other c.gpu_node_map)))
  unfolding check_node_health set_gpu_node
  set_gpu_node_lem node other model value c = (
    ground (arith, lookup-insert node other value c.gpu_node_map),
    λ d.
        rw (has-get_free_device_by_model other model d (set_gpu_node node value c))
          (ground (arith, lookup-insert node other value c.gpu_node_map)),
  )
