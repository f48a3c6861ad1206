-- ===== src/Report/Content.antt =====
-- What the scheduler reads from a report.
use nvidia_gpu_scheduler.Prelude.{
  ℕ, ◌≡◌, refl, Bool, false, ◌&&◌, ◌||◌, not, List, [], ◌∷◌, Option, none, some, String, Map,
  lookup, has_text, has_text-append, arith,
}
use nvidia_gpu_scheduler.Sets.{StringSet}
use nvidia_gpu_scheduler.Api.{GpuNode}
use nvidia_gpu_scheduler.NodeCache.{list_of}
use nvidia_gpu_scheduler.NodeCache.Free.{is_free}
use nvidia_gpu_scheduler.Report.{
  ContainerDevices, ContainerResources, PodResources, device_ids_of, container_ids_of,
  get_busy_device_set, NodeGpuInfo, map_set_to_list, with_info, with_pods, to_gpu_node,
}

-- A device is listed by some container of some pod.
abbrev pub some_device : List ContainerDevices → String → Bool
some_device [] d = false
some_device (c ∷ cs) d = has_text c.device_ids d || some_device cs d

abbrev pub some_container : List ContainerResources → String → Bool
some_container [] d = false
some_container (c ∷ cs) d = some_device c.devices d || some_container cs d

abbrev pub is_busy : Map PodResources → String → Bool
is_busy [] d = false
is_busy ((k, pr) ∷ prm) d = some_container pr.containers d || is_busy prm d

has-device_ids_of :
    (cs : List ContainerDevices) (d : String) → has_text (device_ids_of cs) d ≡ some_device cs d
unfolding device_ids_of
has-device_ids_of [] d = refl
has-device_ids_of (c ∷ cs) d =
    rw (has_text-append c.device_ids (device_ids_of cs) d, has-device_ids_of cs d) refl

has-container_ids_of :
    (cs : List ContainerResources) (d : String)
    → has_text (container_ids_of cs) d ≡ some_container cs d
unfolding container_ids_of
has-container_ids_of [] d = refl
has-container_ids_of (c ∷ cs) d =
    rw
      (
        has_text-append (device_ids_of c.devices) (container_ids_of cs) d,
        has-device_ids_of c.devices d,
        has-container_ids_of cs d,
      )
      refl

has-get_busy_device_set :
    (prm : Map PodResources) (d : String) → has_text (get_busy_device_set prm) d ≡ is_busy prm d
unfolding get_busy_device_set
has-get_busy_device_set [] d = refl
has-get_busy_device_set ((k, pr) ∷ prm) d =
    rw
      (
        has_text-append (container_ids_of pr.containers) (get_busy_device_set prm) d,
        has-container_ids_of pr.containers d,
        has-get_busy_device_set prm d,
      )
      refl

module _ (S : StringSet) where
  -- A device is in the set of a model, if the model has one.
  abbrev pub in_model : Option S.Set → String → Bool
  in_model none d = false
  in_model (some s) d = S.has s d

  has-map_set_to_list :
      (m : Map S.Set) (model d : String)
      → has_text (list_of (lookup model (map_set_to_list S m))) d ≡ in_model (lookup model m) d
  unfolding map_set_to_list lookup
  has-map_set_to_list [] model d = refl
  has-map_set_to_list ((k, s) ∷ m) model d =
      ground (arith, S.has_text-to_list s d, has-map_set_to_list m model d)

  -- In a report with the checker's gpus and the pods' devices, a device counts as free for a model
  -- exactly if the checker found it under the model and no container of a pod lists it, whatever the
  -- report before it said.
  pub is_free-to_gpu_node :
      (now : ℕ) (node_name : String) (base : Option GpuNode) (ngi : NodeGpuInfo S)
      (prm : Map PodResources) (model d : String)
      → is_free model d (some (to_gpu_node S now node_name base (some ngi) (some prm)))
        ≡ (in_model (lookup model ngi.models) d && not (is_busy prm d))
  unfolding to_gpu_node with_info with_pods
  is_free-to_gpu_node now node_name base ngi prm model d =
      rw (has-map_set_to_list ngi.models model d, has-get_busy_device_set prm d) refl
